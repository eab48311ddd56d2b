-- ===== src/Fabric/Infos/Tests.antt =====
-- `Info` objects of src/net/fabric/fabric.hpp that own lists, and what becomes of them.
use sqkio.Common.{ℕ, ◌≡◌, ◌≢◌, ◌⊎◌, refl, none, some, bit_or, arith}
use sqkio.Common.Update.{update}
use sqkio.Outcome.{ok, ◌>>=◌}
use sqkio.Fabric.Infos.{
  FiInfo, absent, null, owns, Infos, from_raw, construct, destroy, move, with_caps, with_mode,
  with_addr_format,
}
use sqkio.Fabric.Infos.Owned.{Reach, start, constructed}
use sqkio.Fabric.Infos.Laws.{destroy_frees, assign_leaks, chain_lem}

abbrev empty_info : FiInfo ℕ ℕ
empty_info = record {
  caps = 1;
  mode = 0;
  addr_format = 0;
  src_addr = 0;
  dest_addr = 0;
  ep_attr = 0;
  rx_attr = 0;
  domain_attr = 0;
  fabric_attr = 0;
}

abbrev nothing : Infos ℕ ℕ
nothing = record { raw = λ q. none; info = λ x. absent }

-- The object 1 owns the list 10.
abbrev one_info : Infos ℕ ℕ
one_info = from_raw 1 10 (record nothing { raw = update nothing.raw 10 (some empty_info) })

-- The object 2 owns the list 20 too.
abbrev two_infos : Infos ℕ ℕ
two_infos = from_raw 2 20 (record one_info { raw = update one_info.raw 20 (some empty_info) })

one_info-Reach : Reach one_info
unfolding construct from_raw
one_info-Reach = constructed 1 10 empty_info start refl refl refl

two_infos-Reach : Reach two_infos
unfolding construct from_raw
two_infos-Reach = constructed 2 20 empty_info one_info-Reach refl refl refl

destroy_frees_example :
    (s' : Infos ℕ ℕ) × (destroy 1 two_infos ≡ ok s')
    × (s'.info 1 ≡ absent)
    × ((q : ℕ)
        → ((two_infos.info 1 ≡ owns q) × (two_infos.raw q ≢ none) × (s'.raw q ≡ none))
          ⊎ ((two_infos.info 1 ≢ owns q) × (s'.raw q ≡ two_infos.raw q)))
unfolding from_raw
destroy_frees_example = destroy_frees two_infos-Reach 1 (λ e. cc)

assign_leaks_example :
    ((move 1 2 two_infos).raw 10 ≢ none)
    × ((z : ℕ) → (move 1 2 two_infos).info z ≢ owns 10)
    × ((move 1 2 two_infos).info 1 ≡ owns 20)
    × ((move 1 2 two_infos).info 2 ≡ null)
unfolding from_raw
assign_leaks_example = assign_leaks two_infos-Reach 1 2 10 20 (λ e. omega arith) refl refl

chain_lem_example :
    (i : FiInfo ℕ ℕ) × (s' : Infos ℕ ℕ) × (two_infos.raw 10 ≡ some i)
    × ((with_caps 6 1 3 two_infos >>= with_mode 8 3 4 >>= with_addr_format 2 4 5) ≡ ok s')
    × (s'.raw 10
        ≡ some (record i { caps = bit_or i.caps 6; mode = bit_or i.mode 8; addr_format = 2 }))
    × (s'.info 5 ≡ owns 10)
    × (s'.info 1 ≡ null)
    × (s'.info 3 ≡ null)
    × (s'.info 4 ≡ null)
unfolding from_raw
chain_lem_example =
    chain_lem two_infos-Reach 6 8 2 1 3 4 5 10 (λ e. omega arith) (λ e. omega arith)
      (λ e. omega arith) (λ e. omega arith) (λ e. omega arith) (λ e. omega arith) refl
