-- ===== src/Fabric/Resources/Ends.antt =====
-- How the constructors of src/net/fabric/fabric.hpp end, with each answer of libfabric, and what
-- they leave.
use sqkio.Common.{ℕ, ◌≡◌, ◌⊎◌, inl, inr, refl, Bool, true, false, Option, none, some, arith}
use sqkio.Common.Update.{update, update_self}
use sqkio.Outcome.{ok, abort}
use sqkio.Fabric.Events.{
  active, gone, event_read, shutdown, add_ep, del_ep, open_active, close_endpoint, wake_active,
  poll,
}
use sqkio.Fabric.Resources.{
  Library, constructed, threw, EndpointAnswers, opened, without_object, bound, construct_endpoint,
  destroy_endpoint,
}

module _ {W I : Type 0} (moved_from : I → I) (fuel : ℕ) (l : Library W I) (fid p : ℕ)
    (closed : l.is_open fid ≡ false) (unknown : l.queue.peps fid ≡ none) where
  -- An endpoint that its destructor ends as it was before.
  abbrev pub Restores : Library W I → Type 0
  Restores l' =
      (l'' : Library W I) × (destroy_endpoint fid p l' ≡ ok l'')
      × ((q : ℕ) → l''.is_open q ≡ l.is_open q)
      × ((q : ℕ) → l''.queue.peps q ≡ l.queue.peps q)

  -- The fid is open, and the event queue leads a shutdown for it to an object that is gone.
  abbrev pub Dangles : Library W I → Type 0
  Dangles l' =
      (l'.is_open fid ≡ true)
      × (l'.queue.peps fid ≡ some p)
      × ((bytes : ℕ) (info : I)
          → poll moved_from fuel (event_read bytes shutdown fid info) l'.queue ≡ abort)

  -- The four ways to end.
  abbrev pub Result : EndpointAnswers → Type 0
  Result a =
      ((a.endpoint ≡ true)
        × (a.bind_eq ≡ true)
        × (a.bind_cq ≡ true)
        × (bound a.bind_av ≡ true)
        × (a.enable ≡ true)
        × (l' : Library W I) × (construct_endpoint a fid p l ≡ constructed l')
        × Restores l')
      ⊎ ((a.endpoint ≡ false) × (construct_endpoint a fid p l ≡ threw l))
      ⊎ ((a.endpoint ≡ true)
          × (a.bind_eq ≡ false)
          × (construct_endpoint a fid p l ≡ threw (opened fid l)))
      ⊎ ((a.endpoint ≡ true)
          × (a.bind_eq ≡ true)
          × ((a.bind_cq ≡ false) ⊎ (bound a.bind_av ≡ false) ⊎ (a.enable ≡ false))
          × (l' : Library W I) × (construct_endpoint a fid p l ≡ threw l')
          × Dangles l')

  -- The endpoint under construction, when it has been registered.
  abbrev registered : Library W I
  registered = record (opened fid l) { queue = open_active fid p l.queue }

  found : registered.queue.peps fid ≡ some p
  unfolding open_active add_ep
  found = ground (arith, unknown)

  registered-Restores : Restores registered
  unfolding destroy_endpoint open_active add_ep del_ep close_endpoint
  registered-Restores = (
    record registered {
      queue = close_endpoint fid p registered.queue;
      is_open = update registered.is_open fid false;
    },
    ground arith,
    λ q. ground (arith, closed),
    λ q. ground (arith, unknown),
  )

  threw-Dangles : Dangles (without_object p registered)
  unfolding open_active add_ep poll
  threw-Dangles = (
    ground arith,
    found,
    λ bytes info.
        rw
          (
            poll,
            found,
            wake_active,
            update_self (update l.queue.object p (active fid (record { handle = none }))) p gone,
          )
          refl,
  )

  by_answers :
      (e q c : Bool) (v : Option Bool) (n : Bool)
      → Result (record { endpoint = e; bind_eq = q; bind_cq = c; bind_av = v; enable = n })
  unfolding construct_endpoint
  by_answers false q c v n = inr (inl (refl, refl))
  by_answers true false c v n = inr (inr (inl (refl, refl, refl)))
  by_answers true true false v n =
      inr (inr (inr (refl, refl, inl refl, without_object p registered, refl, threw-Dangles)))
  by_answers true true true (some false) n =
      inr (inr (inr (refl, refl, inr (inl refl), without_object p registered, refl, threw-Dangles)))
  by_answers true true true (some true) false =
      inr (inr (inr (refl, refl, inr (inr refl), without_object p registered, refl, threw-Dangles)))
  by_answers true true true (some true) true =
      inl (refl, refl, refl, refl, refl, registered, refl, registered-Restores)
  by_answers true true true none false =
      inr (inr (inr (refl, refl, inr (inr refl), without_object p registered, refl, threw-Dangles)))
  by_answers true true true none true =
      inl (refl, refl, refl, refl, refl, registered, refl, registered-Restores)

  -- For a fid that is neither open nor registered, the constructor of `Endpoint` ends in one of
  -- four ways. All its calls succeed, and the destructor takes back what it opened and registered.
  -- Or it throws: with nothing changed where `fi_endpoint` fails; with the fid left open where the
  -- bind to the event queue fails; and where a later call fails, with the fid left open and
  -- registered, so that a shutdown event for it makes `poll` use an object that is gone.
  pub endpoint_ends : (a : EndpointAnswers) → Result a
  endpoint_ends a = by_answers a.endpoint a.bind_eq a.bind_cq a.bind_av a.enable
