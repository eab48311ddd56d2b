-- ===== src/Fabric/Tests.antt =====
-- An event queue with a listener and a peer, and transfers, of src/net/fabric/fabric.hpp.
use sqkio.Common.{ℕ, ◌==◌, ◌≡◌, refl, zero, suc, [], ◌∷◌, none, some, true, false, inr, arith}
use sqkio.Common.Update.{update, update_all}
use sqkio.Outcome.{ok, abort, ◌>>=◌}
use sqkio.Ring.Calls.Valid.{contents}
use sqkio.Ring.Elements.{scale}
use sqkio.Scheduler.Ready.{one_ready, one_ready-IsValid}
use sqkio.Awaker.{Awaker, VoidAwaker, suspends, wake, void_wake}
use sqkio.Fabric.Events.{
  Object, passive, active, gone, Fabric, connreq, shutdown, other, event_read, bytes_read,
  open_passive, open_active, add_ep, next, next_resumed, accept, poll,
}
use sqkio.Fabric.Events.Registered.{HasFid}
use sqkio.Fabric.Events.Reach.{Reach, started, passive_opened, active_opened}
use sqkio.Fabric.Events.Polls.{poll_finds, poll_unregistered}
use sqkio.Fabric.Events.Lost.{request_lost, accept_woken_once}
use sqkio.Fabric.Resources.{Library, EndpointAnswers}
use sqkio.Fabric.Resources.Ends.{Result, endpoint_ends}
use sqkio.Fabric.Completions.{
  void_waker, Transfers, Flags, ErrEntry, error_available, one, returned, copied, waiting, Answer,
  success, try_again, cq_poll, recv, recv_resumed,
}
use sqkio.Fabric.Completions.Completes.{recv_completes}

abbrev moved : ℕ → ℕ
moved info = 0

abbrev closed_fabric : Fabric ℕ ℕ
closed_fabric = record {
  map = λ fid. none;
  peps = λ fid. none;
  signal = λ a. record { handle = none };
  object = λ p. gone;
  scheduler = one_ready;
}

-- The listener with the fid 70 stands at 1, the peer with the fid 80 at 2.
abbrev two_open : Fabric ℕ ℕ
two_open = open_active 80 2 (open_passive 70 1 0 closed_fabric)

two_open-Reach : Reach moved 1 two_open
unfolding open_passive open_active add_ep
two_open-Reach =
    active_opened 80 2 (open_passive 70 1 0 closed_fabric)
      (passive_opened 70 1 0 closed_fabric (started closed_fabric (λ fid. refl) (λ p. refl)) refl
        (λ q has. has))
      refl
      (update_all (λ (q : ℕ) (x : Object ℕ ℕ). ¬ HasFid 80 x) closed_fabric.object 1
        (passive 70 (record { handle = none; ret = 0 })) (λ e. omega arith) (λ q ne has. has))

abbrev listens : Awaker ℕ ℕ
listens = record { handle = none; ret = 0 }

abbrev stays : VoidAwaker ℕ
stays = record { handle = none }

two_open_lem :
    (two_open.object 1 ≡ passive 70 listens)
    × (two_open.object 2 ≡ active 80 stays)
    × (two_open.scheduler ≡ one_ready)
    × (two_open.map 80 ≡ none)
unfolding open_passive open_active add_ep
two_open_lem = (refl, refl, refl, refl)

poll_finds_example :
    (poll moved 1 (event_read 48 connreq 70 42) two_open ≡ (
      wake moved 1 42 listens two_open.scheduler >>= λ (a', s). ok (
        bytes_read 48,
        record two_open { object = update two_open.object 1 (passive 70 a'); scheduler = s },
      )))
    × (poll moved 1 (event_read 48 shutdown 80 42) two_open ≡ (
        void_wake 1 stays two_open.scheduler >>= λ (b', s). ok (
          bytes_read 48,
          record two_open { object = update two_open.object 2 (active 80 b'); scheduler = s },
        )))
poll_finds_example =
    poll_finds moved 1 two_open 48 42 70 1 listens 80 2 stays two_open-Reach two_open_lem.0
      two_open_lem.1

poll_unregistered_example :
    (poll moved 1 (event_read 48 connreq 70 42) closed_fabric ≡ abort)
    × (poll moved 1 (event_read 48 shutdown 70 42) closed_fabric ≡ abort)
poll_unregistered_example =
    poll_unregistered moved 1 closed_fabric 70 48 42
      (started closed_fabric (λ fid. refl) (λ p. refl)) (λ p has. has)

abbrev listening : Fabric ℕ ℕ
listening = record {
  map = λ fid. none;
  peps = update (λ fid. none) 70 (some 1);
  signal = λ a. record { handle = none };
  object = update (λ p. gone) 1 (passive 70 (record { handle = none; ret = 0 }));
  scheduler = one_ready;
}

listening-Reach : Reach moved 1 listening
unfolding open_passive add_ep
listening-Reach =
    passive_opened 70 1 0 closed_fabric (started closed_fabric (λ fid. refl) (λ p. refl)) refl
      (λ q has. has)

request_lost_example :
    (f1 : Fabric ℕ ℕ) × (f2 : Fabric ℕ ℕ) × (f3 : Fabric ℕ ℕ) × (f4 : Fabric ℕ ℕ) × (poll moved 1
        (event_read 48 connreq 70 42)
        listening
      ≡ ok (bytes_read 48, f1))
    × (next moved 1 1 5 f1 ≡ ok (suspends, f2))
    × (poll moved 1 (event_read 48 connreq 70 43) f2 ≡ ok (bytes_read 48, f3))
    × (contents 8 f3.scheduler.queue ≡ (9 ∷ []) ∷ (5 ∷ []) ∷ [])
    × (next_resumed moved 1 1 f3 ≡ ok (43, f4))
unfolding scale
request_lost_example =
    request_lost moved 2 0 listening 70 48 1 listens 5 42 43 listening-Reach refl refl
      one_ready-IsValid (omega arith)

accept_woken_once_example :
    (f1 : Fabric ℕ ℕ) × (f2 : Fabric ℕ ℕ) × (accept true 80 6 5 listening ≡ some f1)
    × (poll moved 1 (event_read 48 (other 2) 80 42) f1 ≡ ok (bytes_read 48, f2))
    × (contents 8 f2.scheduler.queue ≡ (9 ∷ []) ∷ (5 ∷ []) ∷ [])
    × (poll moved 1 (event_read 48 (other 2) 80 42) f2 ≡ ok (bytes_read 48, f2))
unfolding scale
accept_woken_once_example =
    accept_woken_once moved 2 0 listening 80 48 6 2 5 42 refl one_ready-IsValid (omega arith)

abbrev transfers : Transfers ℕ
transfers = record {
  waker = λ context. void_waker (record { handle = none });
  scheduler = one_ready;
}

abbrev receives : Flags
receives = record { is_recv = true; is_send = false; is_write = false; is_read = false }

abbrev reads : Flags
reads = record { is_recv = false; is_send = false; is_write = false; is_read = true }

abbrev failure : ErrEntry
failure = record { op_context = 3; flags = receives; buf = 77 }

recv_completes_example :
    (t1 : Transfers ℕ) × (t2 : Transfers ℕ) × (recv 11 0 success 3 5 transfers ≡ waiting t1)
    × (cq_poll 1 (error_available one failure) t1 ≡ ok (returned one, t2))
    × (contents 8 t2.scheduler.queue ≡ (9 ∷ []) ∷ (5 ∷ []) ∷ [])
    × (recv_resumed 3 t2 ≡ ok 77)
unfolding scale
recv_completes_example =
    recv_completes 2 0 transfers 5 3 11 0 (copied failure) failure (error_available one failure)
      refl refl (inr (refl, refl)) one_ready-IsValid (omega arith)

-- The second call succeeds.
abbrev answers : ℕ → Answer
answers zero = try_again
answers (suc n) = success

-- An event queue with a listener, where the peer's bind to the completion queue fails.
abbrev one_listener : Library ℕ ℕ
one_listener = record {
  queue = record closed_fabric {
    peps = update closed_fabric.peps 70 (some 1);
    object = update closed_fabric.object 1 (passive 70 (record { handle = none; ret = 0 }));
  };
  is_open = λ fid. fid == 70;
}

abbrev bind_fails : EndpointAnswers
bind_fails = record {
  endpoint = true;
  bind_eq = true;
  bind_cq = false;
  bind_av = none;
  enable = true;
}

endpoint_ends_example : Result moved 1 one_listener 80 2 refl refl bind_fails
endpoint_ends_example = endpoint_ends moved 1 one_listener 80 2 refl refl bind_fails
