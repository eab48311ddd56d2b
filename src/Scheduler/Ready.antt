-- ===== src/Scheduler/Ready.antt =====
-- A scheduler of src/core/core.hpp with the handle 9 in its queue, for the tests of what enqueues.
use sqkio.Common.{ℕ, false, arith}
use sqkio.Ring.Calls.Valid.{IsValid}
use sqkio.Ring.Elements.{scale}
use sqkio.Scheduler.{SqkScheduler}

abbrev pub one_ready : SqkScheduler ℕ
one_ready = record {
  stopped = false;
  queue = record {
    size = 4;
    mask = 3;
    capacity = 3;
    htd_max = 0;
    memzone_size = 512;
    prod = record { head = 1; tail = 1 };
    cons = record { head = 0; tail = 0 };
    mem = λ q. 9;
  };
}

pub one_ready-IsValid : IsValid 8 2 one_ready.queue
unfolding scale
one_ready-IsValid = omega arith
