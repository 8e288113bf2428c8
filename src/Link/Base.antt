-- ===== src/Link/Base.antt =====
-- `PCIeLink` (pcie_link.h, pcie_link.cpp): the start and the stop of the thread, and the wait for the
-- device, `wait_for_device_ready` with `set_ready`, in all their interleavings.
pub mod Wakeup
mod Tests
use mcmqhost.Prelude.{ℕ, Bool, true, false, List, [], ◌∷◌, Option, none, some, if◌then◌else◌}

-- A descriptor that is not open is -1, here `none`; `running` tells whether the thread can be joined.
-- `woken` and `closed` are what was written and closed, newest first.
pub record PcieLink : Type 0 where
  pub event_fd : Option ℕ
  pub stopped : Bool
  pub running : Bool
  pub woken : List (Option ℕ)
  pub closed : List (Option ℕ)

abbrev pub new_link : PcieLink
new_link = record { event_fd = none; stopped = false; running = false; woken = []; closed = [] }

-- `fd` is what `eventfd` returns. `none`: the assertion fails, or a thread that runs is replaced.
unfoldable pub start : Option ℕ → PcieLink → Option PcieLink
start none l = none
start (some fd) l =
    if l.running then none else some (record l { event_fd = some fd; running = true })

-- `none`: there is no thread to join.
unfoldable pub stop : PcieLink → Option PcieLink
stop l =
    if l.running
    then some (record l {
      event_fd = none;
      stopped = true;
      running = false;
      woken = l.event_fd ∷ l.woken;
      closed = l.event_fd ∷ l.closed;
    })
    else none

-- Where the thread in `wait_for_device_ready` is: about to read `device_ready`, behind having read
-- that it is not set, in `device_ready_cv.wait`, or back from it all.
pub data Waiter : Type 0 where
  checking found_unready asleep returned : Waiter

-- Where the thread in `set_ready` is: in front of the assignment, behind it, or behind the
-- notification.
pub data Setter : Type 0 where
  unset assigned notified : Setter

pub record Ready : Type 0 where
  pub device_ready : Bool
  pub waiter : Waiter
  pub setter : Setter

abbrev pub ready_start : Ready
ready_start = record { device_ready = false; waiter = checking; setter = unset }

-- `notify_all`, which wakes who sleeps then.
abbrev pub woken_up : Waiter → Waiter
woken_up checking = checking
woken_up found_unready = found_unready
woken_up asleep = checking
woken_up returned = returned

-- A step of one of the two threads. The mutex that the wait releases is the waiter's own, so that
-- nothing keeps the other thread from a step in between.
pub data Step : Ready → Ready → Type 0 where
  check_ready :
      {s : Setter}
      → Step
          (record { device_ready = true; waiter = checking; setter = s })
          (record { device_ready = true; waiter = returned; setter = s })
  check_unready :
      {s : Setter}
      → Step
          (record { device_ready = false; waiter = checking; setter = s })
          (record { device_ready = false; waiter = found_unready; setter = s })
  sleep :
      {b : Bool} {s : Setter}
      → Step
          (record { device_ready = b; waiter = found_unready; setter = s })
          (record { device_ready = b; waiter = asleep; setter = s })
  wake_for_nothing :
      {b : Bool} {s : Setter}
      → Step
          (record { device_ready = b; waiter = asleep; setter = s })
          (record { device_ready = b; waiter = checking; setter = s })
  set_ready :
      {b : Bool} {t : Waiter}
      → Step
          (record { device_ready = b; waiter = t; setter = unset })
          (record { device_ready = true; waiter = t; setter = assigned })
  notify_all :
      {b : Bool} {t : Waiter}
      → Step
          (record { device_ready = b; waiter = t; setter = assigned })
          (record { device_ready = b; waiter = woken_up t; setter = notified })

pub data Reach : Ready → Ready → Type 0 where
  nothing : {r : Ready} → Reach r r
  after : {r s t : Ready} → Reach r s → Step s t → Reach r t
