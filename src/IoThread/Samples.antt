-- ===== src/IoThread/Samples.antt =====
-- A small workload over a device that takes everything, for the tests here and of the export.
use mcmqhost.Prelude.{
  ℕ, ◌+◌, ◌-◌, ◌*◌, ◌≤◌, max, ltb, leb, ◌≡◌, refl, Bool, true, false, List, [], ◌∷◌, Option, none,
  some, arith,
}
use mcmqhost.IoThread.{Host, Thread, new_thread}
use mcmqhost.IoThread.Synthetic.{
  Workload, Draw, Event, completes, wakes, uniform, constant, run_impl,
}
use mcmqhost.IoThread.Zipf.{Real}

-- A device that only counts the buffers that are out.
abbrev pub counting : Host ℕ
counting = record {
  allocate_pages = λ size d. some (0x1000 * d, d + 1);
  free = λ addr size d. some d;
  write_async = λ req d. some d;
  read_async = λ req d. some d;
}

abbrev pub workload : Workload
workload = record {
  nsid = 1;
  sector_size = 512;
  max_lsa = 1000;
  request_size_distribution = constant;
  request_size_mean = 8;
  address_distribution = uniform;
  address_alignment = 0;
  average_enqueued_requests = 3;
}

abbrev pub draw : ℕ → Draw
draw n = record {
  is_read = true;
  negative = false;
  magnitude = 0;
  uniform_value = n;
  zipf_rank = 1;
}

abbrev pub started : Thread ℕ
started = new_thread 0 2 5 (λ n. n)

abbrev pub has_ended : {D : Type 0} → Option (Thread D) → Bool
has_ended none = false
has_ended (some t) = true

pub ending :
    {D : Type 0} (m : Option (Thread D)) → has_ended m ≡ true → (t : Thread D) × (m ≡ some t)
ending none h = cc
ending (some t) h = (t, refl)

-- All requests are completed.
abbrev pub all_events : List Event
all_events =
    completes 1 ∷ wakes ∷ completes 0 ∷ completes 0 ∷ wakes ∷ completes 0 ∷ completes 0 ∷ wakes ∷ []

pub all_ran : (t : Thread ℕ) × (run_impl counting workload draw all_events started ≡ some t)
unfolding run_impl new_thread
all_ran = ending (run_impl counting workload draw all_events started) refl

pub all_completed : 5 ≤ all_ran.0.nr_completed_requests
unfolding all_ran ending run_impl new_thread
all_completed = omega arith

-- Arithmetic on natural numbers that takes a draw as its own rank: `sample` takes a rank from 3 on
-- and turns down the smaller ones.
abbrev pub whole : Real ℕ
whole = record {
  add = λ x y. x + y;
  sub = λ x y. x - y;
  mul = λ x y. x * y;
  div = λ x y. x;
  neg = λ x. 0;
  of_nat = λ n. n;
  abs = λ x. x;
  larger = λ x y. max x y;
  exp = λ x. x;
  log = λ x. x;
  expm1 = λ x. x;
  log1p = λ x. x;
  gt = λ x y. ltb y x;
  ge = λ x y. leb 3 x;
  round_to_int = λ x. x;
  epsilon = 0;
}
