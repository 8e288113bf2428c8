-- ===== src/IoThread/Tests.antt =====
-- Runs of an I/O thread over a device that takes everything, and its theorems at concrete inputs.
use mcmqhost.Prelude.{
  ℕ, ◌+◌, ◌-◌, ◌*◌, ◌%◌, ◌<◌, ◌≤◌, max, ◌≡◌, refl, List, [], ◌∷◌, Option, none, some, arith, length,
  replicate,
}
use mcmqhost.IoThread.{Host, Thread, new_thread}
use mcmqhost.Memory.{Table, allocate_pages, free}
use mcmqhost.IoThread.OnSome.{OnSome}
use mcmqhost.IoThread.Synthetic.{
  Workload, Event, completes, wakes, generate_request, run_events, run_impl,
}
use mcmqhost.IoThread.Total.{Succeeds}
use mcmqhost.IoThread.Finish.{Ends, run_impl-finishes, run_impl-left_over}
use mcmqhost.IoThread.Samples.{
  counting, workload, draw, started, whole, all_events, ending, all_ran, all_completed,
}
use mcmqhost.IoThread.Zipf.{candidate, accepted, sample, sample_lem}
use mcmqhost.IoThread.Progress.{Good, run_impl-Good, run_impl-in_flight}
use mcmqhost.IoThread.Requests.{generate_request_end}

abbrev events : List Event
events = completes 1 ∷ wakes ∷ completes 0 ∷ completes 0 ∷ wakes ∷ []

-- What a run leaves: requests submitted, completed, at the device and waiting.
abbrev summary : Option (Thread ℕ) → List ℕ
summary none = []
summary (some t) =
    t.nr_submitted_requests
    ∷ t.nr_completed_requests
    ∷ length t.at_device
    ∷ length t.waiting_requests
    ∷ []

run_summary : summary (run_impl counting workload draw events started) ≡ 5 ∷ 3 ∷ 2 ∷ 0 ∷ []
unfolding run_impl new_thread
run_summary = refl

run_impl-Good_example :
    OnSome (Good 2 5 counting workload draw) (run_impl counting workload draw events started)
run_impl-Good_example = run_impl-Good 2 5 counting workload draw events 0 (λ n. n) (omega arith)

run_impl-in_flight_example :
    OnSome
      (λ t. t.nr_completed_requests < 5 → 0 < length t.at_device + length t.completed_requests)
      (run_impl counting workload draw events started)
run_impl-in_flight_example =
    run_impl-in_flight 2 5 counting workload draw events 0 (λ n. n) (omega arith) (omega arith)

-- An aligned workload of the whole program's kind, with the last sector drawn.
abbrev aligned : Workload
aligned = record workload { request_size_mean = 32; address_alignment = 32; max_lsa = 1024 }

generate_request_end_example :
    let r = generate_request aligned (draw 1023) in
    (r.pos ≡ 992 * 512)
    × (992 < 1024)
    × (1024 < 992 + 32 → 1024 * 512 < r.pos + r.size)
    × (1024 * 512 < r.pos + r.size → 1024 < 992 + 32)
    × (0 < 32 → 1024 % 32 ≡ 0 → 32 ≤ 32 → r.pos + r.size ≤ 1024 * 512)
generate_request_end_example =
    generate_request_end aligned (draw 1023)
      (record {
        some_sectors = omega arith;
        uniform_lt = omega arith;
        rank_pos = omega arith;
        rank_le = omega arith;
      })
      (omega arith) (omega arith) (omega arith)

-- The memory's own allocator, with 16 free pages, under a driver that takes everything.
abbrev paged : Host Table
paged = record {
  allocate_pages = allocate_pages;
  free = free;
  write_async = λ req t. some t;
  read_async = λ req t. some t;
}

abbrev sixteen_pages : Table
sixteen_pages = record {
  holes = record { slot = 0; base = 0x1000; len = 0x10000 } ∷ [];
  free_slots = replicate 511 1;
}

abbrev paged_run : Option (Thread Table)
paged_run = run_impl paged workload draw events (new_thread sixteen_pages 2 5 (λ n. n))

ran : (t : Thread Table) × (paged_run ≡ some t)
unfolding run_impl new_thread allocate_pages free mcmqhost.Memory.roundup
ran = ending paged_run refl

run_impl-finishes_example :
    (fs : List Event) × Succeeds
      (Ends 2 5 paged workload draw (omega arith))
      (run_events paged workload draw fs ran.0)
run_impl-finishes_example =
    run_impl-finishes 2 5 paged workload draw (omega arith) events sixteen_pages (λ n. n)
      (omega arith) ran.1

run_impl-left_over_example :
    (all_ran.0.nr_submitted_requests ≡ max 5 3)
    × (all_ran.0.inflight_requests + length all_ran.0.waiting_requests
        ≡ max 5 3 - all_ran.0.nr_completed_requests)
    × (all_ran.0.inflight_requests
        ≡ length all_ran.0.at_device + length all_ran.0.completed_requests)
run_impl-left_over_example =
    run_impl-left_over 2 5 counting workload draw all_events 0 (λ n. n) (omega arith) all_ran.0
      all_ran.1 all_completed

sample_lem_example :
    (sample whole 10 1 (0 ∷ 2 ∷ []) ≡ none)
    × (sample whole 10 1 (0 ∷ 2 ∷ 7 ∷ 5 ∷ []) ≡ some (candidate whole 10 1 7, 5 ∷ []))
    × (1 ≤ candidate whole 10 1 7)
    × (candidate whole 10 1 7 ≤ 10)
unfolding accepted
sample_lem_example =
    sample_lem whole 10 1 (0 ∷ 2 ∷ []) 7 (5 ∷ []) (omega arith) (refl, (refl, tt)) refl
