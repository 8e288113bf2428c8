-- ===== src/IoThread/Progress.antt =====
-- A run of `IOThreadSynthetic` keeps the invariant, and never waits with nothing in flight.
use mcmqhost.Prelude.{
  ℕ, zero, suc, ◌+◌, ◌≤◌, ◌<◌, max, ◌≡◌, refl, inl, inr, List, [], ◌∷◌, ltb, length, arith,
  Bool-cases,
}
use mcmqhost.IoThread.{Host, Thread, new_thread, submit_io_request, device_completes}
use mcmqhost.IoThread.OnSome.{OnSome, OnSome-bind, OnSome-map, OnSome-both}
use mcmqhost.IoThread.Invariant.{
  Inv, new_thread-Inv, submit_io_request-Inv, submit_io_request-counts,
  wait_for_completed_requests-Inv, device_completes-Inv,
}
use mcmqhost.IoThread.Synthetic.{
  Workload, Draw, Event, completes, wakes, generate_request, submit_next, on_request_completed,
  submit_initial, step, run_events, run_impl,
}

-- While requests are left to complete, one more is submitted than completed.
abbrev pub Ahead {ℓ} : {D : Type ℓ} → ℕ → Thread D → Type 0
Ahead count t = t.nr_completed_requests < count → t.nr_completed_requests < t.nr_submitted_requests

module _ {ℓ} {D : Type ℓ} (depth count : ℕ) (h : Host D) (w : Workload) (draws : ℕ → Draw) where
  -- What `run_impl` submits: `average_enqueued_requests` at the start, and then up to
  -- `request_count`.
  abbrev pub Submitted : ℕ → Type 0
  Submitted n = (w.average_enqueued_requests ≤ n) × (n ≤ max count w.average_enqueued_requests)

  abbrev pub Steady : Thread D → Type 0
  Steady t = Ahead count t × Submitted t.nr_submitted_requests

  abbrev pub Good : Thread D → Type ℓ
  Good t = Inv depth count 0 t × Steady t

  submit_next-Inv :
      (left : ℕ) (t : Thread D)
      → Inv depth count left t
      → OnSome
          (λ t'.
            Inv depth count left t'
            × ((t'.nr_submitted_requests ≡ t.nr_submitted_requests + 1)
                × (t'.nr_completed_requests ≡ t.nr_completed_requests)))
          (submit_next h w draws t)
  unfolding submit_next
  submit_next-Inv left t v =
      let shape = generate_request w (draws t.nr_submitted_requests) in
      OnSome-both _ _ (submit_io_request h w.nsid shape t)
        (submit_io_request-Inv depth count h w.nsid shape left t v)
        (submit_io_request-counts depth count h w.nsid shape t)

  on_request_completed-Inv :
      (left : ℕ) (t : Thread D)
      → Inv depth count left t
      → Submitted t.nr_submitted_requests
      → OnSome (λ t'. Inv depth count left t' × Steady t') (on_request_completed h w draws t)
  unfolding on_request_completed
  on_request_completed-Inv left t v q =
      elim (Bool-cases (ltb t.nr_submitted_requests t.request_count)) [
        | inl more ↦ rw more (
            OnSome-map _ _ (submit_next h w draws t) (submit_next-Inv left t v) (λ t' (v', counts).
              (
                v',
                (
                  (λ _. omega (arith, counts, v.core.submitted)),
                  (ground (arith, counts, q), ground (arith, counts, q, more, v.core.count_eq)),
                ),
              )))
        | inr over ↦ rw over (v, (ground (arith, v.core.submitted, v.core.count_eq), q))
      ]

  submit_initial-Good :
      (n : ℕ) (t : Thread D)
      → Inv depth count 0 t
      → t.nr_completed_requests ≡ 0
      → 0 < n + t.nr_submitted_requests
      → n + t.nr_submitted_requests ≡ w.average_enqueued_requests
      → OnSome Good (submit_initial h w draws n t)
  unfolding submit_initial
  submit_initial-Good zero t v z p e = (v, ((λ _. omega arith), (omega arith, omega arith)))
  submit_initial-Good (suc n) t v z p e =
      OnSome-bind _ Good (submit_next h w draws t) (submit_initial h w draws n)
        (submit_next-Inv 0 t v)
        (λ t' (v', counts).
          submit_initial-Good n t' v' (omega (arith, counts)) (omega (arith, counts))
            (omega (arith, counts, e)))

  device_completes-counts :
      (i : ℕ) (t : Thread D)
      → OnSome
          (λ t'.
            (t'.nr_submitted_requests ≡ t.nr_submitted_requests)
            × (t'.nr_completed_requests ≡ t.nr_completed_requests))
          (device_completes i t)
  unfolding device_completes
  device_completes-counts i t = ground arith

  step-Good : (e : Event) (t : Thread D) → Good t → OnSome Good (step h w draws e t)
  unfolding step
  step-Good (completes i) t (v, (a, q)) =
      OnSome-map _ Good (device_completes i t)
        (OnSome-both _ _ (device_completes i t) (device_completes-Inv depth count i t v)
          (device_completes-counts i t))
        (λ t' (v', counts). (
          v',
          (
            (λ p. omega (arith, counts, a (omega (arith, counts)))),
            (omega (arith, counts, q), omega (arith, counts, q)),
          ),
        ))
  step-Good wakes t (v, (a, q)) = elim (Bool-cases (ltb t.nr_completed_requests t.request_count)) [
    | inl more ↦ rw more (
        wait_for_completed_requests-Inv depth count h (on_request_completed h w draws) (Ahead count)
          Submitted on_request_completed-Inv t v a q)
    | inr over ↦ rw over (v, (a, q))
  ]

  pub run_events-Good :
      (es : List Event) (t : Thread D) → Good t → OnSome Good (run_events h w draws es t)
  unfolding run_events
  run_events-Good [] t g = g
  run_events-Good (e ∷ es) t g =
      OnSome-bind Good Good (step h w draws e t) (run_events h w draws es) (step-Good e t g)
        (λ t' g'. run_events-Good es t' g')

  -- `run_impl` with at least one request enqueued at the start, on a new thread: after any events,
  -- unless the driver or the memory failed, the number of requests in flight is that of the requests
  -- at the device and of those completed, and at most the queue depth; each request submitted is
  -- completed, in flight or waits; one waits only while the queue depth is used up; the counters by
  -- kind add up; from `average_enqueued_requests` up to the larger of that and `request_count` are
  -- submitted, and more than are completed until `request_count` are.
  pub run_impl-Good :
      (es : List Event) (d : D) (clock : ℕ → ℕ)
      → 0 < w.average_enqueued_requests
      → OnSome Good (run_impl h w draws es (new_thread d depth count clock))
  unfolding run_impl new_thread
  run_impl-Good es d clock p =
      OnSome-bind Good Good
        (submit_initial h w draws w.average_enqueued_requests (new_thread d depth count clock))
        (run_events h w draws es)
        (submit_initial-Good w.average_enqueued_requests _ (new_thread-Inv depth count d clock) refl
          (omega arith) (omega arith))
        (λ t g. run_events-Good es t g)

  pub Good-in_flight :
      (t : Thread D)
      → 0 < depth
      → Good t
      → t.nr_completed_requests < count
      → 0 < length t.at_device + length t.completed_requests
  Good-in_flight t p (v, (a, q)) more =
      ground (arith, a more, v.core.inflight, v.core.submitted, v.busy)

  -- With a queue depth of at least one and at least one request enqueued at the start, after any
  -- events of a run, unless the driver or the memory failed: as long as fewer than `request_count`
  -- requests are completed, one is at the device or completed and not yet taken. So `run_impl` never
  -- waits with nothing in flight.
  pub run_impl-in_flight :
      (es : List Event) (d : D) (clock : ℕ → ℕ)
      → 0 < w.average_enqueued_requests
      → 0 < depth
      → OnSome
          (λ t.
            t.nr_completed_requests < count → 0 < length t.at_device + length t.completed_requests)
          (run_impl h w draws es (new_thread d depth count clock))
  run_impl-in_flight es d clock p q =
      OnSome-map Good _ (run_impl h w draws es (new_thread d depth count clock))
        (run_impl-Good es d clock p) (λ t g. Good-in_flight t q g)
