-- ===== src/IoThread/Finish.antt =====
-- The end of `run_impl`.
use mcmqhost.Prelude.{
  ℕ, zero, suc, ◌+◌, ◌-◌, ◌≤◌, ◌<◌, ◌⊎◌, max, ◌≡◌, refl, sym, ap, ◌∙◌, true, inl, inr, List, [],
  ◌∷◌, ◌++◌, none, some, ltb, length, length-append, arith, Option-cases, dec_lt,
}
use mcmqhost.IoThread.{
  Request, Host, Thread, ◌>>=◌, new_thread, wait_for_completed_requests, notify_request_completion,
  device_completes,
}
use mcmqhost.IoThread.OnSome.{OnSome-at}
use mcmqhost.IoThread.Synthetic.{
  Workload, Draw, Event, completes, wakes, step, run_events, run_impl,
}
use mcmqhost.IoThread.Progress.{Good, run_impl-Good, run_events-Good, Good-in_flight}
use mcmqhost.IoThread.Total.{Refuses, Succeeds, process_all-Tries}

device_completes-Succeeds {ℓ} :
    {D : Type ℓ} (t : Thread D)
    → 0 < length t.at_device
    → Succeeds
        (λ t'.
          (0 < length t'.completed_requests) × (t'.nr_completed_requests ≡ t.nr_completed_requests))
        (device_completes 0 t)
unfolding device_completes notify_request_completion
device_completes-Succeeds t some_there = at_first t.at_device refl
  where
    at_first :
        (reqs : List Request)
        → t.at_device ≡ reqs
        → Succeeds
            (λ t'.
              (0 < length t'.completed_requests)
              × (t'.nr_completed_requests ≡ t.nr_completed_requests))
            (device_completes 0 t)
    at_first [] e = absurd (omega (arith, ap length e, some_there))
    at_first (req ∷ rest) e =
        rw e (_, refl, (omega (arith, length-append t.completed_requests (req ∷ [])), refl))

module _ {ℓ} {D : Type ℓ} (depth count : ℕ) (h : Host D) (w : Workload) (draws : ℕ → Draw)
    (room : 0 < depth) where
  abbrev Advances : Thread D → Thread D → Type ℓ
  Advances t t' =
      Good depth count h w draws t' × (t.nr_completed_requests < t'.nr_completed_requests)

  -- With requests to complete, the thread wakes up, and this throws since a call of the driver or of
  -- the memory does.
  abbrev pub Throws : Thread D → Type ℓ
  Throws t = (t.nr_completed_requests < count) × (step h w draws wakes t ≡ none) × Refuses h

  wakes-Advances :
      (t : Thread D)
      → Good depth count h w draws t
      → t.nr_completed_requests < count
      → 0 < length t.completed_requests
      → Throws t ⊎ Succeeds (Advances t) (run_events h w draws (wakes ∷ []) t)
  unfolding run_events step wait_for_completed_requests
  wakes-Advances t g more some_done =
      let running : ltb t.nr_completed_requests t.request_count ≡ true =
        ground (arith, g.0.core.count_eq) in
      elim (process_all-Tries h w draws t.completed_requests
        (record t { completed_requests = [] })) [
          | inl (why, e) ↦ inl (more, rw (running, e) refl, why)
          | inr (t', e, n) ↦
              let ran : run_events h w draws (wakes ∷ []) t ≡ some t' = rw (running, e) refl in
              inr (
                t',
                ran,
                (
                  OnSome-at (Good depth count h w draws) (run_events h w draws (wakes ∷ []) t)
                      (run_events-Good depth count h w draws (wakes ∷ []) t g) ran,
                  omega (arith, n, some_done),
                ),
              )
        ]

  run_events-append :
      (es fs : List Event) (t : Thread D) {t' : Thread D}
      → run_events h w draws es t ≡ some t'
      → run_events h w draws (es ++ fs) t ≡ run_events h w draws fs t'
  unfolding run_events
  run_events-append [] fs t {t' = t'} ran =
      let same : some t ≡ some t' = ran in ap (λ o. o >>= run_events h w draws fs) same
  run_events-append (e ∷ es) fs t ran = elim (Option-cases (step h w draws e t)) [
    | inl stuck ↦ absurd (ground (arith, stuck, ran))
    | inr (t1, went) ↦
        rw went
          (run_events-append es fs t1 (sym (ap (λ o. o >>= run_events h w draws es) went) ∙ ran))
  ]

  device_event :
      (t t' : Thread D)
      → device_completes 0 t ≡ some t'
      → run_events h w draws (completes 0 ∷ []) t ≡ some t'
  unfolding run_events step
  device_event t t' went = rw went refl

  abbrev Rounds : Thread D → List Event → Type ℓ
  Rounds t es = Succeeds (λ t'. Throws t' ⊎ Advances t t') (run_events h w draws es t)

  one_round :
      (t : Thread D)
      → Good depth count h w draws t
      → t.nr_completed_requests < count
      → (es : List Event) × Rounds t es
  unfolding run_events
  one_round t g more = elim (dec_lt 0 (length t.completed_requests)) [
    | yes some_done ↦ elim (wakes-Advances t g more some_done) [
      | inl thrown ↦ ([], (t, refl, inl thrown))
      | inr (t', ran, next) ↦ (wakes ∷ [], (t', ran, inr next))
    ]
    | no none_done ↦
        let busy : 0 < length t.at_device =
          omega (arith, none_done, Good-in_flight depth count h w draws t room g more) in
        let (t1, went, (arrived, same)) = device_completes-Succeeds t busy in
        let ran : run_events h w draws (completes 0 ∷ []) t ≡ some t1 = device_event t t1 went in
        let g1 =
          OnSome-at (Good depth count h w draws) (run_events h w draws (completes 0 ∷ []) t)
            (run_events-Good depth count h w draws (completes 0 ∷ []) t g) ran in
        elim (wakes-Advances t1 g1 (omega (arith, same, more)) arrived) [
          | inl thrown ↦ (completes 0 ∷ [], (t1, ran, inl thrown))
          | inr (t2, woke, (g2, less)) ↦ (
            completes 0 ∷ wakes ∷ [],
            (
              t2,
              run_events-append (completes 0 ∷ []) (wakes ∷ []) t ran ∙ woke,
              inr (g2, omega (arith, same, less)),
            ),
          )
        ]
  ]

  -- Where a run from a state can end.
  abbrev pub Ends : Thread D → Type ℓ
  Ends t = (count ≤ t.nr_completed_requests) ⊎ Throws t

  finish_from :
      (n : ℕ) (t : Thread D)
      → Good depth count h w draws t
      → count ≤ n + t.nr_completed_requests
      → (es : List Event) × Succeeds Ends (run_events h w draws es t)
  unfolding run_events
  finish_from zero t g near = ([], (t, refl, inl (omega arith)))
  finish_from (suc n) t g near = elim (dec_lt t.nr_completed_requests count) [
    | no over ↦ ([], (t, refl, inl (omega (arith, over))))
    | yes more ↦
        let (es, (t1, ran, next)) = one_round t g more in
        elim next [
          | inl thrown ↦ (es, (t1, ran, inr thrown))
          | inr (g1, less) ↦
              let (fs, (t2, rest, over)) = finish_from n t1 g1 (omega (arith, less, near)) in
              (es ++ fs, (t2, run_events-append es fs t ran ∙ rest, over))
        ]
  ]

  -- With a queue depth of at least one and at least one request enqueued at the start: whatever the
  -- events of a run so far, there are further events after which `request_count` requests are
  -- completed, so that `run_impl` returns, or after which it has fewer and its next waking up throws,
  -- where a call of the driver or of the memory throws.
  pub run_impl-finishes :
      (es : List Event) (d : D) (clock : ℕ → ℕ)
      → 0 < w.average_enqueued_requests
      → {t : Thread D} → run_impl h w draws es (new_thread d depth count clock) ≡ some t
      → (fs : List Event) × Succeeds Ends (run_events h w draws fs t)
  run_impl-finishes es d clock p {t = t} ran =
      finish_from count t
        (OnSome-at (Good depth count h w draws)
          (run_impl h w draws es (new_thread d depth count clock))
          (run_impl-Good depth count h w draws es d clock p) ran)
        (omega arith)

module _ {ℓ} {D : Type ℓ} (depth count : ℕ) (h : Host D) (w : Workload) (draws : ℕ → Draw) where
  -- With at least one request enqueued at the start, after any events of a run in which the driver
  -- and the memory did not fail: once `request_count` requests are completed, so that `run_impl`
  -- returns, the larger of `request_count` and `average_enqueued_requests` have been submitted, and
  -- those in flight or waiting are the difference to the completed ones: none if
  -- `average_enqueued_requests` is at most `request_count`.
  pub run_impl-left_over :
      (es : List Event) (d : D) (clock : ℕ → ℕ)
      → 0 < w.average_enqueued_requests
      → (t : Thread D) → run_impl h w draws es (new_thread d depth count clock) ≡ some t
      → count ≤ t.nr_completed_requests
      → (t.nr_submitted_requests ≡ max count w.average_enqueued_requests)
        × (t.inflight_requests + length t.waiting_requests
            ≡ max count w.average_enqueued_requests - t.nr_completed_requests)
        × (t.inflight_requests ≡ length t.at_device + length t.completed_requests)
  run_impl-left_over es d clock p t ran over =
      let (v, (a, q)) =
        OnSome-at (Good depth count h w draws)
          (run_impl h w draws es (new_thread d depth count clock))
          (run_impl-Good depth count h w draws es d clock p) ran in
      (
        ground (arith, v.core.submitted, q),
        ground (arith, v.core.submitted, q),
        ground (arith, v.core.inflight),
      )
