-- ===== src/IoThread/Invariant.antt =====
-- What holds of an I/O thread between two steps: its counters agree with its queues.
use mcmqhost.IoThread.OnSome.{OnSome, OnSome-bind, OnSome-map, OnSome-both}
use mcmqhost.Prelude.{
  ℕ, zero, suc, ◌+◌, ◌≤◌, ◌<◌, ◌≡◌, ◌⊎◌, refl, inl, inr, List, [], ◌∷◌, Option, some, ltb, leb, sym,
  subst, ◌∙◌, length, length-append, arith, Option-cases, Bool-cases,
}
use mcmqhost.IoThread.{
  Request, Host, Thread, Shape, new_thread, call, stamped, new_request, accepted, enqueue,
  submit_to_device, submit_io_request, refill, count_completed, process_completed_request,
  process_all, wait_for_completed_requests, pick, device_completes,
}

pick-length :
    (i : ℕ) (xs : List Request) {y : Request} {ys : List Request}
    → pick i xs ≡ some (y, ys)
    → length xs ≡ suc (length ys)
pick-length i [] e = cc
pick-length zero (x ∷ xs) e = ground arith
pick-length (suc i) (x ∷ xs) e = elim (Option-cases (pick i xs)) [
  | inl n ↦ ground arith
  | inr ((y, ys), p) ↦ ground (arith, pick-length i xs p)
]

module _ {ℓ} {D : Type ℓ} (depth count : ℕ) where
  -- The counters, where `waiting` requests wait and `left` ones are taken from the completed queue
  -- and not yet processed.
  pub record Core (waiting left : ℕ) (t : Thread D) : Type 0 where
    pub depth_eq : t.queue_depth ≡ depth
    pub count_eq : t.request_count ≡ count
    pub inflight : t.inflight_requests ≡ length t.at_device + length t.completed_requests + left
    pub bounded : t.inflight_requests ≤ depth
    pub submitted :
        t.nr_submitted_requests ≡ t.nr_completed_requests + t.inflight_requests + waiting
    pub by_kind :
        t.nr_completed_requests ≡ t.nr_completed_read_requests + t.nr_completed_write_requests
    pub bytes_by_kind :
        t.transferred_bytes_total ≡ t.transferred_bytes_read + t.transferred_bytes_write

  -- A request waits only while the device has as many as the queue depth allows.
  pub record Inv (left : ℕ) (t : Thread D) : Type ℓ where
    pub core : Core (length t.waiting_requests) left t
    pub busy : (t.waiting_requests ≡ []) ⊎ (t.inflight_requests ≡ depth)

  pub new_thread-Inv : (d : D) (clock : ℕ → ℕ) → Inv 0 (new_thread d depth count clock)
  unfolding new_thread
  new_thread-Inv d clock = ground arith

  module _ (h : Host D) where
    -- Submitting takes one request off those that wait, and leaves the waiting queue as it is.
    submit_to_device-Core :
        (req : Request) (waiting left : ℕ) (t : Thread D)
        → Core (suc waiting) left t
        → t.inflight_requests < depth
        → OnSome
            (λ t'. Core waiting left t' × (t'.waiting_requests ≡ t.waiting_requests))
            (submit_to_device h req t)
    unfolding submit_to_device
    submit_to_device-Core req waiting left t c room =
        elim (Option-cases (call h (stamped h req t) t.device)) [
          | inl e ↦ rw e tt
          | inr (d, e) ↦ rw e (ground (arith, length-append t.at_device (stamped h req t ∷ [])))
        ]

    pub enqueue-Inv :
        (req : Request) (left : ℕ) (t : Thread D)
        → Core (suc (length t.waiting_requests)) left t
        → (t.waiting_requests ≡ []) ⊎ (t.inflight_requests ≡ depth)
        → OnSome (Inv left) (enqueue h req t)
    unfolding enqueue
    enqueue-Inv req left t c b = elim (Bool-cases (leb t.queue_depth t.inflight_requests)) [
      | inl full ↦ rw full (ground (arith, length-append t.waiting_requests (req ∷ [])))
      | inr room ↦
          let none_wait : t.waiting_requests ≡ [] = ground arith in
          rw room (
            OnSome-map _ (Inv left) (submit_to_device h req t)
              (submit_to_device-Core req (length t.waiting_requests) left t c (ground arith))
              (λ t' (c', same). record {
                core = subst (λ ws. Core (length ws) left t') (sym same) c';
                busy = inl (same ∙ none_wait);
              }))
    ]

    refill-Inv :
        (reqs : List Request) (left : ℕ) (t : Thread D)
        → Core (length reqs) left t
        → OnSome (Inv left) (refill h reqs t)
    unfolding refill
    refill-Inv [] left t c = record { core = ground arith; busy = inl refl }
    refill-Inv (req ∷ rest) left t c = elim (Bool-cases (ltb t.inflight_requests t.queue_depth)) [
      | inl room ↦ rw room (
          OnSome-bind _ (Inv left) (submit_to_device h req t) (refill h rest)
            (submit_to_device-Core req (length rest) left t c (ground arith))
            (λ t' c'. refill-Inv rest left t' c'.0))
      | inr full ↦ rw full (ground arith)
    ]

    refill-submitted :
        (reqs : List Request) (t : Thread D)
        → OnSome (λ t'. t'.nr_submitted_requests ≡ t.nr_submitted_requests) (refill h reqs t)
    unfolding refill submit_to_device
    refill-submitted [] t = refl
    refill-submitted (req ∷ rest) t = elim (Bool-cases (ltb t.inflight_requests t.queue_depth)) [
      | inl room ↦ elim (Option-cases (call h (stamped h req t) t.device)) [
        | inl e ↦ rw (room, e) tt
        | inr (d, e) ↦ rw (room, e) (refill-submitted rest _)
      ]
      | inr full ↦ rw full refl
    ]

    -- `P` is what each call of `on_request_completed` establishes, and `Q` what it keeps of the number
    -- of requests submitted.
    module _ (on_request_completed : Thread D → Option (Thread D)) (P : Thread D → Type 0)
        (Q : ℕ → Type 0)
        (keeps : (left : ℕ) (t : Thread D)
          → Inv left t
          → Q t.nr_submitted_requests
          → OnSome
              (λ t'. Inv left t' × (P t' × Q t'.nr_submitted_requests))
              (on_request_completed t)) where
      process_completed_request-Inv :
          (req : Request) (left : ℕ) (t : Thread D)
          → Inv (suc left) t
          → Q t.nr_submitted_requests
          → OnSome
              (λ t'. Inv left t' × (P t' × Q t'.nr_submitted_requests))
              (process_completed_request h on_request_completed req t)
      unfolding process_completed_request
      process_completed_request-Inv req left t v q =
          elim (Option-cases (h.free req.buf req.size t.device)) [
            | inl e ↦ rw e tt
            | inr (d, e) ↦
                let counted = count_completed h req (record t { device = d }) in
                rw e (
                  OnSome-bind _ (λ t'. Inv left t' × (P t' × Q t'.nr_submitted_requests))
                    (refill h t.waiting_requests counted) on_request_completed
                    (OnSome-both _ _ (refill h t.waiting_requests counted)
                      (refill-Inv t.waiting_requests left _ (ground arith))
                      (refill-submitted t.waiting_requests counted))
                    (λ t' (v', same). keeps left t' v' (subst Q (sym same) q)))
          ]

      process_all-Inv :
          (reqs : List Request) (t : Thread D)
          → Inv (length reqs) t
          → P t
          → Q t.nr_submitted_requests
          → OnSome
              (λ t'. Inv 0 t' × (P t' × Q t'.nr_submitted_requests))
              (process_all h on_request_completed reqs t)
      unfolding process_all
      process_all-Inv [] t v p q = (v, (p, q))
      process_all-Inv (req ∷ reqs) t v p q =
          OnSome-bind _ (λ t'. Inv 0 t' × (P t' × Q t'.nr_submitted_requests))
            (process_completed_request h on_request_completed req t)
            (process_all h on_request_completed reqs)
            (process_completed_request-Inv req (length reqs) t v q)
            (λ t' (v', (p', q')). process_all-Inv reqs t' v' p' q')

      pub wait_for_completed_requests-Inv :
          (t : Thread D)
          → Inv 0 t
          → P (record t { completed_requests = [] })
          → Q t.nr_submitted_requests
          → OnSome
              (λ t'. Inv 0 t' × (P t' × Q t'.nr_submitted_requests))
              (wait_for_completed_requests h on_request_completed t)
      unfolding wait_for_completed_requests
      wait_for_completed_requests-Inv t v p q =
          process_all-Inv t.completed_requests _ (ground arith) p q

    -- One more request is submitted, and none completed.
    pub submit_io_request-counts :
        (nsid : ℕ) (s : Shape) (t : Thread D)
        → OnSome
            (λ t'.
              (t'.nr_submitted_requests ≡ t.nr_submitted_requests + 1)
              × (t'.nr_completed_requests ≡ t.nr_completed_requests))
            (submit_io_request h nsid s t)
    unfolding submit_io_request enqueue submit_to_device
    submit_io_request-counts nsid s t = ground arith

    pub submit_io_request-Inv :
        (nsid : ℕ) (s : Shape) (left : ℕ) (t : Thread D)
        → Inv left t
        → OnSome (Inv left) (submit_io_request h nsid s t)
    unfolding submit_io_request
    submit_io_request-Inv nsid s left t v = elim (Option-cases (h.allocate_pages s.size t.device)) [
      | inl e ↦ rw e tt
      | inr ((buf, d), e) ↦ rw e (
          enqueue-Inv (new_request h nsid s buf (t.clock 0)) left (accepted h d t) (ground arith)
            (ground arith))
    ]

  pub device_completes-Inv :
      (i : ℕ) (t : Thread D) → Inv 0 t → OnSome (Inv 0) (device_completes i t)
  unfolding device_completes
  device_completes-Inv i t v = elim (Option-cases (pick i t.at_device)) [
    | inl e ↦ rw e tt
    | inr ((req, rest), e) ↦
        rw e (
          ground
            (arith, pick-length i t.at_device e, length-append t.completed_requests (req ∷ [])))
  ]
