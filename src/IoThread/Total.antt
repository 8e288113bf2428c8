-- ===== src/IoThread/Total.antt =====
-- The operations of a thread over a driver and a memory whose calls may throw.
use mcmqhost.Prelude.{
  ℕ, ◌+◌, ◌≡◌, ◌⊎◌, refl, subst, true, false, inl, inr, List, [], ◌∷◌, Option, none, some, ltb, leb,
  length, arith, Bool, Bool-cases, Option-cases, if◌then◌else◌,
}
use mcmqhost.IoThread.{
  Request, Shape, Host, Thread, ◌>>=◌, call, stamped, accepted, new_request, enqueue,
  submit_to_device, submit_io_request, refill, count_completed, process_completed_request,
  process_all,
}
use mcmqhost.IoThread.Synthetic.{
  Workload, Draw, generate_request, submit_next, on_request_completed,
}

-- A call of the driver or of the memory that throws.
pub data Refuses {ℓ} {D : Type ℓ} (h : Host D) : Type ℓ where
  no_pages : (n : ℕ) (d : D) → h.allocate_pages n d ≡ none → Refuses h
  no_free : (addr n : ℕ) (d : D) → h.free addr n d ≡ none → Refuses h
  no_write : (req : Request) (d : D) → h.write_async req d ≡ none → Refuses h
  no_read : (req : Request) (d : D) → h.read_async req d ≡ none → Refuses h

-- A step that ends in a state, which `P` holds of.
abbrev pub Succeeds {ℓ κ} : {A : Type ℓ} → (A → Type κ) → Option A → Type (ℓ ⊔ κ)
Succeeds {A = A} P m = (a : A) × (m ≡ some a) × P a

-- A step that does, or throws since one of those calls did.
abbrev pub Tries {ℓ κ μ} :
    {D : Type ℓ} {A : Type κ} → Host D → (A → Type μ) → Option A → Type (ℓ ⊔ κ ⊔ μ)
Tries h P m = (Refuses h × (m ≡ none)) ⊎ Succeeds P m

Tries-bind {ℓ κ μ ν ξ} :
    {D : Type ℓ} {A : Type κ} {B : Type μ} (h : Host D) (P : A → Type ν) (Q : B → Type ξ)
    (m : Option A) (f : A → Option B)
    → Tries h P m
    → ((a : A) → P a → Tries h Q (f a))
    → Tries h Q (m >>= f)
Tries-bind h P Q m f (inl (why, e)) k = inl (why, rw e refl)
Tries-bind h P Q m f (inr (a, e, p)) k = rw e (k a p)

-- The number of requests completed.
abbrev Completed {ℓ} : {D : Type ℓ} → ℕ → Thread D → Type 0
Completed n t = t.nr_completed_requests ≡ n

module _ {ℓ} {D : Type ℓ} (h : Host D) where
  branch-Tries :
      (do_write : Bool) (req : Request) (d : D)
      → Tries h
          (λ (d' : D). Unit {0})
          (if do_write then h.write_async req d else h.read_async req d)
  branch-Tries true req d = elim (Option-cases (h.write_async req d)) [
    | inl e ↦ inl (no_write req d e, e)
    | inr (d', e) ↦ inr (d', e, tt)
  ]
  branch-Tries false req d = elim (Option-cases (h.read_async req d)) [
    | inl e ↦ inl (no_read req d e, e)
    | inr (d', e) ↦ inr (d', e, tt)
  ]

  call-Tries : (req : Request) (d : D) → Tries h (λ (d' : D). Unit {0}) (call h req d)
  call-Tries req d = branch-Tries req.do_write req d

  submit_to_device-Tries :
      (req : Request) (t : Thread D)
      → Tries h (Completed t.nr_completed_requests) (submit_to_device h req t)
  unfolding submit_to_device
  submit_to_device-Tries req t = elim (call-Tries (stamped h req t) t.device) [
    | inl (why, e) ↦ inl (why, rw e refl)
    | inr (d, e, u) ↦ inr (rw e (_, refl, refl))
  ]

  enqueue-Tries :
      (req : Request) (t : Thread D) → Tries h (Completed t.nr_completed_requests) (enqueue h req t)
  unfolding enqueue
  enqueue-Tries req t = elim (Bool-cases (leb t.queue_depth t.inflight_requests)) [
    | inl full ↦ inr (rw full (_, refl, refl))
    | inr room ↦ rw room (submit_to_device-Tries req t)
  ]

  submit_io_request-Tries :
      (nsid : ℕ) (s : Shape) (t : Thread D)
      → Tries h (Completed t.nr_completed_requests) (submit_io_request h nsid s t)
  unfolding submit_io_request
  submit_io_request-Tries nsid s t = elim (Option-cases (h.allocate_pages s.size t.device)) [
    | inl e ↦ inl (no_pages s.size t.device e, rw e refl)
    | inr ((buf, d), e) ↦
        rw e (enqueue-Tries (new_request h nsid s buf (t.clock 0)) (accepted h d t))
  ]

  refill-Tries :
      (reqs : List Request) (t : Thread D)
      → Tries h (Completed t.nr_completed_requests) (refill h reqs t)
  unfolding refill
  refill-Tries [] t = inr (_, refl, refl)
  refill-Tries (req ∷ rest) t = elim (Bool-cases (ltb t.inflight_requests t.queue_depth)) [
    | inl room ↦ rw room (
        Tries-bind h (Completed t.nr_completed_requests) (Completed t.nr_completed_requests)
          (submit_to_device h req t) (refill h rest) (submit_to_device-Tries req t)
          (λ t' same.
            subst (λ n. Tries h (Completed n) (refill h rest t')) same (refill-Tries rest t')))
    | inr full ↦ inr (rw full (_, refl, refl))
  ]

  module _ (w : Workload) (draws : ℕ → Draw) where
    on_request_completed-Tries :
        (t : Thread D)
        → Tries h (Completed t.nr_completed_requests) (on_request_completed h w draws t)
    unfolding on_request_completed submit_next
    on_request_completed-Tries t = elim (Bool-cases (ltb t.nr_submitted_requests t.request_count)) [
      | inl more ↦
          rw more
            (submit_io_request-Tries w.nsid (generate_request w (draws t.nr_submitted_requests)) t)
      | inr over ↦ inr (rw over (t, refl, refl))
    ]

    process_completed_request-Tries :
        (req : Request) (t : Thread D)
        → Tries h
            (Completed (t.nr_completed_requests + 1))
            (process_completed_request h (on_request_completed h w draws) req t)
    unfolding process_completed_request
    process_completed_request-Tries req t = elim (Option-cases (h.free req.buf req.size t.device)) [
      | inl e ↦ inl (no_free req.buf req.size t.device e, rw e refl)
      | inr (d, e) ↦
          let counted = count_completed h req (record t { device = d }) in
          rw e (
            Tries-bind h (Completed (t.nr_completed_requests + 1))
              (Completed (t.nr_completed_requests + 1)) (refill h t.waiting_requests counted)
              (on_request_completed h w draws) (refill-Tries t.waiting_requests counted)
              (λ t' same.
                subst (λ n. Tries h (Completed n) (on_request_completed h w draws t')) same
                  (on_request_completed-Tries t')))
    ]

    Tries-Completed :
        (n k m : ℕ) (o : Option (Thread D))
        → Tries h (Completed (n + k)) o
        → n + k ≡ m
        → Tries h (Completed m) o
    Tries-Completed n k m o tries e = subst (λ i. Tries h (Completed i) o) e tries

    pub process_all-Tries :
        (reqs : List Request) (t : Thread D)
        → Tries h
            (Completed (t.nr_completed_requests + length reqs))
            (process_all h (on_request_completed h w draws) reqs t)
    unfolding process_all
    process_all-Tries [] t = inr (t, refl, omega arith)
    process_all-Tries (req ∷ reqs) t =
        Tries-bind h (Completed (t.nr_completed_requests + 1))
          (Completed (t.nr_completed_requests + length (req ∷ reqs)))
          (process_completed_request h (on_request_completed h w draws) req t)
          (process_all h (on_request_completed h w draws) reqs)
          (process_completed_request-Tries req t)
          (λ t' one_more.
            Tries-Completed t'.nr_completed_requests (length reqs)
              (t.nr_completed_requests + length (req ∷ reqs))
              (process_all h (on_request_completed h w draws) reqs t') (process_all-Tries reqs t')
              (omega (arith, one_more)))
