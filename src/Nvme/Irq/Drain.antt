-- ===== src/Nvme/Irq/Drain.antt =====
-- The loop of `nvme_irq` comes to an end.
use mcmqhost.Prelude.{
  ℕ, zero, suc, ◌+◌, ◌-◌, ◌*◌, ◌%◌, ◌≤◌, ◌<◌, ◌≡◌, ◌≢◌, ◌⊎◌, refl, sym, ap, subst, ◌∙◌, true, false,
  List, some, inl, inr, Option-cases, Bool-cases, arith, u32, u16_mod, ltb, ◌==◌, get_elem?, set,
  get_elem?-set_self,
}
use mcmqhost.Memory.Space.{read, le_value}
use mcmqhost.Nvme.World.{Queue, World, Outcome, done, fail, blocked, assertion, then_do}
use mcmqhost.Nvme.Queue.{update_cq_head}
use mcmqhost.Nvme.Queue.Rings.{advance, advance-add, advance_lem, lt-length}
use mcmqhost.Nvme.Irq.{cqe_pending, handle_cqe, irq_loop}
use mcmqhost.Nvme.Irq.Frame.{SameRings, Keeps, handle_cqe-Keeps}

pub record SameMemory (w w' : World) : Type 0 where
  pub bytes : w'.space.bytes ≡ w.space.bytes
  pub map_size : w'.space.map_size ≡ w.space.map_size
  pub iova_base : w'.space.iova_base ≡ w.space.iova_base

pub read-same :
    (addr n : ℕ) (w w' : World) → SameMemory w w' → read addr n w'.space ≡ read addr n w.space
unfolding read
read-same addr n w w' s = rw (s.bytes, s.map_size, s.iova_base) refl

-- The address of the status of the entry at the head.
abbrev pub status_addr : Queue → ℕ
status_addr q = u32 (q.cq_dma_addr + (q.cq_head * 16 + 14))

-- The entry at the head is there, and carries the queue's phase.
abbrev Pending : Queue → World → Type 0
Pending q w =
    (ys : List ℕ) × (read (status_addr q) 2 w.space ≡ some ys)
    × ((le_value ys % 2 == q.cq_phase) ≡ true)

cqe_pending-cases :
    (q : Queue) (w : World)
    → ((cqe_pending q w ≡ done true w) × Pending q w)
      ⊎ ((cqe_pending q w ≡ done false w) ⊎ (cqe_pending q w ≡ fail assertion w))
unfolding cqe_pending
cqe_pending-cases q w = elim (Bool-cases (ltb q.cq_head q.depth)) [
  | inr out ↦ inr (inr (rw out refl))
  | inl there ↦ elim (Option-cases (read (status_addr q) 2 w.space)) [
    | inl unmapped ↦ inr (inr (rw (there, unmapped) refl))
    | inr (ys, got) ↦ elim (Bool-cases (le_value ys % 2 == q.cq_phase)) [
      | inl yes_it ↦ inl (rw (there, got, yes_it) refl, (ys, got, yes_it))
      | inr no_it ↦ inr (inl (rw (there, got, no_it) refl))
    ]
  ]
]

-- With the phase inverted, the same entry is not pending.
cqe_pending-inverted :
    (q : Queue) (w w' : World)
    → Pending q w
    → SameMemory w w'
    → q.cq_head < q.depth
    → q.cq_phase < 2
    → cqe_pending (record q { cq_phase = 1 - q.cq_phase }) w' ≡ done false w'
unfolding cqe_pending
cqe_pending-inverted q w w' (ys, got, matches) s inside bit =
    let there : ltb q.cq_head q.depth ≡ true = ground arith in
    let differs : (le_value ys % 2 == 1 - q.cq_phase) ≡ false = ground arith in
    rw (there, read-same (status_addr q) 2 w w' s, got, differs) refl

-- The loop returns a number of entries up to `depth`, or throws; it does not run out of fuel.
abbrev pub Ends : ℕ → Outcome ℕ → Type 0
Ends depth (done found w) = found ≤ depth
Ends depth (fail e w) = e ≢ blocked

Ends-later :
    (depth : ℕ) (w : World) (o : Outcome (Unit {0})) (f : World → Outcome ℕ)
    → Keeps w o
    → ((w' : World) → SameRings w w' → Ends depth (f w'))
    → Ends depth (then_do o (λ _. f))
Ends-later depth w (done a w') f k later = later w' k
Ends-later depth w (fail e w') f k later = k

module _ (i : ℕ) (q : Queue) (w0 : World) (inside : q.cq_head < q.depth) (small : q.depth < u16_mod)
    (bit : q.cq_phase < 2) where
  first_entry :
      (k : ℕ) (w : World) → SameMemory w0 w → k ≡ 0 → Pending (advance k q) w → Pending q w0
  first_entry k w s none_yet entry =
      let (ys, got, matches) = subst (λ x. Pending (advance x q) w) none_yet entry in
      (ys, sym (read-same (status_addr q) 2 w0 w s) ∙ got, matches)

  irq_loop-from :
      (n k : ℕ) (w : World)
      → k + n ≡ q.depth
      → SameMemory w0 w
      → get_elem? w.queues i ≡ some (advance k q)
      → (k ≡ 0) ⊎ Pending q w0
      → Ends q.depth (irq_loop (suc n) i k w)
  unfolding irq_loop
  irq_loop-from zero k w total s at first = elim first [
    | inl none_yet ↦ absurd (omega (arith, none_yet, total))
    | inr pending ↦
        let all : k ≡ q.depth = omega (arith, total) in
        let round : advance k q ≡ record q { cq_phase = 1 - q.cq_phase } =
          ap (λ x. advance x q) all ∙ (advance_lem 0 q inside small bit).1 in
        rw (at, round, cqe_pending-inverted q w0 w pending s inside bit) (omega (arith, all))
  ]
  irq_loop-from (suc n) k w total s at first = elim (cqe_pending-cases (advance k q) w) [
    | inr (inr thrown) ↦ rw (at, thrown) (λ e. cc)
    | inr (inl idle) ↦ rw (at, idle) (omega (arith, total))
    | inl (pending, entry) ↦
        let qk = advance k q in
        let with_next =
          λ (w' : World). record w' { queues = set w'.queues i (update_cq_head qk) } in
        let next = λ (w' : World). irq_loop (suc n) i (k + 1) (with_next w') in
        let pending0 : Pending q w0 = elim first [
          | inl none_yet ↦ first_entry k w s none_yet entry
          | inr before ↦ before
        ] in
        rw (at, pending)
          (Ends-later q.depth w (handle_cqe qk qk.cq_head w) next (handle_cqe-Keeps qk qk.cq_head w)
            (λ w' kept.
              irq_loop-from n (k + 1) (with_next w') (omega (arith, total))
                (record {
                  bytes = kept.bytes ∙ s.bytes;
                  map_size = kept.map_size ∙ s.map_size;
                  iova_base = kept.iova_base ∙ s.iova_base;
                })
                (get_elem?-set_self w'.queues i (update_cq_head qk)
                    (lt-length w'.queues i (ap (λ qs. get_elem? qs i) kept.queues ∙ at))
                  ∙ ap some (sym (advance-add k 1 q)))
                (inr pending0)))
  ]

-- For a queue of less than 2^16 entries with its head in it and a phase of 0 or 1, the loop of
-- `nvme_irq` comes to an end after at most as many entries as the queue has, whatever the mapped
-- memory holds: it returns their number, or throws, and does not go on for ever.
pub irq_loop_lem :
    (i : ℕ) (q : Queue) (w : World)
    → get_elem? w.queues i ≡ some q
    → q.cq_head < q.depth
    → q.depth < u16_mod
    → q.cq_phase < 2
    → Ends q.depth (irq_loop (q.depth + 1) i 0 w)
irq_loop_lem i q w at inside small bit =
    let fuel : q.depth + 1 ≡ suc q.depth = omega arith in
    rw fuel (
      irq_loop-from i q w inside small bit q.depth 0 w (omega arith)
        (record { bytes = refl; map_size = refl; iova_base = refl }) at (inl refl))
