-- ===== src/Nvme/Irq/Order.antt =====
-- The entries of a completion queue that `nvme_irq` takes, and what it does with each.
use mcmqhost.Prelude.{
  ℕ, zero, suc, ◌+◌, ◌*◌, ◌%◌, ◌≤◌, ◌<◌, ◌≡◌, refl, sym, ap, ap₂, subst, ◌∙◌, Bool, true, false,
  List, [], ◌∷◌, some, arith, u32, u16_mod, ltb, ◌==◌, if◌then◌else◌, get_elem?, set, length,
  get_elem?-set_self,
}
use mcmqhost.Memory.Space.{read, le_value}
use mcmqhost.Nvme.World.{Queue, World, done, ret, writel}
use mcmqhost.Nvme.Queue.{update_cq_head, ring_cq_doorbell}
use mcmqhost.Nvme.Queue.Rings.{advance, lt-length}
use mcmqhost.Nvme.Irq.{
  Completion, find, decode, complete, handle_cqe, cqe_pending, irq_loop, nvme_irq,
}
use mcmqhost.Nvme.Irq.Frame.{SameRings, Keeps, complete-Keeps}
use mcmqhost.Nvme.Irq.Drain.{SameMemory, read-same, status_addr}
use mcmqhost.Nvme.Irq.Ignores.{
  onto, with_queues, complete_all, complete_all-Ignores, complete_all-queues, then-done, set-same,
  set-set,
}

-- The status word of the entry at the head carries the queue's phase, or the other one.
abbrev pub PhaseMatches : Bool → Queue → World → Type 0
PhaseMatches b q w =
    (ys : List ℕ) × (read (status_addr q) 2 w.space ≡ some ys)
    × ((le_value ys % 2 == q.cq_phase) ≡ b)

abbrev pub EntryAt : Completion → Queue → World → Type 0
EntryAt e q w =
    (xs : List ℕ) × (read (u32 (q.cq_dma_addr + q.cq_head * 16)) 16 w.space ≡ some xs)
    × (decode xs ≡ e)

-- The entries from the head on that the device has posted: those with the phase that each round of
-- the ring expects, up to the first one without.
abbrev pub Posted : Queue → World → List Completion → Type 0
Posted q w [] = PhaseMatches false q w
Posted q w (e ∷ es) = PhaseMatches true q w × EntryAt e q w × Posted (update_cq_head q) w es

Posted-same :
    (es : List Completion) (q : Queue) (w w' : World)
    → SameMemory w w'
    → Posted q w es
    → Posted q w' es
Posted-same [] q w w' s (ys, got, phase) = (ys, read-same (status_addr q) 2 w w' s ∙ got, phase)
Posted-same (e ∷ es) q w w' s ((ys, got, phase), (xs, entry, is), rest) = (
  (ys, read-same (status_addr q) 2 w w' s ∙ got, phase),
  (xs, read-same (u32 (q.cq_dma_addr + q.cq_head * 16)) 16 w w' s ∙ entry, is),
  Posted-same es (update_cq_head q) w w' s rest,
)

cqe_pending-matches :
    (b : Bool) (q : Queue) (w : World)
    → q.cq_head < q.depth
    → PhaseMatches b q w
    → cqe_pending q w ≡ done b w
unfolding cqe_pending
cqe_pending-matches b q w inside (ys, got, phase) =
    let there : ltb q.cq_head q.depth ≡ true = ground arith in rw (there, got, phase) refl

handle_cqe-complete :
    (e : Completion) (q : Queue) (w : World)
    → q.cq_head < q.depth
    → EntryAt e q w
    → handle_cqe q q.cq_head w ≡ complete e (find e.command_id w.command_map) w
unfolding handle_cqe
handle_cqe-complete e q w inside (xs, got, is) =
    let there : ltb q.cq_head q.depth ≡ true = ground arith in
    rw (there, got) (ap (λ d. complete d (find d.command_id w.command_map) w) is)

update-inside :
    (q : Queue)
    → q.cq_head < q.depth
    → q.depth < u16_mod
    → ((update_cq_head q).cq_head < (update_cq_head q).depth) × ((update_cq_head q).depth ≡ q.depth)
unfolding update_cq_head
update-inside q inside small = (ground arith, ground arith)

-- One more entry in front of those that the loop takes.
irq_loop-next :
    (n i k : ℕ) (e : Completion) (q : Queue) (w w1 : World)
    → get_elem? w.queues i ≡ some q
    → q.cq_head < q.depth
    → PhaseMatches true q w
    → EntryAt e q w
    → complete e (find e.command_id w.command_map) w ≡ done tt w1
    → irq_loop (suc n) i k w
      ≡ irq_loop n i (k + 1) (with_queues (set w1.queues i (update_cq_head q)) w1)
unfolding irq_loop
irq_loop-next n i k e q w w1 at inside phase entry completed =
    rw
      (
        at,
        cqe_pending-matches true q w inside phase,
        handle_cqe-complete e q w inside entry,
        completed,
      )
      refl

irq_loop-entries :
    (es : List Completion) (n i k : ℕ) (q : Queue) (w w' : World)
    → get_elem? w.queues i ≡ some q
    → q.cq_head < q.depth
    → q.depth < u16_mod
    → Posted q w es
    → length es ≤ n
    → complete_all es w ≡ done tt w'
    → irq_loop (suc n) i k w
      ≡ done (k + length es) (with_queues (set w'.queues i (advance (length es) q)) w')
unfolding complete_all
irq_loop-entries [] n i k q w w' at inside small posted enough all =
    let it : done tt w ≡ done tt w' = all in
    let same : w ≡ w' = cc in
    let none_left : irq_loop (suc n) i k w ≡ done k w =
      unfold irq_loop in rw (at, cqe_pending-matches false q w inside posted) refl in
    none_left
    ∙ ap (λ qs. done k (with_queues qs w)) (sym (set-same w.queues i q at))
    ∙ ap₂ (λ (v : World) c. done c (with_queues (set v.queues i q) v)) same (omega arith)
irq_loop-entries (e ∷ es) zero i k q w w' at inside small posted enough all =
    absurd (omega (arith, enough))
irq_loop-entries (e ∷ es) (suc n) i k q w w' at inside small (phase, entry, posted) enough all =
    let (w1, first, later) =
      then-done (complete e (find e.command_id w.command_map) w) (complete_all es) w' all in
    let kept : SameRings w w1 =
      subst (Keeps w) first (complete-Keeps e (find e.command_id w.command_map) w) in
    let next = update_cq_head q in
    let queues1 = set w1.queues i next in
    let (inside1, depth1) = update-inside q inside small in
    let at1 : get_elem? queues1 i ≡ some next =
      get_elem?-set_self w1.queues i next
        (lt-length w1.queues i (ap (λ qs. get_elem? qs i) kept.queues ∙ at)) in
    let all1 : complete_all es (with_queues queues1 w1) ≡ done tt (with_queues queues1 w') =
      (complete_all-Ignores es).at queues1 w1 ∙ ap (onto queues1) later in
    let rest =
      irq_loop-entries es n i (k + 1) next (with_queues queues1 w1) (with_queues queues1 w') at1
        inside1 (omega (arith, depth1, small))
        (Posted-same es next w (with_queues queues1 w1)
          (record { bytes = kept.bytes; map_size = kept.map_size; iova_base = kept.iova_base })
          posted)
        (omega (arith, enough)) all1 in
    let count : k + 1 + length es ≡ k + suc (length es) = omega arith in
    let ring : set queues1 i (advance (length es) next)
        ≡ set w'.queues i (advance (length es) next) =
      set-set w1.queues i next (advance (length es) next)
      ∙ ap (λ qs. set qs i (advance (length es) next)) (sym (complete_all-queues es w1 w' later)) in
    irq_loop-next (suc n) i k e q w w1 at inside phase entry first
    ∙ rest
    ∙ ap (λ c. done c (with_queues (set queues1 i (advance (length es) next)) w')) count
    ∙ ap (λ qs. done (k + suc (length es)) (with_queues qs w')) ring

advance-same :
    (n : ℕ) (q : Queue)
    → ((advance n q).q_db ≡ q.q_db) × ((advance n q).dbbuf_cq_db ≡ q.dbbuf_cq_db)
unfolding update_cq_head
advance-same zero q = (refl, refl)
advance-same (suc n) q =
    let (db, dbbuf) = advance-same n (update_cq_head q) in
    let one : ((update_cq_head q).q_db ≡ q.q_db)
        × ((update_cq_head q).dbbuf_cq_db ≡ q.dbbuf_cq_db) =
      (ground arith, ground arith) in
    (db ∙ one.0, dbbuf ∙ one.1)

-- What is left of the ring when its entries are taken: nothing changes with no entry; else the head
-- has moved on by their number, and the doorbell of the completion queue carries the new head.
abbrev pub taken : ℕ → Queue → List Completion → World → World
taken i q [] w = w
taken i q (e ∷ es) w =
    let next = advance (suc (length es)) q in
    record w {
      queues = set w.queues i next;
      written = writel (u32 (q.q_db + 4 * w.db_stride)) next.cq_head ∷ w.written;
    }

rings :
    (i n : ℕ) (q : Queue) (w : World)
    → i < length w.queues
    → q.dbbuf_cq_db ≡ 0
    → ring_cq_doorbell i (with_queues (set w.queues i (advance n q)) w)
      ≡ done tt (record w {
        queues = set w.queues i (advance n q);
        written = writel (u32 (q.q_db + 4 * w.db_stride)) (advance n q).cq_head ∷ w.written;
      })
unfolding ring_cq_doorbell
rings i n q w there no_buffer =
    let (db, dbbuf) = advance-same n q in
    rw (get_elem?-set_self w.queues i (advance n q) there, dbbuf ∙ no_buffer, db) refl

after-loop :
    (i : ℕ) (q : Queue) (es : List Completion) (w : World)
    → get_elem? w.queues i ≡ some q
    → q.dbbuf_cq_db ≡ 0
    → (if 0 + length es == 0 then ret tt else ring_cq_doorbell i)
        (with_queues (set w.queues i (advance (length es) q)) w)
      ≡ done tt (taken i q es w)
after-loop i q [] w at no_buffer = ap (λ qs. done tt (with_queues qs w)) (set-same w.queues i q at)
after-loop i q (e ∷ es) w at no_buffer =
    let some_found : (0 + suc (length es) == 0) ≡ false = ground arith in
    rw some_found (rings i (suc (length es)) q w (lt-length w.queues i at) no_buffer)

-- For a completion queue of less than 2^16 entries with its head in it, without a doorbell buffer:
-- let the entries from the head on that carry the phase that the queue expects, up to the first
-- without it, be `es`, at most as many as the ring has, and let the completion of their commands,
-- one after the other in the ring's order, succeed. Then `nvme_irq` does exactly that, moves the
-- head on by their number and writes it to the doorbell once, after the last; with no such entry it
-- changes nothing.
pub nvme_irq-Posted :
    (i : ℕ) (q : Queue) (es : List Completion) (w w' : World)
    → get_elem? w.queues i ≡ some q
    → q.cq_head < q.depth
    → q.depth < u16_mod
    → q.dbbuf_cq_db ≡ 0
    → Posted q w es
    → length es ≤ q.depth
    → complete_all es w ≡ done tt w'
    → nvme_irq i w ≡ done tt (taken i q es w')
unfolding nvme_irq complete_all
nvme_irq-Posted i q es w w' at inside small no_buffer posted enough all =
    let fuel : q.depth + 1 ≡ suc q.depth = omega arith in
    let looped = irq_loop-entries es q.depth i 0 q w w' at inside small posted enough all in
    let at' = ap (λ qs. get_elem? qs i) (complete_all-queues es w w' all) ∙ at in
    rw (at, fuel, looped) (after-loop i q es w' at' no_buffer)
