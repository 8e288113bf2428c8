-- ===== src/Nvme/Queue/Rings.antt =====
-- The indices of the rings, and what a submission leaves.
use native.Mathlib.Nat.{suc-add, zero-add}
use mcmqhost.Prelude.{
  ℕ, zero, suc, ◌+◌, ◌-◌, ◌<◌, ◌≡◌, refl, ap, ◌∙◌, true, List, [], ◌∷◌, some, arith, length,
  get_elem?, set, add32, shl, get_elem?-set_self, u16_mod,
}
use mcmqhost.Memory.Space.{Space, write, read, le_bytes}
use mcmqhost.Memory.Space.Access.{read-write_self}
use mcmqhost.Nvme.World.{Queue, World, done, writel}
use mcmqhost.Nvme.Queue.{
  Command, encode, update_cq_head, next_index, write_sq_doorbell, submit_sq_command,
}

-- `update_cq_head`, `n` times.
abbrev pub advance : ℕ → Queue → Queue
advance zero q = q
advance (suc n) q = advance n (update_cq_head q)

advance-below :
    (n : ℕ) (q : Queue)
    → q.cq_head + n < q.depth
    → q.depth < u16_mod
    → advance n q ≡ record q { cq_head = q.cq_head + n }
unfolding update_cq_head
advance-below zero q h small = ground arith
advance-below (suc n) q h small =
    let moved : update_cq_head q ≡ record q { cq_head = q.cq_head + 1 } = ground arith in
    rw moved
      (advance-below n (record q { cq_head = q.cq_head + 1 }) (omega arith) small ∙ ground arith)

pub advance-add : (m n : ℕ) (q : Queue) → advance (m + n) q ≡ advance n (advance m q)
advance-add zero n q = ap (λ k. advance k q) (zero-add n)
advance-add (suc m) n q = ap (λ k. advance k q) (suc-add m n) ∙ advance-add m n (update_cq_head q)

-- In a completion queue of less than 2^16 entries, with the head in it and a phase of 0 or 1: fewer
-- steps than there are entries left move the head on by as many and keep the phase, and as many
-- steps as there are entries bring the head back to where it was with the phase inverted.
pub advance_lem :
    (n : ℕ) (q : Queue)
    → q.cq_head < q.depth
    → q.depth < u16_mod
    → q.cq_phase < 2
    → (q.cq_head + n < q.depth → advance n q ≡ record q { cq_head = q.cq_head + n })
      × (advance q.depth q ≡ record q { cq_phase = 1 - q.cq_phase })
unfolding update_cq_head
advance_lem n q h small p = (λ inside. advance-below n q inside small, round)
  where
    left : ℕ
    left = q.depth - q.cq_head - 1

    last : Queue
    last = record q { cq_head = q.depth - 1 }

    first : Queue
    first = record q { cq_head = 0; cq_phase = 1 - q.cq_phase }

    to_last : advance left q ≡ last
    to_last = advance-below left q (omega arith) small ∙ ground arith

    wrap : update_cq_head last ≡ first
    wrap = ground arith

    back : advance q.cq_head first ≡ record q { cq_phase = 1 - q.cq_phase }
    back = advance-below q.cq_head first (omega arith) small ∙ ground arith

    split : q.depth ≡ left + suc q.cq_head
    split = omega arith

    round : advance q.depth q ≡ record q { cq_phase = 1 - q.cq_phase }
    round =
        ap (λ k. advance k q) split
        ∙ advance-add left (suc q.cq_head) q
        ∙ ap (advance (suc q.cq_head)) to_last
        ∙ ap (advance q.cq_head) wrap
        ∙ back

-- The encoding fills the 64 bytes of an entry.
length-encode : (c : Command) → length (encode c) ≡ 64
unfolding encode le_bytes
length-encode c = refl

pub lt-length {ℓ} :
    {A : Type ℓ} (xs : List A) (i : ℕ) {a : A} → get_elem? xs i ≡ some a → i < length xs
lt-length [] i e = cc
lt-length (x ∷ xs) zero e = omega arith
lt-length (x ∷ xs) (suc i) e = omega (arith, lt-length xs i e)

abbrev pub slot_addr : Queue → ℕ
slot_addr q = add32 q.sq_dma_addr (shl q.sq_tail q.sqe_shift)

abbrev pub submitted : Queue → Queue
submitted q =
    let tail = next_index q.depth q.sq_tail in record q { sq_tail = tail; last_sq_tail = tail }

-- On a queue without a doorbell buffer, whose slot at the tail is mapped, `submit_sq_command` with
-- `write_sq` returns: the slot then reads as the 64 bytes of the command, the tail is the next
-- index, below the depth if the tail was, `last_sq_tail` is the same, and the one register write is
-- that of the new tail to the queue's doorbell.
pub submit_sq_command_lem :
    (i : ℕ) (c : Command) (q : Queue) (w : World) {s : Space}
    → get_elem? w.queues i ≡ some q
    → q.dbbuf_sq_db ≡ 0
    → write (slot_addr q) (encode c) w.space ≡ some s
    → (w' : World) × (submit_sq_command i c true w ≡ done tt w')
      × (read (slot_addr q) 64 w'.space ≡ some (encode c))
      × (get_elem? w'.queues i ≡ some (submitted q))
      × (w'.written ≡ writel q.q_db (next_index q.depth q.sq_tail) ∷ w.written)
      × (q.sq_tail < q.depth → next_index q.depth q.sq_tail < q.depth)
unfolding submit_sq_command write_sq_doorbell
submit_sq_command_lem i c q w {s} found plain room =
    let tail = next_index q.depth q.sq_tail in
    let queues = set w.queues i (record q { sq_tail = tail }) in
    let again : get_elem? queues i ≡ some (record q { sq_tail = tail }) =
      get_elem?-set_self w.queues i (record q { sq_tail = tail }) (lt-length w.queues i found) in
    (
      record w {
        space = s;
        queues = set queues i (submitted q);
        written = writel q.q_db tail ∷ w.written;
      },
      rw (found, room, again, plain),
      read-write_self (slot_addr q) (encode c) w.space room,
      get_elem?-set_self queues i (submitted q) (lt-length queues i again),
      refl,
      λ h. ground arith,
    )
