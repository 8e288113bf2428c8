-- ===== src/Link/Mcmq/Rounds/Stream.antt =====
-- The messages of all rounds.
use mcmqhost.Prelude.{
  ℕ, ◌≤◌, ◌≡◌, refl, true, false, List, [], ◌∷◌, ◌++◌, map, some, length, arith, Option-cases, inl,
  inr,
}
use mcmqhost.Link.Ringbuffer.{Ringbuffer}
use mcmqhost.Link.Mcmq.{Link, handle_payload}
use mcmqhost.Link.Mcmq.Receive.{Sized, stream, handle_all, recv_round-stream}
use mcmqhost.Link.Mcmq.Rounds.{
  got, retry, Event, peer, other, Wait, interrupted, ready, recv_events, recv_thread,
}

-- A round in which the thread goes on: a signal comes, or an event that is not the peer's, or `recv`
-- is interrupted, or it gives whole messages, which the turn lists.
pub data Turn : Type 0 where
  signal other_event recv_retry : Turn
  messages : List (List ℕ) → Turn

abbrev pub wait_of : Turn → Wait
wait_of signal = interrupted
wait_of other_event = ready false (other ∷ [])
wait_of recv_retry = ready false (peer retry ∷ [])
wait_of (messages ps) = ready false (peer (got (stream ps)) ∷ [])

abbrev pub payloads : List Turn → List (List ℕ)
payloads [] = []
payloads (signal ∷ turns) = payloads turns
payloads (other_event ∷ turns) = payloads turns
payloads (recv_retry ∷ turns) = payloads turns
payloads (messages ps ∷ turns) = ps ++ payloads turns

-- The receive buffer's size.
abbrev pub rbuf_size : ℕ
rbuf_size = 4096

abbrev pub AllFit : List Turn → Type 0
AllFit [] = Unit {0}
AllFit (signal ∷ turns) = AllFit turns
AllFit (other_event ∷ turns) = AllFit turns
AllFit (recv_retry ∷ turns) = AllFit turns
AllFit (messages ps ∷ turns) = Sized ps × (length (stream ps) ≤ rbuf_size) × AllFit turns

handle_all-split :
    (ps qs : List (List ℕ)) (l l' : Link)
    → handle_all (ps ++ qs) l ≡ some l'
    → (l1 : Link) × (handle_all ps l ≡ some l1) × (handle_all qs l1 ≡ some l')
unfolding handle_all
handle_all-split [] qs l l' all = (l, refl, all)
handle_all-split (p ∷ ps) qs l l' all = elim (Option-cases (handle_payload p l)) [
  | inl failed ↦ absurd (ground (arith, failed, all))
  | inr (l1, handled) ↦
      let later : handle_all (ps ++ qs) l1 ≡ some l' = rw (handled, handle_all) at all in
      let (l2, first, rest) = handle_all-split ps qs l1 l' later in
      (l2, rw (handled, handle_all) first, rest)
]

module _ {R : Type 0} (ring : Ringbuffer R) (events : List Event) (later : List Wait) where
  -- From an empty ring: let each `recv` before the link stops give whole messages that fit in the
  -- receive buffer, with signals, interrupted calls and other events in between in any number. Then
  -- the receiving thread handles all messages once, in order, ends when the link is stopped, and
  -- leaves the link as they leave it and the ring empty.
  pub recv_thread-payloads :
      (turns : List Turn) (r : R) (l l' : Link)
      → ring.contents r ≡ []
      → AllFit turns
      → handle_all (payloads turns) l ≡ some l'
      → (r' : R) × (ring.contents r' ≡ [])
        × (recv_thread ring (map wait_of turns ++ (ready true events ∷ later)) r l ≡ some (r', l'))
  unfolding recv_thread recv_events handle_all
  recv_thread-payloads [] r l l' bare fit all =
      let same : some l ≡ some l' = all in let it : l ≡ l' = cc in (r, bare, rw it refl)
  recv_thread-payloads (signal ∷ turns) r l l' bare fit all =
      recv_thread-payloads turns r l l' bare fit all
  recv_thread-payloads (other_event ∷ turns) r l l' bare fit all =
      recv_thread-payloads turns r l l' bare fit all
  recv_thread-payloads (recv_retry ∷ turns) r l l' bare fit all =
      recv_thread-payloads turns r l l' bare fit all
  recv_thread-payloads (messages ps ∷ turns) r l l' bare (sized, small, fit) all =
      let (l1, first, rest) = handle_all-split ps (payloads turns) l l' all in
      let (r1, bare1, round) =
        recv_round-stream ring ps r l l1 bare sized (omega (arith, small)) first in
      let (r2, bare2, thread) = recv_thread-payloads turns r1 l1 l' bare1 fit rest in
      (r2, bare2, rw (round, thread) refl)
