-- ===== src/Link/Mcmq/Rounds.antt =====
-- The outer loop of `PCIeLinkMcmq::recv_thread`: what `epoll_wait` and `recv` give, round by round.
pub mod Stream
pub mod Split
use mcmqhost.Prelude.{ℕ, Bool, List, [], ◌∷◌, Option, none, some, if◌then◌else◌}
use mcmqhost.Link.Ringbuffer.{Ringbuffer}
use mcmqhost.Link.Mcmq.{Link, recv_round}

-- What `recv` gives: bytes, at most 4096; `EINTR`; or another error.
pub data Recv : Type 0 where
  got : List ℕ → Recv
  retry broken : Recv

-- An event is on the peer's descriptor or on the event descriptor, each at most once in a round.
pub data Event : Type 0 where
  peer : Recv → Event
  other : Event

-- What `epoll_wait` gives, with whether the link is stopped by then.
pub data Wait : Type 0 where
  interrupted failed : Wait
  ready : Bool → List Event → Wait

module _ {R : Type 0} (ring : Ringbuffer R) where
  -- An error of `recv` ends the loop over the events, not that over the rounds.
  unfoldable pub recv_events : List Event → Option ℕ → R → Link → Option (R × Link)
  unfolding recv_round
  recv_events [] last_len r l = some (r, l)
  recv_events (other ∷ events) last_len r l = recv_events events last_len r l
  recv_events (peer retry ∷ events) last_len r l = recv_events events last_len r l
  recv_events (peer broken ∷ events) last_len r l = some (r, l)
  recv_events (peer (got bytes) ∷ events) last_len r l = elim (recv_round ring last_len bytes r l) [
    | none ↦ none
    | some (last_len', r', l') ↦ recv_events events last_len' r' l'
  ]

  -- `last_len` is a new variable in each round. `none`: an assertion fails.
  unfoldable pub recv_thread : List Wait → R → Link → Option (R × Link)
  unfolding recv_events
  recv_thread [] r l = some (r, l)
  recv_thread (interrupted ∷ rounds) r l = recv_thread rounds r l
  recv_thread (failed ∷ rounds) r l = some (r, l)
  recv_thread (ready stopped events ∷ rounds) r l =
      let round : Option (R × Link) = elim (recv_events events none r l) [
        | none ↦ none
        | some (r', l') ↦ recv_thread rounds r' l'
      ] in
      if stopped then some (r, l) else round
