-- ===== src/Link/Mcmq/Rounds/Split.antt =====
-- A message that comes in two parts, in two rounds of the receiving thread.
use mcmqhost.Prelude.{
  ℕ, ◌+◌, ◌≤◌, ◌<◌, ◌≡◌, refl, ap, true, false, List, [], ◌∷◌, ◌++◌, some, length, length-append,
  arith, u16_mod,
}
use mcmqhost.Link.Ringbuffer.{Ringbuffer}
use mcmqhost.Link.Mcmq.{Link, handle_payload}
use mcmqhost.Link.Mcmq.Receive.{
  Sized, header, length-header, stream, handle_all, recv_round-partial, recv_round-rest,
}
use mcmqhost.Link.Mcmq.Rounds.{got, Event, peer, Wait, ready, recv_thread}
use mcmqhost.Link.Mcmq.Rounds.Stream.{messages, wait_of, rbuf_size, recv_thread-payloads}

-- A round in which `recv` gives the bytes.
abbrev pub receives : List ℕ → Wait
receives bytes = ready false (peer (got bytes) ∷ [])

handle_all-one :
    (p : List ℕ) (l l' : Link) → handle_payload p l ≡ some l' → handle_all (p ∷ []) l ≡ some l'
unfolding handle_all
handle_all-one p l l' handled = rw (handled, handle_all) refl

module _ {R : Type 0} (ring : Ringbuffer R) (events : List Event) (later : List Wait)
    (part more : List ℕ) (r : R) (l : Link) where
  -- From an empty ring, let the payload `part ++ more` of one message, of 2 bytes or more, fit in the
  -- receive buffer with its length, and read like the whole messages `ps` itself, where the handling of
  -- neither fails. Where one round receives the length and the payload, and the link is stopped in the
  -- next, the thread handles the payload, once. Where a round receives the length and `part`, at least a
  -- byte and not all of the payload, the next one `more`, and the link is stopped in the one behind, the
  -- thread has lost the length by then: it handles the messages `ps`, and not the payload.
  pub recv_thread-split :
      (ps : List (List ℕ)) (whole split : Link)
      → ring.contents r ≡ []
      → 2 ≤ length (part ++ more)
      → length (part ++ more) < u16_mod
      → length (part ++ more) + 2 ≤ rbuf_size
      → 0 < length part
      → 0 < length more
      → part ++ more ≡ stream ps
      → Sized ps
      → handle_payload (part ++ more) l ≡ some whole
      → handle_all ps l ≡ some split
      → let size = header (length (part ++ more)) in
        let stops = ready true events ∷ later in
        ((r' : R) × (ring.contents r' ≡ [])
          × (recv_thread ring (wait_of (messages ((part ++ more) ∷ [])) ∷ stops) r l
              ≡ some (r', whole)))
        × ((r' : R) × (ring.contents r' ≡ [])
            × (recv_thread ring (receives (size ++ part) ∷ receives more ∷ stops) r l
                ≡ some (r', split)))
  unfolding recv_thread mcmqhost.Link.Mcmq.Rounds.recv_events
  recv_thread-split ps whole split bare typed fits small begun cut like sized handled inner =
      let n = length (part ++ more) in
      let both : n ≡ length part + length more = length-append part more in
      let (r1, held, first) =
        recv_round-partial ring n part r l bare fits begun (omega (arith, both, cut))
          (omega (arith, both, small)) in
      let (r2, empty, second) =
        recv_round-rest ring ps part more r1 l split held like sized
          (omega (arith, ap length like, small)) inner in
      let p = part ++ more in
      let one_message : length (stream (p ∷ [])) ≤ rbuf_size =
        omega (arith, small, length-header n (p ++ []), length-append {A = ℕ} p []) in
      (
        recv_thread-payloads ring events later (messages (p ∷ []) ∷ []) r l whole bare
            (((typed, fits), tt), one_message, tt) (handle_all-one p l whole handled),
        (r2, empty, rw (first, second) refl),
      )
