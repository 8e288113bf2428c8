-- ===== src/Link/Mcmq/Receive.antt =====
-- The stream of messages that the thread of the link takes apart.
use mcmqhost.Prelude.{
  ℕ, zero, suc, ◌+◌, ◌≡◌, ◌<◌, ◌≤◌, refl, ap, ◌∙◌, true, false, List, [], ◌∷◌, ◌++◌, Option, none,
  some, arith, length, take, drop, length-append, u16_mod, ltb, leb, Option-cases, inl, inr,
}
use mcmqhost.Memory.Space.{le_bytes, le_value}
use mcmqhost.Link.Ringbuffer.{Ringbuffer, capacity}
use mcmqhost.Link.Messages.{htons}
use mcmqhost.Link.Mcmq.{Link, handle_payload, drain, recv_round}

pub htons_value : (n : ℕ) → n < u16_mod → htons (le_value (le_bytes 2 (htons n))) ≡ n
unfolding le_value le_bytes
htons_value n h = omega arith

take-length_append : (xs ys : List ℕ) → take (length xs) (xs ++ ys) ≡ xs
take-length_append [] ys = refl
take-length_append (x ∷ xs) ys = ap (λ t. x ∷ t) (take-length_append xs ys)

drop-length_append : (xs ys : List ℕ) → drop (length xs) (xs ++ ys) ≡ ys
drop-length_append [] ys = refl
drop-length_append (x ∷ xs) ys = drop-length_append xs ys

-- A message's length and payload on the wire.
abbrev pub header : ℕ → List ℕ
header n = le_bytes 2 (htons n)

-- The messages' payloads, one after the other.
unfoldable pub handle_all : List (List ℕ) → Link → Option Link
handle_all [] l = some l
handle_all (p ∷ ps) l = elim (handle_payload p l) [ none ↦ none | some l' ↦ handle_all ps l' ]

abbrev pub stream : List (List ℕ) → List ℕ
stream [] = []
stream (p ∷ ps) = header (length p) ++ (p ++ stream ps)

-- A payload has room for its type, and its length fits in the header.
abbrev pub Sized : List (List ℕ) → Type 0
Sized [] = Unit {0}
Sized (p ∷ ps) = ((2 ≤ length p) × (length p < u16_mod)) × Sized ps

pub take-header : (n : ℕ) (xs : List ℕ) → take 2 (header n ++ xs) ≡ header n
unfolding le_bytes
take-header n xs = refl

pub drop-header : (n : ℕ) (xs : List ℕ) → drop 2 (header n ++ xs) ≡ xs
unfolding le_bytes
drop-header n xs = refl

pub length-header : (n : ℕ) (xs : List ℕ) → length (header n ++ xs) ≡ 2 + length xs
unfolding le_bytes
length-header n xs = omega arith

module _ {R : Type 0} (ring : Ringbuffer R) where
  -- A ring that holds a length and more: what the loop reads of it.
  read_header :
      (n : ℕ) (xs : List ℕ) (r : R)
      → ring.contents r ≡ header n ++ xs
      → n < u16_mod
      → (htons (le_value (ring.read_buff 2 r).0) ≡ n)
        × (ring.contents (ring.read_buff 2 r).1 ≡ xs)
        × (ring.read_available r ≡ 2 + length xs)
        × (ring.read_available (ring.read_buff 2 r).1 ≡ length xs)
  read_header n xs r held fits =
      let size : length (ring.contents r) ≡ 2 + length xs = ap length held ∙ length-header n xs in
      let enough : 2 ≤ length (ring.contents r) = omega (arith, size) in
      let left : ring.contents (ring.read_buff 2 r).1 ≡ xs =
        ring.read_buff_left 2 r enough ∙ ap (drop 2) held ∙ drop-header n xs in
      (
        ap (λ b. htons (le_value b))
              (ring.read_buff_bytes 2 r enough ∙ ap (take 2) held ∙ take-header n xs)
            ∙ htons_value n fits,
        left,
        ring.read_available_lem r ∙ size,
        ring.read_available_lem (ring.read_buff 2 r).1 ∙ ap length left,
      )

  drain-message :
      (fuel : ℕ) (p rest : List ℕ) (r : R) (l : Link) {l' : Link}
      → ring.contents r ≡ header (length p) ++ (p ++ rest)
      → 2 ≤ length p
      → length p < u16_mod
      → handle_payload p l ≡ some l'
      → (r' : R) × (ring.contents r' ≡ rest)
        × (drain ring (suc fuel) none r l ≡ drain ring fuel none r' l')
  unfolding drain
  drain-message fuel p rest r l {l' = l'} held room fits handled =
      let (is_len, left, there, behind) = read_header (length p) (p ++ rest) r held fits in
      let r1 = (ring.read_buff 2 r).1 in
      let both : length (p ++ rest) ≡ length p + length rest = length-append p rest in
      let enough : length p ≤ length (ring.contents r1) = omega (arith, ap length left, both) in
      let bytes : (ring.read_buff (length p) r1).0 ≡ p =
        ring.read_buff_bytes (length p) r1 enough
        ∙ ap (take (length p)) left
        ∙ take-length_append p rest in
      let some_there : ltb 2 (ring.read_available r) ≡ true = ground (arith, there, both) in
      let all_there : ltb (ring.read_available r1) (length p) ≡ false =
        ground (arith, behind, both) in
      (
        (ring.read_buff (length p) r1).1,
        ring.read_buff_left (length p) r1 enough
            ∙ ap (drop (length p)) left
            ∙ drop-length_append p rest,
        rw (some_there, is_len, all_there, bytes, handled)
            (ap (λ n. drain ring fuel none (ring.read_buff n r1).1 l') is_len),
      )

  drain-empty :
      (fuel : ℕ) (r : R) (l : Link)
      → ring.contents r ≡ []
      → drain ring (suc fuel) none r l ≡ some (none, r, l)
  unfolding drain
  drain-empty fuel r l held =
      let nothing : ltb 2 (ring.read_available r) ≡ false =
        ground (arith, ring.read_available_lem r ∙ ap length held) in
      rw nothing refl

  drain-stream :
      (ps : List (List ℕ)) (fuel : ℕ) (r : R) (l l' : Link)
      → ring.contents r ≡ stream ps
      → Sized ps
      → length ps < fuel
      → handle_all ps l ≡ some l'
      → (r' : R) × (ring.contents r' ≡ []) × (drain ring fuel none r l ≡ some (none, r', l'))
  unfolding handle_all
  drain-stream ps zero r l l' held sized enough all = absurd (omega arith)
  drain-stream [] (suc fuel) r l l' held sized enough all =
      let same : some l ≡ some l' = all in let ended = drain-empty fuel r l held in (r, held, cc)
  drain-stream (p ∷ ps) (suc fuel) r l l' held ((room, fits), sized) enough all =
      elim (Option-cases (handle_payload p l)) [
        | inl stuck ↦ absurd (ground (arith, stuck, all))
        | inr (l1, handled) ↦
            let (r1, left, step) = drain-message fuel p (stream ps) r l held room fits handled in
            let later : handle_all ps l1 ≡ some l' = rw (handled, handle_all) at all in
            let (r2, none_left, rest) =
              drain-stream ps fuel r1 l1 l' left sized (omega arith) later in
            (r2, none_left, step ∙ rest)
      ]

  length-stream : (ps : List (List ℕ)) → length ps ≤ length (stream ps)
  length-stream [] = omega arith
  length-stream (p ∷ ps) = omega (
    arith,
    length-header (length p) (p ++ stream ps),
    length-append p (stream ps),
    length-stream ps,
  )

  -- From a ring that holds the first bytes of whole messages, with no length kept: a `recv` that gives
  -- the rest.
  pub recv_round-rest :
      (ps : List (List ℕ)) (part more : List ℕ) (r : R) (l l' : Link)
      → ring.contents r ≡ part
      → part ++ more ≡ stream ps
      → Sized ps
      → length (stream ps) ≤ capacity
      → handle_all ps l ≡ some l'
      → (r' : R) × (ring.contents r' ≡ []) × (recv_round ring none more r l ≡ some (none, r', l'))
  unfolding recv_round
  recv_round-rest ps part more r l l' there whole sized small all =
      let r1 = ring.write_buff more r in
      let room : length (ring.contents r) + length more ≤ capacity =
        omega (arith, ap length there, ap length whole, length-append part more) in
      let held : ring.contents r1 ≡ stream ps =
        ring.contents-write_buff more r room ∙ ap (λ xs. xs ++ more) there ∙ whole in
      let available : ring.read_available r1 ≡ length (stream ps) =
        ring.read_available_lem r1 ∙ ap length held in
      drain-stream ps (ring.read_available r1 + 2) r1 l l' held sized
        (omega (arith, available, length-stream ps)) all

  -- From an empty ring, one `recv` that gives whole messages, 16 KiB at most, is taken apart into
  -- them: the link ends as the messages leave it, each handled once, in order, and the ring is empty
  -- again, with no length kept.
  pub recv_round-stream :
      (ps : List (List ℕ)) (r : R) (l l' : Link)
      → ring.contents r ≡ []
      → Sized ps
      → length (stream ps) ≤ capacity
      → handle_all ps l ≡ some l'
      → (r' : R) × (ring.contents r' ≡ [])
        × (recv_round ring none (stream ps) r l ≡ some (none, r', l'))
  recv_round-stream ps r l l' bare sized small all =
      recv_round-rest ps [] (stream ps) r l l' bare refl sized small all

  -- From an empty ring, a `recv` that gives the length of a message and a part of its payload, and
  -- no more, ends with the part in the ring, the length in `last_len`, and the link as it was.
  pub recv_round-partial :
      (n : ℕ) (part : List ℕ) (r : R) (l : Link)
      → ring.contents r ≡ []
      → n < u16_mod
      → 0 < length part
      → length part < n
      → length part + 2 ≤ capacity
      → (r' : R) × (ring.contents r' ≡ part)
        × (recv_round ring none (header n ++ part) r l ≡ some (some n, r', l))
  unfolding recv_round drain
  recv_round-partial n part r l bare fits begun short small =
      let r1 = ring.write_buff (header n ++ part) r in
      let held : ring.contents r1 ≡ header n ++ part =
        ring.contents-write_buff (header n ++ part) r
          (omega (arith, ap length bare, length-header n part))
        ∙ ap (λ xs. xs ++ (header n ++ part)) bare in
      let (is_len, left, there, behind) = read_header n part r1 held fits in
      let some_there : ltb 2 (ring.read_available r1) ≡ true = ground (arith, there) in
      let not_all : ltb (ring.read_available (ring.read_buff 2 r1).1) n ≡ true =
        ground (arith, behind) in
      let too_few : leb n (ring.read_available (ring.read_buff 2 r1).1) ≡ false =
        ground (arith, behind) in
      let fuel : ring.read_available r1 + 2 ≡ suc (suc (2 + length part)) = omega (arith, there) in
      ((ring.read_buff 2 r1).1, left, rw (fuel, some_there, is_len, not_all, too_few) refl)
