-- ===== src/Link/Mcmq/Results.antt =====
-- The result that `PCIeLinkMcmq::report` asks for, which arrives in one message or in several.
use mathlib.Core.List.{append-nil, append_assoc}
use mcmqhost.Prelude.{
  ℕ, ◌≡◌, ◌<◌, ◌≤◌, refl, sym, ap, ◌∙◌, Bool, true, false, Bool-cases, List, [], ◌∷◌, ◌++◌, none,
  some, map, arith, length, length-append, u16_mod, leb, ◌==◌, if◌then◌else◌, inl, inr,
}
use mcmqhost.Link.Mcmq.{
  Link, send_message, report, append_result, is_empty, handle_result, dispatch, handle_payload,
}
use mcmqhost.Link.Mcmq.Receive.{
  header, handle_all, htons_value, take-header, drop-header, length-header,
}

-- The payload of a `RESULT` message with the bytes.
abbrev pub tagged : List ℕ → List ℕ
tagged piece = header 7 ++ piece

abbrev pub concat : List (List ℕ) → List ℕ
concat [] = []
concat (p ∷ ps) = p ++ concat ps

-- The payloads of a result of `total` bytes that begins with `first` and goes on with `rest`.
abbrev pub result_payloads : ℕ → List ℕ → List (List ℕ) → List (List ℕ)
result_payloads total first rest = tagged (header total ++ first) ∷ map tagged rest

handle_payload-tagged : (p : List ℕ) (l : Link) → handle_payload (tagged p) l ≡ handle_result p l
unfolding handle_payload dispatch
handle_payload-tagged p l =
    let room : leb 2 (length (tagged p)) ≡ true = ground (arith, length-header 7 p) in
    rw (room, take-header 7 p, htons_value 7 (omega arith), drop-header 7 p) refl

handle_result-first :
    (total : ℕ) (p : List ℕ) (l : Link)
    → total < u16_mod
    → l.result_buf ≡ []
    → handle_result (header total ++ p) l ≡ some (append_result total p l)
handle_result-first total p l small fresh =
    let room : leb 2 (length (header total ++ p)) ≡ true = ground (arith, length-header total p) in
    rw (fresh, room, take-header total p, htons_value total small, drop-header total p) refl

handle_result-later :
    (p : List ℕ) (l : Link)
    → is_empty l.result_buf ≡ false
    → handle_result p l ≡ some (append_result l.result_len p l)
handle_result-later p l begun = rw begun refl

-- The result is ready exactly when the buffer has as many bytes as it will have.
abbrev pub ReadyWhenWhole : ℕ → Link → Type 0
ReadyWhenWhole total l = l.result_ready ≡ (length l.result_buf == total)

-- A result that is being collected: its length is known, and some of it is there.
record Begun (total : ℕ) (l : Link) : Type 0 where
  some_there : is_empty l.result_buf ≡ false
  known : l.result_len ≡ total
  ready : ReadyWhenWhole total l

is_empty-append : (xs ys : List ℕ) → is_empty xs ≡ false → is_empty (xs ++ ys) ≡ false
is_empty-append [] ys h = cc
is_empty-append (x ∷ xs) ys h = refl

handle_all-cons :
    (p : List ℕ) (ps : List (List ℕ)) (l l1 : Link)
    → handle_payload p l ≡ some l1
    → handle_all (p ∷ ps) l ≡ handle_all ps l1
unfolding handle_all
handle_all-cons p ps l l1 e = rw (e, handle_all) refl

-- The test behind an insertion.
ready-after :
    (n len total : ℕ) (ready : Bool)
    → len ≡ total
    → ((n == total) ≡ false → ready ≡ false)
    → (if n == len then true else ready) ≡ (n == total)
ready-after n len total ready known shorter = elim (Bool-cases (n == total)) [
  | inl whole ↦ rw (known, whole) refl
  | inr part ↦ rw (known, part) (shorter part)
]

-- One more piece of it.
append_result-Begun :
    (total : ℕ) (p : List ℕ) (l : Link)
    → Begun total l
    → length (l.result_buf ++ p) ≤ total
    → Begun total (append_result l.result_len p l)
append_result-Begun total p l b fits = record {
  some_there = is_empty-append l.result_buf p b.some_there;
  known = b.known;
  ready =
      ready-after (length (l.result_buf ++ p)) l.result_len total l.result_ready b.known shorter;
}
  where
    shorter : (length (l.result_buf ++ p) == total) ≡ false → l.result_ready ≡ false
    shorter part =
        let less : (length l.result_buf == total) ≡ false =
          ground (arith, length-append l.result_buf p, part, fits) in
        b.ready ∙ less

-- What the pieces leave.
abbrev Collected : ℕ → List ℕ → List (List ℕ) → Link → Type 0
Collected total bytes payloads l =
    (l' : Link) × (handle_all payloads l ≡ some l')
    × (l'.result_buf ≡ bytes)
    × ReadyWhenWhole total l'

collect-later :
    (total : ℕ) (ps : List (List ℕ)) (l : Link)
    → Begun total l
    → length (l.result_buf ++ concat ps) ≤ total
    → Collected total (l.result_buf ++ concat ps) (map tagged ps) l
unfolding handle_all
collect-later total [] l b fits = (l, refl, sym (append-nil l.result_buf), b.ready)
collect-later total (p ∷ ps) l b fits =
    let l1 = append_result l.result_len p l in
    let together : (l.result_buf ++ p) ++ concat ps ≡ l.result_buf ++ (p ++ concat ps) =
      append_assoc l.result_buf p (concat ps) in
    let b1 = append_result-Begun total p l b (
      omega (
        arith,
        fits,
        length-append l.result_buf p,
        length-append l.result_buf (p ++ concat ps),
        length-append p (concat ps),
      )) in
    let (l', handled, buf, ready) =
      collect-later total ps l1 b1 (omega (arith, fits, ap length together)) in
    (
      l',
      handle_all-cons (tagged p) (map tagged ps) l l1
            (handle_payload-tagged p l ∙ handle_result-later p l b.some_there)
          ∙ handled,
      buf ∙ together,
      ready,
    )

not-empty : (xs : List ℕ) → 0 < length xs → is_empty xs ≡ false
not-empty [] h = absurd (omega arith)
not-empty (x ∷ xs) h = refl

if-some : (b : Bool) (x y : Link) → (if b then some x else none) ≡ some y → x ≡ y
if-some true x y h = let it : some x ≡ some y = h in cc
if-some false x y h = cc

report-fresh :
    (n : ℕ) (l l' : Link) → report n l ≡ some l' → (l'.result_buf ≡ []) × (l'.result_ready ≡ false)
unfolding report send_message
report-fresh n l l' sent =
    let same = if-some _ _ l' sent in
    (sym (ap (λ (x : Link). x.result_buf) same), sym (ap (λ (x : Link). x.result_ready) same))

-- A result of less than 2^16 bytes that begins with a piece that is not empty, once `report` has asked
-- for it: at every point, when the first pieces have arrived, in a message each, the buffer holds
-- them together, and the result is ready exactly if they are as many bytes as announced.
pub report-result_payloads :
    (n total : ℕ) (l l' : Link) (first : List ℕ) (rest : List (List ℕ))
    → report n l ≡ some l'
    → total < u16_mod
    → 0 < length first
    → length (first ++ concat rest) ≤ total
    → (after : Link) × (handle_all (result_payloads total first rest) l' ≡ some after)
      × (after.result_buf ≡ first ++ concat rest)
      × (after.result_ready ≡ (length (first ++ concat rest) == total))
unfolding handle_all
report-result_payloads n total l l' first rest asked small begins fits =
    let (fresh, not_ready) = report-fresh n l l' asked in
    let l1 = append_result total first l' in
    let joined : l'.result_buf ++ first ≡ first = ap (λ xs. xs ++ first) fresh in
    let b1 : Begun total l1 = record {
      some_there = ap is_empty joined ∙ not-empty first begins;
      known = refl;
      ready =
          ready-after (length (l'.result_buf ++ first)) total total l'.result_ready refl
            (λ _. not_ready);
    } in
    let (after, handled, buf, ready) = collect-later total rest l1 b1 (
      omega (
        arith,
        fits,
        ap length joined,
        length-append l1.result_buf (concat rest),
        length-append first (concat rest),
      )) in
    let all : after.result_buf ≡ first ++ concat rest = buf ∙ ap (λ xs. xs ++ concat rest) joined in
    (
      after,
      handle_all-cons (tagged (header total ++ first)) (map tagged rest) l' l1 (
            handle_payload-tagged (header total ++ first) l'
            ∙ handle_result-first total first l' small fresh)
          ∙ handled,
      all,
      ready ∙ ap (λ xs. length xs == total) all,
    )
