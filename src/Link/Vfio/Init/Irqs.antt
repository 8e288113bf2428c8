-- ===== src/Link/Vfio/Init/Irqs.antt =====
-- The loop of `init` that gives the event descriptors to the interrupts.
use mathlib.Core.List.{append-nil, append_assoc}
use mcmqhost.Prelude.{
  ℕ, zero, suc, ◌+◌, ◌≤◌, ◌<◌, ◌≡◌, ◌⊎◌, refl, sym, ap, ◌∙◌, true, false, inl, inr, Bool-cases,
  List, [], ◌∷◌, ◌++◌, none, some, ◌==◌, if◌then◌else◌, ltb, take, length, length-append, get_elem?,
  set, map, arith,
}
use mcmqhost.Link.Vfio.Init.{
  Os, Call, set_irqs, nr_irq_fds, eventfds, outside, filled, fill_pfd, irqs_set, overran,
  set_all_irqs,
}

-- The indices that have exactly as many interrupts as there are descriptors, among the first `n`
-- from `i` on.
abbrev pub full : Os → ℕ → ℕ → ℕ → List ℕ
full os device zero i = []
full os device (suc n) i =
    let rest = full os device n (i + 1) in
    if os.irq_count device i == nr_irq_fds then i ∷ rest else rest

pub length-eventfds : (os : Os) (n i : ℕ) → length (eventfds os n i) ≡ n
unfolding eventfds
length-eventfds os zero i = refl
length-eventfds os (suc n) i = ap suc (length-eventfds os n (i + 1))

length-last : (done : List ℕ) (x : ℕ) → length (done ++ (x ∷ [])) ≡ length done + 1
length-last done x = length-append done (x ∷ [])

get_elem?-append :
    (done rest : List ℕ) (x : ℕ) → get_elem? (done ++ (x ∷ rest)) (length done) ≡ some x
get_elem?-append [] rest x = refl
get_elem?-append (y ∷ done) rest x = get_elem?-append done rest x

get_elem?-end : (done : List ℕ) → get_elem? (done ++ []) (length done) ≡ none
get_elem?-end [] = refl
get_elem?-end (y ∷ done) = get_elem?-end done

set-append :
    (done rest : List ℕ) (x y : ℕ)
    → set (done ++ (y ∷ rest)) (length done) x ≡ (done ++ (x ∷ [])) ++ rest
set-append [] rest x y = refl
set-append (z ∷ done) rest x y = ap (λ t. z ∷ t) (set-append done rest x y)

-- One round, where both arrays go on.
fill_pfd-next :
    (n : ℕ) (done xs ys : List ℕ) (x y : ℕ)
    → fill_pfd (suc n) (length done) (done ++ (x ∷ xs)) (done ++ (y ∷ ys))
      ≡ fill_pfd n (length (done ++ (x ∷ []))) ((done ++ (x ∷ [])) ++ xs) ((done ++ (x ∷ [])) ++ ys)
unfolding fill_pfd
fill_pfd-next n done xs ys x y =
    let inside : ltb (length done) (length (done ++ (y ∷ ys))) ≡ true =
      ground (arith, length-append done (y ∷ ys)) in
    let fds : (done ++ (x ∷ [])) ++ xs ≡ done ++ (x ∷ xs) = append_assoc done (x ∷ []) xs in
    rw (get_elem?-append done xs x, inside, set-append done ys x y, length-last done x, fds) refl

fill_pfd-all :
    (xs ys done : List ℕ)
    → length xs ≡ length ys
    → fill_pfd (length xs) (length done) (done ++ xs) (done ++ ys) ≡ filled (done ++ xs)
unfolding fill_pfd
fill_pfd-all [] [] done same = refl
fill_pfd-all [] (y ∷ ys) done same = absurd (omega (arith, same))
fill_pfd-all (x ∷ xs) [] done same = absurd (omega (arith, same))
fill_pfd-all (x ∷ xs) (y ∷ ys) done same =
    fill_pfd-next (length xs) done xs ys x y
    ∙ fill_pfd-all xs ys (done ++ (x ∷ [])) (omega (arith, same))
    ∙ ap filled (append_assoc done (x ∷ []) xs)

fill_pfd-end :
    (n : ℕ) (done pfd : List ℕ)
    → fill_pfd (suc n) (length done) (done ++ []) pfd ≡ outside (length done + 0)
unfolding fill_pfd
fill_pfd-end n done pfd = rw (get_elem?-end done) (ap outside (omega arith))

fill_pfd-outside :
    (n : ℕ) (xs ys done : List ℕ)
    → length xs ≡ length ys
    → length xs < n
    → fill_pfd n (length done) (done ++ xs) (done ++ ys) ≡ outside (length done + length xs)
fill_pfd-outside zero xs ys done same more = absurd (omega (arith, more))
fill_pfd-outside (suc n) [] ys done same more = fill_pfd-end n done (done ++ ys)
fill_pfd-outside (suc n) (x ∷ xs) [] done same more = absurd (omega (arith, same))
fill_pfd-outside (suc n) (x ∷ xs) (y ∷ ys) done same more =
    fill_pfd-next n done xs ys x y
    ∙ fill_pfd-outside n xs ys (done ++ (x ∷ [])) (omega (arith, same)) (omega (arith, more))
    ∙ ap outside (omega (arith, length-last done x))

take_all {ℓ} : {A : Type ℓ} (xs : List A) → take (length xs) xs ≡ xs
take_all [] = refl
take_all (x ∷ xs) = ap (λ t. x ∷ t) (take_all xs)

ℕ-cases : (n : ℕ) → (n ≡ 0) ⊎ ((m : ℕ) × (n ≡ suc m))
ℕ-cases zero = inl refl
ℕ-cases (suc n) = inr (n, refl)

module _ (os : Os) (device : ℕ) (fds : List ℕ) (sixteen : length fds ≡ nr_irq_fds) where
  -- The calls for the first `n` interrupt indices from `i` on.
  abbrev pub calls_for : ℕ → ℕ → List Call
  calls_for n i = map (λ k. set_irqs device k fds) (full os device n i)

  abbrev pub Fits : ℕ → ℕ → Type 0
  Fits n i = (j : ℕ) → j < n → os.irq_count device (i + j) ≤ nr_irq_fds

  Fits-tail : (n i : ℕ) → Fits (suc n) i → Fits n (i + 1)
  Fits-tail n i fit = λ j inside.
      (let next : i + suc j ≡ i + 1 + j = omega arith in
        rw next at (fit (suc j) (omega (arith, inside))))

  -- A round at an index that fits: what is called, and how the rounds behind it are reached.
  set_all_irqs-fits :
      (n i : ℕ) (pfd : List ℕ) (calls : List Call)
      → length pfd ≡ nr_irq_fds
      → os.irq_count device i ≤ nr_irq_fds
      → (pfd' : List ℕ) × (length pfd' ≡ nr_irq_fds)
        × (set_all_irqs os device fds (suc n) i pfd calls
            ≡ set_all_irqs os device fds n (i + 1) pfd' (calls ++ calls_for 1 i))
  unfolding set_all_irqs
  set_all_irqs-fits n i pfd calls room fit =
      let count = os.irq_count device i in
      elim (Bool-cases (count == nr_irq_fds)) [
        | inl exact ↦
            let enough : ltb count nr_irq_fds ≡ false = ground arith in
            let all : count ≡ length fds = ground (arith, exact, sixteen) in
            let filling : fill_pfd count 0 fds pfd ≡ filled fds =
              ap (λ k. fill_pfd k 0 fds pfd) all ∙ fill_pfd-all fds pfd [] (sixteen ∙ sym room) in
            let whole : take count fds ≡ fds = ap (λ k. take k fds) all ∙ take_all fds in
            (fds, sixteen, rw (enough, filling, whole, exact) refl)
        | inr differs ↦
            let fewer : ltb count nr_irq_fds ≡ true = ground (arith, differs, fit) in
            (
              pfd,
              room,
              rw (fewer, differs)
                  (ap (set_all_irqs os device fds n (i + 1) pfd) (sym (append-nil calls))),
            )
      ]

  calls_for-next :
      (n i : ℕ) (calls : List Call)
      → (calls ++ calls_for 1 i) ++ calls_for n (i + 1) ≡ calls ++ calls_for (suc n) i
  calls_for-next n i calls = elim (Bool-cases (os.irq_count device i == nr_irq_fds)) [
    | inl exact ↦ rw exact (append_assoc calls (set_irqs device i fds ∷ []) (calls_for n (i + 1)))
    | inr differs ↦ rw differs (ap (λ c. c ++ calls_for n (i + 1)) (append-nil calls))
  ]

  set_all_irqs-none :
      (i : ℕ) (pfd : List ℕ) (calls : List Call)
      → set_all_irqs os device fds 0 i pfd calls ≡ irqs_set (calls ++ [])
  unfolding set_all_irqs
  set_all_irqs-none i pfd calls = ap irqs_set (sym (append-nil calls))

  set_all_irqs-over :
      (n i : ℕ) (pfd : List ℕ) (calls : List Call)
      → length pfd ≡ nr_irq_fds
      → nr_irq_fds < os.irq_count device i
      → set_all_irqs os device fds (suc n) i pfd calls ≡ overran i nr_irq_fds (calls ++ [])
  unfolding set_all_irqs
  set_all_irqs-over n i pfd calls room many =
      let enough : ltb (os.irq_count device i) nr_irq_fds ≡ false = ground (arith, many) in
      let filling : fill_pfd (os.irq_count device i) 0 fds pfd ≡ outside nr_irq_fds =
        fill_pfd-outside (os.irq_count device i) fds pfd [] (sixteen ∙ sym room)
          (omega (arith, sixteen, many))
        ∙ ap outside (omega (arith, sixteen)) in
      rw (enough, filling) (ap (overran i nr_irq_fds) (sym (append-nil calls)))

  pub set_all_irqs-full :
      (n i : ℕ) (pfd : List ℕ) (calls : List Call)
      → length pfd ≡ nr_irq_fds
      → Fits n i
      → set_all_irqs os device fds n i pfd calls ≡ irqs_set (calls ++ calls_for n i)
  set_all_irqs-full zero i pfd calls room fit = set_all_irqs-none i pfd calls
  set_all_irqs-full (suc n) i pfd calls room fit =
      let here : i + 0 ≡ i = omega arith in
      let first : os.irq_count device i ≤ nr_irq_fds = rw here at (fit 0 (omega arith)) in
      let (pfd', room', step) = set_all_irqs-fits n i pfd calls room first in
      step
      ∙ set_all_irqs-full n (i + 1) pfd' (calls ++ calls_for 1 i) room' (Fits-tail n i fit)
      ∙ ap irqs_set (calls_for-next n i calls)

  -- The first index that has too many interrupts.
  pub set_all_irqs-overran :
      (k n i : ℕ) (pfd : List ℕ) (calls : List Call)
      → length pfd ≡ nr_irq_fds
      → Fits k i
      → k < n
      → nr_irq_fds < os.irq_count device (i + k)
      → set_all_irqs os device fds n i pfd calls
        ≡ overran (i + k) nr_irq_fds (calls ++ calls_for k i)
  set_all_irqs-overran k zero i pfd calls room fit inside large = absurd (omega (arith, inside))
  set_all_irqs-overran zero (suc n) i pfd calls room fit inside large =
      let here : i + 0 ≡ i = omega arith in
      rw here (set_all_irqs-over n i pfd calls room (rw here at large))
  set_all_irqs-overran (suc k) (suc n) i pfd calls room fit inside large =
      let here : i + 0 ≡ i = omega arith in
      let first : os.irq_count device i ≤ nr_irq_fds = rw here at (fit 0 (omega arith)) in
      let (pfd', room', step) = set_all_irqs-fits n i pfd calls room first in
      let there : i + suc k ≡ i + 1 + k = omega arith in
      let large' : nr_irq_fds < os.irq_count device (i + 1 + k) = rw there at large in
      step
      ∙ set_all_irqs-overran k n (i + 1) pfd' (calls ++ calls_for 1 i) room' (Fits-tail k i fit)
          (omega (arith, inside)) large'
      ∙ ap (overran (i + 1 + k) nr_irq_fds) (calls_for-next k i calls)
      ∙ ap (λ m. overran m nr_irq_fds (calls ++ calls_for (suc k) i)) (sym there)
