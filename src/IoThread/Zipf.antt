-- ===== src/IoThread/Zipf.antt =====
-- `zipf_distribution` of zipf_distribution.h, over the operations of `double` and of the C library
-- that it uses. Its uniform distribution enters as the values that it draws.
use mcmqhost.Prelude.{
  ℕ, ◌≤◌, ◌<◌, ◌≡◌, refl, min, max, Bool, true, false, List, [], ◌∷◌, ◌++◌, Option, none, some,
  if◌then◌else◌, arith,
}

-- `round_to_int` is `std::round` with the conversion to `IntType`.
pub record Real (R : Type 0) : Type 0 where
  pub add : R → R → R
  pub sub : R → R → R
  pub mul : R → R → R
  pub div : R → R → R
  pub neg : R → R
  pub of_nat : ℕ → R
  pub abs : R → R
  pub larger : R → R → R
  pub exp : R → R
  pub log : R → R
  pub expm1 : R → R
  pub log1p : R → R
  pub gt : R → R → Bool
  pub ge : R → R → Bool
  pub round_to_int : R → ℕ
  -- the literal `1e-8`
  pub epsilon : R

module _ {R : Type 0} (r : Real R) where
  -- The literals `1.0`, `0.5` and `1.5`; those of the C++ code are exact.
  abbrev pub one : R
  one = r.of_nat 1

  abbrev pub half : R
  half = r.div one (r.of_nat 2)

  abbrev pub one_and_half : R
  one_and_half = r.div (r.of_nat 3) (r.of_nat 2)

  abbrev pub expm1bx : R → R
  expm1bx x =
      if r.gt (r.abs x) r.epsilon
      then r.div (r.expm1 x) x
      else r.add one (
          r.mul (r.div x (r.of_nat 2))
            (r.add one (r.mul (r.div x (r.of_nat 3)) (r.add one (r.div x (r.of_nat 4))))))

  abbrev pub hat_integral : R → R → R
  hat_integral q x = let log_x = r.log x in r.mul (expm1bx (r.mul (r.sub one q) log_x)) log_x

  abbrev pub log1pxbx : R → R
  log1pxbx x =
      if r.gt (r.abs x) r.epsilon
      then r.div (r.log1p x) x
      else r.sub one (
          r.mul x (
            r.sub (r.div one (r.of_nat 2))
              (r.mul x (r.sub (r.div one (r.of_nat 3)) (r.mul x (r.div one (r.of_nat 4)))))))

  abbrev pub inverse_integral : R → R → R
  inverse_integral q x =
      let t = r.larger (r.neg one) (r.mul x (r.sub one q)) in r.exp (r.mul (log1pxbx t) x)

  abbrev pub hat : R → R → R
  hat q x = r.exp (r.mul (r.neg q) (r.log x))

  -- The bounds of the uniform distribution that the constructor makes.
  abbrev pub uniform_from : R → R
  uniform_from q = r.sub (hat_integral q one_and_half) one

  abbrev pub uniform_to : ℕ → R → R
  uniform_to n q = hat_integral q (r.add (r.of_nat n) half)

  abbrev pub clamp : ℕ → ℕ → ℕ → ℕ
  clamp x lo hi = max lo (min hi x)

  -- The rank that a draw stands for, and whether it is taken.
  unfoldable pub candidate : ℕ → R → R → ℕ
  candidate n q u = clamp (r.round_to_int (inverse_integral q u)) 1 n

  unfoldable pub accepted : R → R → ℕ → Bool
  accepted q u k = r.ge u (r.sub (hat_integral q (r.add (r.of_nat k) half)) (hat q (r.of_nat k)))

  -- `operator()` along the draws that it makes: the rank, with the draws left. `none`: it goes on.
  unfoldable pub sample : ℕ → R → List R → Option (ℕ × List R)
  unfolding candidate accepted
  sample n q [] = none
  sample n q (u ∷ us) =
      let k = candidate n q u in
      let again = sample n q us in if accepted q u k then some (k, us) else again

  -- Every one of the draws is turned down.
  abbrev pub Rejected : ℕ → R → List R → Type 0
  Rejected n q [] = Unit {0}
  Rejected n q (u ∷ us) = (accepted q u (candidate n q u) ≡ false) × Rejected n q us

  candidate-range : (n : ℕ) (q u : R) → 0 < n → (1 ≤ candidate n q u) × (candidate n q u ≤ n)
  unfolding candidate
  candidate-range n q u some_ranks = ground arith

  -- For a distribution over at least one rank, whatever the arithmetic on `double` gives: after draws
  -- that are turned down and one that is taken, `operator()` returns the rank of the one taken, which
  -- is from 1 to `n`, with the later draws unused; and while all are turned down it goes on.
  pub sample_lem :
      (n : ℕ) (q : R) (before : List R) (u : R) (after : List R)
      → 0 < n
      → Rejected n q before
      → accepted q u (candidate n q u) ≡ true
      → (sample n q before ≡ none)
        × (sample n q (before ++ (u ∷ after)) ≡ some (candidate n q u, after))
        × (1 ≤ candidate n q u)
        × (candidate n q u ≤ n)
  unfolding sample
  sample_lem n q [] u after some_ranks none_taken taken = (
    refl,
    rw taken refl,
    (candidate-range n q u some_ranks).0,
    (candidate-range n q u some_ranks).1,
  )
  sample_lem n q (v ∷ before) u after some_ranks (turned_down, rest) taken =
      let (stays, found, low, high) = sample_lem n q before u after some_ranks rest taken in
      (rw turned_down stays, rw turned_down found, low, high)
