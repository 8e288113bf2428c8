-- ===== src/Memory/Space/Access.antt =====
-- What is read back of what was written.
use native.Mathlib.Nat.{pow-suc}
use mcmqhost.Prelude.{
  ℕ, zero, suc, ◌+◌, ◌-◌, ◌/◌, ◌^◌, ◌≤◌, ◌<◌, ◌≡◌, refl, ap, ap₂, subst, ◌⊎◌, List, [], ◌∷◌, some,
  length, get_or, arith,
}
use mcmqhost.Memory.Space.{Space, fetch, store, offset_of, read, write, le_bytes, le_value}

fetch-eq :
    (f g : ℕ → ℕ) (o n : ℕ) → ((i : ℕ) → i < n → f (o + i) ≡ g (o + i)) → fetch f o n ≡ fetch g o n
unfolding fetch
fetch-eq f g o zero h = refl
fetch-eq f g o (suc n) h =
    ap₂ ◌∷◌ (subst (λ k. f k ≡ g k) (omega arith) (h 0 (omega arith))) (
      fetch-eq f g (o + 1) n
        (λ i p. subst (λ k. f k ≡ g k) (omega arith) (h (suc i) (omega arith))))

fetch-list :
    (f : ℕ → ℕ) (o : ℕ) (xs : List ℕ)
    → ((i : ℕ) → i < length xs → f (o + i) ≡ get_or xs i 0)
    → fetch f o (length xs) ≡ xs
unfolding fetch
fetch-list f o [] h = refl
fetch-list f o (x ∷ xs) h = ap₂ ◌∷◌ (subst (λ k. f k ≡ x) (omega arith) (h 0 (omega arith))) (
    fetch-list f (o + 1) xs
      (λ i p. subst (λ k. f k ≡ get_or xs i 0) (omega arith) (h (suc i) (omega arith))))

pub fetch-store_self : (f : ℕ → ℕ) (o : ℕ) (xs : List ℕ) → fetch (store f o xs) o (length xs) ≡ xs
unfolding store
fetch-store_self f o xs =
    fetch-list (store f o xs) o xs (λ i p. ground (arith, ap (λ k. get_or xs k 0) (index i)))
  where
    index : (i : ℕ) → o + i - o ≡ i
    index i = omega arith

pub fetch-store_apart :
    (f : ℕ → ℕ) (o p n : ℕ) (xs : List ℕ)
    → (p + n ≤ o) ⊎ (o + length xs ≤ p)
    → fetch (store f o xs) p n ≡ fetch f p n
unfolding store
fetch-store_apart f o p n xs h = fetch-eq (store f o xs) f p n (λ i q. ground arith)

-- What was written is read back.
pub read-write_self :
    (addr : ℕ) (xs : List ℕ) (s : Space) {s' : Space}
    → write addr xs s ≡ some s'
    → read addr (length xs) s' ≡ some xs
unfolding read write
read-write_self addr xs s e = ground (arith, fetch-store_self s.bytes (offset_of addr s) xs)

pub length-le_bytes : (n v : ℕ) → length (le_bytes n v) ≡ n
unfolding le_bytes
length-le_bytes zero v = refl
length-le_bytes (suc n) v = ap suc (length-le_bytes n (v / 256))

-- Reading a word of `n` bytes back gives the value modulo 2^(8 n).
pub le_value-le_bytes : (n v : ℕ) → v < 256 ^ n → le_value (le_bytes n v) ≡ v
unfolding le_bytes le_value
le_value-le_bytes zero v h = omega arith
le_value-le_bytes (suc n) v h =
    omega (arith, le_value-le_bytes n (v / 256) (omega (arith, pow-suc 256 n)))
