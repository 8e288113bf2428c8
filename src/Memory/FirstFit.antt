-- ===== src/Memory/FirstFit.antt =====
-- `allocate` against a first-fit search over plain numbers, which has no `prev_ptr` and no wrap.
use mcmqhost.Prelude.{
  ℕ, suc, ◌+◌, ◌-◌, ◌≤◌, ◌<◌, ◌≡◌, refl, inl, inr, List, [], ◌∷◌, Option, none, some, arith,
  u32_mod, u64_mod, leb, ◌==◌, if◌then◌else◌, Bool-cases, leb→le, add64, add32, ◌∙◌,
}
use mcmqhost.Memory.{Hole, padding, grow, shrink, walk, keep}
use mcmqhost.Memory.Order.{Sorted}

abbrev pub Block : Type 0
Block = ℕ × List Hole × List ℕ

-- The hole without its first `need` bytes.
abbrev pub trim : ℕ → Hole → List Hole → List Hole × List ℕ
trim need h hs =
    if h.len == need
    then (hs, h.slot ∷ [])
    else (record h { base = h.base + need; len = h.len - need } ∷ hs, [])

abbrev pub behind : Hole → Option Block → Option Block
behind h none = none
behind h (some (addr, chain, freed)) = some (addr, h ∷ chain, freed)

-- The first hole with room for the padding and the block gives up both.
unfoldable pub first_fit : ℕ → ℕ → List Hole → Option Block
first_fit len align [] = none
first_fit len align (h ∷ hs) =
    let need = len + padding align h.base in
    let (left, freed) = trim need h hs in
    let rest = behind h (first_fit len align hs) in
    if leb need h.len then some (h.base + padding align h.base, left, freed) else rest

pub padding-lt : (align base : ℕ) → 0 < align → padding align base < align
unfolding padding
padding-lt align base h = ground arith

shrink-eq-trim :
    (need lo : ℕ) (h : Hole) (hs : List Hole)
    → Sorted lo (h ∷ hs)
    → need ≤ h.len
    → shrink need h hs ≡ trim need h hs
unfolding shrink
shrink-eq-trim need lo h hs s p = ground arith

abbrev Above : Option Hole → ℕ → Type 0
Above none lo = Unit {0}
Above (some p) lo = p.base + p.len < lo

abbrev kept : Option Hole → Option Block → Option Block
kept prev none = none
kept prev (some (addr, chain, freed)) = some (addr, keep prev chain, freed)

grow-eq-keep :
    (pad addr lo : ℕ) (prev : Option Hole) (hs : List Hole)
    → Above prev lo
    → lo ≤ addr
    → addr < u32_mod
    → grow pad addr prev hs ≡ keep prev hs
unfolding grow
grow-eq-keep pad addr lo none hs a p q = refl
grow-eq-keep pad addr lo (some x) hs a p q = ground arith

kept-behind :
    (prev : Option Hole) (h : Hole) (found : Option Block)
    → elim (kept (some h) found) as (λ _. Option Block) [
      | none ↦ none
      | some (addr, chain, freed) ↦ some (addr, keep prev chain, freed)
    ]
      ≡ kept prev (behind h found)
kept-behind prev h none = refl
kept-behind prev h (some (addr, chain, freed)) = refl

module _ (len align : ℕ) (pos : 0 < align) (small : len + align ≤ u64_mod) where
  add64-padding : (base : ℕ) → add64 len (padding align base) ≡ len + padding align base
  add64-padding base = omega (arith, padding-lt align base pos)

  walk-eq-kept :
      (lo : ℕ) (prev : Option Hole) (hs : List Hole)
      → Sorted lo hs
      → Above prev lo
      → walk len align prev hs ≡ kept prev (first_fit len align hs)
  unfolding walk first_fit
  walk-eq-kept lo prev [] s a = ground arith
  walk-eq-kept lo prev (h ∷ hs) s a =
      let pad = padding align h.base in
      let need = len + pad in
      rw (add64-padding h.base) (elim (Bool-cases (leb need h.len)) [
        | inl fits ↦
            let room = leb→le need h.len fits in
            let exact : add32 h.base pad ≡ h.base + pad = omega arith in
            rw (
              fits,
              exact,
              shrink-eq-trim need lo h hs s room,
              grow-eq-keep pad (h.base + pad) lo prev (trim need h hs).0 a (omega arith)
                  (omega arith),
            )
        | inr full ↦
            rw (full, walk-eq-kept (suc (h.base + h.len)) (some h) hs s.3 (omega arith))
              (kept-behind prev h (first_fit len align hs))
      ])

  -- On a chain in order the loop of `allocate` is the first-fit search.
  pub walk-eq-first_fit :
      (lo : ℕ) (hs : List Hole) → Sorted lo hs → walk len align none hs ≡ first_fit len align hs
  walk-eq-first_fit lo hs s = walk-eq-kept lo none hs s tt ∙ kept-none (first_fit len align hs)
    where
      kept-none : (b : Option Block) → kept none b ≡ b
      kept-none none = refl
      kept-none (some x) = refl
