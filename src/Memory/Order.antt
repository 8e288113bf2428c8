-- ===== src/Memory/Order.antt =====
-- The invariant of the chain of holes: ascending, none empty, and no two touching.
use mcmqhost.Prelude.{
  ℕ, suc, ◌+◌, ◌≤◌, ◌<◌, ◌⊎◌, inl, inr, List, [], ◌∷◌, arith, u32_mod, leb, ltb, Bool-cases,
}
use mcmqhost.Memory.{Hole, merge_once, merge_hole, place, insert, join}

-- The holes begin at `lo` or above; a hole's successor begins above its end.
abbrev pub Sorted : ℕ → List Hole → Type 0
Sorted lo [] = Unit {0}
Sorted lo (h ∷ hs) =
    (lo ≤ h.base) × (0 < h.len) × (h.base + h.len < u32_mod) × Sorted (suc (h.base + h.len)) hs

-- The block [addr, addr + len) meets no hole.
abbrev pub Apart : ℕ → ℕ → List Hole → Type 0
Apart addr len [] = Unit {0}
Apart addr len (h ∷ hs) = ((addr + len ≤ h.base) ⊎ (h.base + h.len ≤ addr)) × Apart addr len hs

pub Sorted-mono : {a b : ℕ} (hs : List Hole) → a ≤ b → Sorted b hs → Sorted a hs
Sorted-mono [] h s = tt
Sorted-mono (x ∷ hs) h s = (omega arith, s.1, s.2, s.3)

merge_once-Sorted :
    (lo : ℕ) (h : Hole) (hs : List Hole)
    → lo ≤ h.base
    → 0 < h.len
    → h.base + h.len < u32_mod
    → Sorted (h.base + h.len) hs
    → Sorted lo (merge_once h hs).0
unfolding merge_once
merge_once-Sorted lo h [] a b c s = ground arith
merge_once-Sorted lo h (n ∷ hs) a b c s = ground arith

merge_hole-Sorted :
    (lo : ℕ) (h n : Hole) (hs : List Hole)
    → lo ≤ h.base
    → 0 < h.len
    → h.base + h.len ≤ n.base
    → 0 < n.len
    → n.base + n.len < u32_mod
    → Sorted (n.base + n.len) hs
    → Sorted lo (merge_hole h (n ∷ hs)).0
unfolding merge_hole
merge_hole-Sorted lo h n hs a b c d e s =
    ground
      (arith, merge_once-Sorted lo (join h n) hs, merge_once-Sorted (suc (h.base + h.len)) n hs)

-- Past the first hole that begins above the block, the chain lies above it.
Sorted-above :
    (addr len lo : ℕ) (hs : List Hole)
    → 0 < len
    → addr ≤ lo
    → Sorted lo hs
    → Apart addr len hs
    → Sorted (addr + len) hs
Sorted-above addr len lo [] p q s a = tt
Sorted-above addr len lo (h ∷ hs) p q s a = ground arith

place-Sorted :
    (new prev : Hole) (hs : List Hole) (lo : ℕ)
    → 0 < new.len
    → new.base + new.len < u32_mod
    → lo ≤ prev.base
    → 0 < prev.len
    → prev.base + prev.len ≤ new.base
    → Sorted (suc (prev.base + prev.len)) hs
    → Apart new.base new.len hs
    → Sorted lo (place new prev hs).0
unfolding place
place-Sorted new prev [] lo p q a b c s d = merge_hole-Sorted lo prev new [] a b c p q tt
place-Sorted new prev (n ∷ hs) lo p q a b c s d = elim (Bool-cases (ltb n.base new.base)) [
  | inl below ↦ rw below (
    a,
    b,
    omega arith,
    place-Sorted new n hs (suc (prev.base + prev.len)) p q s.0 s.1 (ground arith) s.3 d.1,
  )
  | inr above ↦ rw above (merge_hole-Sorted lo prev new (n ∷ hs) a b c p q (ground arith))
]

pub insert-Sorted :
    (new : Hole) (hs : List Hole)
    → 0 < new.len
    → new.base + new.len < u32_mod
    → Sorted 0 hs
    → Apart new.base new.len hs
    → Sorted 0 (insert new hs).0
unfolding insert merge_hole
insert-Sorted new [] p q s d = (omega arith, p, q, tt)
insert-Sorted new (h ∷ hs) p q s d = elim (Bool-cases (leb new.base h.base)) [
  | inl below ↦ rw below (
      merge_hole-Sorted 0 new h hs (omega arith) p (ground arith) s.1 s.2
        (Sorted-mono hs (omega arith) s.3))
  | inr above ↦ rw above (place-Sorted new h hs 0 p q (omega arith) s.1 (ground arith) s.3 d.1)
]
