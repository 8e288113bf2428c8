-- ===== src/Memory/Cover.antt =====
-- The set of free addresses, and what `allocate` and `free` do to it.
use native.Mathlib.Nat.{mod-add-mod, mod_self, mod-lt}
use mcmqhost.Prelude.{
  sym, ap, length, ℕ, suc, ◌+◌, ◌-◌, ◌%◌, ◌≤◌, ◌<◌, ◌≡◌, refl, Bool, true, false, ◌&&◌, ◌||◌, not,
  inl, inr, List, [], ◌∷◌, Option, none, some, arith, u32_mod, leb, ltb, leb→le, ◌==◌, Bool-cases,
  ◌∙◌,
}
use mcmqhost.Memory.{Hole, padding, merge_once, merge_hole, place, insert, join}
use mcmqhost.Memory.Order.{Sorted, Apart, Sorted-mono}
use mcmqhost.Memory.FirstFit.{first_fit, behind, trim, Block, padding-lt}

-- `a` lies in [addr, addr + len).
abbrev pub within : ℕ → ℕ → ℕ → Bool
within addr len a = leb addr a && ltb a (addr + len)

-- `a` lies in a hole.
abbrev pub covers : List Hole → ℕ → Bool
covers [] a = false
covers (h ∷ hs) a = within h.base h.len a || covers hs a

or_swap : (x y z : Bool) → (x || (y || z)) ≡ (y || (x || z))
or_swap x y z = ground arith

merge_once-covers :
    (h : Hole) (hs : List Hole) (a lo : ℕ)
    → h.base + h.len < u32_mod
    → Sorted lo hs
    → h.base + h.len ≤ lo
    → covers (merge_once h hs).0 a ≡ covers (h ∷ hs) a
unfolding merge_once
merge_once-covers h [] a lo p s q = refl
merge_once-covers h (n ∷ hs) a lo p s q = ground arith

merge_hole-covers :
    (h n : Hole) (hs : List Hole) (a : ℕ)
    → h.base + h.len ≤ n.base
    → n.base + n.len < u32_mod
    → Sorted (n.base + n.len) hs
    → covers (merge_hole h (n ∷ hs)).0 a ≡ covers (h ∷ n ∷ hs) a
unfolding merge_hole
merge_hole-covers h n hs a p q s = ground (
  arith,
  merge_once-covers (join h n) hs a (n.base + n.len),
  merge_once-covers n hs a (n.base + n.len),
)

place-covers :
    (new prev : Hole) (hs : List Hole) (a : ℕ)
    → 0 < new.len
    → new.base + new.len < u32_mod
    → prev.base + prev.len ≤ new.base
    → Sorted (suc (prev.base + prev.len)) hs
    → Apart new.base new.len hs
    → covers (place new prev hs).0 a ≡ within new.base new.len a || covers (prev ∷ hs) a
unfolding place
place-covers new prev [] a p q c s d =
    merge_hole-covers prev new [] a c q tt
    ∙ or_swap (within prev.base prev.len a) (within new.base new.len a) false
place-covers new prev (n ∷ hs) a p q c s d = elim (Bool-cases (ltb n.base new.base)) [
  | inl below ↦
      rw (below, place-covers new n hs a p q (ground arith) s.3 d.1)
        (or_swap (within prev.base prev.len a) (within new.base new.len a) (covers (n ∷ hs) a))
  | inr above ↦
      rw (above, merge_hole-covers prev new (n ∷ hs) a c q (ground arith))
        (or_swap (within prev.base prev.len a) (within new.base new.len a) (covers (n ∷ hs) a))
]

pub insert-covers :
    (new : Hole) (hs : List Hole) (a : ℕ)
    → 0 < new.len
    → new.base + new.len < u32_mod
    → Sorted 0 hs
    → Apart new.base new.len hs
    → covers (insert new hs).0 a ≡ within new.base new.len a || covers hs a
unfolding insert merge_hole
insert-covers new [] a p q s d = refl
insert-covers new (h ∷ hs) a p q s d = elim (Bool-cases (leb new.base h.base)) [
  | inl below ↦
      rw below (merge_hole-covers new h hs a (ground arith) s.2 (Sorted-mono hs (omega arith) s.3))
  | inr above ↦ rw above (place-covers new h hs a p q (ground arith) s.3 d.1)
]

pub aligned : (align base : ℕ) → 0 < align → (base + padding align base) % align ≡ 0
unfolding padding
aligned align base h = elim (Bool-cases (base % align == 0)) [
  | inl done ↦ rw done (ground arith)
  | inr more ↦ rw more (
      sym (mod-add-mod base align (align - base % align))
      ∙ ap (λ n. n % align) (omega (arith, mod-lt base h))
      ∙ mod_self align)
]

-- Where the block and its padding come from: the first `pad` bytes of the hole are the padding.
pub record Fits (len align : ℕ) (hs : List Hole) (addr : ℕ) (chain : List Hole) : Type 0 where
  pub pad : ℕ
  pub pad_lt : pad < align
  pub pad_le : pad ≤ addr
  pub at_multiple : addr % align ≡ 0
  pub end_lt : addr + len < u32_mod
  pub was_free : (a : ℕ) → within (addr - pad) (pad + len) a ≡ true → covers hs a ≡ true
  pub now_free : (a : ℕ) → covers chain a ≡ covers hs a && not (within (addr - pad) (pad + len) a)

covers-lt : (lo a : ℕ) (hs : List Hole) → Sorted lo hs → covers hs a ≡ true → lo ≤ a
covers-lt lo a [] s c = cc
covers-lt lo a (h ∷ hs) s c = ground (arith, covers-lt (suc (h.base + h.len)) a hs)

trim-covers :
    (need lo : ℕ) (h : Hole) (hs : List Hole) (a : ℕ)
    → Sorted lo (h ∷ hs)
    → need ≤ h.len
    → covers (trim need h hs).0 a ≡ covers (h ∷ hs) a && not (within h.base need a)
trim-covers need lo h hs a s p = elim (Bool-cases (covers hs a)) [
  | inl far ↦ ground (arith, covers-lt (suc (h.base + h.len)) a hs)
  | inr near ↦ ground arith
]

trim-Sorted :
    (need lo : ℕ) (h : Hole) (hs : List Hole)
    → Sorted lo (h ∷ hs)
    → need ≤ h.len
    → Sorted lo (trim need h hs).0
trim-Sorted need lo h hs s p = ground (arith, Sorted-mono {a = lo} {b = suc (h.base + h.len)} hs)

trim-length :
    (need : ℕ) (h : Hole) (hs : List Hole)
    → let (left, freed) = trim need h hs in length freed + length left ≡ length (h ∷ hs)
trim-length need h hs = ground arith

-- No hole holds the block behind its padding.
abbrev pub NoRoom : ℕ → ℕ → List Hole → Type 0
NoRoom len align [] = Unit {0}
NoRoom len align (h ∷ hs) = (h.len < len + padding align h.base) × NoRoom len align hs

module _ (len align : ℕ) (pos : 0 < align) (some_bytes : 0 < len) where
  Fits-trim :
      (lo : ℕ) (h : Hole) (hs : List Hole)
      → Sorted lo (h ∷ hs)
      → len + padding align h.base ≤ h.len
      → Fits len align
          (h ∷ hs)
          (h.base + padding align h.base)
          (trim (len + padding align h.base) h hs).0
  Fits-trim lo h hs s room =
      let pad = padding align h.base in
      let start : h.base + pad - pad ≡ h.base = omega arith in
      let total : pad + len ≡ len + pad = omega arith in
      record {
        pad = pad;
        pad_lt = padding-lt align h.base pos;
        pad_le = omega arith;
        at_multiple = aligned align h.base pos;
        end_lt = omega arith;
        was_free = λ a in_block. ground (arith, start, total);
        now_free = λ a. rw (start, total) (trim-covers (len + pad) lo h hs a s room);
      }

  -- What is taken behind `h` is taken from the longer chain, and `h` keeps all its bytes.
  Fits-behind :
      (lo : ℕ) (h : Hole) (hs : List Hole) {addr : ℕ} {chain : List Hole}
      → Sorted lo (h ∷ hs)
      → (f : Fits len align hs addr chain) → suc (h.base + h.len) + f.pad ≤ addr
      → Fits len align (h ∷ hs) addr (h ∷ chain)
  Fits-behind lo h hs {addr} {chain} s f low = record {
    pad = f.pad;
    pad_lt = f.pad_lt;
    pad_le = f.pad_le;
    at_multiple = f.at_multiple;
    end_lt = f.end_lt;
    was_free = λ a in_block. ground (arith, f.was_free a in_block);
    now_free = λ a. ground (arith, f.now_free a);
  }

  -- A search gives a block that fits, with every slot kept, or finds each hole too short.
  abbrev pub Outcome : ℕ → List Hole → Option Block → Type 0
  Outcome lo hs none = NoRoom len align hs
  Outcome lo hs (some (addr, chain, freed)) =
      (f : Fits len align hs addr chain) × Sorted lo chain
      × (lo + f.pad ≤ addr)
      × (length freed + length chain ≡ length hs)

  Outcome-behind :
      (lo : ℕ) (h : Hole) (hs : List Hole) (found : Option Block)
      → Sorted lo (h ∷ hs)
      → h.len < len + padding align h.base
      → Outcome (suc (h.base + h.len)) hs found
      → Outcome lo (h ∷ hs) (behind h found)
  unfolding Fits-behind
  Outcome-behind lo h hs none s short o = (short, o)
  Outcome-behind lo h hs (some (addr, chain, freed)) s short (f, order, low, count) =
      (Fits-behind lo h hs s f low, (s.0, s.1, s.2, order), omega arith, omega arith)

  pub first_fit-Outcome :
      (lo : ℕ) (hs : List Hole) → Sorted lo hs → Outcome lo hs (first_fit len align hs)
  unfolding first_fit Fits-trim padding
  first_fit-Outcome lo [] s = tt
  first_fit-Outcome lo (h ∷ hs) s =
      let need = len + padding align h.base in
      elim (Bool-cases (leb need h.len)) [
        | inl fits ↦
            let room = leb→le need h.len fits in
            rw fits (
              Fits-trim lo h hs s room,
              trim-Sorted need lo h hs s room,
              omega arith,
              trim-length need h hs,
            )
        | inr full ↦ rw full (
            Outcome-behind lo h hs (first_fit len align hs) s (ground arith)
              (first_fit-Outcome (suc (h.base + h.len)) hs s.3))
      ]
