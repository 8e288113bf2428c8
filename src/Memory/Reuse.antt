-- ===== src/Memory/Reuse.antt =====
-- A block that is allocated and given back, whole or in part.
use mathlib.Core.Path.{subst}
use mcmqhost.Prelude.{
  ℕ, suc, ◌+◌, ◌-◌, ◌%◌, ◌≤◌, ◌<◌, ◌≡◌, true, false, ◌&&◌, ◌||◌, not, List, [], ◌∷◌, ◌*◌, some,
  arith, u64_mod, max,
}
use mcmqhost.Memory.{Hole, Table, allocate, allocate_pages, free, free_pages, roundup, page}
use mcmqhost.Memory.Order.{Sorted, Apart}
use mcmqhost.Memory.Cover.{covers, within, Fits}
use mcmqhost.Memory.Laws.{IsValid, Allocated, allocate-Allocated, Released, Freed, free-Released}

-- A block that shares no address with a chain in order meets none of its holes.
pub Apart-covers :
    (addr len lo : ℕ) (hs : List Hole)
    → 0 < len
    → Sorted lo hs
    → ((a : ℕ) → within addr len a ≡ true → covers hs a ≡ false)
    → Apart addr len hs
Apart-covers addr len lo [] p s d = tt
Apart-covers addr len lo (h ∷ hs) p s d = (
  ground (arith, d (max addr h.base)),
  Apart-covers addr len (suc (h.base + h.len)) hs p s.3 (λ a w. ground (arith, d a w)),
)

-- What is free once a block of `len` bytes was taken and its first `n` bytes given back.
abbrev pub Returned : ℕ → ℕ → ℕ → ℕ → Table → Table → Type 0
Returned pad addr len n t t' =
    (a : ℕ)
    → covers t'.holes a
      ≡ covers t.holes a && not (within (addr - pad) pad a || within (addr + n) (len - n) a)

module _ (len align n : ℕ) (pos : 0 < align) (some_bytes : 0 < n) (part : n ≤ len) (t : Table)
    (v : IsValid t) where
  Fits-Returned :
      {addr : ℕ} {t' t'' : Table}
      → (f : Fits len align t.holes addr t'.holes) → IsValid t'
      → Freed addr n t' t''
      → Returned f.pad addr len n t t''
  Fits-Returned f v' r a = ground (arith, f.now_free a, f.was_free a, r.now_free a, f.pad_le)

  Fits-Apart :
      {addr : ℕ} {t' : Table}
      → Fits len align t.holes addr t'.holes
      → IsValid t'
      → Apart addr n t'.holes
  Fits-Apart {addr} {t'} f v' =
      Apart-covers addr n 0 t'.holes some_bytes v'.order
        (λ a w. ground (arith, f.now_free a, f.pad_le))

  -- Taking `len` bytes by `allocate` and giving back the first `n` of them by `free` loses exactly
  -- the padding in front of the block, which is shorter than the alignment, and the last `len - n`
  -- bytes; all other addresses are free after it just as they were before. The table is valid.
  pub allocate-free :
      {addr : ℕ} {t' t'' : Table}
      → len + align ≤ u64_mod
      → allocate len align t ≡ some (addr, t')
      → free addr n t' ≡ some t''
      → (pad : ℕ) × (pad < align) × (pad ≤ addr) × Returned pad addr len n t t'' × IsValid t''
  allocate-free {addr} {t'} {t''} small e e' =
      let (f, v') =
        subst (Allocated len align t) e
          (allocate-Allocated len align pos (omega arith) t v small) in
      let r =
        subst (Released addr n t') e'
          (free-Released addr n t' some_bytes (omega (arith, f.end_lt)) v' (Fits-Apart f v')) in
      (f.pad, f.pad_lt, f.pad_le, Fits-Returned f v' r, r.valid)

-- `roundup` to a page gives the least multiple that is not below, if the sum fits 64 bits.
pub roundup_lem :
    (len : ℕ)
    → len + page < u64_mod
    → (roundup len page % page ≡ 0) × (len ≤ roundup len page) × (roundup len page < len + page)
unfolding roundup
roundup_lem len h = ground arith

-- `allocate_pages` with `free_pages` of the same block loses at most the padding in front of the
-- block, which is less than a page.
pub allocate_pages-free_pages :
    (len : ℕ) (t : Table) {addr : ℕ} {t' t'' : Table}
    → 0 < len
    → len + 2 * page < u64_mod
    → IsValid t
    → allocate_pages len t ≡ some (addr, t')
    → free_pages addr len t' ≡ some t''
    → (pad : ℕ) × (pad < page)
      × (pad ≤ addr)
      × Returned pad addr (roundup len page) (roundup len page) t t''
      × IsValid t''
unfolding allocate_pages free_pages
allocate_pages-free_pages len t p small v e e' =
    let r = roundup_lem len (omega arith) in
    allocate-free (roundup len page) page (roundup len page) (omega arith) (omega (arith, r))
      (omega arith) t v (omega (arith, r)) e e'
