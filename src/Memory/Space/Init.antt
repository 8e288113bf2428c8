-- ===== src/Memory/Space/Init.antt =====
-- What the two constructors leave free.
use mcmqhost.Prelude.{
  ℕ, ◌+◌, ◌-◌, ◌<◌, ◌≡◌, refl, ap, ◌∙◌, true, Option, none, some, arith, u32_mod, add64, sub64,
}
use mcmqhost.Memory.{Table, init, slots_from, free}
use mcmqhost.Memory.Cover.{covers, within}
use mcmqhost.Memory.Laws.{IsValid, init-IsValid, Released, free-Released}
use mcmqhost.Memory.Space.{Space, new_space, shared_space, vfio_space}

-- The first `free` of a space finds a slot.
free-init :
    (addr len : ℕ)
    → 0 < len
    → addr + len < u32_mod
    → (t : Table) × (free addr len init ≡ some t)
      × IsValid t
      × ((a : ℕ) → covers t.holes a ≡ within addr len a)
unfolding init slots_from
free-init addr len p q =
    go (free addr len init) refl (free-Released addr len init p q init-IsValid tt)
  where
    go :
        (r : Option Table)
        → free addr len init ≡ r
        → Released addr len init r
        → (t : Table) × (free addr len init ≡ some t)
          × IsValid t
          × ((a : ℕ) → covers t.holes a ≡ within addr len a)
    go none e r = cc
    go (some t) e r = (t, e, r.valid, λ a. ground (arith, r.now_free a))

-- Over a file of more than one page and less than 2^32 bytes, `SharedMemorySpace` comes up with a
-- valid table in which all of the file but its first page is free, and nothing else.
pub shared_space_lem :
    (size : ℕ) (mem : ℕ → ℕ)
    → 0x1000 < size
    → size < u32_mod
    → (s : Space) × (shared_space size mem ≡ some s)
      × IsValid s.table
      × ((a : ℕ) → covers s.table.holes a ≡ within 0x1000 (size - 0x1000) a)
unfolding shared_space
shared_space_lem size mem p q =
    let rest : sub64 size 0x1000 ≡ size - 0x1000 = omega arith in
    let (t, e, v, c) = free-init 0x1000 (size - 0x1000) (omega arith) (omega arith) in
    (
      record { table = t; bytes = mem; map_size = size; iova_base = 0 },
      ap (new_space 0 size mem) (ap (λ n. free 0x1000 n init) rest ∙ e),
      v,
      c,
    )

-- For a base address above 0, where the sum of the base address twice and the size is below 2^32:
-- `VfioMemorySpace` comes up with a valid table over a mapping of `map_size` bytes from the base on,
-- in which the addresses from the base on are free for `iova_base + map_size` bytes, and no other
-- address is. So the address just behind the mapping is free.
pub vfio_space_overrun :
    (base size : ℕ)
    → 0 < base
    → base + (base + size) < u32_mod
    → (s : Space) × (vfio_space base size ≡ some s)
      × (s.iova_base ≡ base)
      × (s.map_size ≡ size)
      × IsValid s.table
      × ((a : ℕ) → covers s.table.holes a ≡ within base (base + size) a)
      × (covers s.table.holes (base + size) ≡ true)
unfolding vfio_space
vfio_space_overrun base size p q =
    let sum : add64 base size ≡ base + size = omega arith in
    let (t, e, v, c) = free-init base (base + size) (omega arith) q in
    (
      record { table = t; bytes = λ _. 0; map_size = size; iova_base = base },
      ap (new_space base size (λ _. 0)) (ap (λ n. free base n init) sum ∙ e),
      refl,
      refl,
      v,
      c,
      c (base + size) ∙ ground arith,
    )
