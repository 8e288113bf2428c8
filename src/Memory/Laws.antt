-- ===== src/Memory/Laws.antt =====
-- What `allocate` and `free` promise of the set of free addresses.
use mcmqhost.Prelude.{
  ℕ, ◌+◌, ◌≤◌, ◌<◌, ◌≡◌, refl, false, ◌||◌, List, [], ◌∷◌, Option, none, some, arith, u32_mod,
  u64_mod, u32, ◌==◌, length, length-append,
}
use mcmqhost.Memory.{
  Hole, Table, nr_holes, slots_from, init, insert, commit, add_hole, allocate, free,
}
use mcmqhost.Memory.Order.{Sorted, Apart, insert-Sorted}
use mcmqhost.Memory.FirstFit.{first_fit, walk-eq-first_fit, Block}
use mcmqhost.Memory.Slots.{insert-length}
use mcmqhost.Memory.Cover.{covers, within, Fits, NoRoom, Outcome, first_fit-Outcome, insert-covers}

-- The chain is in order and no slot is lost.
pub record IsValid (t : Table) : Type 0 where
  pub order : Sorted 0 t.holes
  pub slots : length t.holes + length t.free_slots ≡ nr_holes

pub init-IsValid : IsValid init
unfolding init slots_from
init-IsValid = record { order = tt; slots = refl }

-- A block that `allocate` gives, and the table that it leaves.
abbrev pub Allocated : ℕ → ℕ → Table → Option (ℕ × Table) → Type 0
Allocated len align t none = NoRoom len align t.holes
Allocated len align t (some (addr, t')) = Fits len align t.holes addr t'.holes × IsValid t'

module _ (len align : ℕ) (pos : 0 < align) (some_bytes : 0 < len) (t : Table) (v : IsValid t) where
  Outcome-Allocated :
      (found : Option Block)
      → Outcome len align pos some_bytes 0 t.holes found
      → Allocated len align t (commit t found)
  Outcome-Allocated none o = o
  Outcome-Allocated (some (addr, chain, freed)) (f, order, low, count) = (
    f,
    record { order = order; slots = omega (arith, length-append freed t.free_slots, v.slots) },
  )

  -- On a valid table, for a block of at least one byte, an alignment of at least one and no overflow
  -- of their sum in 64 bits, `allocate` either gives a block [addr, addr + len) at a multiple of the
  -- alignment that was free, takes it and less than `align` bytes of padding in front of it, and
  -- nothing else, from the free addresses, and leaves the table valid; or it throws, and then every
  -- hole was too short for the padding and the block.
  pub allocate-Allocated : len + align ≤ u64_mod → Allocated len align t (allocate len align t)
  unfolding allocate
  allocate-Allocated small =
      rw (Allocated, walk-eq-first_fit len align pos small 0 t.holes v.order)
        (Outcome-Allocated (first_fit len align t.holes)
          (first_fit-Outcome len align pos some_bytes 0 t.holes v.order))

-- What `free` leaves: the block is free too, and the table is valid.
pub record Freed (addr len : ℕ) (t t' : Table) : Type 0 where
  pub valid : IsValid t'
  pub now_free : (a : ℕ) → covers t'.holes a ≡ within addr len a || covers t.holes a

-- `free` aborts on no slot, and else returns a table with `Freed`.
abbrev pub Released : ℕ → ℕ → Table → Option Table → Type 0
Released addr len t none = t.free_slots ≡ []
Released addr len t (some t') = Freed addr len t t'

module _ (addr len : ℕ) (t : Table) (some_bytes : 0 < len) (in_range : addr + len < u32_mod)
    (v : IsValid t) (apart : Apart addr len t.holes) where
  add_hole-Released :
      (slots : List ℕ)
      → length t.holes + length slots ≡ nr_holes
      → t.free_slots ≡ slots
      → Released addr len t (add_hole addr len t.holes slots)
  unfolding add_hole
  add_hole-Released [] count e = e
  add_hole-Released (slot ∷ slots) count e =
      let exact : u32 len ≡ len = omega arith in
      rw exact (
        let new : Hole = record { slot = slot; base = addr; len = len } in
        record {
          valid = record {
            order = insert-Sorted new t.holes some_bytes in_range v.order apart;
            slots =
                omega
                  (arith, insert-length new t.holes, length-append (insert new t.holes).1 slots);
          };
          now_free = λ a. insert-covers new t.holes a some_bytes in_range v.order apart;
        })

  -- On a valid table, for a block of at least one byte that ends below 2^32 and meets no hole, `free`
  -- makes exactly the bytes of the block free in addition, and leaves the table valid; it aborts
  -- only if no slot is left.
  pub free-Released : Released addr len t (free addr len t)
  unfolding free
  free-Released =
      let nonzero : (len == 0) ≡ false = ground arith in
      rw nonzero (add_hole-Released t.free_slots v.slots refl)
