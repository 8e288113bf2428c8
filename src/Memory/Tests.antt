-- ===== src/Memory/Tests.antt =====
-- Runs of the allocator and of the memory, and its theorems at concrete inputs.
use mcmqhost.Prelude.{
  ℕ, ◌+◌, ◌-◌, ◌*◌, ◌≤◌, ◌<◌, ◌≡◌, refl, true, [], ◌∷◌, none, some, arith, replicate,
}
use mcmqhost.Memory.{Table, init, allocate, allocate_pages, free, free_pages, roundup}
use mcmqhost.Memory.Cover.{within, covers}
use mcmqhost.Memory.Laws.{IsValid, Allocated, allocate-Allocated, Released, free-Released}
use mcmqhost.Memory.Reuse.{Returned, allocate-free}
use mcmqhost.Memory.Space.{Space, read, write, shared_space, vfio_space, store}
use mcmqhost.Memory.Space.Init.{shared_space_lem, vfio_space_overrun}

-- Two holes, the first off the page grid.
abbrev holey : Table
holey = record {
  holes =
      record { slot = 0; base = 0x1200; len = 0x3000 }
      ∷ record { slot = 1; base = 0x8000; len = 0x1000 }
      ∷ [];
  free_slots = replicate 510 2;
}

holey-IsValid : IsValid holey
holey-IsValid = record { order = omega arith; slots = refl }

abbrev after_page : Table
after_page = record {
  holes =
      record { slot = 0; base = 0x3000; len = 0x1200 }
      ∷ record { slot = 1; base = 0x8000; len = 0x1000 }
      ∷ [];
  free_slots = replicate 510 2;
}

abbrev after_free : Table
after_free = record {
  holes =
      record { slot = 2; base = 0x2000; len = 0x2200 }
      ∷ record { slot = 1; base = 0x8000; len = 0x1000 }
      ∷ [];
  free_slots = 0 ∷ replicate 509 2;
}

take_block : allocate 0x1000 0x1000 holey ≡ some (0x2000, after_page)
unfolding allocate
take_block = refl

give_block : free 0x2000 0x1000 after_page ≡ some after_free
unfolding free
give_block = refl

take_page : allocate_pages 0x1000 holey ≡ some (0x2000, after_page)
unfolding allocate_pages roundup
take_page = refl

give_page : free_pages 0x2000 0x1000 after_page ≡ some after_free
unfolding free_pages roundup
give_page = refl

allocate-Allocated_example : Allocated 100 16 holey (allocate 100 16 holey)
allocate-Allocated_example =
    allocate-Allocated 100 16 (omega arith) (omega arith) holey holey-IsValid (omega arith)

free-Released_example : Released 0x6000 100 holey (free 0x6000 100 holey)
free-Released_example =
    free-Released 0x6000 100 holey (omega arith) (omega arith) holey-IsValid (omega arith)

allocate-free_example :
    (pad : ℕ) × (pad < 0x1000)
    × (pad ≤ 0x2000)
    × Returned pad 0x2000 0x1000 0x1000 holey after_free
    × IsValid after_free
allocate-free_example =
    allocate-free 0x1000 0x1000 0x1000 (omega arith) (omega arith) (omega arith) holey holey-IsValid
      (omega arith) take_block give_block

-- A file of 64 KiB.
shared_space_lem_example :
    (s : Space) × (shared_space 0x10000 (λ _. 0) ≡ some s)
    × IsValid s.table
    × ((a : ℕ) → covers s.table.holes a ≡ within 0x1000 (0x10000 - 0x1000) a)
shared_space_lem_example = shared_space_lem 0x10000 (λ _. 0) (omega arith) (omega arith)

-- As `main` sets it up.
vfio_space_overrun_example :
    (s : Space) × (vfio_space 0x1000 (2 * 1024 * 1024) ≡ some s)
    × (s.iova_base ≡ 0x1000)
    × (s.map_size ≡ 2 * 1024 * 1024)
    × IsValid s.table
    × ((a : ℕ) → covers s.table.holes a ≡ within 0x1000 (0x1000 + 2 * 1024 * 1024) a)
    × (covers s.table.holes (0x1000 + 2 * 1024 * 1024) ≡ true)
vfio_space_overrun_example = vfio_space_overrun 0x1000 (2 * 1024 * 1024) (omega arith) (omega arith)

abbrev small_space : Space
small_space = record { table = init; bytes = λ _. 7; map_size = 16; iova_base = 0x1000 }

abbrev written_space : Space
written_space = record small_space { bytes = store (λ _. 7) 4 (1 ∷ 2 ∷ []) }

written : write 0x1004 (1 ∷ 2 ∷ []) small_space ≡ some written_space
unfolding write
written = refl

out_of_range : read 0x1010 1 small_space ≡ none
unfolding read
out_of_range = refl
