-- ===== src/Memory/Space.antt =====
-- `MemorySpace` of memory_space.h and memory_space.cpp: the hole table with the mapped memory, its
-- accessors, and the constructors of the two kinds of space. What `mmap` maps is a function from the
-- offset to the byte there, for `map_size` bytes; opening and mapping the file has no model.
pub mod Access
pub mod Init
use mcmqhost.Prelude.{
  ℕ, zero, suc, ◌+◌, ◌-◌, ◌*◌, ◌/◌, ◌%◌, ◌≡◌, Bool, ◌&&◌, List, [], ◌∷◌, Option, none, some, ltb,
  leb, if◌then◌else◌, length, get_or, replicate, u32, add64, sub32, add32, sub64,
}
use mcmqhost.Memory.{Table, init, free}

pub record Space : Type 0 where
  pub table : Table
  pub bytes : ℕ → ℕ
  pub map_size : ℕ
  pub iova_base : ℕ

-- The `len` bytes from `offset` on.
unfoldable pub fetch : (ℕ → ℕ) → ℕ → ℕ → List ℕ
fetch bytes offset zero = []
fetch bytes offset (suc n) = bytes offset ∷ fetch bytes (offset + 1) n

-- The memory with `xs` at `offset`.
unfoldable pub store : (ℕ → ℕ) → ℕ → List ℕ → ℕ → ℕ
store bytes offset xs a =
    if leb offset a && ltb a (offset + length xs) then get_or xs (a - offset) 0 else bytes a

-- `addr -= iova_base`, on `uint32_t`.
abbrev pub offset_of : ℕ → Space → ℕ
offset_of addr s = sub32 addr s.iova_base

-- The assertion of the accessors.
abbrev pub mapped : ℕ → ℕ → Space → Bool
mapped addr len s =
    ltb (offset_of addr s) s.map_size && leb (add64 (offset_of addr s) len) s.map_size

-- The three cases of the `switch` copy the same `len` bytes. `none`: the assertion fails.
unfoldable pub read : ℕ → ℕ → Space → Option (List ℕ)
unfolding fetch
read addr len s = if mapped addr len s then some (fetch s.bytes (offset_of addr s) len) else none

unfoldable pub write : ℕ → List ℕ → Space → Option Space
unfolding store
write addr xs s =
    if mapped addr (length xs) s
    then some (record s { bytes = store s.bytes (offset_of addr s) xs })
    else none

-- `::memset` writes the low byte of `c`.
unfoldable pub memset : ℕ → ℕ → ℕ → Space → Option Space
unfolding store
memset addr c len s =
    if mapped addr len s
    then some (record s { bytes = store s.bytes (offset_of addr s) (replicate len (c % 256)) })
    else none

-- The two constructors below give their arguments to `free` as `Address` and `size_t`.
abbrev pub new_space : ℕ → ℕ → (ℕ → ℕ) → Option Table → Option Space
new_space base size mem none = none
new_space base size mem (some t) =
    some (record { table = t; bytes = mem; map_size = size; iova_base = base })

-- `SharedMemorySpace`, over a file of `file_size` bytes that hold `mem`. `none`: `free` aborts.
unfoldable pub shared_space : ℕ → (ℕ → ℕ) → Option Space
shared_space file_size mem = new_space 0 file_size mem (free 0x1000 (sub64 file_size 0x1000) init)

-- `VfioMemorySpace`, over fresh zero pages. The length that it frees is `iova_base + map_size`.
unfoldable pub vfio_space : ℕ → ℕ → Option Space
vfio_space base size = new_space base size (λ _. 0) (free base (add64 base size) init)

-- A `uint64_t` or narrower value in memory, lowest byte first, as on the machines that the program
-- runs on (`native_to_little` changes nothing there).
unfoldable pub le_bytes : ℕ → ℕ → List ℕ
le_bytes zero v = []
le_bytes (suc n) v = (v % 256) ∷ le_bytes n (v / 256)

unfoldable pub le_value : List ℕ → ℕ
le_value [] = 0
le_value (b ∷ bs) = b + 256 * le_value bs
