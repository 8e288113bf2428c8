-- ===== src/Memory.antt =====
-- The allocator of memory_space.h and memory_space.cpp. A chain of `struct hole` is the list of its
-- holes in chain order, and each hole keeps the index of its slot in the array `hole`; `free_slots`
-- is the chain of unused slots. Addresses are `uint32_t`, lengths and alignments `size_t`.
pub mod Order
pub mod FirstFit
pub mod Reuse
pub mod Laws
pub mod Slots
pub mod Cover
pub mod Space
mod Tests
use mcmqhost.Prelude.{
  ℕ, ◌+◌, ◌-◌, ◌%◌, Bool, List, [], ◌∷◌, ◌++◌, Option, none, some, ltb, leb, ◌==◌, if◌then◌else◌,
  u32, add32, add64, sub64,
}

-- `struct hole`: `slot` is its place in the array, the link is the list's.
pub record Hole : Type 0 where
  pub slot : ℕ
  pub base : ℕ
  pub len : ℕ

-- `hole_head` and `free_slots`.
pub record Table : Type 0 where
  pub holes : List Hole
  pub free_slots : List ℕ

abbrev pub nr_holes : ℕ
nr_holes = 512

-- `n` slot indices from `i` on.
unfoldable pub slots_from : ℕ → ℕ → List ℕ
slots_from i Prim.Native.Nat.ℕ.zero = []
slots_from i (Prim.Native.Nat.ℕ.suc n) = i ∷ slots_from (i + 1) n

-- The constructor links every slot into `free_slots`.
unfoldable pub init : Table
unfolding slots_from
init = record { holes = []; free_slots = slots_from 0 nr_holes }

-- The macro `roundup`, on `size_t`.
unfoldable pub roundup : ℕ → ℕ → ℕ
roundup x align = if x % align == 0 then x else sub64 (add64 x align) (x % align)

-- The padding that brings `base` to the alignment.
pub padding : ℕ → ℕ → ℕ
padding align base = if base % align == 0 then 0 else align - base % align

-- `prev_ptr`, grown by the padding if it ends where the block begins.
pub grow : ℕ → ℕ → Option Hole → List Hole → List Hole
grow pad addr none hs = hs
grow pad addr (some p) hs =
    (if add32 p.base p.len == addr then record p { len = add32 p.len pad } else p) ∷ hs

-- What `hp` leaves in the chain: `delete_slot` takes an empty hole out.
pub shrink : ℕ → Hole → List Hole → List Hole × List ℕ
shrink need h hs =
    if h.len - need == 0
    then (hs, h.slot ∷ [])
    else (record h { base = add32 h.base need; len = h.len - need } ∷ hs, [])

abbrev keep : Option Hole → List Hole → List Hole
keep none hs = hs
keep (some p) hs = p ∷ hs

-- The loop of `allocate` from `hp` on, behind `prev`: the address, the chain from `prev` on, and the
-- slots that it puts back.
pub walk : ℕ → ℕ → Option Hole → List Hole → Option (ℕ × List Hole × List ℕ)
unfolding padding grow shrink
walk len align prev [] = none
walk len align prev (h ∷ hs) =
    let pad = padding align h.base in
    let need = add64 len pad in
    let addr = add32 h.base pad in
    let (left, freed) = shrink need h hs in
    let rest = walk len align (some h) hs in
    if leb need h.len
    then some (addr, grow pad addr prev left, freed)
    else (elim rest [ none ↦ none | some (a, chain, slots) ↦ some (a, keep prev chain, slots) ])

-- The table after the loop of `allocate`, whose `delete_slot` puts slots back; `none` is the
-- exception `MemoryNotAvailable`.
abbrev pub commit : Table → Option (ℕ × List Hole × List ℕ) → Option (ℕ × Table)
commit t none = none
commit t (some (addr, chain, freed)) =
    some (addr, record { holes = chain; free_slots = freed ++ t.free_slots })

pub allocate : ℕ → ℕ → Table → Option (ℕ × Table)
unfolding walk
allocate len align t = commit t (walk len align none t.holes)

abbrev pub page : ℕ
page = 0x1000

unfoldable pub allocate_pages : ℕ → Table → Option (ℕ × Table)
unfolding allocate
allocate_pages len t = allocate (roundup len page) page t

-- The test of `merge_hole`, on `uint32_t`.
abbrev pub touches : Hole → Hole → Bool
touches h n = add32 h.base h.len == n.base

abbrev pub join : Hole → Hole → Hole
join h n = record h { len = add32 h.len n.len }

-- The second half of `merge_hole`, at `hp`: the chain from `hp` on, and the slots put back.
pub merge_once : Hole → List Hole → List Hole × List ℕ
merge_once h [] = (h ∷ [], [])
merge_once h (n ∷ hs) = if touches h n then (join h n ∷ hs, n.slot ∷ []) else (h ∷ n ∷ hs, [])

-- `merge_hole`: once at `hp`, then once more, at `hp` if it grew and else at its successor.
pub merge_hole : Hole → List Hole → List Hole × List ℕ
unfolding merge_once
merge_hole h [] = (h ∷ [], [])
merge_hole h (n ∷ hs) =
    let (grown, more) = merge_once (join h n) hs in
    let (chain, freed) = merge_once n hs in
    if touches h n then (grown, more ++ n.slot ∷ []) else (h ∷ chain, freed)

-- The loop of `free`, with `prev` the last hole that begins below `new`: past each such hole, then
-- in behind the last, which `merge_hole` starts from.
pub place : Hole → Hole → List Hole → List Hole × List ℕ
unfolding merge_hole
place new prev [] = merge_hole prev (new ∷ [])
place new prev (n ∷ hs) =
    let (chain, freed) = place new n hs in
    if ltb n.base new.base then (prev ∷ chain, freed) else merge_hole prev (new ∷ n ∷ hs)

-- The head is a case of its own.
pub insert : Hole → List Hole → List Hole × List ℕ
unfolding merge_hole place
insert new [] = merge_hole new []
insert new (h ∷ hs) = if leb new.base h.base then merge_hole new (h ∷ hs) else place new h hs

-- The block goes into the first unused slot; `none` is the `abort` of a full hole table.
pub add_hole : ℕ → ℕ → List Hole → List ℕ → Option Table
unfolding insert
add_hole addr len hs [] = none
add_hole addr len hs (slot ∷ slots) =
    let (chain, freed) = insert (record { slot = slot; base = addr; len = u32 len }) hs in
    some (record { holes = chain; free_slots = freed ++ slots })

unfoldable pub free : ℕ → ℕ → Table → Option Table
unfolding add_hole
free addr len t = if len == 0 then some t else add_hole addr len t.holes t.free_slots

pub free_pages : ℕ → ℕ → Table → Option Table
unfolding free
free_pages addr len t = free addr (roundup len page) t
