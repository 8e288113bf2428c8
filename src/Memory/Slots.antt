-- ===== src/Memory/Slots.antt =====
-- No slot of the array `hole` is lost: what leaves the chain goes back to `free_slots`.
use mcmqhost.Prelude.{suc, ◌+◌, ◌≡◌, List, [], ◌∷◌, arith, length, length-append}
use mcmqhost.Memory.{Hole, merge_once, merge_hole, place, insert, join}

merge_once-length :
    (h : Hole) (hs : List Hole)
    → let (chain, freed) = merge_once h hs in length freed + length chain ≡ suc (length hs)
unfolding merge_once
merge_once-length h [] = omega arith
merge_once-length h (n ∷ hs) = ground arith

merge_hole-length :
    (h : Hole) (hs : List Hole)
    → let (chain, freed) = merge_hole h hs in length freed + length chain ≡ suc (length hs)
unfolding merge_hole
merge_hole-length h [] = omega arith
merge_hole-length h (n ∷ hs) = ground (
  arith,
  merge_once-length (join h n) hs,
  merge_once-length n hs,
  length-append (merge_once (join h n) hs).1 (n.slot ∷ []),
)

place-length :
    (new prev : Hole) (hs : List Hole)
    → let (chain, freed) = place new prev hs in length freed + length chain ≡ suc (suc (length hs))
unfolding place
place-length new prev [] = merge_hole-length prev (new ∷ [])
place-length new prev (n ∷ hs) =
    ground (arith, place-length new n hs, merge_hole-length prev (new ∷ n ∷ hs))

pub insert-length :
    (new : Hole) (hs : List Hole)
    → let (chain, freed) = insert new hs in length freed + length chain ≡ suc (length hs)
unfolding insert
insert-length new [] = merge_hole-length new []
insert-length new (h ∷ hs) = ground (arith, place-length new h hs, merge_hole-length new (h ∷ hs))
