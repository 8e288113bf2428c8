-- ===== src/Nvme/Irq/Commands.antt =====
-- A command from its entry in the map to the thread that waits for it.
use mcmqhost.Prelude.{ℕ, ◌/◌, ◌≡◌, ◌≢◌, refl, true, List, [], ◌∷◌, none, some, arith}
use mcmqhost.Nvme.World.{AsyncCommand, Arrival, World, done, ◌>>◌}
use mcmqhost.Nvme.Irq.{
  CommandMap, find, erase, update, remove_async_command, free_prp_lists, Completion, complete,
  wait_loop, wait,
}

pub find-update_self :
    (id : ℕ) (f : AsyncCommand → AsyncCommand) (m : CommandMap) {c : AsyncCommand}
    → find id m ≡ some c
    → find id (update id f m) ≡ some (f c)
unfolding find update
find-update_self id f [] found = cc
find-update_self id f ((k, c') ∷ m) {c = c} found = ground (arith, find-update_self id f m {c = c})

pub find-update_other :
    (id other : ℕ) (f : AsyncCommand → AsyncCommand) (m : CommandMap)
    → other ≢ id
    → find other (update id f m) ≡ find other m
unfolding find update
find-update_other id other f [] apart = refl
find-update_other id other f ((k, c') ∷ m) apart = ground (arith, find-update_other id other f m)

pub find-erase_other :
    (id other : ℕ) (m : CommandMap) → other ≢ id → find other (erase id m) ≡ find other m
unfolding find erase
find-erase_other id other [] apart = refl
find-erase_other id other ((k, c') ∷ m) apart = ground (arith, find-erase_other id other m)

pub erase-update :
    (id : ℕ) (f : AsyncCommand → AsyncCommand) (m : CommandMap)
    → erase id (update id f m) ≡ erase id m
unfolding erase update
erase-update id f [] = refl
erase-update id f ((k, c') ∷ m) = ground (arith, erase-update id f m)

wait_loop-completed :
    (arrivals : List Arrival) (id : ℕ) (c : AsyncCommand) (w : World)
    → find id w.command_map ≡ some c
    → c.completed ≡ true
    → wait_loop arrivals id w ≡ done c w
unfolding wait_loop
wait_loop-completed [] id c w found over = ground arith
wait_loop-completed (a ∷ rest) id c w found over = ground arith

abbrev answered : Completion → AsyncCommand → AsyncCommand
answered cqe c = record c { status = cqe.status / 2; result = cqe.result; completed = true }

-- An entry of the completion queue for a command that a thread waits for (no callback, no PRP list)
-- wakes it: `wait` then returns the entry's status without its phase bit, and its result, and takes
-- the command from the map. Another command in the map stays as it is.
pub complete-wait :
    (cqe : Completion) (c : AsyncCommand) (w : World)
    → find cqe.command_id w.command_map ≡ some c
    → c.callback ≡ none
    → c.prp_lists ≡ []
    → let left = erase cqe.command_id w.command_map in
      ((complete cqe (find cqe.command_id w.command_map) >> wait cqe.command_id) w
        ≡ done (cqe.status / 2, cqe.result) (record w { command_map = left }))
      × ((other : ℕ) → other ≢ cqe.command_id → find other left ≡ find other w.command_map)
unfolding complete wait remove_async_command free_prp_lists
complete-wait cqe c w found waits bare =
    let map' = update cqe.command_id (answered cqe) w.command_map in
    let answer : find cqe.command_id map' ≡ some (answered cqe c) =
      find-update_self cqe.command_id (answered cqe) w.command_map found in
    let woken =
      wait_loop-completed w.arrivals cqe.command_id (answered cqe c)
        (record w { command_map = map' }) answer refl in
    (
      rw
          (
            found,
            waits,
            woken,
            answer,
            bare,
            erase-update cqe.command_id (answered cqe) w.command_map,
          )
          refl,
      λ other apart. find-erase_other cqe.command_id other w.command_map apart,
    )
