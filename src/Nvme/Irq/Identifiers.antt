-- ===== src/Nvme/Irq/Identifiers.antt =====
-- The 16 bits of `command_id_counter`.
use mcmqhost.Prelude.{
  ℕ, suc, ◌+◌, ◌^◌, ◌<◌, ◌≡◌, ◌≢◌, refl, sym, ap, ◌∙◌, List, [], ◌∷◌, Option, none, some, false,
  u16, arith, length,
}
use mcmqhost.Nvme.World.{AsyncCommand, World, M, done, ret, ◌>>◌, ◌>>=◌}
use mcmqhost.Nvme.Irq.{
  CommandMap, find, erase, update, emplace, new_command, free_prp_lists, remove_async_command,
  setup_async_command,
}
use mcmqhost.Nvme.Irq.Commands.{find-update_self}

-- A command for each of the callbacks, removed before the next one is set up.
unfoldable pub turnover : List (Option ℕ) → M (Unit {0})
turnover [] = ret tt
turnover (callback ∷ rest) = do
  id ← setup_async_command callback
  remove_async_command id
  turnover rest

-- The map has the command `i`, and no other.
abbrev pub Lone : ℕ → CommandMap → Type 0
Lone i m = (k : ℕ) → k ≢ i → find k m ≡ none

update-emplace :
    (id : ℕ) (f : AsyncCommand → AsyncCommand) (m : CommandMap)
    → find id m ≡ none
    → update id f (emplace id m) ≡ (id, f new_command) ∷ m
unfolding update emplace
update-emplace id f m absent = ground (arith, absent)

emplace-there : (id : ℕ) (m : CommandMap) {c : AsyncCommand} → find id m ≡ some c → emplace id m ≡ m
unfolding emplace
emplace-there id m found = rw (found, emplace) refl

find-first : (id : ℕ) (c : AsyncCommand) (m : CommandMap) → find id ((id, c) ∷ m) ≡ some c
unfolding find
find-first id c m = ground arith

erase-first : (id : ℕ) (c : AsyncCommand) (m : CommandMap) → erase id ((id, c) ∷ m) ≡ m
unfolding erase
erase-first id c m = ground arith

turnover-one :
    (callback : Option ℕ) (rest : List (Option ℕ)) (w : World)
    → find w.command_id_counter w.command_map ≡ none
    → turnover (callback ∷ rest) w
      ≡ turnover rest (record w { command_id_counter = u16 (w.command_id_counter + 1) })
unfolding turnover setup_async_command remove_async_command free_prp_lists
turnover-one callback rest w absent =
    let id = w.command_id_counter in
    let c = record new_command { id = id; callback = callback } in
    rw
      (
        update-emplace id (λ c. record c { id = id; completed = false; callback = callback })
            w.command_map absent,
        find-first id c w.command_map,
        erase-first id c w.command_map,
      )
      refl

turnover-kept :
    (started : List (Option ℕ)) (i d : ℕ) (w : World)
    → Lone i w.command_map
    → w.command_id_counter ≡ u16 (i + 1 + d)
    → i < 2 ^ 16
    → d + length started < 2 ^ 16
    → turnover started w
      ≡ done tt (record w { command_id_counter = u16 (i + 1 + d + length started) })
unfolding turnover
turnover-kept [] i d w lone counter small room =
    ap (λ k. done tt (record w { command_id_counter = k })) (omega arith)
turnover-kept (callback ∷ rest) i d w lone counter small room =
    let apart : w.command_id_counter ≢ i = λ same. omega arith in
    let next = record w { command_id_counter = u16 (w.command_id_counter + 1) } in
    let counted : u16 (w.command_id_counter + 1) ≡ u16 (i + 1 + (d + 1)) = omega arith in
    turnover-one callback rest w (lone w.command_id_counter apart)
    ∙ turnover-kept rest i (d + 1) next lone counted small (omega arith)
    ∙ ap (λ k. done tt (record w { command_id_counter = k })) (omega arith)

-- Where the command `i` was the last to be set up and is the only one in the map, 65535 commands that
-- are set up and removed, one after the other, leave its entry alone, and the next one that is set up
-- gets the id `i` again, although the entry is still there: it takes the entry over, which keeps
-- its PRP lists, and the callback of the command in flight is replaced.
pub setup_async_command-reused :
    (started : List (Option ℕ)) (callback : Option ℕ) (i : ℕ) (c : AsyncCommand) (w : World)
    → i < 2 ^ 16
    → w.command_id_counter ≡ u16 (i + 1)
    → find i w.command_map ≡ some c
    → Lone i w.command_map
    → suc (length started) ≡ 2 ^ 16
    → let taken =
        λ (c : AsyncCommand). record c { id = i; completed = false; callback = callback } in
      let after = update i taken w.command_map in
      ((turnover started >> setup_async_command callback) w
        ≡ done i (record w { command_map = after }))
      × (find i after ≡ some (taken c))
unfolding setup_async_command
setup_async_command-reused started callback i c w small counter found lone all =
    let taken = λ (c : AsyncCommand). record c { id = i; completed = false; callback = callback } in
    let back : u16 (i + 1 + 0 + length started) ≡ i = omega arith in
    let kept = turnover-kept started i 0 w lone (omega arith) small (omega arith) in
    let there = emplace-there i w.command_map found in
    (
      rw (kept, back, there)
          (ap
            (λ k.
              done i
                (record w { command_id_counter = k; command_map = update i taken w.command_map }))
            (sym counter)),
      find-update_self i taken w.command_map found,
    )
