-- ===== src/Nvme/Owned/Callback.antt =====
-- The completion of a command that a callback waits for.
use mcmqhost.Prelude.{
  ℕ, ◌/◌, ◌≡◌, ◌≢◌, refl, sym, ap, subst, ◌∙◌, List, [], ◌∷◌, Option, none, some,
}
use mcmqhost.Memory.{Table, free}
use mcmqhost.Nvme.World.{
  AsyncCommand, Callback, World, table_full, Outcome, done, fail, then_do, gave, set_table,
}
use mcmqhost.Nvme.Irq.{
  Completion, CommandMap, find, erase, free_prp_lists, remove_async_command, prp_lists_of, complete,
}
use mcmqhost.Nvme.Irq.Commands.{find-erase_other}
use mcmqhost.Nvme.Owned.{Owned, Owned-same}
use mcmqhost.Nvme.Owned.Lists.{GivenBack, remove_async_command-GivenBack}

-- What a method leaves of the map and of the callbacks, and why it throws.
abbrev pub Leaves : CommandMap → List Callback → Outcome (Unit {0}) → Type 0
Leaves m called (done a w) = (w.command_map ≡ m) × (w.called ≡ called)
Leaves m called (fail e w) = (e ≡ table_full) × (w.command_map ≡ m) × (w.called ≡ called)

gave-Leaves :
    (ps : List ℕ) (w : World) (got : Option Table)
    → ((w' : World) → Leaves w'.command_map w'.called (free_prp_lists ps w'))
    → Leaves w.command_map w.called (then_do (gave w got) (λ _. free_prp_lists ps))
gave-Leaves ps w none rest = (refl, refl, refl)
gave-Leaves ps w (some t) rest = rest (set_table t w)

free_prp_lists-Leaves :
    (ps : List ℕ) (w : World) → Leaves w.command_map w.called (free_prp_lists ps w)
unfolding free_prp_lists
free_prp_lists-Leaves [] w = (refl, refl)
free_prp_lists-Leaves (p ∷ ps) w =
    gave-Leaves ps w (free p 0x1000 w.space.table) (free_prp_lists-Leaves ps)

remove_async_command-Leaves :
    (id : ℕ) (w : World) → Leaves (erase id w.command_map) w.called (remove_async_command id w)
unfolding remove_async_command
remove_async_command-Leaves id w =
    free_prp_lists-Leaves (prp_lists_of (find id w.command_map))
      (record w { command_map = erase id w.command_map })

abbrev pub call_of : ℕ → Completion → Callback
call_of token e = record { token = token; status = e.status / 2; result = e.result }

GivenBack-called :
    (extra : ℕ → ℕ) (ps : List ℕ) (w : World) (calls : List Callback) (o : Outcome (Unit {0}))
    → GivenBack extra ps (record w { called = calls }) o
    → GivenBack extra ps w o
GivenBack-called extra ps w calls (done a w') g = g
GivenBack-called extra ps w calls (fail e w') g = g

complete-remove :
    (e : Completion) (c : AsyncCommand) (token : ℕ) (w : World)
    → find e.command_id w.command_map ≡ some c
    → c.callback ≡ some token
    → complete e (find e.command_id w.command_map) w
      ≡ remove_async_command e.command_id (record w { called = call_of token e ∷ w.called })
unfolding complete
complete-remove e c token w found calls =
    let called = record w { called = call_of token e ∷ w.called } in
    let calling : complete e (some c) w ≡ remove_async_command e.command_id called =
      rw calls refl in
    ap (λ m. complete e m w) found ∙ calling

-- While no address has two holders, an entry of the completion queue for a command with a callback
-- calls it once, with the entry's status without its phase bit and with its result, takes the command
-- from the map and leaves the others, and makes exactly the pages of its PRP lists free in addition;
-- or it throws after the call, for no other reason than that the table of holes is full.
pub complete-callback :
    (extra : ℕ → ℕ) (e : Completion) (c : AsyncCommand) (token : ℕ) (w : World)
    → Owned extra w
    → find e.command_id w.command_map ≡ some c
    → c.callback ≡ some token
    → let after = complete e (find e.command_id w.command_map) w in
      Leaves (erase e.command_id w.command_map) (call_of token e ∷ w.called) after
      × GivenBack extra c.prp_lists w after
      × ((other : ℕ)
          → other ≢ e.command_id
          → find other (erase e.command_id w.command_map) ≡ find other w.command_map)
complete-callback extra e c token w o found calls =
    let id = e.command_id in
    let called = record w { called = call_of token e ∷ w.called } in
    let given =
      remove_async_command-GivenBack extra id called (Owned-same extra w called o refl refl refl) in
    let (left, freed) =
      subst (λ r. Leaves (erase id w.command_map) called.called r × GivenBack extra c.prp_lists w r)
        (sym (complete-remove e c token w found calls))
        (
          remove_async_command-Leaves id called,
          subst (λ m. GivenBack extra (prp_lists_of m) w (remove_async_command id called)) found
              (GivenBack-called extra (prp_lists_of (find id w.command_map)) w called.called
                (remove_async_command id called) given),
        ) in
    (left, freed, λ other apart. find-erase_other id other w.command_map apart)
