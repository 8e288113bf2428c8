-- ===== src/Nvme/Owned/Lists.antt =====
-- The PRP lists of a command that goes.
use mcmqhost.Prelude.{ℕ, ◌+◌, ◌<◌, ◌≡◌, refl, List, [], ◌∷◌, Option, none, some, arith, u32_mod}
use mcmqhost.Memory.{Table, page, free}
use mcmqhost.Nvme.World.{World, Outcome, done, fail, then_do, gave, set_table}
use mcmqhost.Nvme.Irq.{find, erase, free_prp_lists, remove_async_command, prp_lists_of}
use mcmqhost.Nvme.Sized.{left}
use mcmqhost.Nvme.Owned.{Owned, Owning}
use mcmqhost.Nvme.Owned.Pages.{block, free_at, free-block}
use mcmqhost.Nvme.Owned.Map.{held, Below, erase-held_by, erase-AllBelow}

-- Each address still has one holder; if all pages went back, they are free, and no other address
-- changed hands.
abbrev pub GivenBack : (ℕ → ℕ) → List ℕ → World → Outcome (Unit {0}) → Type 0
GivenBack extra ps w (done a w') =
    Owned extra w' × ((a : ℕ) → free_at w'.space.table a ≡ held ps a + free_at w.space.table a)
GivenBack extra ps w (fail e w') = Owned extra w'

fewer : (extra more : ℕ → ℕ) (w : World) → Owned (λ a. extra a + more a) w → Owned extra w
fewer extra more w o = record {
  valid = o.valid;
  once = λ a. omega (arith, o.once a);
  below = o.below;
  page_size = o.page_size;
}

freed-page :
    (extra : ℕ → ℕ) (p : ℕ) (ps : List ℕ) (w : World) (t : Table)
    → p + page < u32_mod
    → free p page w.space.table ≡ some t
    → Owned (λ a. extra a + held (p ∷ ps) a) w
    → Owned (λ a. extra a + held ps a) (set_table t w)
      × ((a : ℕ) → free_at t a ≡ block p page a + free_at w.space.table a)
freed-page extra p ps w t low e o =
    let (v, now) =
      free-block p page w.space.table (omega arith) low o.valid (λ a. omega (arith, o.once a)) e in
    (
      record {
        valid = v;
        once = λ a. omega (arith, o.once a, now a);
        below = o.below;
        page_size = o.page_size;
      },
      now,
    )

GivenBack-more :
    (extra : ℕ → ℕ) (p : ℕ) (ps : List ℕ) (w : World) (t : Table) (o : Outcome (Unit {0}))
    → ((a : ℕ) → free_at t a ≡ block p page a + free_at w.space.table a)
    → GivenBack extra ps (set_table t w) o
    → GivenBack extra (p ∷ ps) w o
GivenBack-more extra p ps w t (done a w') now (o, all) = (o, λ a. omega (arith, now a, all a))
GivenBack-more extra p ps w t (fail e w') now o = o

gave-GivenBack :
    (extra : ℕ → ℕ) (p : ℕ) (ps : List ℕ) (w : World) (got : Option Table)
    → free p page w.space.table ≡ got
    → p + page < u32_mod
    → Owned (λ a. extra a + held (p ∷ ps) a) w
    → ((w' : World)
        → Owned (λ a. extra a + held ps a) w'
        → GivenBack extra ps w' (free_prp_lists ps w'))
    → GivenBack extra (p ∷ ps) w (then_do (gave w got) (λ _. free_prp_lists ps))
gave-GivenBack extra p ps w none e low o rest = fewer extra (held (p ∷ ps)) w o
gave-GivenBack extra p ps w (some t) e low o rest =
    let (o', now) = freed-page extra p ps w t low e o in
    GivenBack-more extra p ps w t (free_prp_lists ps (set_table t w)) now (rest (set_table t w) o')

free_prp_lists-GivenBack :
    (extra : ℕ → ℕ) (ps : List ℕ) (w : World)
    → Below ps
    → Owned (λ a. extra a + held ps a) w
    → GivenBack extra ps w (free_prp_lists ps w)
unfolding free_prp_lists
free_prp_lists-GivenBack extra [] w b o = (fewer extra (λ a. 0) w o, λ a. omega arith)
free_prp_lists-GivenBack extra (p ∷ ps) w b o =
    gave-GivenBack extra p ps w (free p page w.space.table) refl b.0 o
      (λ w'. free_prp_lists-GivenBack extra ps w' b.1)

-- While no address has two holders, `remove_async_command` keeps it so, also where it aborts since
-- the table of holes is full; if it returns, exactly the pages of the command's PRP lists are free
-- in addition: it frees no page twice, and none that someone else holds.
pub remove_async_command-GivenBack :
    (extra : ℕ → ℕ) (id : ℕ) (w : World)
    → Owned extra w
    → GivenBack extra (prp_lists_of (find id w.command_map)) w (remove_async_command id w)
unfolding remove_async_command
remove_async_command-GivenBack extra id w o =
    let ps = prp_lists_of (find id w.command_map) in
    let erased = record w { command_map = erase id w.command_map } in
    let (mine, rest) = erase-AllBelow id w.command_map o.below in
    free_prp_lists-GivenBack extra ps erased mine (record {
      valid = o.valid;
      once = λ a. omega (arith, o.once a, erase-held_by id w.command_map a);
      below = rest;
      page_size = o.page_size;
    })

GivenBack-left :
    (extra : ℕ → ℕ) (ps : List ℕ) (w : World) (o : Outcome (Unit {0}))
    → GivenBack extra ps w o
    → Owned extra (left o)
GivenBack-left extra ps w (done a w') g = g.0
GivenBack-left extra ps w (fail e w') g = g

pub Owning-remove_async_command : (id : ℕ) → Owning (remove_async_command id)
Owning-remove_async_command id = record {
  at = λ extra w o.
      GivenBack-left extra (prp_lists_of (find id w.command_map)) w (remove_async_command id w)
        (remove_async_command-GivenBack extra id w o);
}
