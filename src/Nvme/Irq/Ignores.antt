-- ===== src/Nvme/Irq/Ignores.antt =====
-- What the handling of completions does, queues or not: it neither reads nor changes them.
use mcmqhost.Prelude.{
  ℕ, zero, suc, ◌≡◌, refl, sym, ap, ◌∙◌, List, [], ◌∷◌, Option, none, some, get_elem?, set,
}
use mcmqhost.Memory.{Table, free}
use mcmqhost.Nvme.World.{
  Queue, AsyncCommand, World, Outcome, done, fail, M, then_do, gave, set_table,
}
use mcmqhost.Nvme.Irq.{
  Completion, find, erase, free_prp_lists, prp_lists_of, remove_async_command, complete,
}

abbrev pub with_queues : List Queue → World → World
with_queues queues w = record w { queues = queues }

abbrev pub onto {ℓ} : {A : Type ℓ} → List Queue → Outcome A → Outcome A
onto queues (done a w) = done a (with_queues queues w)
onto queues (fail e w) = fail e (with_queues queues w)

-- A method that neither reads nor changes the queues.
pub record Ignores (m : M (Unit {0})) : Type 0 where
  pub at : (queues : List Queue) (w : World) → m (with_queues queues w) ≡ onto queues (m w)

gave-onto :
    (f : World → Outcome (Unit {0}))
    → Ignores f
    → (queues : List Queue) (w : World) (o : Option Table)
    → then_do (gave (with_queues queues w) o) (λ _. f) ≡ onto queues (then_do (gave w o) (λ _. f))
gave-onto f k queues w none = refl
gave-onto f k queues w (some t) = k.at queues (set_table t w)

free_prp_lists-Ignores : (prps : List ℕ) → Ignores (free_prp_lists prps)
unfolding free_prp_lists
free_prp_lists-Ignores [] = record { at = λ queues w. refl }
free_prp_lists-Ignores (prp ∷ prps) = record {
  at = λ queues w.
      gave-onto (free_prp_lists prps) (free_prp_lists-Ignores prps) queues w
        (free prp 0x1000 w.space.table);
}

remove-Ignores : (id : ℕ) → Ignores (remove_async_command id)
unfolding remove_async_command
remove-Ignores id = record {
  at = λ queues w.
      (free_prp_lists-Ignores (prp_lists_of (find id w.command_map))).at queues
        (record w { command_map = erase id w.command_map });
}

complete-some-Ignores :
    (e : Completion) (c : AsyncCommand) (callback : Option ℕ)
    → c.callback ≡ callback
    → Ignores (complete e (some c))
unfolding complete
complete-some-Ignores e c none is = rw is (record { at = λ queues w. refl })
complete-some-Ignores e c (some token) is =
    rw is (record { at = λ queues w. (remove-Ignores e.command_id).at queues _ })

complete-Ignores : (e : Completion) (c : Option AsyncCommand) → Ignores (complete e c)
unfolding complete
complete-Ignores e none = record { at = λ queues w. refl }
complete-Ignores e (some c) = complete-some-Ignores e c c.callback refl

-- What the entries do, one after the other: each completes the command with its id.
unfoldable pub complete_all : List Completion → M (Unit {0})
complete_all [] w = done tt w
complete_all (e ∷ es) w =
    then_do (complete e (find e.command_id w.command_map) w) (λ _. complete_all es)

then-onto :
    (o : Outcome (Unit {0})) (f : M (Unit {0}))
    → Ignores f
    → (queues : List Queue) → then_do (onto queues o) (λ _. f) ≡ onto queues (then_do o (λ _. f))
then-onto (done a w) f k queues = k.at queues w
then-onto (fail e w) f k queues = refl

pub complete_all-Ignores : (es : List Completion) → Ignores (complete_all es)
unfolding complete_all
complete_all-Ignores [] = record { at = λ queues w. refl }
complete_all-Ignores (e ∷ es) = record {
  at = λ queues w.
      ap (λ o. then_do o (λ _. complete_all es))
        ((complete-Ignores e (find e.command_id w.command_map)).at queues w)
      ∙ then-onto (complete e (find e.command_id w.command_map) w) (complete_all es)
          (complete_all-Ignores es) queues;
}

pub set-same {ℓ} :
    {A : Type ℓ} (xs : List A) (i : ℕ) (a : A) → get_elem? xs i ≡ some a → set xs i a ≡ xs
set-same [] i a at = refl
set-same (x ∷ xs) zero a at =
    let it : some x ≡ some a = at in let same : x ≡ a = cc in ap (λ y. y ∷ xs) (sym same)
set-same (x ∷ xs) (suc i) a at = ap (λ ys. x ∷ ys) (set-same xs i a at)

pub set-set {ℓ} : {A : Type ℓ} (xs : List A) (i : ℕ) (a b : A) → set (set xs i a) i b ≡ set xs i b
set-set [] i a b = refl
set-set (x ∷ xs) zero a b = refl
set-set (x ∷ xs) (suc i) a b = ap (λ ys. x ∷ ys) (set-set xs i a b)

pub then-done :
    (o : Outcome (Unit {0})) (f : M (Unit {0})) (w' : World)
    → then_do o (λ _. f) ≡ done tt w'
    → (w1 : World) × (o ≡ done tt w1) × (f w1 ≡ done tt w')
then-done (done tt w1) f w' h = (w1, refl, h)
then-done (fail e w1) f w' h = cc

pub complete_all-queues :
    (es : List Completion) (w w' : World) → complete_all es w ≡ done tt w' → w'.queues ≡ w.queues
complete_all-queues es w w' all =
    let over : done tt w' ≡ onto w.queues (done tt w') =
      sym all ∙ (complete_all-Ignores es).at w.queues w ∙ ap (onto w.queues) all in
    let same : w' ≡ with_queues w.queues w' = cc in ap (λ (v : World). v.queues) same
