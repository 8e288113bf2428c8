-- ===== src/Nvme/Owned/Map.antt =====
-- The pages of the commands in the map, counted at an address.
use mcmqhost.Prelude.{
  ℕ, ◌+◌, ◌≤◌, ◌<◌, ◌≡◌, ◌⊎◌, refl, Bool-cases, Option-cases, inl, inr, List, [], ◌∷◌, ◌++◌, arith,
  u32_mod, ◌==◌,
}
use mcmqhost.Memory.{page}
use mcmqhost.Nvme.World.{AsyncCommand}
use mcmqhost.Nvme.Irq.{CommandMap, find, erase, update, emplace, new_command, prp_lists_of}
use mcmqhost.Nvme.Owned.Pages.{block}

-- How many of the pages hold the address.
abbrev pub held : List ℕ → ℕ → ℕ
held [] a = 0
held (p ∷ ps) a = block p page a + held ps a

abbrev pub held_by : CommandMap → ℕ → ℕ
held_by [] a = 0
held_by ((id, c) ∷ m) a = held c.prp_lists a + held_by m a

-- The pages end below 2^32.
abbrev pub Below : List ℕ → Type 0
Below [] = Unit {0}
Below (p ∷ ps) = (p + page < u32_mod) × Below ps

abbrev pub AllBelow : CommandMap → Type 0
AllBelow [] = Unit {0}
AllBelow ((id, c) ∷ m) = Below c.prp_lists × AllBelow m

held-append : (ps qs : List ℕ) (a : ℕ) → held (ps ++ qs) a ≡ held ps a + held qs a
held-append [] qs a = omega arith
held-append (p ∷ ps) qs a = omega (arith, held-append ps qs a)

Below-append : (ps : List ℕ) (p : ℕ) → Below ps → p + page < u32_mod → Below (ps ++ p ∷ [])
Below-append [] p b q = (q, tt)
Below-append (x ∷ ps) p b q = (b.0, Below-append ps p b.1 q)

-- A change that keeps the pages.
pub update-held_by :
    (id : ℕ) (f : AsyncCommand → AsyncCommand) (m : CommandMap) (a : ℕ)
    → ((c : AsyncCommand) → (f c).prp_lists ≡ c.prp_lists)
    → held_by (update id f m) a ≡ held_by m a
unfolding update
update-held_by id f [] a same = refl
update-held_by id f ((k, c) ∷ m) a same = elim (Bool-cases (k == id)) [
  | inl it ↦ rw (it, same c) refl
  | inr other ↦ rw (other, update-held_by id f m a same) refl
]

pub update-AllBelow :
    (id : ℕ) (f : AsyncCommand → AsyncCommand) (m : CommandMap)
    → ((c : AsyncCommand) → (f c).prp_lists ≡ c.prp_lists)
    → AllBelow m
    → AllBelow (update id f m)
unfolding update
update-AllBelow id f [] same b = tt
update-AllBelow id f ((k, c) ∷ m) same b = elim (Bool-cases (k == id)) [
  | inl it ↦ rw (it, same c) b
  | inr other ↦ rw other (b.0, update-AllBelow id f m same b.1)
]

abbrev pub push : ℕ → AsyncCommand → AsyncCommand
push p c = record c { prp_lists = c.prp_lists ++ (p ∷ []) }

-- One page more, if the command is there.
pub push-held_by :
    (id p : ℕ) (m : CommandMap) (a : ℕ)
    → held_by (update id (push p) m) a ≤ block p page a + held_by m a
unfolding update
push-held_by id p [] a = omega arith
push-held_by id p ((k, c) ∷ m) a = elim (Bool-cases (k == id)) [
  | inl it ↦ rw it (omega (arith, held-append c.prp_lists (p ∷ []) a))
  | inr other ↦ rw other (omega (arith, push-held_by id p m a))
]

pub push-AllBelow :
    (id p : ℕ) (m : CommandMap) → p + page < u32_mod → AllBelow m → AllBelow (update id (push p) m)
unfolding update
push-AllBelow id p [] q b = tt
push-AllBelow id p ((k, c) ∷ m) q b = elim (Bool-cases (k == id)) [
  | inl it ↦ rw it (Below-append c.prp_lists p b.0 q, b.1)
  | inr other ↦ rw other (b.0, push-AllBelow id p m q b.1)
]

emplace-cases :
    (id : ℕ) (m : CommandMap) → (emplace id m ≡ (id, new_command) ∷ m) ⊎ (emplace id m ≡ m)
unfolding emplace
emplace-cases id m = elim (Option-cases (find id m)) [
  | inl absent ↦ inl (rw (absent, emplace) refl)
  | inr (c, there) ↦ inr (rw (there, emplace) refl)
]

pub emplace-held_by : (id : ℕ) (m : CommandMap) (a : ℕ) → held_by (emplace id m) a ≡ held_by m a
emplace-held_by id m a = elim (emplace-cases id m) [
  | inl new ↦ rw new (omega arith)
  | inr same ↦ rw same refl
]

pub emplace-AllBelow : (id : ℕ) (m : CommandMap) → AllBelow m → AllBelow (emplace id m)
emplace-AllBelow id m b = elim (emplace-cases id m) [
  | inl new ↦ rw new (tt, b)
  | inr same ↦ rw same b
]

pub erase-held_by :
    (id : ℕ) (m : CommandMap) (a : ℕ)
    → held_by m a ≡ held (prp_lists_of (find id m)) a + held_by (erase id m) a
unfolding find erase
erase-held_by id [] a = refl
erase-held_by id ((k, c) ∷ m) a = elim (Bool-cases (k == id)) [
  | inl it ↦ rw it refl
  | inr other ↦ rw other (omega (arith, erase-held_by id m a))
]

pub erase-AllBelow :
    (id : ℕ) (m : CommandMap)
    → AllBelow m
    → Below (prp_lists_of (find id m)) × AllBelow (erase id m)
unfolding find erase
erase-AllBelow id [] b = (tt, tt)
erase-AllBelow id ((k, c) ∷ m) b = elim (Bool-cases (k == id)) [
  | inl it ↦ rw it b
  | inr other ↦ rw other (let (mine, rest) = erase-AllBelow id m b.1 in (mine, (b.0, rest)))
]
