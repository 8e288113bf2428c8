-- ===== src/Nvme/Owned.antt =====
-- Who holds which address of the memory space along the methods of the driver, also where they
-- throw: the commands in the map their PRP lists, and others, the threads with their buffers, what
-- `extra` counts.
pub mod Pages
pub mod Map
pub mod Lists
pub mod Callback
pub mod Methods
pub mod Reach
mod Tests
use mcmqhost.Prelude.{
  ℕ, ◌+◌, ◌*◌, ◌≤◌, ◌<◌, ◌≡◌, refl, Bool, true, false, if◌then◌else◌, List, [], ◌∷◌, Option, none,
  some, arith, u64_mod, u32_mod,
}
use mcmqhost.Memory.{Table, page, allocate_pages, roundup, free}
use mcmqhost.Memory.Space.{Space, read, write}
use mcmqhost.Memory.Laws.{IsValid}
use mcmqhost.Nvme.World.{
  Queue, World, Error, Outcome, done, fail, M, ret, throw, then_do, ◌>>=◌, ◌>>◌, get, modify,
  or_throw, get_queue, set_queue, set_table, took, gave, put_space, mem_allocate_pages, mem_free,
  mem_read, mem_write, link_writel,
}
use mcmqhost.Nvme.Prp.{push_prp_list}
use mcmqhost.Nvme.Sized.{left}
use mcmqhost.Nvme.Owned.Pages.{block, free_at, allocate-block}
use mcmqhost.Nvme.Owned.Map.{held_by, AllBelow, push-held_by, push-AllBelow}

-- No address has two holders: a command, someone else or the free part of the memory space.
pub record Owned (extra : ℕ → ℕ) (w : World) : Type 0 where
  pub valid : IsValid w.space.table
  pub once : (a : ℕ) → extra a + held_by w.command_map a + free_at w.space.table a ≤ 1
  pub below : AllBelow w.command_map
  pub page_size : w.ctrl_page_size ≡ page

pub Owned-same :
    (extra : ℕ → ℕ) (w w' : World)
    → Owned extra w
    → w'.space.table ≡ w.space.table
    → w'.command_map ≡ w.command_map
    → w'.ctrl_page_size ≡ w.ctrl_page_size
    → Owned extra w'
Owned-same extra w w' o table map size = record {
  valid = rw table o.valid;
  once = λ a. rw (table, map) (o.once a);
  below = rw map o.below;
  page_size = rw size o.page_size;
}

-- `m` leaves each address with at most one holder, whatever the others hold.
pub record Owning {ℓ} {A : Type ℓ} (m : M A) : Type 0 where
  pub at : (extra : ℕ → ℕ) (w : World) → Owned extra w → Owned extra (left (m w))

module _ {ℓ} {A : Type ℓ} where
  pub Owning-ret : (a : A) → Owning (ret a)
  Owning-ret a = record { at = λ extra w o. o }

  pub Owning-throw : (e : Error) → Owning (throw {A = A} e)
  Owning-throw e = record { at = λ extra w o. o }

  pub Owning-if : (b : Bool) (m n : M A) → Owning m → Owning n → Owning (if b then m else n)
  Owning-if true m n km kn = km
  Owning-if false m n km kn = kn

  pub Owning-or_throw : (e : Error) (o : Option A) → Owning (or_throw e o)
  Owning-or_throw e none = Owning-throw e
  Owning-or_throw e (some a) = Owning-ret a

  pub chosen-Owned :
      (extra : ℕ → ℕ) (b : Bool) (x y : Outcome A)
      → Owned extra (left x)
      → Owned extra (left y)
      → Owned extra (left (if b then x else y))
  chosen-Owned extra true x y kx ky = kx
  chosen-Owned extra false x y kx ky = ky

module _ {ℓ κ} {A : Type ℓ} {B : Type κ} where
  pub then_do-Owned :
      (extra : ℕ → ℕ) (o : Outcome A) (f : A → M B)
      → ((a : A) → Owning (f a))
      → Owned extra (left o)
      → Owned extra (left (then_do o f))
  then_do-Owned extra (done a w) f kf h = (kf a).at extra w h
  then_do-Owned extra (fail e w) f kf h = h

  pub Owning-bind : (m : M A) (f : A → M B) → Owning m → ((a : A) → Owning (f a)) → Owning (m >>= f)
  Owning-bind m f km kf = record {
    at = λ extra w o. then_do-Owned extra (m w) f kf (km.at extra w o);
  }

pub Owning-then {κ} :
    {B : Type κ} (m : M (Unit {0})) (n : M B) → Owning m → Owning n → Owning (m >> n)
Owning-then m n km kn = Owning-bind m (λ _. n) km (λ _. kn)

pub Owning-modify :
    (f : World → World)
    → ((extra : ℕ → ℕ) (w : World) → Owned extra w → Owned extra (f w))
    → Owning (modify f)
Owning-modify f k = record { at = k }

pub Owning-get : Owning get
Owning-get = record { at = λ extra w o. o }

-- The page size is the allocator's.
pub Owning-get_bind {κ} :
    {B : Type κ} (f : World → M B)
    → ((w : World) → w.ctrl_page_size ≡ page → Owning (f w))
    → Owning (get >>= f)
Owning-get_bind f kf = record { at = λ extra w o. (kf w o.page_size).at extra w o }

pub Owning-get_queue : (i : ℕ) → Owning (get_queue i)
Owning-get_queue i = record { at = λ extra w o. (Owning-or_throw _ _).at extra w o }

pub Owning-set_queue : (i : ℕ) (q : Queue) → Owning (set_queue i q)
Owning-set_queue i q = record { at = λ extra w o. Owned-same extra w _ o refl refl refl }

pub Owning-mem_read : (addr len : ℕ) → Owning (mem_read addr len)
Owning-mem_read addr len = record {
  at = λ extra w o. (Owning-or_throw _ (read addr len w.space)).at extra w o;
}

written-table :
    (addr : ℕ) (xs : List ℕ) (s s' : Space) → write addr xs s ≡ some s' → s'.table ≡ s.table
unfolding write
written-table addr xs s s' e = ground arith

put-Owned :
    (extra : ℕ → ℕ) (w : World) (put : Option Space)
    → ((s : Space) → put ≡ some s → s.table ≡ w.space.table)
    → Owned extra w
    → Owned extra (left (put_space w put))
put-Owned extra w none k o = o
put-Owned extra w (some s) k o = Owned-same extra w _ o (k s refl) refl refl

pub Owning-mem_write : (addr : ℕ) (xs : List ℕ) → Owning (mem_write addr xs)
Owning-mem_write addr xs = record {
  at = λ extra w o.
      put-Owned extra w (write addr xs w.space) (λ s e. written-table addr xs w.space s e) o;
}

pub Owning-link_writel : (reg v : ℕ) → Owning (link_writel reg v)
Owning-link_writel reg v = record { at = λ extra w o. Owned-same extra w _ o refl refl refl }

pub ruleset owning_rules = (
  Owning-ret, Owning-throw, Owning-if, Owning-bind, Owning-then, Owning-get, Owning-get_queue,
  Owning-set_queue, Owning-mem_read, Owning-mem_write, Owning-link_writel,
)

-- A page becomes a PRP list of a command.
push-Owned :
    (extra : ℕ → ℕ) (w : World) (id p : ℕ) (t : Table)
    → allocate_pages page w.space.table ≡ some (p, t)
    → Owned extra w
    → Owned extra (left (push_prp_list id p (set_table t w)))
unfolding push_prp_list allocate_pages roundup
push-Owned extra w id p t e o =
    let (v, low, fewer) =
      allocate-block page page w.space.table (omega arith) (omega arith) (omega arith) o.valid e in
    record {
      valid = v;
      once = λ a. omega (arith, o.once a, fewer a, push-held_by id p w.command_map a);
      below = push-AllBelow id p w.command_map low o.below;
      page_size = o.page_size;
    }

listed-Owned {κ} :
    {B : Type κ} (extra : ℕ → ℕ) (w : World) (id : ℕ) (k : ℕ → M B) (got : Option (ℕ × Table))
    → allocate_pages page w.space.table ≡ got
    → ((p : ℕ) → Owning (k p))
    → Owned extra w
    → Owned extra (left (then_do (took w got) (λ p. push_prp_list id p >> k p)))
listed-Owned extra w id k none e kk o = o
listed-Owned extra w id k (some (p, t)) e kk o =
    then_do-Owned extra (push_prp_list id p (set_table t w)) (λ _. k p) (λ _. kk p)
      (push-Owned extra w id p t e o)

pub Owning-list {κ} :
    {B : Type κ} (id size : ℕ) (k : ℕ → M B)
    → size ≡ page
    → ((p : ℕ) → Owning (k p))
    → Owning (mem_allocate_pages size >>= (λ p. push_prp_list id p >> k p))
Owning-list id size k exact kk = rw exact (record {
  at = λ extra w o. listed-Owned extra w id k (allocate_pages page w.space.table) refl kk o;
})
