-- ===== src/Nvme/Sized.antt =====
-- The number of the driver's queues along its methods, also where they throw: the rules for the ways
-- to build a method.
pub mod Commands
pub mod Start
use mcmqhost.Prelude.{
  ℕ, ◌≡◌, refl, ◌∙◌, ap, Bool, true, false, if◌then◌else◌, List, [], ◌∷◌, Option, none, some,
  length, length-set, set,
}
use mcmqhost.Memory.{Table, allocate, allocate_pages, free}
use mcmqhost.Memory.Space.{Space, read, write, memset}
use mcmqhost.Nvme.World.{
  Queue, World, Error, Outcome, done, fail, M, ret, throw, then_do, ◌>>=◌, ◌>>◌, get, modify,
  or_throw, get_queue, set_queue, took, gave, put_space, next_read, mem_allocate,
  mem_allocate_pages, mem_free, mem_read, mem_write, mem_set, link_readl, link_readq, link_writel,
  link_writeq,
}

-- The world that an outcome leaves.
abbrev pub left {ℓ} : {A : Type ℓ} → Outcome A → World
left (done a w) = w
left (fail e w) = w

-- `m` leaves as many queues as there are.
pub record Sized {ℓ} {A : Type ℓ} (m : M A) : Type 0 where
  pub at : (w : World) → length (left (m w)).queues ≡ length w.queues

module _ {ℓ} {A : Type ℓ} where
  pub Sized-ret : (a : A) → Sized (ret a)
  Sized-ret a = record { at = λ w. refl }

  pub Sized-throw : (e : Error) → Sized (throw {A = A} e)
  Sized-throw e = record { at = λ w. refl }

  pub chosen-left :
      (b : Bool) (n : ℕ) (x y : Outcome A)
      → length (left x).queues ≡ n
      → length (left y).queues ≡ n
      → length (left (if b then x else y)).queues ≡ n
  chosen-left true n x y kx ky = kx
  chosen-left false n x y kx ky = ky

  pub Sized-if : (b : Bool) (m n : M A) → Sized m → Sized n → Sized (if b then m else n)
  Sized-if true m n km kn = km
  Sized-if false m n km kn = kn

  pub Sized-or_throw : (e : Error) (o : Option A) → Sized (or_throw e o)
  Sized-or_throw e none = Sized-throw e
  Sized-or_throw e (some a) = Sized-ret a

module _ {ℓ κ} {A : Type ℓ} {B : Type κ} where
  pub then_do-left :
      (o : Outcome A) (f : A → M B)
      → ((a : A) → Sized (f a))
      → length (left (then_do o f)).queues ≡ length (left o).queues
  then_do-left (done a w) f kf = (kf a).at w
  then_do-left (fail e w) f kf = refl

  pub Sized-bind : (m : M A) (f : A → M B) → Sized m → ((a : A) → Sized (f a)) → Sized (m >>= f)
  Sized-bind m f km kf = record { at = λ w. then_do-left (m w) f kf ∙ km.at w }

pub Sized-then {κ} : {B : Type κ} (m : M (Unit {0})) (n : M B) → Sized m → Sized n → Sized (m >> n)
Sized-then m n km kn = Sized-bind m (λ _. n) km (λ _. kn)

pub Sized-get : Sized get
Sized-get = record { at = λ w. refl }

pub Sized-modify :
    (f : World → World) → ((w : World) → length (f w).queues ≡ length w.queues) → Sized (modify f)
Sized-modify f same = record { at = same }

pub Sized-get_queue : (i : ℕ) → Sized (get_queue i)
Sized-get_queue i = record { at = λ w. (Sized-or_throw _ _).at w }

pub Sized-set_queue : (i : ℕ) (q : Queue) → Sized (set_queue i q)
Sized-set_queue i q = record { at = λ w. length-set w.queues i q }

took-left : (w : World) (o : Option (ℕ × Table)) → length (left (took w o)).queues ≡ length w.queues
took-left w none = refl
took-left w (some (addr, t)) = refl

gave-left : (w : World) (o : Option Table) → length (left (gave w o)).queues ≡ length w.queues
gave-left w none = refl
gave-left w (some t) = refl

put_space-left :
    (w : World) (o : Option Space) → length (left (put_space w o)).queues ≡ length w.queues
put_space-left w none = refl
put_space-left w (some s) = refl

next_read-left : (w : World) (vs : List ℕ) → length (left (next_read w vs)).queues ≡ length w.queues
next_read-left w [] = refl
next_read-left w (v ∷ vs) = refl

pub Sized-mem_allocate : (len : ℕ) → Sized (mem_allocate len)
Sized-mem_allocate len = record { at = λ w. took-left w (allocate len 1 w.space.table) }

pub Sized-mem_allocate_pages : (len : ℕ) → Sized (mem_allocate_pages len)
Sized-mem_allocate_pages len = record { at = λ w. took-left w (allocate_pages len w.space.table) }

pub Sized-mem_free : (addr len : ℕ) → Sized (mem_free addr len)
Sized-mem_free addr len = record { at = λ w. gave-left w (free addr len w.space.table) }

pub Sized-mem_read : (addr len : ℕ) → Sized (mem_read addr len)
Sized-mem_read addr len = record { at = λ w. (Sized-or_throw _ (read addr len w.space)).at w }

pub Sized-mem_write : (addr : ℕ) (xs : List ℕ) → Sized (mem_write addr xs)
Sized-mem_write addr xs = record { at = λ w. put_space-left w (write addr xs w.space) }

pub Sized-mem_set : (addr c len : ℕ) → Sized (mem_set addr c len)
Sized-mem_set addr c len = record { at = λ w. put_space-left w (memset addr c len w.space) }

pub Sized-link_readq : (reg : ℕ) → Sized (link_readq reg)
Sized-link_readq reg = record { at = λ w. next_read-left w w.reads }

pub Sized-link_writel : (reg v : ℕ) → Sized (link_writel reg v)
Sized-link_writel reg v = record { at = λ w. refl }

pub Sized-link_writeq : (reg v : ℕ) → Sized (link_writeq reg v)
Sized-link_writeq reg v = record { at = λ w. refl }

pub ruleset sized_rules = (
  Sized-ret, Sized-throw, Sized-if, Sized-bind, Sized-then, Sized-get, Sized-modify,
  Sized-get_queue, Sized-set_queue, Sized-mem_allocate, Sized-mem_allocate_pages, Sized-mem_free,
  Sized-mem_read, Sized-mem_write, Sized-mem_set, Sized-link_readq, Sized-link_writel,
  Sized-link_writeq,
)
