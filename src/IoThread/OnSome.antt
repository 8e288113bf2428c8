-- ===== src/IoThread/OnSome.antt =====
-- What holds of the state that a step leaves, with the rules for steps one after the other.
use mcmqhost.Prelude.{◌≡◌, Option, none, some, subst}
use mcmqhost.IoThread.{◌>>=◌}

-- What holds of the state that a step leaves, if it leaves one.
abbrev pub OnSome {ℓ κ} : {A : Type ℓ} → (A → Type κ) → Option A → Type κ
OnSome P none = Unit
OnSome P (some a) = P a

pub OnSome-bind {ℓ κ μ ν} :
    {A : Type ℓ} {B : Type κ} (P : A → Type μ) (Q : B → Type ν) (m : Option A) (f : A → Option B)
    → OnSome P m
    → ((a : A) → P a → OnSome Q (f a))
    → OnSome Q (m >>= f)
OnSome-bind P Q none f p k = tt
OnSome-bind P Q (some a) f p k = k a p

pub OnSome-map {ℓ κ ν} :
    {A : Type ℓ} (P : A → Type κ) (Q : A → Type ν) (m : Option A)
    → OnSome P m
    → ((a : A) → P a → Q a)
    → OnSome Q m
OnSome-map P Q none p k = tt
OnSome-map P Q (some a) p k = k a p

pub OnSome-both {ℓ κ ν} :
    {A : Type ℓ} (P : A → Type κ) (Q : A → Type ν) (m : Option A)
    → OnSome P m
    → OnSome Q m
    → OnSome (λ a. P a × Q a) m
OnSome-both P Q none p q = tt
OnSome-both P Q (some a) p q = (p, q)

-- A property of the state that a step is known to leave.
pub OnSome-at {ℓ κ} :
    {A : Type ℓ} (P : A → Type κ) (m : Option A) {a : A} → OnSome P m → m ≡ some a → P a
OnSome-at P m p e = subst (OnSome P) e p
