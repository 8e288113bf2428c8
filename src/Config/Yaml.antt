-- ===== src/Config/Yaml.antt =====
-- What the readers of config_reader.cpp use of yaml-cpp. `Real` is `double`. The fallback of a
-- conversion is what it gives for a node that is missing or does not convert.
use Prim.Native.String.{String}
use text.Mathlib.Text.{◌==◌}
use mcmqhost.Prelude.{Bool, ℕ, List, [], ◌∷◌, Option, none, some}

pub record Yaml (Node Real : Type 0) : Type 0 where
  pub child : Node → String → Node
  -- the elements of a sequence
  pub elements : Node → List Node
  -- `as<T>(fallback)` at the unsigned types, and at `int` by its 32 bits
  pub as_uint : Node → ℕ → ℕ
  pub as_real : Node → Real → Real
  pub as_string : Node → String → String
  -- `as<uint32_t>()`; `none` is the exception
  pub as_uint32 : Node → Option ℕ
  -- the literals `0.5` and `1.0`
  pub half : Real
  pub one : Real

-- What a reader ends with: `false` where the file cannot be read, or an exception of the library.
pub data Loaded (A : Type 0) : Type 0 where
  bad_file thrown : Loaded A
  loaded : A → Loaded A

abbrev pub or_thrown : {A : Type 0} → Option A → Loaded A
or_thrown none = thrown
or_thrown (some a) = loaded a

-- The test of two texts for equality.
abbrev pub is_named : String → String → Bool
is_named name other = name == other

infixl 5 ◌>>=◌
abbrev pub ◌>>=◌ : {A B : Type 0} → Option A → (A → Option B) → Option B
◌>>=◌ none f = none
◌>>=◌ (some a) f = f a

-- The conversions of a sequence, in order.
abbrev pub prepend : ℕ → Option (List ℕ) → Option (List ℕ)
prepend x none = none
prepend x (some xs) = some (x ∷ xs)

unfoldable pub ids : {Node Real : Type 0} → Yaml Node Real → List Node → Option (List ℕ)
ids yaml [] = some []
ids yaml (n ∷ ns) = elim (yaml.as_uint32 n) [ none ↦ none | some x ↦ prepend x (ids yaml ns) ]
