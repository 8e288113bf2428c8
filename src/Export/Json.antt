-- ===== src/Export/Json.antt =====
-- What result_exporter.cpp uses of the JSON library, with what reads a value again, and objects that
-- are filled by assignments one after the other.
use Prim.Native.String.{String}
use mathlib.Core.List.{append-nil, append_assoc}
use mcmqhost.Prelude.{
  ℕ, ◌≡◌, refl, ◌∙◌, ap, sym, if◌then◌else◌, List, [], ◌∷◌, ◌++◌, Option, none, some,
}
use mcmqhost.Config.Yaml.{is_named}

-- `J` is `json`, `R` is `double`.
pub record Json (J R : Type 0) : Type 0 where
  -- `json obj;`, `json::object()` and `json::array()`
  pub null : J
  pub object : J
  pub array : J
  -- the conversions of whole numbers, none of which is negative here, and of `double`
  pub uint : ℕ → J
  pub real : R → J
  -- `obj[key] = value`
  pub set : String → J → J → J
  pub push_back : J → J → J
  pub at : String → J → Option J
  pub elements : J → List J
  pub as_uint : J → Option ℕ
  pub as_real : J → Option R

-- What holds of it: of the values that take keys, which `null` is among since `[]` makes an object of
-- it, and of those that take elements.
pub record JsonLaws {J R : Type 0} (json : Json J R) : Type 1 where
  pub Keyed : J → Type 0
  pub Listed : J → Type 0
  pub null-Keyed : Keyed json.null
  pub object-Keyed : Keyed json.object
  pub array-Listed : Listed json.array
  pub set-Keyed : (key : String) (v o : J) → Keyed o → Keyed (json.set key v o)
  pub push_back-Listed : (a v : J) → Listed a → Listed (json.push_back a v)
  pub at-null : (key : String) → json.at key json.null ≡ none
  pub at-object : (key : String) → json.at key json.object ≡ none
  pub at-set :
      (key other : String) (v o : J)
      → Keyed o
      → json.at key (json.set other v o) ≡ (if is_named key other then some v else json.at key o)
  pub elements-array : json.elements json.array ≡ []
  pub elements-push_back :
      (a v : J) → Listed a → json.elements (json.push_back a v) ≡ json.elements a ++ (v ∷ [])
  pub as_uint-uint : (n : ℕ) → json.as_uint (json.uint n) ≡ some n
  pub as_real-real : (x : R) → json.as_real (json.real x) ≡ some x

module _ {J R : Type 0} (json : Json J R) where
  -- The assignments to the keys of an object, in order.
  abbrev pub filled : J → List (String × J) → J
  filled o [] = o
  filled o ((key, v) ∷ rest) = filled (json.set key v o) rest

  -- The `push_back` calls of a loop.
  abbrev pub pushed : J → List J → J
  pushed a [] = a
  pushed a (v ∷ vs) = pushed (json.push_back a v) vs

  abbrev pub array_of : List J → J
  array_of vs = pushed json.array vs

-- The last value that the assignments give the key, after the one that it had.
abbrev pub last_of : {J : Type 0} → String → List (String × J) → Option J → Option J
last_of key [] had = had
last_of key ((other, v) ∷ rest) had = last_of key rest (if is_named key other then some v else had)

module _ {J R : Type 0} (json : Json J R) (laws : JsonLaws json) where
  pub at-filled :
      (key : String) (kvs : List (String × J)) (o : J)
      → laws.Keyed o
      → json.at key (filled json o kvs) ≡ last_of key kvs (json.at key o)
  at-filled key [] o keyed = refl
  at-filled key ((other, v) ∷ rest) o keyed =
      at-filled key rest (json.set other v o) (laws.set-Keyed other v o keyed)
      ∙ ap (last_of key rest) (laws.at-set key other v o keyed)

  pub filled-Keyed :
      (kvs : List (String × J)) (o : J) → laws.Keyed o → laws.Keyed (filled json o kvs)
  filled-Keyed [] o keyed = keyed
  filled-Keyed ((key, v) ∷ rest) o keyed =
      filled-Keyed rest (json.set key v o) (laws.set-Keyed key v o keyed)

  elements-pushed :
      (vs : List J) (a : J)
      → laws.Listed a
      → json.elements (pushed json a vs) ≡ json.elements a ++ vs
  elements-pushed [] a listed = sym (append-nil (json.elements a))
  elements-pushed (v ∷ vs) a listed =
      elements-pushed vs (json.push_back a v) (laws.push_back-Listed a v listed)
      ∙ ap (λ xs. xs ++ vs) (laws.elements-push_back a v listed)
      ∙ append_assoc (json.elements a) (v ∷ []) vs

  pub elements-array_of : (vs : List J) → json.elements (array_of json vs) ≡ vs
  elements-array_of vs =
      elements-pushed vs json.array laws.array-Listed ∙ ap (λ xs. xs ++ vs) laws.elements-array
