-- ===== src/Export/Values.antt =====
-- Plain JSON values, over which the laws of the JSON interface hold.
use Prim.Native.String.{String}
use mcmqhost.Prelude.{
  ℕ, ◌≡◌, refl, ap, Bool, true, false, if◌then◌else◌, List, [], ◌∷◌, ◌++◌, Option, none, some,
}
use mcmqhost.Config.Yaml.{is_named}
use mcmqhost.Export.Json.{Json, JsonLaws}

mutual
  pub data Value : Type 0 where
    null_value : Value
    number : ℕ → Value
    floating : ℕ → Value
    listed : Values → Value
    keyed : Members → Value

  pub data Values : Type 0 where
    no_values : Values
    value_and : Value → Values → Values

  pub data Members : Type 0 where
    no_members : Members
    member : String → Value → Members → Members

abbrev member_at : String → Members → Option Value
member_at key no_members = none
member_at key (member other v ms) = if is_named key other then some v else member_at key ms

abbrev value_at : String → Value → Option Value
value_at key null_value = none
value_at key (number n) = none
value_at key (floating n) = none
value_at key (listed vs) = none
value_at key (keyed ms) = member_at key ms

abbrev set_value : String → Value → Value → Value
set_value key v null_value = keyed (member key v no_members)
set_value key v (number n) = number n
set_value key v (floating n) = floating n
set_value key v (listed vs) = listed vs
set_value key v (keyed ms) = keyed (member key v ms)

abbrev appended : Values → Value → Values
appended no_values v = value_and v no_values
appended (value_and x xs) v = value_and x (appended xs v)

abbrev push_value : Value → Value → Value
push_value null_value v = null_value
push_value (number n) v = number n
push_value (floating n) v = floating n
push_value (listed vs) v = listed (appended vs v)
push_value (keyed ms) v = keyed ms

abbrev list_of : Values → List Value
list_of no_values = []
list_of (value_and x xs) = x ∷ list_of xs

abbrev values_of : Value → List Value
values_of null_value = []
values_of (number n) = []
values_of (floating n) = []
values_of (listed vs) = list_of vs
values_of (keyed ms) = []

abbrev number_of : Value → Option ℕ
number_of null_value = none
number_of (number n) = some n
number_of (floating n) = none
number_of (listed vs) = none
number_of (keyed ms) = none

abbrev floating_of : Value → Option ℕ
floating_of null_value = none
floating_of (number n) = none
floating_of (floating n) = some n
floating_of (listed vs) = none
floating_of (keyed ms) = none

abbrev pub values : Json Value ℕ
values = record {
  null = null_value;
  object = keyed no_members;
  array = listed no_values;
  uint = number;
  real = floating;
  set = set_value;
  push_back = push_value;
  at = value_at;
  elements = values_of;
  as_uint = number_of;
  as_real = floating_of;
}

abbrev takes_keys : Value → Bool
takes_keys null_value = true
takes_keys (number n) = false
takes_keys (floating n) = false
takes_keys (listed vs) = false
takes_keys (keyed ms) = true

abbrev takes_elements : Value → Bool
takes_elements null_value = false
takes_elements (number n) = false
takes_elements (floating n) = false
takes_elements (listed vs) = true
takes_elements (keyed ms) = false

set_value-takes_keys :
    (key : String) (v o : Value) → takes_keys o ≡ true → takes_keys (set_value key v o) ≡ true
set_value-takes_keys key v null_value h = refl
set_value-takes_keys key v (number n) h = cc
set_value-takes_keys key v (floating n) h = cc
set_value-takes_keys key v (listed vs) h = cc
set_value-takes_keys key v (keyed ms) h = refl

push_value-takes_elements :
    (a v : Value) → takes_elements a ≡ true → takes_elements (push_value a v) ≡ true
push_value-takes_elements null_value v h = cc
push_value-takes_elements (number n) v h = cc
push_value-takes_elements (floating n) v h = cc
push_value-takes_elements (listed vs) v h = refl
push_value-takes_elements (keyed ms) v h = cc

value_at-set_value :
    (key other : String) (v o : Value)
    → takes_keys o ≡ true
    → value_at key (set_value other v o) ≡ (if is_named key other then some v else value_at key o)
value_at-set_value key other v null_value h = refl
value_at-set_value key other v (number n) h = cc
value_at-set_value key other v (floating n) h = cc
value_at-set_value key other v (listed vs) h = cc
value_at-set_value key other v (keyed ms) h = refl

list_of-appended : (vs : Values) (v : Value) → list_of (appended vs v) ≡ list_of vs ++ (v ∷ [])
list_of-appended no_values v = refl
list_of-appended (value_and x xs) v = ap (λ ys. x ∷ ys) (list_of-appended xs v)

values_of-push_value :
    (a v : Value) → takes_elements a ≡ true → values_of (push_value a v) ≡ values_of a ++ (v ∷ [])
values_of-push_value null_value v h = cc
values_of-push_value (number n) v h = cc
values_of-push_value (floating n) v h = cc
values_of-push_value (listed vs) v h = list_of-appended vs v
values_of-push_value (keyed ms) v h = cc

pub values_lawful : JsonLaws values
values_lawful = record {
  Keyed = λ o. takes_keys o ≡ true;
  Listed = λ a. takes_elements a ≡ true;
  null-Keyed = refl;
  object-Keyed = refl;
  array-Listed = refl;
  set-Keyed = set_value-takes_keys;
  push_back-Listed = push_value-takes_elements;
  at-null = λ key. refl;
  at-object = λ key. refl;
  at-set = value_at-set_value;
  elements-array = refl;
  elements-push_back = values_of-push_value;
  as_uint-uint = λ n. refl;
  as_real-real = λ x. refl;
}
