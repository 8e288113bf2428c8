-- ===== src/IoThread/Histogram.antt =====
-- `Histogram` of histogram.h: the owner of a histogram of the HdrHistogram library, over an interface
-- of that library.
pub mod Balance
pub mod Ownership
mod Tests
use mcmqhost.Prelude.{
  ℕ, zero, suc, ◌+◌, Bool, true, false, List, [], ◌∷◌, ◌++◌, Option, none, some, ◌==◌, ◌||◌, ◌&&◌,
  not, ◌≡◌, if◌then◌else◌,
}
use mcmqhost.IoThread.{◌>>=◌}

-- What histogram.h uses of the library, in a state of it, with the handles that are open: `init`
-- opens a new one, or refuses the largest value; `add` opens and closes none; `close` closes one.
pub record Library (S : Type 0) : Type 0 where
  pub hdr_init : ℕ → S → Option (ℕ × S)
  pub hdr_add : ℕ → ℕ → S → S
  pub hdr_close : ℕ → S → S
  pub is_open : S → ℕ → Bool
  pub hdr_init-new :
      (max_value handle : ℕ) (s s' : S)
      → hdr_init max_value s ≡ some (handle, s')
      → is_open s handle ≡ false
  pub is_open-hdr_init :
      (max_value handle : ℕ) (s s' : S) (k : ℕ)
      → hdr_init max_value s ≡ some (handle, s')
      → is_open s' k ≡ (handle == k) || is_open s k
  pub is_open-hdr_add :
      (handle other : ℕ) (s : S) (k : ℕ) → is_open (hdr_add handle other s) k ≡ is_open s k
  pub is_open-hdr_close :
      (handle : ℕ) (s : S) (k : ℕ)
      → is_open s handle ≡ true
      → is_open (hdr_close handle s) k ≡ is_open s k && not (handle == k)

-- The null pointer is `none`.
pub record Histogram : Type 0 where
  pub max_value : ℕ
  pub histogram : Option ℕ

abbrev pub owner : ℕ → ℕ → Histogram
owner max_value handle = record { max_value = max_value; histogram = some handle }

-- The move constructor: the new one, and what is left of the other.
unfoldable pub move : Histogram → Histogram × Histogram
move other = (
  record { max_value = other.max_value; histogram = other.histogram },
  record other { histogram = none },
)

-- The objects that a program has, with the library's state.
pub record Program (S : Type 0) : Type 0 where
  pub objects : List Histogram
  pub library : S

-- What it may do with them; the number of the last three is the object's place.
pub data Operation : Type 0 where
  construct_of copy_of move_of destroy_of : ℕ → Operation

-- The object at the place, with the others around it.
abbrev pub picked : ℕ → List Histogram → Option (Histogram × List Histogram)
picked i [] = none
picked zero (h ∷ hs) = some (h, hs)
picked (suc i) (h ∷ hs) = picked i hs >>= λ (found, rest). some (found, h ∷ rest)

module _ {S : Type 0} (lib : Library S) where
  -- `none`: `hdr_init` refuses, which the code does not notice, and the pointer is not set.
  unfoldable pub construct : ℕ → S → Option (Histogram × S)
  construct max_value s = do
    (handle, s') ← lib.hdr_init max_value s
    some (owner max_value handle, s')

  -- The histogram with the counts of another.
  abbrev pub added : Histogram → ℕ → ℕ → S → Option (Histogram × S)
  added h handle from s = if lib.is_open s from then some (h, lib.hdr_add handle from s) else none

  -- The copy constructor. `none`: also `hdr_add` from a null pointer or a closed histogram.
  unfoldable pub copy : Histogram → S → Option (Histogram × S)
  copy other s = do
    (handle, s') ← lib.hdr_init other.max_value s
    from ← other.histogram
    added (owner other.max_value handle) handle from s'

  abbrev pub close_handle : Option ℕ → S → Option S
  close_handle none s = some s
  close_handle (some handle) s =
      if lib.is_open s handle then some (lib.hdr_close handle s) else none

  -- The destructor. `none`: it closes a histogram that is not open.
  unfoldable pub destroy : Histogram → S → Option S
  destroy h s = close_handle h.histogram s

  -- `none`: there is no such object, or the operation fails.
  unfoldable pub step : Operation → Program S → Option (Program S)
  unfolding construct copy move destroy
  step (construct_of max_value) p = do
    (h, s) ← construct max_value p.library
    some (record { objects = h ∷ p.objects; library = s })
  step (copy_of i) p = do
    (other, rest) ← picked i p.objects
    (h, s) ← copy other p.library
    some (record { objects = h ∷ p.objects; library = s })
  step (move_of i) p = do
    (other, rest) ← picked i p.objects
    let (h, emptied) = move other
    some (record p { objects = h ∷ emptied ∷ rest })
  step (destroy_of i) p = do
    (h, rest) ← picked i p.objects
    s ← destroy h p.library
    some (record { objects = rest; library = s })

  unfoldable pub run : List Operation → Program S → Option (Program S)
  unfolding step
  run [] p = some p
  run (o ∷ os) p = step o p >>= run os
