-- ===== src/IoThread/Histogram/Tests.antt =====
-- Histograms that are copied and moved.
use mcmqhost.Prelude.{
  ℕ, ◌+◌, ◌≡◌, refl, sym, ap, ◌∙◌, Bool, false, ◌==◌, ◌||◌, ◌&&◌, not, List, [], ◌∷◌, some, ltb,
  arith,
}
use mcmqhost.IoThread.Histogram.{
  Library, Histogram, Program, Operation, construct_of, copy_of, move_of, destroy_of, step, run,
  construct, copy, move, destroy,
}
use mcmqhost.IoThread.Histogram.Balance.{Balanced, some-eq}
use mcmqhost.IoThread.Histogram.Ownership.{run-Balanced}

-- The next handle, with which of the ones below are open.
abbrev Handles : Type 0
Handles = ℕ × (ℕ → Bool)

abbrev open_in : Handles → ℕ → Bool
open_in s k = ltb k s.0 && s.1 k

abbrev with_next : Handles → ℕ × Handles
with_next s = (s.0, (s.0 + 1, λ k. (s.0 == k) || open_in s k))

next-new :
    (handle : ℕ) (s s' : Handles)
    → ◌≡◌ {A = ℕ × Handles} (with_next s) (handle, s')
    → open_in s handle ≡ false
next-new handle s s' e =
    let same : s.0 ≡ handle = ap (λ (r : ℕ × Handles). r.0) e in rw (sym same) (ground arith)

open_in-with_next :
    (handle : ℕ) (s s' : Handles) (k : ℕ)
    → ◌≡◌ {A = ℕ × Handles} (with_next s) (handle, s')
    → open_in s' k ≡ (handle == k) || open_in s k
open_in-with_next handle s s' k e =
    let here : open_in (with_next s).1 k ≡ (s.0 == k) || open_in s k = ground arith in
    ap (λ (r : ℕ × Handles). open_in r.1 k) (sym e)
    ∙ here
    ∙ ap (λ (r : ℕ × Handles). (r.0 == k) || open_in s k) e

open_in-close :
    (handle : ℕ) (s : Handles) (k : ℕ)
    → ltb k s.0 && (s.1 k && not (handle == k)) ≡ open_in s k && not (handle == k)
open_in-close handle s k = ground arith

abbrev handles : Library Handles
handles = record {
  hdr_init = λ max_value s. some (with_next s);
  hdr_add = λ handle other s. s;
  hdr_close = λ handle s. (s.0, λ k. s.1 k && not (handle == k));
  is_open = open_in;
  hdr_init-new = λ max_value handle s s' e. next-new handle s s' (some-eq e);
  is_open-hdr_init = λ max_value handle s s' k e. open_in-with_next handle s s' k (some-eq e);
  is_open-hdr_add = λ handle other s k. refl;
  is_open-hdr_close = λ handle s k open_now. open_in-close handle s k;
}

-- One histogram is copied, the copy is moved, and the empty object goes.
abbrev operations : List Operation
operations = construct_of 100 ∷ copy_of 0 ∷ move_of 0 ∷ destroy_of 1 ∷ []

abbrev nothing_open : Handles
nothing_open = (5, λ k. false)

abbrev two_objects : List Histogram
two_objects =
    record { max_value = 100; histogram = some 6 }
    ∷ record { max_value = 100; histogram = some 5 }
    ∷ []

abbrev at_end : Program Handles
at_end = record { objects = two_objects; library = (with_next (with_next nothing_open).1).1 }

all_run : run handles operations (record { objects = []; library = nothing_open }) ≡ some at_end
unfolding run step construct copy move destroy
all_run = refl

run-Balanced_example :
    Balanced handles at_end
    × ((p' : Program Handles) × (step handles (destroy_of 1) at_end ≡ some p'))
run-Balanced_example =
    run-Balanced handles nothing_open operations at_end 1 (λ k. ground arith) all_run (omega arith)
