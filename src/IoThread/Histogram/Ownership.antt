-- ===== src/IoThread/Histogram/Ownership.antt =====
-- Open histograms and their owners, along the operations of a program.
use mcmqhost.Prelude.{
  ℕ, zero, suc, ◌<◌, ◌≡◌, refl, subst, false, List, [], ◌∷◌, some, length, arith,
}
use mcmqhost.IoThread.Histogram.{
  Library, Histogram, construct, copy, move, destroy, Program, Operation, construct_of, copy_of,
  move_of, destroy_of, picked, step, run,
}
use mcmqhost.IoThread.Histogram.Balance.{
  Balanced, bind-some, some-eq, picked-owners, construct-Added, copy-Added, Added-Balanced,
  destroyed-Balanced, destroy-there,
}

picked-there :
    (i : ℕ) (hs : List Histogram)
    → i < length hs
    → (h : Histogram) × (rest : List Histogram) × (picked i hs ≡ some (h, rest))
picked-there i [] inside = absurd (omega (arith, inside))
picked-there zero (h ∷ hs) inside = (h, hs, refl)
picked-there (suc i) (x ∷ hs) inside =
    let (h, rest, there) = picked-there i hs (omega (arith, inside)) in (h, x ∷ rest, rw there refl)

module _ {S : Type 0} (lib : Library S) where
  moved-Balanced :
      (p : Program S) (i : ℕ) (other : Histogram) (rest : List Histogram)
      → picked i p.objects ≡ some (other, rest)
      → Balanced lib p
      → Balanced lib (record p { objects = (move other).0 ∷ (move other).1 ∷ rest })
  unfolding move
  moved-Balanced p i other rest there b k =
      omega (arith, b k, picked-owners i p.objects other rest there k)

  step-Balanced :
      (o : Operation) (p p' : Program S) → step lib o p ≡ some p' → Balanced lib p → Balanced lib p'
  unfolding step
  step-Balanced (construct_of max_value) p p' e b =
      let ((h, s), made, is) = bind-some (construct lib max_value p.library) _ p' e in
      subst (Balanced lib) (some-eq is)
        (Added-Balanced lib p h s (construct-Added lib max_value p.library s h made) b)
  step-Balanced (copy_of i) p p' e b =
      let ((other, rest), there, copied) = bind-some (picked i p.objects) _ p' e in
      let ((h, s), made, is) = bind-some (copy lib other p.library) _ p' copied in
      subst (Balanced lib) (some-eq is)
        (Added-Balanced lib p h s (copy-Added lib other p.library s h made) b)
  step-Balanced (move_of i) p p' e b =
      let ((other, rest), there, is) = bind-some (picked i p.objects) _ p' e in
      subst (Balanced lib) (some-eq is) (moved-Balanced p i other rest there b)
  step-Balanced (destroy_of i) p p' e b =
      let ((h, rest), there, closing) = bind-some (picked i p.objects) _ p' e in
      let (s, destroyed, is) = bind-some (destroy lib h p.library) _ p' closing in
      subst (Balanced lib) (some-eq is) (
        destroyed-Balanced lib p h rest s h.histogram refl (picked-owners i p.objects h rest there)
          destroyed b)

  Balanced-run :
      (os : List Operation) (p p' : Program S)
      → run lib os p ≡ some p'
      → Balanced lib p
      → Balanced lib p'
  unfolding run
  Balanced-run [] p p' e b = subst (Balanced lib) (some-eq e) b
  Balanced-run (o ∷ os) p p' e b =
      let (p1, first, rest) = bind-some (step lib o p) (run lib os) p' e in
      Balanced-run os p1 p' rest (step-Balanced o p p1 first b)

  -- Over a library in which nothing is open: a program that begins with no object and constructs,
  -- copies, moves and destroys objects in any order, as long as no operation fails, leaves each open
  -- histogram with exactly one owner and no object with one that is not open, so that nothing stays
  -- open without an object to close it. And the destruction of any object that is there succeeds: no
  -- histogram is closed twice.
  pub run-Balanced :
      (s : S) (os : List Operation) (p : Program S) (i : ℕ)
      → ((k : ℕ) → lib.is_open s k ≡ false)
      → run lib os (record { objects = []; library = s }) ≡ some p
      → i < length p.objects
      → Balanced lib p × ((p' : Program S) × (step lib (destroy_of i) p ≡ some p'))
  unfolding step
  run-Balanced s os p i bare ran inside =
      let b =
        Balanced-run os (record { objects = []; library = s }) p ran
          (λ k. (let closed = bare k in rw closed refl)) in
      let (h, rest, there) = picked-there i p.objects inside in
      let (s', destroyed) =
        destroy-there lib p h rest h.histogram refl (picked-owners i p.objects h rest there) b in
      (b, (record { objects = rest; library = s' }, rw (there, destroyed) refl))
