-- ===== src/Link/Vfio/Dispatch.antt =====
-- The vectors that `PCIeLinkVfio` calls the handler with.
use mcmqhost.Prelude.{
  ℕ, ◌+◌, ◌≡◌, ◌≢◌, refl, ap, ◌∙◌, sym, true, false, Bool-cases, inl, inr, List, [], ◌∷◌, ◌++◌,
  Option, none, some, ◌==◌, if◌then◌else◌, arith,
}
use mcmqhost.Link.Vfio.{
  IrqMap, Wait, interrupted, failed, ready, find, assign, map_irqs, handled, events_loop,
  recv_thread,
}

-- No descriptor is in the list twice.
abbrev pub Absent : ℕ → List ℕ → Type 0
Absent fd [] = Unit {0}
Absent fd (k ∷ ks) = (k ≢ fd) × Absent fd ks

abbrev pub AllDistinct : List ℕ → Type 0
AllDistinct [] = Unit {0}
AllDistinct (fd ∷ fds) = Absent fd fds × AllDistinct fds

-- An index that counts from `i` on, and what stands for none.
abbrev shifted : ℕ → Option ℕ → Option ℕ → Option ℕ
shifted i none otherwise = otherwise
shifted i (some j) otherwise = some (i + j)

-- The first index at which the list has the descriptor.
abbrev pub index_of : ℕ → List ℕ → Option ℕ
index_of fd [] = none
index_of fd (k ∷ ks) = if k == fd then some 0 else shifted 1 (index_of fd ks) none

abbrev pub and_index : Option ℕ → List ℕ → List ℕ
and_index none rest = rest
and_index (some j) rest = j ∷ rest

-- The indices of the events that are on descriptors of the list, in order.
abbrev pub indices : List ℕ → List ℕ → List ℕ
indices fds [] = []
indices fds (event ∷ events) = and_index (index_of event fds) (indices fds events)

-- The events of the rounds until the first one that fails or finds the link stopped.
abbrev pub until_stop : List Wait → List ℕ
until_stop [] = []
until_stop (interrupted ∷ rest) = until_stop rest
until_stop (failed ∷ rest) = []
until_stop (ready true events ∷ rest) = []
until_stop (ready false events ∷ rest) = events ++ until_stop rest

find-assign_self : (fd i : ℕ) (m : IrqMap) → find fd (assign fd i m) ≡ some i
unfolding find assign
find-assign_self fd i [] = ground arith
find-assign_self fd i ((k, j) ∷ m) = elim (Bool-cases (k == fd)) [
  | inl same ↦ rw (same, same) refl
  | inr other ↦ rw (other, other) (find-assign_self fd i m)
]

find-assign_other :
    (fd other i : ℕ) (m : IrqMap) → other ≢ fd → find fd (assign other i m) ≡ find fd m
unfolding find assign
find-assign_other fd other i [] apart = ground arith
find-assign_other fd other i ((k, j) ∷ m) apart = elim (Bool-cases (k == other)) [
  | inl same ↦
      let differs : (k == fd) ≡ false = ground (arith, same, apart) in rw (same, differs) refl
  | inr differs ↦
      rw differs (ap (λ o. if k == fd then some j else o) (find-assign_other fd other i m apart))
]

find-map_irqs_missing :
    (fds : List ℕ) (fd i : ℕ) (m : IrqMap) → Absent fd fds → find fd (map_irqs i fds m) ≡ find fd m
unfolding map_irqs
find-map_irqs_missing [] fd i m absent = refl
find-map_irqs_missing (k ∷ ks) fd i m (apart, absent) =
    find-map_irqs_missing ks fd (i + 1) (assign k i m) absent ∙ find-assign_other fd k i m apart

shifted-again : (i : ℕ) (o d : Option ℕ) → shifted (i + 1) o d ≡ shifted i (shifted 1 o none) d
shifted-again i none d = refl
shifted-again i (some j) d = ap some (omega arith)

find-map_irqs :
    (fds : List ℕ) (fd i : ℕ) (m : IrqMap)
    → AllDistinct fds
    → find fd (map_irqs i fds m) ≡ shifted i (index_of fd fds) (find fd m)
unfolding map_irqs
find-map_irqs [] fd i m distinct = refl
find-map_irqs (k ∷ ks) fd i m (absent, distinct) = elim (Bool-cases (k == fd)) [
  | inl same ↦
      let it : k ≡ fd = ground (arith, same) in
      let here : i + 0 ≡ i = omega arith in
      rw (same, sym it, here)
        (find-map_irqs_missing ks k (i + 1) (assign k i m) absent ∙ find-assign_self k i m)
  | inr differs ↦
      let apart : k ≢ fd = λ e. ground (arith, differs, e) in
      rw differs (
        find-map_irqs ks fd (i + 1) (assign k i m) distinct
        ∙ ap (shifted (i + 1) (index_of fd ks)) (find-assign_other fd k i m apart)
        ∙ shifted-again i (index_of fd ks) (find fd m))
]

shifted-zero : (o : Option ℕ) → shifted 0 o none ≡ o
shifted-zero none = refl
shifted-zero (some j) = ap some (omega arith)

find-nil : (fd : ℕ) → find fd [] ≡ none
unfolding find
find-nil fd = refl

module _ (fds : List ℕ) (distinct : AllDistinct fds) where
  abbrev made : IrqMap
  made = map_irqs 0 fds []

  find-made : (fd : ℕ) → find fd made ≡ index_of fd fds
  find-made fd =
      find-map_irqs fds fd 0 [] distinct
      ∙ ap (shifted 0 (index_of fd fds)) (find-nil fd)
      ∙ shifted-zero (index_of fd fds)

  handled-index : (o : Option ℕ) (rest : List ℕ) → handled true o rest ≡ and_index o rest
  handled-index none rest = refl
  handled-index (some i) rest = refl

  events_loop-indices : (events : List ℕ) → events_loop true made events ≡ indices fds events
  unfolding events_loop
  events_loop-indices [] = refl
  events_loop-indices (event ∷ events) =
      rw (find-made event, events_loop-indices events)
        (handled-index (index_of event fds) (indices fds events))

  and_index-append : (o : Option ℕ) (xs ys : List ℕ) → and_index o xs ++ ys ≡ and_index o (xs ++ ys)
  and_index-append none xs ys = refl
  and_index-append (some j) xs ys = refl

  indices-append : (xs ys : List ℕ) → indices fds xs ++ indices fds ys ≡ indices fds (xs ++ ys)
  indices-append [] ys = refl
  indices-append (x ∷ xs) ys =
      and_index-append (index_of x fds) (indices fds xs) (indices fds ys)
      ∙ ap (and_index (index_of x fds)) (indices-append xs ys)

  -- With descriptors that are all different, the receiving thread calls the handler, in order, with
  -- the index of the descriptor of each event of the rounds until the link stops or `epoll_wait`
  -- fails, and passes over the events on other descriptors.
  pub recv_thread-indices :
      (rounds : List Wait) → recv_thread true made rounds ≡ indices fds (until_stop rounds)
  unfolding recv_thread
  recv_thread-indices [] = refl
  recv_thread-indices (interrupted ∷ rest) = recv_thread-indices rest
  recv_thread-indices (failed ∷ rest) = refl
  recv_thread-indices (ready true events ∷ rest) = refl
  recv_thread-indices (ready false events ∷ rest) =
      rw (events_loop-indices events, recv_thread-indices rest)
        (indices-append events (until_stop rest))
