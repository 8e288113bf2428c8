-- ===== src/IoThread/Histogram/Balance.antt =====
-- Who owns which open histogram, and what each operation does to it.
use mcmqhost.Prelude.{
  ℕ, zero, suc, ◌+◌, ◌≡◌, refl, sym, ap, ◌∙◌, true, false, ◌||◌, Bool-cases, inl, inr, List, [],
  ◌∷◌, Option, none, some, ◌==◌, one_if, arith,
}
use mcmqhost.IoThread.{◌>>=◌}
use mcmqhost.IoThread.Histogram.{
  Library, Histogram, owner, construct, copy, destroy, Program, picked,
}

abbrev pub owns : ℕ → Option ℕ → ℕ
owns k none = 0
owns k (some handle) = one_if (handle == k)

-- How many objects have the handle.
abbrev pub owners : ℕ → List Histogram → ℕ
owners k [] = 0
owners k (h ∷ hs) = owns k h.histogram + owners k hs

pub bind-some :
    {A B : Type 0} (m : Option A) (f : A → Option B) (b : B)
    → (m >>= f) ≡ some b
    → (a : A) × (m ≡ some a) × (f a ≡ some b)
bind-some none f b e = cc
bind-some (some a) f b e = (a, refl, e)

pub picked-owners :
    (i : ℕ) (hs : List Histogram) (h : Histogram) (rest : List Histogram)
    → picked i hs ≡ some (h, rest)
    → (k : ℕ) → owners k hs ≡ owns k h.histogram + owners k rest
picked-owners i [] h rest e k = cc
picked-owners zero (x ∷ hs) h rest e k =
    let it : some (x, hs) ≡ some (h, rest) = e in
    let first : x ≡ h = cc in let others : hs ≡ rest = cc in rw (first, others) refl
picked-owners (suc i) (x ∷ hs) h rest e k =
    let ((found, left), there, is) =
      bind-some (picked i hs) (λ (f, r). some (f, x ∷ r)) (h, rest) e in
    let it : some (found, x ∷ left) ≡ some (h, rest) = is in
    let first : found ≡ h = cc in
    let others : x ∷ left ≡ rest = cc in
    rw (sym first, sym others) (omega (arith, picked-owners i hs found left there k))

pub some-eq : {A : Type 0} {a b : A} → some a ≡ some b → a ≡ b
some-eq e = cc

module _ {S : Type 0} (lib : Library S) where
  -- Each open histogram has exactly one owner, and no object has one that is not open.
  abbrev pub Balanced : Program S → Type 0
  Balanced p = (k : ℕ) → owners k p.objects ≡ one_if (lib.is_open p.library k)

  -- A new object with a handle that was not open, and is now.
  pub record Added (s s' : S) (h : Histogram) : Type 0 where
    pub handle : ℕ
    pub has : h.histogram ≡ some handle
    pub new : lib.is_open s handle ≡ false
    pub opened : (k : ℕ) → lib.is_open s' k ≡ (handle == k) || lib.is_open s k

  made-Added :
      (max_value given handle : ℕ) (s s1 s2 : S) (h : Histogram) (s' : S)
      → lib.hdr_init given s ≡ some (handle, s1)
      → ((k : ℕ) → lib.is_open s2 k ≡ lib.is_open s1 k)
      → ◌≡◌ {A = Histogram × S} (owner max_value handle, s2) (h, s')
      → Added s s' h
  made-Added max_value given handle s s1 s2 h s' got same is = record {
    handle = handle;
    has = ap (λ (r : Histogram × S). r.0.histogram) (sym is);
    new = lib.hdr_init-new given handle s s1 got;
    opened = λ k.
        ap (λ (r : Histogram × S). lib.is_open r.1 k) (sym is)
        ∙ same k
        ∙ lib.is_open-hdr_init given handle s s1 k got;
  }

  pub construct-Added :
      (max_value : ℕ) (s s' : S) (h : Histogram)
      → construct lib max_value s ≡ some (h, s')
      → Added s s' h
  unfolding construct
  construct-Added max_value s s' h e =
      let ((handle, s1), got, is) = bind-some (lib.hdr_init max_value s) _ (h, s') e in
      made-Added max_value max_value handle s s1 s1 h s' got (λ k. refl) (some-eq is)

  pub copy-Added :
      (other : Histogram) (s s' : S) (h : Histogram)
      → copy lib other s ≡ some (h, s')
      → Added s s' h
  unfolding copy
  copy-Added other s s' h e =
      let ((handle, s1), got, rest) = bind-some (lib.hdr_init other.max_value s) _ (h, s') e in
      let (source, there, is) = bind-some other.histogram _ (h, s') rest in
      elim (Bool-cases (lib.is_open s1 source)) [
        | inl there ↦
            made-Added other.max_value other.max_value handle s s1 (lib.hdr_add handle source s1) h
              s' got (λ k. lib.is_open-hdr_add handle source s1 k) (some-eq (rw there at is))
        | inr gone ↦
            let no_copy : ◌≡◌ {A = Option (Histogram × S)} none (some (h, s')) = rw gone at is in
            absurd cc
      ]

  pub Added-Balanced :
      (p : Program S) (h : Histogram) (s : S)
      → Added p.library s h
      → Balanced p
      → Balanced (record { objects = h ∷ p.objects; library = s })
  Added-Balanced p h s a b k = rw (a.has, a.opened k) (ground (arith, b k, b a.handle, a.new))

  pub destroyed-Balanced :
      (p : Program S) (h : Histogram) (rest : List Histogram) (s : S) (handle : Option ℕ)
      → h.histogram ≡ handle
      → ((k : ℕ) → owners k p.objects ≡ owns k h.histogram + owners k rest)
      → destroy lib h p.library ≡ some s
      → Balanced p
      → Balanced (record { objects = rest; library = s })
  unfolding destroy
  destroyed-Balanced p h rest s none is split e b k =
      let it : some p.library ≡ some s = rw is at e in
      let here = rw is at (split k) in rw (sym (some-eq it)) (omega (arith, here, b k))
  destroyed-Balanced p h rest s (some handle) is split e b k =
      elim (Bool-cases (lib.is_open p.library handle)) [
        | inl there ↦
            let it : some (lib.hdr_close handle p.library) ≡ some s = rw (is, there) at e in
            let here = rw is at (split k) in
            rw (sym (some-eq it), lib.is_open-hdr_close handle p.library k there)
              (ground (arith, here, b k, b handle, there))
        | inr gone ↦ let it : ◌≡◌ {A = Option S} none (some s) = rw (is, gone) at e in absurd cc
      ]

  pub destroy-there :
      (p : Program S) (h : Histogram) (rest : List Histogram) (handle : Option ℕ)
      → h.histogram ≡ handle
      → ((k : ℕ) → owners k p.objects ≡ owns k h.histogram + owners k rest)
      → Balanced p
      → (s : S) × (destroy lib h p.library ≡ some s)
  unfolding destroy
  destroy-there p h rest none is split b = (p.library, rw is refl)
  destroy-there p h rest (some handle) is split b =
      let here = rw is at (split handle) in
      let there : lib.is_open p.library handle ≡ true = ground (arith, here, b handle) in
      (lib.hdr_close handle p.library, rw (is, there) refl)
