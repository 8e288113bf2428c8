-- ===== src/Nvme/Owned/Pages.antt =====
-- Blocks that are taken and given back, as numbers of holders of an address.
use mcmqhost.Prelude.{one_if, ℕ, ◌+◌, ◌≤◌, ◌<◌, ◌≡◌, subst, some, arith, u32_mod, u64_mod}
use mcmqhost.Memory.{Table, allocate, free}
use mcmqhost.Memory.Cover.{covers, within}
use mcmqhost.Memory.Laws.{IsValid, Allocated, allocate-Allocated, Released, free-Released}
use mcmqhost.Memory.Reuse.{Apart-covers}

-- Whether the address is in the block, and whether it is free, as numbers.
abbrev pub block : ℕ → ℕ → ℕ → ℕ
block addr len a = one_if (within addr len a)

abbrev pub free_at : Table → ℕ → ℕ
free_at t a = one_if (covers t.holes a)

pub allocate-block :
    (len align : ℕ) (t : Table) {addr : ℕ} {t' : Table}
    → 0 < align
    → 0 < len
    → len + align ≤ u64_mod
    → IsValid t
    → allocate len align t ≡ some (addr, t')
    → IsValid t'
      × (addr + len < u32_mod)
      × ((a : ℕ) → block addr len a + free_at t' a ≤ free_at t a)
allocate-block len align t {addr} {t'} pos some_bytes small v e =
    let (f, v') =
      subst (Allocated len align t) e (allocate-Allocated len align pos some_bytes t v small) in
    (v', f.end_lt, λ a. ground (arith, f.was_free a, f.now_free a, f.pad_le))

pub free-block :
    (addr len : ℕ) (t : Table) {t' : Table}
    → 0 < len
    → addr + len < u32_mod
    → IsValid t
    → ((a : ℕ) → block addr len a + free_at t a ≤ 1)
    → free addr len t ≡ some t'
    → IsValid t' × ((a : ℕ) → free_at t' a ≡ block addr len a + free_at t a)
free-block addr len t {t'} some_bytes in_range v once e =
    let r = subst (Released addr len t) e (
      free-Released addr len t some_bytes in_range v
        (Apart-covers addr len 0 t.holes some_bytes v.order (λ a w. ground (arith, once a)))) in
    (r.valid, λ a. ground (arith, r.now_free a, once a))
