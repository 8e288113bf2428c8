-- ===== src/Link/Access/Words.antt =====
-- The accesses of 64 bits over VFIO.
use mcmqhost.Prelude.{
  ℕ, ◌+◌, ◌*◌, ◌/◌, ◌%◌, ◌^◌, ◌<◌, ◌≡◌, ◌≤◌, ◌⊎◌, inl, refl, ap, ◌∙◌, some, arith, u32, u32_mod,
  u64_mod, shr,
}
use mcmqhost.Memory.Space.{le_bytes, le_value}
use mcmqhost.Memory.Space.Access.{length-le_bytes, le_value-le_bytes}
use mcmqhost.IoThread.{◌>>=◌}
use mcmqhost.Link.Access.{
  Bar, vfio_device, vfio_read, vfio_write, joined, readl, writel, readq, writeq,
}

module _ {ℓ} {S : Type ℓ} (bar : Bar S) where
  writel_value :
      (addr v : ℕ) (s : S) → v < u32_mod → writel (vfio_device bar) addr v s ≡ bar.store addr v s
  unfolding writel vfio_write
  writel_value addr v s small = rw (length-le_bytes 4 v, le_value-le_bytes 4 v small) refl

  writeq_value :
      (addr v : ℕ) (s : S)
      → v < u64_mod
      → writeq (vfio_device bar) addr v s
        ≡ bar.store (addr + 4) (u32 (shr v 32)) (bar.store addr (u32 v) s)
  unfolding writeq vfio_write
  writeq_value addr v s small = rw (length-le_bytes 8 v, le_value-le_bytes 8 v small) refl

  value-joined : (hi lo : ℕ) → le_value (le_bytes 8 (joined bar hi lo)) ≡ u32 hi * 2 ^ 32 + u32 lo
  value-joined hi lo = le_value-le_bytes 8 (joined bar hi lo) (omega arith)

  readl_value :
      (addr : ℕ) (s : S)
      → (bar.load addr s).0 < u32_mod
      → readl (vfio_device bar) addr s ≡ some (bar.load addr s)
  unfolding readl vfio_read
  readl_value addr s small = rw (le_value-le_bytes 4 (bar.load addr s).0 small) refl

  readq_value :
      (addr : ℕ) (s : S)
      → readq (vfio_device bar) addr s ≡ (
          let (lo, s1) = bar.load addr s in
          let (hi, s2) = bar.load (addr + 4) s1 in some (u32 hi * 2 ^ 32 + u32 lo, s2))
  unfolding readq vfio_read
  readq_value addr s =
      let (lo, s1) = bar.load addr s in
      let (hi, s2) = bar.load (addr + 4) s1 in ap (λ v. some (v, s2)) (value-joined hi lo)

  -- Over registers whose loads give 32 bits: `writeq` over VFIO is `writel` of the low word and then,
  -- 4 bytes on, of the high word; and `readq` is `readl` of the two, put together.
  pub vfio-words :
      ((addr : ℕ) (s : S) → (bar.load addr s).0 < u32_mod)
      → (addr v : ℕ) (s : S) → v < u64_mod
      → (writeq (vfio_device bar) addr v s
          ≡ writel
              (vfio_device bar)
              (addr + 4)
              (v / 2 ^ 32)
              (writel (vfio_device bar) addr (v % 2 ^ 32) s))
        × (readq (vfio_device bar) addr s ≡ (
            readl (vfio_device bar) addr s >>= λ (lo, s1).
            readl (vfio_device bar) (addr + 4) s1 >>= λ (hi, s2). some (hi * 2 ^ 32 + lo, s2)))
  vfio-words loads addr v s small =
      let low = writel_value addr (v % 2 ^ 32) s (omega arith) in
      let high =
        writel_value (addr + 4) (v / 2 ^ 32) (bar.store addr (v % 2 ^ 32) s)
          (omega (arith, small)) in
      let first = readl_value addr s (loads addr s) in
      let second =
        readl_value (addr + 4) (bar.load addr s).1 (loads (addr + 4) (bar.load addr s).1) in
      let high_word : u32 (v / 2 ^ 32) ≡ v / 2 ^ 32 = omega (arith, small) in
      let low_load : u32 (bar.load addr s).0 ≡ (bar.load addr s).0 = omega (arith, loads addr s) in
      let high_load : u32 (bar.load (addr + 4) (bar.load addr s).1).0
          ≡ (bar.load (addr + 4) (bar.load addr s).1).0 =
        omega (arith, loads (addr + 4) (bar.load addr s).1) in
      (
        rw (writeq_value addr v s small, low, high, high_word) refl,
        rw (readq_value addr s, first, second, low_load, high_load) refl,
      )

-- Registers that hold what is written to them: a load gives the word that was stored at its address,
-- and a store leaves the words that do not overlap with it.
pub record Registers {ℓ} {S : Type ℓ} (bar : Bar S) : Type ℓ where
  pub load-store_self :
      (addr v : ℕ) (s : S)
      → v < u32_mod
      → bar.load addr (bar.store addr v s) ≡ (v, bar.store addr v s)
  pub load-store_other :
      (addr other v : ℕ) (s : S)
      → (addr + 4 ≤ other) ⊎ (other + 4 ≤ addr)
      → bar.load addr (bar.store other v s) ≡ ((bar.load addr s).0, bar.store other v s)

-- Over registers that hold what is written to them, where stores to other words leave a word alone:
-- `readq` over VFIO gives back the value of 64 bits that `writeq` wrote to the address, and changes
-- nothing.
pub readq-writeq {ℓ} :
    {S : Type ℓ} (bar : Bar S)
    → Registers bar
    → (addr v : ℕ) (s : S) → v < u64_mod
    → readq (vfio_device bar) addr (writeq (vfio_device bar) addr v s)
      ≡ some (v, writeq (vfio_device bar) addr v s)
readq-writeq bar registers addr v s small =
    let hi = u32 (shr v 32) in
    let lo = u32 v in
    let s1 = bar.store addr lo s in
    let s2 = bar.store (addr + 4) hi s1 in
    let low : bar.load addr s2 ≡ (lo, s2) =
      registers.load-store_other addr (addr + 4) hi s1 (inl (omega arith))
      ∙ ap (λ p. (p.0, s2)) (registers.load-store_self addr lo s (omega arith)) in
    let high : bar.load (addr + 4) s2 ≡ (hi, s2) =
      registers.load-store_self (addr + 4) hi s1 (omega arith) in
    let whole : u32 hi * 2 ^ 32 + u32 lo ≡ v = omega (arith, small) in
    rw (writeq_value bar addr v s small, readq_value bar addr s2, low, high, whole) refl
