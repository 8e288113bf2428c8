-- ===== src/Link/Access.antt =====
-- The register accesses of pcie_link.h, over what a subclass of `PCIeLink` does, and those of
-- pcie_link_vfio.cpp, over the device's registers.
pub mod Words
use mcmqhost.Prelude.{
  ℕ, zero, suc, ◌+◌, ◌*◌, ◌^◌, List, [], ◌∷◌, Option, none, some, if◌then◌else◌, ◌==◌, u32, length,
  shl, shr,
}
use mcmqhost.Memory.Space.{le_bytes, le_value}

-- `read_from_device` and `write_to_device` of a subclass, over a state `S` of the link and what is
-- behind it. The former gives what it puts into a buffer of the length, with the state that it leaves;
-- `none`: it does not return, or leaves the buffer as it is, which nothing has been written to.
pub record Device {ℓ} (S : Type ℓ) : Type ℓ where
  pub read_from_device : ℕ → ℕ → S → Option (List ℕ × S)
  pub write_to_device : ℕ → List ℕ → S → S

module _ {ℓ} {S : Type ℓ} where
  abbrev pub value_read : Option (List ℕ × S) → Option (ℕ × S)
  value_read none = none
  value_read (some (xs, s)) = some (le_value xs, s)

  module _ (device : Device S) where
    unfoldable pub readl : ℕ → S → Option (ℕ × S)
    readl addr s = value_read (device.read_from_device addr 4 s)

    unfoldable pub writel : ℕ → ℕ → S → S
    writel addr val s = device.write_to_device addr (le_bytes 4 val) s

    unfoldable pub readq : ℕ → S → Option (ℕ × S)
    readq addr s = value_read (device.read_from_device addr 8 s)

    unfoldable pub writeq : ℕ → ℕ → S → S
    writeq addr val s = device.write_to_device addr (le_bytes 8 val) s

-- The accesses of 32 bits to the mapped registers, by the offset from `bar0_base`; a load may change
-- what is behind them.
pub record Bar {ℓ} (S : Type ℓ) : Type ℓ where
  pub load : ℕ → S → ℕ × S
  pub store : ℕ → ℕ → S → S

module _ {ℓ} {S : Type ℓ} (bar : Bar S) where
  -- The word that is put together from two; they do not overlap, so that `|` adds them.
  abbrev pub joined : ℕ → ℕ → ℕ
  joined hi lo = shl (u32 hi) 32 + u32 lo

  -- The two cases of `read_from_device`.
  abbrev pub load_word : ℕ → S → Option (List ℕ × S)
  load_word addr s = let (v, s1) = bar.load addr s in some (le_bytes 4 v, s1)

  abbrev pub load_words : ℕ → S → Option (List ℕ × S)
  load_words addr s =
      let (lo, s1) = bar.load addr s in
      let (hi, s2) = bar.load (addr + 4) s1 in some (le_bytes 8 (joined hi lo), s2)

  unfoldable pub vfio_read : ℕ → ℕ → S → Option (List ℕ × S)
  vfio_read addr buflen s =
      if buflen == 4 then load_word addr s else (if buflen == 8 then load_words addr s else none)

  -- The `switch` of `write_to_device` on the length.
  abbrev pub store_words : ℕ → ℕ → ℕ → S → S
  store_words len addr val s =
      if len == 4
      then bar.store addr val s
      else (if len == 8
          then bar.store (addr + 4) (u32 (shr val 32)) (bar.store addr (u32 val) s)
          else s)

  unfoldable pub vfio_write : ℕ → List ℕ → S → S
  vfio_write addr xs s = store_words (length xs) addr (le_value xs) s

  abbrev pub vfio_device : Device S
  vfio_device = record { read_from_device = vfio_read; write_to_device = vfio_write }
