-- ===== src/IoThread/Requests.antt =====
-- Where the generated requests lie.
use native.Mathlib.Nat.{
  mod-eq_of_lt, div-add-mod', add-mul, mul-le-mul_right, mul-lt-mul_of_pos_right,
  lt_of_mul-lt-mul_right,
}
use mcmqhost.Prelude.{ℕ, ◌+◌, ◌*◌, ◌%◌, ◌/◌, ◌≤◌, ◌<◌, ◌≡◌, refl, sym, arith, u64, u64_mod, dec_lt}
use mcmqhost.IoThread.Synthetic.{
  Workload, Draw, size_sectors, drawn_sector, align_down, generate_request,
}

-- The values that the standard library's distributions give: a uniform integer up to `max_lsa - 1`
-- and a rank from 1 to `max_lsa`.
pub record InRange (w : Workload) (d : Draw) : Type 0 where
  pub some_sectors : 0 < w.max_lsa
  pub uniform_lt : d.uniform_value < w.max_lsa
  pub rank_pos : 0 < d.zipf_rank
  pub rank_le : d.zipf_rank ≤ w.max_lsa

drawn_sector-lt :
    (w : Workload) (d : Draw) → InRange w d → w.max_lsa < u64_mod → drawn_sector w d < w.max_lsa
drawn_sector-lt w d r small = ground arith

align_down-le : (alignment sector : ℕ) → align_down alignment sector ≤ sector
align_down-le alignment sector = ground arith

le_mul : (n k : ℕ) → 0 < k → n ≤ n * k
le_mul n k p = grind arith

mul_mono : (m n k : ℕ) → m < n → m * k ≤ n * k
mul_mono m n k p = grind arith

aligned_sector-lt :
    (w : Workload) (d : Draw)
    → InRange w d
    → 0 < w.sector_size
    → w.max_lsa * w.sector_size < u64_mod
    → align_down w.address_alignment (drawn_sector w d) < w.max_lsa
aligned_sector-lt w d r p small = omega (
  arith,
  align_down-le w.address_alignment (drawn_sector w d),
  drawn_sector-lt w d r (omega (arith, le_mul w.max_lsa w.sector_size p)),
)

suc_mul-le : (m n k : ℕ) → m < n → m * k + k ≤ n * k
suc_mul-le m n k p = grind arith

-- A sector that is rounded down has its whole block in front of a multiple of the alignment.
align_down-room :
    (alignment sector end : ℕ)
    → 0 < alignment
    → end % alignment ≡ 0
    → sector < end
    → align_down alignment sector + alignment ≤ end
align_down-room alignment sector end p whole below =
    let q = sector / alignment in
    let k = end / alignment in
    let low : align_down alignment sector ≡ q * alignment =
      ground (arith, div-add-mod' sector alignment) in
    let high : end ≡ k * alignment = omega (arith, div-add-mod' end alignment, whole) in
    let more : q < k =
      lt_of_mul-lt-mul_right alignment
        (omega (arith, high, low, below, align_down-le alignment sector)) in
    omega (arith, suc_mul-le q k alignment more, low, high)

-- With values in the ranges of the distributions, sectors of at least a byte, and products with the
-- sector size below 2^64: a request begins at the sector that was drawn, rounded down to the
-- alignment, which is one of the namespace. It ends behind the namespace exactly if more sectors were
-- drawn for it than there are from that sector to the namespace's end. It never does where there is an
-- alignment, the namespace is a whole number of aligned blocks, and the request has no more sectors
-- than one.
pub generate_request_end :
    (w : Workload) (d : Draw)
    → InRange w d
    → 0 < w.sector_size
    → w.max_lsa * w.sector_size < u64_mod
    → size_sectors w d * w.sector_size < u64_mod
    → let r = generate_request w d in
      let sector = align_down w.address_alignment (drawn_sector w d) in
      let end = w.max_lsa * w.sector_size in
      (r.pos ≡ sector * w.sector_size)
      × (sector < w.max_lsa)
      × (w.max_lsa < sector + size_sectors w d → end < r.pos + r.size)
      × (end < r.pos + r.size → w.max_lsa < sector + size_sectors w d)
      × (0 < w.address_alignment
          → w.max_lsa % w.address_alignment ≡ 0
          → size_sectors w d ≤ w.address_alignment
          → r.pos + r.size ≤ end)
unfolding generate_request
generate_request_end w d r p small few =
    let sector = align_down w.address_alignment (drawn_sector w d) in
    let below = aligned_sector-lt w d r p small in
    let start : u64 (sector * w.sector_size) ≡ sector * w.sector_size =
      mod-eq_of_lt (omega (arith, mul_mono sector w.max_lsa w.sector_size below)) in
    let count = size_sectors w d in
    let size : u64 (count * w.sector_size) ≡ count * w.sector_size = mod-eq_of_lt few in
    let total : sector * w.sector_size + count * w.sector_size ≡ (sector + count) * w.sector_size =
      sym (add-mul sector count w.sector_size) in
    let within : sector + count ≤ w.max_lsa
        → (sector + count) * w.sector_size ≤ w.max_lsa * w.sector_size =
      mul-le-mul_right w.sector_size in
    rw (start, size, total)
      (
        refl,
        below,
        λ over. mul-lt-mul_of_pos_right over p,
        λ over. elim (dec_lt w.max_lsa (sector + count)) [
          | yes more ↦ more
          | no fits ↦ absurd (omega (arith, over, within (omega (arith, fits))))
        ],
        λ aligned whole one. within (
            omega (
              arith,
              one,
              align_down-room w.address_alignment (drawn_sector w d) w.max_lsa aligned whole
                  (drawn_sector-lt w d r (omega (arith, le_mul w.max_lsa w.sector_size p))),
            )),
      )
