-- ===== src/Nvme/Prp/Entries.antt =====
-- The entries that `setup_buffer` writes into one PRP list.
use native.Mathlib.Nat.{zero-add}
use mcmqhost.Prelude.{
  ℕ, zero, suc, ◌+◌, ◌-◌, ◌*◌, ◌≤◌, ◌<◌, ◌≡◌, refl, sym, ap, ◌∙◌, true, false, List, some, arith,
  length, add32, shr, u32_mod, ◌==◌, leb, inl,
}
use mcmqhost.Memory.Space.{Space, write, read, le_bytes, fetch, store, offset_of}
use mcmqhost.Memory.Space.Access.{fetch-store_self, fetch-store_apart, length-le_bytes}
use mcmqhost.Nvme.World.{World, done}
use mcmqhost.Nvme.Prp.{next_list, prp_loop}

abbrev pub page : ℕ
page = 4096

-- The memory with the entries from index `i` on, of `k + 1` pages from `buf` on.
pub entries : ℕ → ℕ → ℕ → ℕ → (ℕ → ℕ) → ℕ → ℕ
entries zero o i buf m = store m (o + i * 8) (le_bytes 8 buf)
entries (suc k) o i buf m = entries k o (i + 1) (buf + page) (store m (o + i * 8) (le_bytes 8 buf))

entries-before :
    (k o i buf : ℕ) (m : ℕ → ℕ) (p n : ℕ)
    → p + n ≤ o + i * 8
    → fetch (entries k o i buf m) p n ≡ fetch m p n
unfolding entries
entries-before zero o i buf m p n h = fetch-store_apart m (o + i * 8) p n (le_bytes 8 buf) (inl h)
entries-before (suc k) o i buf m p n h =
    entries-before k o (i + 1) (buf + page) (store m (o + i * 8) (le_bytes 8 buf)) p n (omega arith)
    ∙ fetch-store_apart m (o + i * 8) p n (le_bytes 8 buf) (inl h)

fetch-entry :
    (m : ℕ → ℕ) (o o' buf buf' : ℕ)
    → o' ≡ o
    → buf' ≡ buf
    → fetch (store m o (le_bytes 8 buf)) o' 8 ≡ le_bytes 8 buf'
unfolding le_bytes
fetch-entry m o o' buf buf' e f = rw (e, f) (fetch-store_self m o (le_bytes 8 buf))

fetch-entries :
    (k o i buf : ℕ) (m : ℕ → ℕ) (j : ℕ)
    → j ≤ k
    → fetch (entries k o i buf m) (o + (i + j) * 8) 8 ≡ le_bytes 8 (buf + j * page)
unfolding entries
fetch-entries zero o i buf m j h =
    fetch-entry m (o + i * 8) (o + (i + j) * 8) buf (buf + j * page) (omega arith) (omega arith)
fetch-entries (suc k) o i buf m zero h =
    entries-before k o (i + 1) (buf + page) (store m (o + i * 8) (le_bytes 8 buf)) (o + (i + 0) * 8)
      8 (omega arith)
    ∙ fetch-entry m (o + i * 8) (o + (i + 0) * 8) buf (buf + 0 * page) (omega arith) (omega arith)
fetch-entries (suc k) o i buf m (suc j) h =
    let at : o + (i + suc j) * 8 ≡ o + (i + 1 + j) * 8 = omega arith in
    let next : buf + suc j * page ≡ buf + page + j * page = omega arith in
    rw (at, next)
      (fetch-entries k o (i + 1) (buf + page) (store m (o + i * 8) (le_bytes 8 buf)) j
        (omega arith))

pub fetch-first :
    (k o buf : ℕ) (m : ℕ → ℕ) (j : ℕ)
    → j ≤ k
    → fetch (entries k o 0 buf m) (o + j * 8) 8 ≡ le_bytes 8 (buf + j * page)
fetch-first k o buf m j h =
    ap (λ x. fetch (entries k o 0 buf m) (o + x * 8) 8) (sym (zero-add j))
    ∙ fetch-entries k o 0 buf m j h

-- The page of a PRP list lies in the mapped memory.
pub record ListPage (s : Space) (prp_list : ℕ) : Type 0 where
  pub above : s.iova_base ≤ prp_list
  pub below : prp_list + page < u32_mod
  pub inside : prp_list - s.iova_base + page ≤ s.map_size

write-in_page :
    (i prp_list : ℕ) (xs : List ℕ) (s : Space)
    → ListPage s prp_list
    → i < 512
    → length xs ≡ 8
    → write (add32 prp_list (i * 8)) xs s
      ≡ some (record s { bytes = store s.bytes (prp_list - s.iova_base + i * 8) xs })
unfolding write
write-in_page i prp_list xs s p h len =
    let at : offset_of (add32 prp_list (i * 8)) s ≡ prp_list - s.iova_base + i * 8 =
      omega (arith, p.above, p.below, p.inside) in
    rw at (ground arith)

pub read-in_page :
    (i prp_list : ℕ) (s : Space)
    → ListPage s prp_list
    → i < 512
    → read (add32 prp_list (i * 8)) 8 s ≡ some (fetch s.bytes (prp_list - s.iova_base + i * 8) 8)
unfolding read
read-in_page i prp_list s p h =
    let at : offset_of (add32 prp_list (i * 8)) s ≡ prp_list - s.iova_base + i * 8 =
      omega (arith, p.above, p.below, p.inside) in
    rw at (ground arith)

-- One round of the loop that needs no new list.
abbrev put_entry : ℕ → ℕ → ℕ → World → World
put_entry i buf prp_list w = record w {
  space = record w.space {
    bytes = store w.space.bytes (prp_list - w.space.iova_base + i * 8) (le_bytes 8 buf);
  };
}

abbrev pub put_entries : ℕ → ℕ → ℕ → ℕ → World → World
put_entries k i buf prp_list w = record w {
  space = record w.space { bytes = entries k (prp_list - w.space.iova_base) i buf w.space.bytes };
}

pub prp_loop-entries :
    (k fuel id prp_list i buf last : ℕ) (w : World)
    → k < fuel
    → w.ctrl_page_size ≡ page
    → ListPage w.space prp_list
    → i + k < 512
    → buf + k * page < u32_mod
    → 0 < last
    → last ≤ page
    → prp_loop fuel id prp_list i buf (k * page + last) w ≡ done tt (put_entries k i buf prp_list w)
unfolding prp_loop next_list entries
prp_loop-entries k zero id prp_list i buf last w f c p small room some_left last_le =
    absurd (omega arith)
prp_loop-entries zero (suc fuel) id prp_list i buf last w f c p small room some_left last_le =
    let same : (i == shr page 3) ≡ false = ground arith in
    rw
      (
        c,
        same,
        write-in_page i prp_list (le_bytes 8 buf) w.space p (omega arith) (length-le_bytes 8 buf),
      )
      (let over : leb (0 * page + last) page ≡ true = ground arith in rw over)
prp_loop-entries (suc k) (suc fuel) id prp_list i buf last w f c p small room some_left last_le =
    let same : (i == shr page 3) ≡ false = ground arith in
    rw
      (
        c,
        same,
        write-in_page i prp_list (le_bytes 8 buf) w.space p (omega arith) (length-le_bytes 8 buf),
      )
      (let more : leb (suc k * page + last) page ≡ false = ground arith in
        let next : add32 buf page ≡ buf + page = omega arith in
        let rest : suc k * page + last - page ≡ k * page + last = omega arith in
        rw (more, next, rest)
          (prp_loop-entries k fuel id prp_list (i + 1) (buf + page) last
            (put_entry i buf prp_list (record w { ctrl_page_size = page })) (omega arith) refl
            (omega arith) (omega arith) (omega arith) some_left last_le))
