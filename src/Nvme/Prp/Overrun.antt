-- ===== src/Nvme/Prp/Overrun.antt =====
-- The round of the loop of `setup_buffer` that chains a second PRP list.
use mcmqhost.Prelude.{
  ℕ, zero, suc, ◌+◌, ◌-◌, ◌≤◌, ◌<◌, ◌≡◌, ◌⊎◌, refl, sym, ap, subst, ◌∙◌, true, List, some, arith,
  length, add32, u32_mod, leb, inl, inr,
}
use mcmqhost.Memory.{Table, allocate_pages}
use mcmqhost.Memory.Space.{Space, write, read, le_bytes, fetch, store, offset_of}
use mcmqhost.Memory.Space.Access.{fetch-store_self, fetch-store_apart, length-le_bytes}
use mcmqhost.Nvme.World.{World, done}
use mcmqhost.Nvme.Prp.{next_list, push_prp_list, prp_loop}
use mcmqhost.Nvme.Prp.Buffer.{with_list}
use mcmqhost.Nvme.Prp.Entries.{page, ListPage}

write-mapped :
    (addr : ℕ) (xs : List ℕ) (s : Space)
    → s.iova_base ≤ addr
    → addr < u32_mod
    → length xs ≡ 8
    → addr - s.iova_base + 8 ≤ s.map_size
    → write addr xs s ≡ some (record s { bytes = store s.bytes (addr - s.iova_base) xs })
unfolding write
write-mapped addr xs s above small len inside =
    let at : offset_of addr s ≡ addr - s.iova_base = omega arith in rw at (ground arith)

read-mapped :
    (addr : ℕ) (s : Space)
    → s.iova_base ≤ addr
    → addr < u32_mod
    → addr - s.iova_base + 8 ≤ s.map_size
    → read addr 8 s ≡ some (fetch s.bytes (addr - s.iova_base) 8)
unfolding read
read-mapped addr s above small inside =
    let at : offset_of addr s ≡ addr - s.iova_base = omega arith in rw at (ground arith)

length-fetch : (m : ℕ → ℕ) (o n : ℕ) → length (fetch m o n) ≡ n
unfolding fetch
length-fetch m o zero = omega arith
length-fetch m o (suc n) = omega (arith, length-fetch m (o + 1) n)

fetch-entry_self : (m : ℕ → ℕ) (o v : ℕ) → fetch (store m o (le_bytes 8 v)) o 8 ≡ le_bytes 8 v
unfolding le_bytes
fetch-entry_self m o v = fetch-store_self m o (le_bytes 8 v)

module _ (id fuel buf last prp_list fresh : ℕ) (w : World) {t : Table}
    (paged : w.ctrl_page_size ≡ page) (found : allocate_pages page w.space.table ≡ some (fresh, t))
    (old_page : ListPage w.space prp_list) (new_page : ListPage w.space fresh)
    (more_mapped : fresh - w.space.iova_base + page + 8 ≤ w.space.map_size)
    (apart : (prp_list + page ≤ fresh) ⊎ (fresh + page ≤ prp_list)) (last_le : last ≤ page) where
  abbrev old_at : ℕ
  old_at = prp_list - w.space.iova_base

  abbrev new_at : ℕ
  new_at = fresh - w.space.iova_base

  abbrev last_entry : List ℕ
  last_entry = fetch w.space.bytes (old_at + 4088) 8

  -- The memory with the last entry of the old list in the new one, then with the link to it, then
  -- with the entry of the round.
  abbrev copied : ℕ → ℕ
  copied = store w.space.bytes new_at last_entry

  abbrev chained : ℕ → ℕ
  chained = store copied (old_at + 4088) (le_bytes 8 fresh)

  abbrev overrun : ℕ → ℕ
  overrun = store chained (new_at + 4096) (le_bytes 8 buf)

  abbrev with_bytes : (ℕ → ℕ) → Space
  with_bytes m = record w.space { table = t; bytes = m }

  to_last : add32 prp_list 4088 ≡ prp_list + 4088
  to_last = omega (arith, old_page.below)

  behind : add32 fresh 4096 ≡ fresh + 4096
  behind = omega (arith, new_page.below)

  last_at : prp_list + 4088 - w.space.iova_base ≡ old_at + 4088
  last_at = omega (arith, old_page.above)

  behind_at : fresh + 4096 - w.space.iova_base ≡ new_at + 4096
  behind_at = omega (arith, new_page.above)

  read_last : read (prp_list + 4088) 8 (with_bytes w.space.bytes) ≡ some last_entry
  read_last =
      read-mapped (prp_list + 4088) (with_bytes w.space.bytes) (omega (arith, old_page.above))
        (omega (arith, old_page.below)) (omega (arith, old_page.above, old_page.inside))
      ∙ ap (λ o. some (fetch w.space.bytes o 8)) last_at

  write_first : write fresh last_entry (with_bytes w.space.bytes) ≡ some (with_bytes copied)
  write_first =
      write-mapped fresh last_entry (with_bytes w.space.bytes) new_page.above
        (omega (arith, new_page.below)) (length-fetch w.space.bytes (old_at + 4088) 8)
        (omega (arith, new_page.inside))

  write_link :
      write (prp_list + 4088) (le_bytes 8 fresh) (with_bytes copied) ≡ some (with_bytes chained)
  write_link =
      write-mapped (prp_list + 4088) (le_bytes 8 fresh) (with_bytes copied)
        (omega (arith, old_page.above)) (omega (arith, old_page.below)) (length-le_bytes 8 fresh)
        (omega (arith, old_page.above, old_page.inside))
      ∙ ap (λ o. some (with_bytes (store copied o (le_bytes 8 fresh)))) last_at

  write_behind :
      write (fresh + 4096) (le_bytes 8 buf) (with_bytes chained) ≡ some (with_bytes overrun)
  write_behind =
      write-mapped (fresh + 4096) (le_bytes 8 buf) (with_bytes chained)
        (omega (arith, new_page.above)) (omega (arith, new_page.below)) (length-le_bytes 8 buf)
        (omega (arith, new_page.above, more_mapped))
      ∙ ap (λ o. some (with_bytes (store chained o (le_bytes 8 buf)))) behind_at

  second_at : fresh + 8 - w.space.iova_base ≡ new_at + 8
  second_at = omega (arith, new_page.above)

  read_second : (m : ℕ → ℕ) → read (fresh + 8) 8 (with_bytes m) ≡ some (fetch m (new_at + 8) 8)
  read_second m =
      read-mapped (fresh + 8) (with_bytes m) (omega (arith, new_page.above))
        (omega (arith, new_page.below)) (omega (arith, new_page.above, new_page.inside))
      ∙ ap (λ o. some (fetch m o 8)) second_at

  apart_at : (new_at + 16 ≤ old_at + 4088) ⊎ (old_at + 4096 ≤ new_at + 8)
  apart_at = elim apart [
    | inl before ↦ inr (omega (arith, before, old_page.above))
    | inr after ↦ inl (omega (arith, after, new_page.above))
  ]

  second_kept : fetch overrun (new_at + 8) 8 ≡ fetch w.space.bytes (new_at + 8) 8
  second_kept =
      fetch-store_apart chained (new_at + 4096) (new_at + 8) 8 (le_bytes 8 buf) (inl (omega arith))
      ∙ fetch-store_apart copied (old_at + 4088) (new_at + 8) 8 (le_bytes 8 fresh) (elim apart_at [
        | inl before ↦ inl (omega (arith, before))
        | inr after ↦ inr (omega (arith, after, length-le_bytes 8 fresh))
      ])
      ∙ fetch-store_apart w.space.bytes new_at (new_at + 8) 8 last_entry
          (inr (omega (arith, length-fetch w.space.bytes (old_at + 4088) 8)))

  entry_kept : fetch overrun (old_at + 4088) 8 ≡ le_bytes 8 fresh
  entry_kept =
      fetch-store_apart chained (new_at + 4096) (old_at + 4088) 8 (le_bytes 8 buf) (elim apart [
        | inl before ↦ inl (omega (arith, before, old_page.above))
        | inr after ↦ inr (omega (arith, after, new_page.above, length-le_bytes 8 buf))
      ])
      ∙ fetch-entry_self copied (old_at + 4088) fresh

  fetch-first : fetch copied new_at 8 ≡ last_entry
  fetch-first =
      subst (λ n. fetch copied new_at n ≡ last_entry) (length-fetch w.space.bytes (old_at + 4088) 8)
        (fetch-store_self w.space.bytes new_at last_entry)

  first_at : (new_at + 8 ≤ old_at + 4088) ⊎ (old_at + 4088 + 8 ≤ new_at)
  first_at = elim apart [
    | inl before ↦ inr (omega (arith, before, old_page.above))
    | inr after ↦ inl (omega (arith, after, new_page.above))
  ]

  first_kept : fetch overrun new_at 8 ≡ last_entry
  first_kept =
      fetch-store_apart chained (new_at + 4096) new_at 8 (le_bytes 8 buf) (inl (omega arith))
      ∙ fetch-store_apart copied (old_at + 4088) new_at 8 (le_bytes 8 fresh) (elim first_at [
        | inl before ↦ inl (omega (arith, before))
        | inr after ↦ inr (omega (arith, after, length-le_bytes 8 fresh))
      ])
      ∙ fetch-first

  -- When the loop comes to index 512 with a page of 4096 bytes of the buffer or less left, its list
  -- full, and the memory gives a page for a new list, both lists' pages and 8 bytes behind the new one
  -- mapped and apart, it chains the new list: the first entry of the new list is the old list's last
  -- one, in whose place there is the new list's address. Then it writes the entry of the round just
  -- behind the new list's page, and the second entry of the new list is not written: it reads as it
  -- did before.
  pub prp_loop-overrun :
      (w' : World) × (prp_loop (suc fuel) id prp_list 512 buf last w ≡ done tt w')
      × (read fresh 8 w'.space ≡ read (prp_list + 4088) 8 w.space)
      × (read (prp_list + 4088) 8 w'.space ≡ some (le_bytes 8 fresh))
      × (read (fresh + 4096) 8 w'.space ≡ some (le_bytes 8 buf))
      × (read (fresh + 8) 8 w'.space ≡ read (fresh + 8) 8 w.space)
  unfolding prp_loop next_list push_prp_list read
  prp_loop-overrun =
      let over : leb last page ≡ true = ground arith in
      (
        record (with_list id fresh t w) { space = with_bytes overrun },
        rw (paged, found, to_last, read_last, write_first, write_link, behind, write_behind, over)
            refl,
        read-mapped fresh (with_bytes overrun) new_page.above (omega (arith, new_page.below))
              (omega (arith, new_page.inside))
            ∙ ap some first_kept
            ∙ sym read_last,
        read-mapped (prp_list + 4088) (with_bytes overrun) (omega (arith, old_page.above))
              (omega (arith, old_page.below)) (omega (arith, old_page.above, old_page.inside))
            ∙ ap some (ap (λ o. fetch overrun o 8) last_at ∙ entry_kept),
        read-mapped (fresh + 4096) (with_bytes overrun) (omega (arith, new_page.above))
              (omega (arith, new_page.below)) (omega (arith, new_page.above, more_mapped))
            ∙ ap some (
                ap (λ o. fetch overrun o 8) behind_at
                ∙ fetch-entry_self chained (new_at + 4096) buf),
        read_second overrun ∙ ap some second_kept ∙ sym (read_second w.space.bytes),
      )
