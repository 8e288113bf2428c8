-- ===== src/Nvme/Prp/Buffer.antt =====
-- What `setup_buffer` leaves for the device to find.
use mcmqhost.Prelude.{
  ℕ, ◌+◌, ◌-◌, ◌*◌, ◌%◌, ◌/◌, ◌≤◌, ◌<◌, ◌≡◌, refl, ap, ◌∙◌, true, false, [], ◌∷◌, ◌++◌, some, arith,
  add32, add64, sub32, sub64, u32, u32_mod, leb, ltb, if◌then◌else◌,
}
use mcmqhost.Memory.{Table, allocate_pages}
use mcmqhost.Memory.Space.{read, le_bytes}
use mcmqhost.Nvme.World.{World, done, set_table}
use mcmqhost.Nvme.Queue.{Command}
use mcmqhost.Nvme.Irq.{update}
use mcmqhost.Nvme.Prp.{push_prp_list, setup_buffer, rounds}
use mcmqhost.Nvme.Prp.Entries.{
  page, ListPage, fetch-first, put_entries, prp_loop-entries, read-in_page,
}

-- A buffer that lies in two pages, counted from the page of its first byte, needs no list: PRP 1 is
-- its address, and PRP 2, set only if the buffer goes on into the second page, is that page's
-- address. Nothing else changes.
pub setup_buffer_direct :
    (id : ℕ) (cmd : Command) (buf buflen : ℕ) (w : World)
    → w.ctrl_page_size ≡ page
    → buf + page < u32_mod
    → buf % page + buflen ≤ 2 * page
    → setup_buffer id cmd buf buflen w
      ≡ done
          (record cmd {
            prp1 = buf;
            prp2 = if ltb page (buf % page + buflen) then (buf / page + 1) * page else cmd.prp2;
          })
          w
unfolding setup_buffer
setup_buffer_direct id cmd buf buflen w c small short =
    let few : leb (add64 (buf % page) buflen) (u32 (page * 2)) ≡ true = ground arith in
    rw (c, few) (ground arith)

-- The first byte behind the page where the buffer begins.
abbrev pub second_page : ℕ → ℕ
second_page buf = (buf / page + 1) * page

-- The world with the list's page taken and noted in the command.
abbrev pub with_list : ℕ → ℕ → Table → World → World
unfolding update
with_list id prp_list t w = record (set_table t w) {
  command_map =
      update id (λ c. record c { prp_lists = c.prp_lists ++ (prp_list ∷ []) }) w.command_map;
  ctrl_page_size = page;
}

module _ (id : ℕ) (cmd : Command) (buf k last prp_list : ℕ) (w : World) {t : Table}
    (paged : w.ctrl_page_size ≡ page)
    (found : allocate_pages page w.space.table ≡ some (prp_list, t))
    (list_page : ListPage w.space prp_list) (fits : k < 512) (two_more : 1 ≤ k)
    (some_left : 0 < last) (last_le : last ≤ page)
    (small : second_page buf + k * page < u32_mod) where
  -- A buffer that goes on for `k` whole pages and `last` bytes behind the page where it begins, for
  -- `k` from 1 to 511 and `last` from 1 to a page, gets one list: PRP 1 is its address, PRP 2 the
  -- list's, and entry `j` of the list, up to `k`, is the address of the page that many behind the
  -- second.
  pub setup_buffer_listed :
      (w' : World) × (setup_buffer id cmd buf (second_page buf - buf + (k * page + last)) w
        ≡ done (record cmd { prp1 = buf; prp2 = prp_list }) w')
      × ((j : ℕ)
          → j ≤ k
          → read (add32 prp_list (j * 8)) 8 w'.space
            ≡ some (le_bytes 8 (second_page buf + j * page)))
  unfolding setup_buffer push_prp_list
  setup_buffer_listed =
      let first : sub32 page (buf % page) ≡ second_page buf - buf = omega arith in
      let many : leb (add64 (buf % page) (second_page buf - buf + (k * page + last)))
            (u32 (page * 2))
          ≡ false =
        ground arith in
      let rest : sub64 (second_page buf - buf + (k * page + last)) (second_page buf - buf)
          ≡ k * page + last =
        omega arith in
      let behind : add32 buf (second_page buf - buf) ≡ second_page buf = omega arith in
      let enough : k < rounds page (k * page + last) = omega arith in
      let there : ListPage (with_list id prp_list t w).space prp_list = record {
        above = list_page.above;
        below = list_page.below;
        inside = list_page.inside;
      } in
      let there_after : ListPage
          (put_entries k 0 (second_page buf) prp_list (with_list id prp_list t w)).space prp_list =
        record { above = list_page.above; below = list_page.below; inside = list_page.inside } in
      let looped =
        prp_loop-entries k (rounds page (k * page + last)) id prp_list 0 (second_page buf) last
          (with_list id prp_list t w) enough refl there (omega arith) small some_left last_le in
      (
        put_entries k 0 (second_page buf) prp_list (with_list id prp_list t w),
        rw (paged, first, many, rest, behind, found) (rw looped refl),
        λ j j_le.
            read-in_page j prp_list
              (put_entries k 0 (second_page buf) prp_list (with_list id prp_list t w)).space
              there_after (omega arith)
            ∙ ap some (
                fetch-first k (prp_list - w.space.iova_base) (second_page buf) w.space.bytes j
                  j_le),
      )
