-- ===== src/Nvme/Prp.antt =====
-- `setup_buffer` of nvme_driver.cpp: the PRP entries of a buffer, in the command or in PRP lists.
pub mod Entries
pub mod Buffer
pub mod Overrun
use mcmqhost.Prelude.{
  ℕ, zero, suc, ◌+◌, ◌-◌, ◌*◌, ◌/◌, ◌%◌, [], ◌∷◌, ◌++◌, ◌==◌, if◌then◌else◌, u32, add32, add64,
  sub32, sub64, ltb, leb, shr,
}
use mcmqhost.Memory.Space.{le_bytes}
use mcmqhost.Nvme.World.{
  M, blocked, ret, throw, ◌>>=◌, ◌>>◌, get, modify, mem_read, mem_write, mem_allocate_pages,
}
use mcmqhost.Nvme.Queue.{Command}
use mcmqhost.Nvme.Irq.{update}

-- `acmd->prp_lists.push_back(prp_list)`.
unfoldable pub push_prp_list : ℕ → ℕ → M (Unit {0})
unfolding update
push_prp_list id prp_list = modify λ w. record w {
  command_map =
      update id (λ c. record c { prp_lists = c.prp_lists ++ (prp_list ∷ []) }) w.command_map;
}

-- The start of a round of the loop: a full list gets a successor, to which its last entry moves.
-- The index `i` goes on from where it was.
unfoldable pub next_list : ℕ → ℕ → ℕ → M ℕ
next_list id prp_list i = do
  w ← get
  let chain = (do
    fresh ← mem_allocate_pages w.ctrl_page_size
    push_prp_list id fresh
    last_entry ← mem_read (add32 prp_list ((i - 1) * 8)) 8
    mem_write fresh last_entry
    mem_write (add32 prp_list ((i - 1) * 8)) (le_bytes 8 fresh)
    ret fresh)
  if i == shr w.ctrl_page_size 3 then chain else ret prp_list

-- The loop, which writes an entry for each page of the rest of the buffer.
unfoldable pub prp_loop : ℕ → ℕ → ℕ → ℕ → ℕ → ℕ → M (Unit {0})
prp_loop zero id prp_list i buf buflen = throw blocked
prp_loop (suc fuel) id prp_list i buf buflen = do
  current ← next_list id prp_list i
  mem_write (add32 current (i * 8)) (le_bytes 8 buf)
  w ← get
  let more =
      prp_loop fuel id current (i + 1) (add32 buf w.ctrl_page_size) (buflen - w.ctrl_page_size)
  if leb buflen w.ctrl_page_size then ret tt else more

-- The pages of `buflen` bytes, which are the rounds that the loop takes.
abbrev pub rounds : ℕ → ℕ → ℕ
rounds page buflen = buflen / page + 1

unfoldable pub setup_buffer : ℕ → Command → ℕ → ℕ → M Command
setup_buffer id cmd buf buflen = do
  w ← get
  let page = w.ctrl_page_size
  let first_prp_len = sub32 page (buf % page)
  let direct = record cmd {
    prp1 = buf;
    prp2 = if ltb first_prp_len buflen then add32 buf first_prp_len else cmd.prp2;
  }
  let rest = sub64 buflen first_prp_len
  let listed = (do
    prp_list ← mem_allocate_pages page
    push_prp_list id prp_list
    prp_loop (rounds page rest) id prp_list 0 (add32 buf first_prp_len) rest
    ret (record cmd { prp1 = buf; prp2 = prp_list }))
  if leb (add64 (buf % page) buflen) (u32 (page * 2)) then ret direct else listed
