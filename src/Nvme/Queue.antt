-- ===== src/Nvme/Queue.antt =====
-- Submission and completion rings: `NVMeQueue::update_cq_head`, the two doorbells and
-- `submit_sq_command` of nvme_driver.h and nvme_driver.cpp, with the command that is submitted.
pub mod Rings
use mcmqhost.Prelude.{
  ℕ, ◌+◌, ◌-◌, ◌*◌, ◌%◌, Bool, not, ◌&&◌, List, ◌++◌, ◌==◌, if◌then◌else◌, replicate, u32, u16,
  add32, shl,
}
use mcmqhost.Memory.Space.{le_bytes}
use mcmqhost.Nvme.World.{
  Queue, M, ret, ◌>>=◌, ◌>>◌, get, get_queue, set_queue, mem_write, link_writel,
}

-- The fields of `nvme_command` that the driver sets, as the union lays them out: `slba` and `fid`
-- and `cns` begin at `cdw10`, `cqid` and `qsize` are the halves of `cdw10`, `length` and `control`
-- those of `cdw12`, and `dsmgmt` is `cdw13`.
pub record Command : Type 0 where
  pub opcode : ℕ
  pub command_id : ℕ
  pub nsid : ℕ
  pub prp1 : ℕ
  pub prp2 : ℕ
  pub cdw10 : ℕ
  pub cdw11 : ℕ
  pub cdw12 : ℕ
  pub cdw13 : ℕ

-- `memset(&c, 0, sizeof(c))`.
abbrev pub zero_command : Command
zero_command = record {
  opcode = 0;
  command_id = 0;
  nsid = 0;
  prp1 = 0;
  prp2 = 0;
  cdw10 = 0;
  cdw11 = 0;
  cdw12 = 0;
  cdw13 = 0;
}

-- The 64 bytes of `nvme_common_command`.
unfoldable pub encode : Command → List ℕ
unfolding le_bytes
encode c =
    le_bytes 1 c.opcode
    ++ (le_bytes 1 0
        ++ (le_bytes 2 c.command_id
            ++ (le_bytes 4 c.nsid
                ++ (replicate 16 0
                    ++ (le_bytes 8 c.prp1
                        ++ (le_bytes 8 c.prp2
                            ++ (le_bytes 4 c.cdw10
                                ++ (le_bytes 4 c.cdw11
                                    ++ (le_bytes 4 c.cdw12
                                        ++ (le_bytes 4 c.cdw13 ++ replicate 8 0))))))))))

-- `cq_phase ^= 1`.
abbrev pub flip_bit : ℕ → ℕ
flip_bit p = if p % 2 == 0 then p + 1 else p - 1

unfoldable pub update_cq_head : Queue → Queue
update_cq_head q =
    let tmp = u16 (q.cq_head + 1) in
    if tmp == q.depth
    then record q { cq_head = 0; cq_phase = flip_bit q.cq_phase }
    else record q { cq_head = tmp }

-- The index behind `i`, back to 0 at `depth`; also `++sq_tail` with its reset.
abbrev pub next_index : ℕ → ℕ → ℕ
next_index depth i = if u16 (i + 1) == depth then 0 else u16 (i + 1)

-- The early return of `write_sq_doorbell`: the doorbell stays as it is until the ring would be full.
abbrev pub skip_doorbell : Queue → Bool → Bool
skip_doorbell q write_sq = not write_sq && not (next_index q.depth q.sq_tail == q.last_sq_tail)

-- The write to the doorbell buffer, if the queue has one, and else to the register.
abbrev pub ring : ℕ → ℕ → ℕ → M (Unit {0})
ring dbbuf reg value =
    if dbbuf == 0 then link_writel reg value else mem_write dbbuf (le_bytes 4 value)

-- `write_sq_doorbell` on the queue with index `i`.
unfoldable pub write_sq_doorbell : ℕ → Bool → M (Unit {0})
unfolding le_bytes
write_sq_doorbell i write_sq = do
  q ← get_queue i
  let rung = do
    ring q.dbbuf_sq_db q.q_db q.sq_tail
    set_queue i (record q { last_sq_tail = q.sq_tail })
  if skip_doorbell q write_sq then ret tt else rung

unfoldable pub ring_cq_doorbell : ℕ → M (Unit {0})
unfolding le_bytes
ring_cq_doorbell i = do
  q ← get_queue i
  w ← get
  ring q.dbbuf_cq_db (u32 (q.q_db + 4 * w.db_stride)) q.cq_head

unfoldable pub submit_sq_command : ℕ → Command → Bool → M (Unit {0})
unfolding encode write_sq_doorbell
submit_sq_command i c write_sq = do
  q ← get_queue i
  mem_write (add32 q.sq_dma_addr (shl q.sq_tail q.sqe_shift)) (encode c)
  set_queue i (record q { sq_tail = next_index q.depth q.sq_tail })
  write_sq_doorbell i write_sq
