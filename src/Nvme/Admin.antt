-- ===== src/Nvme/Admin.antt =====
-- The admin commands of nvme_driver.cpp: features, queue creation, identification and the doorbell
-- buffer. All go to queue 0 and wait.
use mcmqhost.Prelude.{
  ℕ, ◌+◌, ◌*◌, ◌%◌, ◌^◌, ◌==◌, if◌then◌else◌, bit_or, min, ltb, shr, shl, u16, u32, sub32,
}
use mcmqhost.Nvme.World.{
  Queue, M, device_io, dbbuf_failed, ret, throw, ◌>>=◌, ◌>>◌, get, mem_allocate_pages, mem_free,
}
use mcmqhost.Nvme.Queue.{zero_command}
use mcmqhost.Nvme.Submit.{submit_sync_command}

-- The status with the low 32 bits of the result.
unfoldable pub nvme_features : ℕ → ℕ → ℕ → M (ℕ × ℕ)
unfolding submit_sync_command
nvme_features op fid dword11 = do
  r ← submit_sync_command 0 (record zero_command { opcode = op; cdw10 = fid; cdw11 = dword11 }) 0 0
  ret (r.0, u32 r.1)

abbrev pub nvme_admin_set_features : ℕ
nvme_admin_set_features = 0x09

unfoldable pub set_features : ℕ → ℕ → M (ℕ × ℕ)
unfolding nvme_features
set_features fid dword11 = nvme_features nvme_admin_set_features fid dword11

abbrev pub feat_num_queues : ℕ
feat_num_queues = 0x07

-- What the device's answer leaves of the wanted count.
abbrev pub granted : ℕ → ℕ → ℕ → ℕ
granted count status result =
    if ltb 0 status then 0 else min count (min (result % 2 ^ 16) (shr result 16) + 1)

-- The new `count`; the status that it returns is always `NVME_SC_SUCCESS`.
unfoldable pub set_queue_count : ℕ → M ℕ
unfolding set_features
set_queue_count count = do
  let wanted = sub32 count 1
  r ← set_features feat_num_queues (bit_or wanted (u32 (shl wanted 16)))
  ret (granted count r.0 r.1)

unfoldable pub dbbuf_config : M (Unit {0})
unfolding submit_sync_command
dbbuf_config = do
  w ← get
  r ← submit_sync_command 0 (record zero_command { opcode = 0x7c; prp1 = w.dbbuf_dbs }) 0 0
  if r.0 == 0 then ret tt else throw (device_io dbbuf_failed)

-- Two 16-bit fields of a word, the lower first.
abbrev pub halves : ℕ → ℕ → ℕ
halves lo hi = u16 lo + u16 hi * 2 ^ 16

-- `NVME_QUEUE_PHYS_CONTIG`.
abbrev pub phys_contig : ℕ
phys_contig = 1

unfoldable pub create_cq : Queue → ℕ → ℕ → M ℕ
unfolding submit_sync_command
create_cq q qid vector = do
  r ←
      submit_sync_command 0
        (record zero_command {
          opcode = 0x05;
          prp1 = q.cq_dma_addr;
          cdw10 = halves qid (sub32 q.depth 1);
          cdw11 = halves phys_contig vector;
        })
        0 0
  ret r.0

unfoldable pub create_sq : Queue → ℕ → M ℕ
unfolding submit_sync_command
create_sq q qid = do
  r ←
      submit_sync_command 0
        (record zero_command {
          opcode = 0x01;
          prp1 = q.sq_dma_addr;
          cdw10 = halves qid (sub32 q.depth 1);
          cdw11 = halves phys_contig qid;
        })
        0 0
  ret r.0

-- `sizeof(struct nvme_id_ctrl)`.
abbrev pub id_ctrl_size : ℕ
id_ctrl_size = 4096

unfoldable pub identify_controller : M ℕ
unfolding submit_sync_command
identify_controller = do
  id_buf ← mem_allocate_pages id_ctrl_size
  r ← submit_sync_command 0 (record zero_command { opcode = 0x06; cdw10 = 1 }) id_buf id_ctrl_size
  mem_free id_buf id_ctrl_size
  ret r.0
