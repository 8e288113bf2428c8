-- ===== src/Nvme/Submit.antt =====
-- Commands on their way: `submit_sync_command`, `submit_async_command`, `submit_rw_command` and the
-- reads and writes of nvme_driver.h and nvme_driver.cpp.
use mcmqhost.Prelude.{
  ℕ, ◌%◌, ◌^◌, ◌/◌, Bool, true, false, Option, none, some, ◌==◌, if◌then◌else◌, u16, u32, shr,
  sub64,
}
use mcmqhost.Nvme.World.{
  M, device_io, read_command_error, undefined, ret, throw, or_throw, ◌>>=◌, ◌>>◌, get,
}
use mcmqhost.Nvme.Queue.{Command, zero_command, submit_sq_command}
use mcmqhost.Nvme.Irq.{setup_async_command, wait}
use mcmqhost.Nvme.Prp.{setup_buffer}

-- `if (buflen) setup_buffer(...)`.
abbrev pub attach_buffer : ℕ → Command → ℕ → ℕ → M Command
attach_buffer id cmd buf buflen = if buflen == 0 then ret cmd else setup_buffer id cmd buf buflen

-- The id of the command that is submitted to the queue with index `i`.
unfoldable pub submit_async_command : ℕ → Command → ℕ → ℕ → Option ℕ → M ℕ
submit_async_command i cmd buf buflen callback = do
  id ← setup_async_command callback
  ready ← attach_buffer id (record cmd { command_id = id }) buf buflen
  submit_sq_command i ready true
  ret id

-- The status and the result, after the wait.
unfoldable pub submit_sync_command : ℕ → Command → ℕ → ℕ → M (ℕ × ℕ)
submit_sync_command i cmd buf buflen = do
  id ← setup_async_command none
  ready ← attach_buffer id (record cmd { command_id = id }) buf buflen
  submit_sq_command i ready true
  wait id

abbrev pub nvme_cmd_write : ℕ
nvme_cmd_write = 1

abbrev pub nvme_cmd_read : ℕ
nvme_cmd_read = 2

-- The command of a transfer of `size` bytes at `pos`, in blocks of 4096 bytes. `slba` takes both of
-- the words from `cdw10` on, `length` the lower half of `cdw12`; `control` and `dsmgmt` are 0.
unfoldable pub rw_command : Bool → ℕ → ℕ → ℕ → Command
rw_command do_write nsid pos size = record zero_command {
  opcode = if do_write then nvme_cmd_write else nvme_cmd_read;
  nsid = nsid;
  cdw10 = u32 (shr pos 12);
  cdw11 = shr pos 12 / 2 ^ 32;
  cdw12 = u16 (sub64 (shr size 12) 1);
}

unfoldable pub submit_rw_command : Bool → ℕ → ℕ → ℕ → ℕ → Option ℕ → M ℕ
submit_rw_command do_write nsid pos buf size callback = do
  w ← get
  i ← or_throw undefined w.thread_io_queue
  submit_async_command i (rw_command do_write nsid pos size) buf size callback

unfoldable pub read_async : ℕ → ℕ → ℕ → ℕ → ℕ → M (Unit {0})
read_async nsid pos buf size callback = do
  id ← submit_rw_command false nsid pos buf size (some callback)
  ret tt

unfoldable pub write_async : ℕ → ℕ → ℕ → ℕ → ℕ → M (Unit {0})
write_async nsid pos buf size callback = do
  id ← submit_rw_command true nsid pos buf size (some callback)
  ret tt

-- The last two lines of `read` and `write`.
abbrev pub check_status : ℕ → M (Unit {0})
check_status status = if status % 2 ^ 11 == 0 then ret tt else throw (device_io read_command_error)

unfoldable pub read : ℕ → ℕ → ℕ → ℕ → M (Unit {0})
read nsid pos buf size = do
  id ← submit_rw_command false nsid pos buf size none
  r ← wait id
  check_status r.0

-- The source submits it with `do_write` false.
unfoldable pub write : ℕ → ℕ → ℕ → ℕ → M (Unit {0})
write nsid pos buf size = do
  id ← submit_rw_command false nsid pos buf size none
  r ← wait id
  check_status r.0
