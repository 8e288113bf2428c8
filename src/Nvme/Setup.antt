-- ===== src/Nvme/Setup.antt =====
-- How the driver comes up: the constructor, `set_thread_id`, `start`, `reset`, and the queues that
-- they set up, of nvme_driver.cpp. What `start` asks of the link beyond register accesses (the
-- configuration, the device's readiness, the handler) has no effect on the driver's state.
use mcmqhost.Prelude.{
  ℕ, zero, suc, ◌+◌, ◌-◌, ◌*◌, ◌%◌, ◌^◌, Bool, not, ◌&&◌, [], ◌++◌, some, ◌==◌, if◌then◌else◌,
  bit_or, min, ltb, shr, shl, u16, u32, sub32, length, replicate,
}
use mcmqhost.Nvme.World.{
  Queue, M, device_io, queue_count_failed, assertion, ret, throw, ◌>>=◌, ◌>>◌, get, modify,
  get_queue, set_queue, mem_allocate, mem_allocate_pages, mem_set, link_readq, link_writel,
  link_writeq,
}
use mcmqhost.Nvme.Controller.{reg_cap, disable_controller, enable_controller}
use mcmqhost.Nvme.Admin.{set_queue_count, dbbuf_config, create_cq, create_sq, identify_controller}

-- The constructor, over whatever the other fields hold.
unfoldable pub construct : ℕ → ℕ → Bool → M (Unit {0})
construct ncpus io_queue_depth use_dbbuf = do
  modify (λ w. record w {
    ncpus = ncpus;
    queues = [];
    queue_count = 0;
    online_queues = 0;
    command_map = [];
    io_queue_depth = io_queue_depth;
  })
  let with_dbbuf = (do
    addr ← mem_allocate 0x1000
    modify (λ w. record w { dbbuf_dbs = addr })
    mem_set addr 0 0x1000)
  if use_dbbuf then with_dbbuf else modify (λ w. record w { dbbuf_dbs = 0 })

unfoldable pub set_thread_id : ℕ → M (Unit {0})
set_thread_id thread_id = do
  w ← get
  if ltb thread_id (length w.queues)
      then modify (λ w. record w { thread_io_queue = some thread_id })
      else throw assertion

-- `NVME_ADM_SQES` and `NVME_NVM_IOSQES`.
abbrev pub entry_shift : ℕ → ℕ
entry_shift qid = if qid == 0 then 6 else 6

abbrev pub sq_size : ℕ → ℕ → ℕ
sq_size depth shift = u32 (shl depth shift)

abbrev pub cq_size : ℕ → ℕ
cq_size depth = depth * 16

-- `NVME_REG_DBS + qid * 8 * db_stride`.
abbrev pub doorbell : ℕ → ℕ → ℕ
doorbell qid stride = u32 (0x1000 + qid * 8 * stride)

unfoldable pub allocate_queue : ℕ → ℕ → M (Unit {0})
allocate_queue qid depth = do
  q ← get_queue qid
  let shift = entry_shift qid
  set_queue qid (record q { sqe_shift = shift; depth = depth })
  sq ← mem_allocate_pages (sq_size depth shift)
  cq ← mem_allocate_pages (cq_size depth)
  w ← get
  set_queue qid (record q {
    sqe_shift = shift;
    depth = depth;
    sq_dma_addr = sq;
    cq_dma_addr = cq;
    qid = u16 qid;
    q_db = doorbell qid w.db_stride;
    cq_phase = 1;
    cq_head = 0;
  })
  modify (λ w. record w { queue_count = w.queue_count + 1 })

-- The doorbell buffer's words of an I/O queue.
abbrev pub with_dbbuf : ℕ → ℕ → ℕ → Queue → Queue
with_dbbuf dbs qid stride q =
    if not (dbs == 0) && not (qid == 0)
    then record q {
      dbbuf_sq_db = u32 (dbs + qid * 8 * stride);
      dbbuf_cq_db = u32 (dbs + qid * 8 * stride + 4 * stride);
    }
    else q

unfoldable pub init_queue : ℕ → M (Unit {0})
init_queue qid = do
  q ← get_queue qid
  w ← get
  set_queue qid (
      with_dbbuf w.dbbuf_dbs qid w.db_stride (record q {
        sq_tail = 0;
        last_sq_tail = 0;
        cq_head = 0;
        q_db = doorbell qid w.db_stride;
        cq_phase = 1;
      }))
  mem_set q.cq_dma_addr 0 (cq_size q.depth)
  modify (λ w. record w { online_queues = w.online_queues + 1 })

-- The status: 0 once the queue is online.
unfoldable pub create_queue : ℕ → M ℕ
unfolding create_cq create_sq init_queue
create_queue qid = do
  q ← get_queue qid
  status ← create_cq q qid qid
  let finish = (do init_queue qid; ret 0)
  let second = (do status' ← create_sq q qid; if status' == 0 then finish else ret status')
  if status == 0 then second else ret status

unfoldable pub setup_admin_queue : M (Unit {0})
unfolding disable_controller allocate_queue enable_controller init_queue
setup_admin_queue = do
  disable_controller
  allocate_queue 0 32
  q ← get_queue 0
  let aqa = sub32 q.depth 1
  link_writel 0x24 (bit_or aqa (u32 (shl aqa 16)))
  link_writeq 0x28 q.sq_dma_addr
  link_writeq 0x30 q.cq_dma_addr
  enable_controller
  init_queue 0

-- The first loop of `setup_io_queues`: `n` queues from `i` on.
unfoldable pub allocate_queues : ℕ → ℕ → ℕ → M (Unit {0})
unfolding allocate_queue
allocate_queues zero i depth = ret tt
allocate_queues (suc n) i depth = do allocate_queue i depth; allocate_queues n (i + 1) depth

-- The second loop, which stops at the first queue that the device refuses.
unfoldable pub create_queues : ℕ → ℕ → M (Unit {0})
unfolding create_queue
create_queues zero i = ret tt
create_queues (suc n) i = do
  status ← create_queue i
  let more = create_queues n (i + 1)
  if status == 0 then more else ret tt

-- `i <= last` from `first` on, as a number of rounds.
abbrev pub rounds_to : ℕ → ℕ → ℕ
rounds_to first last = last + 1 - first

unfoldable pub setup_io_queues : M (Unit {0})
unfolding set_queue_count allocate_queues create_queues
setup_io_queues = do
  w ← get
  nr_io_queues ← set_queue_count (length w.queues - 1)
  let bring_up = (do
    w ← get
    allocate_queues (rounds_to w.queue_count nr_io_queues) w.queue_count w.queue_depth
    w ← get
    let max_qs = min (w.queue_count - 1) nr_io_queues
    create_queues (rounds_to w.online_queues max_qs) w.online_queues)
  if nr_io_queues == 0 then throw (device_io queue_count_failed) else bring_up

abbrev pub new_queue : Queue
new_queue = record {
  sq_dma_addr = 0;
  cq_dma_addr = 0;
  dbbuf_sq_db = 0;
  dbbuf_cq_db = 0;
  depth = 0;
  sqe_shift = 0;
  qid = 0;
  sq_tail = 0;
  last_sq_tail = 0;
  cq_head = 0;
  cq_phase = 0;
  q_db = 0;
}

-- `std::min` of two `int`s, the second of which is given as the unsigned number that it came from: from
-- 2^31 on it is negative as an `int`.
abbrev pub min_int : ℕ → ℕ → ℕ
min_int m n = if ltb n (2 ^ 31) then min m n else n

-- `queue_depth` is the unsigned number that the queues get where it is negative as an `int`.
unfoldable pub reset : M (Unit {0})
unfolding setup_admin_queue identify_controller setup_io_queues dbbuf_config
reset = do
  cap ← link_readq reg_cap
  modify (λ w. record w {
    ctrl_cap = cap;
    queue_depth = min_int (cap % 2 ^ 16 + 1) w.io_queue_depth;
    db_stride = shl 1 (shr cap 32 % 16);
  })
  setup_admin_queue
  status ← identify_controller
  setup_io_queues
  w ← get
  if w.dbbuf_dbs == 0 then ret tt else dbbuf_config

unfoldable pub start : M (Unit {0})
unfolding reset
start = do modify (λ w. record w { queues = w.queues ++ replicate (w.ncpus + 1) new_queue }); reset
