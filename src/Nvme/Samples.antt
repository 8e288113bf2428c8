-- ===== src/Nvme/Samples.antt =====
-- Data that the runs of the driver start from.
use mcmqhost.Prelude.{[], ◌∷◌, none, false, replicate}
use mcmqhost.Memory.Space.{Space}
use mcmqhost.Nvme.World.{Queue, AsyncCommand, World}
use mcmqhost.Nvme.Irq.{Completion, CommandMap}

abbrev pub ring_queue : Queue
ring_queue = record {
  sq_dma_addr = 0x2000;
  cq_dma_addr = 0x3000;
  dbbuf_sq_db = 0;
  dbbuf_cq_db = 0;
  depth = 4;
  sqe_shift = 6;
  qid = 1;
  sq_tail = 3;
  last_sq_tail = 3;
  cq_head = 2;
  cq_phase = 1;
  q_db = 0x1008;
}

-- Memory of 64 KiB at 0x1000, whose free part begins at 0x4000.
abbrev pub small_space : Space
small_space = record {
  table = record {
    holes = record { slot = 0; base = 0x4000; len = 0xd000 } ∷ [];
    free_slots = replicate 511 1;
  };
  bytes = λ a. 0;
  map_size = 0x10000;
  iova_base = 0x1000;
}

abbrev pub idle : World
idle = record {
  space = small_space;
  ncpus = 1;
  queues = ring_queue ∷ [];
  queue_count = 1;
  online_queues = 1;
  command_id_counter = 0;
  command_map = [];
  thread_io_queue = none;
  ctrl_cap = 0;
  ctrl_config = 0;
  ctrl_page_size = 4096;
  queue_depth = 4;
  io_queue_depth = 4;
  db_stride = 4;
  dbbuf_dbs = 0;
  reads = [];
  arrivals = [];
  written = [];
  called = [];
}

abbrev pub waiting : AsyncCommand
waiting = record {
  id = 7;
  status = 0;
  result = 0;
  completed = false;
  callback = none;
  prp_lists = [];
}

abbrev pub an_entry : Completion
an_entry = record { result = 5; command_id = 7; status = 0x4005 }

abbrev pub two_commands : CommandMap
two_commands = (6, record waiting { id = 6 }) ∷ (7, waiting) ∷ []
