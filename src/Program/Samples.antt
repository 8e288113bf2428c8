-- ===== src/Program/Samples.antt =====
-- A start of the program over a small device that answers its admin commands.
use mcmqhost.Prelude.{
  ℕ, ◌+◌, ◌*◌, ◌≡◌, ◌==◌, refl, Bool, true, false, List, [], ◌∷◌, ◌++◌, none, some, length,
  get_elem?, replicate, if◌then◌else◌, arith,
}
use mcmqhost.Memory.{slots_from, init, free, allocate_pages, roundup}
use mcmqhost.Memory.Space.{Space, vfio_space, read, write, memset}
use mcmqhost.Nvme.World.{World, Arrival}
use mcmqhost.Nvme.Irq.{setup_async_command, wait}
use mcmqhost.Nvme.Prp.{setup_buffer}
use mcmqhost.Nvme.Queue.{submit_sq_command}
use mcmqhost.Nvme.Submit.{submit_sync_command}
use mcmqhost.Link.Base.{PcieLink, new_link, start}
use mcmqhost.Config.Yaml.{Yaml, is_named}
use mcmqhost.Config.Ssd.{load_ssd_config}
use mcmqhost.Config.Host.{load_host_config}
use mcmqhost.Program.{
  vfio, Environment, Job, Result, stopped, went, run_main, start_driver, make_space,
}
use mcmqhost.Program.Start.{FilesRead}
use mcmqhost.Program.Runs.{BroughtUp, run_main_lem}
use mcmqhost.Program.Inputs.{small_args, small_ssd, small_flow, small_host, bad_args, bad_host}

-- Node 1 is the SSD's configuration, whose one namespace is node 3; node 4 is a workload, whose
-- flow is node 6, with the namespace 1; node 10 is one whose flow is node 7, with no namespace.
abbrev pub small_yaml : Yaml ℕ ℕ
small_yaml = record {
  child = λ n key.
      if is_named key "namespaces"
      then (if n == 1 then 2 else 0)
      else (if is_named key "flows"
          then (if n == 4 then 5 else (if n == 10 then 9 else 0))
          else (if is_named key "namespace" then (if n == 6 then 8 else 0) else 0));
  elements =
      λ n. if n == 2 then 3 ∷ [] else (if n == 5 then 6 ∷ [] else (if n == 9 then 7 ∷ [] else []));
  as_uint = λ n fallback. if n == 8 then 1 else fallback;
  as_real = λ n fallback. fallback;
  as_string = λ n fallback. fallback;
  as_uint32 = λ n. none;
  half = 5;
  one = 10;
}

-- A completion without a result for the command with the id.
abbrev pub entry : ℕ → List ℕ
entry id = replicate 12 0 ++ (id ∷ 0 ∷ 1 ∷ 0 ∷ [])

-- The device answers each admin command in turn.
abbrev pub answer_to : ℕ → Arrival
answer_to id = record { writes = (0x2000 + id * 16, entry id) ∷ []; vector = 0 }

abbrev pub device_world : Space → World
device_world space = record {
  space = space;
  ncpus = 0;
  queues = [];
  queue_count = 0;
  online_queues = 0;
  command_id_counter = 0;
  command_map = [];
  thread_io_queue = none;
  ctrl_cap = 0;
  ctrl_config = 0;
  ctrl_page_size = 0;
  queue_depth = 0;
  io_queue_depth = 0;
  db_stride = 0;
  dbbuf_dbs = 0;
  reads = 31 ∷ 0 ∷ 31 ∷ 1 ∷ [];
  arrivals = answer_to 0 ∷ answer_to 1 ∷ answer_to 2 ∷ answer_to 3 ∷ [];
  written = [];
  called = [];
}

abbrev pub small_environment : Environment ℕ ℕ
small_environment = record {
  yaml = small_yaml;
  zero_real = 0;
  files = λ name.
      if is_named name "ssd"
      then some 1
      else (if is_named name "load"
          then some 4
          else (if is_named name "bad" then some 10 else none));
  shared_file = λ name. none;
  maps = true;
  link_init = λ backend. true;
  event_fd = some 7;
  world = λ backend mapped. device_world;
}

-- The memory space that the constructor makes.
abbrev pub small_space : Space
small_space = record {
  table = record {
    holes = record { slot = 0; base = 0x1000; len = 0x201000 } ∷ [];
    free_slots = slots_from 1 511;
  };
  bytes = λ _. 0;
  map_size = 0x200000;
  iova_base = 0x1000;
}

pub space_made : make_space small_environment (vfio "0" "1") ≡ went small_space
unfolding vfio_space free init slots_from
space_made = refl

-- What the start leaves: the online queues, the command ids that were used, and the queues and
-- commands that there are.
abbrev pub summary : Result World → List ℕ
summary (stopped e) = []
summary (went w) =
    w.online_queues ∷ w.command_id_counter ∷ length w.queues ∷ length w.command_map ∷ []

pub start_summary : summary (start_driver 1 1024 (device_world small_space)) ≡ 2 ∷ 4 ∷ 2 ∷ 0 ∷ []
unfolding start_driver submit_sync_command allocate_pages roundup memset setup_async_command
    setup_buffer submit_sq_command write wait read free slots_from
start_summary = refl

abbrev pub has_value : Result World → Bool
has_value (stopped e) = false
has_value (went w) = true

pub value_of : (r : Result World) → has_value r ≡ true → (w : World) × (r ≡ went w)
value_of (stopped e) h = cc
value_of (went w) h = (w, refl)

pub starts : has_value (start_driver 1 1024 (device_world small_space)) ≡ true
unfolding start_driver submit_sync_command allocate_pages roundup memset setup_async_command
    setup_buffer submit_sq_command write wait read free slots_from
starts = refl

pub came_up : (w : World) × (start_driver 1 1024 (device_world small_space) ≡ went w)
came_up = value_of (start_driver 1 1024 (device_world small_space)) starts

pub files_read : FilesRead small_environment small_args small_ssd 4 small_host
unfolding load_ssd_config load_host_config
files_read = record { ssd_loaded = refl; workload_file = refl; host_loaded = refl }

abbrev pub running_link : PcieLink
running_link = record new_link { event_fd = some 7; running = true }

link_starts : start (some 7) new_link ≡ some running_link
unfolding start
link_starts = refl

pub brought_up : BroughtUp small_environment small_args small_host running_link came_up.0
brought_up = record {
  backend = vfio "0" "1";
  space = small_space;
  named = refl;
  made = space_made;
  up = refl;
  linked = link_starts;
  started = came_up.1;
}

pub bad-FilesRead : FilesRead small_environment bad_args small_ssd 10 bad_host
unfolding load_ssd_config load_host_config
bad-FilesRead = record { ssd_loaded = refl; workload_file = refl; host_loaded = refl }

pub bad-BroughtUp : BroughtUp small_environment bad_args bad_host running_link came_up.0
bad-BroughtUp = record {
  backend = vfio "0" "1";
  space = small_space;
  named = refl;
  made = space_made;
  up = refl;
  linked = link_starts;
  started = came_up.1;
}

-- The run of the small program, with its thread.
pub small_run :
    (jobs : List (Job ℕ)) × (run_main small_environment small_args
      ≡ went (running_link, came_up.0, jobs))
    × (job : Job ℕ) × (get_elem? jobs 0 ≡ some job)
small_run =
    let (jobs, ran, count, threads) =
      run_main_lem small_environment small_args small_ssd 4 small_host running_link came_up.0
        files_read brought_up ((omega arith, omega arith), tt) in
    let (c, found, at) = threads 0 small_flow refl in (jobs, ran, _, at)
