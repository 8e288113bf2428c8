-- ===== src/Program.antt =====
-- `main` of main.cpp from the parsed command line to the threads, with `IOThread::create_thread` and
-- the constructors of io_thread.cpp and io_thread_synthetic.cpp. What the files, the mappings, the
-- link and the device give is the `Environment`.
pub mod Threads
pub mod Start
pub mod Runs
pub mod Queues
pub mod Finish
mod Inputs
mod Samples
mod Tests
use Prim.Native.String.{String}
use mcmqhost.Prelude.{
  ℕ, zero, suc, ◌+◌, ◌*◌, Bool, true, false, List, [], ◌∷◌, Option, none, some, length,
  if◌then◌else◌,
}
use mcmqhost.Memory.Space.{Space, shared_space, vfio_space}
use mcmqhost.Nvme.World.{World, Outcome, done, fail, ◌>>◌}
use mcmqhost.Nvme.Setup.{construct, start}
use mcmqhost.Link.Base.{PcieLink, new_link, start as start_link}
use mcmqhost.IoThread.{Thread, new_thread}
use mcmqhost.IoThread.Synthetic.{Workload}
use mcmqhost.Config.Yaml.{Yaml, Loaded, bad_file, thrown, loaded, is_named}
use mcmqhost.Config.Scheme.{cwdp}
use mcmqhost.Config.Ssd.{FlashConfig, SsdConfig, slc, no_cache, greedy, load_ssd_config}
use mcmqhost.Config.Host.{FlowDefinition, HostConfig, find, load_host_config}

-- The options that `main` reads; those without a default are missing or given.
pub record Args : Type 0 where
  pub backend : String
  pub memory : String
  pub config : String
  pub workload : String
  pub result : String
  pub group : Option String
  pub device : Option String

pub data Backend : Type 0 where
  mcmq : String → Backend
  vfio : String → String → Backend

-- Why `main` ends before the threads run. `uncaught`: an exception, which ends the program.
pub data Stop : Type 0 where
  bad_options bad_ssd_config bad_workload unknown_backend link_failed uncaught : Stop
  unknown_namespace : ℕ → Stop

-- A step of `main`.
pub data Result {ℓ} (A : Type ℓ) : Type ℓ where
  stopped : Stop → Result A
  went : A → Result A

infixl 5 ◌>>=◌
abbrev pub ◌>>=◌ {ℓ κ} : {A : Type ℓ} {B : Type κ} → Result A → (A → Result B) → Result B
stopped e >>= f = stopped e
went a >>= f = f a

abbrev pub option_given {ℓ} : {A : Type ℓ} → Stop → Option A → Result A
option_given e none = stopped e
option_given e (some a) = went a

abbrev pub file_loaded : {A : Type 0} → Stop → Loaded A → Result A
file_loaded e bad_file = stopped e
file_loaded e thrown = stopped uncaught
file_loaded e (loaded a) = went a

-- What protobuf and C++ make of `mcmq::SsdConfig` and `HostConfig` before they are loaded.
abbrev pub empty_ssd_config : SsdConfig
empty_ssd_config = record {
  flash_config = record {
    technology = slc;
    page_read_latency_lsb = 0;
    page_read_latency_csb = 0;
    page_read_latency_msb = 0;
    page_program_latency_lsb = 0;
    page_program_latency_csb = 0;
    page_program_latency_msb = 0;
    block_erase_latency = 0;
    nr_dies_per_chip = 0;
    nr_planes_per_die = 0;
    nr_blocks_per_plane = 0;
    nr_pages_per_block = 0;
    page_capacity = 0;
  };
  seed = 0;
  cache_mode = no_cache;
  mapping_table_capacity = 0;
  data_cache_capacity = 0;
  gc_threshold = 0;
  gc_hard_threshold = 0;
  block_selection_policy = greedy;
  channel_count = 0;
  nr_chips_per_channel = 0;
  channel_transfer_rate = 0;
  channel_width = 0;
  namespaces = [];
}

abbrev pub empty_host_config : {Real : Type 0} → HostConfig Real
empty_host_config = record { io_queue_depth = 0; sector_size = 0; namespaces = []; flows = [] }

pub record Environment (Node Real : Type 0) : Type 0 where
  pub yaml : Yaml Node Real
  pub zero_real : Real
  -- `LoadFile` of a path
  pub files : String → Option Node
  -- the size and the bytes of the shared memory file, if it opens and maps
  pub shared_file : String → Option (ℕ × (ℕ → ℕ))
  -- whether the anonymous mapping succeeds
  pub maps : Bool
  -- whether `init` of the link succeeds
  pub link_init : Backend → Bool
  -- the descriptor that `eventfd` gives to the link's `start`, if it does
  pub event_fd : Option ℕ
  -- what the link and the device do, with the address and the size of the memory that the link mapped
  -- for the device, if it did, over a memory space, and whatever the driver's fields hold
  pub world : Backend → Option (ℕ × ℕ) → Space → World

-- `link->map_dma`, which does nothing in `PCIeLinkMcmq`: the address and the size of the mapping.
abbrev pub dma_mapping : Backend → Space → Option (ℕ × ℕ)
dma_mapping (mcmq path) space = none
dma_mapping (vfio group device) space = some (space.iova_base, space.map_size)

-- The thread that `create_thread` makes: what the constructors are given.
pub record Job (Real : Type 0) : Type 0 where
  pub thread_id : ℕ
  pub queue_depth : ℕ
  pub sector_size : ℕ
  pub max_lsa : ℕ
  pub flow : FlowDefinition Real

abbrev pub named_backend : Args → Result Backend
named_backend args =
    let given = option_given bad_options args.group >>= λ group.
    option_given bad_options args.device >>= λ device. went (vfio group device) in
    if is_named args.backend "mcmq"
    then went (mcmq args.memory)
    else (if is_named args.backend "vfio" then given else stopped unknown_backend)

abbrev pub driver_started : Outcome (Unit {0}) → Result World
driver_started (done a w) = went w
driver_started (fail e w) = stopped uncaught

unfoldable pub start_driver : ℕ → ℕ → World → Result World
unfolding construct start
start_driver ncpus io_queue_depth w =
    driver_started ((construct ncpus io_queue_depth false >> start) w)

module _ {Real : Type 0} where
  -- What the constructor of `IOThreadSynthetic` keeps of it; the mean is an `int` that is not negative.
  abbrev pub workload_of : Job Real → Workload
  workload_of job = record {
    nsid = job.flow.nsid;
    sector_size = job.sector_size;
    max_lsa = job.max_lsa;
    request_size_distribution = job.flow.request_size_distribution;
    request_size_mean = job.flow.request_size_mean;
    address_distribution = job.flow.address_distribution;
    address_alignment = job.flow.address_alignment;
    average_enqueued_requests = job.flow.average_enqueued_requests;
  }

  -- What it hands on to the constructor of `IOThread`.
  abbrev pub thread_of {ℓ} : {D : Type ℓ} → D → (ℕ → ℕ) → Job Real → Thread D
  unfolding new_thread
  thread_of d clock job = new_thread d job.queue_depth job.flow.request_count clock

  abbrev pub create_thread : ℕ → ℕ → ℕ → ℕ → FlowDefinition Real → Job Real
  create_thread thread_id queue_depth sector_size max_lsa flow = record {
    thread_id = thread_id;
    queue_depth = queue_depth;
    sector_size = sector_size;
    max_lsa = max_lsa;
    flow = flow;
  }

  abbrev pub prepend : Job Real → Result (List (Job Real)) → Result (List (Job Real))
  prepend job (stopped e) = stopped e
  prepend job (went jobs) = went (job ∷ jobs)

  -- A round of the loop over the flows, with the namespace that it found and the rounds behind it.
  abbrev pub at_flow :
      HostConfig Real
      → ℕ
      → FlowDefinition Real
      → Option ℕ
      → Result (List (Job Real))
      → Result (List (Job Real))
  at_flow config thread_id flow none rest = stopped (unknown_namespace thread_id)
  at_flow config thread_id flow (some capacity) rest =
      prepend (create_thread thread_id config.io_queue_depth config.sector_size capacity flow) rest

  -- The loop, from the thread with the id on.
  unfoldable pub make_threads :
      HostConfig Real → ℕ → List (FlowDefinition Real) → Result (List (Job Real))
  unfolding find
  make_threads config thread_id [] = went []
  make_threads config thread_id (flow ∷ rest) =
      at_flow config thread_id flow (find flow.nsid config.namespaces)
        (make_threads config (thread_id + 1) rest)

  -- The constructors of the two memory spaces.
  abbrev pub make_space : {Node : Type 0} → Environment Node Real → Backend → Result Space
  make_space env (mcmq path) = option_given uncaught (env.shared_file path) >>= λ file.
      option_given uncaught (shared_space file.0 file.1)
  make_space env (vfio group device) =
      if env.maps
      then option_given uncaught (vfio_space 0x1000 (2 * 1024 * 1024))
      else stopped uncaught

  -- The link with its thread, the driver as it is when the threads are about to run, and the threads.
  unfoldable pub run_main :
      {Node : Type 0} → Environment Node Real → Args → Result (PcieLink × World × List (Job Real))
  unfolding start_link
  run_main env args = do
    ssd_config ←
        file_loaded bad_ssd_config
          (load_ssd_config env.yaml (env.files args.config) empty_ssd_config)
    host_config ← file_loaded bad_workload (
        load_host_config env.yaml env.zero_real (env.files args.workload) ssd_config
          empty_host_config)
    backend ← named_backend args
    space ← make_space env backend
    (if env.link_init backend then went tt else stopped link_failed) >>= λ (u : Unit {0}). do
      link ← option_given uncaught (start_link env.event_fd new_link)
      w ←
          start_driver (length host_config.flows) host_config.io_queue_depth
            (env.world backend (dma_mapping backend space) space)
      jobs ← make_threads host_config 1 host_config.flows
      went (link, w, jobs)
