-- ===== src/Program/Inputs.antt =====
-- Arguments and configurations for a start of the program.
use mcmqhost.Prelude.{ℕ, [], ◌∷◌, some}
use mcmqhost.IoThread.Synthetic.{constant, uniform}
use mcmqhost.Config.Scheme.{cwdp}
use mcmqhost.Config.Ssd.{SsdConfig, mlc, no_cache, greedy}
use mcmqhost.Config.Host.{FlowDefinition, HostConfig}
use mcmqhost.Program.{Args}

abbrev pub small_args : Args
small_args = record {
  backend = "vfio";
  memory = "";
  config = "ssd";
  workload = "load";
  result = "out";
  group = some "0";
  device = some "1";
}

abbrev pub small_ssd : SsdConfig
small_ssd = record {
  flash_config = record {
    technology = mlc;
    page_read_latency_lsb = 75000;
    page_read_latency_csb = 75000;
    page_read_latency_msb = 75000;
    page_program_latency_lsb = 750000;
    page_program_latency_csb = 750000;
    page_program_latency_msb = 750000;
    block_erase_latency = 3800000;
    nr_dies_per_chip = 2;
    nr_planes_per_die = 2;
    nr_blocks_per_plane = 2048;
    nr_pages_per_block = 256;
    page_capacity = 8192;
  };
  seed = 123;
  cache_mode = no_cache;
  mapping_table_capacity = 2097152;
  data_cache_capacity = 536870912;
  gc_threshold = 20;
  gc_hard_threshold = 200;
  block_selection_policy = greedy;
  channel_count = 8;
  nr_chips_per_channel = 4;
  channel_transfer_rate = 300;
  channel_width = 1;
  namespaces =
      record {
        channel_ids = [];
        chip_ids = [];
        die_ids = [];
        plane_ids = [];
        plane_allocate_scheme = cwdp;
      }
      ∷ [];
}

abbrev pub small_flow : FlowDefinition ℕ
small_flow = record {
  nsid = 1;
  seed = 123;
  request_count = 10000;
  read_ratio = 5;
  request_size_distribution = constant;
  request_size_mean = 8;
  request_size_variance = 0;
  address_distribution = uniform;
  zipfian_alpha = 0;
  address_alignment = 0;
  average_enqueued_requests = 1;
}

abbrev pub small_host : HostConfig ℕ
small_host = record {
  io_queue_depth = 1024;
  sector_size = 512;
  namespaces = (1, 0) ∷ [];
  flows = small_flow ∷ [];
}

-- The workload whose flow has no namespace.
abbrev pub bad_args : Args
bad_args = record small_args { workload = "bad" }

abbrev pub bad_flow : FlowDefinition ℕ
bad_flow = record {
  nsid = 0;
  seed = 123;
  request_count = 10000;
  read_ratio = 5;
  request_size_distribution = constant;
  request_size_mean = 8;
  request_size_variance = 0;
  address_distribution = uniform;
  zipfian_alpha = 0;
  address_alignment = 0;
  average_enqueued_requests = 1;
}

abbrev pub bad_host : HostConfig ℕ
bad_host = record small_host { flows = bad_flow ∷ [] }
