-- ===== src/Config/Tests.antt =====
-- The readers at a concrete file.
use mcmqhost.Prelude.{
  ℕ, ◌+◌, ◌<◌, ◌==◌, ◌≡◌, ◌⊎◌, refl, [], ◌∷◌, ◌++◌, none, some, map, get_elem?, if◌then◌else◌,
}
use mcmqhost.Config.Yaml.{Yaml, loaded, is_named}
use mcmqhost.Config.Scheme.{cwdp}
use mcmqhost.Config.Ssd.{FlashConfig, Namespace, SsdConfig, slc, no_cache, greedy}
use mcmqhost.Config.Host.{
  HostConfig, chip_capacity_sects, ns_capacity_sects, find, workload_flow, load_host_config,
}
use mcmqhost.Config.Host.Capacity.{load_host_config_lem}

-- A file with two empty flows: node 7 is their sequence, and every other node is missing.
abbrev two_flows : Yaml ℕ ℕ
two_flows = record {
  child = λ n key. if is_named key "flows" then 7 else 0;
  elements = λ n. if n == 7 then 1 ∷ 2 ∷ [] else [];
  as_uint = λ n fallback. fallback;
  as_real = λ n fallback. fallback;
  as_string = λ n fallback. fallback;
  as_uint32 = λ n. none;
  half = 5;
  one = 10;
}

abbrev no_flash : FlashConfig
no_flash = record {
  technology = slc;
  page_read_latency_lsb = 0;
  page_read_latency_csb = 0;
  page_read_latency_msb = 0;
  page_program_latency_lsb = 0;
  page_program_latency_csb = 0;
  page_program_latency_msb = 0;
  block_erase_latency = 0;
  nr_dies_per_chip = 2;
  nr_planes_per_die = 2;
  nr_blocks_per_plane = 2048;
  nr_pages_per_block = 256;
  page_capacity = 8192;
}

abbrev one_namespace : SsdConfig
one_namespace = record {
  flash_config = no_flash;
  seed = 0;
  cache_mode = no_cache;
  mapping_table_capacity = 0;
  data_cache_capacity = 0;
  gc_threshold = 0;
  gc_hard_threshold = 0;
  block_selection_policy = greedy;
  channel_count = 0;
  nr_chips_per_channel = 0;
  channel_transfer_rate = 0;
  channel_width = 0;
  namespaces =
      record {
        channel_ids = 0 ∷ 1 ∷ [];
        chip_ids = 0 ∷ [];
        die_ids = [];
        plane_ids = [];
        plane_allocate_scheme = cwdp;
      }
      ∷ [];
}

abbrev no_config : HostConfig ℕ
no_config = record { io_queue_depth = 0; sector_size = 0; namespaces = []; flows = [] }

-- A chip of 8192 blocks of 256 pages of 8192 bytes is taken for one of 2^20 sectors.
chip_of_the_example : chip_capacity_sects no_flash 512 ≡ 1048576
chip_of_the_example = refl

load_host_config_lem_example :
    (c' : HostConfig ℕ) × (load_host_config two_flows 0 (some 0) one_namespace no_config
      ≡ loaded c')
    × ((j : ℕ) (ns : Namespace)
        → get_elem? one_namespace.namespaces j ≡ some ns
        → find (1 + j) c'.namespaces ≡ some (ns_capacity_sects 1048576 ns))
    × ((k : ℕ) → (k ≡ 0) ⊎ (1 < k) → find k c'.namespaces ≡ none)
    × (c'.flows ≡ [] ++ map (workload_flow two_flows 0) (1 ∷ 2 ∷ []))
load_host_config_lem_example = load_host_config_lem two_flows 0 0 one_namespace no_config refl
