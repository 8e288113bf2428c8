-- ===== src/Config/Ssd.antt =====
-- `load_ssd_namespaces` and `load_ssd_config` of config_reader.cpp, with the messages of
-- proto/ssd_config.proto. The caller passes the configuration that it has.
use Prim.Native.String.{String}
use mcmqhost.Prelude.{ℕ, List, [], ◌∷◌, ◌++◌, Option, none, some, if◌then◌else◌, shl}
use mcmqhost.Config.Yaml.{Yaml, is_named, ◌>>=◌, Loaded, bad_file, or_thrown, ids}
use mcmqhost.Config.Scheme.{PlaneAllocateScheme, get_plane_allocate_scheme}

pub data FlashTechnology : Type 0 where
  slc mlc tlc : FlashTechnology

pub record FlashConfig : Type 0 where
  pub technology : FlashTechnology
  pub page_read_latency_lsb : ℕ
  pub page_read_latency_csb : ℕ
  pub page_read_latency_msb : ℕ
  pub page_program_latency_lsb : ℕ
  pub page_program_latency_csb : ℕ
  pub page_program_latency_msb : ℕ
  pub block_erase_latency : ℕ
  pub nr_dies_per_chip : ℕ
  pub nr_planes_per_die : ℕ
  pub nr_blocks_per_plane : ℕ
  pub nr_pages_per_block : ℕ
  pub page_capacity : ℕ

pub data CacheMode : Type 0 where
  no_cache write_cache : CacheMode

pub data BlockSelectionPolicy : Type 0 where
  greedy : BlockSelectionPolicy

pub record Namespace : Type 0 where
  pub channel_ids : List ℕ
  pub chip_ids : List ℕ
  pub die_ids : List ℕ
  pub plane_ids : List ℕ
  pub plane_allocate_scheme : PlaneAllocateScheme

pub record SsdConfig : Type 0 where
  pub flash_config : FlashConfig
  pub seed : ℕ
  pub cache_mode : CacheMode
  pub mapping_table_capacity : ℕ
  pub data_cache_capacity : ℕ
  pub gc_threshold : ℕ
  pub gc_hard_threshold : ℕ
  pub block_selection_policy : BlockSelectionPolicy
  pub channel_count : ℕ
  pub nr_chips_per_channel : ℕ
  pub channel_transfer_rate : ℕ
  pub channel_width : ℕ
  pub namespaces : List Namespace

-- A name that is none of these leaves what was there.
abbrev pub cache_mode_named : String → CacheMode → CacheMode
cache_mode_named name old =
    if is_named name "no" then no_cache else (if is_named name "write" then write_cache else old)

abbrev pub policy_named : String → BlockSelectionPolicy → BlockSelectionPolicy
policy_named name old = if is_named name "greedy" then greedy else old

abbrev pub technology_named : String → FlashTechnology → FlashTechnology
technology_named name old =
    if is_named name "slc"
    then slc
    else (if is_named name "mlc" then mlc else (if is_named name "tlc" then tlc else old))

module _ {Node Real : Type 0} (yaml : Yaml Node Real) where
  -- `node[key].as<T>(fallback)`.
  abbrev pub field : Node → String → ℕ → ℕ
  field node key fallback = yaml.as_uint (yaml.child node key) fallback

  abbrev pub ids_of : Node → String → Option (List ℕ)
  ids_of node key = ids yaml (yaml.elements (yaml.child node key))

  unfoldable pub load_namespace : Node → Option Namespace
  unfolding ids get_plane_allocate_scheme
  load_namespace ns = do
    channels ← ids_of ns "channels"
    chips ← ids_of ns "chips"
    dies ← ids_of ns "dies"
    planes ← ids_of ns "planes"
    some (record {
      channel_ids = channels;
      chip_ids = chips;
      die_ids = dies;
      plane_ids = planes;
      plane_allocate_scheme =
          get_plane_allocate_scheme (yaml.as_string (yaml.child ns "plane_allocate_scheme") "CWDP");
    })

  unfoldable pub load_ssd_namespaces : List Node → SsdConfig → Option SsdConfig
  unfolding load_namespace
  load_ssd_namespaces [] config = some config
  load_ssd_namespaces (ns ∷ rest) config = do
    loaded_ns ← load_namespace ns
    load_ssd_namespaces rest (record config { namespaces = config.namespaces ++ (loaded_ns ∷ []) })

  unfoldable pub load_flash : Node → FlashConfig → FlashConfig
  load_flash node old =
      let read_latency = yaml.child node "page_read_latency" in
      let program_latency = yaml.child node "page_program_latency" in
      record {
        technology =
            technology_named (yaml.as_string (yaml.child node "technology") "mlc") old.technology;
        page_read_latency_lsb = field read_latency "lsb" 75000;
        page_read_latency_csb = field read_latency "csb" 75000;
        page_read_latency_msb = field read_latency "msb" 75000;
        page_program_latency_lsb = field program_latency "lsb" 750000;
        page_program_latency_csb = field program_latency "csb" 750000;
        page_program_latency_msb = field program_latency "msb" 750000;
        block_erase_latency = field node "block_erase_latency" 3800000;
        nr_dies_per_chip = field node "dies_per_chip" 2;
        nr_planes_per_die = field node "planes_per_die" 2;
        nr_blocks_per_plane = field node "blocks_per_plane" 2048;
        nr_pages_per_block = field node "pages_per_block" 256;
        page_capacity = field node "page_capacity" 8192;
      }

  -- What the configuration is before the namespaces are read.
  unfoldable pub load_ssd_fields : Node → SsdConfig → SsdConfig
  unfolding load_flash
  load_ssd_fields root old =
      let gc_node = yaml.child root "gc_threshold" in
      let channel_node = yaml.child root "channel" in
      record {
        flash_config = load_flash (yaml.child root "flash") old.flash_config;
        seed = field root "seed" 123;
        cache_mode =
            cache_mode_named (yaml.as_string (yaml.child root "cache_mode") "no") old.cache_mode;
        mapping_table_capacity = field root "mapping_table_capacity" (shl 2 20);
        data_cache_capacity = field root "data_cache_capacity" (shl 512 20);
        gc_threshold = field gc_node "normal" 20;
        gc_hard_threshold = field gc_node "hard" 200;
        block_selection_policy =
            policy_named (yaml.as_string (yaml.child root "block_selection_policy") "greedy")
              old.block_selection_policy;
        channel_count = field root "channel_count" 8;
        nr_chips_per_channel = field channel_node "chips_per_channel" 4;
        channel_transfer_rate = field channel_node "transfer_rate" 300;
        channel_width = field channel_node "width" 1;
        namespaces = old.namespaces;
      }

  -- `file` is what `LoadFile` gives; `none` is `BadFile`.
  unfoldable pub load_ssd_config : Option Node → SsdConfig → Loaded SsdConfig
  unfolding load_ssd_fields load_ssd_namespaces
  load_ssd_config none config = bad_file
  load_ssd_config (some root) config = or_thrown (
      load_ssd_namespaces (yaml.elements (yaml.child root "namespaces"))
        (load_ssd_fields root config))
