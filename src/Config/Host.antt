-- ===== src/Config/Host.antt =====
-- `load_workload_flow` and `load_host_config` of config_reader.cpp, with the types of
-- config_reader.h. A `double` is a `Real` of the YAML library's, an `int` its 32 bits.
pub mod Capacity
use Prim.Native.String.{String}
use mcmqhost.Prelude.{
  ℕ, ◌+◌, ◌*◌, ◌/◌, ◌==◌, List, [], ◌∷◌, ◌++◌, Option, none, some, if◌then◌else◌, u32, u64, length,
}
use mcmqhost.IoThread.Synthetic.{
  RequestSizeDistribution, constant, normal, AddressDistribution, uniform, zipfian,
}
use mcmqhost.Config.Yaml.{Yaml, is_named, Loaded, bad_file, loaded}
use mcmqhost.Config.Ssd.{FlashConfig, Namespace, SsdConfig, field}

-- `FlowDefinition` with the one member of its union; no reader sets the name.
pub record FlowDefinition (Real : Type 0) : Type 0 where
  pub nsid : ℕ
  pub seed : ℕ
  pub request_count : ℕ
  pub read_ratio : Real
  pub request_size_distribution : RequestSizeDistribution
  pub request_size_mean : ℕ
  pub request_size_variance : ℕ
  pub address_distribution : AddressDistribution
  pub zipfian_alpha : Real
  pub address_alignment : ℕ
  pub average_enqueued_requests : ℕ

pub record HostConfig (Real : Type 0) : Type 0 where
  pub io_queue_depth : ℕ
  pub sector_size : ℕ
  -- the capacity by the id
  pub namespaces : List (ℕ × ℕ)
  pub flows : List (FlowDefinition Real)

-- `chip_capacity_sects`, a product of `uint32_t` that is divided as a `size_t`.
abbrev pub chip_capacity_sects : FlashConfig → ℕ → ℕ
chip_capacity_sects f sector_size =
    u32 (
      f.nr_dies_per_chip * f.nr_planes_per_die * f.nr_blocks_per_plane * f.nr_pages_per_block
      * f.nr_pages_per_block)
    / sector_size

abbrev pub ns_capacity_sects : ℕ → Namespace → ℕ
ns_capacity_sects chip ns = u64 (chip * length ns.channel_ids * length ns.chip_ids)

-- `unordered_map::find` and `emplace`, which keeps an entry that is there.
unfoldable pub find : ℕ → List (ℕ × ℕ) → Option ℕ
find nsid [] = none
find nsid ((k, c) ∷ m) = if k == nsid then some c else find nsid m

unfoldable pub emplace : ℕ → ℕ → List (ℕ × ℕ) → List (ℕ × ℕ)
unfolding find
emplace nsid c m = elim (find nsid m) [ none ↦ (nsid, c) ∷ m | some c' ↦ m ]

-- The loop over the namespaces, from the one with index `i` on.
unfoldable pub add_namespaces : ℕ → ℕ → List Namespace → List (ℕ × ℕ) → List (ℕ × ℕ)
unfolding emplace
add_namespaces chip i [] m = m
add_namespaces chip i (ns ∷ rest) m =
    add_namespaces chip (i + 1) rest (emplace (i + 1) (ns_capacity_sects chip ns) m)

module _ {Node Real : Type 0} (yaml : Yaml Node Real) (zero_real : Real) where
  -- `push_back({})` makes a flow of zeros.
  abbrev pub empty_flow : FlowDefinition Real
  empty_flow = record {
    nsid = 0;
    seed = 0;
    request_count = 0;
    read_ratio = zero_real;
    request_size_distribution = constant;
    request_size_mean = 0;
    request_size_variance = 0;
    address_distribution = uniform;
    zipfian_alpha = zero_real;
    address_alignment = 0;
    average_enqueued_requests = 0;
  }

  abbrev pub set_size : Node → String → FlowDefinition Real → FlowDefinition Real
  set_size node name flow =
      if is_named name "constant"
      then record flow { request_size_distribution = constant }
      else (if is_named name "normal"
          then record flow {
            request_size_distribution = normal;
            request_size_variance = field yaml node "request_size_variance" 0;
          }
          else flow)

  abbrev pub set_address : Node → String → FlowDefinition Real → FlowDefinition Real
  set_address node name flow =
      if is_named name "uniform"
      then record flow { address_distribution = uniform }
      else (if is_named name "zipfian"
          then record flow {
            address_distribution = zipfian;
            zipfian_alpha = yaml.as_real (yaml.child node "zipfian_alpha") yaml.one;
          }
          else flow)

  -- The flow that is appended.
  unfoldable pub workload_flow : Node → FlowDefinition Real
  workload_flow node =
      let flow = record empty_flow { nsid = field yaml node "namespace" 0 } in
      let counted = record flow {
        seed = field yaml node "seed" 123;
        request_count = field yaml node "request_count" 10000;
        read_ratio = yaml.as_real (yaml.child node "read_ratio") yaml.half;
        request_size_mean = field yaml node "request_size_mean" 8;
      } in
      let size_name = yaml.as_string (yaml.child node "request_size_distribution") "constant" in
      let sized = set_size node size_name counted in
      let address_name = yaml.as_string (yaml.child node "address_distribution") "uniform" in
      let addressed = set_address node address_name sized in
      if is_named (yaml.as_string (yaml.child node "type") "synthetic") "synthetic"
      then record addressed {
        address_alignment = field yaml node "address_alignment" 0;
        average_enqueued_requests = field yaml node "average_enqueued_requests" 1;
      }
      else flow

  unfoldable pub load_workload_flow : Node → HostConfig Real → HostConfig Real
  unfolding workload_flow
  load_workload_flow node config = record config {
    flows = config.flows ++ (workload_flow node ∷ []);
  }

  unfoldable pub load_flows : List Node → HostConfig Real → HostConfig Real
  unfolding load_workload_flow
  load_flows [] config = config
  load_flows (node ∷ rest) config = load_flows rest (load_workload_flow node config)

  unfoldable pub load_host_config :
      Option Node → SsdConfig → HostConfig Real → Loaded (HostConfig Real)
  unfolding add_namespaces load_flows
  load_host_config none ssd_config config = bad_file
  load_host_config (some root) ssd_config config =
      let chip = chip_capacity_sects ssd_config.flash_config 512 in
      loaded (
        load_flows (yaml.elements (yaml.child root "flows")) (record config {
          sector_size = 512;
          io_queue_depth = field yaml root "io_queue_depth" 1024;
          namespaces = add_namespaces chip 0 ssd_config.namespaces config.namespaces;
        }))
