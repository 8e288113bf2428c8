-- ===== src/Program/Runs.antt =====
-- How `main` gets to its threads, or ends at a flow whose namespace it does not know.
use mcmqhost.Prelude.{
  ℕ, zero, suc, ◌+◌, ◌-◌, ◌≤◌, ◌<◌, ◌≡◌, refl, sym, ap, ◌∙◌, ◌⊎◌, true, List, [], ◌∷◌, ◌++◌, none,
  some, length, length-map, get_elem?, arith,
}
use mcmqhost.Memory.Space.{Space}
use mcmqhost.Nvme.World.{World}
use mcmqhost.Link.Base.{PcieLink, new_link, start}
use mcmqhost.Config.Ssd.{Namespace, SsdConfig}
use mcmqhost.Config.Host.{
  FlowDefinition, HostConfig, chip_capacity_sects, ns_capacity_sects, workload_flow, find,
}
use mcmqhost.Config.Host.Capacity.{load_host_config_lem}
use mcmqhost.Program.{
  Args, Backend, Environment, ◌>>=◌, dma_mapping, Job, stopped, went, unknown_namespace,
  empty_host_config, named_backend, make_space, start_driver, make_threads, run_main,
}
use mcmqhost.Program.Threads.{Known, ThreadsOf, make_threads_lem}
use mcmqhost.Program.Start.{FilesRead, read_host, Up, main_threads}

-- The backend, its memory space, the link and the driver came up.
pub record BroughtUp {Node Real : Type 0} (env : Environment Node Real) (args : Args)
    (host : HostConfig Real) (link : PcieLink) (w : World) : Type 0 where
  pub backend : Backend
  pub space : Space
  pub named : named_backend args ≡ went backend
  pub made : make_space env backend ≡ went space
  pub up : env.link_init backend ≡ true
  pub linked : start env.event_fd new_link ≡ some link
  pub started :
      start_driver
        (length host.flows)
        host.io_queue_depth
        (env.world backend (dma_mapping backend space) space)
      ≡ went w

-- Each flow names a namespace of the SSD's configuration.
abbrev pub InRange : {Real : Type 0} → ℕ → List (FlowDefinition Real) → Type 0
InRange n [] = Unit {0}
InRange n (flow ∷ rest) = ((1 ≤ flow.nsid) × (flow.nsid ≤ n)) × InRange n rest

get_elem?-some {ℓ} :
    {A : Type ℓ} (xs : List A) (i : ℕ) → i < length xs → (a : A) × (get_elem? xs i ≡ some a)
get_elem?-some [] i h = absurd (omega arith)
get_elem?-some (x ∷ xs) zero h = (x, refl)
get_elem?-some (x ∷ xs) (suc i) h = get_elem?-some xs i (omega arith)

InRange-Known :
    {Real : Type 0} (host : HostConfig Real) (ssd : SsdConfig) (capacity : Namespace → ℕ)
    → ((j : ℕ) (ns : Namespace)
        → get_elem? ssd.namespaces j ≡ some ns
        → find (1 + j) host.namespaces ≡ some (capacity ns))
    → (flows : List (FlowDefinition Real)) → InRange (length ssd.namespaces) flows
    → Known host flows
InRange-Known host ssd capacity each [] r = tt
InRange-Known host ssd capacity each (flow ∷ rest) ((low, high), r) =
    let (ns, there) = get_elem?-some ssd.namespaces (flow.nsid - 1) (omega (arith, low, high)) in
    let key : flow.nsid ≡ 1 + (flow.nsid - 1) = omega (arith, low) in
    (
      (capacity ns, ap (λ k. find k host.namespaces) key ∙ each (flow.nsid - 1) ns there),
      InRange-Known host ssd capacity each rest r,
    )

module _ {Node Real : Type 0} (env : Environment Node Real) (args : Args) where
  module _ (ssd : SsdConfig) (root : Node) (host : HostConfig Real) (link : PcieLink) (w : World)
      (files : FilesRead env args ssd root host) (up : BroughtUp env args host link w) where
    BroughtUp-Up : Up env args ssd host up.backend up.space link w
    BroughtUp-Up = record {
      ssd_loaded = files.ssd_loaded;
      host_loaded = read_host env args ssd root host files;
      named = up.named;
      made = up.made;
      up = up.up;
      linked = up.linked;
      started = up.started;
    }

    namespace_found :
        (j : ℕ) (ns : Namespace)
        → get_elem? ssd.namespaces j ≡ some ns
        → find (1 + j) host.namespaces
          ≡ some (ns_capacity_sects (chip_capacity_sects ssd.flash_config 512) ns)
    namespace_found =
        let (host', is, each, others, flows) =
          load_host_config_lem env.yaml env.zero_real root ssd empty_host_config refl in
        let same : host' ≡ host = cc in
        λ j ns there.
          ap (λ (c : HostConfig Real). find (1 + j) c.namespaces) (sym same) ∙ each j ns there

    namespace_missing :
        (k : ℕ) → (k ≡ 0) ⊎ (length ssd.namespaces < k) → find k host.namespaces ≡ none
    namespace_missing =
        let (host', is, each, others, flows) =
          load_host_config_lem env.yaml env.zero_real root ssd empty_host_config refl in
        let same : host' ≡ host = cc in
        λ k outside. ap (λ (c : HostConfig Real). find k c.namespaces) (sym same) ∙ others k outside

    flow_entries : length host.flows ≡ length (env.yaml.elements (env.yaml.child root "flows"))
    flow_entries =
        let (host', is, each, others, flows) =
          load_host_config_lem env.yaml env.zero_real root ssd empty_host_config refl in
        let same : host' ≡ host = cc in
        ap (λ (c : HostConfig Real). length c.flows) (sym same)
        ∙ ap length flows
        ∙ length-map (env.yaml.elements (env.yaml.child root "flows"))
            (workload_flow env.yaml env.zero_real)

    in_range :
        (flows : List (FlowDefinition Real))
        → InRange (length ssd.namespaces) flows
        → Known host flows
    in_range flows r =
        InRange-Known host ssd (ns_capacity_sects (chip_capacity_sects ssd.flash_config 512))
          namespace_found flows r

    -- Where the files were read and the link and the driver came up, and every flow names a namespace
    -- from 1 to the number that the SSD's configuration has: `main` gets to run the driver that came
    -- up with one thread for each entry of the workload file, in order, whose ids count from 1, each
    -- with the capacity of its flow's namespace.
    pub run_main_lem :
        InRange (length ssd.namespaces) host.flows
        → (jobs : List (Job Real)) × (run_main env args ≡ went (link, w, jobs))
          × (length jobs ≡ length (env.yaml.elements (env.yaml.child root "flows")))
          × ThreadsOf host 1 host.flows jobs
    run_main_lem r =
        let (jobs, made_threads, count, threads) =
          (make_threads_lem host 1 host.flows (in_range host.flows r)).0 in
        (
          jobs,
          main_threads env args ssd host up.backend up.space link w BroughtUp-Up
              ∙ ap (λ r. r >>= λ js. went (link, w, js)) made_threads,
          count ∙ flow_entries,
          threads,
        )

    -- Where the files were read and the link and the driver came up: `main` ends at the first flow
    -- whose namespace is 0, as it is for an entry without a namespace, or more than the number that
    -- the SSD's configuration has, naming the flow's thread. The driver and the link are then up.
    pub run_main-unknown_namespace :
        (before : List (FlowDefinition Real)) (flow : FlowDefinition Real)
        (after : List (FlowDefinition Real))
        → host.flows ≡ before ++ (flow ∷ after)
        → InRange (length ssd.namespaces) before
        → (flow.nsid ≡ 0) ⊎ (length ssd.namespaces < flow.nsid)
        → run_main env args ≡ stopped (unknown_namespace (1 + length before))
    run_main-unknown_namespace before flow after split r outside =
        main_threads env args ssd host up.backend up.space link w BroughtUp-Up
        ∙ ap (λ r. r >>= λ js. went (link, w, js))
            (ap (make_threads host 1) split
              ∙ (make_threads_lem host 1 before (in_range before r)).1 flow after
                  (namespace_missing flow.nsid outside))
