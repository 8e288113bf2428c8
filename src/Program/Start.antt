-- ===== src/Program/Start.antt =====
-- How `main` comes to make its threads.
use mcmqhost.Prelude.{◌≡◌, refl, ap, ◌∙◌, true, some, length}
use mcmqhost.Memory.Space.{Space}
use mcmqhost.Nvme.World.{World}
use mcmqhost.Link.Base.{PcieLink, new_link, start}
use mcmqhost.Config.Yaml.{loaded}
use mcmqhost.Config.Ssd.{SsdConfig, load_ssd_config}
use mcmqhost.Config.Host.{HostConfig, load_host_config}
use mcmqhost.Program.{
  Args, Backend, Environment, went, ◌>>=◌, dma_mapping, empty_ssd_config, empty_host_config,
  named_backend, make_space, start_driver, make_threads, run_main,
}

module _ {Node Real : Type 0} (env : Environment Node Real) (args : Args) (ssd : SsdConfig)
    (host : HostConfig Real) where
  -- What comes up before the threads are made.
  pub record Up (backend : Backend) (space : Space) (link : PcieLink) (w : World) : Type 0 where
    pub ssd_loaded : load_ssd_config env.yaml (env.files args.config) empty_ssd_config ≡ loaded ssd
    pub host_loaded :
        load_host_config env.yaml env.zero_real (env.files args.workload) ssd empty_host_config
        ≡ loaded host
    pub named : named_backend args ≡ went backend
    pub made : make_space env backend ≡ went space
    pub up : env.link_init backend ≡ true
    pub linked : start env.event_fd new_link ≡ some link
    pub started :
        start_driver
          (length host.flows)
          host.io_queue_depth
          (env.world backend (dma_mapping backend space) space)
        ≡ went w

  -- Then `main` ends as the making of the threads does.
  pub main_threads :
      (backend : Backend) (space : Space) (link : PcieLink) (w : World)
      → Up backend space link w
      → run_main env args ≡ (make_threads host 1 host.flows >>= λ jobs. went (link, w, jobs))
  unfolding run_main
  main_threads backend space link w u =
      rw (u.ssd_loaded, u.host_loaded, u.named, u.made, u.up, u.linked, u.started) refl

-- The files that `main` reads, as they come out of the readers.
pub record FilesRead {Node Real : Type 0} (env : Environment Node Real) (args : Args)
    (ssd : SsdConfig) (root : Node) (host : HostConfig Real) : Type 0 where
  pub ssd_loaded : load_ssd_config env.yaml (env.files args.config) empty_ssd_config ≡ loaded ssd
  pub workload_file : env.files args.workload ≡ some root
  pub host_loaded :
      load_host_config env.yaml env.zero_real (some root) ssd empty_host_config ≡ loaded host

module _ {Node Real : Type 0} (env : Environment Node Real) (args : Args) where
  pub read_host :
      (ssd : SsdConfig) (root : Node) (host : HostConfig Real)
      → FilesRead env args ssd root host
      → load_host_config env.yaml env.zero_real (env.files args.workload) ssd empty_host_config
        ≡ loaded host
  read_host ssd root host files =
      ap (λ f. load_host_config env.yaml env.zero_real f ssd empty_host_config) files.workload_file
      ∙ files.host_loaded
