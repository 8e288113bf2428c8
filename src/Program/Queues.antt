-- ===== src/Program/Queues.antt =====
-- The threads of the program and the queues of the driver.
use mcmqhost.Prelude.{
  ℕ, zero, suc, ◌+◌, ◌<◌, ◌≡◌, refl, sym, ap, subst, ◌∙◌, true, false, List, [], ◌∷◌, Option, none,
  some, length, get_elem?, arith, ltb, if◌then◌else◌,
}
use mcmqhost.Nvme.World.{World, Outcome, done, fail, ◌>>◌}
use mcmqhost.Nvme.Setup.{construct, start, set_thread_id}
use mcmqhost.Link.Base.{PcieLink, new_link, start as start_link}
use mcmqhost.Nvme.Sized.Start.{start-queues}
use mcmqhost.Config.Ssd.{load_ssd_config}
use mcmqhost.Config.Host.{FlowDefinition, HostConfig, find, load_host_config}
use mcmqhost.Program.{
  Args, Environment, Job, Result, stopped, went, ◌>>=◌, driver_started, start_driver, file_loaded,
  bad_ssd_config, bad_workload, uncaught, option_given, dma_mapping, link_failed, empty_ssd_config,
  empty_host_config, named_backend, make_space, prepend, create_thread, at_flow, make_threads,
  run_main,
}

-- A step that went on, and what it handed on.
abbrev Went {ℓ} : {A : Type ℓ} → Result A → Type ℓ
Went {A = A} m = (a : A) × (m ≡ went a)

bind-went {ℓ κ} :
    {A : Type ℓ} {B : Type κ} (m : Result A) (f : A → Result B) (b : B)
    → m >>= f ≡ went b
    → (a : A) × (m ≡ went a) × (f a ≡ went b)
bind-went (stopped e) f b h = cc
bind-went (went a) f b h = (a, refl, h)

went-triple {ℓ κ μ} :
    {A : Type ℓ} {B : Type κ} {C : Type μ} {a d : A} {b e : B} {c f : C}
    → ◌≡◌ {A = Result (A × B × C)} (went (a, b, c)) (went (d, e, f))
    → (b ≡ e) × (c ≡ f)
went-triple {A = A} {B = B} {C = C} {a = a} {d = d} {b = b} {e = e} {c = c} {f = f} h =
    let same : ◌≡◌ {A = A × B × C} (a, b, c) (d, e, f) = cc in
    (ap (λ p. p.1) same, ap (λ p. p.2) same)

driver_started-done :
    (o : Outcome (Unit {0})) (w : World) → driver_started o ≡ went w → o ≡ done tt w
driver_started-done (done a w') w h = cc
driver_started-done (fail e w') w h = cc

start_driver-queues :
    (ncpus io_queue_depth : ℕ) (w w' : World)
    → start_driver ncpus io_queue_depth w ≡ went w'
    → length w'.queues ≡ ncpus + 1
unfolding start_driver
start_driver-queues ncpus io_queue_depth w w' h =
    start-queues ncpus io_queue_depth w w'
      (driver_started-done ((construct ncpus io_queue_depth false >> start) w) w' h)

module _ {Real : Type 0} where
  prepend-went :
      (job : Job Real) (rest : Result (List (Job Real))) (jobs : List (Job Real))
      → prepend job rest ≡ went jobs
      → (more : List (Job Real)) × (rest ≡ went more) × (jobs ≡ job ∷ more)
  prepend-went job (stopped e) jobs h = cc
  prepend-went job (went more) jobs h = (more, refl, cc)

  -- The ids of the threads that are made count from `id` on.
  abbrev Numbered : ℕ → List (FlowDefinition Real) → List (Job Real) → Type 0
  Numbered id flows jobs =
      (j : ℕ) (job : Job Real)
      → get_elem? jobs j ≡ some job
      → (job.thread_id ≡ id + j) × (j < length flows)

  at_flow-went :
      (config : HostConfig Real) (id : ℕ) (flow : FlowDefinition Real) (found : Option ℕ)
      (rest : Result (List (Job Real))) (jobs : List (Job Real))
      → at_flow config id flow found rest ≡ went jobs
      → (job : Job Real) × (more : List (Job Real)) × (job.thread_id ≡ id)
        × (rest ≡ went more)
        × (jobs ≡ job ∷ more)
  at_flow-went config id flow none rest jobs h = cc
  at_flow-went config id flow (some capacity) rest jobs h =
      let job = create_thread id config.io_queue_depth config.sector_size capacity flow in
      let (more, is, split) = prepend-went job rest jobs h in (job, more, refl, is, split)

  Numbered-cons :
      (id : ℕ) (flow : FlowDefinition Real) (rest : List (FlowDefinition Real)) (first : Job Real)
      (more : List (Job Real))
      → first.thread_id ≡ id
      → Numbered (id + 1) rest more
      → Numbered id (flow ∷ rest) (first ∷ more)
  Numbered-cons id flow rest first more is later zero job at =
      let it : some first ≡ some job = at in
      let same : first ≡ job = cc in
      (ap (λ (x : Job Real). x.thread_id) (sym same) ∙ is ∙ omega arith, omega arith)
  Numbered-cons id flow rest first more is later (suc j) job at =
      let (number, inside) = later j job at in (omega (arith, number), omega (arith, inside))

  make_threads-Numbered :
      (config : HostConfig Real) (id : ℕ) (flows : List (FlowDefinition Real))
      (jobs : List (Job Real))
      → make_threads config id flows ≡ went jobs
      → Numbered id flows jobs
  unfolding make_threads
  make_threads-Numbered config id [] jobs h = λ j job at.
      let same : went [] ≡ went jobs = h in
      let none_made : [] ≡ jobs = cc in
      let gone : none ≡ some job = ap (λ (js : List (Job Real)). get_elem? js j) none_made ∙ at in
      cc
  make_threads-Numbered config id (flow ∷ rest) jobs h =
      let (first, more, is, made, split) =
        at_flow-went config id flow (find flow.nsid config.namespaces)
          (make_threads config (id + 1) rest) jobs h in
      subst (Numbered id (flow ∷ rest)) (sym split) (
        Numbered-cons id flow rest first more is
          (make_threads-Numbered config (id + 1) rest more made))

set_thread_id_lem :
    (id : ℕ) (w : World)
    → id < length w.queues
    → set_thread_id id w ≡ done tt (record w { thread_io_queue = some id })
unfolding set_thread_id
set_thread_id_lem id w inside =
    let there : ltb id (length w.queues) ≡ true = ground arith in rw there refl

module _ {Node Real : Type 0} (env : Environment Node Real) (args : Args) (link : PcieLink)
    (w : World) (jobs : List (Job Real)) where
  -- What `run_main` went through.
  came_through :
      run_main env args ≡ went (link, w, jobs)
      → (host : HostConfig Real) × (w0 : World) × (start_driver
            (length host.flows)
            host.io_queue_depth
            w0
          ≡ went w)
        × (make_threads host 1 host.flows ≡ went jobs)
  unfolding run_main
  came_through h =
      let (ssd, _, h1) =
        bind-went
          (file_loaded bad_ssd_config
            (load_ssd_config env.yaml (env.files args.config) empty_ssd_config))
          _ (link, w, jobs) h in
      let (host, _, h2) =
        bind-went
          (file_loaded bad_workload (
            load_host_config env.yaml env.zero_real (env.files args.workload) ssd
              empty_host_config))
          _ (link, w, jobs) h1 in
      let (backend, _, h3) = bind-went (named_backend args) _ (link, w, jobs) h2 in
      let (space, _, h4) = bind-went (make_space env backend) _ (link, w, jobs) h3 in
      let (u, _, h5) =
        bind-went (if env.link_init backend then went tt else stopped link_failed) _ (link, w, jobs)
          h4 in
      let (link', _, h6) =
        bind-went (option_given uncaught (start_link env.event_fd new_link)) _ (link, w, jobs) h5 in
      let w0 = env.world backend (dma_mapping backend space) space in
      let (w', started, h7) =
        bind-went (start_driver (length host.flows) host.io_queue_depth w0) _ (link, w, jobs) h6 in
      let (jobs', made, h8) = bind-went (make_threads host 1 host.flows) _ (link, w, jobs) h7 in
      let (same_driver, same_threads) = went-triple h8 in
      (host, w0, started ∙ ap went same_driver, made ∙ ap went same_threads)

  -- If `main` gets to run its threads: the thread at index `j` has the id `j + 1`, for which the
  -- driver has a queue, so that the assertion of `set_thread_id`, with which the thread begins, holds
  -- and the call makes that queue the thread's.
  pub run_main-set_thread_id :
      run_main env args ≡ went (link, w, jobs)
      → (j : ℕ) (job : Job Real) → get_elem? jobs j ≡ some job
      → (job.thread_id ≡ j + 1)
        × (job.thread_id < length w.queues)
        × (set_thread_id job.thread_id w
            ≡ done tt (record w { thread_io_queue = some job.thread_id }))
  run_main-set_thread_id ran j job at =
      let (host, w0, started, made) = came_through ran in
      let (number, inside) = make_threads-Numbered host 1 host.flows jobs made j job at in
      let queues = start_driver-queues (length host.flows) host.io_queue_depth w0 w started in
      let own : job.thread_id < length w.queues = omega (arith, number, inside, queues) in
      (omega (arith, number), own, set_thread_id_lem job.thread_id w own)
