-- ===== src/Program/Finish/Exported.antt =====
-- What the finished program leaves.
use Prim.Native.String.{String}
use mcmqhost.Prelude.{
  ℕ, zero, suc, ◌+◌, ◌≡◌, refl, ap, ◌∙◌, true, false, List, [], ◌∷◌, Option, none, some, map,
  length, length-map, get_elem?,
}
use mcmqhost.Nvme.World.{World, done}
use mcmqhost.Nvme.Controller.{shutdown}
use mcmqhost.Nvme.Sized.{left}
use mcmqhost.IoThread.{Thread}
use mcmqhost.IoThread.Zipf.{Real as Arithmetic}
use mcmqhost.Link.Base.{PcieLink, new_link, start, stop}
use mcmqhost.Config.Ssd.{SsdConfig}
use mcmqhost.Config.Host.{FlowDefinition, HostConfig}
use mcmqhost.Export.Json.{Json, JsonLaws}
use mcmqhost.Export.SimResult.{SimResult}
use mcmqhost.Export.Host.{Hdr, Stats, run_stats, export_result}
use mcmqhost.Export.Import.{ThreadView, import_result}
use mcmqhost.Export.RoundTrip.{thread_view, import_result-export_result}
use mcmqhost.Program.{Environment, Job, went}
use mcmqhost.Program.Threads.{ThreadsOf, thread_for}
use mcmqhost.Program.Start.{FilesRead}
use mcmqhost.Program.Runs.{BroughtUp, InRange, run_main_lem}
use mcmqhost.Program.Finish.{success, Aftermath, Ended, parsed, args_of, run_threads, finish, main}

get_elem?-map {ℓ κ} :
    {A : Type ℓ} {B : Type κ} (f : A → B) (xs : List A) (i : ℕ) {a : A}
    → get_elem? xs i ≡ some a
    → get_elem? (map f xs) i ≡ some (f a)
get_elem?-map f [] i there = cc
get_elem?-map f (x ∷ xs) zero {a} there =
    let it : some x ≡ some a = there in let same : x ≡ a = cc in ap (λ y. some (f y)) same
get_elem?-map f (x ∷ xs) (suc i) there = get_elem?-map f xs i there

stop-running :
    (link : PcieLink)
    → link.running ≡ true
    → (link' : PcieLink) × (stop link ≡ some link')
      × (link'.stopped ≡ true)
      × (link'.running ≡ false)
unfolding stop
stop-running link runs = rw runs (_, refl, refl, refl)

start-running :
    (fd : Option ℕ) (link : PcieLink) → start fd new_link ≡ some link → link.running ≡ true
unfolding start
start-running none link started = cc
start-running (some fd) link started = cc

module _ {D Real Hist J : Type 0} (r : Arithmetic Real) (after : Aftermath D Real Hist)
    (json : Json J Real) (laws : JsonLaws json) (hdr : Hdr Hist Real) (thread : Job Real → Thread D)
    (all_ran : (job : Job Real) → after.ran job ≡ some (thread job)) where
  abbrev pub stats_of : Job Real → Stats Hist Real
  stats_of job = run_stats r after.recorded job.thread_id (after.seconds job) (thread job)

  run_threads-all : (jobs : List (Job Real)) → run_threads r after jobs ≡ went (map stats_of jobs)
  unfolding run_threads
  run_threads-all [] = refl
  run_threads-all (job ∷ jobs) = rw (all_ran job, run_threads-all jobs) refl

  module _ {Node : Type 0} (env : Environment Node Real) (option : String → Option String) where
    -- What is left when `main` ends: the named file with a value of which a reader gets `views` and
    -- `sim`; the driver shut down; and the link stopped.
    pub record Left (w : World) (views : List (ThreadView Real)) (sim : SimResult Real)
        (end : Ended r after json hdr) : Type 0 where
      pub file : end.file ≡ (args_of option).result
      pub value : import_result json end.value ≡ some (views, sim)
      pub driver : shutdown (after.driver_after w) ≡ done tt end.driver
      pub stopped : end.link.stopped ≡ true
      pub joined : end.link.running ≡ false

    abbrev end_of : PcieLink → World → List (Job Real) → SimResult Real → Ended r after json hdr
    end_of link w jobs sim = record {
      file = (args_of option).result;
      value = export_result json r hdr (record { thread_stats = map stats_of jobs }) sim;
      driver = left (shutdown (after.driver_after w));
      link = link;
    }

    finish-Left :
        (link : PcieLink) (w : World) (jobs : List (Job Real)) (sim : SimResult Real)
        → link.running ≡ true
        → after.reported ≡ some sim
        → (end : Ended r after json hdr) × (finish r after json hdr (args_of option) link w jobs
            ≡ went end)
          × Left w (map (thread_view json laws r hdr) (map stats_of jobs)) sim end
    unfolding finish shutdown
    finish-Left link w jobs sim runs reported =
        let (link', ended, stopped, joined) = stop-running link runs in
        (
          end_of link' w jobs sim,
          rw (run_threads-all jobs, reported, ended) refl,
          record {
            file = refl;
            value =
                import_result-export_result json laws r hdr
                  (record { thread_stats = map stats_of jobs }) sim;
            driver = refl;
            stopped = stopped;
            joined = joined;
          },
        )

    view_of :
        (host : HostConfig Real) (jobs : List (Job Real)) (j : ℕ) (flow : FlowDefinition Real)
        → ThreadsOf host 1 host.flows jobs
        → get_elem? host.flows j ≡ some flow
        → (c : ℕ) × (get_elem? (map (thread_view json laws r hdr) (map stats_of jobs)) j
            ≡ some (thread_view json laws r hdr (stats_of (thread_for host (1 + j) c flow))))
    view_of host jobs j flow threads there =
        let (c, found, at) = threads j flow there in
        (
          c,
          get_elem?-map (thread_view json laws r hdr) (map stats_of jobs) j
              (get_elem?-map stats_of jobs j at),
        )

    -- Where the files were read, the link and the driver came up, and every flow names a namespace of
    -- the SSD's configuration, and where every thread's run returns and the link reports a result:
    -- `main` succeeds. It leaves the file that the options name with a value of which a reader gets
    -- the device's result and one entry for each flow, in order, with the thread ids from 1 on and
    -- the number of requests that the thread completed; it has shut the driver down, and stopped and
    -- joined the link's thread.
    pub main-import_result :
        (ssd : SsdConfig) (root : Node) (host : HostConfig Real) (link : PcieLink) (w : World)
        (sim : SimResult Real)
        → FilesRead env (args_of option) ssd root host
        → BroughtUp env (args_of option) host link w
        → InRange (length ssd.namespaces) host.flows
        → after.reported ≡ some sim
        → (end : Ended r after json hdr) × (views : List (ThreadView Real)) × (main r after json hdr
              env
              (parsed false option)
            ≡ (success, some end))
          × Left w views sim end
          × (length views ≡ length (env.yaml.elements (env.yaml.child root "flows")))
          × ((j : ℕ) (flow : FlowDefinition Real)
              → get_elem? host.flows j ≡ some flow
              → (v : ThreadView Real) × (c : ℕ) × (get_elem? views j ≡ some v)
                × (v.id ≡ 1 + j)
                × (v.total_requests
                    ≡ (thread (thread_for host (1 + j) c flow)).nr_completed_requests))
    unfolding main run_stats
    main-import_result ssd root host link w sim files up in_range reported =
        let args = args_of option in
        let (jobs, ran, count, threads) =
          run_main_lem env args ssd root host link w files up in_range in
        let (end, ended, left_over) =
          finish-Left link w jobs sim (start-running env.event_fd link up.linked) reported in
        (
          end,
          map (thread_view json laws r hdr) (map stats_of jobs),
          rw (ran, ended) refl,
          left_over,
          length-map (map stats_of jobs) (thread_view json laws r hdr)
              ∙ length-map jobs stats_of
              ∙ count,
          λ j flow there.
              let (c, at) = view_of host jobs j flow threads there in
              (
                thread_view json laws r hdr (stats_of (thread_for host (1 + j) c flow)),
                c,
                at,
                refl,
                refl,
              ),
        )
