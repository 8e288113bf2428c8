-- ===== src/Program/Finish.antt =====
-- The whole of `main` of main.cpp: the options, the threads' runs, the results and the end. What
-- `run_main` takes from its `Environment` and the rest here from an `Aftermath` is what the world
-- does.
pub mod Exported
mod Tests
use Prim.Native.String.{String}
use mcmqhost.Prelude.{ℕ, Bool, true, false, List, [], ◌∷◌, Option, none, some, if◌then◌else◌}
use mcmqhost.Nvme.World.{World, Outcome, done, fail}
use mcmqhost.Nvme.Controller.{shutdown}
use mcmqhost.IoThread.{Thread}
use mcmqhost.IoThread.Zipf.{Real as Arithmetic}
use mcmqhost.Link.Base.{PcieLink, stop}
use mcmqhost.Export.Json.{Json}
use mcmqhost.Export.SimResult.{SimResult}
use mcmqhost.Export.Host.{Hdr, Stats, HostResult, run_stats, export_result}
use mcmqhost.Program.{
  Args, Environment, Job, Stop, bad_options, bad_ssd_config, bad_workload, unknown_backend,
  link_failed, uncaught, unknown_namespace, Result, stopped, went, ◌>>=◌, option_given, run_main,
  driver_started,
}

-- What cxxopts makes of the command line: an exception, or whether help is asked for and the value
-- of each long option.
pub data Parsed : Type 0 where
  malformed : Parsed
  parsed : Bool → (String → Option String) → Parsed

abbrev pub or_default : Option String → String → String
or_default none otherwise = otherwise
or_default (some value) otherwise = value

-- The options with the defaults that `parse_arguments` gives them.
unfoldable pub args_of : (String → Option String) → Args
args_of option = record {
  backend = or_default (option "backend") "mcmq";
  memory = or_default (option "memory") "/dev/shm/ivshmem";
  config = or_default (option "config") "ssdconfig.yaml";
  workload = or_default (option "workload") "workload.yaml";
  result = or_default (option "result") "result.json";
  group = option "group";
  device = option "device";
}

-- `terminated`: an exception that nothing catches, or an abort.
pub data Exit : Type 0 where
  success failure terminated : Exit

-- The status that each message of `main` ends with. Where `main` returns from its loop over the flows,
-- the link's thread runs, so that its `std::thread` is destroyed while it can be joined, which ends the
-- program.
unfoldable pub exit_of : Stop → Exit
exit_of bad_options = failure
exit_of bad_ssd_config = failure
exit_of bad_workload = failure
exit_of unknown_backend = failure
exit_of link_failed = failure
exit_of (unknown_namespace thread_id) = terminated
exit_of uncaught = terminated

pub record Aftermath (D Real Hist : Type 0) : Type 0 where
  -- a thread's object when `run_impl` returns, if it does, and the seconds that it took
  pub ran : Job Real → Option (Thread D)
  pub seconds : Job Real → Real
  pub recorded : List (ℕ × ℕ) → Hist
  -- what the threads and the device make of the driver meanwhile
  pub driver_after : World → World
  -- what the link reports, if it does not throw
  pub reported : Option (SimResult Real)

module _ {D Real Hist : Type 0} (r : Arithmetic Real) (after : Aftermath D Real Hist) where
  abbrev pub prepend :
      Job Real
      → Option (Thread D)
      → Result (List (Stats Hist Real))
      → Result (List (Stats Hist Real))
  prepend job none rest = stopped uncaught
  prepend job (some t) rest = rest >>= λ stats.
      went (run_stats r after.recorded job.thread_id (after.seconds job) t ∷ stats)

  -- The loops over `io_threads` that run them, join them and collect their statistics.
  unfoldable pub run_threads : List (Job Real) → Result (List (Stats Hist Real))
  unfolding run_stats
  run_threads [] = went []
  run_threads (job ∷ jobs) = prepend job (after.ran job) (run_threads jobs)

  module _ {J : Type 0} (json : Json J Real) (hdr : Hdr Hist Real) where
    -- What is left behind: the file's name and value, the driver and the link.
    pub record Ended : Type 0 where
      pub file : String
      pub value : J
      pub driver : World
      pub link : PcieLink

    -- From the threads on, with the link that `start` made.
    unfoldable pub finish : Args → PcieLink → World → List (Job Real) → Result Ended
    unfolding run_threads export_result shutdown stop
    finish args link w jobs = do
      stats ← run_threads jobs
      sim_result ← option_given uncaught after.reported
      driver ← driver_started (shutdown (after.driver_after w))
      link' ← option_given uncaught (stop link)
      went (record {
        file = args.result;
        value = export_result json r hdr (record { thread_stats = stats }) sim_result;
        driver = driver;
        link = link';
      })

    abbrev pub ended : Result Ended → Exit × Option Ended
    ended (stopped e) = (exit_of e, none)
    ended (went end) = (success, some end)

    unfoldable pub main : {Node : Type 0} → Environment Node Real → Parsed → Exit × Option Ended
    unfolding args_of exit_of run_main finish
    main env malformed = (failure, none)
    main env (parsed true option) = (success, none)
    main env (parsed false option) =
        let args = args_of option in
        ended (run_main env args >>= λ (link, w, jobs). finish args link w jobs)
