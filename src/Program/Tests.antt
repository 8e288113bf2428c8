-- ===== src/Program/Tests.antt =====
-- The theorems on the program at its start over a small device.
use mcmqhost.Prelude.{ℕ, ◌+◌, ◌≡◌, refl, inl, List, [], some, length, ◌<◌, arith}
use mcmqhost.Nvme.World.{done}
use mcmqhost.Program.{Job, stopped, went, unknown_namespace, run_main}
use mcmqhost.Program.Queues.{run_main-set_thread_id}
use mcmqhost.Nvme.Setup.{set_thread_id}
use mcmqhost.Program.Threads.{ThreadsOf}
use mcmqhost.Program.Runs.{run_main_lem, run_main-unknown_namespace}
use mcmqhost.Program.Inputs.{small_args, small_ssd, small_host, bad_args, bad_flow, bad_host}
use mcmqhost.Program.Samples.{
  small_environment, came_up, files_read, brought_up, bad-FilesRead, bad-BroughtUp, running_link,
  small_run,
}

run_main-unknown_namespace_example :
    run_main small_environment bad_args ≡ stopped (unknown_namespace 1)
run_main-unknown_namespace_example =
    run_main-unknown_namespace small_environment bad_args small_ssd 10 bad_host running_link
      came_up.0 bad-FilesRead bad-BroughtUp [] bad_flow [] refl tt (inl refl)

run_main_lem_example :
    (jobs : List (Job ℕ)) × (run_main small_environment small_args
      ≡ went (running_link, came_up.0, jobs))
    × (length jobs ≡ 1)
    × ThreadsOf small_host 1 small_host.flows jobs
run_main_lem_example =
    run_main_lem small_environment small_args small_ssd 4 small_host running_link came_up.0
      files_read brought_up ((omega arith, omega arith), tt)

run_main-set_thread_id_example :
    (small_run.2.thread_id ≡ 0 + 1)
    × (small_run.2.thread_id < length came_up.0.queues)
    × (set_thread_id small_run.2.thread_id came_up.0
        ≡ done tt (record came_up.0 { thread_io_queue = some small_run.2.thread_id }))
run_main-set_thread_id_example =
    run_main-set_thread_id small_environment small_args running_link came_up.0 small_run.0
      small_run.1 0 small_run.2 small_run.3
