-- ===== src/Program/Finish/Tests.antt =====
-- A whole run of the program over a small device.
use Prim.Native.String.{String}
use mcmqhost.Prelude.{
  ℕ, ◌+◌, ◌≡◌, refl, false, List, Option, none, some, length, get_elem?, arith, if◌then◌else◌,
}
use mcmqhost.IoThread.{Thread, new_thread}
use mcmqhost.IoThread.Samples.{whole}
use mcmqhost.Config.Yaml.{is_named}
use mcmqhost.Config.Host.{FlowDefinition}
use mcmqhost.Export.Values.{values, values_lawful}
use mcmqhost.Export.Import.{ThreadView}
use mcmqhost.Export.Samples.{ends, ends_of, sim_result}
use mcmqhost.Program.{Job}
use mcmqhost.Program.Threads.{thread_for}
use mcmqhost.Program.Inputs.{small_ssd, small_host}
use mcmqhost.Program.Samples.{small_environment, running_link, came_up, files_read, brought_up}
use mcmqhost.Program.Finish.{Aftermath, Ended, success, parsed, args_of, main}
use mcmqhost.Program.Finish.Exported.{Left, main-import_result}

-- The command line of `small_args`.
abbrev small_options : String → Option String
small_options name =
    if is_named name "backend"
    then some "vfio"
    else (if is_named name "memory"
        then some ""
        else (if is_named name "config"
            then some "ssd"
            else (if is_named name "workload"
                then some "load"
                else (if is_named name "result"
                    then some "out"
                    else (if is_named name "group"
                        then some "0"
                        else (if is_named name "device" then some "1" else none))))))

abbrev idle_thread : Job ℕ → Thread ℕ
idle_thread job = new_thread 0 job.queue_depth 0 (λ n. n)

abbrev all_return : Aftermath ℕ ℕ (List ℕ)
all_return = record {
  ran = λ job. some (idle_thread job);
  seconds = λ job. 2;
  recorded = ends_of;
  driver_after = λ w. w;
  reported = some sim_result;
}

main-import_result_example :
    (end : Ended whole all_return values ends) × (views : List (ThreadView ℕ)) × (main whole
        all_return values ends small_environment
        (parsed false small_options)
      ≡ (success, some end))
    × Left whole all_return values values_lawful ends idle_thread
        (λ job. refl)
        small_environment
        small_options
        came_up.0
        views
        sim_result
        end
    × (length views ≡ 1)
    × ((j : ℕ) (flow : FlowDefinition ℕ)
        → get_elem? small_host.flows j ≡ some flow
        → (v : ThreadView ℕ) × (c : ℕ) × (get_elem? views j ≡ some v)
          × (v.id ≡ 1 + j)
          × (v.total_requests
              ≡ (idle_thread (thread_for small_host (1 + j) c flow)).nr_completed_requests))
unfolding args_of
main-import_result_example =
    main-import_result whole all_return values values_lawful ends idle_thread (λ job. refl)
      small_environment small_options small_ssd 4 small_host running_link came_up.0 sim_result
      files_read brought_up ((omega arith, omega arith), tt) refl
