-- ===== src/Export/Tests.antt =====
-- The export over the JSON values of `Export.Values`, with natural numbers for `double` and lists for histograms.
use mcmqhost.Prelude.{ℕ, ◌+◌, ◌≤◌, ◌≡◌, max, List, [], ◌∷◌, some, map, arith}
use mcmqhost.Export.Values.{values, values_lawful}
use mcmqhost.Export.Host.{Stats, HostResult, run_stats, export_thread_stats, export_result}
use mcmqhost.Export.Import.{ThreadView, import_thread, import_result}
use mcmqhost.Export.Totals.{export_thread_stats-run_stats}
use mcmqhost.IoThread.Samples.{counting, workload, draw, whole, all_events, all_ran, all_completed}
use mcmqhost.Export.RoundTrip.{thread_view, import_result-export_result}
use mcmqhost.Export.Samples.{ends, ends_of, sim_result}

abbrev thread_stats : Stats (List ℕ) ℕ
thread_stats = record {
  thread_id = 1;
  request_count = 5;
  read_request_count = 3;
  write_request_count = 2;
  iops_total = 50;
  iops_read = 30;
  iops_write = 20;
  bandwidth_total = 500;
  bandwidth_read = 300;
  bandwidth_write = 200;
  device_response_time_hist = 3 ∷ 9 ∷ [];
  e2e_latency_hist = 4 ∷ [];
}

abbrev host_result : HostResult (List ℕ) ℕ
host_result = record { thread_stats = thread_stats ∷ thread_stats ∷ [] }

import_result-export_result_example :
    import_result values (export_result values whole ends host_result sim_result)
    ≡ some (map (thread_view values values_lawful whole ends) host_result.thread_stats, sim_result)
import_result-export_result_example =
    import_result-export_result values values_lawful whole ends host_result sim_result

export_thread_stats-run_stats_example :
    (v : ThreadView ℕ) × (import_thread values
        (export_thread_stats values whole ends (run_stats whole ends_of 1 2 all_ran.0))
      ≡ some v)
    × (v.id ≡ 1)
    × (v.total_requests ≡ v.read_requests + v.write_requests)
    × (5 ≤ v.total_requests)
    × (v.total_requests ≤ max 5 3)
export_thread_stats-run_stats_example =
    export_thread_stats-run_stats values values_lawful whole ends ends_of 2 5 counting workload draw
      all_events 0 (λ n. n) (omega arith) all_ran.0 all_ran.1 all_completed 1 2
