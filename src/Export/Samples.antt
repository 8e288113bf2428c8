-- ===== src/Export/Samples.antt =====
-- Histograms and results that the runs of the export use.
use mcmqhost.Prelude.{ℕ, ◌+◌, List, [], ◌∷◌, map}
use mcmqhost.Export.SimResult.{HistogramEntry, Times, SimResult}
use mcmqhost.Export.Host.{Hdr}

-- Each histogram of times is the list of their ends, at one percentile each.
abbrev pub ends : Hdr (List ℕ) ℕ
ends = record {
  percentiles = λ ticks hist.
      map (λ n. record { highest_equivalent_value = n; percentile = 100; cumulative_count = 1 })
        hist;
  hdr_mean = λ hist. 3;
  hdr_stddev = λ hist. 1;
  hdr_max = λ hist. 9;
}

abbrev pub ends_of : List (ℕ × ℕ) → List ℕ
ends_of spans = map (λ span. span.1) spans

abbrev pub one_entry : HistogramEntry ℕ
one_entry = record { value = 12; percentile = 50; total_count = 4 }

abbrev pub some_times : ℕ → Times ℕ
some_times n = record {
  time_histogram = one_entry ∷ one_entry ∷ [];
  time_mean = n;
  time_stddev = 2;
  max_time = n + 5;
}

abbrev pub sim_result : SimResult ℕ
sim_result = record {
  host_queue_stats =
      record {
        queue_id = 1;
        read_request_turnaround_time_histogram = one_entry ∷ [];
        write_request_turnaround_time_histogram = [];
        read_request_turnaround_time_mean = 10;
        read_request_turnaround_time_stddev = 1;
        max_read_request_turnaround_time = 20;
        write_request_turnaround_time_mean = 0;
        write_request_turnaround_time_stddev = 0;
        max_write_request_turnaround_time = 0;
        read_request_count = 4;
        write_request_count = 0;
      }
      ∷ [];
  nvm_controller_stats = record {
    read_command_count = 4;
    multiplane_read_command_count = 1;
    program_command_count = 2;
    multiplane_program_command_count = 0;
    erase_command_count = 3;
    multiplane_erase_command_count = 0;
    chip_stats =
        record { channel_id = 1; chip_id = 2; total_transfer_time = 30; total_execution_time = 40 }
        ∷ [];
  };
  tsu_stats = record {
    read_waiting = some_times 1;
    write_waiting = some_times 2;
    erase_waiting = some_times 3;
    enqueued_read_transactions = 4;
    enqueued_write_transactions = 5;
    enqueued_erase_transactions = 6;
    read_transfer = some_times 7;
    read_execution = some_times 8;
    write_transfer = some_times 9;
    write_execution = some_times 10;
  };
}
