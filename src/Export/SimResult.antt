-- ===== src/Export/SimResult.antt =====
-- The results of the device, the messages of proto/sim_result.proto, and their export by
-- result_exporter.cpp. `R` is `double`.
use Prim.Native.String.{String, ◌++◌ as ◌++ₛ◌}
use mcmqhost.Prelude.{ℕ, List, [], ◌∷◌, ◌++◌, map}
use mcmqhost.Export.Json.{Json, filled, array_of}

pub record HistogramEntry (R : Type 0) : Type 0 where
  pub value : R
  pub percentile : R
  pub total_count : ℕ

pub record HostQueueStats (R : Type 0) : Type 0 where
  pub queue_id : ℕ
  pub read_request_turnaround_time_histogram : List (HistogramEntry R)
  pub write_request_turnaround_time_histogram : List (HistogramEntry R)
  pub read_request_turnaround_time_mean : R
  pub read_request_turnaround_time_stddev : R
  pub max_read_request_turnaround_time : R
  pub write_request_turnaround_time_mean : R
  pub write_request_turnaround_time_stddev : R
  pub max_write_request_turnaround_time : R
  pub read_request_count : ℕ
  pub write_request_count : ℕ

pub record ChipStats : Type 0 where
  pub channel_id : ℕ
  pub chip_id : ℕ
  pub total_transfer_time : ℕ
  pub total_execution_time : ℕ

pub record NvmControllerStats : Type 0 where
  pub read_command_count : ℕ
  pub multiplane_read_command_count : ℕ
  pub program_command_count : ℕ
  pub multiplane_program_command_count : ℕ
  pub erase_command_count : ℕ
  pub multiplane_erase_command_count : ℕ
  pub chip_stats : List ChipStats

-- The four fields `<name>_time_histogram`, `<name>_time_mean`, `<name>_time_stddev` and
-- `max_<name>_time` of `TSUStats`, which it has for each name that `EXPORT_HIST` is used with.
pub record Times (R : Type 0) : Type 0 where
  pub time_histogram : List (HistogramEntry R)
  pub time_mean : R
  pub time_stddev : R
  pub max_time : R

pub record TsuStats (R : Type 0) : Type 0 where
  pub read_waiting : Times R
  pub write_waiting : Times R
  pub erase_waiting : Times R
  pub enqueued_read_transactions : ℕ
  pub enqueued_write_transactions : ℕ
  pub enqueued_erase_transactions : ℕ
  pub read_transfer : Times R
  pub read_execution : Times R
  pub write_transfer : Times R
  pub write_execution : Times R

pub record SimResult (R : Type 0) : Type 0 where
  pub host_queue_stats : List (HostQueueStats R)
  pub nvm_controller_stats : NvmControllerStats
  pub tsu_stats : TsuStats R

module _ {J R : Type 0} (json : Json J R) where
  -- The assignments of `export_histogram_entry`.
  abbrev pub entry_fields : HistogramEntry R → List (String × J)
  entry_fields entry =
      ("percentile", json.real entry.percentile)
      ∷ ("value", json.real entry.value)
      ∷ ("total_count", json.uint entry.total_count)
      ∷ []

  unfoldable pub export_histogram_entry : HistogramEntry R → J
  export_histogram_entry entry = filled json json.null (entry_fields entry)

  -- The loop over the entries of a histogram.
  abbrev pub histogram_array : List (HistogramEntry R) → J
  histogram_array entries = array_of json (map export_histogram_entry entries)

  -- The assignments of `export_queue_stats`.
  abbrev pub queue_fields : HostQueueStats R → List (String × J)
  queue_fields s =
      ("queue_id", json.uint s.queue_id)
      ∷ ("read_request_turnaround_time_mean", json.real s.read_request_turnaround_time_mean)
      ∷ ("read_request_turnaround_time_stddev", json.real s.read_request_turnaround_time_stddev)
      ∷ ("max_read_request_turnaround_time", json.real s.max_read_request_turnaround_time)
      ∷ ("read_request_latency_histogram", histogram_array s.read_request_turnaround_time_histogram)
      ∷ ("write_request_turnaround_time_mean", json.real s.write_request_turnaround_time_mean)
      ∷ ("write_request_turnaround_time_stddev", json.real s.write_request_turnaround_time_stddev)
      ∷ ("max_write_request_turnaround_time", json.real s.max_write_request_turnaround_time)
      ∷ (
        "write_request_latency_histogram",
        histogram_array s.write_request_turnaround_time_histogram,
      )
      ∷ ("read_request_count", json.uint s.read_request_count)
      ∷ ("write_request_count", json.uint s.write_request_count)
      ∷ []

  unfoldable pub export_queue_stats : HostQueueStats R → J
  export_queue_stats s = filled json json.null (queue_fields s)

  -- The assignments of `export_chip_stats`.
  abbrev pub chip_fields : ChipStats → List (String × J)
  chip_fields s =
      ("channel_id", json.uint s.channel_id)
      ∷ ("chip_id", json.uint s.chip_id)
      ∷ ("total_transfer_time", json.uint s.total_transfer_time)
      ∷ ("total_execution_time", json.uint s.total_execution_time)
      ∷ []

  unfoldable pub export_chip_stats : ChipStats → J
  export_chip_stats s = filled json json.null (chip_fields s)

  -- The assignments of `export_nvm_controller_stats`.
  abbrev pub controller_fields : NvmControllerStats → List (String × J)
  controller_fields s =
      ("read_command_count", json.uint s.read_command_count)
      ∷ ("multiplane_read_command_count", json.uint s.multiplane_read_command_count)
      ∷ ("program_command_count", json.uint s.program_command_count)
      ∷ ("multiplane_program_command_count", json.uint s.multiplane_program_command_count)
      ∷ ("erase_command_count", json.uint s.erase_command_count)
      ∷ ("multiplane_erase_command_count", json.uint s.multiplane_erase_command_count)
      ∷ ("chip_stats", array_of json (map export_chip_stats s.chip_stats))
      ∷ []

  unfoldable pub export_nvm_controller_stats : NvmControllerStats → J
  export_nvm_controller_stats s = filled json json.null (controller_fields s)

  -- The assignments of `EXPORT_HIST(name)`.
  abbrev pub export_hist : String → Times R → List (String × J)
  export_hist name t =
      (name ++ₛ "_time_mean", json.real t.time_mean)
      ∷ (name ++ₛ "_time_stddev", json.real t.time_stddev)
      ∷ ("max_" ++ₛ (name ++ₛ "_time"), json.real t.max_time)
      ∷ (name ++ₛ "_time_histogram", histogram_array t.time_histogram)
      ∷ []

  -- The assignments of `export_tsu_stats`.
  abbrev pub tsu_fields : TsuStats R → List (String × J)
  tsu_fields s =
      (("enqueued_read_transactions", json.uint s.enqueued_read_transactions)
        ∷ ("enqueued_write_transactions", json.uint s.enqueued_write_transactions)
        ∷ ("enqueued_erase_transactions", json.uint s.enqueued_erase_transactions)
        ∷ [])
      ++ export_hist "read_waiting" s.read_waiting
      ++ export_hist "write_waiting" s.write_waiting
      ++ export_hist "erase_waiting" s.erase_waiting
      ++ export_hist "read_transfer" s.read_transfer
      ++ export_hist "read_execution" s.read_execution
      ++ export_hist "write_transfer" s.write_transfer
      ++ export_hist "write_execution" s.write_execution

  unfoldable pub export_tsu_stats : TsuStats R → J
  export_tsu_stats s = filled json json.null (tsu_fields s)

  -- The assignments of `export_sim_result`.
  abbrev pub sim_fields : SimResult R → List (String × J)
  sim_fields s =
      ("host_queue_stats", array_of json (map export_queue_stats s.host_queue_stats))
      ∷ ("nvm_controller_stats", export_nvm_controller_stats s.nvm_controller_stats)
      ∷ ("tsu_stats", export_tsu_stats s.tsu_stats)
      ∷ []

  unfoldable pub export_sim_result : J → SimResult R → J
  export_sim_result root s = filled json root (sim_fields s)
