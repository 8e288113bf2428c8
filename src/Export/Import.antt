-- ===== src/Export/Import.antt =====
-- A reader of the exported results: what a tool that gets the file can take from it.
use Prim.Native.String.{String, ◌++◌ as ◌++ₛ◌}
use mcmqhost.Prelude.{ℕ, List, [], ◌∷◌, Option, some}
use mcmqhost.IoThread.{◌>>=◌}
use mcmqhost.Export.Json.{Json}
use mcmqhost.Export.SimResult.{
  HistogramEntry, HostQueueStats, ChipStats, NvmControllerStats, Times, TsuStats, SimResult,
}

-- What the file shows of a histogram of the HdrHistogram library.
pub record HistogramView (R : Type 0) : Type 0 where
  pub entries : List (HistogramEntry R)
  pub mean : R
  pub stddev : R
  pub largest : ℕ

-- What the file shows of a thread.
pub record ThreadView (R : Type 0) : Type 0 where
  pub id : ℕ
  pub total_requests : ℕ
  pub read_requests : ℕ
  pub write_requests : ℕ
  pub iops_total : R
  pub iops_read : R
  pub iops_write : R
  pub bandwidth_total : R
  pub bandwidth_read : R
  pub bandwidth_write : R
  pub device_response_time : HistogramView R
  pub end_to_end_request_latency : HistogramView R

abbrev pub all_read : {A B : Type 0} → (A → Option B) → List A → Option (List B)
all_read f [] = some []
all_read f (x ∷ xs) = do y ← f x; ys ← all_read f xs; some (y ∷ ys)

module _ {J R : Type 0} (json : Json J R) where
  abbrev pub read_uint : String → J → Option ℕ
  read_uint key o = json.at key o >>= json.as_uint

  abbrev pub read_real : String → J → Option R
  read_real key o = json.at key o >>= json.as_real

  abbrev pub read_list : {A : Type 0} → (J → Option A) → String → J → Option (List A)
  read_list f key o = json.at key o >>= λ a. all_read f (json.elements a)

  unfoldable pub import_entry : J → Option (HistogramEntry R)
  import_entry o = do
    value ← read_real "value" o
    percentile ← read_real "percentile" o
    total_count ← read_uint "total_count" o
    some (record { value = value; percentile = percentile; total_count = total_count })

  unfoldable pub import_queue_stats : J → Option (HostQueueStats R)
  import_queue_stats o = do
    queue_id ← read_uint "queue_id" o
    read_histogram ← read_list import_entry "read_request_latency_histogram" o
    write_histogram ← read_list import_entry "write_request_latency_histogram" o
    read_mean ← read_real "read_request_turnaround_time_mean" o
    read_stddev ← read_real "read_request_turnaround_time_stddev" o
    max_read ← read_real "max_read_request_turnaround_time" o
    write_mean ← read_real "write_request_turnaround_time_mean" o
    write_stddev ← read_real "write_request_turnaround_time_stddev" o
    max_write ← read_real "max_write_request_turnaround_time" o
    reads ← read_uint "read_request_count" o
    writes ← read_uint "write_request_count" o
    some (record {
      queue_id = queue_id;
      read_request_turnaround_time_histogram = read_histogram;
      write_request_turnaround_time_histogram = write_histogram;
      read_request_turnaround_time_mean = read_mean;
      read_request_turnaround_time_stddev = read_stddev;
      max_read_request_turnaround_time = max_read;
      write_request_turnaround_time_mean = write_mean;
      write_request_turnaround_time_stddev = write_stddev;
      max_write_request_turnaround_time = max_write;
      read_request_count = reads;
      write_request_count = writes;
    })

  unfoldable pub import_chip_stats : J → Option ChipStats
  import_chip_stats o = do
    channel_id ← read_uint "channel_id" o
    chip_id ← read_uint "chip_id" o
    transfer ← read_uint "total_transfer_time" o
    execution ← read_uint "total_execution_time" o
    some (record {
      channel_id = channel_id;
      chip_id = chip_id;
      total_transfer_time = transfer;
      total_execution_time = execution;
    })

  unfoldable pub import_controller_stats : J → Option NvmControllerStats
  import_controller_stats o = do
    reads ← read_uint "read_command_count" o
    multiplane_reads ← read_uint "multiplane_read_command_count" o
    programs ← read_uint "program_command_count" o
    multiplane_programs ← read_uint "multiplane_program_command_count" o
    erases ← read_uint "erase_command_count" o
    multiplane_erases ← read_uint "multiplane_erase_command_count" o
    chips ← read_list import_chip_stats "chip_stats" o
    some (record {
      read_command_count = reads;
      multiplane_read_command_count = multiplane_reads;
      program_command_count = programs;
      multiplane_program_command_count = multiplane_programs;
      erase_command_count = erases;
      multiplane_erase_command_count = multiplane_erases;
      chip_stats = chips;
    })

  unfoldable pub import_times : String → J → Option (Times R)
  import_times name o = do
    histogram ← read_list import_entry (name ++ₛ "_time_histogram") o
    mean ← read_real (name ++ₛ "_time_mean") o
    stddev ← read_real (name ++ₛ "_time_stddev") o
    longest ← read_real ("max_" ++ₛ (name ++ₛ "_time")) o
    some (record {
      time_histogram = histogram;
      time_mean = mean;
      time_stddev = stddev;
      max_time = longest;
    })

  unfoldable pub import_tsu_stats : J → Option (TsuStats R)
  import_tsu_stats o = do
    read_waiting ← import_times "read_waiting" o
    write_waiting ← import_times "write_waiting" o
    erase_waiting ← import_times "erase_waiting" o
    reads ← read_uint "enqueued_read_transactions" o
    writes ← read_uint "enqueued_write_transactions" o
    erases ← read_uint "enqueued_erase_transactions" o
    read_transfer ← import_times "read_transfer" o
    read_execution ← import_times "read_execution" o
    write_transfer ← import_times "write_transfer" o
    write_execution ← import_times "write_execution" o
    some (record {
      read_waiting = read_waiting;
      write_waiting = write_waiting;
      erase_waiting = erase_waiting;
      enqueued_read_transactions = reads;
      enqueued_write_transactions = writes;
      enqueued_erase_transactions = erases;
      read_transfer = read_transfer;
      read_execution = read_execution;
      write_transfer = write_transfer;
      write_execution = write_execution;
    })

  -- A histogram of a thread, which has the name in its keys.
  unfoldable pub import_histogram : String → J → Option (HistogramView R)
  import_histogram name o = do
    entries ← read_list import_entry (name ++ₛ "_histogram") o
    mean ← read_real (name ++ₛ "_mean") o
    stddev ← read_real (name ++ₛ "_stddev") o
    largest ← read_uint ("max_" ++ₛ name) o
    some (record { entries = entries; mean = mean; stddev = stddev; largest = largest })

  unfoldable pub import_thread : J → Option (ThreadView R)
  import_thread o = do
    id ← read_uint "id" o
    total ← read_uint "total_requests" o
    reads ← read_uint "read_requests" o
    writes ← read_uint "write_requests" o
    iops_total ← read_real "iops_total" o
    iops_read ← read_real "iops_read" o
    iops_write ← read_real "iops_write" o
    bandwidth_total ← read_real "bandwidth_total" o
    bandwidth_read ← read_real "bandwidth_read" o
    bandwidth_write ← read_real "bandwidth_write" o
    device ← import_histogram "device_response_time" o
    end_to_end ← import_histogram "end_to_end_request_latency" o
    some (record {
      id = id;
      total_requests = total;
      read_requests = reads;
      write_requests = writes;
      iops_total = iops_total;
      iops_read = iops_read;
      iops_write = iops_write;
      bandwidth_total = bandwidth_total;
      bandwidth_read = bandwidth_read;
      bandwidth_write = bandwidth_write;
      device_response_time = device;
      end_to_end_request_latency = end_to_end;
    })

  unfoldable pub import_result : J → Option (List (ThreadView R) × SimResult R)
  import_result o = do
    threads ← read_list import_thread "host_thread_stats" o
    queues ← read_list import_queue_stats "host_queue_stats" o
    controller ← json.at "nvm_controller_stats" o >>= import_controller_stats
    tsu ← json.at "tsu_stats" o >>= import_tsu_stats
    some (
      threads,
      record { host_queue_stats = queues; nvm_controller_stats = controller; tsu_stats = tsu },
    )
