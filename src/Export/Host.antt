-- ===== src/Export/Host.antt =====
-- The statistics of the I/O threads, as `IOThread::run` (io_thread.cpp) leaves them, and their export
-- and that of the whole result by result_exporter.cpp.
use Prim.Native.String.{String}
use mcmqhost.Prelude.{ℕ, List, [], ◌∷◌, map}
use mcmqhost.IoThread.{Thread}
use mcmqhost.IoThread.Zipf.{Real}
use mcmqhost.Export.Json.{Json, filled, array_of}
use mcmqhost.Export.SimResult.{SimResult, export_sim_result}

-- A position of the iterator over the percentiles of a histogram.
pub record Percentile (R : Type 0) : Type 0 where
  pub highest_equivalent_value : ℕ
  pub percentile : R
  pub cumulative_count : ℕ

-- What result_exporter.cpp uses of the HdrHistogram library. `percentiles`: the positions that the
-- iterator visits, with the given ticks per half distance.
pub record Hdr (Hist R : Type 0) : Type 0 where
  pub percentiles : ℕ → Hist → List (Percentile R)
  pub hdr_mean : Hist → R
  pub hdr_stddev : Hist → R
  pub hdr_max : Hist → ℕ

pub record Stats (Hist R : Type 0) : Type 0 where
  pub thread_id : ℕ
  pub request_count : ℕ
  pub read_request_count : ℕ
  pub write_request_count : ℕ
  pub iops_total : R
  pub iops_read : R
  pub iops_write : R
  pub bandwidth_total : R
  pub bandwidth_read : R
  pub bandwidth_write : R
  pub device_response_time_hist : Hist
  pub e2e_latency_hist : Hist

pub record HostResult (Hist R : Type 0) : Type 0 where
  pub thread_stats : List (Stats Hist R)

-- The statistics when `run_impl` has returned. `recorded` is what `hdr_record_value` makes of the
-- spans of time that were recorded, `delta` the seconds that the run took.
unfoldable pub run_stats {ℓ} :
    {D : Type ℓ} {Hist R : Type 0}
    → Real R
    → (List (ℕ × ℕ) → Hist)
    → ℕ
    → R
    → Thread D
    → Stats Hist R
run_stats r recorded thread_id delta t = record {
  thread_id = thread_id;
  request_count = t.nr_completed_requests;
  read_request_count = t.nr_completed_read_requests;
  write_request_count = t.nr_completed_write_requests;
  iops_total = r.div (r.of_nat t.nr_completed_requests) delta;
  iops_read = r.div (r.of_nat t.nr_completed_read_requests) delta;
  iops_write = r.div (r.of_nat t.nr_completed_write_requests) delta;
  bandwidth_total = r.div (r.of_nat t.transferred_bytes_total) delta;
  bandwidth_read = r.div (r.of_nat t.transferred_bytes_read) delta;
  bandwidth_write = r.div (r.of_nat t.transferred_bytes_write) delta;
  device_response_time_hist = recorded t.device_response_time_hist;
  e2e_latency_hist = recorded t.e2e_latency_hist;
}

abbrev pub ticks_per_half_distance : ℕ
ticks_per_half_distance = 10

module _ {J R Hist : Type 0} (json : Json J R) (r : Real R) (hdr : Hdr Hist R) where
  -- A round of the loop over the percentiles.
  -- The assignments of `export_percentile`.
  abbrev pub percentile_fields : Percentile R → List (String × J)
  percentile_fields p =
      ("value", json.real (r.of_nat p.highest_equivalent_value))
      ∷ ("percentile", json.real p.percentile)
      ∷ ("total_count", json.uint p.cumulative_count)
      ∷ []

  unfoldable pub export_percentile : Percentile R → J
  export_percentile p = filled json json.object (percentile_fields p)

  abbrev pub export_histogram : Hist → J
  export_histogram hist =
      array_of json (map export_percentile (hdr.percentiles ticks_per_half_distance hist))

  -- The assignments of `export_thread_stats`.
  abbrev pub thread_fields : Stats Hist R → List (String × J)
  thread_fields s =
      ("id", json.uint s.thread_id)
      ∷ ("total_requests", json.uint s.request_count)
      ∷ ("read_requests", json.uint s.read_request_count)
      ∷ ("write_requests", json.uint s.write_request_count)
      ∷ ("iops_total", json.real s.iops_total)
      ∷ ("iops_read", json.real s.iops_read)
      ∷ ("iops_write", json.real s.iops_write)
      ∷ ("bandwidth_total", json.real s.bandwidth_total)
      ∷ ("bandwidth_read", json.real s.bandwidth_read)
      ∷ ("bandwidth_write", json.real s.bandwidth_write)
      ∷ ("device_response_time_histogram", export_histogram s.device_response_time_hist)
      ∷ ("device_response_time_mean", json.real (hdr.hdr_mean s.device_response_time_hist))
      ∷ ("device_response_time_stddev", json.real (hdr.hdr_stddev s.device_response_time_hist))
      ∷ ("max_device_response_time", json.uint (hdr.hdr_max s.device_response_time_hist))
      ∷ ("end_to_end_request_latency_histogram", export_histogram s.e2e_latency_hist)
      ∷ ("end_to_end_request_latency_mean", json.real (hdr.hdr_mean s.e2e_latency_hist))
      ∷ ("end_to_end_request_latency_stddev", json.real (hdr.hdr_stddev s.e2e_latency_hist))
      ∷ ("max_end_to_end_request_latency", json.uint (hdr.hdr_max s.e2e_latency_hist))
      ∷ []

  unfoldable pub export_thread_stats : Stats Hist R → J
  export_thread_stats s = filled json json.object (thread_fields s)

  unfoldable pub export_host_result : J → HostResult Hist R → J
  export_host_result root host =
      filled json root
        (("host_thread_stats", array_of json (map export_thread_stats host.thread_stats)) ∷ [])

  -- The value that is written to the file.
  unfoldable pub export_result : HostResult Hist R → SimResult R → J
  export_result host sim = export_sim_result json (export_host_result json.null host) sim
