-- ===== src/Export/RoundTrip.antt =====
-- Reading back what result_exporter.cpp exports.
mod Device
use Prim.Native.String.{String}
use mathlib.Core.List.{map-id}
use mcmqhost.Prelude.{◌≡◌, refl, ◌∙◌, ap, List, [], ◌∷◌, Option, none, some, map}
use mcmqhost.IoThread.Zipf.{Real}
use mcmqhost.Export.Json.{
  Json, JsonLaws, filled, array_of, last_of, at-filled, filled-Keyed, elements-array_of,
}
use mcmqhost.Export.SimResult.{
  HistogramEntry, HostQueueStats, ChipStats, NvmControllerStats, TsuStats, SimResult, entry_fields,
  export_histogram_entry, queue_fields, export_queue_stats, chip_fields, export_chip_stats,
  controller_fields, export_nvm_controller_stats, tsu_fields, export_tsu_stats, sim_fields,
  export_sim_result,
}
use mcmqhost.Export.Host.{
  Percentile, Hdr, Stats, HostResult, percentile_fields, export_percentile, thread_fields,
  export_thread_stats, export_host_result, export_result,
}
use mcmqhost.Export.Import.{
  HistogramView, ThreadView, all_read, import_entry, import_queue_stats, import_chip_stats,
  import_controller_stats, import_times, import_tsu_stats, import_histogram, import_thread,
  import_result,
}
use mcmqhost.Export.RoundTrip.Device.{
  all_read-map, array_read, at-null, queues_read, import_entry-export_histogram_entry,
  import_controller_stats-export_nvm_controller_stats, import_tsu_stats-export_tsu_stats,
}

module _ {J R Hist : Type 0} (json : Json J R) (laws : JsonLaws json) (r : Real R)
    (hdr : Hdr Hist R) where
  -- What the exported value shows of the percentiles, a histogram and a thread.
  abbrev pub entry_view : Percentile R → HistogramEntry R
  entry_view p = record {
    value = r.of_nat p.highest_equivalent_value;
    percentile = p.percentile;
    total_count = p.cumulative_count;
  }

  abbrev pub histogram_view : Hist → HistogramView R
  histogram_view hist = record {
    entries = map entry_view (hdr.percentiles 10 hist);
    mean = hdr.hdr_mean hist;
    stddev = hdr.hdr_stddev hist;
    largest = hdr.hdr_max hist;
  }

  abbrev pub thread_view : Stats Hist R → ThreadView R
  thread_view s = record {
    id = s.thread_id;
    total_requests = s.request_count;
    read_requests = s.read_request_count;
    write_requests = s.write_request_count;
    iops_total = s.iops_total;
    iops_read = s.iops_read;
    iops_write = s.iops_write;
    bandwidth_total = s.bandwidth_total;
    bandwidth_read = s.bandwidth_read;
    bandwidth_write = s.bandwidth_write;
    device_response_time = histogram_view s.device_response_time_hist;
    end_to_end_request_latency = histogram_view s.e2e_latency_hist;
  }

  at-object :
      (kvs : List (String × J)) (key : String)
      → json.at key (filled json json.object kvs) ≡ last_of key kvs none
  at-object kvs key =
      at-filled json laws key kvs json.object laws.object-Keyed
      ∙ ap (last_of key kvs) (laws.at-object key)

  at-percentile :
      (p : Percentile R) (key : String)
      → json.at key (export_percentile json r hdr p)
        ≡ last_of key (percentile_fields json r hdr p) none
  unfolding export_percentile
  at-percentile p key = at-object (percentile_fields json r hdr p) key

  import_entry-export_percentile :
      (p : Percentile R) → import_entry json (export_percentile json r hdr p) ≡ some (entry_view p)
  unfolding import_entry
  import_entry-export_percentile p = simp (at-percentile, laws.as_uint-uint, laws.as_real-real)

  percentiles_read :
      (ps : List (Percentile R))
      → all_read
          (import_entry json)
          (json.elements (array_of json (map (export_percentile json r hdr) ps)))
        ≡ some (map entry_view ps)
  percentiles_read ps =
      array_read json laws (import_entry json) (export_percentile json r hdr) entry_view
        import_entry-export_percentile ps

  at-thread :
      (s : Stats Hist R) (key : String)
      → json.at key (export_thread_stats json r hdr s)
        ≡ last_of key (thread_fields json r hdr s) none
  unfolding export_thread_stats
  at-thread s key = at-object (thread_fields json r hdr s) key

  pub import_thread-export_thread_stats :
      (s : Stats Hist R)
      → import_thread json (export_thread_stats json r hdr s) ≡ some (thread_view s)
  unfolding import_thread import_histogram
  import_thread-export_thread_stats s =
      simp (at-thread, laws.as_uint-uint, laws.as_real-real, percentiles_read)

  threads_read :
      (ss : List (Stats Hist R))
      → all_read
          (import_thread json)
          (json.elements (array_of json (map (export_thread_stats json r hdr) ss)))
        ≡ some (map thread_view ss)
  threads_read ss =
      array_read json laws (import_thread json) (export_thread_stats json r hdr) thread_view
        import_thread-export_thread_stats ss

  at-result :
      (host : HostResult Hist R) (sim : SimResult R) (key : String)
      → json.at key (export_result json r hdr host sim)
        ≡ last_of key (sim_fields json sim) (
            last_of key
              ((
                "host_thread_stats",
                array_of json (map (export_thread_stats json r hdr) host.thread_stats),
              )
                ∷ [])
              none)
  unfolding export_result export_host_result export_sim_result
  at-result host sim key =
      let threads =
        (
          "host_thread_stats",
          array_of json (map (export_thread_stats json r hdr) host.thread_stats),
        )
        ∷ [] in
      at-filled json laws key (sim_fields json sim) (filled json json.null threads)
        (filled-Keyed json laws threads json.null laws.null-Keyed)
      ∙ ap (last_of key (sim_fields json sim)) (at-null json laws threads key)

  -- Over a JSON library that gives back what was assigned and appended: reading the exported value
  -- gives all fields of the device's results, and of each thread its counts and rates, in order, with
  -- the mean, deviation, maximum and percentiles of its two histograms.
  pub import_result-export_result :
      (host : HostResult Hist R) (sim : SimResult R)
      → import_result json (export_result json r hdr host sim)
        ≡ some (map thread_view host.thread_stats, sim)
  unfolding import_result
  import_result-export_result host sim = simp (
    at-result,
    threads_read,
    queues_read json laws,
    import_controller_stats-export_nvm_controller_stats json laws,
    import_tsu_stats-export_tsu_stats json laws,
  )
