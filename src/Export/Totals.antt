-- ===== src/Export/Totals.antt =====
-- What the export shows of a thread whose run has ended: `IOThread::run` and result_exporter.cpp.
use mcmqhost.Prelude.{ℕ, ◌+◌, ◌≤◌, ◌<◌, max, ◌≡◌, refl, List, some, arith}
use mcmqhost.IoThread.{Host, Thread, new_thread}
use mcmqhost.IoThread.Synthetic.{Workload, Draw, Event, run_impl}
use mcmqhost.IoThread.Progress.{Good, run_impl-Good}
use mcmqhost.IoThread.OnSome.{OnSome-at}
use mcmqhost.IoThread.Zipf.{Real}
use mcmqhost.Export.Json.{Json, JsonLaws}
use mcmqhost.Export.Host.{Hdr, run_stats, export_thread_stats}
use mcmqhost.Export.Import.{ThreadView, import_thread}
use mcmqhost.Export.RoundTrip.{thread_view, import_thread-export_thread_stats}

module _ {ℓ} {D : Type ℓ} {J R Hist : Type 0} (json : Json J R) (laws : JsonLaws json) (r : Real R)
    (hdr : Hdr Hist R) (recorded : List (ℕ × ℕ) → Hist) (depth count : ℕ) (h : Host D)
    (w : Workload) (draws : ℕ → Draw) where
  -- With at least one request enqueued at the start: what is exported for a thread that has run until
  -- `request_count` requests were completed can be read back, with the thread's id, and a number of
  -- requests that is the sum of the reads and the writes, at least `request_count`, and at most the
  -- larger of it and `average_enqueued_requests`.
  pub export_thread_stats-run_stats :
      (es : List Event) (d : D) (clock : ℕ → ℕ)
      → 0 < w.average_enqueued_requests
      → (t : Thread D) → run_impl h w draws es (new_thread d depth count clock) ≡ some t
      → count ≤ t.nr_completed_requests
      → (id : ℕ) (delta : R)
      → (v : ThreadView R) × (import_thread json
            (export_thread_stats json r hdr (run_stats r recorded id delta t))
          ≡ some v)
        × (v.id ≡ id)
        × (v.total_requests ≡ v.read_requests + v.write_requests)
        × (count ≤ v.total_requests)
        × (v.total_requests ≤ max count w.average_enqueued_requests)
  unfolding run_stats
  export_thread_stats-run_stats es d clock p t ran over id delta =
      let (g, (a, q)) =
        OnSome-at (Good depth count h w draws)
          (run_impl h w draws es (new_thread d depth count clock))
          (run_impl-Good depth count h w draws es d clock p) ran in
      (
        thread_view json laws r hdr (run_stats r recorded id delta t),
        import_thread-export_thread_stats json laws r hdr (run_stats r recorded id delta t),
        refl,
        g.core.by_kind,
        over,
        ground (arith, g.core.submitted, q),
      )
