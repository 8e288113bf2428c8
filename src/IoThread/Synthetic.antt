-- ===== src/IoThread/Synthetic.antt =====
-- `IOThreadSynthetic` of io_thread_synthetic.h and io_thread_synthetic.cpp. The random distributions
-- of the standard library enter as the values that they draw.
use mcmqhost.Prelude.{
  ℕ, zero, suc, ◌-◌, ◌*◌, ◌%◌, Bool, not, ◌||◌, List, [], ◌∷◌, Option, some, ltb, ◌==◌,
  if◌then◌else◌, u64, sub64,
}
use mcmqhost.IoThread.{
  Thread, Host, Shape, ◌>>=◌, submit_io_request, wait_for_completed_requests, device_completes,
}

pub data RequestSizeDistribution : Type 0 where
  constant normal : RequestSizeDistribution

pub data AddressDistribution : Type 0 where
  uniform zipfian : AddressDistribution

-- The parameters that `generate_request` reads; the mean is an `int` that is not negative.
pub record Workload : Type 0 where
  pub nsid : ℕ
  pub sector_size : ℕ
  pub max_lsa : ℕ
  pub request_size_distribution : RequestSizeDistribution
  pub request_size_mean : ℕ
  pub address_distribution : AddressDistribution
  pub address_alignment : ℕ
  pub average_enqueued_requests : ℕ

-- One draw of each distribution: the Bernoulli trial for a read, the rounded normal value by sign and
-- magnitude, the uniform integer and the Zipf rank.
pub record Draw : Type 0 where
  pub is_read : Bool
  pub negative : Bool
  pub magnitude : ℕ
  pub uniform_value : ℕ
  pub zipf_rank : ℕ

abbrev pub size_sectors : Workload → Draw → ℕ
size_sectors w d = elim w.request_size_distribution [
  | constant ↦ w.request_size_mean
  | normal ↦ if d.negative || d.magnitude == 0 then 1 else d.magnitude
]

abbrev pub drawn_sector : Workload → Draw → ℕ
drawn_sector w d = elim w.address_distribution [
  | uniform ↦ d.uniform_value
  | zipfian ↦ sub64 d.zipf_rank 1
]

abbrev pub align_down : ℕ → ℕ → ℕ
align_down alignment sector = if alignment == 0 then sector else sector - sector % alignment

unfoldable pub generate_request : Workload → Draw → Shape
generate_request w d = record {
  do_write = not d.is_read;
  pos = u64 (align_down w.address_alignment (drawn_sector w d) * w.sector_size);
  size = u64 (size_sectors w d * w.sector_size);
}

-- What happens while `run_impl` waits: the device completes a request, or the thread wakes up and
-- takes what is completed. It does neither once `request_count` requests are completed.
pub data Event : Type 0 where
  completes : ℕ → Event
  wakes : Event

module _ {ℓ} {D : Type ℓ} (h : Host D) (w : Workload) (draws : ℕ → Draw) where
  -- The draw for the request that is submitted next.
  unfoldable pub submit_next : Thread D → Option (Thread D)
  unfolding generate_request submit_io_request
  submit_next t = submit_io_request h w.nsid (generate_request w (draws t.nr_submitted_requests)) t

  unfoldable pub on_request_completed : Thread D → Option (Thread D)
  unfolding submit_next
  on_request_completed t =
      if ltb t.nr_submitted_requests t.request_count then submit_next t else some t

  -- The first loop of `run_impl`.
  unfoldable pub submit_initial : ℕ → Thread D → Option (Thread D)
  unfolding submit_next
  submit_initial zero t = some t
  submit_initial (suc n) t = submit_next t >>= submit_initial n

  unfoldable pub step : Event → Thread D → Option (Thread D)
  unfolding device_completes wait_for_completed_requests on_request_completed
  step (completes i) t = device_completes i t
  step wakes t =
      if ltb t.nr_completed_requests t.request_count
      then wait_for_completed_requests h on_request_completed t
      else some t

  -- `run_impl`, along a sequence of events.
  unfoldable pub run_events : List Event → Thread D → Option (Thread D)
  unfolding step
  run_events [] t = some t
  run_events (e ∷ es) t = step e t >>= run_events es

  unfoldable pub run_impl : List Event → Thread D → Option (Thread D)
  unfolding submit_initial run_events
  run_impl es t = submit_initial w.average_enqueued_requests t >>= run_events es
