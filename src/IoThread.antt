-- ===== src/IoThread.antt =====
-- The I/O threads of io_thread.h and io_thread.cpp, over the driver and the memory that they use. A
-- request in flight is held by the callback that the driver keeps; `at_device` lists those requests,
-- and the environment chooses which completes next. The code between two waits is one step.
pub mod Synthetic
pub mod OnSome
pub mod Invariant
pub mod Progress
pub mod Zipf
pub mod Histogram
pub mod Total
pub mod Finish
pub mod Requests
pub mod Samples
mod Tests
use mcmqhost.Prelude.{
  ℕ, zero, suc, ◌+◌, ◌-◌, ◌*◌, ◌≡◌, Bool, true, false, List, [], ◌∷◌, ◌++◌, Option, none, some, ltb,
  leb, if◌then◌else◌,
}

-- `IORequest`; the times are readings of the clock.
pub record Request : Type 0 where
  pub do_write : Bool
  pub nsid : ℕ
  pub pos : ℕ
  pub buf : ℕ
  pub size : ℕ
  pub arrival_time : ℕ
  pub enqueued_time : ℕ

-- What a thread asks of the driver and of the memory space. `none` is an exception or an abort.
pub record Host {ℓ} (D : Type ℓ) : Type ℓ where
  pub allocate_pages : ℕ → D → Option (ℕ × D)
  pub free : ℕ → ℕ → D → Option D
  pub write_async : Request → D → Option D
  pub read_async : Request → D → Option D

-- `IOThread`, without what only the log and the statistics at the end read. `clock` is the sequence
-- of readings of the system clock from the next one on; a histogram is the list of the intervals that
-- it was given, newest first, each with its two readings.
pub record Thread {ℓ} (D : Type ℓ) : Type ℓ where
  pub device : D
  pub request_count : ℕ
  pub queue_depth : ℕ
  pub nr_submitted_requests : ℕ
  pub nr_completed_requests : ℕ
  pub nr_completed_read_requests : ℕ
  pub nr_completed_write_requests : ℕ
  pub transferred_bytes_total : ℕ
  pub transferred_bytes_read : ℕ
  pub transferred_bytes_write : ℕ
  pub inflight_requests : ℕ
  pub waiting_requests : List Request
  pub at_device : List Request
  pub completed_requests : List Request
  pub clock : ℕ → ℕ
  pub device_response_time_hist : List (ℕ × ℕ)
  pub e2e_latency_hist : List (ℕ × ℕ)

infixl 5 ◌>>=◌
abbrev pub ◌>>=◌ {ℓ κ} : {A : Type ℓ} {B : Type κ} → Option A → (A → Option B) → Option B
none >>= f = none
some a >>= f = f a

-- What `generate_request` of the subclass gives: the direction, the position and the size.
pub record Shape : Type 0 where
  pub do_write : Bool
  pub pos : ℕ
  pub size : ℕ

module _ {ℓ} {D : Type ℓ} where
  -- The constructor.
  unfoldable pub new_thread : D → ℕ → ℕ → (ℕ → ℕ) → Thread D
  new_thread d queue_depth request_count clock = record {
    device = d;
    request_count = request_count;
    queue_depth = queue_depth;
    nr_submitted_requests = 0;
    nr_completed_requests = 0;
    nr_completed_read_requests = 0;
    nr_completed_write_requests = 0;
    transferred_bytes_total = 0;
    transferred_bytes_read = 0;
    transferred_bytes_write = 0;
    inflight_requests = 0;
    waiting_requests = [];
    at_device = [];
    completed_requests = [];
    clock = clock;
    device_response_time_hist = [];
    e2e_latency_hist = [];
  }

  -- `system_clock::now()` moves the clock on.
  abbrev pub tick : Thread D → Thread D
  tick t = record t { clock = λ n. t.clock (n + 1) }

  module _ (h : Host D) where
    -- The driver call for a request.
    abbrev pub call : Request → D → Option D
    call req d = if req.do_write then h.write_async req d else h.read_async req d

    abbrev pub stamped : Request → Thread D → Request
    stamped req t = record req { enqueued_time = t.clock 0 }

    unfoldable pub submit_to_device : Request → Thread D → Option (Thread D)
    submit_to_device req t = do
      d ← call (stamped req t) t.device
      some (record (tick t) {
        device = d;
        inflight_requests = t.inflight_requests + 1;
        at_device = t.at_device ++ (stamped req t ∷ []);
      })

    -- `submit_io_request` with the buffer that it got: the request waits, or goes to the device.
    unfoldable pub enqueue : Request → Thread D → Option (Thread D)
    unfolding submit_to_device
    enqueue req t =
        if leb t.queue_depth t.inflight_requests
        then some (record t { waiting_requests = t.waiting_requests ++ (req ∷ []) })
        else submit_to_device req t

    abbrev pub accepted : D → Thread D → Thread D
    accepted d t = record (tick t) {
      device = d;
      nr_submitted_requests = t.nr_submitted_requests + 1;
    }

    abbrev pub new_request : ℕ → Shape → ℕ → ℕ → Request
    new_request nsid s buf now = record {
      do_write = s.do_write;
      nsid = nsid;
      pos = s.pos;
      buf = buf;
      size = s.size;
      arrival_time = now;
      enqueued_time = 0;
    }

    unfoldable pub submit_io_request : ℕ → Shape → Thread D → Option (Thread D)
    unfolding enqueue
    submit_io_request nsid s t = do
      (buf, d) ← h.allocate_pages s.size t.device
      enqueue (new_request nsid s buf (t.clock 0)) (accepted d t)

    -- The loop at the end of `process_completed_request`: requests that wait are submitted, oldest
    -- first, while there is room.
    unfoldable pub refill : List Request → Thread D → Option (Thread D)
    unfolding submit_to_device
    refill [] t = some (record t { waiting_requests = [] })
    refill (req ∷ rest) t =
        let more = submit_to_device req t >>= refill rest in
        if ltb t.inflight_requests t.queue_depth
        then more
        else some (record t { waiting_requests = req ∷ rest })

    -- The counters of `process_completed_request`; `inflight_requests` is not 0 there.
    abbrev pub count_completed : Request → Thread D → Thread D
    count_completed req t = record t {
      inflight_requests = t.inflight_requests - 1;
      nr_completed_requests = t.nr_completed_requests + 1;
      nr_completed_read_requests =
          if req.do_write then t.nr_completed_read_requests else t.nr_completed_read_requests + 1;
      nr_completed_write_requests =
          if req.do_write then t.nr_completed_write_requests + 1 else t.nr_completed_write_requests;
      transferred_bytes_total = t.transferred_bytes_total + req.size;
      transferred_bytes_read =
          if req.do_write then t.transferred_bytes_read else t.transferred_bytes_read + req.size;
      transferred_bytes_write =
          if req.do_write then t.transferred_bytes_write + req.size else t.transferred_bytes_write;
    }

    module _ (on_request_completed : Thread D → Option (Thread D)) where
      unfoldable pub process_completed_request : Request → Thread D → Option (Thread D)
      unfolding refill
      process_completed_request req t = do
        d ← h.free req.buf req.size t.device
        let t' = count_completed req (record t { device = d })
        t'' ← refill t'.waiting_requests t'
        on_request_completed t''

      unfoldable pub process_all : List Request → Thread D → Option (Thread D)
      unfolding process_completed_request
      process_all [] t = some t
      process_all (req ∷ reqs) t = process_completed_request req t >>= process_all reqs

      -- `wait_for_completed_requests` once something is there. It takes all of it at once.
      unfoldable pub wait_for_completed_requests : Thread D → Option (Thread D)
      unfolding process_all
      wait_for_completed_requests t =
          process_all t.completed_requests (record t { completed_requests = [] })

-- The request at index `i`, with the others.
abbrev pub pick {ℓ} : {A : Type ℓ} → ℕ → List A → Option (A × List A)
pick i [] = none
pick zero (x ∷ xs) = some (x, xs)
pick (suc i) (x ∷ xs) = pick i xs >>= λ (y, ys). some (y, x ∷ ys)

-- `notify_request_completion`, which the link's thread runs for a request at the device.
unfoldable pub notify_request_completion {ℓ} : {D : Type ℓ} → Request → Thread D → Thread D
notify_request_completion req t =
    let now = t.clock 0 in
    record (tick t) {
      completed_requests = t.completed_requests ++ (req ∷ []);
      device_response_time_hist = (req.enqueued_time, now) ∷ t.device_response_time_hist;
      e2e_latency_hist = (req.arrival_time, now) ∷ t.e2e_latency_hist;
    }

-- The completion of the request at index `i` of those at the device.
unfoldable pub device_completes {ℓ} : {D : Type ℓ} → ℕ → Thread D → Option (Thread D)
unfolding notify_request_completion
device_completes i t = do
  (req, rest) ← pick i t.at_device
  some (notify_request_completion req (record t { at_device = rest }))
