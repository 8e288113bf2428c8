-- ===== src/Link/Samples.antt =====
-- A ring buffer, a link and messages that the runs of the link use.
use mcmqhost.Prelude.{
  ℕ, ◌≤◌, ◌≡◌, refl, true, false, List, [], ◌∷◌, ◌++◌, some, arith, length, take, drop,
}
use mcmqhost.Memory.Space.{le_bytes, le_value}
use mcmqhost.Link.Ringbuffer.{Ringbuffer}
use mcmqhost.Link.Mcmq.{Link, handle_payload, dispatch}
use mcmqhost.Link.Mcmq.Receive.{stream, handle_all}

-- A ring buffer that holds its contents as they are.
abbrev pub list_ring : Ringbuffer (List ℕ)
list_ring = record {
  empty = [];
  write_buff = λ xs r. r ++ xs;
  read_available = length;
  read_buff = λ n r. (take n r, drop n r);
  contents = λ r. r;
  contents-empty = refl;
  contents-write_buff = λ xs r room. refl;
  read_available_lem = λ r. refl;
  read_buff_bytes = λ n r there. refl;
  read_buff_left = λ n r there. refl;
}

abbrev pub idle : Link
idle = record {
  read_id_counter = 9;
  read_requests = [];
  result_buf = [];
  result_len = 0;
  result_ready = false;
  device_ready = false;
  has_handler = true;
  interrupts = [];
  sent = [];
}

-- The device is ready, and raises vector 2.
abbrev pub two_messages : List (List ℕ)
two_messages = (0 ∷ 5 ∷ []) ∷ (0 ∷ 4 ∷ 0 ∷ 2 ∷ []) ∷ []

abbrev pub after_messages : Link
after_messages = record idle { device_ready = true; interrupts = 2 ∷ [] }

pub all_handled : handle_all two_messages idle ≡ some after_messages
unfolding handle_all handle_payload dispatch le_value
all_handled = refl

pub stream_is_short : length (stream two_messages) ≤ 16384
unfolding le_bytes
stream_is_short = omega arith
