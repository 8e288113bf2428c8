-- ===== src/Link/Mcmq/Tests.antt =====
-- The thread of the link at a concrete input.
use mcmqhost.Prelude.{ℕ, ◌≡◌, refl, true, List, [], ◌∷◌, ◌++◌, map, some, arith}
use mcmqhost.Memory.Space.{le_bytes, le_value}
use mcmqhost.Link.Mcmq.{handle_payload, dispatch}
use mcmqhost.Link.Mcmq.Receive.{header, stream, handle_all}
use mcmqhost.Link.Mcmq.Rounds.Split.{receives, recv_thread-split}
use mcmqhost.Link.Mcmq.Rounds.{ready, failed, other, recv_thread}
use mcmqhost.Link.Mcmq.Rounds.Stream.{
  Turn, signal, other_event, recv_retry, messages, wait_of, AllFit, recv_thread-payloads,
}
use mcmqhost.Link.Samples.{list_ring, idle, two_messages, after_messages, all_handled}

-- The two messages in one `recv`, with a signal before and nothing much behind.
abbrev turns : List Turn
turns = signal ∷ messages two_messages ∷ recv_retry ∷ other_event ∷ []

turns-AllFit : AllFit turns
unfolding le_bytes
turns-AllFit = (((omega arith, omega arith), ((omega arith, omega arith), tt)), omega arith, tt)

recv_thread-payloads_example :
    (r' : List ℕ) × (r' ≡ [])
    × (recv_thread list_ring (map wait_of turns ++ (ready true (other ∷ []) ∷ failed ∷ [])) [] idle
        ≡ some (r', after_messages))
recv_thread-payloads_example =
    recv_thread-payloads list_ring (other ∷ []) (failed ∷ []) turns [] idle after_messages refl
      turns-AllFit all_handled

-- A message of a type that there is none of, whose bytes read like the message that the device is
-- ready.
abbrev hidden : List (List ℕ)
hidden = (0 ∷ 5 ∷ []) ∷ []

like_ready : (0 ∷ 2 ∷ []) ++ (0 ∷ 5 ∷ []) ≡ stream hidden
unfolding le_bytes
like_ready = refl

ignored : handle_payload (0 ∷ 2 ∷ 0 ∷ 5 ∷ []) idle ≡ some idle
unfolding handle_payload dispatch le_value
ignored = refl

readied : handle_all hidden idle ≡ some (record idle { device_ready = true })
unfolding handle_all handle_payload dispatch le_value
readied = refl

recv_thread-split_example :
    ((r' : List ℕ) × (r' ≡ [])
      × (recv_thread list_ring
            (wait_of (messages ((0 ∷ 2 ∷ 0 ∷ 5 ∷ []) ∷ [])) ∷ ready true [] ∷ [])
            []
            idle
          ≡ some (r', idle)))
    × ((r' : List ℕ) × (r' ≡ [])
        × (recv_thread list_ring
              (receives (header 4 ++ (0 ∷ 2 ∷ [])) ∷ receives (0 ∷ 5 ∷ []) ∷ ready true [] ∷ [])
              []
              idle
            ≡ some (r', record idle { device_ready = true })))
recv_thread-split_example =
    recv_thread-split list_ring [] [] (0 ∷ 2 ∷ []) (0 ∷ 5 ∷ []) [] idle hidden idle
      (record idle { device_ready = true }) refl (omega arith) (omega arith) (omega arith)
      (omega arith) (omega arith) like_ready ((omega arith, omega arith), tt) ignored readied
