-- ===== src/Link/Mcmq.antt =====
-- `PCIeLinkMcmq` of pcie_link_mcmq.h and pcie_link_mcmq.cpp: the messages to the device, and the
-- thread that receives its messages. The socket's `send` and `recv` are what the definitions take:
-- the number of bytes that `send` took, and the bytes that `recv` gave. Words are stored as a
-- little-endian machine stores them.
pub mod Frames
pub mod Reads
pub mod Receive
pub mod Results
pub mod Rounds
pub mod Setup
mod Tests
use mcmqhost.Prelude.{
  ℕ, zero, suc, ◌+◌, ◌-◌, ◌*◌, ◌/◌, ◌%◌, ◌^◌, Bool, true, false, not, ◌&&◌, ◌||◌, List, [], ◌∷◌,
  ◌++◌, Option, none, some, ◌==◌, if◌then◌else◌, u16, u32, u64, min, ltb, leb, length, take, drop,
  replicate, shl,
}
use mcmqhost.Memory.Space.{le_bytes, le_value}
use mcmqhost.Link.Requests.{ReadRequest, find, erase, update, new_request, emplace}
use mcmqhost.Link.Messages.{
  MessageType, read_req, write_req, read_comp, irq, dev_ready, report_req, result, code, htons,
  htonl, body, message,
}
use mcmqhost.Link.Ringbuffer.{Ringbuffer}

pub record Link : Type 0 where
  pub read_id_counter : ℕ
  pub read_requests : List (ℕ × ReadRequest)
  pub result_buf : List ℕ
  pub result_len : ℕ
  pub result_ready : Bool
  pub device_ready : Bool
  -- the vectors that the handler was called with, newest first, while there is a handler
  pub has_handler : Bool
  pub interrupts : List ℕ
  -- the bytes that the socket took, oldest first
  pub sent : List ℕ

-- The rest of `send_message` and `send_config`: `none` is the exception.
abbrev pub send : ℕ → List ℕ → Link → Option Link
send n msg l = if n == length msg then some (record l { sent = l.sent ++ msg }) else none

unfoldable pub send_message : ℕ → MessageType → ℕ → Option (List ℕ) → ℕ → Link → Option Link
unfolding message
send_message n type addr buf len l = send n (message type addr buf len) l

-- `write_to_device`, which the header defines.
unfoldable pub write_to_device : ℕ → ℕ → List ℕ → Link → Option Link
unfolding send_message
write_to_device n addr xs l = send_message n write_req addr (some xs) (length xs) l

-- `serialized` is what protobuf makes of the configuration.
unfoldable pub send_config : ℕ → List ℕ → Link → Option Link
unfolding le_bytes
send_config n serialized l = send n (le_bytes 2 (htons (u16 (length serialized))) ++ serialized) l

-- `report`, up to its wait for the result.
unfoldable pub report : ℕ → Link → Option Link
unfolding send_message
report n l =
    send_message n report_req 0 none 0
      (record l { result_buf = []; result_len = 0; result_ready = false })

-- The id of the request, which stands for the pointer to it.
unfoldable pub setup_read_request : List ℕ → ℕ → Link → ℕ × Link
unfolding emplace update
setup_read_request buf buflen l =
    let id = l.read_id_counter in
    let fill =
      λ (r : ReadRequest). record r { id = id; buf = buf; buflen = buflen; completed = false } in
    (
      id,
      record l {
        read_id_counter = u32 (id + 1);
        read_requests = update id fill (emplace id l.read_requests);
      },
    )

-- The first part of `read_from_device`, up to its wait; the id is sent as it lies in memory.
unfoldable pub begin_read : ℕ → ℕ → List ℕ → ℕ → Link → Option (ℕ × Link)
begin_read n addr buf buflen l =
    let r = setup_read_request buf buflen l in
    elim (send_message n read_req addr (some (le_bytes 4 r.0)) 4 r.1) [
      | none ↦ none
      | some l' ↦ some (r.0, l')
    ]

-- The rest of `read_from_device`, once the request is completed: what the buffer holds, the length
-- that it returns, and the link. `none`: it waits.
abbrev pub take_read : ℕ → Link → Option ReadRequest → Option (List ℕ × (ℕ × Link))
take_read id l none = none
take_read id l (some r) =
    if r.completed
    then some (r.buf, (r.len, record l { read_requests = erase id l.read_requests }))
    else none

unfoldable pub end_read : ℕ → Link → Option (List ℕ × (ℕ × Link))
unfolding find erase
end_read id l = take_read id l (find id l.read_requests)

-- `memcpy(req->buf, buf, outlen)` with the two lines behind it.
abbrev pub fill_request : List ℕ → ReadRequest → ReadRequest
fill_request bytes r =
    let outlen = min (length bytes) r.buflen in
    record r { buf = take outlen bytes ++ drop outlen r.buf; len = outlen; completed = true }

-- A completion without a request changes nothing.
unfoldable pub complete_read_request : ℕ → List ℕ → Link → Link
unfolding update
complete_read_request id bytes l = record l {
  read_requests = update id (fill_request bytes) l.read_requests;
}

-- The `RESULT` case: the first message of a result begins with the result's length.
abbrev pub append_result : ℕ → List ℕ → Link → Link
append_result total bytes l =
    let buf = l.result_buf ++ bytes in
    record l {
      result_buf = buf;
      result_len = total;
      result_ready = if length buf == total then true else l.result_ready;
    }

abbrev pub is_empty : List ℕ → Bool
is_empty [] = true
is_empty (x ∷ xs) = false

abbrev pub handle_result : List ℕ → Link → Option Link
handle_result payload l =
    let first = append_result (htons (le_value (take 2 payload))) (drop 2 payload) l in
    if is_empty l.result_buf
    then (if leb 2 (length payload) then some first else none)
    else some (append_result l.result_len payload l)

abbrev pub handle_irq : List ℕ → Link → Option Link
handle_irq payload l =
    let vector = htons (le_value payload) in
    if length payload == 2
    then some (if l.has_handler then record l { interrupts = vector ∷ l.interrupts } else l)
    else none

abbrev pub handle_read_comp : List ℕ → Link → Option Link
handle_read_comp payload l =
    let id = le_value (take 4 payload) in
    if leb 4 (length payload) then some (complete_read_request id (drop 4 payload) l) else none

-- What the `switch` does with the type and what follows it. `none`: an assertion fails.
unfoldable pub dispatch : ℕ → List ℕ → Link → Option Link
unfolding complete_read_request
dispatch type payload l =
    if type == 3
    then handle_read_comp payload l
    else (if type == 4
        then handle_irq payload l
        else (if type == 5
            then some (record l { device_ready = true })
            else (if type == 7 then handle_result payload l else some l)))

unfoldable pub handle_payload : List ℕ → Link → Option Link
unfolding dispatch
handle_payload payload l =
    if leb 2 (length payload)
    then dispatch (htons (le_value (take 2 payload))) (drop 2 payload) l
    else none

module _ {R : Type 0} (ring : Ringbuffer R) where
  -- The test of the inner loop.
  abbrev pub has_message : Option ℕ → R → Bool
  has_message none r = ltb 2 (ring.read_available r)
  has_message (some len) r = leb len (ring.read_available r)

  -- The head of a round: the length, read now or before, and the ring without it.
  abbrev pub message_len : Option ℕ → R → ℕ × R
  message_len none r = let got = ring.read_buff 2 r in (htons (le_value got.0), got.1)
  message_len (some len) r = (len, r)

  -- Whether the round ends there: the length was just read, and the message is not all there.
  abbrev pub is_partial : Option ℕ → ℕ → R → Bool
  is_partial none len r = ltb (ring.read_available r) len
  is_partial (some last) len r = false

  -- The inner loop of `recv_thread`. Each round but the last two takes a byte or more or fails, so
  -- the bytes there are bound the rounds. `none`: an assertion fails, or the fuel runs out.
  -- What is left of `last_len` comes with the ring and the link.
  unfoldable pub drain : ℕ → Option ℕ → R → Link → Option (Option ℕ × R × Link)
  drain zero last_len r l = none
  drain (suc fuel) last_len r l =
      let head = message_len last_len r in
      let got = ring.read_buff head.0 head.1 in
      let wait = drain fuel (some head.0) head.1 l in
      let next : Option (Option ℕ × R × Link) = elim (handle_payload got.0 l) [
        | none ↦ none
        | some l' ↦ drain fuel none got.1 l'
      ] in
      if has_message last_len r
      then (if is_partial last_len head.0 head.1 then wait else next)
      else some (last_len, r, l)

  -- What an event of the peer does for which `recv` gives `bytes`.
  unfoldable pub recv_round : Option ℕ → List ℕ → R → Link → Option (Option ℕ × R × Link)
  unfolding drain
  recv_round last_len bytes r l =
      let r' = ring.write_buff bytes r in drain (ring.read_available r' + 2) last_len r' l
