-- ===== src/Link/Mcmq/Reads.antt =====
-- A register read, from the request to its answer.
use mcmqhost.Prelude.{
  ℕ, ◌+◌, ◌≡◌, ◌<◌, refl, true, false, List, ◌∷◌, ◌++◌, none, some, arith, length, take, drop, min,
  u32_mod, u32, leb, ◌==◌,
}
use mcmqhost.Memory.Space.{le_bytes, le_value}
use mcmqhost.Link.Messages.{message, read_req, htons}
use mcmqhost.Link.Requests.{new_request, ReadRequest, find, erase, update, emplace}
use mcmqhost.Link.Mcmq.{
  Link, send_message, setup_read_request, fill_request, begin_read, end_read, handle_payload,
}

-- The device's answer to the read request with the id.
abbrev pub answer : ℕ → List ℕ → List ℕ
answer id bytes = le_bytes 2 (htons 3) ++ (le_bytes 4 id ++ bytes)

length_request : (addr id : ℕ) → length (message read_req addr (some (le_bytes 4 id)) 4) ≡ 16
unfolding message le_bytes
length_request addr id = refl

emplace-fresh :
    (id : ℕ) (m : List (ℕ × ReadRequest)) → find id m ≡ none → emplace id m ≡ (id, new_request) ∷ m
unfolding emplace
emplace-fresh id m fresh = rw (fresh, emplace) refl

-- The link with the request in it, before it is sent.
abbrev with_request : List ℕ → ℕ → Link → Link
with_request buf buflen l =
    let id = l.read_id_counter in
    record l {
      read_id_counter = u32 (id + 1);
      read_requests =
          (id, record { id = id; buf = buf; buflen = buflen; len = 0; completed = false })
          ∷ l.read_requests;
    }

setup_read_request-fresh :
    (buf : List ℕ) (buflen : ℕ) (l : Link)
    → find l.read_id_counter l.read_requests ≡ none
    → setup_read_request buf buflen l ≡ (l.read_id_counter, with_request buf buflen l)
unfolding setup_read_request update
setup_read_request-fresh buf buflen l fresh =
    let same : (l.read_id_counter == l.read_id_counter) ≡ true = ground arith in
    rw (emplace-fresh l.read_id_counter l.read_requests fresh) (rw same refl)

send-request :
    (addr id : ℕ) (l : Link)
    → send_message 16 read_req addr (some (le_bytes 4 id)) 4 l
      ≡ some (record l { sent = l.sent ++ message read_req addr (some (le_bytes 4 id)) 4 })
unfolding send_message
send-request addr id l = rw (length_request addr id) refl

module _ (id : ℕ) (bytes : List ℕ) where
  answer_type :
      (leb 2 (length (answer id bytes)) ≡ true) × (htons (le_value (take 2 (answer id bytes))) ≡ 3)
  unfolding le_bytes le_value
  answer_type = (ground arith, refl)

  answer_rest :
      (drop 2 (answer id bytes) ≡ le_bytes 4 id ++ bytes)
      × (leb 4 (length (le_bytes 4 id ++ bytes)) ≡ true)
  unfolding le_bytes
  answer_rest = (refl, ground arith)

  answer_bytes : drop 4 (le_bytes 4 id ++ bytes) ≡ bytes
  unfolding le_bytes
  answer_bytes = refl

  answer_id : id < u32_mod → le_value (take 4 (le_bytes 4 id ++ bytes)) ≡ id
  unfolding le_bytes le_value
  answer_id small = omega arith

-- `read_from_device` on a link where no request has the next id, and whose socket takes the 16 bytes
-- of the request: once the device has answered with `bytes`, the call returns the number of bytes
-- that fit, the caller's buffer begins with them and is the same behind them, and the requests are
-- as they were before.
pub begin_read-end_read :
    (addr : ℕ) (buf : List ℕ) (buflen : ℕ) (bytes : List ℕ) (l : Link)
    → l.read_id_counter < u32_mod
    → find l.read_id_counter l.read_requests ≡ none
    → let outlen = min (length bytes) buflen in
      (l1 : Link) × (l2 : Link) × (l3 : Link) × (begin_read 16 addr buf buflen l
        ≡ some (l.read_id_counter, l1))
      × (end_read l.read_id_counter l1 ≡ none)
      × (handle_payload (answer l.read_id_counter bytes) l1 ≡ some l2)
      × (end_read l.read_id_counter l2 ≡ some (take outlen bytes ++ drop outlen buf, (outlen, l3)))
      × (l3.read_requests ≡ l.read_requests)
unfolding begin_read end_read handle_payload find erase update
begin_read-end_read addr buf buflen bytes l small fresh = (
  l1,
  l2,
  l3,
  begun,
  rw same refl,
  rw (at.0, at.1, rest.0, rest.1, left, answer_id id bytes small) (rw same refl),
  rw same (rw same refl),
  refl,
)
  where
    id : ℕ
    id = l.read_id_counter

    same : (id == id) ≡ true
    same = ground arith

    asked : ReadRequest
    asked = record { id = id; buf = buf; buflen = buflen; len = 0; completed = false }

    at :
        (leb 2 (length (answer id bytes)) ≡ true)
        × (htons (le_value (take 2 (answer id bytes))) ≡ 3)
    at = answer_type id bytes

    rest :
        (drop 2 (answer id bytes) ≡ le_bytes 4 id ++ bytes)
        × (leb 4 (length (le_bytes 4 id ++ bytes)) ≡ true)
    rest = answer_rest id bytes

    left : drop 4 (le_bytes 4 id ++ bytes) ≡ bytes
    left = answer_bytes id bytes

    l1 : Link
    l1 = record l {
      read_id_counter = u32 (id + 1);
      read_requests = (id, asked) ∷ l.read_requests;
      sent = l.sent ++ message read_req addr (some (le_bytes 4 id)) 4;
    }

    begun : begin_read 16 addr buf buflen l ≡ some (id, l1)
    begun =
        rw (setup_read_request-fresh buf buflen l fresh, begin_read)
          (rw
            (
              send-request addr id (with_request buf buflen l),
              setup_read_request-fresh buf buflen l fresh,
            )
            refl)

    l2 : Link
    l2 = record l1 { read_requests = (id, fill_request bytes asked) ∷ l.read_requests }

    l3 : Link
    l3 = record l1 { read_requests = l.read_requests }
