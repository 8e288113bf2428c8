-- ===== src/Link/Mcmq/Frames.antt =====
-- The layout of a message on the socket.
use mcmqhost.Prelude.{
  ℕ, ◌+◌, ◌/◌, ◌%◌, ◌^◌, ◌≡◌, ◌<◌, refl, List, [], ◌∷◌, ◌++◌, some, arith, length, u16, u32, u64,
  shl,
}
use mcmqhost.Memory.Space.{le_bytes}
use mcmqhost.Link.Messages.{
  MessageType, read_req, write_req, read_comp, irq, dev_ready, report_req, result, code, htons,
  htonl, message,
}

-- The bytes of a word in network order.
abbrev pub be16 : ℕ → List ℕ
be16 v = (v / 2 ^ 8 % 256) ∷ (v % 256) ∷ []

abbrev pub be32 : ℕ → List ℕ
be32 v = (v / 2 ^ 24 % 256) ∷ (v / 2 ^ 16 % 256) ∷ (v / 2 ^ 8 % 256) ∷ (v % 256) ∷ []

pub htons_bytes : (v : ℕ) → le_bytes 2 (htons v) ≡ be16 v
unfolding le_bytes
htons_bytes v =
    let a : htons v % 256 ≡ v / 2 ^ 8 % 256 = omega arith in
    let b : htons v / 256 % 256 ≡ v % 256 = omega arith in rw (a, b) refl

pub htonl_bytes : (v : ℕ) → le_bytes 4 (htonl v) ≡ be32 v
unfolding le_bytes
htonl_bytes v =
    let a : htonl v % 256 ≡ v / 2 ^ 24 % 256 = omega arith in
    let b : htonl v / 256 % 256 ≡ v / 2 ^ 16 % 256 = omega arith in
    let c : htonl v / 256 / 256 % 256 ≡ v / 2 ^ 8 % 256 = omega arith in
    let d : htonl v / 256 / 256 / 256 % 256 ≡ v % 256 = omega arith in rw (a, b, c, d) refl

zero_word : le_bytes 4 0 ≡ 0 ∷ 0 ∷ 0 ∷ 0 ∷ []
unfolding le_bytes
zero_word = refl

code-small : (type : MessageType) → code type < 8
unfolding code
code-small read_req = omega arith
code-small write_req = omega arith
code-small read_comp = omega arith
code-small irq = omega arith
code-small dev_ready = omega arith
code-small report_req = omega arith
code-small result = omega arith

-- A message with a payload of less than 2^16 - 10 bytes is, in network order, the length of what
-- follows, the type, four zero bytes, the low word of the address, and the payload. The high word
-- of the address is not in it.
pub message_lem :
    (type : MessageType) (addr : ℕ) (xs : List ℕ)
    → 10 + length xs < 2 ^ 16
    → message type addr (some xs) (length xs)
      ≡ be16 (10 + length xs)
        ++ (be16 (code type) ++ ((0 ∷ 0 ∷ 0 ∷ 0 ∷ []) ++ (be32 (addr % 2 ^ 32) ++ xs)))
unfolding message
message_lem type addr xs short =
    let len : u16 (2 + 8 + length xs) ≡ 10 + length xs = omega arith in
    let type' : u16 (code type) ≡ code type = omega (arith, code-small type) in
    let high : u32 (u64 (shl (htonl (addr / 2 ^ 32 % 2 ^ 32)) 32)) ≡ 0 = omega arith in
    rw
      (
        len,
        type',
        high,
        zero_word,
        htons_bytes (10 + length xs),
        htons_bytes (code type),
        htonl_bytes (addr % 2 ^ 32),
      )
      refl
