-- ===== src/Link/Messages.antt =====
-- The bytes of a message to the device: `MessageType` and the first part of `send_message` of
-- pcie_link_mcmq.h and pcie_link_mcmq.cpp.
use mcmqhost.Prelude.{
  ℕ, ◌+◌, ◌*◌, ◌/◌, ◌%◌, ◌^◌, List, ◌++◌, Option, none, some, u16, u32, u64, replicate, shl,
}
use mcmqhost.Memory.Space.{le_bytes}

pub data MessageType : Type 0 where
  read_req write_req read_comp irq dev_ready report_req result : MessageType

unfoldable pub code : MessageType → ℕ
code read_req = 1
code write_req = 2
code read_comp = 3
code irq = 4
code dev_ready = 5
code report_req = 6
code result = 7

-- The two bytes of a `uint16_t` swapped, and the four of a `uint32_t`.
abbrev pub htons : ℕ → ℕ
htons n = n % 256 * 256 + n / 256 % 256

abbrev pub htonl : ℕ → ℕ
htonl n = htons n * 2 ^ 16 + htons (n / 2 ^ 16)

-- The payload that follows the header: with a null pointer the bytes stay as `resize` makes them.
abbrev pub body : Option (List ℕ) → ℕ → List ℕ
body none len = replicate len 0
body (some xs) len = xs

-- The bytes that `send_message` builds. The high word of the address is shifted by 32 before it is
-- stored into a `uint32_t`.
unfoldable pub message : MessageType → ℕ → Option (List ℕ) → ℕ → List ℕ
message type addr buf len =
    le_bytes 2 (htons (u16 (2 + 8 + len)))
    ++ (le_bytes 2 (htons (u16 (code type)))
        ++ (le_bytes 4 (u32 (u64 (shl (htonl (addr / 2 ^ 32 % 2 ^ 32)) 32)))
            ++ (le_bytes 4 (htonl (addr % 2 ^ 32)) ++ body buf len)))
