-- ===== src/Link/Tests.antt =====
-- Runs of the link, and its theorems at concrete inputs.
use mcmqhost.Prelude.{
  ℕ, ◌+◌, ◌*◌, ◌==◌, ap, ◌^◌, ◌≡◌, refl, ◌∙◌, [], ◌∷◌, ◌++◌, none, some, arith, length,
}
use mcmqhost.Memory.Space.{le_bytes, le_value, fetch, store}
use mcmqhost.Memory.Space.Access.{fetch-store_self, fetch-store_apart, le_value-le_bytes}
use mcmqhost.Link.Access.{Bar, vfio_device, readq, writeq}
use mcmqhost.Link.Access.Words.{Registers, readq-writeq}
use mcmqhost.Link.Mcmq.Results.{result_payloads, report-result_payloads}
use mcmqhost.Link.Messages.{report_req, message, code}
use mcmqhost.Link.Requests.{find}
use mcmqhost.Link.Mcmq.{report, send_message, Link, begin_read, end_read, handle_payload}
use mcmqhost.Link.Mcmq.Reads.{answer, begin_read-end_read}
use mcmqhost.Link.Mcmq.Receive.{handle_all}
use mcmqhost.Link.Samples.{idle}

no_request : find 9 [] ≡ none
unfolding find
no_request = refl

begin_read-end_read_example :
    (l1 : Link) × (l2 : Link) × (l3 : Link) × (begin_read 16 0x14 (0 ∷ 0 ∷ 0 ∷ 0 ∷ []) 4 idle
      ≡ some (9, l1))
    × (end_read 9 l1 ≡ none)
    × (handle_payload (answer 9 (1 ∷ 2 ∷ [])) l1 ≡ some l2)
    × (end_read 9 l2 ≡ some (1 ∷ 2 ∷ 0 ∷ 0 ∷ [], (2, l3)))
    × (l3.read_requests ≡ [])
begin_read-end_read_example =
    begin_read-end_read 0x14 (0 ∷ 0 ∷ 0 ∷ 0 ∷ []) 4 (1 ∷ 2 ∷ []) idle (omega arith) no_request

-- Registers of bytes that hold what is written to them.
abbrev held : Bar (ℕ → ℕ)
held = record {
  load = λ addr s. (le_value (fetch s addr 4), s);
  store = λ addr v s. store s addr (le_bytes 4 v);
}

held-Registers : Registers held
unfolding le_bytes
held-Registers = record {
  load-store_self = λ addr v s small.
      let word : fetch (store s addr (le_bytes 4 v)) addr 4 ≡ le_bytes 4 v =
        fetch-store_self s addr (le_bytes 4 v) in
      ap (λ x. (x, held.store addr v s)) (ap le_value word ∙ le_value-le_bytes 4 v small);
  load-store_other = λ addr other v s apart.
      ap (λ xs. (le_value xs, held.store other v s))
        (fetch-store_apart s other addr 4 (le_bytes 4 v) apart);
}

readq-writeq_example :
    readq (vfio_device held) 0x28 (writeq (vfio_device held) 0x28 (5 * 2 ^ 32 + 7) (λ x. x))
    ≡ some (5 * 2 ^ 32 + 7, writeq (vfio_device held) 0x28 (5 * 2 ^ 32 + 7) (λ x. x))
readq-writeq_example = readq-writeq held held-Registers 0x28 (5 * 2 ^ 32 + 7) (λ x. x) (omega arith)

-- The link once `report` has sent its 12 bytes.
abbrev asking : Link
asking = record idle { sent = idle.sent ++ message report_req 0 none 0 }

asked : report 12 idle ≡ some asking
unfolding report send_message message le_bytes code
asked = refl

-- Four of the five announced bytes, in two messages.
report-result_payloads_example :
    (after : Link) × (handle_all (result_payloads 5 (1 ∷ 2 ∷ []) ((3 ∷ 4 ∷ []) ∷ [])) asking
      ≡ some after)
    × (after.result_buf ≡ 1 ∷ 2 ∷ 3 ∷ 4 ∷ [])
    × (after.result_ready ≡ (length {A = ℕ} (1 ∷ 2 ∷ 3 ∷ 4 ∷ []) == 5))
report-result_payloads_example =
    report-result_payloads 12 5 idle asking (1 ∷ 2 ∷ []) ((3 ∷ 4 ∷ []) ∷ []) asked (omega arith)
      (omega arith) (omega arith)
