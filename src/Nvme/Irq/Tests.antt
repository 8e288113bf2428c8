-- ===== src/Nvme/Irq/Tests.antt =====
-- An interrupt at concrete inputs.
use mcmqhost.Prelude.{
  ℕ, suc, ◌≡◌, refl, ap, true, Option, some, length-replicate, List, [], ◌∷◌, arith, replicate,
  ◌++◌,
}
use mcmqhost.Memory.Space.{read, store, le_value}
use mcmqhost.Nvme.World.{World, done, ◌>>◌}
use mcmqhost.Nvme.Queue.{update_cq_head}
use mcmqhost.Nvme.Irq.{nvme_irq, decode, complete, update, find, setup_async_command}
use mcmqhost.Nvme.Irq.Identifiers.{turnover, Lone, setup_async_command-reused}
use mcmqhost.Nvme.Irq.Ignores.{complete_all}
use mcmqhost.Nvme.Irq.Order.{nvme_irq-Posted, Posted, taken}
use mcmqhost.Nvme.Samples.{idle, small_space, ring_queue, an_entry, two_commands, waiting}

abbrev entry_bytes : List ℕ
entry_bytes = 5 ∷ replicate 11 0 ++ (7 ∷ 0 ∷ 5 ∷ 0x40 ∷ [])

-- The entry of command 7 is at the head, which is 2 of 4; the entry behind it is not posted.
abbrev posted_one : World
posted_one = record idle {
  space = record small_space { bytes = store small_space.bytes 0x2020 entry_bytes };
  command_map = two_commands;
}

abbrev told : World
told = record posted_one {
  command_map =
      update 7 (λ c. record c { status = 0x2002; result = 5; completed = true }) two_commands;
}

one-Posted : Posted ring_queue posted_one (an_entry ∷ [])
unfolding read le_value store decode update_cq_head
one-Posted = ((5 ∷ 0x40 ∷ [], refl, refl), (entry_bytes, refl, refl), (0 ∷ 0 ∷ [], refl, refl))

one_completed : complete_all (an_entry ∷ []) posted_one ≡ done tt told
unfolding complete_all complete find update
one_completed = refl

nvme_irq-Posted_example : nvme_irq 0 posted_one ≡ done tt (taken 0 ring_queue (an_entry ∷ []) told)
nvme_irq-Posted_example =
    nvme_irq-Posted 0 ring_queue (an_entry ∷ []) posted_one told refl (omega arith) (omega arith)
      refl one-Posted (omega arith) one_completed

-- Command 7 is in flight with a callback and a PRP list.
abbrev in_flight : World
in_flight = record idle {
  command_id_counter = 8;
  command_map = (7, record waiting { callback = some 3; prp_lists = 0x4000 ∷ [] }) ∷ [];
}

-- The callback of the commands that come and go meanwhile.
abbrev short_lived : Option ℕ
short_lived = some 1

in_flight-Lone : Lone 7 in_flight.command_map
unfolding find
in_flight-Lone k apart = ground arith

setup_async_command-reused_example :
    ((turnover (replicate 65535 short_lived) >> setup_async_command (some 4)) in_flight
      ≡ done 7 (record in_flight {
        command_map = (7, record waiting { callback = some 4; prp_lists = 0x4000 ∷ [] }) ∷ [];
      }))
    × (find 7 ((7, record waiting { callback = some 4; prp_lists = 0x4000 ∷ [] }) ∷ [])
        ≡ some (record waiting { callback = some 4; prp_lists = 0x4000 ∷ [] }))
unfolding find update
setup_async_command-reused_example =
    setup_async_command-reused (replicate 65535 short_lived) (some 4) 7
      (record waiting { callback = some 3; prp_lists = 0x4000 ∷ [] }) in_flight (omega arith) refl
      refl in_flight-Lone (ap suc (length-replicate 65535 short_lived))
