-- ===== src/Nvme/Tests.antt =====
-- Runs of the driver, and its theorems at concrete inputs.
use mcmqhost.Prelude.{
  ℕ, ◌+◌, ◌*◌, ◌-◌, ◌≤◌, ◌<◌, ◌≡◌, ◌≢◌, ◌^◌, bit_and, add32, refl, true, [], ◌∷◌, some, arith,
  replicate, get_elem?, inl,
}
use mcmqhost.Memory.{Table, allocate_pages, roundup}
use mcmqhost.Memory.Space.{Space, read, write, store, le_bytes}
use mcmqhost.Nvme.World.{World, done, fail, device_io, bad_csts, writel, blocked, ◌>>◌}
use mcmqhost.Nvme.Queue.{Command, zero_command, encode, next_index, submit_sq_command}
use mcmqhost.Nvme.Queue.Rings.{submitted, slot_addr, submit_sq_command_lem}
use mcmqhost.Nvme.Prp.{setup_buffer}
use mcmqhost.Nvme.Prp.Entries.{page}
use mcmqhost.Nvme.Prp.Buffer.{setup_buffer_listed}
use mcmqhost.Nvme.Irq.{find, erase, complete, wait}
use mcmqhost.Nvme.Irq.{irq_loop}
use mcmqhost.Nvme.Irq.Drain.{Ends, irq_loop_lem}
use mcmqhost.Nvme.Irq.Commands.{complete-wait}
use mcmqhost.Nvme.Prp.{prp_loop}
use mcmqhost.Nvme.Prp.Overrun.{prp_loop-overrun}
use mcmqhost.Nvme.Controller.{wait_ready}
use mcmqhost.Nvme.Controller.Ready.{wait_ready_lem}
use mcmqhost.Nvme.Samples.{ring_queue, small_space, idle, waiting, an_entry, two_commands}

abbrev a_command : Command
a_command = record zero_command { opcode = 2; command_id = 7; nsid = 1; prp1 = 0x5000 }

-- The slot at the tail with the command in it.
abbrev space_after : Space
space_after = record small_space { bytes = store small_space.bytes 0x10c0 (encode a_command) }

slot_is_mapped : write (slot_addr ring_queue) (encode a_command) small_space ≡ some space_after
unfolding write encode le_bytes
slot_is_mapped = refl

submit_sq_command_lem_example :
    (w' : World) × (submit_sq_command 0 a_command true idle ≡ done tt w')
    × (read (slot_addr ring_queue) 64 w'.space ≡ some (encode a_command))
    × (get_elem? w'.queues 0 ≡ some (submitted ring_queue))
    × (w'.written ≡ writel 0x1008 (next_index 4 3) ∷ [])
    × (3 < 4 → next_index 4 3 < 4)
submit_sq_command_lem_example =
    submit_sq_command_lem 0 a_command ring_queue idle refl refl slot_is_mapped

wait_ready_lem_example :
    (3 ≡ 2 ^ 32 - 1
      → wait_ready true (record idle { reads = 0 ∷ 2 ∷ 3 ∷ 9 ∷ [] })
        ≡ fail (device_io bad_csts) (record idle { reads = 9 ∷ [] }))
    × (3 ≢ 2 ^ 32 - 1
        → bit_and 3 1 ≡ 1
        → wait_ready true (record idle { reads = 0 ∷ 2 ∷ 3 ∷ 9 ∷ [] })
          ≡ done tt (record idle { reads = 9 ∷ [] }))
    × (wait_ready true (record idle { reads = 0 ∷ 2 ∷ [] })
        ≡ fail blocked (record idle { reads = [] }))
wait_ready_lem_example = wait_ready_lem true (0 ∷ 2 ∷ []) 3 (9 ∷ []) idle (
  ((λ e. omega (arith, e)), (λ e. omega (arith, e))),
  (((λ e. omega (arith, e)), (λ e. omega (arith, e))), tt),
)

abbrev list_taken : Table
list_taken = record {
  holes = record { slot = 0; base = 0x5000; len = 0xc000 } ∷ [];
  free_slots = replicate 511 1;
}

list_found : allocate_pages page small_space.table ≡ some (0x4000, list_taken)
unfolding allocate_pages roundup
list_found = refl

setup_buffer_listed_example :
    (w' : World) × (setup_buffer 3 zero_command 0x5f00 0x2180 idle
      ≡ done (record zero_command { prp1 = 0x5f00; prp2 = 0x4000 }) w')
    × ((j : ℕ)
        → j ≤ 2
        → read (add32 0x4000 (j * 8)) 8 w'.space ≡ some (le_bytes 8 (0x6000 + j * page)))
setup_buffer_listed_example =
    setup_buffer_listed 3 zero_command 0x5f00 2 0x80 0x4000 idle refl list_found
      (record { above = omega arith; below = omega arith; inside = omega arith }) (omega arith)
      (omega arith) (omega arith) (omega arith) (omega arith)

complete-wait_example :
    ((complete an_entry (find 7 two_commands) >> wait 7)
        (record idle { command_map = two_commands })
      ≡ done (0x2002, 5) (record idle { command_map = erase 7 two_commands }))
    × ((other : ℕ) → other ≢ 7 → find other (erase 7 two_commands) ≡ find other two_commands)
unfolding find
complete-wait_example =
    complete-wait an_entry waiting (record idle { command_map = two_commands }) refl refl refl

prp_loop-overrun_example :
    (w' : World) × (prp_loop 1 3 0x2000 512 0x9000 0x80 idle ≡ done tt w')
    × (read 0x4000 8 w'.space ≡ read 0x2ff8 8 idle.space)
    × (read 0x2ff8 8 w'.space ≡ some (le_bytes 8 0x4000))
    × (read 0x5000 8 w'.space ≡ some (le_bytes 8 0x9000))
    × (read 0x4008 8 w'.space ≡ read 0x4008 8 idle.space)
prp_loop-overrun_example =
    prp_loop-overrun 3 0 0x9000 0x80 0x2000 0x4000 idle refl list_found
      (record { above = omega arith; below = omega arith; inside = omega arith })
      (record { above = omega arith; below = omega arith; inside = omega arith }) (omega arith)
      (inl (omega arith)) (omega arith)

irq_loop_lem_example : Ends 4 (irq_loop 5 0 0 idle)
irq_loop_lem_example = irq_loop_lem 0 ring_queue idle refl (omega arith) (omega arith) (omega arith)
