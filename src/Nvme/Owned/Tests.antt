-- ===== src/Nvme/Owned/Tests.antt =====
-- Holders at concrete inputs.
use mcmqhost.Prelude.{ℕ, ◌≡◌, ◌≢◌, refl, [], ◌∷◌, some, arith, replicate}
use mcmqhost.Memory.{Table}
use mcmqhost.Nvme.World.{Arrival, World, AsyncCommand}
use mcmqhost.Nvme.Irq.{deliver, find, erase, complete, remove_async_command}
use mcmqhost.Nvme.Submit.{read_async}
use mcmqhost.Nvme.Sized.{left}
use mcmqhost.Nvme.Samples.{idle, small_space, waiting, an_entry}
use mcmqhost.Nvme.Owned.{Owned}
use mcmqhost.Nvme.Owned.Callback.{Leaves, call_of, complete-callback}
use mcmqhost.Nvme.Owned.Lists.{GivenBack, remove_async_command-GivenBack}
use mcmqhost.Nvme.Owned.Reach.{nothing, after, read_async_turn, interrupt_turn, Reach-Owned}

abbrev one_taken : Table
one_taken = record {
  holes = record { slot = 0; base = 0x5000; len = 0xc000 } ∷ [];
  free_slots = replicate 511 1;
}

-- Command 7 with one PRP list, at 0x4000.
abbrev one_list : World
one_list = record idle {
  space = record small_space { table = one_taken };
  thread_io_queue = some 0;
  command_map = (7, record waiting { prp_lists = 0x4000 ∷ [] }) ∷ [];
}

one_list-Owned : Owned (λ a. 0) one_list
one_list-Owned = record {
  valid = record { order = (omega arith, omega arith, omega arith, tt); slots = refl };
  once = λ a. ground arith;
  below = ((omega arith, tt), tt);
  page_size = refl;
}

abbrev an_interrupt : Arrival
an_interrupt = record { writes = []; vector = 0 }

-- A read of 16 KiB, which takes a PRP list, and an interrupt.
Reach-Owned_example :
    Owned (λ a. 0) (left (deliver an_interrupt (left (read_async 1 0 0x2000 0x4000 5 one_list))))
Reach-Owned_example =
    Reach-Owned
      (after (after nothing (read_async_turn 1 0 0x2000 0x4000 5)) (interrupt_turn an_interrupt))
      one_list-Owned

remove_async_command-GivenBack_example :
    GivenBack (λ a. 0) (0x4000 ∷ []) one_list (remove_async_command 7 one_list)
unfolding find
remove_async_command-GivenBack_example =
    remove_async_command-GivenBack (λ a. 0) 7 one_list one_list-Owned

-- The same command with a callback.
abbrev calling : AsyncCommand
calling = record waiting { prp_lists = 0x4000 ∷ []; callback = some 3 }

abbrev one_call : World
one_call = record one_list { command_map = (7, calling) ∷ [] }

one_call-Owned : Owned (λ a. 0) one_call
one_call-Owned = record {
  valid = record { order = (omega arith, omega arith, omega arith, tt); slots = refl };
  once = λ a. ground arith;
  below = ((omega arith, tt), tt);
  page_size = refl;
}

is_calling : find an_entry.command_id one_call.command_map ≡ some calling
unfolding find
is_calling = refl

complete-callback_example :
    let after = complete an_entry (find 7 one_call.command_map) one_call in
    Leaves (erase 7 one_call.command_map) (call_of 3 an_entry ∷ []) after
    × GivenBack (λ a. 0) (0x4000 ∷ []) one_call after
    × ((other : ℕ)
        → other ≢ 7
        → find other (erase 7 one_call.command_map) ≡ find other one_call.command_map)
complete-callback_example =
    complete-callback (λ a. 0) an_entry calling 3 one_call one_call-Owned is_calling refl
