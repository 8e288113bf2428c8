-- ===== src/Nvme/Owned/Methods.antt =====
-- The holders along the commands of the driver and their completion.
use mcmqhost.Prelude.{
  ℕ, ◌+◌, zero, suc, ◌≡◌, refl, Bool, true, false, if◌then◌else◌, List, [], ◌∷◌, Option, none, some,
  arith, u16,
}
use mcmqhost.Nvme.World.{
  AsyncCommand, Arrival, World, Outcome, then_do, done, fail, undefined, blocked,
}
use mcmqhost.Nvme.Irq.{
  Completion, setup_async_command, update, emplace, find, complete, handle_cqe, cqe_pending,
  irq_loop, nvme_irq, dma, deliver, wait_loop, wait,
}
use mcmqhost.Nvme.Queue.{
  Command, update_cq_head, ring_cq_doorbell, write_sq_doorbell, submit_sq_command,
}
use mcmqhost.Nvme.Prp.{next_list, prp_loop, setup_buffer}
use mcmqhost.Nvme.Submit.{
  submit_async_command, submit_sync_command, submit_rw_command, read_async, write_async, read,
  write,
}
use mcmqhost.Nvme.Sized.{left}
use mcmqhost.Nvme.Owned.{
  Owned, Owning, Owned-same, chosen-Owned, then_do-Owned, Owning-ret, Owning-if, Owning-bind,
  Owning-then, Owning-modify, Owning-get_bind, Owning-or_throw, Owning-get_queue, Owning-set_queue,
  Owning-list, owning_rules,
}
use mcmqhost.Nvme.Owned.Map.{update-held_by, update-AllBelow, emplace-held_by, emplace-AllBelow}
use mcmqhost.Nvme.Owned.Lists.{Owning-remove_async_command}

-- A command changed in place, with its PRP lists as they are.
update-Owned :
    (extra : ℕ → ℕ) (w : World) (id : ℕ) (f : AsyncCommand → AsyncCommand)
    → ((c : AsyncCommand) → (f c).prp_lists ≡ c.prp_lists)
    → Owned extra w
    → Owned extra (record w { command_map = update id f w.command_map })
update-Owned extra w id f same o = record {
  valid = o.valid;
  once = λ a. omega (arith, o.once a, update-held_by id f w.command_map a same);
  below = update-AllBelow id f w.command_map same o.below;
  page_size = o.page_size;
}

Owning-setup_async_command : (callback : Option ℕ) → Owning (setup_async_command callback)
unfolding setup_async_command
Owning-setup_async_command callback = record {
  at = λ extra w o.
      let id = w.command_id_counter in
      update-Owned extra
        (record w { command_id_counter = u16 (id + 1); command_map = emplace id w.command_map }) id
        (λ c. record c { id = id; completed = false; callback = callback }) (λ c. refl)
        (record {
          valid = o.valid;
          once = λ a. omega (arith, o.once a, emplace-held_by id w.command_map a);
          below = emplace-AllBelow id w.command_map o.below;
          page_size = o.page_size;
        });
}

Owning-with_callback :
    (cqe : Completion) (c : AsyncCommand) (callback : Option ℕ)
    → c.callback ≡ callback
    → Owning (complete cqe (some c))
unfolding complete
Owning-with_callback cqe c none e =
    rw e (Owning-modify _ (λ extra w o. update-Owned extra w cqe.command_id _ (λ c. refl) o))
Owning-with_callback cqe c (some token) e = rw e (
    Owning-then _ _ (Owning-modify _ (λ extra w o. Owned-same extra w _ o refl refl refl))
      (Owning-remove_async_command cqe.command_id))

Owning-complete : (cqe : Completion) (c : Option AsyncCommand) → Owning (complete cqe c)
unfolding complete
Owning-complete cqe none = Owning-ret tt
Owning-complete cqe (some c) = Owning-with_callback cqe c c.callback refl

Owning-ring_cq_doorbell : (i : ℕ) → Owning (ring_cq_doorbell i)
unfolding ring_cq_doorbell
Owning-ring_cq_doorbell i = search owning_rules

Owning-cqe_pending : (q : _) → Owning (cqe_pending q)
unfolding cqe_pending
Owning-cqe_pending q = search owning_rules

Owning-handle_cqe : (q : _) (idx : ℕ) → Owning (handle_cqe q idx)
unfolding handle_cqe
Owning-handle_cqe q idx = search (owning_rules, Owning-complete)

Owning-irq_loop : (fuel i found : ℕ) → Owning (irq_loop fuel i found)
unfolding irq_loop
Owning-irq_loop zero i found = search owning_rules
Owning-irq_loop (suc fuel) i found = Owning-bind _ _ (Owning-get_queue i) (λ q.
    Owning-bind _ _ (Owning-cqe_pending q) (λ pending.
      Owning-if pending _ _
        (Owning-then _ _ (Owning-handle_cqe q q.cq_head) (
          Owning-then _ _ (Owning-set_queue i (update_cq_head q))
            (Owning-irq_loop fuel i (found + 1))))
        (Owning-ret found)))

Owning-nvme_irq : (i : ℕ) → Owning (nvme_irq i)
unfolding nvme_irq
Owning-nvme_irq i = search (owning_rules, Owning-irq_loop, Owning-ring_cq_doorbell)

dma-Owned :
    (extra : ℕ → ℕ) (writes : List (ℕ × List ℕ)) (w : World)
    → Owned extra w
    → Owned extra (dma writes w)
unfolding dma
dma-Owned extra [] w o = o
dma-Owned extra ((addr, xs) ∷ rest) w o =
    dma-Owned extra rest _ (Owned-same extra w _ o refl refl refl)

pub Owning-deliver : (a : Arrival) → Owning (deliver a)
unfolding deliver
Owning-deliver a = record {
  at = λ extra w o.
      (Owning-nvme_irq a.vector).at extra (dma a.writes w) (dma-Owned extra a.writes w o);
}

-- A round of the loop, whose other turn is `turn`.
round-Owned :
    (extra : ℕ → ℕ) (o : Option AsyncCommand) (w : World) (turn : Outcome AsyncCommand)
    → Owned extra w
    → Owned extra (left turn)
    → Owned extra (
        left (elim o [ none ↦ fail undefined w | some c ↦ if c.completed then done c w else turn ]))
round-Owned extra none w turn h k = h
round-Owned extra (some c) w turn h k = chosen-Owned extra c.completed (done c w) turn h k

Owning-wait_loop : (arrivals : List Arrival) (id : ℕ) → Owning (wait_loop arrivals id)
unfolding wait_loop
Owning-wait_loop [] id = record {
  at = λ extra w o. round-Owned extra (find id w.command_map) w (fail blocked w) o o;
}
Owning-wait_loop (a ∷ rest) id = record {
  at = λ extra w o.
      let w1 = record w { arrivals = rest } in
      round-Owned extra (find id w.command_map) w (then_do (deliver a w1) (λ _. wait_loop rest id))
        o
        (then_do-Owned extra (deliver a w1) (λ _. wait_loop rest id) (λ _. Owning-wait_loop rest id)
          ((Owning-deliver a).at extra w1 (Owned-same extra w w1 o refl refl refl)));
}

Owning-wait : (id : ℕ) → Owning (wait id)
unfolding wait
Owning-wait id = search (owning_rules, Owning-wait_loop, Owning-remove_async_command)

Owning-submit_sq_command : (i : ℕ) (c : Command) → Owning (submit_sq_command i c true)
unfolding submit_sq_command write_sq_doorbell
Owning-submit_sq_command i c = search owning_rules depth 12

Owning-next_list : (id prp_list i : ℕ) → Owning (next_list id prp_list i)
unfolding next_list
Owning-next_list id prp_list i = search (Owning-get_bind, Owning-list, owning_rules) depth 16

Owning-prp_loop :
    (fuel id prp_list i buf buflen : ℕ) → Owning (prp_loop fuel id prp_list i buf buflen)
unfolding prp_loop
Owning-prp_loop zero id prp_list i buf buflen = search owning_rules
Owning-prp_loop (suc fuel) id prp_list i buf buflen =
    search (owning_rules, Owning-next_list, Owning-prp_loop fuel)

Owning-setup_buffer :
    (id : ℕ) (cmd : Command) (buf buflen : ℕ) → Owning (setup_buffer id cmd buf buflen)
unfolding setup_buffer
Owning-setup_buffer id cmd buf buflen =
    search (Owning-get_bind, Owning-list, owning_rules, Owning-prp_loop) depth 16

pub Owning-submit_async_command :
    (i : ℕ) (cmd : Command) (buf buflen : ℕ) (callback : Option ℕ)
    → Owning (submit_async_command i cmd buf buflen callback)
unfolding submit_async_command
Owning-submit_async_command i cmd buf buflen callback =
    search (owning_rules, Owning-setup_async_command, Owning-setup_buffer, Owning-submit_sq_command)

pub Owning-submit_sync_command :
    (i : ℕ) (cmd : Command) (buf buflen : ℕ) → Owning (submit_sync_command i cmd buf buflen)
unfolding submit_sync_command
Owning-submit_sync_command i cmd buf buflen = search (
  owning_rules, Owning-setup_async_command, Owning-setup_buffer, Owning-submit_sq_command,
  Owning-wait,
)

Owning-submit_rw_command :
    (do_write : Bool) (nsid pos buf size : ℕ) (callback : Option ℕ)
    → Owning (submit_rw_command do_write nsid pos buf size callback)
unfolding submit_rw_command
Owning-submit_rw_command do_write nsid pos buf size callback =
    search (owning_rules, Owning-or_throw, Owning-submit_async_command)

pub Owning-read_async :
    (nsid pos buf size callback : ℕ) → Owning (read_async nsid pos buf size callback)
unfolding read_async
Owning-read_async nsid pos buf size callback = search (owning_rules, Owning-submit_rw_command)

pub Owning-write_async :
    (nsid pos buf size callback : ℕ) → Owning (write_async nsid pos buf size callback)
unfolding write_async
Owning-write_async nsid pos buf size callback = search (owning_rules, Owning-submit_rw_command)

pub Owning-read : (nsid pos buf size : ℕ) → Owning (read nsid pos buf size)
unfolding read
Owning-read nsid pos buf size = search (owning_rules, Owning-submit_rw_command, Owning-wait)

pub Owning-write : (nsid pos buf size : ℕ) → Owning (write nsid pos buf size)
unfolding write
Owning-write nsid pos buf size = search (owning_rules, Owning-submit_rw_command, Owning-wait)
