-- ===== src/Nvme/Sized/Commands.antt =====
-- The number of queues along the commands of the driver and their completion.
use mcmqhost.Prelude.{
  ℕ, ◌+◌, zero, suc, ◌≡◌, refl, ◌∙◌, ap, true, if◌then◌else◌, List, [], ◌∷◌, Option, none, some,
  length,
}
use mcmqhost.Nvme.World.{
  AsyncCommand, Arrival, World, Outcome, then_do, done, fail, undefined, blocked,
}
use mcmqhost.Nvme.Irq.{
  Completion, free_prp_lists, setup_async_command, remove_async_command, prp_lists_of, find, erase,
  complete, handle_cqe, cqe_pending, irq_loop, nvme_irq, dma, deliver, wait_loop, wait,
}
use mcmqhost.Nvme.Queue.{
  Command, update_cq_head, ring_cq_doorbell, write_sq_doorbell, submit_sq_command,
}
use mcmqhost.Nvme.Prp.{push_prp_list, next_list, prp_loop, setup_buffer}
use mcmqhost.Nvme.Submit.{submit_sync_command}
use mcmqhost.Nvme.Sized.{
  Sized, left, chosen-left, then_do-left, Sized-ret, Sized-if, Sized-bind, Sized-then, Sized-modify,
  Sized-get_queue, Sized-set_queue, Sized-mem_free, sized_rules,
}

Sized-free_prp_lists : (prps : List ℕ) → Sized (free_prp_lists prps)
unfolding free_prp_lists
Sized-free_prp_lists [] = search sized_rules
Sized-free_prp_lists (prp ∷ prps) =
    Sized-then _ _ (Sized-mem_free prp 0x1000) (Sized-free_prp_lists prps)

Sized-remove_async_command : (id : ℕ) → Sized (remove_async_command id)
unfolding remove_async_command
Sized-remove_async_command id = record {
  at = λ w.
      (Sized-free_prp_lists (prp_lists_of (find id w.command_map))).at
        (record w { command_map = erase id w.command_map });
}

Sized-setup_async_command : (callback : Option ℕ) → Sized (setup_async_command callback)
unfolding setup_async_command
Sized-setup_async_command callback = record { at = λ w. refl }

Sized-with_callback :
    (cqe : Completion) (c : AsyncCommand) (callback : Option ℕ)
    → c.callback ≡ callback
    → Sized (complete cqe (some c))
unfolding complete
Sized-with_callback cqe c none e = rw e (Sized-modify _ (λ w. refl))
Sized-with_callback cqe c (some token) e =
    rw e (Sized-then _ _ (Sized-modify _ (λ w. refl)) (Sized-remove_async_command cqe.command_id))

Sized-complete : (cqe : Completion) (c : Option AsyncCommand) → Sized (complete cqe c)
unfolding complete
Sized-complete cqe none = Sized-ret tt
Sized-complete cqe (some c) = Sized-with_callback cqe c c.callback refl

Sized-ring_cq_doorbell : (i : ℕ) → Sized (ring_cq_doorbell i)
unfolding ring_cq_doorbell
Sized-ring_cq_doorbell i = search sized_rules

Sized-cqe_pending : (q : _) → Sized (cqe_pending q)
unfolding cqe_pending
Sized-cqe_pending q = search sized_rules

Sized-handle_cqe : (q : _) (idx : ℕ) → Sized (handle_cqe q idx)
unfolding handle_cqe
Sized-handle_cqe q idx = search (sized_rules, Sized-complete)

Sized-irq_loop : (fuel i found : ℕ) → Sized (irq_loop fuel i found)
unfolding irq_loop
Sized-irq_loop zero i found = search sized_rules
Sized-irq_loop (suc fuel) i found = Sized-bind _ _ (Sized-get_queue i) (λ q.
    Sized-bind _ _ (Sized-cqe_pending q) (λ pending.
      Sized-if pending _ _
        (Sized-then _ _ (Sized-handle_cqe q q.cq_head) (
          Sized-then _ _ (Sized-set_queue i (update_cq_head q))
            (Sized-irq_loop fuel i (found + 1))))
        (Sized-ret found)))

Sized-nvme_irq : (i : ℕ) → Sized (nvme_irq i)
unfolding nvme_irq
Sized-nvme_irq i = search (sized_rules, Sized-irq_loop, Sized-ring_cq_doorbell)

dma-queues : (writes : List (ℕ × List ℕ)) (w : World) → (dma writes w).queues ≡ w.queues
unfolding dma
dma-queues [] w = refl
dma-queues ((addr, xs) ∷ rest) w = dma-queues rest _

Sized-deliver : (a : Arrival) → Sized (deliver a)
unfolding deliver
Sized-deliver a = record {
  at = λ w. (Sized-nvme_irq a.vector).at (dma a.writes w) ∙ ap length (dma-queues a.writes w);
}

-- A round of the loop, whose other turn is `turn`.
round-left :
    (o : Option AsyncCommand) (w : World) (turn : Outcome AsyncCommand)
    → length (left turn).queues ≡ length w.queues
    → length
        (left (elim o [
          | none ↦ fail undefined w
          | some c ↦ if c.completed then done c w else turn
        ])).queues
      ≡ length w.queues
round-left none w turn k = refl
round-left (some c) w turn k = chosen-left c.completed (length w.queues) (done c w) turn refl k

Sized-wait_loop : (arrivals : List Arrival) (id : ℕ) → Sized (wait_loop arrivals id)
unfolding wait_loop
Sized-wait_loop [] id = record {
  at = λ w. round-left (find id w.command_map) w (fail blocked w) refl;
}
Sized-wait_loop (a ∷ rest) id = record {
  at = λ w.
      let w1 = record w { arrivals = rest } in
      round-left (find id w.command_map) w (then_do (deliver a w1) (λ _. wait_loop rest id)) (
        then_do-left (deliver a w1) (λ _. wait_loop rest id) (λ _. Sized-wait_loop rest id)
        ∙ (Sized-deliver a).at w1);
}

Sized-wait : (id : ℕ) → Sized (wait id)
unfolding wait
Sized-wait id = search (sized_rules, Sized-wait_loop, Sized-remove_async_command)

Sized-submit_sq_command : (i : ℕ) (c : Command) → Sized (submit_sq_command i c true)
unfolding submit_sq_command write_sq_doorbell
Sized-submit_sq_command i c = search sized_rules depth 12

Sized-push_prp_list : (id prp_list : ℕ) → Sized (push_prp_list id prp_list)
unfolding push_prp_list
Sized-push_prp_list id prp_list = Sized-modify _ (λ w. refl)

Sized-next_list : (id prp_list i : ℕ) → Sized (next_list id prp_list i)
unfolding next_list
Sized-next_list id prp_list i = search (sized_rules, Sized-push_prp_list) depth 12

Sized-prp_loop :
    (fuel id prp_list i buf buflen : ℕ) → Sized (prp_loop fuel id prp_list i buf buflen)
unfolding prp_loop
Sized-prp_loop zero id prp_list i buf buflen = search sized_rules
Sized-prp_loop (suc fuel) id prp_list i buf buflen =
    search (sized_rules, Sized-next_list, Sized-prp_loop fuel)

Sized-setup_buffer :
    (id : ℕ) (cmd : Command) (buf buflen : ℕ) → Sized (setup_buffer id cmd buf buflen)
unfolding setup_buffer
Sized-setup_buffer id cmd buf buflen =
    search (sized_rules, Sized-push_prp_list, Sized-prp_loop) depth 12

pub Sized-submit_sync_command :
    (i : ℕ) (cmd : Command) (buf buflen : ℕ) → Sized (submit_sync_command i cmd buf buflen)
unfolding submit_sync_command
Sized-submit_sync_command i cmd buf buflen = search (
  sized_rules, Sized-setup_async_command, Sized-setup_buffer, Sized-submit_sq_command, Sized-wait,
)
