-- ===== src/Nvme/Sized/Start.antt =====
-- The number of queues along the start of the driver.
use mcmqhost.Prelude.{
  ℕ, zero, suc, ◌+◌, ◌≡◌, refl, sym, ◌∙◌, ap, Bool, false, if◌then◌else◌, List, [], ◌∷◌, length,
  length-replicate, replicate, ◌==◌, bit_and,
}
use mcmqhost.Nvme.World.{Queue, World, device_io, bad_csts, done, fail, ◌>>◌}
use mcmqhost.Nvme.Controller.{
  all_ones, poll_ready, wait_ready, disable_controller, enable_controller,
}
use mcmqhost.Nvme.Admin.{
  nvme_features, set_features, set_queue_count, dbbuf_config, create_cq, create_sq,
  identify_controller,
}
use mcmqhost.Nvme.Setup.{
  construct, allocate_queue, init_queue, create_queue, setup_admin_queue, allocate_queues,
  create_queues, setup_io_queues, new_queue, reset, start,
}
use mcmqhost.Nvme.Sized.{Sized, left, chosen-left, Sized-then, sized_rules}
use mcmqhost.Nvme.Sized.Commands.{Sized-submit_sync_command}

poll_ready-left :
    (bit : ℕ) (vs : List ℕ) (w : World)
    → length (left (poll_ready bit vs w)).queues ≡ length w.queues
unfolding poll_ready
poll_ready-left bit [] w = refl
poll_ready-left bit (csts ∷ rest) w =
    let w1 = record w { reads = rest } in
    chosen-left (csts == all_ones) (length w.queues) (fail (device_io bad_csts) w1) _ refl (
      chosen-left (bit_and csts 1 == bit) (length w.queues) (done tt w1) (poll_ready bit rest w)
        refl (poll_ready-left bit rest w))

Sized-wait_ready : (enabled : Bool) → Sized (wait_ready enabled)
unfolding wait_ready
Sized-wait_ready enabled = record { at = λ w. poll_ready-left (if enabled then 1 else 0) w.reads w }

Sized-disable_controller : Sized disable_controller
unfolding disable_controller
Sized-disable_controller = search (sized_rules, Sized-wait_ready) depth 12

Sized-enable_controller : Sized enable_controller
unfolding enable_controller
Sized-enable_controller = search (sized_rules, Sized-wait_ready) depth 12

Sized-set_queue_count : (count : ℕ) → Sized (set_queue_count count)
unfolding set_queue_count set_features nvme_features
Sized-set_queue_count count = search (sized_rules, Sized-submit_sync_command) depth 12

Sized-dbbuf_config : Sized dbbuf_config
unfolding dbbuf_config
Sized-dbbuf_config = search (sized_rules, Sized-submit_sync_command) depth 12

Sized-create_cq : (q : Queue) (qid vector : ℕ) → Sized (create_cq q qid vector)
unfolding create_cq
Sized-create_cq q qid vector = search (sized_rules, Sized-submit_sync_command) depth 12

Sized-create_sq : (q : Queue) (qid : ℕ) → Sized (create_sq q qid)
unfolding create_sq
Sized-create_sq q qid = search (sized_rules, Sized-submit_sync_command) depth 12

Sized-identify_controller : Sized identify_controller
unfolding identify_controller
Sized-identify_controller = search (sized_rules, Sized-submit_sync_command) depth 12

Sized-allocate_queue : (qid depth : ℕ) → Sized (allocate_queue qid depth)
unfolding allocate_queue
Sized-allocate_queue qid depth = search (sized_rules) depth 14

Sized-init_queue : (qid : ℕ) → Sized (init_queue qid)
unfolding init_queue
Sized-init_queue qid = search (sized_rules) depth 14

Sized-create_queue : (qid : ℕ) → Sized (create_queue qid)
unfolding create_queue
Sized-create_queue qid =
    search (sized_rules, Sized-create_cq, Sized-create_sq, Sized-init_queue) depth 14

Sized-setup_admin_queue : Sized setup_admin_queue
unfolding setup_admin_queue
Sized-setup_admin_queue =
    search
      (
        sized_rules, Sized-disable_controller, Sized-allocate_queue, Sized-enable_controller,
        Sized-init_queue,
      )
      depth 14

Sized-allocate_queues : (n i depth : ℕ) → Sized (allocate_queues n i depth)
unfolding allocate_queues
Sized-allocate_queues zero i depth = search sized_rules
Sized-allocate_queues (suc n) i depth =
    Sized-then _ _ (Sized-allocate_queue i depth) (Sized-allocate_queues n (i + 1) depth)

Sized-create_queues : (n i : ℕ) → Sized (create_queues n i)
unfolding create_queues
Sized-create_queues zero i = search sized_rules
Sized-create_queues (suc n) i =
    search (sized_rules, Sized-create_queue, Sized-create_queues n) depth 12

Sized-setup_io_queues : Sized setup_io_queues
unfolding setup_io_queues
Sized-setup_io_queues =
    search (sized_rules, Sized-set_queue_count, Sized-allocate_queues, Sized-create_queues) depth 14

Sized-reset : Sized reset
unfolding reset
Sized-reset =
    search
      (
        sized_rules, Sized-setup_admin_queue, Sized-identify_controller, Sized-setup_io_queues,
        Sized-dbbuf_config,
      )
      depth 14

-- The world in which `reset` begins.
abbrev before_reset : ℕ → ℕ → World → World
before_reset ncpus io_queue_depth w = record w {
  ncpus = ncpus;
  queues = replicate (ncpus + 1) new_queue;
  queue_count = 0;
  online_queues = 0;
  command_map = [];
  io_queue_depth = io_queue_depth;
  dbbuf_dbs = 0;
}

-- The constructor of the driver and `start`, from any fields before: if they return, there is a queue
-- for each processor and one for the administration.
pub start-queues :
    (ncpus io_queue_depth : ℕ) (w w' : World)
    → (construct ncpus io_queue_depth false >> start) w ≡ done tt w'
    → length w'.queues ≡ ncpus + 1
unfolding construct start
start-queues ncpus io_queue_depth w w' came_up =
    let w0 = before_reset ncpus io_queue_depth w in
    let ran : reset w0 ≡ done tt w' = came_up in
    sym (ap (λ o. length (left o).queues) ran)
    ∙ Sized-reset.at w0
    ∙ length-replicate (ncpus + 1) new_queue
