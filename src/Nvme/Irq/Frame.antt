-- ===== src/Nvme/Irq/Frame.antt =====
-- What the handling of a completion leaves alone: the rings, and the mapped memory.
use mcmqhost.Prelude.{
  ℕ, ◌+◌, ◌*◌, ◌/◌, u32, ◌≡◌, ◌≢◌, refl, ◌∙◌, List, [], ◌∷◌, Option, none, some, inl, inr,
  Option-cases, ltb, Bool-cases,
}
use mcmqhost.Memory.{Table, free}
use mcmqhost.Memory.Space.{read}
use mcmqhost.Nvme.World.{
  AsyncCommand, Queue, World, Outcome, done, fail, blocked, gave, then_do, set_table,
}
use mcmqhost.Nvme.Irq.{
  Completion, complete, find, erase, free_prp_lists, remove_async_command, prp_lists_of, handle_cqe,
  decode,
}

-- `w'` has the queues of `w` and the same bytes mapped at the same place.
pub record SameRings (w w' : World) : Type 0 where
  pub queues : w'.queues ≡ w.queues
  pub bytes : w'.space.bytes ≡ w.space.bytes
  pub map_size : w'.space.map_size ≡ w.space.map_size
  pub iova_base : w'.space.iova_base ≡ w.space.iova_base

-- A method that leaves the rings alone, and does not block.
abbrev pub Keeps : World → Outcome (Unit {0}) → Type 0
Keeps w (done a w') = SameRings w w'
Keeps w (fail e w') = e ≢ blocked

same_rings : (w : World) → SameRings w w
same_rings w = record { queues = refl; bytes = refl; map_size = refl; iova_base = refl }

trans_rings : (u v w : World) → SameRings u v → SameRings v w → SameRings u w
trans_rings u v w a b = record {
  queues = b.queues ∙ a.queues;
  bytes = b.bytes ∙ a.bytes;
  map_size = b.map_size ∙ a.map_size;
  iova_base = b.iova_base ∙ a.iova_base;
}

Keeps-later : (u v : World) (o : Outcome (Unit {0})) → SameRings u v → Keeps v o → Keeps u o
Keeps-later u v (done a w) s k = trans_rings u v w s k
Keeps-later u v (fail e w) s k = k

gave-Keeps :
    (o : Option Table) (w : World) (f : World → Outcome (Unit {0}))
    → ((w' : World) → Keeps w' (f w'))
    → Keeps w (then_do (gave w o) (λ _. f))
gave-Keeps none w f k = λ e. cc
gave-Keeps (some t) w f k =
    Keeps-later w (set_table t w) (f (set_table t w))
      (record { queues = refl; bytes = refl; map_size = refl; iova_base = refl })
      (k (set_table t w))

free_prp_lists-Keeps : (prps : List ℕ) (w : World) → Keeps w (free_prp_lists prps w)
unfolding free_prp_lists
free_prp_lists-Keeps [] w = same_rings w
free_prp_lists-Keeps (prp ∷ prps) w =
    gave-Keeps (free prp 0x1000 w.space.table) w (free_prp_lists prps) (free_prp_lists-Keeps prps)

remove-Keeps : (id : ℕ) (w : World) → Keeps w (remove_async_command id w)
unfolding remove_async_command
remove-Keeps id w =
    let erased = record w { command_map = erase id w.command_map } in
    Keeps-later w erased (remove_async_command id w)
      (record { queues = refl; bytes = refl; map_size = refl; iova_base = refl })
      (free_prp_lists-Keeps (prp_lists_of (find id w.command_map)) erased)

complete-some :
    (cqe : Completion) (c : AsyncCommand) (w : World) (callback : Option ℕ)
    → c.callback ≡ callback
    → Keeps w (complete cqe (some c) w)
unfolding complete
complete-some cqe c w none e =
    rw e (record { queues = refl; bytes = refl; map_size = refl; iova_base = refl })
complete-some cqe c w (some token) e =
    let called = record w {
      called = record { token = token; status = cqe.status / 2; result = cqe.result } ∷ w.called;
    } in
    rw e (
      Keeps-later w called (remove_async_command cqe.command_id called)
        (record { queues = refl; bytes = refl; map_size = refl; iova_base = refl })
        (remove-Keeps cqe.command_id called))

pub complete-Keeps :
    (cqe : Completion) (c : Option AsyncCommand) (w : World) → Keeps w (complete cqe c w)
unfolding complete
complete-Keeps cqe none w = same_rings w
complete-Keeps cqe (some c) w = complete-some cqe c w c.callback refl

pub handle_cqe-Keeps : (q : Queue) (idx : ℕ) (w : World) → Keeps w (handle_cqe q idx w)
unfolding handle_cqe
handle_cqe-Keeps q idx w = elim (Bool-cases (ltb idx q.depth)) [
  | inl there ↦ elim (Option-cases (read (u32 (q.cq_dma_addr + idx * 16)) 16 w.space)) [
    | inl unmapped ↦ rw (there, unmapped) (λ e. cc)
    | inr (xs, got) ↦
        rw (there, got) (complete-Keeps (decode xs) (find (decode xs).command_id w.command_map) w)
  ]
  | inr gone ↦ rw gone (λ e. cc)
]
