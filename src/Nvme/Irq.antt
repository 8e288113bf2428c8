-- ===== src/Nvme/Irq.antt =====
-- Commands in flight and their completion: `setup_async_command`, `remove_async_command`,
-- `cqe_pending`, `handle_cqe`, `nvme_irq` and `AsyncCommand::wait` of nvme_driver.cpp. Each holds
-- `command_mutex` from its first access to the map to its last, so it is one step.

pub mod Commands
pub mod Identifiers
pub mod Frame
pub mod Drain
pub mod Ignores
pub mod Order
mod Tests
use mcmqhost.Prelude.{
  ℕ, zero, suc, ◌+◌, ◌*◌, ◌/◌, ◌%◌, Bool, true, false, List, [], ◌∷◌, Option, none, some, ◌==◌,
  if◌then◌else◌, u32, u16, ltb, take, drop,
}
use mcmqhost.Memory.Space.{le_value, store, offset_of}
use mcmqhost.Nvme.World.{
  AsyncCommand, Arrival, Queue, World, M, done, fail, assertion, undefined, blocked, ret, throw,
  then_do, ◌>>=◌, ◌>>◌, get, modify, get_queue, set_queue, mem_read, mem_free,
}
use mcmqhost.Nvme.Queue.{update_cq_head, ring_cq_doorbell}

abbrev pub CommandMap : Type 0
CommandMap = List (ℕ × AsyncCommand)

-- `command_map.find`.
unfoldable pub find : ℕ → CommandMap → Option AsyncCommand
find id [] = none
find id ((k, c) ∷ m) = if k == id then some c else find id m

-- `command_map.erase`, of the one entry with the key.
unfoldable pub erase : ℕ → CommandMap → CommandMap
erase id [] = []
erase id ((k, c) ∷ m) = if k == id then m else (k, c) ∷ erase id m

-- The entry with the key, changed in place.
unfoldable pub update : ℕ → (AsyncCommand → AsyncCommand) → CommandMap → CommandMap
update id f [] = []
update id f ((k, c) ∷ m) = if k == id then (k, f c) ∷ m else (k, c) ∷ update id f m

-- `std::make_unique<AsyncCommand>()`.
abbrev pub new_command : AsyncCommand
new_command = record {
  id = 0;
  status = 0;
  result = 0;
  completed = false;
  callback = none;
  prp_lists = [];
}

-- `command_map.emplace` keeps an entry that is there.
unfoldable pub emplace : ℕ → CommandMap → CommandMap
unfolding find
emplace id m = elim (find id m) [ none ↦ (id, new_command) ∷ m | some c ↦ m ]

-- The id of the command, which stands for the pointer to it.
unfoldable pub setup_async_command : Option ℕ → M ℕ
unfolding emplace update
setup_async_command callback w =
    let id = w.command_id_counter in
    let fill = λ (c : AsyncCommand). record c { id = id; completed = false; callback = callback } in
    done id (record w {
      command_id_counter = u16 (id + 1);
      command_map = update id fill (emplace id w.command_map);
    })

-- `~AsyncCommand` gives the PRP lists back.
unfoldable pub free_prp_lists : List ℕ → M (Unit {0})
free_prp_lists [] = ret tt
free_prp_lists (prp ∷ prps) = do mem_free prp 0x1000; free_prp_lists prps

abbrev pub prp_lists_of : Option AsyncCommand → List ℕ
prp_lists_of none = []
prp_lists_of (some c) = c.prp_lists

unfoldable pub remove_async_command : ℕ → M (Unit {0})
unfolding find erase free_prp_lists
remove_async_command id w =
    free_prp_lists (prp_lists_of (find id w.command_map))
      (record w { command_map = erase id w.command_map })

-- `nvme_completion`, without the fields that no method reads.
pub record Completion : Type 0 where
  pub result : ℕ
  pub command_id : ℕ
  pub status : ℕ

unfoldable pub decode : List ℕ → Completion
unfolding le_value
decode xs = record {
  result = le_value (take 8 xs);
  command_id = le_value (take 2 (drop 12 xs));
  status = le_value (take 2 (drop 14 xs));
}

-- Whether the entry at `cq_head` carries the phase that the queue waits for.
unfoldable pub cqe_pending : Queue → M Bool
unfolding le_value
cqe_pending q =
    let check = (do
      status ← mem_read (u32 (q.cq_dma_addr + (q.cq_head * 16 + 14))) 2
      ret (le_value status % 2 == q.cq_phase)) in
    if ltb q.cq_head q.depth then check else throw assertion

-- What `handle_cqe` does with the command of the entry: the callback runs and the command goes, or
-- the waiter is told.
unfoldable pub complete : Completion → Option AsyncCommand → M (Unit {0})
unfolding update remove_async_command
complete cqe none = ret tt
complete cqe (some c) = elim c.callback [
  | some token ↦ do
    modify (λ w. record w {
      called = record { token = token; status = cqe.status / 2; result = cqe.result } ∷ w.called;
    })
    remove_async_command cqe.command_id
  | none ↦ modify (λ w. record w {
    command_map =
        update cqe.command_id
          (λ c. record c { status = cqe.status / 2; result = cqe.result; completed = true })
          w.command_map;
  })
]

unfoldable pub handle_cqe : Queue → ℕ → M (Unit {0})
unfolding decode find complete
handle_cqe q idx =
    let body = (do
      xs ← mem_read (u32 (q.cq_dma_addr + idx * 16)) 16
      w ← get
      let cqe = decode xs
      complete cqe (find cqe.command_id w.command_map)) in
    if ltb idx q.depth then body else throw assertion

-- The loop of `nvme_irq` with the number of entries that it found. It takes each entry once, so it
-- ends within `depth` rounds; fuel that runs out stands for a loop that goes on.
unfoldable pub irq_loop : ℕ → ℕ → ℕ → M ℕ
unfolding cqe_pending handle_cqe update_cq_head
irq_loop zero i found = throw blocked
irq_loop (suc fuel) i found = do
  q ← get_queue i
  pending ← cqe_pending q
  let more = do handle_cqe q q.cq_head; set_queue i (update_cq_head q); irq_loop fuel i (found + 1)
  if pending then more else ret found

unfoldable pub nvme_irq : ℕ → M (Unit {0})
unfolding irq_loop ring_cq_doorbell
nvme_irq i = do
  q ← get_queue i
  found ← irq_loop (q.depth + 1) i 0
  if found == 0 then ret tt else ring_cq_doorbell i

-- The device's writes, which no assertion guards.
unfoldable pub dma : List (ℕ × List ℕ) → World → World
unfolding store
dma [] w = w
dma ((addr, xs) ∷ rest) w = dma rest (record w {
  space = record w.space { bytes = store w.space.bytes (offset_of addr w.space) xs };
})

-- One turn of the link's thread: the handler that `start` installs, at the vector.
unfoldable pub deliver : Arrival → M (Unit {0})
unfolding dma nvme_irq
deliver a w = nvme_irq a.vector (dma a.writes w)

abbrev pub is_completed : Option AsyncCommand → Bool
is_completed none = false
is_completed (some c) = c.completed

-- The loop of `wait`: the command that completed, after as many turns of the link's thread as it
-- takes. `blocked`: the device does nothing more.
unfoldable pub wait_loop : List Arrival → ℕ → M AsyncCommand
unfolding deliver find
wait_loop [] id w = elim (find id w.command_map) [
  | none ↦ fail undefined w
  | some c ↦ if c.completed then done c w else fail blocked w
]
wait_loop (a ∷ rest) id w =
    let turn = then_do (deliver a (record w { arrivals = rest })) (λ _. wait_loop rest id) in
    elim (find id w.command_map) [
      | none ↦ fail undefined w
      | some c ↦ if c.completed then done c w else turn
    ]

-- `AsyncCommand::wait`: the status and the result.
unfoldable pub wait : ℕ → M (ℕ × ℕ)
unfolding wait_loop remove_async_command
wait id = do w ← get; c ← wait_loop w.arrivals id; remove_async_command id; ret (c.status, c.result)
