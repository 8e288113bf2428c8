-- ===== src/Nvme/World.antt =====
-- The state of `NVMeDriver` with what it drives, and the monad of its methods. A method runs on the
-- caller's thread. The thread of the link, which runs the interrupt handler, takes its turns where
-- the caller waits: `arrivals` lists what the device does then, in order.
use mcmqhost.Prelude.{ℕ, Bool, List, [], ◌∷◌, Option, none, some, get_elem?, set}
use mcmqhost.Memory.{Table, allocate, allocate_pages, free}
use mcmqhost.Memory.Space.{Space, read, write, memset}

-- `NVMeQueue`, without its mutex, which no method takes.
pub record Queue : Type 0 where
  pub sq_dma_addr : ℕ
  pub cq_dma_addr : ℕ
  pub dbbuf_sq_db : ℕ
  pub dbbuf_cq_db : ℕ
  pub depth : ℕ
  pub sqe_shift : ℕ
  pub qid : ℕ
  pub sq_tail : ℕ
  pub last_sq_tail : ℕ
  pub cq_head : ℕ
  pub cq_phase : ℕ
  pub q_db : ℕ

-- `AsyncCommand`; `callback` names the caller's closure, `none` is the empty function.
pub record AsyncCommand : Type 0 where
  pub id : ℕ
  pub status : ℕ
  pub result : ℕ
  pub completed : Bool
  pub callback : Option ℕ
  pub prp_lists : List ℕ

-- A register write on the link, as `writel` or `writeq`.
pub data RegisterWrite : Type 0 where
  writel writeq : ℕ → ℕ → RegisterWrite

-- A callback that ran, with its arguments.
pub record Callback : Type 0 where
  pub token : ℕ
  pub status : ℕ
  pub result : ℕ

-- What the device does while the driver waits: it writes into the memory, and raises an interrupt.
pub record Arrival : Type 0 where
  pub writes : List (ℕ × List ℕ)
  pub vector : ℕ

pub record World : Type 0 where
  pub space : Space
  pub ncpus : ℕ
  pub queues : List Queue
  pub queue_count : ℕ
  pub online_queues : ℕ
  pub command_id_counter : ℕ
  pub command_map : List (ℕ × AsyncCommand)
  pub thread_io_queue : Option ℕ
  pub ctrl_cap : ℕ
  pub ctrl_config : ℕ
  pub ctrl_page_size : ℕ
  pub queue_depth : ℕ
  pub io_queue_depth : ℕ
  pub db_stride : ℕ
  pub dbbuf_dbs : ℕ
  -- the values that the link's register reads return, in order
  pub reads : List ℕ
  pub arrivals : List Arrival
  -- the register writes and the callbacks so far, newest first
  pub written : List RegisterWrite
  pub called : List Callback

-- The messages of `DeviceIOError`.
pub data DeviceError : Type 0 where
  bad_csts unsupported_page_size dbbuf_failed queue_count_failed read_command_error : DeviceError

-- Why a method does not return. `undefined`: an index out of range or a null pointer; `blocked`: it
-- waits for something that never comes.
pub data Error : Type 0 where
  device_io : DeviceError → Error
  memory_not_available table_full assertion undefined blocked : Error

-- A method ends with the state that it leaves, also where it throws.
pub data Outcome {ℓ} (A : Type ℓ) : Type ℓ where
  done : A → World → Outcome A
  fail : Error → World → Outcome A

abbrev pub M {ℓ} : Type ℓ → Type ℓ
M A = World → Outcome A

abbrev pub ret {ℓ} : {A : Type ℓ} → A → M A
ret a w = done a w

abbrev pub throw {ℓ} : {A : Type ℓ} → Error → M A
throw e w = fail e w

-- The rest of a method, after an outcome.
abbrev pub then_do {ℓ κ} : {A : Type ℓ} {B : Type κ} → Outcome A → (A → M B) → Outcome B
then_do (done a w) f = f a w
then_do (fail e w) f = fail e w

infixl 5 ◌>>=◌ ◌>>◌
abbrev pub ◌>>=◌ {ℓ κ} : {A : Type ℓ} {B : Type κ} → M A → (A → M B) → M B
◌>>=◌ m f w = then_do (m w) f

abbrev pub ◌>>◌ {ℓ} : {B : Type ℓ} → M (Unit {0}) → M B → M B
◌>>◌ m k w = then_do (m w) (λ _. k)

abbrev pub get : M World
get w = done w w

abbrev pub modify : (World → World) → M (Unit {0})
modify f w = done tt (f w)

abbrev pub or_throw {ℓ} : {A : Type ℓ} → Error → Option A → M A
or_throw e none = throw e
or_throw e (some a) = ret a

-- `queues[i].get()`.
abbrev pub get_queue : ℕ → M Queue
get_queue i w = or_throw undefined (get_elem? w.queues i) w

abbrev pub set_queue : ℕ → Queue → M (Unit {0})
set_queue i q w = done tt (record w { queues = set w.queues i q })

abbrev pub set_table : Table → World → World
set_table t w = record w { space = record w.space { table = t } }

-- The calls of `memory_space`.
abbrev pub took : World → Option (ℕ × Table) → Outcome ℕ
took w none = fail memory_not_available w
took w (some (addr, t)) = done addr (set_table t w)

abbrev pub mem_allocate : ℕ → M ℕ
mem_allocate len w = took w (allocate len 1 w.space.table)

abbrev pub mem_allocate_pages : ℕ → M ℕ
mem_allocate_pages len w = took w (allocate_pages len w.space.table)

abbrev pub gave : World → Option Table → Outcome (Unit {0})
gave w none = fail table_full w
gave w (some t) = done tt (set_table t w)

abbrev pub mem_free : ℕ → ℕ → M (Unit {0})
mem_free addr len w = gave w (free addr len w.space.table)

abbrev pub mem_read : ℕ → ℕ → M (List ℕ)
mem_read addr len w = or_throw assertion (read addr len w.space) w

abbrev pub put_space : World → Option Space → Outcome (Unit {0})
put_space w none = fail assertion w
put_space w (some s) = done tt (record w { space = s })

abbrev pub mem_write : ℕ → List ℕ → M (Unit {0})
mem_write addr xs w = put_space w (write addr xs w.space)

abbrev pub mem_set : ℕ → ℕ → ℕ → M (Unit {0})
mem_set addr c len w = put_space w (memset addr c len w.space)

-- The calls of `link`.
abbrev pub next_read : World → List ℕ → Outcome ℕ
next_read w [] = fail blocked w
next_read w (v ∷ vs) = done v (record w { reads = vs })

abbrev pub link_readl : ℕ → M ℕ
link_readl reg w = next_read w w.reads

abbrev pub link_readq : ℕ → M ℕ
link_readq reg w = next_read w w.reads

abbrev pub link_writel : ℕ → ℕ → M (Unit {0})
link_writel reg v w = done tt (record w { written = writel reg v ∷ w.written })

abbrev pub link_writeq : ℕ → ℕ → M (Unit {0})
link_writeq reg v w = done tt (record w { written = writeq reg v ∷ w.written })
