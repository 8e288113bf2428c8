-- ===== src/Nvme/Owned/Reach.antt =====
-- The turns of the threads and of the device, in any order.
use mcmqhost.Prelude.{
  ℕ, ◌+◌, ◌*◌, ◌<◌, ◌≡◌, refl, subst, List, Option, none, some, arith, u64_mod, u32_mod,
}
use mcmqhost.Memory.{Table, page, roundup, allocate_pages, free}
use mcmqhost.Memory.Reuse.{roundup_lem}
use mcmqhost.Nvme.World.{
  Arrival, World, done, took, gave, set_table, mem_allocate_pages, mem_free, mem_write,
}
use mcmqhost.Nvme.Queue.{Command}
use mcmqhost.Nvme.Irq.{deliver}
use mcmqhost.Nvme.Submit.{submit_sync_command, read_async, write_async, read, write}
use mcmqhost.Nvme.Sized.{left}
use mcmqhost.Nvme.Owned.{Owned, Owning-mem_write}
use mcmqhost.Nvme.Owned.Pages.{block, allocate-block, free-block}
use mcmqhost.Nvme.Owned.Methods.{
  Owning-submit_sync_command, Owning-read_async, Owning-write_async, Owning-read, Owning-write,
  Owning-deliver,
}

-- One turn, a call from its beginning to its end, also where that is an exception: a thread reads or
-- writes, and waits or leaves a callback, or submits some other command and waits; it takes a buffer
-- of its own, fills it, or gives one back; the device writes and interrupts.
pub data Step : (ℕ → ℕ) → World → (ℕ → ℕ) → World → Type 0 where
  read_async_turn :
      {extra : ℕ → ℕ} {w : World} (nsid pos buf size callback : ℕ)
      → Step extra w extra (left (read_async nsid pos buf size callback w))
  write_async_turn :
      {extra : ℕ → ℕ} {w : World} (nsid pos buf size callback : ℕ)
      → Step extra w extra (left (write_async nsid pos buf size callback w))
  read_turn :
      {extra : ℕ → ℕ} {w : World} (nsid pos buf size : ℕ)
      → Step extra w extra (left (read nsid pos buf size w))
  write_turn :
      {extra : ℕ → ℕ} {w : World} (nsid pos buf size : ℕ)
      → Step extra w extra (left (write nsid pos buf size w))
  sync_turn :
      {extra : ℕ → ℕ} {w : World} (i : ℕ) (cmd : Command) (buf buflen : ℕ)
      → Step extra w extra (left (submit_sync_command i cmd buf buflen w))
  interrupt_turn :
      {extra : ℕ → ℕ} {w : World} (a : Arrival) → Step extra w extra (left (deliver a w))
  fill_turn :
      {extra : ℕ → ℕ} {w : World} (addr : ℕ) (xs : List ℕ)
      → Step extra w extra (left (mem_write addr xs w))
  take_turn :
      {extra : ℕ → ℕ} {w w' : World} {addr : ℕ} (len : ℕ)
      → 0 < len
      → len + 2 * page < u64_mod
      → mem_allocate_pages len w ≡ done addr w'
      → Step extra w (λ a. extra a + block addr (roundup len page) a) w'
  give_turn :
      {extra : ℕ → ℕ} {w w' : World} (addr len : ℕ)
      → 0 < len
      → addr + len < u32_mod
      → mem_free addr len w ≡ done tt w'
      → Step (λ a. extra a + block addr len a) w extra w'

-- Any number of turns.
pub data Reach : (ℕ → ℕ) → World → (ℕ → ℕ) → World → Type 0 where
  nothing : {extra : ℕ → ℕ} {w : World} → Reach extra w extra w
  after :
      {extra extra1 extra2 : ℕ → ℕ} {w w1 w2 : World}
      → Reach extra w extra1 w1
      → Step extra1 w1 extra2 w2
      → Reach extra w extra2 w2

took-Owned :
    (extra : ℕ → ℕ) (w w' : World) (addr len : ℕ) (got : Option (ℕ × Table))
    → 0 < len
    → len + 2 * page < u64_mod
    → allocate_pages len w.space.table ≡ got
    → took w got ≡ done addr w'
    → Owned extra w
    → Owned (λ a. extra a + block addr (roundup len page) a) w'
unfolding allocate_pages
took-Owned extra w w' addr len none pos small e d o = cc
took-Owned extra w w' addr len (some (p, t)) pos small e d o =
    let it : done p (set_table t w) ≡ done addr w' = d in
    let same_addr : p ≡ addr = cc in
    let same : set_table t w ≡ w' = cc in
    let (whole, enough, fits) = roundup_lem len (omega arith) in
    let (v, low, fewer) =
      allocate-block (roundup len page) page w.space.table (omega arith) (omega (arith, enough))
        (omega (arith, fits)) o.valid e in
    subst (λ a. Owned (λ b. extra b + block a (roundup len page) b) w') same_addr
      (subst (Owned (λ b. extra b + block p (roundup len page) b)) same (record {
        valid = v;
        once = λ a. omega (arith, o.once a, fewer a);
        below = o.below;
        page_size = o.page_size;
      }))

gave-Owned :
    (extra : ℕ → ℕ) (w w' : World) (addr len : ℕ) (got : Option Table)
    → 0 < len
    → addr + len < u32_mod
    → free addr len w.space.table ≡ got
    → gave w got ≡ done tt w'
    → Owned (λ a. extra a + block addr len a) w
    → Owned extra w'
gave-Owned extra w w' addr len none pos low e d o = cc
gave-Owned extra w w' addr len (some t) pos low e d o =
    let it : done tt (set_table t w) ≡ done tt w' = d in
    let same : set_table t w ≡ w' = cc in
    let (v, now) =
      free-block addr len w.space.table pos low o.valid (λ a. omega (arith, o.once a)) e in
    subst (Owned extra) same (record {
      valid = v;
      once = λ a. omega (arith, o.once a, now a);
      below = o.below;
      page_size = o.page_size;
    })

Step-Owned :
    {extra extra' : ℕ → ℕ} {w w' : World} → Step extra w extra' w' → Owned extra w → Owned extra' w'
Step-Owned (read_async_turn nsid pos buf size callback) o =
    (Owning-read_async nsid pos buf size callback).at _ _ o
Step-Owned (write_async_turn nsid pos buf size callback) o =
    (Owning-write_async nsid pos buf size callback).at _ _ o
Step-Owned (read_turn nsid pos buf size) o = (Owning-read nsid pos buf size).at _ _ o
Step-Owned (write_turn nsid pos buf size) o = (Owning-write nsid pos buf size).at _ _ o
Step-Owned (sync_turn i cmd buf buflen) o = (Owning-submit_sync_command i cmd buf buflen).at _ _ o
Step-Owned (interrupt_turn a) o = (Owning-deliver a).at _ _ o
Step-Owned (fill_turn addr xs) o = (Owning-mem_write addr xs).at _ _ o
Step-Owned {w = w} {w' = w'} (take_turn len pos small e) o =
    took-Owned _ w w' _ len (allocate_pages len w.space.table) pos small refl e o
Step-Owned {w = w} {w' = w'} (give_turn addr len pos low e) o =
    gave-Owned _ w w' addr len (free addr len w.space.table) pos low refl e o

-- Whatever calls the threads make and whatever the device does, one after the other in any order, and
-- with any exceptions: where no address has two holders before, none has two after. So no PRP list of a command in the
-- map ever lies in the free part of the memory space, in a thread's buffer, or in a PRP list of
-- another command.
pub Reach-Owned :
    {extra extra' : ℕ → ℕ} {w w' : World}
    → Reach extra w extra' w'
    → Owned extra w
    → Owned extra' w'
Reach-Owned nothing o = o
Reach-Owned (after earlier last) o = Step-Owned last (Reach-Owned earlier o)
