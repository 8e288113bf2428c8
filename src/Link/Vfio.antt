-- ===== src/Link/Vfio.antt =====
-- The interrupts of `PCIeLinkVfio` (pcie_link_vfio.cpp): the event descriptors that `init` makes, and
-- the rounds of the receiving thread. Descriptors are what `eventfd` and `epoll_wait` give.
pub mod Dispatch
pub mod Init
mod Tests
use mcmqhost.Prelude.{
  ℕ, zero, suc, ◌+◌, ◌≤◌, ◌<◌, ◌≡◌, ◌≢◌, refl, ap, ◌∙◌, sym, Bool, true, false, Bool-cases, inl,
  inr, List, [], ◌∷◌, ◌++◌, Option, none, some, length, get_elem?, ◌==◌, if◌then◌else◌, arith,
}

abbrev pub IrqMap : Type 0
IrqMap = List (ℕ × ℕ)

-- `irq_map.find` and `irq_map[fd] = i`.
unfoldable pub find : ℕ → IrqMap → Option ℕ
find fd [] = none
find fd ((k, i) ∷ m) = if k == fd then some i else find fd m

unfoldable pub assign : ℕ → ℕ → IrqMap → IrqMap
assign fd i [] = (fd, i) ∷ []
assign fd i ((k, j) ∷ m) = if k == fd then (k, i) ∷ m else (k, j) ∷ assign fd i m

-- The loop of `init` over the descriptors that `eventfd` returns, from the vector `i` on.
unfoldable pub map_irqs : ℕ → List ℕ → IrqMap → IrqMap
map_irqs i [] m = m
map_irqs i (fd ∷ fds) m = map_irqs (i + 1) fds (assign fd i m)

-- What an event does: the vector that the handler is called with, if it is one of an interrupt.
abbrev pub handled : Bool → Option ℕ → List ℕ → List ℕ
handled has_handler none rest = rest
handled has_handler (some i) rest = if has_handler then i ∷ rest else rest

-- A round of `recv_thread` after `epoll_wait`: the vectors that the handler is called with, in order.
unfoldable pub events_loop : Bool → IrqMap → List ℕ → List ℕ
events_loop has_handler m [] = []
events_loop has_handler m (fd ∷ fds) =
    handled has_handler (find fd m) (events_loop has_handler m fds)

-- What `epoll_wait` gives in a round, with whether the link is stopped by then.
pub data Wait : Type 0 where
  interrupted failed : Wait
  ready : Bool → List ℕ → Wait

unfoldable pub recv_thread : Bool → IrqMap → List Wait → List ℕ
recv_thread has_handler m [] = []
recv_thread has_handler m (interrupted ∷ rest) = recv_thread has_handler m rest
recv_thread has_handler m (failed ∷ rest) = []
recv_thread has_handler m (ready stopped fds ∷ rest) =
    let later = recv_thread has_handler m rest in
    if stopped then [] else events_loop has_handler m fds ++ later
