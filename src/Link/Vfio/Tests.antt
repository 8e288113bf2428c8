-- ===== src/Link/Vfio/Tests.antt =====
-- The VFIO link at concrete inputs.
use mcmqhost.Prelude.{
  ℕ, zero, suc, ◌+◌, ◌<◌, ◌≡◌, refl, true, false, ◌&&◌, List, [], ◌∷◌, ◌++◌, none, inr, ◌==◌,
  if◌then◌else◌, leb, arith,
}
use mcmqhost.Memory.Space.{mapped}
use mcmqhost.Link.Vfio.{Wait, interrupted, ready, recv_thread}
use mcmqhost.Link.Vfio.Dispatch.{Absent, AllDistinct, indices, until_stop}
use mcmqhost.Link.Vfio.Init.{
  Os, PcieLinkVfio, new_link, init, returned, undefined_at, set_irqs, eventfds, map_memory, map_dma,
}
use mcmqhost.Link.Vfio.Init.Setup.{
  Supported, attaching, came_up, init-recv_thread, init-overrun, init-rejected,
}
use mcmqhost.Link.Vfio.Init.Mapping.{map_dma-mapped}
use mcmqhost.Nvme.Samples.{small_space}

-- A device with 16 interrupts of the kind 1 and one of each other kind.
abbrev machine : Os
machine = record {
  open_file = λ path. 3;
  get_api_version = λ fd. 0;
  check_extension = λ fd extension. 1;
  group_flags = λ fd. 1;
  get_device_fd = λ fd device. 8;
  num_irqs = λ fd. 5;
  region_info = λ fd index. record { size = 0x4000; offset = 0x10000 };
  read_word = λ fd offset. 0;
  map_region = λ size fd offset. 0x7000;
  new_eventfd = λ i. 20 + i;
  irq_count = λ fd i. if i == 1 then 16 else 1;
}

machine-Supported : Supported machine "0"
machine-Supported = record { version = refl; iommu = refl; viable = refl }

eventfds-Absent : (n i fd : ℕ) → fd < 20 + i → Absent fd (eventfds machine n i)
unfolding eventfds
eventfds-Absent zero i fd below = tt
eventfds-Absent (suc n) i fd below =
    (λ e. omega (arith, below, e), eventfds-Absent n (i + 1) fd (omega (arith, below)))

eventfds-AllDistinct : (n i : ℕ) → AllDistinct (eventfds machine n i)
unfolding eventfds
eventfds-AllDistinct zero i = tt
eventfds-AllDistinct (suc n) i =
    (eventfds-Absent n (i + 1) (20 + i) (omega arith), eventfds-AllDistinct n (i + 1))

-- Descriptor 9 wakes the thread and is none of an interrupt.
abbrev rounds : List Wait
rounds = ready false (24 ∷ []) ∷ interrupted ∷ ready false (20 ∷ 9 ∷ []) ∷ ready true (21 ∷ []) ∷ []

init-recv_thread_example :
    (init machine (new_link "0" "1" 0) ≡ returned true (came_up machine "0" "1" 0))
    × (recv_thread true (came_up machine "0" "1" 0).irq_map rounds
        ≡ indices (came_up machine "0" "1" 0).irq_fds (until_stop rounds))
init-recv_thread_example =
    init-recv_thread machine "0" "1" 0 machine-Supported (λ i inside. ground arith)
      (eventfds-AllDistinct 16 0) rounds

-- The same with 32 interrupts of the kind 2.
abbrev large_machine : Os
large_machine = record machine {
  irq_count = λ fd i. if i == 1 then 16 else (if i == 2 then 32 else 1);
}

large-Supported : Supported large_machine "0"
large-Supported = record { version = refl; iommu = refl; viable = refl }

init-overrun_example :
    init large_machine (new_link "0" "1" 0)
    ≡ undefined_at 2 16
        (attaching large_machine "0" "1" 0 ++ (set_irqs 8 1 (eventfds large_machine 16 0) ∷ []))
init-overrun_example =
    init-overrun large_machine "0" "1" 0 large-Supported 2 (omega arith) (λ i below. ground arith)
      (omega arith)

init-rejected_example :
    (l : PcieLinkVfio) × (init (record machine { group_flags = λ fd. 0 }) (new_link "0" "1" 0)
      ≡ returned false l)
    × (l.calls ≡ [])
    × (l.device_ready ≡ false)
init-rejected_example =
    init-rejected (record machine { group_flags = λ fd. 0 }) "0" "1" 0 (inr (inr refl))

map_dma-mapped_example :
    ((map_dma 0x9000 small_space (new_link "0" "1" 0)).calls
      ≡ map_memory none 0x9000 0x10000 0x1000 ∷ [])
    × (mapped 0x10ff0 0x20 small_space
        ≡ leb 0x1000 0x10ff0 && leb (0x10ff0 + 0x20) (0x1000 + 0x10000))
map_dma-mapped_example =
    map_dma-mapped 0x9000 small_space (new_link "0" "1" 0) 0x10ff0 0x20 (omega arith) (omega arith)
      (omega arith) (omega arith)
