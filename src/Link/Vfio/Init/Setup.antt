-- ===== src/Link/Vfio/Init/Setup.antt =====
-- What `init` of the VFIO link leaves, and the thread that runs on it.
use Prim.Native.String.{String, ◌++◌ as ◌++ₛ◌}
use mcmqhost.Prelude.{
  ℕ, ◌+◌, ◌≤◌, ◌<◌, ◌≡◌, ◌≢◌, ◌⊎◌, refl, true, false, inl, inr, Bool-cases, List, [], ◌∷◌, ◌++◌,
  some, ◌==◌, replicate, map, bit_and, bit_or, arith,
}
use mcmqhost.Link.Vfio.{Wait, map_irqs, recv_thread}
use mcmqhost.Link.Vfio.Dispatch.{AllDistinct, indices, until_stop, recv_thread-indices}
use mcmqhost.Link.Vfio.Init.{
  Os, Call, set_container, set_iommu, write_word, set_irqs, PcieLinkVfio, new_link,
  vfio_api_version, vfio_type1_iommu, group_flags_viable, config_region_index, bar0_region_index,
  nr_irq_fds, eventfds, returned, undefined_at, attach, init,
}
use mcmqhost.Link.Vfio.Init.Irqs.{full, length-eventfds, set_all_irqs-full, set_all_irqs-overran}

-- The version, the IOMMU and the group are those that the code asks for.
pub record Supported (os : Os) (vfio_group : String) : Type 0 where
  pub version : os.get_api_version (os.open_file "/dev/vfio/vfio") ≡ vfio_api_version
  pub iommu : (os.check_extension (os.open_file "/dev/vfio/vfio") vfio_type1_iommu == 0) ≡ false
  pub viable :
      (bit_and (os.group_flags (os.open_file ("/dev/vfio/" ++ₛ vfio_group))) group_flags_viable
        == 0)
      ≡ false

module _ (os : Os) (vfio_group device_id : String) (bar0_size : ℕ) where
  abbrev pub container : ℕ
  container = os.open_file "/dev/vfio/vfio"

  abbrev pub group : ℕ
  group = os.open_file ("/dev/vfio/" ++ₛ vfio_group)

  abbrev pub device : ℕ
  device = os.get_device_fd group device_id

  abbrev pub fds : List ℕ
  fds = eventfds os nr_irq_fds 0

  -- The calls that attach to the device, with the bus master bit.
  abbrev pub attaching : List Call
  attaching =
      let command = (os.region_info device config_region_index).offset + 4 in
      set_container group container
      ∷ set_iommu container vfio_type1_iommu
      ∷ write_word device (bit_or (os.read_word device command) 4) command
      ∷ []

  -- The link that came up, with what was asked of the system.
  abbrev pub came_up : PcieLinkVfio
  came_up =
      let command = (os.region_info device config_region_index).offset + 4 in
      let bar0 = os.region_info device bar0_region_index in
      record (new_link vfio_group device_id bar0_size) {
        container_fd = some container;
        group_fd = some group;
        device_fd = some device;
        bar0_size = bar0.size;
        bar0_base = some (os.map_region bar0.size device bar0.offset);
        irq_fds = fds;
        irq_map = map_irqs 0 fds [];
        device_ready = true;
        calls =
            set_container group container
            ∷ set_iommu container vfio_type1_iommu
            ∷ write_word device (bit_or (os.read_word device command) 4) command
            ∷ map (λ i. set_irqs device i fds) (full os device (os.num_irqs device) 0);
      }

  init-came_up :
      Supported os vfio_group
      → ((i : ℕ) → i < os.num_irqs device → os.irq_count device i ≤ nr_irq_fds)
      → init os (new_link vfio_group device_id bar0_size) ≡ returned true came_up
  unfolding init attach
  init-came_up supported fit =
      let fits : (j : ℕ) → j < os.num_irqs device → os.irq_count device (0 + j) ≤ nr_irq_fds =
        λ j inside. (let here : 0 + j ≡ j = omega arith in rw here (fit j inside)) in
      let right_version : (os.get_api_version container == vfio_api_version) ≡ true =
        ground (arith, supported.version) in
      rw
        (
          right_version,
          supported.iommu,
          supported.viable,
          set_all_irqs-full os device fds (length-eventfds os nr_irq_fds 0) (os.num_irqs device) 0
              (replicate nr_irq_fds 0) _ refl fits,
        )
        refl

  -- With the API version and the IOMMU that the code asks for and a viable group: let `k` be the first
  -- interrupt index that has more than 16 interrupts. Then `init` of a new link attaches to the device,
  -- sets the bus master bit and gives all 16 descriptors to each index below `k` that has 16
  -- interrupts. At the index `k` it reads `irq_fds` or writes the entries of `irq_set` at 16, behind the
  -- last of either.
  pub init-overrun :
      Supported os vfio_group
      → (k : ℕ) → k < os.num_irqs device
      → ((i : ℕ) → i < k → os.irq_count device i ≤ nr_irq_fds)
      → nr_irq_fds < os.irq_count device k
      → init os (new_link vfio_group device_id bar0_size)
        ≡ undefined_at k nr_irq_fds
            (attaching ++ map (λ i. set_irqs device i fds) (full os device k 0))
  unfolding init attach
  init-overrun supported k inside fit large =
      let fits : (j : ℕ) → j < k → os.irq_count device (0 + j) ≤ nr_irq_fds =
        λ j below. (let here : 0 + j ≡ j = omega arith in rw here (fit j below)) in
      let here : 0 + k ≡ k = omega arith in
      let large' : nr_irq_fds < os.irq_count device (0 + k) = rw here large in
      let right_version : (os.get_api_version container == vfio_api_version) ≡ true =
        ground (arith, supported.version) in
      rw
        (
          right_version,
          supported.iommu,
          supported.viable,
          set_all_irqs-overran os device fds (length-eventfds os nr_irq_fds 0) k
              (os.num_irqs device) 0 (replicate nr_irq_fds 0) _ refl fits inside large',
          here,
        )
        refl

  -- With the API version and the IOMMU that the code asks for, a viable group and at most 16
  -- interrupts of each kind: `init` of a new link succeeds and leaves it ready, with the group in the
  -- container, the bus master bit set, and all 16 descriptors given to each kind of interrupt that has
  -- 16 and to no other. Then, with descriptors that are all different, the receiving thread calls the
  -- handler, in order, with the index of the descriptor of each event of the rounds until the link
  -- stops or `epoll_wait` fails, and passes over the events on other descriptors.
  pub init-recv_thread :
      Supported os vfio_group
      → ((i : ℕ) → i < os.num_irqs device → os.irq_count device i ≤ nr_irq_fds)
      → AllDistinct fds
      → (rounds : List Wait)
      → (init os (new_link vfio_group device_id bar0_size) ≡ returned true came_up)
        × (recv_thread true came_up.irq_map rounds ≡ indices came_up.irq_fds (until_stop rounds))
  init-recv_thread supported fit distinct rounds =
      (init-came_up supported fit, recv_thread-indices fds distinct rounds)

  -- Without one of the three, `init` of a new link fails, has not changed anything in the system, and
  -- the link is not ready.
  pub init-rejected :
      (os.get_api_version container ≢ vfio_api_version)
        ⊎ ((os.check_extension container vfio_type1_iommu ≡ 0)
            ⊎ (bit_and (os.group_flags group) group_flags_viable ≡ 0))
      → (l : PcieLinkVfio) × (init os (new_link vfio_group device_id bar0_size) ≡ returned false l)
        × (l.calls ≡ [])
        × (l.device_ready ≡ false)
  unfolding init
  init-rejected why = elim (Bool-cases (os.get_api_version container == vfio_api_version)) [
    | inr wrong ↦ rw wrong (_, refl, refl, refl)
    | inl right ↦ elim (Bool-cases (os.check_extension container vfio_type1_iommu == 0)) [
      | inl missing ↦ rw (right, missing) (_, refl, refl, refl)
      | inr there ↦ elim (Bool-cases (bit_and (os.group_flags group) group_flags_viable == 0)) [
        | inl not_viable ↦ rw (right, there, not_viable) (_, refl, refl, refl)
        | inr viable ↦ absurd (elim why [
          | inl version ↦ version (ground (arith, right))
          | inr (inl iommu) ↦ ground (arith, iommu, there)
          | inr (inr flags) ↦ ground (arith, flags, viable)
        ])
      ]
    ]
  ]
