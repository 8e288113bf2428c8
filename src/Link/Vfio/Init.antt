-- ===== src/Link/Vfio/Init.antt =====
-- `PCIeLinkVfio::init`, `map_dma` and the destructor of pcie_link_vfio.cpp. What the system calls
-- return is the `Os`; those that change something are recorded.
pub mod Irqs
pub mod Setup
pub mod Mapping
use Prim.Native.String.{String, ◌++◌ as ◌++ₛ◌}
use mcmqhost.Prelude.{
  ℕ, zero, suc, ◌+◌, Bool, true, false, List, [], ◌∷◌, ◌++◌, Option, none, some, ◌==◌,
  if◌then◌else◌, ltb, take, length, get_elem?, set, replicate, bit_and, bit_or,
}
use mcmqhost.Memory.Space.{Space}
use mcmqhost.Link.Vfio.{IrqMap, map_irqs}

-- `struct vfio_region_info`, of which the code reads two fields.
pub record Region : Type 0 where
  pub size : ℕ
  pub offset : ℕ

pub record Os : Type 0 where
  pub open_file : String → ℕ
  pub get_api_version : ℕ → ℕ
  pub check_extension : ℕ → ℕ → ℕ
  pub group_flags : ℕ → ℕ
  pub get_device_fd : ℕ → String → ℕ
  pub num_irqs : ℕ → ℕ
  pub region_info : ℕ → ℕ → Region
  -- two bytes of a descriptor at an offset
  pub read_word : ℕ → ℕ → ℕ
  -- a size, a descriptor and an offset in it
  pub map_region : ℕ → ℕ → ℕ → ℕ
  -- the descriptor of each call
  pub new_eventfd : ℕ → ℕ
  pub irq_count : ℕ → ℕ → ℕ

pub data Call : Type 0 where
  set_container set_iommu : ℕ → ℕ → Call
  write_word : ℕ → ℕ → ℕ → Call
  set_irqs : ℕ → ℕ → List ℕ → Call
  map_memory : Option ℕ → ℕ → ℕ → ℕ → Call
  close_fd : Option ℕ → Call
  unmap : ℕ → ℕ → Call

-- A descriptor that is not open is -1, here `none`. The calls are oldest first.
pub record PcieLinkVfio : Type 0 where
  pub vfio_group : String
  pub device_id : String
  pub group_fd : Option ℕ
  pub container_fd : Option ℕ
  pub device_fd : Option ℕ
  pub irq_fds : List ℕ
  pub irq_map : IrqMap
  pub bar0_base : Option ℕ
  pub bar0_size : ℕ
  pub device_ready : Bool
  pub calls : List Call

-- The constructor; `bar0_size` is not set by it.
abbrev pub new_link : String → String → ℕ → PcieLinkVfio
new_link vfio_group device_id bar0_size = record {
  vfio_group = vfio_group;
  device_id = device_id;
  group_fd = none;
  container_fd = none;
  device_fd = none;
  irq_fds = [];
  irq_map = [];
  bar0_base = none;
  bar0_size = bar0_size;
  device_ready = false;
  calls = [];
}

-- The constants of linux/vfio.h.
abbrev pub vfio_api_version : ℕ
vfio_api_version = 0

abbrev pub vfio_type1_iommu : ℕ
vfio_type1_iommu = 1

abbrev pub group_flags_viable : ℕ
group_flags_viable = 1

abbrev pub config_region_index : ℕ
config_region_index = 7

abbrev pub bar0_region_index : ℕ
bar0_region_index = 0

abbrev pub nr_irq_fds : ℕ
nr_irq_fds = 16

-- `n` calls of `eventfd`, from the call `i` on.
unfoldable pub eventfds : Os → ℕ → ℕ → List ℕ
eventfds os zero i = []
eventfds os (suc n) i = os.new_eventfd i ∷ eventfds os n (i + 1)

-- The loop over `pfd`, `n` more rounds from `j` on: the array that it leaves, or the index at which
-- it reads `irq_fds` or writes `pfd` out of bounds.
pub data Filled : Type 0 where
  outside : ℕ → Filled
  filled : List ℕ → Filled

-- The accesses of a round, with the rounds behind it.
abbrev pub fill_at : ℕ → Option ℕ → Bool → (ℕ → Filled) → Filled
fill_at j none inside rest = outside j
fill_at j (some fd) inside rest = if inside then rest fd else outside j

unfoldable pub fill_pfd : ℕ → ℕ → List ℕ → List ℕ → Filled
fill_pfd zero j fds pfd = filled pfd
fill_pfd (suc n) j fds pfd =
    fill_at j (get_elem? fds j) (ltb j (length pfd)) (λ fd. fill_pfd n (j + 1) fds (set pfd j fd))

-- What the loop over the interrupt indices leaves: the calls; or the interrupt index at which it goes
-- out of bounds with the index into the arrays, and the calls before.
pub data IrqsSet : Type 0 where
  irqs_set : List Call → IrqsSet
  overran : ℕ → ℕ → List Call → IrqsSet

-- The call for one interrupt index, with the rounds behind it.
abbrev pub after_fill : ℕ → ℕ → ℕ → List Call → Filled → (List ℕ → List Call → IrqsSet) → IrqsSet
after_fill device i count calls (outside j) rest = overran i j calls
after_fill device i count calls (filled pfd) rest =
    rest pfd (calls ++ (set_irqs device i (take count pfd) ∷ []))

-- The loop over `n` interrupt indices from `i` on, with the entries of `irq_set`.
unfoldable pub set_all_irqs : Os → ℕ → List ℕ → ℕ → ℕ → List ℕ → List Call → IrqsSet
unfolding fill_pfd
set_all_irqs os device fds zero i pfd calls = irqs_set calls
set_all_irqs os device fds (suc n) i pfd calls =
    let count = os.irq_count device i in
    let skip = set_all_irqs os device fds n (i + 1) pfd calls in
    let fill =
      after_fill device i count calls (fill_pfd count 0 fds pfd)
        (λ pfd' calls'. set_all_irqs os device fds n (i + 1) pfd' calls') in
    if ltb count nr_irq_fds then skip else fill

-- How `init` ends: it returns; or its behaviour is undefined from the access on that the interrupt
-- index and the index into the arrays tell, after the calls.
pub data Init : Type 0 where
  returned : Bool → PcieLinkVfio → Init
  undefined_at : ℕ → ℕ → List Call → Init

abbrev pub ready_link : PcieLinkVfio → IrqsSet → Init
ready_link l (overran i j calls) = undefined_at i j calls
ready_link l (irqs_set calls) = returned true (record l { device_ready = true; calls = calls })

-- What follows once the group is viable: `PCI_COMMAND` gets the bus master bit, the registers are
-- mapped, and the interrupts get their event descriptors. `new` leaves the entries of `irq_set` as they
-- are; they are written before they are read.
unfoldable pub attach : Os → ℕ → ℕ → PcieLinkVfio → Init
unfolding eventfds set_all_irqs map_irqs
attach os container group l =
    let device = os.get_device_fd group l.device_id in
    let command = (os.region_info device config_region_index).offset + 4 in
    let bar0 = os.region_info device bar0_region_index in
    let fds = eventfds os nr_irq_fds 0 in
    let attached = record l {
      device_fd = some device;
      bar0_size = bar0.size;
      bar0_base = some (os.map_region bar0.size device bar0.offset);
      irq_fds = l.irq_fds ++ fds;
      irq_map = map_irqs 0 fds l.irq_map;
    } in
    let calls =
      l.calls
      ++ (set_container group container
          ∷ set_iommu container vfio_type1_iommu
          ∷ write_word device (bit_or (os.read_word device command) 4) command
          ∷ []) in
    ready_link attached (
      set_all_irqs os device attached.irq_fds (os.num_irqs device) 0 (replicate nr_irq_fds 0) calls)

unfoldable pub init : Os → PcieLinkVfio → Init
unfolding attach
init os l =
    let container = os.open_file "/dev/vfio/vfio" in
    let opened = record l { container_fd = some container } in
    let group = os.open_file ("/dev/vfio/" ++ₛ l.vfio_group) in
    let grouped = record opened { group_fd = some group } in
    let viable = bit_and (os.group_flags group) group_flags_viable in
    if os.get_api_version container == vfio_api_version
    then (if os.check_extension container vfio_type1_iommu == 0
        then returned false opened
        else (if viable == 0 then returned false grouped else attach os container group grouped))
    else returned false opened

-- `map_base` is the address of the mapping in the process. An error is logged only.
unfoldable pub map_dma : ℕ → Space → PcieLinkVfio → PcieLinkVfio
map_dma map_base s l = record l {
  calls = l.calls ++ (map_memory l.container_fd map_base s.map_size s.iova_base ∷ []);
}

abbrev pub unmap_bar0 : Option ℕ → ℕ → List Call
unmap_bar0 none size = []
unmap_bar0 (some base) size = unmap base size ∷ []

-- The calls of the destructor.
unfoldable pub destroy : PcieLinkVfio → List Call
destroy l =
    close_fd l.device_fd
    ∷ close_fd l.group_fd
    ∷ close_fd l.container_fd
    ∷ unmap_bar0 l.bar0_base l.bar0_size
