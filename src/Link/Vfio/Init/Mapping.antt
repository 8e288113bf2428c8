-- ===== src/Link/Vfio/Init/Mapping.antt =====
-- The memory that the device sees.
use mcmqhost.Prelude.{ℕ, ◌+◌, ◌≤◌, ◌<◌, ◌≡◌, refl, ◌&&◌, [], ◌∷◌, ◌++◌, arith, leb, u32_mod}
use mcmqhost.Memory.Space.{Space, mapped}
use mcmqhost.Link.Vfio.Init.{map_memory, PcieLinkVfio, map_dma}

-- For a memory space that ends at 2^32 or below, `map_dma` asks the IOMMU for the one block of
-- addresses that the accessors of the memory space accept: a block of at least one and less than
-- 2^32 bytes passes their assertion exactly when it lies within the mapping.
pub map_dma-mapped :
    (map_base : ℕ) (s : Space) (l : PcieLinkVfio) (addr len : ℕ)
    → s.iova_base + s.map_size ≤ u32_mod
    → addr < u32_mod
    → 0 < len
    → len < u32_mod
    → ((map_dma map_base s l).calls
        ≡ l.calls ++ (map_memory l.container_fd map_base s.map_size s.iova_base ∷ []))
      × (mapped addr len s ≡ leb s.iova_base addr && leb (addr + len) (s.iova_base + s.map_size))
unfolding map_dma
map_dma-mapped map_base s l addr len fits here some_bytes short = (refl, ground arith)
