-- ===== src/KernelHeap/Regions.antt =====
-- Katline/Memory/MemoryData.cppm, MemoryManager::init of Katline/Memory/MemoryManager.cppm and
-- reserve_mmap_phys_range of Katline/Runtime.cppm: the memory map, and what of it the heap gets.
pub mod Given
use dhos_reborn.Base.{
  ℕ, ◌-◌, ◌+◌, ◌^◌, ◌%◌, ◌≡◌, refl, ◌∙◌, Bool, true, false, not, ◌||◌, ◌&&◌, List, [], ◌∷◌, Option,
  none, some, ◌==◌, if◌then◌else◌, Bool-cases, inl, inr,
}
use dhos_reborn.KernelHeap.{Heap, memory_add_region, mrvn_memory_init, sub64}

pub data MemoryType : Type 0 where
  usable reserved acpi_reclaimable acpi_nvs bad_memory bootloader_reclaimable kernel_and_modules
        framebuffer :
      MemoryType

pub record MemoryData : Type 0 where
  pub base : ℕ
  pub size : ℕ
  pub type : MemoryType

abbrev pub is_usable_type : MemoryType → Bool
is_usable_type MemoryType.usable = true
is_usable_type _ = false

-- The negation of `md->type != MemoryType::USABLE || md->size == 0`.
abbrev pub is_usable : MemoryData → Bool
is_usable md = is_usable_type md.type && not (md.size == 0)

unfoldable pub mrvn_memory_add : ℕ → ℕ → Heap → Bool × Heap
unfolding memory_add_region
mrvn_memory_add mem size h = memory_add_region mem size h

-- The loop over the map, with `initialized`.
unfoldable pub init_from : Bool → List MemoryData → Heap → Bool × Heap
init_from initialized [] h = (initialized, h)
init_from initialized (md ∷ mmap) h =
    if not (is_usable md)
    then init_from initialized mmap h
    else if not initialized
    then init_from true mmap (mrvn_memory_init md.base md.size h)
    else init_from true mmap ((mrvn_memory_add md.base md.size h).1)

-- `none`: nothing was usable, and the processor halts.
unfoldable pub init : List MemoryData → Heap → Option Heap
init mmap h =
    let (initialized, h') = init_from false mmap h in if initialized then some h' else none

-- `ranges_overlap` of CommonLib takes two ranges, each by its base and its size.
module _ (ranges_overlap : ℕ → ℕ → ℕ → ℕ → Bool) where
  abbrev pub in_range : ℕ → ℕ → ℕ → MemoryData → Bool
  in_range hhdm_offset phys_base size md =
      ranges_overlap (sub64 md.base hhdm_offset) md.size phys_base size

  unfoldable pub reserve_mmap_phys_range : ℕ → ℕ → ℕ → List MemoryData → List MemoryData
  reserve_mmap_phys_range hhdm_offset phys_base size [] = []
  reserve_mmap_phys_range hhdm_offset phys_base size (md ∷ mmap) =
      (if is_usable md && in_range hhdm_offset phys_base size md
        then record md { type = MemoryType.reserved }
        else md)
      ∷ reserve_mmap_phys_range hhdm_offset phys_base size mmap
