-- ===== src/MapPages.antt =====
-- Katline/Syscalls/MemoryMapHelpers.cppm, the parts: flags, capability checks, the choice of a
-- requested base, the loop over the pages and the rollback. The page tables enter as an interface,
-- `PageTables`.
use Prim.Native.Nat.{bit_and}
use dhos_reborn.Base.{
  ℕ, zero, suc, ◌+◌, ◌-◌, ◌*◌, ◌/◌, ◌%◌, ◌^◌, Bool, true, false, not, ◌&&◌, ◌||◌, Option, none,
  some, List, [], ◌∷◌, ◌++◌, ◌==◌, ltb, if◌then◌else◌, get_elem?,
}
use dhos_reborn.CommonLib.{FlagSets}
use dhos_reborn.Process.{Process, MemoryMapping}
use dhos_reborn.MemoryObject.{
  MemoryObjectKind, MemoryObject, PageSource, Objects, release_memory_object,
}
use dhos_reborn.ProcessMappings.{k_page_size, k_user_space_limit, span_bytes, overlaps}
use dhos_reborn.SyscallResult.{SyscallError, Result, ok, err}

-- What the mapping calls use of Katline/Arch/Paging.cppm and of the copies to user space of
-- Katline/Syscalls/KernelContract.cppm: `map root virt phys flags`, `unmap root virt`, and
-- `copy_out cr3 addr value`, which writes a word into the space of the current process, if any.
pub record PageTables : Type 1 where
  pub Tables : Type 0
  pub map_page : ℕ → ℕ → ℕ → ℕ → Tables → Bool × Tables
  pub unmap_page : ℕ → ℕ → Tables → Bool × Tables
  pub copy_out : Option ℕ → ℕ → ℕ → Tables → Option SyscallError × Tables

unfoldable pub required_page_count : ℕ → ℕ → ℕ
required_page_count offset size =
    (offset % k_page_size + size + k_page_size - 1) % 2 ^ 64 / k_page_size

-- `PageFlag::User`, `PageFlag::Writable` and `PageFlag::NoExecute`; the flags of a request are
-- `Writable` = 1 and `NoExecute` = 2. The empty set stands for refused flags.
unfoldable pub page_flags_from_memory_flags : FlagSets → ℕ → ℕ
page_flags_from_memory_flags F flags =
    let user : ℕ = 2 ^ 2 in
    let writable : ℕ = if F.contains_all flags 1 then F.union user (2 ^ 1) else user in
    if bit_and flags (2 ^ 64 - 1 - 3) == 0
    then (if F.contains_all flags 2 then F.union writable (2 ^ 63) else writable)
    else 0

unfoldable pub is_free_for : ℕ → ℕ → List MemoryMapping → Bool
unfolding overlaps
is_free_for base size [] = true
is_free_for base size (m ∷ ms) = not (overlaps base size m) && is_free_for base size ms

unfoldable pub can_use_requested_base : List MemoryMapping → ℕ → ℕ → Bool
unfolding is_free_for span_bytes
can_use_requested_base ms page_base page_count =
    let size : ℕ = span_bytes page_count in
    if (page_count == 0) || not (page_base % k_page_size == 0)
    then false
    else if (size == 0) || (page_base == 0) || ltb k_user_space_limit page_base
    then false
    else if ltb ((k_user_space_limit + 2 ^ 64 - size) % 2 ^ 64) page_base
    then false
    else is_free_for page_base size ms

pub record Machine (S : PageSource) (P : PageTables) : Type 0 where
  pub memory : Objects S
  pub tables : P.Tables
  pub processes : ℕ → Process
  pub current : ℕ

-- `ProcessCapability::MapMMIO`
abbrev pub map_mmio : ℕ
map_mmio = 2 ^ 3

module _ (F : FlagSets) (S : PageSource) (P : PageTables) where
  -- `current` is the process of the current thread, 0 if there is none.
  unfoldable pub require_capabilities : ℕ → Machine S P → Result (Unit {0})
  require_capabilities capabilities s =
      if s.current == 0
      then err SyscallError.invalid_argument
      else if F.contains_all ((s.processes s.current).capabilities) capabilities
      then ok tt
      else err SyscallError.missing_capability

  unfoldable pub require_mmio_mapping_capability :
      MemoryObjectKind → Machine S P → Result (Unit {0})
  unfolding require_capabilities
  require_mmio_mapping_capability MemoryObjectKind.allocated s = ok tt
  require_mmio_mapping_capability MemoryObjectKind.mmio s = require_capabilities map_mmio s

  -- The physical address behind the page at an index of the object; `none` past its pages.
  unfoldable pub page_of : MemoryObject → ℕ → Option ℕ
  page_of o i = elim o.kind [
    | MemoryObjectKind.allocated ↦ get_elem? o.pages i
    | MemoryObjectKind.mmio ↦ some ((o.phys_base + i * k_page_size) % 2 ^ 64)
  ]

  unfoldable pub rollback_mappings : ℕ → List ℕ → P.Tables → P.Tables
  rollback_mappings root [] t = t
  rollback_mappings root (virt ∷ mapped) t =
      rollback_mappings root mapped ((P.unmap_page root virt t).1)

  -- The loop over the pages from index `i` on: whether each was mapped, and what was.
  unfoldable pub map_pages :
      ℕ → MemoryObject → ℕ → ℕ → ℕ → ℕ → ℕ → List ℕ → P.Tables → Bool × List ℕ × P.Tables
  unfolding page_of
  map_pages zero o page_index i root base flags mapped t = (true, mapped, t)
  map_pages (suc n) o page_index i root base flags mapped t = elim (page_of o (page_index + i)) [
    | none ↦ (false, mapped, t)
    | some phys ↦
        let (done, t') = P.map_page root (base + i * k_page_size) phys flags t in
        elim done [
          | true ↦
              map_pages n o page_index (i + 1) root base flags
                (mapped ++ (base + i * k_page_size) ∷ []) t'
          | false ↦ (false, mapped, t')
        ]
  ]

  unfoldable pub remember_mapping : ℕ → MemoryMapping → Machine S P → Machine S P
  remember_mapping process m s = record s {
    processes = λ a.
        if a == process
        then record (s.processes a) { mappings = (s.processes a).mappings ++ m ∷ [] }
        else s.processes a;
  }

  -- The destructor of `Cleanup` on an early return with error `e`: it unmaps what is mapped and
  -- drops the reference to the object at `a`.
  unfoldable pub abandon : ℕ → List ℕ → ℕ → SyscallError → Machine S P → Result ℕ × Machine S P
  abandon root mapped a e s = (
    err e,
    record s {
      memory = release_memory_object S a s.memory;
      tables = rollback_mappings root mapped s.tables;
    },
  )

  abbrev pub current_cr3 : Machine S P → Option ℕ
  current_cr3 s = if s.current == 0 then none else some ((s.processes s.current).cr3)
