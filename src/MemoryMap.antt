-- ===== src/MemoryMap.antt =====
-- Katline/Syscalls/MemoryMapHelpers.cppm: mapping a memory object into a process and unmapping it.
-- A memory object comes as its address and what stands there.
pub mod Fits
pub mod Layout
pub mod Counting
pub mod Unmap
mod Tests
use dhos_reborn.Base.{
  ℕ, zero, suc, ◌+◌, ◌-◌, ◌*◌, ◌/◌, ◌%◌, Bool, true, false, ◌&&◌, ◌||◌, Option, none, some, List,
  [], ◌∷◌, ◌==◌, ltb, if◌then◌else◌, length,
}
use dhos_reborn.CommonLib.{FlagSets}
use dhos_reborn.Process.{MemoryMapping}
use dhos_reborn.MemoryObject.{
  MemoryObject, PageSource, phys_to_virt, retain_memory_object, release_memory_object,
}
use dhos_reborn.ProcessMappings.{k_page_size, find_free_user_region}
use dhos_reborn.SyscallResult.{SyscallError, Result, ok, err}
use dhos_reborn.MapPages.{
  Machine, PageTables, abandon, can_use_requested_base, map_pages, page_flags_from_memory_flags,
  remember_mapping, require_mmio_mapping_capability, required_page_count, current_cr3,
}

-- A search that ran out of fuel counts as one that found nothing.
abbrev pub or_zero : Option ℕ → ℕ
or_zero none = 0
or_zero (some base) = base

-- The base address for the pages: 0 if the requested one cannot be used or no range is free.
unfoldable pub choose_base : List MemoryMapping → ℕ → ℕ → ℕ → ℕ
choose_base ms requested page_offset page_count =
    if requested == 0
    then or_zero (find_free_user_region (length ms + 1) (some ms) page_count)
    else if ltb requested page_offset
    then 0
    else if can_use_requested_base ms (requested - page_offset) page_count
    then requested - page_offset
    else 0

-- The arguments of a call: the process, the object's address, the range within the object, the
-- flags, where to write the address, and the requested address, 0 for any.
pub record Request : Type 0 where
  pub process : ℕ
  pub object : ℕ
  pub offset : ℕ
  pub size : ℕ
  pub flags : ℕ
  pub out_addr : ℕ
  pub requested_addr : ℕ

abbrev pub matches : ℕ → ℕ → MemoryMapping → Bool
matches address size m = (m.address == address) && (m.size == size)

-- The first mapping with the address and the size.
unfoldable pub find_mapping : ℕ → ℕ → List MemoryMapping → Option MemoryMapping
find_mapping address size [] = none
find_mapping address size (m ∷ ms) =
    let rest = find_mapping address size ms in if matches address size m then some m else rest

-- `mappings.remove_at(i)` at that mapping.
unfoldable pub remove_mapping : ℕ → ℕ → List MemoryMapping → List MemoryMapping
remove_mapping address size [] = []
remove_mapping address size (m ∷ ms) =
    let rest = remove_mapping address size ms in if matches address size m then ms else m ∷ rest

-- `leftover` is what a read of the array `mapped_virt` finds after that array was destroyed:
-- the array is declared behind `cleanup`, so its destructor runs before that of `cleanup`.
module _ (F : FlagSets) (S : PageSource) (P : PageTables) (leftover : List ℕ → List ℕ) where
  -- From the write of the address on.
  unfoldable pub publish : Request → ℕ → ℕ → ℕ → List ℕ → Machine S P → Result ℕ × Machine S P
  publish q root base page_count mapped s =
      let address : ℕ = base + q.offset % k_page_size in
      let (failed, t) = P.copy_out (current_cr3 F S P s) q.out_addr address s.tables in
      let copied : Machine S P = record s { tables = t } in
      elim failed [
        | some e ↦ abandon F S P root (leftover mapped) q.object e copied
        | none ↦ (
          ok address,
          remember_mapping F S P q.process
              (record {
                address = address;
                page_base = base;
                page_count = page_count;
                size = q.size;
                object = q.object;
              })
              copied,
        )
      ]

  -- From the choice of the base on; the object has been retained.
  unfoldable pub map_at : Request → MemoryObject → ℕ → ℕ → ℕ → Machine S P → Result ℕ × Machine S P
  map_at q o root flags page_count s =
      let base : ℕ =
        choose_base ((s.processes q.process).mappings) q.requested_addr (q.offset % k_page_size)
          page_count in
      let (done, mapped, t) =
        map_pages F S P page_count o (q.offset / k_page_size) 0 root base flags [] s.tables in
      let written : Machine S P = record s { tables = t } in
      if page_count == 0
      then abandon F S P root [] q.object SyscallError.invalid_argument s
      else if base == 0
      then abandon F S P root [] q.object SyscallError.invalid_argument s
      else if done
      then publish q root base page_count mapped written
      else abandon F S P root (leftover mapped) q.object SyscallError.invalid_argument written

  abbrev pub checked_map :
      Request → MemoryObject → ℕ → Result (Unit {0}) → Machine S P → Result ℕ × Machine S P
  checked_map q o root (err e) s = (err e, s)
  checked_map q o root (ok u) s =
      map_at q o root (page_flags_from_memory_flags F q.flags) (required_page_count q.offset q.size)
        (record s { memory = retain_memory_object S q.object s.memory })

  -- `o` is the object at `q.object`.
  unfoldable pub map_memory_object : Request → MemoryObject → Machine S P → Result ℕ × Machine S P
  unfolding map_at
  map_memory_object q o s =
      let root : ℕ = phys_to_virt s.memory.hhdm_offset ((s.processes q.process).cr3) in
      if (q.process == 0) || (q.object == 0) || (q.size == 0)
      then (err SyscallError.invalid_argument, s)
      else if ltb o.size q.offset || ltb (o.size - q.offset) q.size
      then (err SyscallError.invalid_argument, s)
      else if root == 0
      then (err SyscallError.invalid_argument, s)
      else if page_flags_from_memory_flags F q.flags == 0
      then (err SyscallError.invalid_argument, s)
      else checked_map q o root (require_mmio_mapping_capability F S P o.kind s) s

module _ (S : PageSource) (P : PageTables) where
  -- The loop over the pages of a mapping: whether every page was unmapped.
  unfoldable pub unmap_pages : ℕ → ℕ → ℕ → ℕ → P.Tables → Bool × P.Tables
  unmap_pages zero j root base t = (true, t)
  unmap_pages (suc n) j root base t =
      let (done, t') = P.unmap_page root (base + j * k_page_size) t in
      elim done [ true ↦ unmap_pages n (j + 1) root base t' | false ↦ (false, t') ]

  abbrev pub forget_mapping : ℕ → ℕ → ℕ → Machine S P → Machine S P
  forget_mapping process address size s = record s {
    processes = λ a.
        if a == process
        then record (s.processes a) {
          mappings = remove_mapping address size ((s.processes a).mappings);
        }
        else s.processes a;
  }

  abbrev pub unmap_found :
      ℕ → ℕ → ℕ → Option MemoryMapping → Machine S P → Result (Unit {0}) × Machine S P
  unmap_found process address size none s = (err SyscallError.invalid_argument, s)
  unmap_found process address size (some m) s =
      let root : ℕ = phys_to_virt s.memory.hhdm_offset ((s.processes process).cr3) in
      let (done, t) = unmap_pages m.page_count 0 root m.page_base s.tables in
      if root == 0
      then (err SyscallError.invalid_argument, s)
      else if done
      then (
        ok tt,
        forget_mapping process address size
            (record s { tables = t; memory = release_memory_object S m.object s.memory }),
      )
      else (err SyscallError.invalid_argument, record s { tables = t })

  unfoldable pub unmap_memory_object : ℕ → ℕ → ℕ → Machine S P → Result (Unit {0}) × Machine S P
  unfolding unmap_pages find_mapping remove_mapping
  unmap_memory_object process address size s =
      if (process == 0) || (address == 0) || (size == 0)
      then (err SyscallError.invalid_argument, s)
      else unmap_found process address size
          (find_mapping address size ((s.processes process).mappings)) s
