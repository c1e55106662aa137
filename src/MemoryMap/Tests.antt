-- ===== src/MemoryMap/Tests.antt =====
-- Mapping and unmapping one page, with page tables that take every request.
use dhos_reborn.Base.{
  ℕ, ◌+◌, ◌-◌, ◌≡◌, refl, true, none, some, List, [], ◌∷◌, arith, ◌==◌, if◌then◌else◌,
}
use dhos_reborn.CommonLib.Levels.{levels}
use dhos_reborn.Process.{Process, ProcessState}
use dhos_reborn.MemoryObject.{phys_to_virt, Objects, MemoryObject, MemoryObjectKind}
use dhos_reborn.MemoryObject.FreeList.{free_list}
use dhos_reborn.ProcessMappings.{
  span_bytes, first_overlap, search_start, find_free_user_region, search_region, span_bytes,
  first_overlap,
}
use dhos_reborn.SyscallResult.{Result, ok}
use dhos_reborn.MapPages.{
  PageTables, Machine, required_page_count, map_pages, remember_mapping,
  require_mmio_mapping_capability, page_flags_from_memory_flags,
}
use dhos_reborn.MemoryMap.{
  Request, choose_base, publish, map_memory_object, unmap_memory_object, phys_to_virt,
}
use dhos_reborn.MemoryMap.Fits.{IsLaidOut}
use dhos_reborn.MemoryMap.Layout.{Mapped, map_memory_object-Mapped, map_memory_object-IsLaidOut}
use dhos_reborn.MemoryMap.Counting.{Counted, map_memory_object-Counted}
use dhos_reborn.MemoryMap.Unmap.{Removed, unmap_memory_object-Removed}

-- The tables count the pages that are mapped.
abbrev counting_tables : PageTables
counting_tables = record {
  Tables = ℕ;
  map_page = λ root virt phys flags n. (true, n + 1);
  unmap_page = λ root virt n. (true, n - 1);
  copy_out = λ cr3 address value n. (none, n);
}

abbrev user_process : Process
user_process = record {
  parent = 0;
  pid = 1;
  name = [];
  handle_count = 0;
  state = ProcessState.running;
  capabilities = 0;
  threads = [];
  mappings = [];
  endpoint_id = 1;
  cr3 = 4096;
}

abbrev held_object : MemoryObject
held_object = record {
  kind = MemoryObjectKind.allocated;
  size = 4096;
  pages = 8192 ∷ [];
  phys_base = 0;
  ref_count = 1;
}

abbrev objects : Objects free_list
objects = record {
  at = λ a. if a == 5 then some held_object else none;
  frames = [];
  hhdm_offset = 0;
  reserve_ok = λ n. true;
}

abbrev machine : Machine free_list counting_tables
machine = record { memory = objects; tables = 0; processes = λ a. user_process; current = 1 }

abbrev request : Request
request = record {
  process = 1;
  object = 5;
  offset = 0;
  size = 4096;
  flags = 1;
  out_addr = 64;
  requested_addr = 0;
}

kept : List ℕ → List ℕ
kept l = l

abbrev answer : Result ℕ × Machine free_list counting_tables
answer = map_memory_object levels free_list counting_tables kept request held_object machine

mapped_at_start : answer.0 ≡ ok search_start
unfolding map_memory_object publish map_pages choose_base find_free_user_region search_region
    required_page_count page_flags_from_memory_flags require_mmio_mapping_capability
    remember_mapping phys_to_virt span_bytes first_overlap
mapped_at_start = refl

map_memory_object-Mapped_example : Mapped request machine answer
map_memory_object-Mapped_example =
    map_memory_object-Mapped levels free_list counting_tables kept request held_object machine
      (omega arith) tt

map_memory_object-IsLaidOut_example : IsLaidOut ((answer.1.processes 1).mappings)
map_memory_object-IsLaidOut_example =
    map_memory_object-IsLaidOut levels free_list counting_tables kept request held_object machine
      (omega arith) (λ a. tt) 1

map_memory_object-Counted_example : Counted 5 held_object objects answer.0 answer.1.memory
map_memory_object-Counted_example =
    map_memory_object-Counted levels free_list counting_tables kept request held_object machine
      ((λ e. omega arith), refl, omega arith, omega arith)

unmap_memory_object-Removed_example :
    Removed 1 search_start 4096 answer.1
      (unmap_memory_object free_list counting_tables 1 search_start 4096 answer.1)
unmap_memory_object-Removed_example =
    unmap_memory_object-Removed free_list counting_tables 1 search_start 4096 answer.1
