-- ===== src/HandleManager/Tests.antt =====
-- The theorems about Katline/HandleManager.cppm at a small table: processes 1 and 2, and one
-- memory object, at address 5.
use dhos_reborn.Base.{
  ℕ, ◌≡◌, refl, ◌≢◌, ◌↔◌, true, false, none, some, [], ◌∷◌, arith, ◌==◌, if◌then◌else◌,
}
use dhos_reborn.CommonLib.{HashMap}
use dhos_reborn.CommonLib.AssociationMap.{association_map}
use dhos_reborn.Process.{Process, ProcessState, Thread, ThreadState, CpuContext}
use dhos_reborn.MemoryObject.{
  Objects, release_memory_object, retain_memory_object, MemoryObject, MemoryObjectKind,
}
use dhos_reborn.MemoryObject.FreeList.{free_list}
use dhos_reborn.HandleManager.{HandleKind, Entry, Store, HandleManager, open_handle, close, resolve}
use dhos_reborn.HandleManager.Ownership.{IsFresh, Holds, entry, resolve_iff}
use dhos_reborn.HandleManager.References.{IsCounted, Counts, references}
use dhos_reborn.HandleManager.History.{opens, closes, run, run-IsCounted}

abbrev pub blank_process : Process
blank_process = record {
  parent = 0;
  pid = 0;
  name = [];
  handle_count = 0;
  state = ProcessState.running;
  capabilities = 0;
  threads = [];
  mappings = [];
  endpoint_id = 0;
  cr3 = 0;
}

abbrev blank_context : CpuContext
blank_context = record {
  rax = 0;
  rbx = 0;
  rcx = 0;
  rdx = 0;
  rsi = 0;
  rdi = 0;
  rbp = 0;
  rsp = 0;
  r8 = 0;
  r9 = 0;
  r10 = 0;
  r11 = 0;
  r12 = 0;
  r13 = 0;
  r14 = 0;
  r15 = 0;
  rip = 0;
  rflags = 0;
  cs = 0;
  ss = 0;
  ds = 0;
  es = 0;
  fs = 0;
  gs = 0;
}

abbrev blank_thread : Thread
blank_thread = record {
  tid = 0;
  tstate = ThreadState.ready;
  handle_count = 0;
  entry_point = 0;
  context = blank_context;
  slice_remaining = 0;
  home_lapic_id = 0;
  last_lapic_id = 0;
  kernel_stack_base = 0;
  kernel_stack_size = 0;
  stack_is_heap_allocated = false;
  process = 0;
  fs_base = 0;
  gs_base = 0;
}

abbrev page_object : MemoryObject
page_object = record {
  kind = MemoryObjectKind.allocated;
  size = 4096;
  pages = 8192 ∷ [];
  phys_base = 0;
  ref_count = 0;
}

abbrev pub objects : Objects free_list
objects = record {
  at = λ a. if a == 5 then some page_object else none;
  frames = [];
  hhdm_offset = 0;
  reserve_ok = λ n. true;
}

abbrev pub store : Store free_list
store = record { processes = λ a. blank_process; threads = λ a. blank_thread; memory = objects }

abbrev pub H : HashMap Entry
H = association_map Entry

abbrev pub M : Type 0
M = HandleManager free_list H

abbrev pub empty : M
empty = record { entries = ([], refl); next_handle_id = 1; store = store }

abbrev one : M
one = record {
  entries = ((1, entry HandleKind.memory_object 5 1) ∷ [], refl);
  next_handle_id = 2;
  store = store;
}

no_others : HandleKind → ℕ → ℕ
no_others kind a = 0

-- The last handle deletes the object and gives its page back.
closed :
    (run {S = free_list} {H = H}
      (opens 1 HandleKind.memory_object 5 ∷ closes 1 1 ∷ [])
      empty).store.memory.frames
    ≡ 8192 ∷ []
unfolding run close open_handle release_memory_object retain_memory_object
closed = refl

empty-IsFresh : IsFresh {S = free_list} {H = H} empty
empty-IsFresh = record { below = λ k e p. cc; positive = omega arith; zero_unused = refl }

one-IsFresh : IsFresh {S = free_list} {H = H} one
one-IsFresh = record { below = λ k e p. ground arith; positive = omega arith; zero_unused = refl }

empty-counted : (kind : HandleKind) (a : ℕ) → a ≢ 0 → Counts (references kind a store) 0
empty-counted HandleKind.process a h = refl
empty-counted HandleKind.thread a h = refl
empty-counted HandleKind.memory_object a h = ground arith

empty-IsCounted : IsCounted {S = free_list} {H = H} no_others empty
unfolding no_others
empty-IsCounted = record {
  fresh = empty-IsFresh;
  counted = empty-counted;
  objects = λ k e p. cc;
  few = λ kind a. omega arith;
}

resolve_iff_example :
    (resolve free_list H 1 1 HandleKind.memory_object one ≡ 5)
    ↔ Holds {S = free_list} {H = H} one 1 1 HandleKind.memory_object 5
resolve_iff_example =
    resolve_iff one 1 1 HandleKind.memory_object 5 (λ e. omega arith) (λ e. omega arith)

run-IsCounted_example :
    IsCounted {S = free_list} {H = H} no_others
      (run {S = free_list} {H = H} (opens 1 HandleKind.memory_object 5 ∷ closes 1 1 ∷ []) empty)
unfolding no_others run open_handle
run-IsCounted_example =
    run-IsCounted no_others (opens 1 HandleKind.memory_object 5 ∷ closes 1 1 ∷ []) empty
      empty-IsCounted ((λ k a. omega arith), (0, refl), ((λ k a. omega arith), tt, tt))

abbrev opened : M
opened = run {S = free_list} {H = H} (opens 1 HandleKind.memory_object 5 ∷ []) empty

opened-IsCounted : IsCounted {S = free_list} {H = H} no_others opened
unfolding no_others
opened-IsCounted =
    run-IsCounted no_others (opens 1 HandleKind.memory_object 5 ∷ []) empty empty-IsCounted
      ((λ k a. omega arith), (0, refl), tt)

opened_resolves : resolve free_list H 1 1 HandleKind.memory_object opened ≡ 5
unfolding run open_handle resolve
opened_resolves = refl
