-- ===== src/Loader.antt =====
-- Applications/Loader/main.cpp: the program that loads boot modules into new processes.
pub mod Requests
pub mod Mapped
pub mod Refused
pub mod Found
pub mod Placed
pub mod Answered
pub mod Started
mod Tests
use Prim.Native.Nat.{◌/◌}
use dhos_reborn.Base.{
  ℕ, zero, suc, ◌+◌, ◌-◌, ◌*◌, ◌%◌, ◌^◌, Bool, true, false, not, ◌&&◌, ◌||◌, Option, none, some,
  List, [], ◌∷◌, leb, ltb, ◌==◌, if◌then◌else◌,
}
use dhos_reborn.LibC.{Memory}
use dhos_reborn.UserSpace.{
  Action, ◌>>=◌, ◌>>◌, pure, return_code, return_if, gets, is_error, Call, Kernel, World, Outcome,
  syscall, map_memory_object, raw_process_memory_map, writable_flags, stack_flags,
  k_user_stack_size, k_user_stack_top, MemoryMapFlags, ProcessMemoryMapOptions,
}
use dhos_reborn.UserSpace.Messages.{k_bootstrap_endpoint_mailbox}
use dhos_reborn.Elf.{
  Header, read_header, program_headers, check_header, span_of, page_flags_for_loaded_image,
  copy_segments, read_le, ProgramHeader,
}
use dhos_reborn.Elf.Runs.{Pages, Run, run_at}

-- `CL::Memory::align_down` and `align_up` of a value, to a multiple.
pub record Rounding : Type 0 where
  pub align_down : ℕ → ℕ → ℕ
  pub align_up : ℕ → ℕ → ℕ

pub record BootModuleView : Type 0 where
  pub found : Bool
  pub id : ℕ
  pub size : ℕ

-- The loop over `n` entries of 40 bytes each, from the address `a` on.
unfoldable pub find_entry_by_id : ℕ → Memory → ℕ → ℕ → BootModuleView
unfolding read_le
find_entry_by_id zero m a module_id = record { found = false; id = 0; size = 0 }
find_entry_by_id (suc n) m a module_id =
    let rest = find_entry_by_id n m (a + 40) module_id in
    if not (read_le 8 m a == module_id)
    then rest
    else record { found = true; id = read_le 8 m a; size = read_le 8 m (a + 24) }

-- The tables stand where the pointers and offsets say, all sums at 64 bits.
unfoldable pub find_boot_module_by_id : Memory → ℕ → ℕ → ℕ → BootModuleView
unfolding read_le find_entry_by_id
find_boot_module_by_id m boot_info boot_blob module_id =
    let module_list : ℕ = (boot_blob + read_le 8 m (boot_info + 8)) % 2 ^ 64 in
    let entries : ℕ = (boot_blob + read_le 8 m (module_list + 8)) % 2 ^ 64 in
    find_entry_by_id (read_le 8 m module_list) m entries module_id

unfoldable pub bootstrap_endpoint : Action ℕ
unfolding read_le
bootstrap_endpoint = gets (λ w. read_le 8 w.memory k_bootstrap_endpoint_mailbox)

-- The program headers of the image, as they are at the time.
unfoldable pub headers_of : ℕ → World → List ProgramHeader
unfolding read_header program_headers
headers_of image w =
    let h = read_header w.memory image in
    program_headers h.e_phnum w.memory ((image + h.e_phoff) % 2 ^ 64)

-- The flags of the page with a number.
unfoldable pub pages_of : List ProgramHeader → ℕ → ℕ → Pages
unfolding page_flags_for_loaded_image
pages_of segments load_base page_size i =
    page_flags_for_loaded_image segments ((load_base + i * page_size) % 2 ^ 64) page_size

-- Where an image is loaded: the process, the memory object with its mapping, and the sizes.
pub record Target : Type 0 where
  pub process : ℕ
  pub image_handle : ℕ
  pub image_local_map : ℕ
  pub load_base : ℕ
  pub total_size : ℕ
  pub page_size : ℕ

-- The options with which a run of pages is mapped.
unfoldable pub run_options : Target → Run → ProcessMemoryMapOptions
run_options t r = record {
  process = t.process;
  memory_object = t.image_handle;
  offset = r.start * t.page_size % 2 ^ 64;
  size = (r.stop - r.start) * t.page_size % 2 ^ 64;
  flags = r.flags;
  addr = (t.load_base + r.start * t.page_size) % 2 ^ 64;
}

unfoldable pub stack_options : ℕ → ℕ → ProcessMemoryMapOptions
stack_options process stack_handle = record {
  process = process;
  memory_object = stack_handle;
  offset = 0;
  size = k_user_stack_size;
  flags = stack_flags;
  addr = k_user_stack_top - k_user_stack_size;
}

-- The first failed check, as the result of the function.
unfoldable pub refuse : Option ℕ → Action (Unit {0})
refuse none = pure tt
refuse (some code) = return_code code

module _ (K : Kernel) where
  -- A raw handle, 0 if there is none.
  unfoldable pub raw_thread_create : ℕ → ℕ → ℕ → Action ℕ
  unfolding syscall
  raw_thread_create process entry stack = do
    raw ← syscall K (Call.thread_create process entry stack)
    syscall K (Call.debug_u64 0x1001 raw)
    pure (if is_error raw then 0 else raw)

  unfoldable pub raw_thread_start : ℕ → Action Bool
  unfolding syscall
  raw_thread_start thread = do raw ← syscall K (Call.thread_start thread); pure (not (is_error raw))

  -- `sys_handle_close` of the handles of a list and the return of a code, if the test holds.
  unfoldable pub close_all : List ℕ → Action (Unit {0})
  unfolding syscall
  close_all [] = pure tt
  close_all (handle ∷ handles) = do syscall K (Call.handle_close handle); close_all handles

  unfoldable pub fail_if : Bool → List ℕ → ℕ → Action (Unit {0})
  unfolding close_all
  fail_if test handles code = if test then (do close_all handles; return_code code) else pure tt

  -- The new process, with its capabilities.
  unfoldable pub create_process : ℕ → Action ℕ
  unfolding syscall fail_if
  create_process capabilities = do
    process ← syscall K Call.process_create
    fail_if (is_error process) [] 6
    granted ←
        (if capabilities == 0
          then pure 0
          else syscall K (Call.process_grant_capabilities process capabilities))
    fail_if (is_error granted) (process ∷ []) 7
    pure process

  -- The loop that maps the pages of the image, from page `i` on.
  unfoldable pub map_runs : ℕ → Target → ℕ → ℕ → ℕ → Action (Unit {0})
  unfolding headers_of pages_of run_options raw_process_memory_map syscall
  map_runs zero t image page_count i = λ w. (Outcome.no_fuel, w)
  map_runs (suc fuel) t image page_count i =
      let again = map_runs fuel t image page_count in
      do
        segments ← gets (headers_of image)
        if not (ltb i page_count)
            then pure tt
            else if not (pages_of segments t.load_base t.page_size i).0
            then again (i + 1)
            else (let run = run_at (pages_of segments t.load_base t.page_size) page_count i in
                do
                  raw ← raw_process_memory_map K (run_options t run)
                  if is_error raw
                      then (do
                        syscall K (Call.memory_unmap t.image_local_map t.total_size)
                        syscall K (Call.handle_close t.image_handle)
                        return_code 11)
                      else again run.stop)

  -- The memory object for the image and its mapping, with the segments copied into it.
  unfoldable pub place_image : Rounding → ℕ → ℕ → ℕ → ℕ → Action Target
  unfolding syscall fail_if map_memory_object headers_of read_header span_of copy_segments
  place_image R process image image_size page_size = do
    segments ← gets (headers_of image)
    let span = span_of segments
    return_if (not span.found_load || leb span.max_vaddr span.min_vaddr) 16
    let load_base : ℕ = R.align_down span.min_vaddr page_size
    let total_size : ℕ = R.align_up ((span.max_vaddr + 2 ^ 64 - load_base) % 2 ^ 64) page_size
    image_handle ← syscall K (Call.memory_create total_size)
    fail_if (is_error image_handle) [] 17
    mapped ← map_memory_object K image_handle 0 total_size writable_flags
    fail_if (mapped.0 == 0) (image_handle ∷ []) 18
    copied ← copy_into mapped.0 load_base
    return_if (not copied) 8
    pure (record {
      process = process;
      image_handle = image_handle;
      image_local_map = mapped.1;
      load_base = load_base;
      total_size = total_size;
      page_size = page_size;
    })
    where
      copy_into : ℕ → ℕ → Action Bool
      copy_into image_local load_base w =
          let h = read_header w.memory image in
          let (done, m) =
            copy_segments h.e_phnum ((image + h.e_phoff) % 2 ^ 64) image image_size image_local
              load_base w.memory in
          (Outcome.value done, record w { memory = m })

  -- The stack of the new process.
  unfoldable pub map_stack : ℕ → Action (Unit {0})
  unfolding syscall fail_if raw_process_memory_map stack_options close_all
  map_stack process = do
    stack_handle ← syscall K (Call.memory_create k_user_stack_size)
    fail_if (is_error stack_handle) [] 12
    raw ← raw_process_memory_map K (stack_options process stack_handle)
    fail_if (is_error raw) (stack_handle ∷ process ∷ []) 13
    close_all (stack_handle ∷ [])

  unfoldable pub start_thread : ℕ → ℕ → Action (Unit {0})
  unfolding raw_thread_create raw_thread_start fail_if close_all
  start_thread process entry = do
    thread ← raw_thread_create process entry k_user_stack_top
    fail_if (thread == 0) (process ∷ []) 14
    started ← raw_thread_start thread
    fail_if (not started) (thread ∷ process ∷ []) 15
    close_all (process ∷ [])

  -- The fuel is for the loop over the pages.
  unfoldable pub load_elf_into_new_process : Rounding → ℕ → ℕ → ℕ → ℕ → ℕ → Action ℕ
  unfolding check_header refuse create_process place_image map_runs syscall close_all map_stack
      start_thread read_header
  load_elf_into_new_process R fuel image image_size page_size capabilities = do
    checked ← gets (λ w. check_header w.memory image image_size page_size)
    refuse checked
    process ← create_process capabilities
    t ← place_image R process image image_size page_size
    map_runs fuel t image (t.total_size / page_size) 0
    syscall K (Call.memory_unmap t.image_local_map t.total_size)
    close_all (t.image_handle ∷ [])
    map_stack process
    entry ← gets (λ w. (read_header w.memory image).e_entry)
    start_thread process entry
    pure 0
