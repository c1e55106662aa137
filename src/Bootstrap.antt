-- ===== src/Bootstrap.antt =====
-- Applications/Bootstrap/main.cpp: the first program, which starts the loader and asks it for the
-- process manager.
pub mod Start
pub mod Names
pub mod Refused
pub mod Stubs
mod Tests
use Prim.Native.Nat.{◌/◌}
use dhos_reborn.Base.{
  ℕ, zero, suc, ◌+◌, ◌-◌, ◌*◌, ◌%◌, ◌^◌, Bool, true, false, not, ◌&&◌, ◌||◌, Option, none, some,
  List, [], ◌∷◌, leb, ltb, ◌==◌, if◌then◌else◌,
}
use dhos_reborn.Base.Int.{ℤ, pos, negsuc}
use dhos_reborn.LibC.{Memory, memcmp}
use dhos_reborn.UserSpace.{
  Action, ◌>>=◌, ◌>>◌, pure, return_code, return_if, gets, is_error, Call, Kernel, World, Outcome,
  syscall, map_memory_object, raw_process_memory_map, writable_flags, k_user_stack_size,
  k_user_stack_top,
}
use dhos_reborn.Elf.{read_le, read_header, check_header, span_of, copy_segments}
use dhos_reborn.Elf.Runs.{run_at}
use dhos_reborn.Loader.{
  Rounding, BootModuleView, Target, headers_of, pages_of, run_options, stack_options,
}

-- Where a name begins and how long it is.
pub record Name : Type 0 where
  pub start : ℕ
  pub len : ℕ

-- The loop over the characters of a name from the `j`-th on, `n` of them; `best` is what was found.
unfoldable pub base_name_from : ℕ → Memory → Name → ℕ → Name → Name
base_name_from zero m name j best = best
base_name_from (suc n) m name j best = base_name_from n m name (j + 1) (
    if m (name.start + j) == 0x2f
    then record { start = name.start + j + 1; len = name.len - j - 1 }
    else best)

-- What follows the last slash of a name.
unfoldable pub base_name : Memory → Name → Name
unfolding base_name_from
base_name m name = base_name_from name.len m name 0 name

abbrev pub is_zero : ℤ → Bool
is_zero (pos n) = n == 0
is_zero (negsuc n) = false

unfoldable pub is_name : Memory → Name → Name → Bool
unfolding memcmp
is_name m a name = (a.len == name.len) && is_zero (memcmp a.start name.start name.len m)

abbrev pub entry_name : Memory → ℕ → ℕ → Name
entry_name m boot_blob a = record {
  start = (boot_blob + read_le 8 m (a + 8)) % 2 ^ 64;
  len = read_le 8 m (a + 16);
}

-- The loop over `n` entries from the address `a` on.
unfoldable pub find_entry : ℕ → Memory → ℕ → ℕ → Name → BootModuleView
unfolding read_le is_name base_name
find_entry zero m boot_blob a name = record { found = false; id = 0; size = 0 }
find_entry (suc n) m boot_blob a name =
    let rest = find_entry n m boot_blob (a + 40) name in
    let own = entry_name m boot_blob a in
    if is_name m own name || is_name m (base_name m own) name
    then record { found = true; id = read_le 8 m a; size = read_le 8 m (a + 24) }
    else rest

unfoldable pub find_boot_module : Memory → ℕ → ℕ → Name → BootModuleView
unfolding read_le find_entry
find_boot_module m boot_info boot_blob name =
    let module_list : ℕ = (boot_blob + read_le 8 m (boot_info + 8)) % 2 ^ 64 in
    let entries : ℕ = (boot_blob + read_le 8 m (module_list + 8)) % 2 ^ 64 in
    find_entry (read_le 8 m module_list) m boot_blob entries name

-- The debug point of the check of an image that failed.
unfoldable pub failed_check : Option ℕ → ℕ
failed_check none = 0
failed_check (some code) = code

module _ (K : Kernel) where
  unfoldable pub debug_point : ℕ → ℕ → Action (Unit {0})
  unfolding syscall
  debug_point tag number = do syscall K (Call.debug_u64 tag number); pure tt

  unfoldable pub close_all : List ℕ → Action (Unit {0})
  unfolding syscall
  close_all [] = pure tt
  close_all (handle ∷ handles) = do syscall K (Call.handle_close handle); close_all handles

  -- `debug_point(0xB100, code)` and `return false`, with the handles closed in between.
  unfoldable pub fail_if : Bool → ℕ → List ℕ → Action (Unit {0})
  unfolding debug_point close_all
  fail_if test code handles =
      if test then (do debug_point 0xb100 code; close_all handles; return_code 0) else pure tt

  unfoldable pub raw_thread_create : ℕ → ℕ → ℕ → Action ℕ
  unfolding syscall debug_point
  raw_thread_create process entry stack = do
    raw ← syscall K (Call.thread_create process entry stack)
    debug_point 0xb101 raw
    pure (if is_error raw then 0 else raw)

  unfoldable pub raw_thread_start : ℕ → Action Bool
  unfolding syscall debug_point
  raw_thread_start thread = do
    raw ← syscall K (Call.thread_start thread)
    debug_point 0xb102 raw
    pure (not (is_error raw))

  -- The memory object for the image and its mapping, with the segments copied into it.
  unfoldable pub place_image : Rounding → ℕ → ℕ → ℕ → ℕ → Action Target
  unfolding syscall fail_if map_memory_object headers_of read_header span_of copy_segments
  place_image R process image image_size page_size = do
    segments ← gets (headers_of image)
    let span = span_of segments
    fail_if (not span.found_load || leb span.max_vaddr span.min_vaddr) 14 []
    let load_base : ℕ = R.align_down span.min_vaddr page_size
    let total_size : ℕ = R.align_up ((span.max_vaddr + 2 ^ 64 - load_base) % 2 ^ 64) page_size
    image_handle ← syscall K (Call.memory_create total_size)
    fail_if (is_error image_handle) 15 []
    mapped ← map_memory_object K image_handle 0 total_size writable_flags
    fail_if (mapped.0 == 0) 16 (image_handle ∷ [])
    copied ← copy_into mapped.0 load_base
    fail_if (not copied) 6 []
    pure (record {
      process = process;
      image_handle = image_handle;
      image_local_map = mapped.1;
      load_base = load_base;
      total_size = total_size;
      page_size = page_size;
    })
    where
      copy_into : ℕ → ℕ → Action Bool
      copy_into image_local load_base w =
          let h = read_header w.memory image in
          let (done, m) =
            copy_segments h.e_phnum ((image + h.e_phoff) % 2 ^ 64) image image_size image_local
              load_base w.memory in
          (Outcome.value done, record w { memory = m })

  -- The loop that maps the pages of the image, from page `i` on.
  unfoldable pub map_runs : ℕ → Target → ℕ → ℕ → ℕ → Action (Unit {0})
  unfolding headers_of pages_of run_options raw_process_memory_map syscall debug_point
  map_runs zero t image page_count i = λ w. (Outcome.no_fuel, w)
  map_runs (suc fuel) t image page_count i =
      let again = map_runs fuel t image page_count in
      do
        segments ← gets (headers_of image)
        if not (ltb i page_count)
            then pure tt
            else if not (pages_of segments t.load_base t.page_size i).0
            then again (i + 1)
            else (let run = run_at (pages_of segments t.load_base t.page_size) page_count i in
                do
                  raw ← raw_process_memory_map K (run_options t run)
                  debug_point 0xb103 raw
                  if is_error raw
                      then (do
                        debug_point 0xb100 9
                        syscall K (Call.memory_unmap t.image_local_map t.total_size)
                        syscall K (Call.handle_close t.image_handle)
                        return_code 0)
                      else again run.stop)

  unfoldable pub map_stack : ℕ → Action (Unit {0})
  unfolding syscall fail_if raw_process_memory_map stack_options close_all debug_point
  map_stack process = do
    stack_handle ← syscall K (Call.memory_create k_user_stack_size)
    fail_if (is_error stack_handle) 10 []
    raw ← raw_process_memory_map K (stack_options process stack_handle)
    debug_point 0xb104 raw
    fail_if (is_error raw) 11 (stack_handle ∷ [])
    close_all (stack_handle ∷ [])

  unfoldable pub start_thread : ℕ → ℕ → Action (Unit {0})
  unfolding raw_thread_create raw_thread_start fail_if close_all
  start_thread process entry = do
    thread ← raw_thread_create process entry k_user_stack_top
    fail_if (thread == 0) 12 []
    started ← raw_thread_start thread
    fail_if (not started) 13 (thread ∷ [])

  -- 1 for `true`, and 0, the early return, for `false`. The fuel is for the loop over the pages.
  unfoldable pub start_elf_process : Rounding → ℕ → ℕ → ℕ → ℕ → ℕ → Action ℕ
  unfolding check_header fail_if failed_check place_image map_runs syscall close_all map_stack
      start_thread read_header
  start_elf_process R fuel process image image_size page_size = do
    checked ← gets (λ w. failed_check (check_header w.memory image image_size page_size))
    fail_if (not (checked == 0)) checked []
    t ← place_image R process image image_size page_size
    map_runs fuel t image (t.total_size / page_size) 0
    syscall K (Call.memory_unmap t.image_local_map t.total_size)
    close_all (t.image_handle ∷ [])
    map_stack process
    entry ← gets (λ w. (read_header w.memory image).e_entry)
    start_thread process entry
    pure 1
