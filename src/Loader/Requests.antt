-- ===== src/Loader/Requests.antt =====
-- `dhos_main` of Applications/Loader/main.cpp: the start of the loader and its loop over requests.
use dhos_reborn.Base.{
  ℕ, zero, suc, Bool, true, false, not, ◌&&◌, ◌||◌, [], ◌∷◌, ◌==◌, if◌then◌else◌,
}
use dhos_reborn.UserSpace.{
  Action, ◌>>=◌, ◌>>◌, pure, call, gets, Message, Call, Kernel, syscall, map_memory_object,
  writable_flags,
}
use dhos_reborn.UserSpace.Messages.{
  nth, make_request, make_reply, send_message, send_kernel_message, receive_message, next_cookie,
  fatal_if, get_boot_info, get_boot_module_memory_object_by_id, get_page_size, ready,
  load_boot_module_by_id,
}
use dhos_reborn.Elf.{read_le}
use dhos_reborn.Loader.{
  Rounding, BootModuleView, find_boot_module_by_id, bootstrap_endpoint, close_all,
  load_elf_into_new_process,
}

-- The pointers to the boot data, null until they are mapped.
pub record BootData : Type 0 where
  pub boot_info : ℕ
  pub boot_blob : ℕ

-- The fuel: for the loops that wait for an answer, and for the loop over the pages of an image.
pub record Fuel : Type 0 where
  pub waiting : ℕ
  pub pages : ℕ

module _ (K : Kernel) where
  -- The lambda of `dhos_main`: its result, and the pointers after it.
  unfoldable pub ensure_boot_data_loaded : ℕ → BootData → Action (Bool × BootData)
  unfolding send_kernel_message map_memory_object read_le nth
  ensure_boot_data_loaded fuel d =
      if not (d.boot_info == 0) && not (d.boot_blob == 0) then pure (true, d) else (do
        boot_reply ← send_kernel_message K fuel get_boot_info 0
        let boot_handle : ℕ = nth boot_reply.handles 0
        if not (boot_reply.status == 0) || (boot_handle == 0) then pure (false, d) else (do
          info ← map_memory_object K boot_handle 0 56 writable_flags
          if info.0 == 0 then pure (false, record d { boot_info = 0 }) else (do
            total_len ← gets (λ w. read_le 8 w.memory info.0)
            blob ← map_memory_object K boot_handle 0 total_len writable_flags
            pure (not (blob.0 == 0), record { boot_info = info.0; boot_blob = blob.0 }))))

  -- The status for a request whose module was found.
  unfoldable pub load_found_module : Rounding → Fuel → ℕ → ℕ → BootModuleView → Action ℕ
  unfolding send_kernel_message map_memory_object nth load_elf_into_new_process syscall close_all
  load_found_module R fuel page_size child_caps found = do
    module_reply ← send_kernel_message K fuel.waiting get_boot_module_memory_object_by_id found.id
    let handle : ℕ = nth module_reply.handles 0
    if not (module_reply.status == 0) || (handle == 0) then pure 2 else (do
      module_blob ← map_memory_object K handle 0 found.size writable_flags
      status ←
          (if module_blob.0 == 0 then pure 3 else (do
            status ← call (
                load_elf_into_new_process K R fuel.pages module_blob.0 found.size page_size
                  child_caps)
            syscall K (Call.memory_unmap module_blob.1 found.size)
            pure status))
      close_all K (handle ∷ [])
      pure status)

  -- The body of the loop, for one request.
  unfoldable pub handle_request : Rounding → Fuel → ℕ → BootData → Message → Action BootData
  unfolding syscall ensure_boot_data_loaded send_message make_reply load_found_module
      find_boot_module_by_id nth
  handle_request R fuel page_size d request =
      if not (request.type == load_boot_module_by_id) then pure d else (do
        syscall K (Call.debug_u64 0x1002 0x4000)
        ensured ← ensure_boot_data_loaded fuel.waiting d
        let d' : BootData = ensured.1
        if not ensured.0
            then (do
              send_message K fuel.waiting request.sender
                  (make_reply request load_boot_module_by_id 2)
              pure d')
            else (do
              syscall K (Call.debug_u64 0x1002 0x4001)
              found ← gets (λ w.
                  find_boot_module_by_id w.memory d'.boot_info d'.boot_blob (nth request.args 0))
              status ←
                  (if not found.found
                    then pure 1
                    else load_found_module R fuel page_size (nth request.args 1) found)
              send_message K fuel.waiting request.sender
                  (make_reply request load_boot_module_by_id status)
              syscall K (Call.debug_u64 0x1002 0x4002)
              pure d'))

  -- `n` rounds of the loop.
  unfoldable pub serve : ℕ → Rounding → Fuel → ℕ → BootData → Action BootData
  unfolding receive_message handle_request
  serve zero R fuel page_size d = pure d
  serve (suc n) R fuel page_size d =
      let again = serve n R fuel page_size in
      do
        request ← receive_message K fuel.waiting
        d' ← handle_request R fuel page_size d request
        again d'

  -- The start of the program, before its loop: the page size.
  unfoldable pub start : ℕ → Action ℕ
  unfolding syscall send_kernel_message nth next_cookie bootstrap_endpoint make_request send_message
  start fuel = do
    syscall K (Call.debug_u64 0x1002 1)
    page_size_reply ← send_kernel_message K fuel get_page_size 0
    let page_size : ℕ = nth page_size_reply.args 0
    fatal_if K (page_size == 0) 2
    syscall K (Call.debug_u64 0x1002 2)
    cookie ← next_cookie
    endpoint ← bootstrap_endpoint
    sent ←
        (if endpoint == 0
          then pure false
          else send_message K fuel endpoint (make_request ready cookie 0 0))
    fatal_if K (not sent) 6
    syscall K (Call.debug_u64 0x1002 3)
    syscall K (Call.debug_u64 0x1002 4)
    pure page_size

  -- The program, for `n` rounds of its loop.
  unfoldable pub dhos_main : ℕ → Rounding → Fuel → Action BootData
  unfolding start serve
  dhos_main n R fuel = do
    page_size ← start fuel.waiting
    serve n R fuel page_size (record { boot_info = 0; boot_blob = 0 })
