-- ===== src/Bootstrap/Start.antt =====
-- `_start` of Applications/Bootstrap/main.cpp.
use dhos_reborn.Base.{ℕ, zero, suc, not, ◌||◌, [], ◌∷◌, ◌==◌, if◌then◌else◌}
use dhos_reborn.UserSpace.{
  Action, ◌>>=◌, ◌>>◌, pure, call, gets, is_error, Call, Kernel, Outcome, syscall,
  raw_process_memory_map, map_memory_object, fatal, writable_flags,
}
use dhos_reborn.UserSpace.Messages.{
  nth, make_request, send_message, send_kernel_message, receive_message, next_cookie, fatal_if,
  get_boot_info, get_boot_module_memory_object_by_id, get_page_size, ready, load_boot_module_by_id,
  k_bootstrap_endpoint_mailbox,
}
use dhos_reborn.Elf.{read_le}
use dhos_reborn.Loader.{Rounding, BootModuleView}
use dhos_reborn.UserHeap.{write_le, change_memory}
use dhos_reborn.Bootstrap.{find_boot_module, debug_point, close_all, start_elf_process}

abbrev pub k_bootstrap_endpoint : ℕ
k_bootstrap_endpoint = 1

abbrev pub k_loader_boot_endpoint : ℕ
k_loader_boot_endpoint = 2

-- All capabilities, and those of the process manager: `ManageCaps`, `BootInfo`, `MapMMIO` and
-- `ManageProcesses`.
abbrev pub all_capabilities : ℕ
all_capabilities = 255

abbrev pub process_manager_caps : ℕ
process_manager_caps = 27

-- Where the literals "Loader.exe" and "ProcessManager.exe" stand.
pub record Literals : Type 0 where
  pub loader : ℕ
  pub process_manager : ℕ

-- The boot data, mapped, with the two modules.
pub record BootView : Type 0 where
  pub boot_handle : ℕ
  pub boot_info : ℕ
  pub boot_info_map : ℕ
  pub boot_blob_map : ℕ
  pub loader_module : BootModuleView
  pub process_manager_module : BootModuleView

-- The image of the loader, mapped.
pub record LoaderView : Type 0 where
  pub handle : ℕ
  pub blob : ℕ
  pub blob_map : ℕ

module _ (K : Kernel) where
  unfoldable pub ask_page_size : ℕ → Action ℕ
  unfolding debug_point send_kernel_message nth
  ask_page_size fuel = do
    debug_point K 0xb000 1
    page_size_reply ← send_kernel_message K fuel get_page_size 0
    let page_size : ℕ = nth page_size_reply.args 0
    fatal_if K (page_size == 0) 2
    debug_point K 0xb000 2
    pure page_size

  unfoldable pub map_boot_data : ℕ → Literals → Action BootView
  unfolding debug_point send_kernel_message nth map_memory_object read_le find_boot_module
  map_boot_data fuel names = do
    boot_reply ← send_kernel_message K fuel get_boot_info 0
    let boot_handle : ℕ = nth boot_reply.handles 0
    fatal_if K (not (boot_reply.status == 0) || (boot_handle == 0)) 3
    debug_point K 0xb000 3
    info ← map_memory_object K boot_handle 0 56 writable_flags
    fatal_if K (info.0 == 0) 4
    total_len ← gets (λ w. read_le 8 w.memory info.0)
    blob ← map_memory_object K boot_handle 0 total_len writable_flags
    fatal_if K (blob.0 == 0) 5
    loader_module ←
        gets
          (λ w. find_boot_module w.memory info.0 blob.0 (record { start = names.loader; len = 10 }))
    process_manager_module ← gets (λ w.
        find_boot_module w.memory info.0 blob.0
          (record { start = names.process_manager; len = 18 }))
    fatal_if K (not loader_module.found) 6
    debug_point K 0xb001 loader_module.id
    pure (record {
      boot_handle = boot_handle;
      boot_info = info.0;
      boot_info_map = info.1;
      boot_blob_map = blob.1;
      loader_module = loader_module;
      process_manager_module = process_manager_module;
    })

  unfoldable pub create_loader : Action ℕ
  unfolding debug_point syscall
  create_loader = do
    loader_process ← syscall K Call.process_create
    fatal_if K (is_error loader_process) 7
    debug_point K 0xb002 loader_process
    granted ← syscall K (Call.process_grant_capabilities loader_process all_capabilities)
    fatal_if K (is_error granted) 8
    debug_point K 0xb003 0
    pure loader_process

  -- The mailbox tells the loader at which endpoint the bootstrap program listens.
  unfoldable pub map_mailbox : ℕ → Action (Unit {0})
  unfolding syscall map_memory_object write_le raw_process_memory_map close_all
  map_mailbox loader_process = do
    mailbox_handle ← syscall K (Call.memory_create 8)
    fatal_if K (is_error mailbox_handle) 8
    mailbox ← map_memory_object K mailbox_handle 0 8 writable_flags
    fatal_if K (mailbox.0 == 0) 8
    change_memory (write_le 8 k_bootstrap_endpoint mailbox.0)
    raw ← raw_process_memory_map K (record {
      process = loader_process;
      memory_object = mailbox_handle;
      offset = 0;
      size = 8;
      flags = writable_flags;
      addr = k_bootstrap_endpoint_mailbox;
    })
    fatal_if K (is_error raw) 8
    syscall K (Call.memory_unmap mailbox.1 8)
    close_all K (mailbox_handle ∷ [])

  unfoldable pub map_loader : ℕ → BootModuleView → Action LoaderView
  unfolding send_kernel_message nth debug_point map_memory_object
  map_loader fuel loader_module = do
    loader_reply ← send_kernel_message K fuel get_boot_module_memory_object_by_id loader_module.id
    let handle : ℕ = nth loader_reply.handles 0
    fatal_if K (not (loader_reply.status == 0) || (handle == 0)) 9
    debug_point K 0xb004 handle
    blob ← map_memory_object K handle 0 loader_module.size writable_flags
    fatal_if K (blob.0 == 0) 10
    debug_point K 0xb005 loader_module.size
    pure (record { handle = handle; blob = blob.0; blob_map = blob.1 })

  -- The loop that waits for the message of the loader; `n` messages at most.
  unfoldable pub await_ready : ℕ → ℕ → Action (Unit {0})
  unfolding receive_message
  await_ready zero fuel = λ w. (Outcome.no_fuel, w)
  await_ready (suc n) fuel =
      let again = await_ready n fuel in
      do
        message ← receive_message K fuel
        if not (message.sender == k_loader_boot_endpoint) || not (message.type == ready)
            then again
            else pure tt

  unfoldable pub unmap_boot_data : BootView → LoaderView → Action (Unit {0})
  unfolding syscall close_all read_le
  unmap_boot_data boot loader = do
    boot_blob_size ← gets (λ w. read_le 8 w.memory boot.boot_info)
    syscall K (Call.memory_unmap boot.boot_info_map 56)
    syscall K (Call.memory_unmap boot.boot_blob_map boot_blob_size)
    syscall K (Call.memory_unmap loader.blob_map boot.loader_module.size)
    close_all K (loader.handle ∷ [])

  unfoldable pub request_process_manager : ℕ → BootModuleView → Action (Unit {0})
  unfolding debug_point next_cookie send_message make_request
  request_process_manager fuel process_manager_module = do
    debug_point K 0xb006 (if process_manager_module.found then 1 else 0)
    if not process_manager_module.found then pure tt else (do
      cookie ← next_cookie
      sent ← send_message K fuel k_loader_boot_endpoint (
          make_request load_boot_module_by_id cookie process_manager_module.id process_manager_caps)
      fatal_if K (not sent) 13)

  -- `fuel` is for the loops that wait, `pages` for the loop over the pages of the loader's image.
  unfoldable pub start : Rounding → Literals → ℕ → ℕ → Action (Unit {0})
  unfolding ask_page_size map_boot_data create_loader map_mailbox map_loader start_elf_process
      await_ready unmap_boot_data request_process_manager close_all fatal
  start R names fuel pages = do
    page_size ← ask_page_size fuel
    boot ← map_boot_data fuel names
    loader_process ← create_loader
    map_mailbox loader_process
    loader ← map_loader fuel boot.loader_module
    started ←
        call
          (start_elf_process K R pages loader_process loader.blob boot.loader_module.size page_size)
    fatal_if K (started == 0) 11
    await_ready fuel fuel
    unmap_boot_data boot loader
    request_process_manager fuel boot.process_manager_module
    close_all K (loader_process ∷ boot.boot_handle ∷ [])
    fatal K 0
