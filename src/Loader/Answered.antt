-- ===== src/Loader/Answered.antt =====
-- The answers of Applications/Loader/main.cpp to the requests that it receives.
use dhos_reborn.Base.{◌≢◌, ℕ, ◌≡◌, ◌⊎◌, Bool, true, false, not, List, ◌∷◌, length, if◌then◌else◌}
use dhos_reborn.UserSpace.{
  Action, ◌>>=◌, World, Outcome, Kernel, Call, Message, map_memory_object, writable_flags,
}
use dhos_reborn.UserSpace.Messages.{
  send_kernel_message, get_boot_module_memory_object_by_id, send_message, make_reply, nth,
  load_boot_module_by_id,
}
use dhos_reborn.Loader.{Rounding, BootModuleView, load_elf_into_new_process, find_boot_module_by_id}
use dhos_reborn.Loader.Requests.{BootData, Fuel, ensure_boot_data_loaded, load_found_module}

-- A function came to its end with a number, early or not.
abbrev pub Ends : Outcome ℕ → ℕ → Type 0
Ends o code = (o ≡ Outcome.value code) ⊎ (o ≡ Outcome.returned code)

-- The status for a module that was found. It is 2 if the kernel hands out no memory object for it, 3 if that
-- cannot be mapped, and otherwise what the load of the mapped image ended with.
abbrev pub LoadStatus :
    Kernel → Rounding → Fuel → (page_size capabilities : ℕ) → BootModuleView → World → ℕ → Type 0
LoadStatus K R fuel page_size capabilities found w status =
    let (r, w1) =
      send_kernel_message K fuel.waiting get_boot_module_memory_object_by_id found.id w in
    (m : Message) × ((r ≡ Outcome.value m)
      × ((((m.status ≢ 0) ⊎ (nth m.handles 0 ≡ 0)) × (status ≡ 2))
          ⊎ ((m.status ≡ 0)
              × (nth m.handles 0 ≢ 0)
              × ((blob : ℕ × ℕ) × (((map_memory_object K (nth m.handles 0) 0 found.size
                        writable_flags w1).0
                      ≡ Outcome.value blob)
                    × (((blob.0 ≡ 0) × (status ≡ 3))
                        ⊎ ((blob.0 ≢ 0)
                            × Ends
                                (load_elf_into_new_process K R fuel.pages blob.0 found.size
                                  page_size capabilities
                                  (map_memory_object K (nth m.handles 0) 0 found.size writable_flags
                                    w1).1).0
                                status)))))))

module _ (K : Kernel) (R : Rounding) (fuel : Fuel) (page_size : ℕ) (request : Message) where
  abbrev send : ℕ → Action Bool
  send status =
      send_message K fuel.waiting request.sender (make_reply request load_boot_module_by_id status)

  abbrev after_debug : ℕ → World → World
  after_debug number w = record w {
    memory = K.effects (length w.calls) w.memory;
    calls = Call.debug_u64 0x1002 number ∷ w.calls;
  }

  -- The status for the module that the request names by its number.
  abbrev pub IsServed : BootData → World → ℕ → Type 0
  IsServed d w status =
      let found : BootModuleView =
        find_boot_module_by_id w.memory d.boot_info d.boot_blob (nth request.args 0) in
      ((found.found ≡ false) × (status ≡ 1))
      ⊎ ((found.found ≡ true) × LoadStatus K R fuel page_size (nth request.args 1) found w status)

  -- The last message goes to the sender of the request, as a reply to it with its cookie. Its status is 2 if the
  -- boot data could not be loaded; otherwise it is the status for the module, and one debug call follows.
  abbrev pub IsAnswered : BootData → World → List Call → Type 0
  IsAnswered d w calls =
      let (r, w1) = ensure_boot_data_loaded K fuel.waiting d (after_debug 0x4000 w) in
      ((b : BootData) × ((r ≡ Outcome.value (false, b))
          × ((rest : List Call) × (calls
                ≡ Call.ipc_send request.sender (make_reply request load_boot_module_by_id 2)
                  ∷ rest))))
      ⊎ ((b : BootData) × ((r ≡ Outcome.value (true, b))
            × ((status : ℕ) × (IsServed b (after_debug 0x4001 w1) status
                  × ((rest : List Call) × (calls
                        ≡ Call.debug_u64 0x1002 0x4002
                          ∷ Call.ipc_send request.sender
                              (make_reply request load_boot_module_by_id status)
                          ∷ rest))))))

  -- The search for the module and its load, with the status that it ends with.
  abbrev load : BootData → Action ℕ
  load d w =
      let found = find_boot_module_by_id w.memory d.boot_info d.boot_blob (nth request.args 0) in
      (if not found.found
          then (λ v. (Outcome.value 1, v))
          else load_found_module K R fuel page_size (nth request.args 1) found)
        w

  reply : BootData → ℕ → Action BootData
  reply d status = send status >>= λ u v. (Outcome.value d, after_debug 0x4002 v)
