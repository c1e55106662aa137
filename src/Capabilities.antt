-- ===== src/Capabilities.antt =====
-- Katline/Syscalls/ProcessGrantCapabilities.cppm, and the guard in front of every system call in
-- Katline/Syscalls/KernelContract.cppm. Processes and threads stand in the store of the handle
-- table.
pub mod Granting
mod Tests
use dhos_reborn.Base.{ℕ, ◌^◌, Bool, true, false, not, ◌&&◌, ◌||◌, ◌==◌, if◌then◌else◌}
use dhos_reborn.CommonLib.{FlagSets, HashMap}
use dhos_reborn.Process.{Process, Thread}
use dhos_reborn.MemoryObject.{PageSource}
use dhos_reborn.HandleManager.{HandleKind, Entry, Store, HandleManager, resolve}
use dhos_reborn.SyscallResult.{SyscallError, Result, ok, err}

-- `ProcessCapability::ManageCaps`
abbrev pub manage_caps : ℕ
manage_caps = 2 ^ 0

module _ (F : FlagSets) (S : PageSource) (H : HashMap Entry) where
  abbrev pub process_of : ℕ → HandleManager S H → ℕ
  process_of thread m = (m.store.threads thread).process

  abbrev pub capabilities_of : ℕ → HandleManager S H → ℕ
  capabilities_of process m = (m.store.processes process).capabilities

  -- The guard of a call that needs a thread: `thread` is the current one, 0 if there is none.
  unfoldable pub authorize : ℕ → ℕ → HandleManager S H → Result (Unit {0})
  authorize required thread m =
      if (thread == 0) || (process_of thread m == 0)
      then err SyscallError.invalid_argument
      else if not (required == 0)
          && not (F.contains_all (capabilities_of (process_of thread m) m) required)
      then err SyscallError.missing_capability
      else ok tt

  unfoldable pub add_capabilities : ℕ → ℕ → HandleManager S H → HandleManager S H
  add_capabilities target capabilities m = record m {
    store = record m.store {
      processes = λ a.
          let p = m.store.processes a in
          if a == target
          then record p { capabilities = F.union p.capabilities capabilities }
          else p;
    };
  }

  -- The call proper.
  unfoldable pub grant_to : ℕ → ℕ → ℕ → HandleManager S H → Result (Unit {0}) × HandleManager S H
  grant_to caller target capabilities m =
      if (target == 0) || not ((m.store.processes target).parent == caller)
      then (err SyscallError.invalid_argument, m)
      else if not (F.contains_all (capabilities_of caller m) capabilities)
      then (err SyscallError.missing_capability, m)
      else (ok tt, add_capabilities target capabilities m)

  unfoldable pub grant_capabilities :
      ℕ → ℕ → ℕ → HandleManager S H → Result (Unit {0}) × HandleManager S H
  grant_capabilities thread handle capabilities m =
      let caller : ℕ = process_of thread m in
      grant_to caller (resolve S H caller handle HandleKind.process m) capabilities m

  abbrev pub after_guard :
      Result (Unit {0})
      → Result (Unit {0}) × HandleManager S H
      → HandleManager S H
      → Result (Unit {0}) × HandleManager S H
  after_guard (err e) called m = (err e, m)
  after_guard (ok u) called m = called

  -- The guard and the call.
  unfoldable pub process_grant_capabilities :
      ℕ → ℕ → ℕ → HandleManager S H → Result (Unit {0}) × HandleManager S H
  process_grant_capabilities thread handle capabilities m =
      after_guard (authorize manage_caps thread m) (grant_capabilities thread handle capabilities m)
        m
