-- ===== src/Capabilities/Tests.antt =====
-- A grant of Katline/Syscalls/ProcessGrantCapabilities.cppm: process 1, whose thread 7 runs, gives
-- its child, process 2, capabilities; `levels` stands for the flags.
use dhos_reborn.Base.{ℕ, ◌≡◌, refl, [], ◌∷◌, ◌==◌, if◌then◌else◌}
use dhos_reborn.CommonLib.Levels.{levels}
use dhos_reborn.Process.{Process, ThreadState}
use dhos_reborn.MemoryObject.FreeList.{free_list}
use dhos_reborn.HandleManager.{HandleKind, resolve}
use dhos_reborn.HandleManager.Tests.{H, M, objects}
use dhos_reborn.ReadyQueue.Tests.{thread}
use dhos_reborn.Scheduler.Tests.{process}
use dhos_reborn.SyscallResult.{ok}
use dhos_reborn.Capabilities.{process_grant_capabilities, authorize, grant_capabilities, grant_to}
use dhos_reborn.Capabilities.Granting.{
  Confined, Entitled, process_grant_capabilities-Confined, process_grant_capabilities-Entitled,
}

abbrev processes : ℕ → Process
processes a =
    if a == 1
    then record process { capabilities = 5 }
    else record process { parent = 1; capabilities = 2 }

abbrev table : M
table = record {
  entries = ((1, record { kind = HandleKind.process; object = 2; owner = 1 }) ∷ [], refl);
  next_handle_id = 2;
  store = record {
    processes = processes;
    threads = λ t. record (thread ThreadState.running) { process = 1 };
    memory = objects;
  };
}

granted : (process_grant_capabilities levels free_list H 7 1 3 table).0 ≡ ok tt
unfolding process_grant_capabilities authorize grant_capabilities grant_to resolve
granted = refl

process_grant_capabilities-Confined_example :
    Confined levels free_list H 2 (process_grant_capabilities levels free_list H 7 1 3 table).1
process_grant_capabilities-Confined_example =
    process_grant_capabilities-Confined levels free_list H 7 1 3 2 table refl

process_grant_capabilities-Entitled_example : Entitled levels free_list H 1 1 3 table
process_grant_capabilities-Entitled_example =
    process_grant_capabilities-Entitled levels free_list H 7 1 3 table granted
