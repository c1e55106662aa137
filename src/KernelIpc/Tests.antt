-- ===== src/KernelIpc/Tests.antt =====
-- Runs of the messages of Katline/Runtime.cppm, Katline/Syscalls/IPCSend.cppm and
-- Katline/Syscalls/IPCReceive.cppm: processes 10 and 11, with the endpoints 1 and 2.
use dhos_reborn.Base.{ℕ, ◌-◌, ◌≡◌, ◌⊎◌, refl, none, some, [], ◌∷◌, ◌++◌, arith}
use dhos_reborn.CommonLib.{BoundedQueue}
use dhos_reborn.CommonLib.ListQueue.{list_queue}
use dhos_reborn.SyscallResult.{Result}
use dhos_reborn.UserSpace.{Message}
use dhos_reborn.UserSpace.Messages.{make_request, make_reply}
use dhos_reborn.MemoryObject.FreeList.{free_list}
use dhos_reborn.HandleManager.{HandleKind}
use dhos_reborn.HandleManager.Ownership.{IsFresh, Holds}
use dhos_reborn.HandleManager.Tests.{H, M, empty, store, blank_process}
use dhos_reborn.Lifecycle.{process_by_endpoint}
use dhos_reborn.BootInfo.Tests.{rounding, boot}
use dhos_reborn.KernelIpc.{
  Ipc, process_at, with_handle, send_ipc_message, send_handle_reply, kernel_handle_ipc_message,
  ipc_send, ipc_receive,
}
use dhos_reborn.KernelIpc.Delivery.{Delivered, ipc_send-Delivered}
use dhos_reborn.KernelIpc.Replies.{send_handle_reply-Holds}
use dhos_reborn.KernelIpc.Answers.{Handled, kernel_handle_ipc_message-Handled}

abbrev Q : BoundedQueue Message
Q = list_queue Message

abbrev manager : M
manager = record empty {
  store = record store { processes = λ a. record blank_process { endpoint_id = a - 9 } };
}

abbrev small : Ipc free_list H Q
small = record {
  processes = 10 ∷ 11 ∷ [];
  queues = λ a. [];
  manager = manager;
  bytes = λ b. 0;
  boot_info_object = 5;
  id_counter = 40;
}

manager-IsFresh : IsFresh {S = free_list} {H = H} manager
manager-IsFresh = record { below = λ k e p. cc; positive = omega arith; zero_unused = refl }

abbrev hello : Message
hello = make_request 256 9 0 0

ipc_send-Delivered_example :
    Delivered free_list H Q 2
      (record hello { sender = 1; id = 40 })
      small
      (ipc_send free_list H Q rounding (some boot) 6 10 2 (Result.ok hello) small)
ipc_send-Delivered_example =
    ipc_send-Delivered free_list H Q rounding (some boot) 6 10 2 hello small (λ e. omega arith)
      ((λ e. omega arith), ((λ e. omega arith), tt))

-- Process 10 sends, process 11 receives.
abbrev exchange : Result Message
exchange =
    let k : Ipc free_list H Q =
      (ipc_send free_list H Q rounding (some boot) 6 10 2 (Result.ok hello) small).1 in
    (ipc_receive free_list H Q (λ m. none) 11 k).0

exchange_lem : exchange ≡ Result.ok (record hello { sender = 1; id = 40 })
unfolding ipc_send send_ipc_message ipc_receive process_by_endpoint make_request
exchange_lem = refl

at_endpoint : process_at free_list H Q 2 small ≡ 11
unfolding process_by_endpoint
at_endpoint = refl

send_handle_reply-Holds_example :
    let k' : Ipc free_list H Q =
      send_handle_reply free_list H Q (record hello { sender = 2 }) 5 0 small in
    ((h : ℕ) × ((k'.queues 11
          ≡ small.queues 11
            ++ with_handle h (make_reply (record hello { sender = 2 }) hello.type 0) ∷ [])
        × Holds {S = free_list} {H = H} k'.manager 11 h HandleKind.memory_object 5))
    ⊎ ((k'.queues 11 ≡ small.queues 11)
        × (H.get k'.manager.entries 7 ≡ H.get small.manager.entries 7))
send_handle_reply-Holds_example =
    send_handle_reply-Holds free_list H Q (record hello { sender = 2 }) 5 0 11 small 7 at_endpoint
      (λ e. omega arith) (λ e. omega arith) manager-IsFresh

kernel_handle_ipc_message-Handled_example :
    Handled free_list H Q
      (record hello { sender = 2; type = 6 })
      small
      (kernel_handle_ipc_message free_list H Q rounding
        (some boot)
        6
        (record hello { sender = 2; type = 6 })
        small)
kernel_handle_ipc_message-Handled_example =
    kernel_handle_ipc_message-Handled free_list H Q rounding (some boot) 6
      (record hello { sender = 2; type = 6 }) small
