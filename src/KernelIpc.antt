-- ===== src/KernelIpc.antt =====
-- Messages between processes, and from processes to the kernel: Katline/Syscalls/IPCSend.cppm,
-- Katline/Syscalls/IPCReceive.cppm, Scheduler::send_ipc_message of Katline/Arch/Scheduler.cppm and
-- kernel_handle_ipc_message of Katline/Runtime.cppm. Each process has its queue, by its address; debug output is left out.
pub mod Builders
pub mod Delivery
pub mod Replies
pub mod Answers
mod Tests
use dhos_reborn.Base.{
  ℕ, zero, suc, ◌+◌, ◌-◌, ◌*◌, ◌/◌, ◌%◌, ◌^◌, Bool, true, false, not, ◌&&◌, ◌||◌, Option, none,
  some, List, [], ◌∷◌, leb, ltb, ◌==◌, if◌then◌else◌, length,
}
use dhos_reborn.CommonLib.{HashMap, BoundedQueue}
use dhos_reborn.SyscallResult.{SyscallError, Result}
use dhos_reborn.UserSpace.{Message}
use dhos_reborn.UserSpace.Messages.{
  nth, make_reply, get_boot_info, get_boot_module_memory_object_by_id, get_page_size,
}
use dhos_reborn.MemoryObject.{PageSource, Objects}
use dhos_reborn.HandleManager.{Entry, HandleKind, HandleManager, open_handle, close}
use dhos_reborn.Lifecycle.{process_by_endpoint}
use dhos_reborn.Loader.{Rounding}
use dhos_reborn.BootBlob.{Bytes}
use dhos_reborn.ProcessMappings.{k_page_size}
use dhos_reborn.BootInfo.{BootData, ensure_boot_info_object}
use dhos_reborn.KernelIpc.Builders.{
  Built, build_boot_module_object, build_boot_cmdline_object, build_boot_framebuffer_object,
}

pub data IpcSendStatus : Type 0 where
  ok invalid_endpoint queue_full : IpcSendStatus

abbrev pub get_cmdline_memory_object : ℕ
get_cmdline_memory_object = 3

abbrev pub get_framebuffer_memory_object_by_id : ℕ
get_framebuffer_memory_object_by_id = 4

-- `.handle<0>(h)` and `.arg<0>(n)` of a message that has none yet.
abbrev pub with_handle : ℕ → Message → Message
with_handle h m = record m { handles = h ∷ 0 ∷ 0 ∷ 0 ∷ [] }

abbrev pub with_arg : ℕ → Message → Message
with_arg n m = record m { args = n ∷ 0 ∷ 0 ∷ 0 ∷ 0 ∷ 0 ∷ [] }

module _ (S : PageSource) (H : HashMap Entry) (Q : BoundedQueue Message) where
  pub record Ipc : Type 0 where
    pub processes : List ℕ
    pub queues : ℕ → Q.Queue
    pub manager : HandleManager S H
    pub bytes : Bytes
    pub boot_info_object : ℕ
    pub id_counter : ℕ

  abbrev pub process_at : ℕ → Ipc → ℕ
  process_at endpoint k = process_by_endpoint endpoint k.manager.store.processes k.processes

  abbrev pub set_queue : ℕ → Q.Queue → Ipc → Ipc
  set_queue p q k = record k { queues = λ a. if a == p then q else k.queues a }

  unfoldable pub send_ipc_message : ℕ → Message → Ipc → IpcSendStatus × Ipc
  send_ipc_message endpoint message k =
      let p : ℕ = process_at endpoint k in
      let (pushed, q) = Q.try_push message (k.queues p) in
      if p == 0
      then (IpcSendStatus.invalid_endpoint, k)
      else (if pushed then IpcSendStatus.ok else IpcSendStatus.queue_full, set_queue p q k)

  unfoldable pub send_kernel_ipc_reply : ℕ → Message → Ipc → Bool × Ipc
  send_kernel_ipc_reply endpoint message k =
      let p : ℕ = process_at endpoint k in
      let (pushed, q) = Q.try_push message (k.queues p) in
      if p == 0 then (false, k) else (pushed, set_queue p q k)

  -- The reply with a handle of the object, or with the status 1 and none for no object. A handle that
  -- cannot be sent is closed.
  unfoldable pub send_handle_reply : Message → ℕ → ℕ → Ipc → Ipc
  send_handle_reply request object status k =
      let p : ℕ = process_at request.sender k in
      let reply : Message = make_reply request request.type (if object == 0 then 1 else status) in
      let (h, manager) = open_handle S H p HandleKind.memory_object object k.manager in
      let opened : Ipc = record k { manager = manager } in
      let (sent, k1) = send_kernel_ipc_reply request.sender (with_handle h reply) opened in
      if p == 0
      then k
      else if object == 0
      then (send_kernel_ipc_reply request.sender reply k).1
      else if h == 0
      then opened
      else if sent
      then k1
      else record k1 { manager = (close S H p h k1.manager).1 }

  abbrev memory_of : Ipc → Objects S
  memory_of k = k.manager.store.memory

  abbrev with_built : Built S → Ipc → Ipc
  with_built (a, s, m) k = record k {
    manager = record k.manager { store = record k.manager.store { memory = s } };
    bytes = m;
  }

  abbrev reply_with : Message → Built S → Ipc → Bool × Ipc
  reply_with message built k = (true, send_handle_reply message built.0 0 (with_built built k))

  abbrev pub sent_as : IpcSendStatus × Ipc → Result (Unit {0}) × Ipc
  sent_as (IpcSendStatus.ok, k) = (Result.ok tt, k)
  sent_as (IpcSendStatus.invalid_endpoint, k) = (Result.err SyscallError.invalid_argument, k)
  sent_as (IpcSendStatus.queue_full, k) = (Result.err SyscallError.queue_full, k)

  abbrev pub stamped : ℕ → Message → Ipc → Message
  stamped p message k = record message {
    sender = (k.manager.store.processes p).endpoint_id;
    id = k.id_counter;
  }

  abbrev pub counted : Ipc → Ipc
  counted k = record k { id_counter = (k.id_counter + 1) % 2 ^ 64 }

  -- `boot` is what the kernel was started with, `fresh` where `new` puts an object.
  module _ (R : Rounding) (boot : Option BootData) (fresh : ℕ) where
    unfoldable pub kernel_handle_ipc_message : Message → Ipc → Bool × Ipc
    kernel_handle_ipc_message message k =
        let known : Bool = not (process_at message.sender k == 0) in
        let info : Built S =
          ensure_boot_info_object S R fresh boot k.boot_info_object (memory_of k) k.bytes in
        if not (message.reply_to == 0)
        then (false, k)
        else if message.type == get_boot_info
        then (if not known
            then (
              true,
              (send_kernel_ipc_reply message.sender (make_reply message get_boot_info 1) k).1,
            )
            else reply_with message info (record k { boot_info_object = info.0 }))
        else if message.type == get_boot_module_memory_object_by_id
        then (if not known
            then (false, k)
            else reply_with message
                (build_boot_module_object S fresh boot (nth message.args 0) (memory_of k) k.bytes)
                k)
        else if message.type == get_cmdline_memory_object
        then (if not known
            then (false, k)
            else reply_with message (build_boot_cmdline_object S fresh boot (memory_of k) k.bytes)
                k)
        else if message.type == get_framebuffer_memory_object_by_id
        then (if not known
            then (false, k)
            else reply_with message
                (build_boot_framebuffer_object S fresh boot (nth message.args 0) (memory_of k)
                  k.bytes)
                k)
        else if message.type == get_page_size
        then (
          true,
          (send_kernel_ipc_reply message.sender
              (with_arg k_page_size (make_reply message get_page_size 0)) k).1,
        )
        else (false, k)

    abbrev handled_as : Bool × Ipc → Result (Unit {0}) × Ipc
    handled_as (handled, k) =
        (if handled then Result.ok tt else Result.err SyscallError.invalid_argument, k)

    -- A message that was copied in, from the process `p`.
    unfoldable pub ipc_send : ℕ → ℕ → Result Message → Ipc → Result (Unit {0}) × Ipc
    ipc_send p endpoint (Result.err e) k = (Result.err e, k)
    ipc_send p endpoint (Result.ok message) k =
        if endpoint == 0
        then handled_as (kernel_handle_ipc_message (stamped p message k) (counted k))
        else sent_as (send_ipc_message endpoint (stamped p message k) (counted k))

  -- What `copy_out` answers is a parameter: an error, or none.
  abbrev copied_out : (Message → Option SyscallError) → Option Message → Result Message
  copied_out copy_out none = Result.err SyscallError.empty_queue
  copied_out copy_out (some message) = answer (copy_out message)
    where
      answer : Option SyscallError → Result Message
      answer none = Result.ok message
      answer (some e) = Result.err e

  -- The result holds the message that was copied out.
  unfoldable pub ipc_receive : (Message → Option SyscallError) → ℕ → Ipc → Result Message × Ipc
  ipc_receive copy_out p k =
      let (popped, q) = Q.try_pop (k.queues p) in (copied_out copy_out popped, set_queue p q k)
