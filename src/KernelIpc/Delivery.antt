-- ===== src/KernelIpc/Delivery.antt =====
-- Sending between processes and receiving: Katline/Syscalls/IPCSend.cppm, Katline/Syscalls/IPCReceive.cppm and
-- Scheduler::send_ipc_message of Katline/Arch/Scheduler.cppm.
use dhos_reborn.Base.{
  ℕ, ◌≡◌, ◌≢◌, ◌⊎◌, refl, sym, ap, ◌∙◌, Bool, true, false, Option, none, List, [], ◌∷◌, ◌++◌, ◌==◌,
  ◌+◌, ◌%◌, ◌^◌, ==_false, arith, Bool-cases, inl, inr,
}
use dhos_reborn.CommonLib.{HashMap, BoundedQueue}
use dhos_reborn.SyscallResult.{SyscallError, Result}
use dhos_reborn.UserSpace.{Message}
use dhos_reborn.MemoryObject.{PageSource}
use dhos_reborn.HandleManager.{Entry}
use dhos_reborn.Loader.{Rounding}
use dhos_reborn.BootInfo.{BootData}
use dhos_reborn.Process.{Process}
use dhos_reborn.Lifecycle.{process_by_endpoint}
use dhos_reborn.KernelIpc.{Ipc, set_queue, send_ipc_message, sent_as, ipc_send, ipc_receive}

abbrev is_nil : List Message → Bool
is_nil [] = true
is_nil (m ∷ ms) = false

abbrev first_or : Message → List Message → Message
first_or other [] = other
first_or other (m ∷ ms) = m

abbrev rest_of : List Message → List Message
rest_of [] = []
rest_of (m ∷ ms) = ms

-- No pointer of a list is null.
abbrev pub NoneNull : List ℕ → Type 0
NoneNull [] = Unit {0}
NoneNull (p ∷ list) = (p ≢ 0) × NoneNull list

-- No process of a list has the endpoint.
abbrev pub Absent : (ℕ → Process) → ℕ → List ℕ → Type 0
Absent ps endpoint [] = Unit {0}
Absent ps endpoint (p ∷ list) = ((ps p).endpoint_id ≢ endpoint) × Absent ps endpoint list

-- The first process of a list with the endpoint.
abbrev pub IsReceiver : (ℕ → Process) → ℕ → List ℕ → ℕ → Type 0
IsReceiver ps endpoint list q =
    (before : List ℕ) × ((after : List ℕ) × ((list ≡ before ++ q ∷ after)
        × ((ps q).endpoint_id ≡ endpoint)
        × Absent ps endpoint before))

process_by_endpoint-cases :
    (ps : ℕ → Process) (endpoint : ℕ) (list : List ℕ)
    → NoneNull list
    → ((q : ℕ) × (IsReceiver ps endpoint list q
          × (q ≢ 0)
          × (process_by_endpoint endpoint ps list ≡ q)))
      ⊎ (Absent ps endpoint list × (process_by_endpoint endpoint ps list ≡ 0))
unfolding process_by_endpoint
process_by_endpoint-cases ps endpoint [] nonnull = inr (tt, refl)
process_by_endpoint-cases ps endpoint (p ∷ list) (known, nonnull) =
    elim (Bool-cases ((ps p).endpoint_id == endpoint)) [
      | inl e ↦
          let has : (ps p).endpoint_id ≡ endpoint = ground arith in
          rw e (inl (p, (([], (list, (refl, has, tt))), known, refl)))
      | inr e ↦
          let differs : (ps p).endpoint_id ≢ endpoint = ground arith in
          elim (process_by_endpoint-cases ps endpoint list nonnull) [
            | inl (q, ((before, (after, (split, has, absent))), q_known, at)) ↦ rw e (
                inl (
                  q,
                  (
                    (p ∷ before, (after, (ap (λ l. p ∷ l) split, has, (differs, absent)))),
                    q_known,
                    at,
                  ),
                ))
            | inr (absent, at) ↦ rw e (inr ((differs, absent), at))
          ]
    ]

module _ (S : PageSource) (H : HashMap Entry) (Q : BoundedQueue Message) where
  abbrev contents_of : Ipc S H Q → ℕ → List Message
  contents_of k p = Q.contents (k.queues p)

  -- The answer of a send, the counter of ids and the queues: only the receiver's changes, and only by the message
  -- at its end.
  abbrev pub Delivered : ℕ → Message → Ipc S H Q → Result (Unit {0}) × Ipc S H Q → Type 0
  Delivered endpoint message k r =
      let ps : ℕ → Process = k.manager.store.processes in
      let next : ℕ = (k.id_counter + 1) % 2 ^ 64 in
      ((q : ℕ) × (IsReceiver ps endpoint k.processes q
          × (r.1.id_counter ≡ next)
          × (((r.0 ≡ Result.ok tt)
                × (contents_of r.1 q ≡ contents_of k q ++ message ∷ [])
                × ((a : ℕ) → a ≢ q → contents_of r.1 a ≡ contents_of k a))
              ⊎ ((r.0 ≡ Result.err SyscallError.queue_full)
                  × ((a : ℕ) → contents_of r.1 a ≡ contents_of k a)))))
      ⊎ (Absent ps endpoint k.processes
          × (r.0 ≡ Result.err SyscallError.invalid_argument)
          × (r.1 ≡ record k { id_counter = next }))

  set_queue-other :
      (p : ℕ) (q : Q.Queue) (k : Ipc S H Q) (a : ℕ)
      → a ≢ p
      → contents_of (set_queue S H Q p q k) a ≡ contents_of k a
  set_queue-other p q k a other =
      let e : (a == p) ≡ false = ground arith in rw (contents_of, e) refl

  set_queue-at :
      (p : ℕ) (q : Q.Queue) (k : Ipc S H Q) → contents_of (set_queue S H Q p q k) p ≡ Q.contents q
  set_queue-at p q k = let e : (p == p) ≡ true = ground arith in rw (contents_of, e) refl

  set_queue-same :
      (p : ℕ) (q : Q.Queue) (k : Ipc S H Q) (a : ℕ)
      → Q.contents q ≡ contents_of k p
      → contents_of (set_queue S H Q p q k) a ≡ contents_of k a
  set_queue-same p q k a same = elim (Bool-cases (a == p)) [
    | inl e ↦
        let here : a ≡ p = ground arith in
        rw (contents_of, e) (same ∙ ap (contents_of k) (sym here))
    | inr e ↦ rw (contents_of, e) refl
  ]

  counted_up : Ipc S H Q → Ipc S H Q
  counted_up k = record k { id_counter = (k.id_counter + 1) % 2 ^ 64 }

  sent_to :
      (endpoint q : ℕ) (message : Message) (k : Ipc S H Q)
      → process_by_endpoint endpoint k.manager.store.processes k.processes ≡ q
      → IsReceiver k.manager.store.processes endpoint k.processes q
      → q ≢ 0
      → Delivered endpoint message k
          (sent_as S H Q (send_ipc_message S H Q endpoint message (counted_up k)))
  unfolding send_ipc_message counted_up
  sent_to endpoint q message k at receiver known =
      let queue : Q.Queue = (Q.try_push message (k.queues q)).1 in
      elim (Q.push-contents message (k.queues q)) [
        | inl (pushed, more) ↦
            rw (at, ==_false known, pushed)
              (inl (
                q,
                (
                  receiver,
                  refl,
                  inl (refl, set_queue-at q queue k ∙ more, set_queue-other q queue k),
                ),
              ))
        | inr (refused, same) ↦
            rw (at, ==_false known, refused)
              (inl (q, (receiver, refl, inr (refl, λ a. set_queue-same q queue k a same))))
      ]

  sent_to_none :
      (endpoint : ℕ) (message : Message) (k : Ipc S H Q)
      → process_by_endpoint endpoint k.manager.store.processes k.processes ≡ 0
      → Absent k.manager.store.processes endpoint k.processes
      → Delivered endpoint message k
          (sent_as S H Q (send_ipc_message S H Q endpoint message (counted_up k)))
  unfolding send_ipc_message counted_up
  sent_to_none endpoint message k at absent = rw at (inr (absent, refl, refl))

  -- A message that was copied in and is for another endpoint than the kernel's goes to the end of the queue
  -- of the first process of the list with that endpoint; its sender is the endpoint of the process that sends, its id
  -- is the counter, which goes up by one in any case, and no other queue changes. Without room nothing is queued, and
  -- where no process has the endpoint nothing but the counter changes. The list holds no null pointer.
  pub ipc_send-Delivered :
      (R : Rounding) (boot : Option BootData) (fresh p endpoint : ℕ) (message : Message)
      (k : Ipc S H Q)
      → endpoint ≢ 0
      → NoneNull k.processes
      → Delivered endpoint
          (record message { sender = (k.manager.store.processes p).endpoint_id; id = k.id_counter })
          k
          (ipc_send S H Q R boot fresh p endpoint (Result.ok message) k)
  unfolding ipc_send counted_up
  ipc_send-Delivered R boot fresh p endpoint message k other nonnull =
      let e : (endpoint == 0) ≡ false = ground arith in
      let sent : Message = record message {
        sender = (k.manager.store.processes p).endpoint_id;
        id = k.id_counter;
      } in
      elim (process_by_endpoint-cases k.manager.store.processes endpoint k.processes nonnull) [
        | inl (q, (receiver, known, at)) ↦ rw e (sent_to endpoint q sent k at receiver known)
        | inr (absent, at) ↦ rw e (sent_to_none endpoint sent k at absent)
      ]

  pub ipc_receive-front :
      (p : ℕ) (k : Ipc S H Q) (message : Message) (others : List Message)
      → contents_of k p ≡ message ∷ others
      → let r = ipc_receive S H Q (λ m. none) p k in
        (r.0 ≡ Result.ok message) × (contents_of r.1 p ≡ others)
  unfolding ipc_receive
  ipc_receive-front p k message others front = elim (Q.pop-contents (k.queues p)) [
    | inl (empty, popped, left) ↦
        let never : false ≡ true = ap is_nil (sym front ∙ empty) in absurd (ground arith)
    | inr (first, (listed, popped)) ↦
        let same : first ≡ message = ap (first_or first) (sym listed ∙ front) in
        let rest : Q.contents (Q.try_pop (k.queues p)).1 ≡ others =
          ap rest_of (sym listed ∙ front) in
        rw popped (ap Result.ok same, set_queue-at p (Q.try_pop (k.queues p)).1 k ∙ rest)
  ]
