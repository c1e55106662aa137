-- ===== src/KernelIpc/Answers.antt =====
-- kernel_handle_ipc_message of Katline/Runtime.cppm: what a message to the kernel does to the queues.
use dhos_reborn.Base.{
  ℕ, ◌≡◌, ◌≢◌, ◌⊎◌, refl, sym, ap, ◌∙◌, Bool, true, false, not, Option, [], ◌∷◌, ◌++◌, ◌==◌,
  if◌then◌else◌, arith, Bool-cases, inl, inr,
}
use dhos_reborn.CommonLib.{HashMap, BoundedQueue}
use dhos_reborn.UserSpace.{Message}
use dhos_reborn.UserSpace.Messages.{
  make_reply, get_boot_info, get_boot_module_memory_object_by_id, get_page_size,
}
use dhos_reborn.MemoryObject.{PageSource}
use dhos_reborn.HandleManager.{Entry, HandleKind, HandleManager, open_handle}
use dhos_reborn.Lifecycle.{process_by_endpoint}
use dhos_reborn.Loader.{Rounding}
use dhos_reborn.BootInfo.{BootData}
use dhos_reborn.KernelIpc.Builders.{Built}
use dhos_reborn.KernelIpc.{
  Ipc, process_at, with_handle, send_kernel_ipc_reply, send_handle_reply, with_built, reply_with,
  kernel_handle_ipc_message, get_cmdline_memory_object, get_framebuffer_memory_object_by_id,
}

-- A reply to a message, of its type.
abbrev pub IsReply : Message → Message → Type 0
IsReply request reply =
    (reply.reply_to ≡ request.id) × (reply.cookie ≡ request.cookie) × (reply.type ≡ request.type)

make_reply-IsReply :
    (request : Message) (status : ℕ) → IsReply request (make_reply request request.type status)
unfolding make_reply
make_reply-IsReply request status = (refl, refl, refl)

==-eq : (a b : ℕ) → (a == b) ≡ true → a ≡ b
==-eq a b e = ground arith

module _ (S : PageSource) (H : HashMap Entry) (Q : BoundedQueue Message) where
  -- Only the queue of `p` may change, by one reply at its end.
  abbrev pub Answered : Message → ℕ → (ℕ → Q.Queue) → (ℕ → Q.Queue) → Type 0
  Answered request p old new =
      ((a : ℕ) → a ≢ p → new a ≡ old a)
      × ((Q.contents (new p) ≡ Q.contents (old p))
          ⊎ ((reply : Message) × ((Q.contents (new p) ≡ Q.contents (old p) ++ reply ∷ [])
                × IsReply request reply)))

  unchanged : (request : Message) (p : ℕ) (q : ℕ → Q.Queue) → Answered request p q q
  unchanged request p q = (λ a other. refl, inl refl)

  abbrev pushed : ℕ → Message → (ℕ → Q.Queue) → ℕ → Q.Queue
  pushed p reply q a = if a == p then (Q.try_push reply (q p)).1 else q a

  pushed-Answered :
      (request reply : Message) (p : ℕ) (q : ℕ → Q.Queue)
      → IsReply request reply
      → Answered request p q (pushed p reply q)
  pushed-Answered request reply p q is =
      let e : (p == p) ≡ true = ground arith in
      (
        λ a other. let n : (a == p) ≡ false = ground arith in rw (pushed, n) refl,
        elim (Q.push-contents reply (q p)) [
          | inl (done, more) ↦ inr (reply, (rw (pushed, e) more, is))
          | inr (refused, same) ↦ inl (rw (pushed, e) same)
        ],
      )

  send_kernel_ipc_reply-Answered :
      (request reply : Message) (k : Ipc S H Q) (p : ℕ)
      → process_at S H Q request.sender k ≡ p
      → IsReply request reply
      → Answered request p k.queues (send_kernel_ipc_reply S H Q request.sender reply k).1.queues
  unfolding send_kernel_ipc_reply
  send_kernel_ipc_reply-Answered request reply k p at is = elim (Bool-cases (p == 0)) [
    | inl e ↦ rw (at, e) (unchanged request p k.queues)
    | inr e ↦ rw (at, e) (pushed-Answered request reply p k.queues is)
  ]

  open_handle-processes :
      (m : HandleManager S H) (owner object : ℕ)
      → (open_handle S H owner HandleKind.memory_object object m).1.store.processes
        ≡ m.store.processes
  unfolding open_handle
  open_handle-processes m owner object = elim (Bool-cases (owner == 0)) [
    | inl e ↦ rw e refl
    | inr e ↦ elim (Bool-cases (object == 0)) [
      | inl f ↦ rw (e, f) refl
      | inr f ↦ elim (Bool-cases (m.next_handle_id == 0)) [
        | inl g ↦ rw (e, f, g) refl
        | inr g ↦ rw (e, f, g) refl
      ]
    ]
  ]

  send_handle_reply-Answered :
      (request : Message) (object status : ℕ) (k : Ipc S H Q) (p : ℕ)
      → process_at S H Q request.sender k ≡ p
      → Answered request p k.queues (send_handle_reply S H Q request object status k).queues
  unfolding send_handle_reply
  send_handle_reply-Answered request object status k p at =
      let r = open_handle S H p HandleKind.memory_object object k.manager in
      let opened : Ipc S H Q = record k { manager = r.1 } in
      let still : process_at S H Q request.sender opened ≡ p =
        ap (λ ps. process_by_endpoint request.sender ps k.processes)
          (open_handle-processes k.manager p object)
        ∙ at in
      let reply : Message = with_handle r.0 (make_reply request request.type status) in
      let answered =
        send_kernel_ipc_reply-Answered request reply opened p still
          (make_reply-IsReply request status) in
      elim (Bool-cases (p == 0)) [
        | inl e ↦ rw (at, e) (unchanged request p k.queues)
        | inr e ↦ elim (Bool-cases (object == 0)) [
          | inl f ↦
              rw (at, e, f)
                (send_kernel_ipc_reply-Answered request (make_reply request request.type 1) k p at
                  (make_reply-IsReply request 1))
          | inr f ↦ elim (Bool-cases (r.0 == 0)) [
            | inl g ↦ rw (at, e, f, g) (unchanged request p k.queues)
            | inr g ↦
                elim (Bool-cases (
                  (send_kernel_ipc_reply S H Q request.sender
                    (with_handle r.0 (make_reply request request.type status)) opened).0)) [
                      | inl t ↦ rw (at, e, f, g, t) answered
                      | inr t ↦ rw (at, e, f, g, t) answered
                    ]
          ]
        ]
      ]

  -- The result of the handler: refused without an effect, or answered.
  abbrev pub Handled : Message → Ipc S H Q → Bool × Ipc S H Q → Type 0
  Handled message k r =
      ((r.0 ≡ false) × (r.1 ≡ k))
      ⊎ ((r.0 ≡ true) × Answered message (process_at S H Q message.sender k) k.queues r.1.queues)

  reply_with-Handled :
      (message : Message) (built : Built S) (k : Ipc S H Q)
      → Handled message k (reply_with S H Q message built k)
  reply_with-Handled message built k = inr (
    refl,
    send_handle_reply-Answered message built.0 0 (with_built S H Q built k)
        (process_at S H Q message.sender k) refl,
  )

  -- The requests for an object, which ask that the sender is known.
  object_reply-Handled :
      (message : Message) (built : Built S) (k : Ipc S H Q) (known : Bool)
      → Handled message k (if not known then (false, k) else reply_with S H Q message built k)
  object_reply-Handled message built k true = reply_with-Handled message built k
  object_reply-Handled message built k false = inl (refl, refl)

  direct-Handled :
      (message reply : Message) (k : Ipc S H Q)
      → IsReply message reply
      → Handled message k (true, (send_kernel_ipc_reply S H Q message.sender reply k).1)
  direct-Handled message reply k is = inr (
    refl,
    send_kernel_ipc_reply-Answered message reply k (process_at S H Q message.sender k) refl is,
  )

  boot_info-Handled :
      (message : Message) (built : Built S) (k : Ipc S H Q) (known : Bool)
      → message.type ≡ get_boot_info
      → Handled message k (
          if not known
          then (
            true,
            (send_kernel_ipc_reply S H Q message.sender (make_reply message get_boot_info 1) k).1,
          )
          else reply_with S H Q message built (record k { boot_info_object = built.0 }))
  unfolding make_reply
  boot_info-Handled message built k true type = inr (
    refl,
    send_handle_reply-Answered message built.0 0
        (with_built S H Q built (record k { boot_info_object = built.0 }))
        (process_at S H Q message.sender k) refl,
  )
  boot_info-Handled message built k false type =
      direct-Handled message (make_reply message get_boot_info 1) k (refl, refl, sym type)

  module _ (R : Rounding) (boot : Option BootData) (fresh : ℕ) where
    -- A message to the kernel is refused, and then nothing changes, or it is handled, and then the queues of all
    -- processes but the sender's are as before, and that one is too or has one message more, at its end: a reply
    -- with the id, the cookie and the type of the message.
    pub kernel_handle_ipc_message-Handled :
        (message : Message) (k : Ipc S H Q)
        → Handled message k (kernel_handle_ipc_message S H Q R boot fresh message k)
    unfolding kernel_handle_ipc_message make_reply
    kernel_handle_ipc_message-Handled message k =
        let p : ℕ = process_at S H Q message.sender k in
        elim (Bool-cases (message.reply_to == 0)) [
          | inr e ↦ rw e (inl (refl, refl))
          | inl e ↦ elim (Bool-cases (message.type == get_boot_info)) [
            | inl t ↦
                rw (e, t)
                  (boot_info-Handled message _ k (not (p == 0))
                    (==-eq message.type get_boot_info t))
            | inr t1 ↦ elim (Bool-cases (message.type == get_boot_module_memory_object_by_id)) [
              | inl t ↦ rw (e, t1, t) (object_reply-Handled message _ k (not (p == 0)))
              | inr t2 ↦ elim (Bool-cases (message.type == get_cmdline_memory_object)) [
                | inl t ↦ rw (e, t1, t2, t) (object_reply-Handled message _ k (not (p == 0)))
                | inr t3 ↦ elim (Bool-cases (message.type == get_framebuffer_memory_object_by_id)) [
                  | inl t ↦ rw (e, t1, t2, t3, t) (object_reply-Handled message _ k (not (p == 0)))
                  | inr t4 ↦ elim (Bool-cases (message.type == get_page_size)) [
                    | inl t ↦
                        rw (e, t1, t2, t3, t4, t)
                          (direct-Handled message _ k
                            (refl, refl, sym (==-eq message.type get_page_size t)))
                    | inr t ↦ rw (e, t1, t2, t3, t4, t) (inl (refl, refl))
                  ]
                ]
              ]
            ]
          ]
        ]
