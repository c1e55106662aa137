-- ===== src/KernelIpc/Replies.antt =====
-- send_handle_reply of kernel_handle_ipc_message, Katline/Runtime.cppm: the handle that goes with a reply.
use dhos_reborn.Base.{
  ℕ, ◌≡◌, ◌≢◌, ◌⊎◌, refl, sym, ap, ◌∙◌, Bool, true, Option, none, List, [], ◌∷◌, ◌++◌, ◌==◌,
  if◌then◌else◌, arith, Bool-cases, inl, inr, ==_false,
}
use dhos_reborn.CommonLib.{HashMap, BoundedQueue}
use dhos_reborn.UserSpace.{Message}
use dhos_reborn.UserSpace.Messages.{make_reply}
use dhos_reborn.MemoryObject.{PageSource}
use dhos_reborn.HandleManager.{Entry, HandleKind, HandleManager, open_handle, close}
use dhos_reborn.HandleManager.Ownership.{IsFresh, Holds, open_handle_lem, close-owned}
use dhos_reborn.Lifecycle.{process_by_endpoint}
use dhos_reborn.KernelIpc.{
  Ipc, process_at, set_queue, with_handle, send_kernel_ipc_reply, send_handle_reply,
}

restored :
    {old now : Option Entry} (h j : ℕ)
    → (h ≡ j → old ≡ none)
    → (h ≢ j → now ≡ old)
    → (if h == j then none else now) ≡ old
restored h j unused other = elim (Bool-cases (h == j)) [
  | inl e ↦ rw e (sym (unused (ground arith)))
  | inr e ↦ rw e (other (ground arith))
]

module _ (S : PageSource) (H : HashMap Entry) (Q : BoundedQueue Message) where
  abbrev contents_at : Ipc S H Q → ℕ → List Message
  contents_at k p = Q.contents (k.queues p)

  -- A memory object is opened: the handle is no 0, and no process changes.
  open_handle-object :
      (m : HandleManager S H) (owner object : ℕ)
      → m.next_handle_id ≢ 0
      → owner ≢ 0
      → object ≢ 0
      → let (id, m') = open_handle S H owner HandleKind.memory_object object m in
        (id ≢ 0) × (m'.store.processes ≡ m.store.processes)
  unfolding open_handle
  open_handle-object m owner object id_left ho nz =
      rw (==_false ho, ==_false nz, ==_false id_left) (id_left, refl)

  -- The reply of a kernel that knows the endpoint.
  send_kernel_ipc_reply-to :
      (endpoint : ℕ) (message : Message) (k : Ipc S H Q) (p : ℕ)
      → process_at S H Q endpoint k ≡ p
      → p ≢ 0
      → send_kernel_ipc_reply S H Q endpoint message k ≡ (
        (Q.try_push message (k.queues p)).0,
        set_queue S H Q p (Q.try_push message (k.queues p)).1 k,
      )
  unfolding send_kernel_ipc_reply
  send_kernel_ipc_reply-to endpoint message k p at known = rw (at, ==_false known) refl

  set_queue-here :
      (p : ℕ) (q : Q.Queue) (k : Ipc S H Q) → contents_at (set_queue S H Q p q k) p ≡ Q.contents q
  set_queue-here p q k = let e : (p == p) ≡ true = ground arith in rw (contents_at, e) refl

  -- The reply with the handle, and what remains when it was pushed or refused.
  abbrev reply_of : Message → ℕ → ℕ → Message
  reply_of request status h = with_handle h (make_reply request request.type status)

  abbrev after_push : ℕ → ℕ → Bool × Q.Queue → Ipc S H Q → Ipc S H Q
  after_push p h r opened =
      let k1 : Ipc S H Q = set_queue S H Q p r.1 opened in
      if r.0 then k1 else record k1 { manager = (close S H p h k1.manager).1 }

  send_handle_reply-opened :
      (request : Message) (object status p : ℕ) (k : Ipc S H Q)
      → process_at S H Q request.sender k ≡ p
      → p ≢ 0
      → object ≢ 0
      → k.manager.next_handle_id ≢ 0
      → let (h, manager) = open_handle S H p HandleKind.memory_object object k.manager in
        send_handle_reply S H Q request object status k
        ≡ after_push p h
            (Q.try_push (reply_of request status h) (k.queues p))
            (record k { manager = manager })
  unfolding send_handle_reply
  send_handle_reply-opened request object status p k at known nz id_left =
      let (h, manager) = open_handle S H p HandleKind.memory_object object k.manager in
      let (some_id, same) = open_handle-object k.manager p object id_left known nz in
      let opened : Ipc S H Q = record k { manager = manager } in
      let still : process_at S H Q request.sender opened ≡ p =
        ap (λ ps. process_by_endpoint request.sender ps k.processes) same ∙ at in
      rw
        (
          at,
          ==_false known,
          ==_false nz,
          ==_false some_id,
          send_kernel_ipc_reply-to request.sender (reply_of request status h) opened p still known,
        )
        refl

  -- With an object, a known sender and an id that is free: either the reply stands at the end of the sender's
  -- queue and its first handle is one that the sender holds, for the object, or the queue is as before and so is every
  -- handle of the table.
  pub send_handle_reply-Holds :
      (request : Message) (object status p : ℕ) (k : Ipc S H Q) (j : ℕ)
      → process_at S H Q request.sender k ≡ p
      → p ≢ 0
      → object ≢ 0
      → IsFresh k.manager
      → let k' : Ipc S H Q = send_handle_reply S H Q request object status k in
        ((h : ℕ) × ((contents_at k' p ≡ contents_at k p ++ reply_of request status h ∷ [])
            × Holds k'.manager p h HandleKind.memory_object object))
        ⊎ ((contents_at k' p ≡ contents_at k p)
            × (H.get k'.manager.entries j ≡ H.get k.manager.entries j))
  send_handle_reply-Holds request object status p k j at known nz fresh =
      let id_left : k.manager.next_handle_id ≢ 0 = omega (arith, fresh.positive) in
      let (h, manager) = open_handle S H p HandleKind.memory_object object k.manager in
      let opened : Ipc S H Q = record k { manager = manager } in
      let (unused, held, others) =
        open_handle_lem k.manager p HandleKind.memory_object object fresh known nz in
      let step = send_handle_reply-opened request object status p k at known nz id_left in
      elim (Q.push-contents (reply_of request status h) (k.queues p)) [
        | inl (pushed, more) ↦ rw (step, pushed) (inl (h, (set_queue-here p _ opened ∙ more, held)))
        | inr (refused, same) ↦
            let (closed, left) = close-owned manager p h HandleKind.memory_object object held in
            rw (step, refused)
              (inr (
                set_queue-here p _ opened ∙ same,
                left j
                    ∙ restored h j (λ e. ap (H.get k.manager.entries) (sym e) ∙ unused) (others j),
              ))
      ]
