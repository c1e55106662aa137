-- ===== src/Lifecycle/Waking.antt =====
-- Katline/Arch/Scheduler.cppm: threads that are started or unblocked, and the queues.
use mathlib.Core.Path.{sym, subst}
use dhos_reborn.Base.{
  ℕ, ◌≡◌, refl, ◌≢◌, ◌⊎◌, none, inl, inr, true, false, some, List, [], ◌∷◌, ◌++◌, contains, arith,
  Bool-cases, ◌∙◌, ==_self, ==_false, Option-cases,
}
use dhos_reborn.Process.{ThreadState}
use dhos_reborn.ReadyQueue.{CpuState, Threads, enqueue_ready, eligible}
use dhos_reborn.ReadyQueue.Fifo.{pending, InBounds, pending-enqueue}
use dhos_reborn.Scheduler.{Scheduler, find_cpu_state, set_cpu, set_state}
use dhos_reborn.Scheduler.Switching.{Found, find-set, find-lapic, enqueue-lapic}
use dhos_reborn.Lifecycle.{target_cpu, make_ready, start_thread, unblock}

contains-last : (t : ℕ) (xs : List ℕ) → contains t (xs ++ t ∷ []) ≡ true
contains-last t [] = ground arith
contains-last t (x ∷ xs) = ground (arith, contains-last t xs)

-- The thread is ready, and it waits in the queue of the processor.
abbrev pub Waits : ℕ → ℕ → Scheduler → Type 0
Waits t lapic s =
    ((s.threads t).tstate ≡ ThreadState.ready)
    × Found lapic s.cpus (λ d. contains t (pending d) ≡ true)

target-found :
    (home lapic : ℕ) (cs : List CpuState) (c : CpuState)
    → target_cpu home lapic cs ≡ some c
    → find_cpu_state c.lapic_id cs ≡ some c
unfolding target_cpu
target-found home lapic cs c e =
    let here : (l : ℕ) → find_cpu_state l cs ≡ some c → find_cpu_state c.lapic_id cs ≡ some c =
      λ l f. subst (λ x. find_cpu_state x cs ≡ some c) (sym (find-lapic l c cs f)) f in
    elim (Option-cases (find_cpu_state home cs)) [
      | inl f ↦ here lapic (sym (rw (target_cpu, f) refl) ∙ e)
      | inr (d, f) ↦ elim (Bool-cases d.online) [
        | inl y ↦ here home (f ∙ sym (rw (target_cpu, f, y) refl) ∙ e)
        | inr n ↦ here lapic (sym (rw (target_cpu, f, n) refl) ∙ e)
      ]
    ]

enqueue-waits :
    (ts : Threads) (c : CpuState) (t : ℕ)
    → InBounds c
    → eligible ts c.idle_thread t ≡ true
    → contains t (pending (enqueue_ready ts c t)) ≡ true
enqueue-waits ts c t h e = elim (Bool-cases (contains t (pending c))) [
  | inl y ↦ rw (pending-enqueue ts c t h, y, e) y
  | inr n ↦ rw (pending-enqueue ts c t h, n, e) (contains-last t (pending c))
]

-- The state once a thread is made ready for the processor `c`.
make_ready-Waits :
    (lapic t : ℕ) (s : Scheduler) (c : CpuState)
    → t ≢ 0
    → target_cpu ((s.threads t).home_lapic_id) lapic s.cpus ≡ some c
    → t ≢ c.idle_thread
    → InBounds c
    → ((make_ready lapic t s).0 ≡ true) × Waits t c.lapic_id (make_ready lapic t s).1
unfolding make_ready
make_ready-Waits lapic t s c nz f ni h =
    let ts : Threads = set_state t ThreadState.ready s.threads in
    let can : eligible ts c.idle_thread t ≡ true = rw (==_false nz, ==_false ni, ==_self t) refl in
    let d : CpuState = enqueue_ready ts c t in
    let found : find_cpu_state c.lapic_id (set_cpu d s.cpus) ≡ some d =
      find-set c.lapic_id d c s.cpus (enqueue-lapic ts c t)
        (target-found ((s.threads t).home_lapic_id) lapic s.cpus c f) in
    rw (make_ready, f) (refl, (rw (==_self t) refl, (d, found, enqueue-waits ts c t h can)))

-- Where a thread goes that becomes ready: to its home, if that processor is there and online, and to the
-- current processor otherwise.
abbrev pub Placed : ℕ → ℕ → Scheduler → Scheduler → Type 0
Placed lapic t s s' =
    let home : ℕ = (s.threads t).home_lapic_id in
    ((c : CpuState) × ((find_cpu_state home s.cpus ≡ some c) × (c.online ≡ true) × Waits t home s'))
    ⊎ (((find_cpu_state home s.cpus ≡ none)
          ⊎ ((c : CpuState) × ((find_cpu_state home s.cpus ≡ some c) × (c.online ≡ false))))
        × Waits t lapic s')

-- Every processor has its head within its array, and another idle thread than this one.
abbrev pub CanTake : ℕ → Scheduler → Type 0
CanTake t s =
    (l : ℕ) (c : CpuState) → find_cpu_state l s.cpus ≡ some c → (t ≢ c.idle_thread) × InBounds c

Placed-ready :
    (lapic t : ℕ) (s s' : Scheduler)
    → Placed lapic t s s'
    → (s'.threads t).tstate ≡ ThreadState.ready
Placed-ready lapic t s s' (inl (c, (f, y, (ready, w)))) = ready
Placed-ready lapic t s s' (inr (f, (ready, w))) = ready

make_ready-at :
    (lapic t l : ℕ) (s : Scheduler) (c : CpuState)
    → t ≢ 0
    → target_cpu ((s.threads t).home_lapic_id) lapic s.cpus ≡ some c
    → find_cpu_state l s.cpus ≡ some c
    → CanTake t s
    → ((make_ready lapic t s).0 ≡ true) × Waits t l (make_ready lapic t s).1
make_ready-at lapic t l s c nz target found can =
    let (other, bounds) = can l c found in
    let (e, w) = make_ready-Waits lapic t s c nz target other bounds in
    (e, subst (λ x. Waits t x (make_ready lapic t s).1) (find-lapic l c s.cpus found) w)

make_ready-Placed :
    (lapic t : ℕ) (s : Scheduler) (current : CpuState)
    → t ≢ 0
    → find_cpu_state lapic s.cpus ≡ some current
    → CanTake t s
    → ((make_ready lapic t s).0 ≡ true) × Placed lapic t s (make_ready lapic t s).1
unfolding target_cpu
make_ready-Placed lapic t s current nz here can =
    let home : ℕ = (s.threads t).home_lapic_id in
    elim (Option-cases (find_cpu_state home s.cpus)) [
      | inl f ↦
          let target : target_cpu home lapic s.cpus ≡ some current = rw (target_cpu, f) here in
          let (e, w) = make_ready-at lapic t lapic s current nz target here can in
          (e, inr (inl f, w))
      | inr (c, f) ↦ elim (Bool-cases c.online) [
        | inl y ↦
            let target : target_cpu home lapic s.cpus ≡ some c = rw (target_cpu, f, y) refl in
            let (e, w) = make_ready-at lapic t home s c nz target f can in (e, inl (c, (f, y, w)))
        | inr n ↦
            let target : target_cpu home lapic s.cpus ≡ some current = rw (target_cpu, f, n) here in
            let (e, w) = make_ready-at lapic t lapic s current nz target here can in
            (e, inr (inr (c, (f, n)), w))
      ]
    ]

-- Unblocking makes a blocked thread ready and puts it in the queue of its home processor, if that is there
-- and online, and in the queue of the current processor otherwise. The thread is not the idle thread of a processor,
-- and the head of each queue lies within its array.
pub unblock-Placed :
    (lapic t : ℕ) (s : Scheduler) (current : CpuState)
    → t ≢ 0
    → (s.threads t).tstate ≡ ThreadState.blocked
    → find_cpu_state lapic s.cpus ≡ some current
    → CanTake t s
    → Placed lapic t s (unblock lapic t s)
unfolding unblock
unblock-Placed lapic t s current nz b here can =
    let (e, w) = make_ready-Placed lapic t s current nz here can in rw (b, ==_false nz) w

-- Starting a created thread succeeds when there is a processor for it, and queues it there; once a
-- thread was started, starting it again fails and changes nothing.
pub start_thread-Waits :
    (lapic t : ℕ) (s : Scheduler) (c : CpuState)
    → t ≢ 0
    → (s.threads t).tstate ≡ ThreadState.created
    → target_cpu ((s.threads t).home_lapic_id) lapic s.cpus ≡ some c
    → t ≢ c.idle_thread
    → InBounds c
    → let (started, s') = start_thread lapic t s in
      (started ≡ true) × Waits t c.lapic_id s' × (start_thread lapic t s' ≡ (false, s'))
unfolding start_thread
start_thread-Waits lapic t s c nz b f ni h =
    let (e, w) = make_ready-Waits lapic t s c nz f ni h in rw (b, ==_false nz) (e, w, rw (w.0) refl)

-- Starting a created thread succeeds and queues it at the same place; once a thread was started, starting it
-- again fails and changes nothing.
pub start_thread-Placed :
    (lapic t : ℕ) (s : Scheduler) (current : CpuState)
    → t ≢ 0
    → (s.threads t).tstate ≡ ThreadState.created
    → find_cpu_state lapic s.cpus ≡ some current
    → CanTake t s
    → let (started, s') = start_thread lapic t s in
      (started ≡ true) × Placed lapic t s s' × (start_thread lapic t s' ≡ (false, s'))
unfolding start_thread
start_thread-Placed lapic t s current nz b here can =
    let (e, w) = make_ready-Placed lapic t s current nz here can in
    rw (b, ==_false nz) (e, w, rw (Placed-ready lapic t s (make_ready lapic t s).1 w) refl)
