-- ===== src/Scheduler/Switching.antt =====
-- Katline/Arch/Scheduler.cppm: what holds of the processor and of the thread that `schedule`
-- switches to.
use mathlib.Core.Path.{sym}
use dhos_reborn.Base.{
  ℕ, zero, suc, ◌+◌, ◌≡◌, refl, ◌≢◌, inl, inr, true, false, Option, some, List, [], ◌∷◌, ◌==◌,
  if◌then◌else◌, length, drop, ◌++◌, take, arith, Bool-cases, ◌∙◌, ==_self, Option-cases,
}
use dhos_reborn.Process.{ThreadState}
use dhos_reborn.ReadyQueue.{
  CpuState, Threads, enqueue_ready, dequeue_ready, dequeue_scan, compact_ready_queue_if_needed,
  clear_handoff_if_current,
}
use dhos_reborn.Scheduler.{
  Scheduler, Switch, find_cpu_state, set_cpu, requeue_current, set_state, drain, skip, enqueue_all,
  pick_queued, steal_slot, is_stealable, steal_from, steal_loop, steal_thread_for_cpu, enter,
  settle, after_queue, schedule_on, schedule,
}

-- The processor `lapic` is known, and its state satisfies P.
abbrev pub Found : ℕ → List CpuState → (CpuState → Type 0) → Type 0
Found lapic cpus P = (d : CpuState) × (find_cpu_state lapic cpus ≡ some d) × P d

-- The thread that is switched to runs, on this processor alone of its accounts, with a full slice.
abbrev pub Runs : ℕ → Switch → Scheduler → Type 0
Runs lapic sw s =
    Found lapic s.cpus (λ d. (d.current_thread ≡ sw.next) × (d.in_schedule ≡ false))
    × ((s.threads sw.next).tstate ≡ ThreadState.running)
    × ((s.threads sw.next).slice_remaining ≡ s.default_slice_ticks)
    × ((s.threads sw.next).last_lapic_id ≡ lapic)
    × sw.prev ≢ sw.next

abbrev Switched : ℕ → Scheduler × Option Switch → Type 0
Switched lapic r = (sw : Switch) → r.1 ≡ some sw → Runs lapic sw r.0

pub find-set :
    (lapic : ℕ) (c d : CpuState) (cs : List CpuState)
    → c.lapic_id ≡ lapic
    → find_cpu_state lapic cs ≡ some d
    → find_cpu_state lapic (set_cpu c cs) ≡ some c
unfolding find_cpu_state set_cpu
find-set lapic c d [] e f = cc
find-set lapic c d (x ∷ cs) e f = elim (Bool-cases (x.lapic_id == lapic)) [
  | inl y ↦ ground (arith, y)
  | inr n ↦
      let f' : find_cpu_state lapic cs ≡ some d = ground (arith, n) in
      ground (arith, n, find-set lapic c d cs e f')
]

compact-lapic : (c : CpuState) → (compact_ready_queue_if_needed c).lapic_id ≡ c.lapic_id
unfolding compact_ready_queue_if_needed
compact-lapic c = ground arith

dequeue-lapic : (ts : Threads) (c : CpuState) → (dequeue_ready ts c).1.lapic_id ≡ c.lapic_id
unfolding dequeue_ready
dequeue-lapic ts c = compact-lapic (record c {
  ready_head = (dequeue_scan ts c.idle_thread (drop c.ready_head c.ready_threads) c.ready_head).1;
})

pub enqueue-lapic :
    (ts : Threads) (c : CpuState) (t : ℕ) → (enqueue_ready ts c t).lapic_id ≡ c.lapic_id
unfolding enqueue_ready
enqueue-lapic ts c t = ground arith

enqueue_all-lapic :
    (ts : Threads) (ws : List ℕ) (c : CpuState) → (enqueue_all ts ws c).lapic_id ≡ c.lapic_id
unfolding enqueue_all
enqueue_all-lapic ts [] c = refl
enqueue_all-lapic ts (t ∷ ws) c =
    enqueue_all-lapic ts ws (enqueue_ready ts c t) ∙ enqueue-lapic ts c t

drain-lapic :
    (fuel : ℕ) (ts : Threads) (ws : List ℕ) (c : CpuState)
    → (drain fuel ts ws c).2.lapic_id ≡ c.lapic_id
unfolding drain
drain-lapic zero ts ws c = refl
drain-lapic (suc fuel) ts ws c =
    let rest = drain-lapic fuel ts (skip (dequeue_ready ts c).0 ws) (dequeue_ready ts c).1 in
    ground (arith, rest, dequeue-lapic ts c)

pick_queued-lapic :
    (ts : Threads) (ws : List ℕ) (c : CpuState) → (pick_queued ts ws c).2.lapic_id ≡ c.lapic_id
unfolding pick_queued
pick_queued-lapic ts ws c =
    let r = drain (length c.ready_threads + 1) ts ws c in
    enqueue_all-lapic ts r.1 r.2 ∙ drain-lapic (length c.ready_threads + 1) ts ws c

requeue_current-lapic :
    (ts : Threads) (c : CpuState) → (requeue_current ts c).1.lapic_id ≡ c.lapic_id
unfolding requeue_current
requeue_current-lapic ts c = ground (
  arith,
  enqueue-lapic (set_state c.current_thread ThreadState.ready ts)
      (record c { handoff_thread = c.current_thread }) c.current_thread,
)

clear-lapic : (c : CpuState) → (clear_handoff_if_current c).lapic_id ≡ c.lapic_id
unfolding clear_handoff_if_current
clear-lapic c = ground arith

steal_from-lapic : (ts : Threads) (v : CpuState) → (steal_from ts v).1.lapic_id ≡ v.lapic_id
unfolding steal_from
steal_from-lapic ts v = compact-lapic (record v {
  ready_threads =
      take v.ready_head v.ready_threads
      ++ (steal_slot (is_stealable ts v) (drop v.ready_head v.ready_threads)).1;
})

-- Stealing leaves the state of the processor that steals as it is.
pub steal_loop_self :
    (ts : Threads) (self : ℕ) (vs : List CpuState)
    → find_cpu_state self (steal_loop ts self vs).1 ≡ find_cpu_state self vs
unfolding steal_loop find_cpu_state
steal_loop_self ts self [] = refl
steal_loop_self ts self (v ∷ vs) = ground (arith, steal_loop_self ts self vs, steal_from-lapic ts v)

next-prev : {sw sw' : Switch} → some sw ≡ some sw' → (sw'.next ≡ sw.next) × (sw'.prev ≡ sw.prev)
next-prev h = (cc, cc)

enter-Switched :
    (lapic cr3 next : ℕ) (c d : CpuState) (s : Scheduler)
    → c.lapic_id ≡ lapic
    → find_cpu_state lapic s.cpus ≡ some d
    → Switched lapic (enter cr3 next c s)
unfolding enter
enter-Switched lapic cr3 next c d s e f sw = elim (Bool-cases (c.current_thread == next)) [
  | inl y ↦ rw y (λ h. cc)
  | inr n ↦ rw n (λ h.
      let (to, off) : (sw.next ≡ next) × (sw.prev ≡ c.current_thread) = next-prev h in
      let c' : CpuState = record c { current_thread = next; in_schedule = false } in
      let found : Found lapic (set_cpu c' s.cpus)
          (λ d. (d.current_thread ≡ sw.next) × (d.in_schedule ≡ false)) =
        (c', find-set lapic c' d s.cpus e f, (sym to, refl)) in
      let differs : sw.prev ≢ sw.next = λ h. ground arith in
      (
        found,
        rw (to, ==_self next) refl,
        rw (to, ==_self next) refl,
        rw (to, ==_self next) e,
        differs,
      ))
]

settle-Switched :
    (lapic cr3 next : ℕ) (ws : List ℕ) (c d : CpuState) (s : Scheduler)
    → c.lapic_id ≡ lapic
    → find_cpu_state lapic s.cpus ≡ some d
    → Switched lapic (settle cr3 next ws c s)
unfolding settle
settle-Switched lapic cr3 next ws c d s e f =
    let r = pick_queued s.threads ws c in
    let e' : r.2.lapic_id ≡ lapic = pick_queued-lapic s.threads ws c ∙ e in
    elim (Bool-cases (next == 0)) [
      | inl y ↦
          rw y (enter-Switched lapic cr3 (if r.0 == 0 then r.2.idle_thread else r.0) r.2 d s e' f)
      | inr n ↦ rw n (enter-Switched lapic cr3 next c d s e f)
    ]

steal-found :
    (self lapic : ℕ) (d : CpuState) (s : Scheduler)
    → self ≡ lapic
    → find_cpu_state lapic s.cpus ≡ some d
    → find_cpu_state lapic (steal_thread_for_cpu self s).1.cpus ≡ some d
unfolding steal_thread_for_cpu
steal-found self lapic d s e f = rw e (steal_loop_self s.threads lapic s.cpus ∙ f)

after_queue-Switched :
    (lapic cr3 next : ℕ) (ws : List ℕ) (c d : CpuState) (s : Scheduler)
    → c.lapic_id ≡ lapic
    → find_cpu_state lapic s.cpus ≡ some d
    → Switched lapic (after_queue cr3 next ws c s)
unfolding after_queue
after_queue-Switched lapic cr3 next ws c d s e f sw =
    let stolen = steal_thread_for_cpu c.lapic_id s in
    elim (Bool-cases (next == 0)) [
      | inl z ↦ rw z (
          settle-Switched lapic cr3 stolen.0 ws c d stolen.1 e
            (steal-found c.lapic_id lapic d s e f) sw)
      | inr nz ↦ rw nz (settle-Switched lapic cr3 next ws c d s e f sw)
    ]

schedule_on-Switched :
    (lapic cr3 : ℕ) (c d : CpuState) (s : Scheduler)
    → c.lapic_id ≡ lapic
    → find_cpu_state lapic s.cpus ≡ some d
    → Switched lapic (schedule_on cr3 c s)
unfolding schedule_on
schedule_on-Switched lapic cr3 c0 d s e f sw =
    let c : CpuState = clear_handoff_if_current c0 in
    let q = requeue_current s.threads (record c { in_schedule = true }) in
    let r = pick_queued q.0 [] q.1 in
    let picked : Scheduler = record s { threads = q.0; cpus = set_cpu r.2 s.cpus } in
    let e2 : r.2.lapic_id ≡ lapic =
      pick_queued-lapic q.0 [] q.1
      ∙ requeue_current-lapic s.threads (record c { in_schedule = true })
      ∙ clear-lapic c0
      ∙ e in
    let f2 : find_cpu_state lapic picked.cpus ≡ some r.2 = find-set lapic r.2 d s.cpus e2 f in
    elim (Bool-cases c.in_schedule) [
      | inl y ↦ rw y (λ h. cc)
      | inr n ↦ rw n (after_queue-Switched lapic cr3 r.0 r.1 r.2 r.2 picked e2 f2 sw)
    ]

pub find-lapic :
    (lapic : ℕ) (c : CpuState) (cs : List CpuState)
    → find_cpu_state lapic cs ≡ some c
    → c.lapic_id ≡ lapic
unfolding find_cpu_state
find-lapic lapic c [] f = cc
find-lapic lapic c (x ∷ cs) f = elim (Bool-cases (x.lapic_id == lapic)) [
  | inl y ↦ ground (arith, y)
  | inr n ↦ find-lapic lapic c cs (ground (arith, n))
]

-- When `schedule` switches, the thread that it switches to is the current thread of the processor,
-- which no longer schedules; the thread is running there, with the default slice, and it is not
-- the thread that ran before.
pub schedule-Runs :
    (lapic cr3 : ℕ) (s : Scheduler) (sw : Switch)
    → (schedule lapic cr3 s).1 ≡ some sw
    → Runs lapic sw (schedule lapic cr3 s).0
unfolding schedule
schedule-Runs lapic cr3 s sw = elim (Option-cases (find_cpu_state lapic s.cpus)) [
  | inl f ↦ rw (schedule, f) (λ h. cc)
  | inr (c, f) ↦
      rw (schedule, f) (schedule_on-Switched lapic cr3 c c s (find-lapic lapic c s.cpus f) f sw)
]
