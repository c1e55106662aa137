-- ===== src/Scheduler.antt =====
-- Katline/Arch/Scheduler.cppm: which thread a processor runs next. Each call is one step of one
-- processor: the locks of the source make its parts atomic, and what other processors do between
-- those parts is not modelled. What the hardware is told comes back as a `Switch`.
pub mod Choice
pub mod Stealing
pub mod Switching
pub mod Tests
use dhos_reborn.Base.{
  ℕ, zero, suc, ◌+◌, Bool, true, false, not, ◌&&◌, ◌||◌, Option, none, some, List, [], ◌∷◌, ◌++◌,
  ◌==◌, ltb, if◌then◌else◌, length, drop, take,
}
use dhos_reborn.Process.{Process, ThreadState}
use dhos_reborn.ReadyQueue.{
  CpuState, Threads, is_ready, is_running, enqueue_ready, dequeue_ready,
  compact_ready_queue_if_needed, clear_handoff_if_current,
}

-- Katline/Arch/GDT.cppm
abbrev pub user_code_selector : ℕ
user_code_selector = 0x23

pub record Scheduler : Type 0 where
  pub cpus : List CpuState
  pub threads : Threads
  pub processes : ℕ → Process
  pub process_list : List ℕ
  pub zombies : List ℕ
  pub pid_counter : ℕ
  pub endpoint_counter : ℕ
  pub tid_counter : ℕ
  pub default_slice_ticks : ℕ

-- The page tables to load, if they change, the kernel stack, whether the GS base is prepared for
-- user space, and the threads whose registers are swapped.
pub record Switch : Type 0 where
  pub load_cr3 : Option ℕ
  pub kernel_stack : ℕ
  pub user_gs : Bool
  pub prev : ℕ
  pub next : ℕ

unfoldable pub find_cpu_state : ℕ → List CpuState → Option CpuState
find_cpu_state lapic [] = none
find_cpu_state lapic (c ∷ cs) =
    let rest = find_cpu_state lapic cs in if c.lapic_id == lapic then some c else rest

-- A write to a processor's state, which no other processor shares.
unfoldable pub set_cpu : CpuState → List CpuState → List CpuState
set_cpu c [] = []
set_cpu c (d ∷ cs) =
    let rest = set_cpu c cs in if d.lapic_id == c.lapic_id then c ∷ cs else d ∷ rest

abbrev pub set_state : ℕ → ThreadState → Threads → Threads
set_state t st ts a = if a == t then record (ts a) { tstate = st } else ts a

abbrev pub is_user : Threads → ℕ → Bool
is_user ts t = (ts t).context.cs == user_code_selector

-- The running user thread goes back to the queue.
unfoldable pub requeue_current : Threads → CpuState → Threads × CpuState
requeue_current ts c =
    let prev : ℕ = c.current_thread in
    let ts' : Threads = set_state prev ThreadState.ready ts in
    if not (prev == 0)
      && is_running ((ts prev).tstate)
      && not (prev == c.idle_thread)
      && is_user ts prev
    then (ts', enqueue_ready ts' (record c { handoff_thread = prev }) prev)
    else (ts, c)

-- `skipped` has room for sixteen threads.
abbrev pub skip : ℕ → List ℕ → List ℕ
skip t skipped = if ltb (length skipped) 16 then skipped ++ t ∷ [] else skipped

-- for (;;): the first user thread of the queue, 0 if there is none; and the threads skipped.
unfoldable pub drain : ℕ → Threads → List ℕ → CpuState → ℕ × List ℕ × CpuState
drain zero ts skipped c = (0, skipped, c)
drain (suc fuel) ts skipped c =
    let (t, c') = dequeue_ready ts c in
    let rest = drain fuel ts (skip t skipped) c' in
    if t == 0 then (0, skipped, c') else if is_user ts t then (t, skipped, c') else rest

unfoldable pub enqueue_all : Threads → List ℕ → CpuState → CpuState
enqueue_all ts [] c = c
enqueue_all ts (t ∷ skipped) c = enqueue_all ts skipped (enqueue_ready ts c t)

abbrev pub first_or : ℕ → List ℕ → ℕ
first_or next [] = next
first_or next (t ∷ skipped) = if next == 0 then t else next

-- The loop, the skipped threads put back, and the first of them if there is no user thread.
unfoldable pub pick_queued : Threads → List ℕ → CpuState → ℕ × List ℕ × CpuState
pick_queued ts skipped c =
    let (next, all, c') = drain (length c.ready_threads + 1) ts skipped c in
    (first_or next all, all, enqueue_all ts all c')

-- The last slot whose thread may be stolen, and the slots without it.
unfoldable pub steal_slot : (ℕ → Bool) → List ℕ → ℕ × List ℕ
steal_slot stealable [] = (0, [])
steal_slot stealable (t ∷ slots) =
    let (stolen, rest) = steal_slot stealable slots in
    if not (stolen == 0)
    then (stolen, t ∷ rest)
    else if stealable t
    then (t, 0 ∷ slots)
    else (0, t ∷ slots)

abbrev pub is_stealable : Threads → CpuState → ℕ → Bool
is_stealable ts v t =
    not (t == 0)
    && not (t == v.idle_thread)
    && not (t == v.handoff_thread)
    && is_ready ((ts t).tstate)

unfoldable pub steal_from : Threads → CpuState → ℕ × CpuState
unfolding steal_slot
steal_from ts v =
    let (stolen, slots) = steal_slot (is_stealable ts v) (drop v.ready_head v.ready_threads) in
    (
      stolen,
      compact_ready_queue_if_needed
          (record v { ready_threads = take v.ready_head v.ready_threads ++ slots }),
    )

-- The walk over the other processors that are online.
unfoldable pub steal_loop : Threads → ℕ → List CpuState → ℕ × List CpuState
unfolding steal_from
steal_loop ts self [] = (0, [])
steal_loop ts self (v ∷ vs) =
    let (later, vs') = steal_loop ts self vs in
    let (stolen, v') = steal_from ts v in
    if (v.lapic_id == self) || not v.online
    then (later, v ∷ vs')
    else if stolen == 0
    then (later, v' ∷ vs')
    else (stolen, v' ∷ vs)

abbrev pub rehome : ℕ → ℕ → Threads → Threads
rehome lapic t ts a =
    if a == t then record (ts a) { home_lapic_id = lapic; last_lapic_id = lapic } else ts a

unfoldable pub steal_thread_for_cpu : ℕ → Scheduler → ℕ × Scheduler
unfolding steal_loop
steal_thread_for_cpu self s =
    let (stolen, cpus) = steal_loop s.threads self s.cpus in
    (
      stolen,
      record s {
        cpus = cpus;
        threads = if stolen == 0 then s.threads else rehome self stolen s.threads;
      },
    )

-- `next` becomes the running thread of the processor.
abbrev pub run_thread : ℕ → ℕ → ℕ → Threads → Threads
run_thread slice lapic next ts a =
    if a == next
    then record (ts a) {
      tstate = ThreadState.running;
      slice_remaining = slice;
      last_lapic_id = lapic;
    }
    else ts a

abbrev pub switch_to : ℕ → ℕ → ℕ → Scheduler → Switch
switch_to cr3 prev next s =
    let t = s.threads next in
    let root : ℕ = (s.processes t.process).cr3 in
    record {
      load_cr3 = if not (t.process == 0) && not (root == cr3) then some root else none;
      kernel_stack = t.kernel_stack_base + t.kernel_stack_size;
      user_gs = is_user s.threads next;
      prev = prev;
      next = next;
    }

-- The last part of `schedule`: nothing is switched if the chosen thread runs already.
unfoldable pub enter : ℕ → ℕ → CpuState → Scheduler → Scheduler × Option Switch
unfolding set_cpu
enter cr3 next c s =
    if c.current_thread == next
    then (record s { cpus = set_cpu (record c { in_schedule = false }) s.cpus }, none)
    else let entered : Scheduler = record s {
      cpus = set_cpu (record c { current_thread = next; in_schedule = false }) s.cpus;
      threads = run_thread s.default_slice_ticks c.lapic_id next s.threads;
    } in
      (entered, some (switch_to cr3 c.current_thread next entered))

-- From the second lock on: the queue once more if nothing was found, and then the idle thread.
unfoldable pub settle : ℕ → ℕ → List ℕ → CpuState → Scheduler → Scheduler × Option Switch
settle cr3 next skipped c s =
    let (again, all, c') = pick_queued s.threads skipped c in
    if not (next == 0)
    then enter cr3 next c s
    else enter cr3 (if again == 0 then c'.idle_thread else again) c' s

abbrev pub resettle : ℕ → List ℕ → CpuState → ℕ × Scheduler → Scheduler × Option Switch
resettle cr3 skipped c (stolen, s) = settle cr3 stolen skipped c s

-- What follows the first lock: another processor's thread if the queue had none.
unfoldable pub after_queue : ℕ → ℕ → List ℕ → CpuState → Scheduler → Scheduler × Option Switch
after_queue cr3 next skipped c s =
    if next == 0
    then resettle cr3 skipped c (steal_thread_for_cpu c.lapic_id s)
    else settle cr3 next skipped c s

-- `schedule` on the processor `c`, the current one; `cr3` is the page table that is loaded.
unfoldable pub schedule_on : ℕ → CpuState → Scheduler → Scheduler × Option Switch
schedule_on cr3 c0 s =
    let c = clear_handoff_if_current c0 in
    let (ts, c1) = requeue_current s.threads (record c { in_schedule = true }) in
    let (next, skipped, c2) = pick_queued ts [] c1 in
    let picked : Scheduler = record s { threads = ts; cpus = set_cpu c2 s.cpus } in
    if c.in_schedule
    then (record s { cpus = set_cpu c s.cpus }, none)
    else after_queue cr3 next skipped c2 picked

unfoldable pub schedule : ℕ → ℕ → Scheduler → Scheduler × Option Switch
schedule lapic cr3 s = elim (find_cpu_state lapic s.cpus) [
  | none ↦ (s, none)
  | some c ↦ schedule_on cr3 c s
]
