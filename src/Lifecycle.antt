-- ===== src/Lifecycle.antt =====
-- Katline/Arch/Scheduler.cppm: processors that come online, processes, and threads that start,
-- block, wake up and exit. An address that `new` answers is an argument.
pub mod Endpoints
pub mod UserThread
pub mod Waking
mod Tests
use dhos_reborn.Base.{
  ◌%◌, ◌^◌, ℕ, ◌+◌, ◌-◌, ◌*◌, ◌/◌, Bool, true, false, not, ◌&&◌, ◌||◌, Option, none, some, List, [],
  ◌∷◌, ◌++◌, ◌==◌, if◌then◌else◌,
}
use dhos_reborn.Process.{CpuContext, Process, ProcessState, Thread, ThreadState}
use dhos_reborn.ReadyQueue.{
  CpuState, Threads, enqueue_ready, dequeue_ready, clear_handoff_if_current,
}
use dhos_reborn.Scheduler.{
  Scheduler, Switch, find_cpu_state, set_cpu, set_state, schedule, steal_thread_for_cpu,
  user_code_selector,
}

abbrev pub new_cpu_state : ℕ → CpuState
new_cpu_state lapic = record {
  lapic_id = lapic;
  current_thread = 0;
  idle_thread = 0;
  handoff_thread = 0;
  in_schedule = false;
  online = false;
  ready_threads = [];
  ready_head = 0;
}

unfoldable pub get_or_create_cpu_state : ℕ → List CpuState → CpuState × List CpuState
get_or_create_cpu_state lapic cpus = elim (find_cpu_state lapic cpus) [
  | none ↦ (new_cpu_state lapic, cpus ++ new_cpu_state lapic ∷ [])
  | some c ↦ (c, cpus)
]

unfoldable pub online_cpu_count : List CpuState → ℕ
online_cpu_count [] = 0
online_cpu_count (c ∷ cs) = let rest = online_cpu_count cs in if c.online then rest + 1 else rest

abbrev pub is_created : ThreadState → Bool
is_created ThreadState.created = true
is_created _ = false

abbrev pub is_blocked : ThreadState → Bool
is_blocked ThreadState.blocked = true
is_blocked _ = false

-- The processor on whose queue a thread with the home `home` is put.
unfoldable pub target_cpu : ℕ → ℕ → List CpuState → Option CpuState
target_cpu home lapic cpus = elim (find_cpu_state home cpus) [
  | none ↦ find_cpu_state lapic cpus
  | some c ↦ if c.online then some c else find_cpu_state lapic cpus
]

-- The thread is ready even when there is no processor to queue it on.
unfoldable pub make_ready : ℕ → ℕ → Scheduler → Bool × Scheduler
make_ready lapic t s =
    let ts : Threads = set_state t ThreadState.ready s.threads in
    elim (target_cpu ((s.threads t).home_lapic_id) lapic s.cpus) [
      | none ↦ (false, record s { threads = ts })
      | some c ↦ (true, record s { threads = ts; cpus = set_cpu (enqueue_ready ts c t) s.cpus })
    ]

unfoldable pub start_thread : ℕ → ℕ → Scheduler → Bool × Scheduler
start_thread lapic t s =
    if (t == 0) || not (is_created ((s.threads t).tstate)) then (false, s) else make_ready lapic t s

unfoldable pub unblock : ℕ → ℕ → Scheduler → Scheduler
unblock lapic t s =
    let (woken, s') = make_ready lapic t s in
    if (t == 0) || not (is_blocked ((s.threads t).tstate)) then s else s'

unfoldable pub block_current : ℕ → ℕ → Scheduler → Scheduler × Option Switch
block_current lapic cr3 s = elim (find_cpu_state lapic s.cpus) [
  | none ↦ (s, none)
  | some c ↦ schedule lapic cr3 (
      if c.current_thread == 0
      then s
      else record s { threads = set_state c.current_thread ThreadState.blocked s.threads })
]

unfoldable pub current_thread : ℕ → Scheduler → ℕ × Scheduler
current_thread lapic s = elim (find_cpu_state lapic s.cpus) [
  | none ↦ (0, s)
  | some c ↦ (c.current_thread, record s { cpus = set_cpu (clear_handoff_if_current c) s.cpus })
]

unfoldable pub pick_next_thread : ℕ → Scheduler → ℕ × Scheduler
pick_next_thread lapic s = elim (find_cpu_state lapic s.cpus) [
  | none ↦ (0, s)
  | some c ↦
      let (local_next, c') = dequeue_ready s.threads c in
      let s' : Scheduler = record s { cpus = set_cpu c' s.cpus } in
      if local_next == 0 then steal_thread_for_cpu lapic s' else (local_next, s')
]

-- What is left once the thread is dead: the processor halts for ever after that if `schedule` comes
-- back, and at once (`none`) if the processor is unknown or runs its idle thread.
unfoldable pub thread_exit : ℕ → ℕ → Scheduler → Option (Scheduler × Option Switch)
thread_exit lapic cr3 s = elim (find_cpu_state lapic s.cpus) [
  | none ↦ none
  | some c ↦
      let t : ℕ = c.current_thread in
      let dead : Scheduler = record s {
        threads = set_state t ThreadState.dead s.threads;
        zombies = s.zombies ++ t ∷ [];
      } in
      if t == c.idle_thread
      then none
      else if t == 0
      then some (schedule lapic cr3 s)
      else some (schedule lapic cr3 dead)
]

abbrev new_process : ℕ → ℕ → ℕ → ℕ → Process
new_process parent pid endpoint cr3 = record {
  parent = parent;
  pid = pid;
  name = [];
  handle_count = 0;
  state = ProcessState.running;
  capabilities = 0;
  threads = [];
  mappings = [];
  endpoint_id = endpoint;
  cr3 = cr3;
}

-- `p` is the address of the new process; `reserved` tells whether its two reservations succeed.
unfoldable pub create_process : ℕ → Bool → ℕ → ℕ → Scheduler → ℕ × Scheduler
create_process p reserved parent cr3 s =
    let pid : ℕ = (s.pid_counter + 1) % 2 ^ 64 in
    let created : Process = new_process parent pid s.endpoint_counter cr3 in
    if not reserved then (0, s) else (
      p,
      record s {
        pid_counter = pid;
        endpoint_counter = (s.endpoint_counter + 1) % 2 ^ 64;
        processes = λ a. if a == p then created else s.processes a;
        process_list = s.process_list ++ p ∷ [];
      },
    )

unfoldable pub process_by_endpoint : ℕ → (ℕ → Process) → List ℕ → ℕ
process_by_endpoint endpoint ps [] = 0
process_by_endpoint endpoint ps (p ∷ list) =
    let rest = process_by_endpoint endpoint ps list in
    if (ps p).endpoint_id == endpoint then p else rest
