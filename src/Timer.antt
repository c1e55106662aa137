-- ===== src/Timer.antt =====
-- Katline/Arch/Scheduler.cppm: the timer. `on_timer_tick` counts a slice down; the interrupt also
-- swaps the registers of the interrupted thread with those of the next one.
pub mod Registers
mod Tests
use Prim.Native.Nat.{bit_and}
use dhos_reborn.Base.{
  ℕ, ◌-◌, Bool, true, false, not, ◌&&◌, ◌||◌, Option, none, some, List, [], ◌∷◌, ◌==◌,
  if◌then◌else◌, ltb,
}
use dhos_reborn.Process.{CpuContext, Thread, ThreadState}
use dhos_reborn.ReadyQueue.{CpuState, Threads, is_running, clear_handoff_if_current}
use dhos_reborn.Scheduler.{
  Scheduler, Switch, find_cpu_state, set_cpu, schedule, requeue_current, pick_queued, run_thread,
  switch_to,
}

pub record IrqSavedRegisters : Type 0 where
  pub rax : ℕ
  pub rbx : ℕ
  pub rcx : ℕ
  pub rdx : ℕ
  pub rsi : ℕ
  pub rdi : ℕ
  pub rbp : ℕ
  pub r8 : ℕ
  pub r9 : ℕ
  pub r10 : ℕ
  pub r11 : ℕ
  pub r12 : ℕ
  pub r13 : ℕ
  pub r14 : ℕ
  pub r15 : ℕ

pub record IrqStackFrame : Type 0 where
  pub rip : ℕ
  pub cs : ℕ
  pub rflags : ℕ
  pub rsp : ℕ
  pub ss : ℕ

-- `prev->context` takes the interrupted registers; its data segments stay.
unfoldable pub save_context : IrqSavedRegisters → IrqStackFrame → CpuContext → CpuContext
save_context regs frame c = record c {
  rax = regs.rax;
  rbx = regs.rbx;
  rcx = regs.rcx;
  rdx = regs.rdx;
  rsi = regs.rsi;
  rdi = regs.rdi;
  rbp = regs.rbp;
  rsp = frame.rsp;
  r8 = regs.r8;
  r9 = regs.r9;
  r10 = regs.r10;
  r11 = regs.r11;
  r12 = regs.r12;
  r13 = regs.r13;
  r14 = regs.r14;
  r15 = regs.r15;
  rip = frame.rip;
  rflags = frame.rflags;
  cs = frame.cs;
  ss = frame.ss;
}

unfoldable pub load_registers : CpuContext → IrqSavedRegisters
load_registers c = record {
  rax = c.rax;
  rbx = c.rbx;
  rcx = c.rcx;
  rdx = c.rdx;
  rsi = c.rsi;
  rdi = c.rdi;
  rbp = c.rbp;
  r8 = c.r8;
  r9 = c.r9;
  r10 = c.r10;
  r11 = c.r11;
  r12 = c.r12;
  r13 = c.r13;
  r14 = c.r14;
  r15 = c.r15;
}

unfoldable pub load_frame : CpuContext → IrqStackFrame
load_frame c = record { rip = c.rip; cs = c.cs; rflags = c.rflags; rsp = c.rsp; ss = c.ss }

abbrev pub set_slice : ℕ → ℕ → Threads → Threads
set_slice t n ts a = if a == t then record (ts a) { slice_remaining = n } else ts a

abbrev pub set_context : ℕ → CpuContext → Threads → Threads
set_context t c ts a = if a == t then record (ts a) { context = c } else ts a

-- The slice that is left after a tick: none for the idle thread.
abbrev pub ticked : CpuState → Thread → ℕ
ticked c t = if c.current_thread == c.idle_thread then 0 else t.slice_remaining - 1

abbrev pub has_running : CpuState → Threads → Bool
has_running c ts = not (c.current_thread == 0) && is_running ((ts c.current_thread).tstate)

-- `reap_zombies` keeps every zombie: only null pointers are dropped, and none is ever added.
unfoldable pub reap_zombies : Scheduler → Scheduler
reap_zombies s = record s { zombies = keep s.zombies }
  where
    keep : List ℕ → List ℕ
    keep [] = []
    keep (t ∷ zs) = let rest = keep zs in if t == 0 then rest else t ∷ rest

abbrev tick_on : ℕ → ℕ → CpuState → Scheduler → Scheduler × Option Switch
tick_on lapic cr3 c s =
    let left : ℕ = ticked c (s.threads c.current_thread) in
    let counted : Scheduler = record s { threads = set_slice c.current_thread left s.threads } in
    let scheduled = schedule lapic cr3 counted in
    if not (has_running c s.threads)
    then (s, none)
    else if left == 0
    then scheduled
    else (counted, none)

unfoldable pub on_timer_tick : ℕ → ℕ → Scheduler → Scheduler × Option Switch
unfolding reap_zombies
on_timer_tick lapic cr3 s0 =
    let s = reap_zombies s0 in
    elim (find_cpu_state lapic s.cpus) [
      | none ↦ (s, none)
      | some c0 ↦
          let c = clear_handoff_if_current c0 in
          tick_on lapic cr3 c (record s { cpus = set_cpu c s.cpus })
    ]

-- What an interrupt leaves: the state, the registers to return with, and what the hardware is told.
pub record Returned : Type 0 where
  pub state : Scheduler
  pub regs : IrqSavedRegisters
  pub frame : IrqStackFrame
  pub switched : Option Switch

-- The swap of the registers of `prev` and `next`.
unfoldable pub swap_registers : ℕ → ℕ → ℕ → IrqSavedRegisters → IrqStackFrame → Scheduler → Returned
unfolding save_context load_registers load_frame
swap_registers cr3 prev next regs frame s =
    let saved : Scheduler = record s {
      threads = set_context prev (save_context regs frame ((s.threads prev).context)) s.threads;
    } in
    record {
      state = saved;
      regs = load_registers ((saved.threads next).context);
      frame = load_frame ((saved.threads next).context);
      switched = some (switch_to cr3 prev next saved);
    }

abbrev back : Scheduler → IrqSavedRegisters → IrqStackFrame → Returned
back s regs frame = record { state = s; regs = regs; frame = frame; switched = none }

-- The choice of the next thread under the lock: `prev` itself if the queue has none.
unfoldable pub preempt : ℕ → CpuState → IrqSavedRegisters → IrqStackFrame → Scheduler → Returned
unfolding requeue_current pick_queued swap_registers set_cpu
preempt cr3 c regs frame s =
    let (ts, c1) = requeue_current s.threads (record c { in_schedule = true }) in
    let (picked, skipped, c2) = pick_queued ts [] c1 in
    let prev : ℕ = c.current_thread in
    let next : ℕ = if picked == 0 then prev else picked in
    let entered : Scheduler = record s {
      threads = run_thread s.default_slice_ticks c.lapic_id next ts;
      cpus = set_cpu (record c2 { current_thread = next; in_schedule = false }) s.cpus;
    } in
    if c.in_schedule
    then back s regs frame
    else if prev == next
    then back entered regs frame
    else swap_registers cr3 prev next regs frame entered

abbrev interrupt_on : ℕ → CpuState → IrqSavedRegisters → IrqStackFrame → Scheduler → Returned
interrupt_on cr3 c regs frame s =
    let t : ℕ = c.current_thread in
    let left : ℕ = ticked c (s.threads t) in
    let counted : Scheduler = record s { threads = set_slice t left s.threads } in
    let renewed : Scheduler = record s { threads = set_slice t s.default_slice_ticks s.threads } in
    if not (has_running c s.threads)
    then back s regs frame
    else if not (left == 0)
    then back counted regs frame
    else if not ((t == c.idle_thread) || (bit_and frame.cs 3 == 3))
    then back renewed regs frame
    else preempt cr3 c regs frame counted

unfoldable pub on_timer_interrupt : ℕ → ℕ → IrqSavedRegisters → IrqStackFrame → Scheduler → Returned
unfolding preempt reap_zombies
on_timer_interrupt lapic cr3 regs frame s0 =
    let s = reap_zombies s0 in
    elim (find_cpu_state lapic s.cpus) [
      | none ↦ back s regs frame
      | some c0 ↦
          let c = clear_handoff_if_current c0 in
          interrupt_on cr3 c regs frame (record s { cpus = set_cpu c s.cpus })
    ]
