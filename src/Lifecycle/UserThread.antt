-- ===== src/Lifecycle/UserThread.antt =====
-- Katline/Arch/Scheduler.cppm: a user thread is made, and then started.
use mathlib.Core.Path.{subst, sym}
use dhos_reborn.Base.{
  ℕ, ◌+◌, ◌-◌, ◌%◌, ◌^◌, ◌≡◌, refl, ◌≢◌, true, false, ◌||◌, none, some, List, [], ◌∷◌, ◌++◌, ◌==◌,
  if◌then◌else◌, ==_self,
}
use dhos_reborn.Process.{CpuContext, Thread, ThreadState}
use dhos_reborn.ReadyQueue.{CpuState}
use dhos_reborn.ReadyQueue.Fifo.{InBounds}
use dhos_reborn.Scheduler.{Scheduler, find_cpu_state, user_code_selector}
use dhos_reborn.Scheduler.Switching.{find-lapic}
use dhos_reborn.Lifecycle.{target_cpu, start_thread}
use dhos_reborn.Lifecycle.Waking.{Waits, start_thread-Waits}

-- Katline/Arch/GDT.cppm
abbrev user_data_selector : ℕ
user_data_selector = 0x1b

abbrev k_kernel_stack_size : ℕ
k_kernel_stack_size = 16384

-- The registers with which a user thread begins; all others are 0.
unfoldable pub user_context : ℕ → ℕ → CpuContext
user_context function_ptr user_stack_top = record {
  rax = 0;
  rbx = 0;
  rcx = 0;
  rdx = 0;
  rsi = 0;
  rdi = 0;
  rbp = 0;
  rsp = (user_stack_top - user_stack_top % 16 + 2 ^ 64 - 8) % 2 ^ 64;
  r8 = 0;
  r9 = 0;
  r10 = 0;
  r11 = 0;
  r12 = 0;
  r13 = 0;
  r14 = 0;
  r15 = 0;
  rip = function_ptr;
  rflags = 0x202;
  cs = user_code_selector;
  ss = user_data_selector;
  ds = user_data_selector;
  es = user_data_selector;
  fs = user_data_selector;
  gs = user_data_selector;
}

abbrev user_thread : ℕ → ℕ → ℕ → ℕ → ℕ → ℕ → ℕ → Thread
user_thread tid process function_ptr user_stack_top stack slice lapic = record {
  tid = tid;
  tstate = ThreadState.created;
  handle_count = 0;
  entry_point = function_ptr;
  context = user_context function_ptr user_stack_top;
  slice_remaining = slice;
  home_lapic_id = lapic;
  last_lapic_id = lapic;
  kernel_stack_base = stack;
  kernel_stack_size = k_kernel_stack_size;
  stack_is_heap_allocated = true;
  process = process;
  fs_base = 0;
  gs_base = 0;
}

abbrev add_thread : ℕ → Thread → Scheduler → Scheduler
add_thread t made s = record s {
  tid_counter = made.tid;
  threads = λ a. if a == t then made else s.threads a;
  processes = λ a.
      let p = s.processes a in
      if a == made.process then record p { threads = p.threads ++ t ∷ [] } else p;
}

-- `t` and `stack` are the addresses of the new thread and of its kernel stack. A created thread is
-- not ready, so that `add_to_list` has no effect.
unfoldable pub make_user_thread : ℕ → ℕ → ℕ → ℕ → ℕ → ℕ → Scheduler → ℕ × Scheduler
make_user_thread lapic t stack process function_ptr user_stack_top s =
    elim (find_cpu_state lapic s.cpus) [
      | none ↦ (0, s)
      | some c ↦
          let tid : ℕ = (s.tid_counter + 1) % 2 ^ 64 in
          let made : Thread =
            user_thread tid process function_ptr user_stack_top stack s.default_slice_ticks
              c.lapic_id in
          if (process == 0) || (function_ptr == 0) || (user_stack_top == 0)
          then (0, s)
          else (t, add_thread t made s)
    ]

made-added :
    (lapic t stack process function_ptr user_stack_top : ℕ) (s : Scheduler) (c : CpuState)
    → find_cpu_state lapic s.cpus ≡ some c
    → ((process == 0) || (function_ptr == 0) || (user_stack_top == 0)) ≡ false
    → make_user_thread lapic t stack process function_ptr user_stack_top s ≡ (
      t,
      add_thread t
          (user_thread
            ((s.tid_counter + 1) % 2 ^ 64)
            process
            function_ptr
            user_stack_top
            stack
            s.default_slice_ticks
            c.lapic_id)
          s,
    )
unfolding make_user_thread
made-added lapic t stack process function_ptr user_stack_top s c f given =
    rw (make_user_thread, f, given) refl

target-online :
    (home lapic : ℕ) (cs : List CpuState) (c : CpuState)
    → find_cpu_state home cs ≡ some c
    → c.online ≡ true
    → target_cpu home lapic cs ≡ some c
unfolding target_cpu
target-online home lapic cs c f on = rw (target_cpu, f, on) refl

-- The thread that was made starts, and then waits.
abbrev pub Startable : ℕ → ℕ → ℕ × Scheduler → Type 0
Startable lapic t (made, s) =
    (made ≡ t)
    × ((start_thread lapic made s).0 ≡ true)
    × Waits t lapic (start_thread lapic made s).1

-- A user thread that is made on a processor that is online can be started there: it then waits in
-- the queue of that processor. Process, function and stack are not null; the new thread is not the
-- idle thread, and the head of the queue lies within its array.
pub make_user_thread-start :
    (lapic t stack process function_ptr user_stack_top : ℕ) (s : Scheduler) (c : CpuState)
    → find_cpu_state lapic s.cpus ≡ some c
    → c.online ≡ true
    → ((process == 0) || (function_ptr == 0) || (user_stack_top == 0)) ≡ false
    → t ≢ 0
    → t ≢ c.idle_thread
    → InBounds c
    → Startable lapic t (make_user_thread lapic t stack process function_ptr user_stack_top s)
make_user_thread-start lapic t stack process function_ptr user_stack_top s c f on given nz ni h =
    let made : Thread =
      user_thread ((s.tid_counter + 1) % 2 ^ 64) process function_ptr user_stack_top stack
        s.default_slice_ticks c.lapic_id in
    let s' : Scheduler = add_thread t made s in
    let own : c.lapic_id ≡ lapic = find-lapic lapic c s.cpus f in
    let here : find_cpu_state c.lapic_id s.cpus ≡ some c =
      subst (λ l. find_cpu_state l s.cpus ≡ some c) (sym own) f in
    let home : (s'.threads t).home_lapic_id ≡ c.lapic_id = rw (==_self t) refl in
    let target : target_cpu ((s'.threads t).home_lapic_id) lapic s'.cpus ≡ some c =
      subst (λ l. target_cpu l lapic s.cpus ≡ some c) (sym home)
        (target-online c.lapic_id lapic s.cpus c here on) in
    let started = start_thread-Waits lapic t s' c nz (rw (==_self t) refl) target ni h in
    let waits : Waits t lapic (start_thread lapic t s').1 =
      subst (λ l. Waits t l (start_thread lapic t s').1) own started.1 in
    subst (Startable lapic t)
      (sym (made-added lapic t stack process function_ptr user_stack_top s c f given))
      (refl, started.0, waits)
