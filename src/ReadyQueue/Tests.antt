-- ===== src/ReadyQueue/Tests.antt =====
-- Runs of the ready queue of Katline/Arch/Scheduler.cppm on small arrays.
use dhos_reborn.Base.{ℕ, ◌≡◌, refl, List, [], ◌∷◌, ◌==◌, if◌then◌else◌, arith, false, true}
use dhos_reborn.Process.{CpuContext, Thread, ThreadState}
use dhos_reborn.ReadyQueue.{CpuState, Threads, enqueue_ready, dequeue_ready, nonnull, dequeue_scan}
use dhos_reborn.ReadyQueue.Fifo.{pending, InBounds, take_eligible, pending-dequeue}

abbrev pub context : CpuContext
context = record {
  rax = 0;
  rbx = 0;
  rcx = 0;
  rdx = 0;
  rsi = 0;
  rdi = 0;
  rbp = 0;
  rsp = 0;
  r8 = 0;
  r9 = 0;
  r10 = 0;
  r11 = 0;
  r12 = 0;
  r13 = 0;
  r14 = 0;
  r15 = 0;
  rip = 0;
  rflags = 0;
  cs = 0x23;
  ss = 0;
  ds = 0;
  es = 0;
  fs = 0;
  gs = 0;
}

abbrev pub thread : ThreadState → Thread
thread st = record {
  tid = 1;
  tstate = st;
  handle_count = 0;
  entry_point = 0;
  context = context;
  slice_remaining = 5;
  home_lapic_id = 0;
  last_lapic_id = 0;
  kernel_stack_base = 4096;
  kernel_stack_size = 4096;
  stack_is_heap_allocated = true;
  process = 0;
  fs_base = 0;
  gs_base = 0;
}

-- Thread 7 is blocked, all others are ready.
abbrev pub threads : Threads
threads t = if t == 7 then thread ThreadState.blocked else thread ThreadState.ready

-- Thread 3 was taken before, slot 2 was emptied by another processor.
abbrev pub cpu : CpuState
cpu = record {
  lapic_id = 0;
  current_thread = 9;
  idle_thread = 1;
  handoff_thread = 0;
  in_schedule = false;
  online = true;
  ready_threads = 3 ∷ 7 ∷ 0 ∷ 4 ∷ 5 ∷ [];
  ready_head = 1;
}

enqueued : pending (enqueue_ready threads cpu 6) ≡ 7 ∷ 4 ∷ 5 ∷ 6 ∷ []
unfolding enqueue_ready nonnull
enqueued = refl

taken : (dequeue_ready threads cpu).0 ≡ 4
unfolding dequeue_ready dequeue_scan
taken = refl

pending-dequeue_example :
    (◌≡◌ {A = ℕ × List ℕ}
      ((dequeue_ready threads cpu).0, pending (dequeue_ready threads cpu).1)
      (4, 5 ∷ []))
    × InBounds (dequeue_ready threads cpu).1
unfolding nonnull take_eligible
pending-dequeue_example = pending-dequeue threads cpu (omega arith)
