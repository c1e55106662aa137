-- ===== src/Scheduler/Tests.antt =====
-- Runs of `schedule` of Katline/Arch/Scheduler.cppm with one and with two processors.
use dhos_reborn.Base.{◌≡◌, refl, [], ◌∷◌, ◌==◌, if◌then◌else◌, arith, none, some, true}
use dhos_reborn.Process.{Process, ProcessState, ThreadState}
use dhos_reborn.ReadyQueue.{
  CpuState, Threads, enqueue_ready, dequeue_ready, dequeue_scan, nonnull, clear_handoff_if_current,
}
use dhos_reborn.ReadyQueue.Fifo.{pending, InBounds}
use dhos_reborn.ReadyQueue.Tests.{context, thread, threads, cpu}
use dhos_reborn.Scheduler.{
  Scheduler, find_cpu_state, requeue_current, drain, enqueue_all, pick_queued, steal_from, enter,
  settle, after_queue, schedule_on, schedule,
}
use dhos_reborn.Scheduler.Choice.{first_user, drain-first}
use dhos_reborn.Scheduler.Stealing.{take_last, pending-steal_from}
use dhos_reborn.Scheduler.Switching.{Runs, schedule-Runs}

-- Thread 2 is a kernel thread, thread 9 runs.
abbrev mixed : Threads
mixed t =
    if t == 2
    then record (thread ThreadState.ready) { context = record context { cs = 0x8 } }
    else if t == 9
    then thread ThreadState.running
    else threads t

abbrev pub process : Process
process = record {
  parent = 0;
  pid = 1;
  name = [];
  handle_count = 0;
  state = ProcessState.running;
  capabilities = 0;
  threads = [];
  mappings = [];
  endpoint_id = 1;
  cr3 = 4096;
}

abbrev waiting : CpuState
waiting = record cpu { ready_threads = 3 ∷ 7 ∷ 2 ∷ 4 ∷ 5 ∷ []; online = true }

abbrev pub scheduler : Scheduler
scheduler = record {
  cpus = waiting ∷ [];
  threads = mixed;
  processes = λ p. process;
  process_list = [];
  zombies = [];
  pid_counter = 0;
  endpoint_counter = 1;
  tid_counter = 0;
  default_slice_ticks = 1024;
}

-- Only thread 9 is there, and it runs.
abbrev lone : Scheduler
lone = record scheduler { cpus = record cpu { ready_threads = []; ready_head = 0 } ∷ [] }

switched :
    (schedule 0 4096 scheduler).1
    ≡ some (record { load_cr3 = none; kernel_stack = 8192; user_gs = true; prev = 9; next = 4 })
unfolding schedule find_cpu_state schedule_on clear_handoff_if_current requeue_current enqueue_ready
    pick_queued drain dequeue_ready dequeue_scan enqueue_all after_queue settle enter
switched = refl

-- A user thread that yields with nobody else to run goes on, yet as a ready thread that is in no queue.
lone_is_ready : ((schedule 0 4096 lone).0.threads 9).tstate ≡ ThreadState.ready
unfolding schedule find_cpu_state schedule_on clear_handoff_if_current requeue_current enqueue_ready
    pick_queued drain dequeue_ready dequeue_scan enqueue_all after_queue settle enter
lone_is_ready = refl

drain-first_example : (drain 5 mixed [] waiting).0 ≡ 4
unfolding nonnull first_user
drain-first_example = drain-first 5 mixed [] waiting (omega arith) (omega arith)

pending-steal_from_example :
    ((steal_from mixed waiting).0 ≡ 5)
    × (pending (steal_from mixed waiting).1 ≡ 7 ∷ 2 ∷ 4 ∷ [])
    × InBounds (steal_from mixed waiting).1
unfolding nonnull take_last
pending-steal_from_example = pending-steal_from mixed waiting (omega arith)

schedule-Runs_example :
    Runs 0
      (record { load_cr3 = none; kernel_stack = 8192; user_gs = true; prev = 9; next = 4 })
      (schedule 0 4096 scheduler).0
schedule-Runs_example =
    schedule-Runs 0 4096 scheduler
      (record { load_cr3 = none; kernel_stack = 8192; user_gs = true; prev = 9; next = 4 }) switched
