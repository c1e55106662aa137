-- ===== src/Lifecycle/Tests.antt =====
-- Runs of the life cycle of threads of Katline/Arch/Scheduler.cppm.
use dhos_reborn.Base.{
  ◌≡◌, sym, ap, ◌∙◌, Option, none, some, Bool-cases, inl, inr, refl, [], ◌∷◌, ◌==◌, if◌then◌else◌,
  arith, true,
}
use dhos_reborn.Process.{ThreadState}
use dhos_reborn.ReadyQueue.{Threads, CpuState}
use dhos_reborn.ReadyQueue.Tests.{thread, cpu}
use dhos_reborn.Scheduler.{Scheduler, find_cpu_state}
use dhos_reborn.Scheduler.Tests.{scheduler}
use dhos_reborn.Lifecycle.{create_process, unblock}
use dhos_reborn.Lifecycle.Waking.{Placed, CanTake, unblock-Placed}

-- Thread 7 is blocked, thread 6 is created; processor 0 is their home.
abbrev some_wait : Threads
some_wait t =
    if t == 7
    then thread ThreadState.blocked
    else if t == 6
    then thread ThreadState.created
    else thread ThreadState.ready

abbrev before : Scheduler
before = record scheduler { cpus = cpu ∷ []; threads = some_wait }

abbrev cpu_or : CpuState → Option CpuState → CpuState
cpu_or other none = other
cpu_or other (some c) = c

before-CanTake : CanTake 7 before
unfolding find_cpu_state
before-CanTake l c found = elim (Bool-cases (0 == l)) [
  | inl e ↦
      let only : find_cpu_state l before.cpus ≡ some cpu = rw e refl in
      let same : c ≡ cpu = ap (cpu_or c) (sym found ∙ only) in
      rw same ((λ z. omega arith), omega arith)
  | inr e ↦
      let other : find_cpu_state l before.cpus ≡ none = rw e refl in
      let never : some c ≡ none = sym found ∙ other in absurd cc
]

unblock-Placed_example : Placed 0 7 before (unblock 0 7 before)
unfolding find_cpu_state
unblock-Placed_example = unblock-Placed 0 7 before cpu (λ e. omega arith) refl refl before-CanTake

-- Process 10 has endpoint 1, and the next endpoint is 2.
abbrev with_one : Scheduler
with_one = record before { process_list = 10 ∷ []; endpoint_counter = 2 }

abbrev with_two : Scheduler
with_two = (create_process 20 true 10 4096 with_one).1
