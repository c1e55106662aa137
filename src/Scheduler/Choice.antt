-- ===== src/Scheduler/Choice.antt =====
-- Katline/Arch/Scheduler.cppm: which thread the `for (;;)` loop of `schedule` and of
-- `on_timer_interrupt` takes from the ready queue.
use mathlib.Core.Path.{subst, sym}
use dhos_reborn.Base.{
  ℕ, zero, suc, ◌<◌, ◌≡◌, refl, ◌≢◌, inl, inr, false, ◌&&◌, List, [], ◌∷◌, ◌==◌, if◌then◌else◌,
  length, drop, arith, Bool-cases,
}
use dhos_reborn.ReadyQueue.{
  CpuState, Threads, eligible, dequeue_ready, dequeue_scan, compact_ready_queue_if_needed,
}
use dhos_reborn.ReadyQueue.Fifo.{pending, InBounds, take_eligible, pending-dequeue}
use dhos_reborn.Scheduler.{drain, skip, is_user}

-- The first thread of a queue that may run and is a user thread, 0 if there is none.
unfoldable pub first_user : Threads → ℕ → List ℕ → ℕ
first_user ts idle [] = 0
first_user ts idle (t ∷ xs) =
    let rest = first_user ts idle xs in if eligible ts idle t && is_user ts t then t else rest

-- What `first_user` finds, from the first eligible thread and what is behind it.
abbrev AfterTake : Threads → ℕ → List ℕ → ℕ × List ℕ → Type 0
AfterTake ts idle xs (t, rest) =
    (first_user ts idle xs
      ≡ (if t == 0 then 0 else if is_user ts t then t else first_user ts idle rest))
    × (t ≢ 0 → length rest < length xs)

take_eligible-AfterTake :
    (ts : Threads) (idle : ℕ) (xs : List ℕ) → AfterTake ts idle xs (take_eligible ts idle xs)
unfolding take_eligible first_user
take_eligible-AfterTake ts idle [] = (refl, λ n. absurd (n refl))
take_eligible-AfterTake ts idle (t ∷ xs) =
    let (e, l) = take_eligible-AfterTake ts idle xs in
    elim (Bool-cases (eligible ts idle t)) [
      | inl y ↦ let nz : (t == 0) ≡ false = ground arith in rw (y, nz) (refl, λ n. omega arith)
      | inr n ↦ rw n (e, λ m. let lt = l m in omega arith)
    ]

compact-idle : (c : CpuState) → (compact_ready_queue_if_needed c).idle_thread ≡ c.idle_thread
unfolding compact_ready_queue_if_needed
compact-idle c = ground arith

dequeue-idle : (ts : Threads) (c : CpuState) → (dequeue_ready ts c).1.idle_thread ≡ c.idle_thread
unfolding dequeue_ready
dequeue-idle ts c = compact-idle (record c {
  ready_head = (dequeue_scan ts c.idle_thread (drop c.ready_head c.ready_threads) c.ready_head).1;
})

-- Given as many rounds as there are threads in the queue and one more, the loop takes the first
-- ready user thread of the queue that is not the idle thread, whatever kernel threads it skips;
-- it answers 0 when there is none.
pub drain-first :
    (fuel : ℕ) (ts : Threads) (skipped : List ℕ) (c : CpuState)
    → InBounds c
    → length (pending c) < fuel
    → (drain fuel ts skipped c).0 ≡ first_user ts c.idle_thread (pending c)
unfolding drain
drain-first zero ts skipped c h le = absurd (omega arith)
drain-first (suc fuel) ts skipped c h le =
    let (e, h') = pending-dequeue ts c h in
    let t : ℕ = (dequeue_ready ts c).0 in
    let c' : CpuState = (dequeue_ready ts c).1 in
    let (f, l) =
      subst (AfterTake ts c.idle_thread (pending c)) (sym e)
        (take_eligible-AfterTake ts c.idle_thread (pending c)) in
    elim (Bool-cases (t == 0)) [
      | inl z ↦ ground (arith, f)
      | inr nz ↦
          let lt : length (pending c') < length (pending c) = l (λ z. ground arith) in
          let rest = drain-first fuel ts (skip t skipped) c' h' (omega arith) in
          rw (f, nz) (ground (arith, rest, dequeue-idle ts c))
    ]
