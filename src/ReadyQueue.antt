-- ===== src/ReadyQueue.antt =====
-- The ready queue of a processor in Katline/Arch/Scheduler.cppm: an array that is filled at its end
-- and read at `ready_head`, with 0 for a slot that another processor emptied.
pub mod Fifo
pub mod Tests
use dhos_reborn.Base.{
  ℕ, zero, suc, ◌+◌, ◌*◌, Bool, true, false, not, ◌&&◌, ◌||◌, List, [], ◌∷◌, ◌++◌, ◌==◌, ltb,
  if◌then◌else◌, length, drop, contains,
}
use dhos_reborn.Process.{Thread, ThreadState}

pub record CpuState : Type 0 where
  pub lapic_id : ℕ
  pub current_thread : ℕ
  pub idle_thread : ℕ
  pub handoff_thread : ℕ
  pub in_schedule : Bool
  pub online : Bool
  pub ready_threads : List ℕ
  pub ready_head : ℕ

abbrev pub Threads : Type 0
Threads = ℕ → Thread

abbrev pub is_ready : ThreadState → Bool
is_ready ThreadState.ready = true
is_ready _ = false

abbrev pub is_running : ThreadState → Bool
is_running ThreadState.running = true
is_running _ = false

unfoldable pub is_in_ready_queue : CpuState → ℕ → Bool
is_in_ready_queue c t = not (t == 0) && contains t (drop c.ready_head c.ready_threads)

unfoldable pub enqueue_ready : Threads → CpuState → ℕ → CpuState
unfolding is_in_ready_queue
enqueue_ready ts c t =
    if (t == 0) || (t == c.idle_thread)
    then c
    else if not (is_ready ((ts t).tstate))
    then c
    else if is_in_ready_queue c t
    then c
    else record c { ready_threads = c.ready_threads ++ t ∷ [] }

-- A slot from which a thread may be taken.
abbrev pub eligible : Threads → ℕ → ℕ → Bool
eligible ts idle t = not (t == 0) && not (t == idle) && is_ready ((ts t).tstate)

-- The slots that hold a thread.
unfoldable pub nonnull : List ℕ → List ℕ
nonnull [] = []
nonnull (t ∷ xs) = let rest = nonnull xs in if t == 0 then rest else t ∷ rest

unfoldable pub compact_ready_queue_if_needed : CpuState → CpuState
unfolding nonnull
compact_ready_queue_if_needed c =
    if c.ready_head == 0
    then c
    else if ltb c.ready_head 64 && ltb (c.ready_head * 2) (length c.ready_threads)
    then c
    else record c { ready_threads = nonnull (drop c.ready_head c.ready_threads); ready_head = 0 }

-- The `while` loop of `dequeue_ready` over the slots from the head on: the thread that it takes, 0
-- if there is none, and the head behind it.
unfoldable pub dequeue_scan : Threads → ℕ → List ℕ → ℕ → ℕ × ℕ
dequeue_scan ts idle [] head = (0, head)
dequeue_scan ts idle (t ∷ slots) head =
    let rest = dequeue_scan ts idle slots (head + 1) in
    if eligible ts idle t then (t, head + 1) else rest

unfoldable pub dequeue_ready : Threads → CpuState → ℕ × CpuState
unfolding compact_ready_queue_if_needed dequeue_scan
dequeue_ready ts c =
    let (t, head) =
      dequeue_scan ts c.idle_thread (drop c.ready_head c.ready_threads) c.ready_head in
    (t, compact_ready_queue_if_needed (record c { ready_head = head }))

unfoldable pub clear_handoff_if_current : CpuState → CpuState
clear_handoff_if_current c =
    if c.current_thread == 0
    then c
    else if c.handoff_thread == c.current_thread
    then record c { handoff_thread = 0 }
    else c
