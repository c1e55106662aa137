-- ===== src/ReadyQueue/Fifo.antt =====
-- The ready queue of Katline/Arch/Scheduler.cppm as a list of threads: what each of its calls does
-- to that list.
use dhos_reborn.Base.{
  length-append, ℕ, zero, suc, ◌+◌, ◌≤◌, ◌<◌, ◌≡◌, refl, ◌≢◌, inl, inr, false, not, ◌&&◌, List, [],
  ◌∷◌, ◌++◌, ◌==◌, if◌then◌else◌, length, drop, contains, arith, Bool-cases, ap,
}
use dhos_reborn.ReadyQueue.{
  CpuState, Threads, eligible, nonnull, enqueue_ready, compact_ready_queue_if_needed, dequeue_scan,
  dequeue_ready,
}

-- The threads that wait in the queue, in order: what the array stands for.
abbrev pub pending : CpuState → List ℕ
pending c = nonnull (drop c.ready_head c.ready_threads)

-- The head lies within the array.
abbrev pub InBounds : CpuState → Type 0
InBounds c = c.ready_head ≤ length c.ready_threads

nonnull-append : (xs ys : List ℕ) → nonnull (xs ++ ys) ≡ nonnull xs ++ nonnull ys
unfolding nonnull
nonnull-append [] ys = refl
nonnull-append (x ∷ xs) ys = ground (arith, nonnull-append xs ys)

drop-append : (n : ℕ) (xs ys : List ℕ) → n ≤ length xs → drop n (xs ++ ys) ≡ drop n xs ++ ys
drop-append zero xs ys le = refl
drop-append (suc n) [] ys le = absurd (omega arith)
drop-append (suc n) (x ∷ xs) ys le = drop-append n xs ys (omega arith)

nonnull_twice : (xs : List ℕ) → nonnull (nonnull xs) ≡ nonnull xs
unfolding nonnull
nonnull_twice [] = refl
nonnull_twice (x ∷ xs) = ground (arith, nonnull_twice xs)

contains-nonnull : (t : ℕ) (xs : List ℕ) → t ≢ 0 → contains t (nonnull xs) ≡ contains t xs
unfolding nonnull
contains-nonnull t [] nz = refl
contains-nonnull t (x ∷ xs) nz = ground (arith, contains-nonnull t xs)

-- Compaction does not change the queue.
pub pending-compact : (c : CpuState) → pending (compact_ready_queue_if_needed c) ≡ pending c
unfolding compact_ready_queue_if_needed
pending-compact c = ground (arith, nonnull_twice (drop c.ready_head c.ready_threads))

pub compact-InBounds : (c : CpuState) → InBounds c → InBounds (compact_ready_queue_if_needed c)
unfolding compact_ready_queue_if_needed
compact-InBounds c h = ground arith

-- Enqueueing puts a thread at the end of the queue if it is ready, is not the idle thread and does
-- not wait in the queue yet; otherwise it changes nothing.
pub pending-enqueue :
    (ts : Threads) (c : CpuState) (t : ℕ)
    → InBounds c
    → pending (enqueue_ready ts c t) ≡ (
        if eligible ts c.idle_thread t && not (contains t (pending c))
        then pending c ++ t ∷ []
        else pending c)
unfolding enqueue_ready nonnull
pending-enqueue ts c t h = ground (
  arith,
  drop-append c.ready_head c.ready_threads (t ∷ []),
  nonnull-append (drop c.ready_head c.ready_threads) (t ∷ []),
  contains-nonnull t (drop c.ready_head c.ready_threads),
)

pub enqueue-InBounds :
    (ts : Threads) (c : CpuState) (t : ℕ) → InBounds c → InBounds (enqueue_ready ts c t)
unfolding enqueue_ready
enqueue-InBounds ts c t h = ground (arith, length-append c.ready_threads (t ∷ []))

-- The first eligible thread of a queue, 0 if there is none, and what is behind it.
unfoldable pub take_eligible : Threads → ℕ → List ℕ → ℕ × List ℕ
take_eligible ts idle [] = (0, [])
take_eligible ts idle (t ∷ xs) =
    let rest = take_eligible ts idle xs in if eligible ts idle t then (t, xs) else rest

drop-cons :
    (n : ℕ) (xs : List ℕ) (t : ℕ) (ys : List ℕ)
    → drop n xs ≡ t ∷ ys
    → (drop (n + 1) xs ≡ ys) × (n < length xs)
drop-cons zero [] t ys h = cc
drop-cons zero (x ∷ xs) t ys h = (cc, omega arith)
drop-cons (suc n) [] t ys h = cc
drop-cons (suc n) (x ∷ xs) t ys h =
    let (a, b) = drop-cons n xs t ys h in
    let e : suc n + 1 ≡ suc (n + 1) = omega arith in (rw e a, omega arith)

drop-nil : (n : ℕ) (xs : List ℕ) → n ≤ length xs → drop n xs ≡ [] → n ≡ length xs
drop-nil zero [] le h = refl
drop-nil zero (x ∷ xs) le h = cc
drop-nil (suc n) [] le h = absurd (omega arith)
drop-nil (suc n) (x ∷ xs) le h = ap suc (drop-nil n xs (omega arith) h)

-- What a scan of the slots from the head on takes from the queue.
abbrev pub Scanned : Threads → ℕ → List ℕ → List ℕ → ℕ × ℕ → Type 0
Scanned ts idle slots xs (t, head) =
    ((t, nonnull (drop head xs)) ≡ take_eligible ts idle (nonnull slots)) × (head ≤ length xs)

dequeue_scan-Scanned :
    (ts : Threads) (idle : ℕ) (slots xs : List ℕ) (head : ℕ)
    → drop head xs ≡ slots
    → head ≤ length xs
    → Scanned ts idle slots xs (dequeue_scan ts idle slots head)
unfolding dequeue_scan take_eligible nonnull
dequeue_scan-Scanned ts idle [] xs head e le = (rw e, le)
dequeue_scan-Scanned ts idle (t ∷ slots) xs head e le =
    let (e', lt) = drop-cons head xs t slots e in
    let rest = dequeue_scan-Scanned ts idle slots xs (head + 1) e' (omega arith) in
    elim (Bool-cases (eligible ts idle t)) [
      | inl y ↦
          let nz : (t == 0) ≡ false = ground arith in
          rw (y, nz, e', take_eligible) (rw y (refl), omega arith)
      | inr n ↦ elim (Bool-cases (t == 0)) [
        | inl z ↦ rw (n, z) rest
        | inr nz ↦ rw (n, nz, take_eligible, n) rest
      ]
    ]

-- Dequeueing takes the first thread of the queue that is ready and not the idle thread, drops
-- those before it, and keeps those behind it in order; with none, it answers 0 and empties the queue.
pub pending-dequeue :
    (ts : Threads) (c : CpuState)
    → InBounds c
    → let (t, c') = dequeue_ready ts c in
      ((t, pending c') ≡ take_eligible ts c.idle_thread (pending c)) × InBounds c'
unfolding dequeue_ready
pending-dequeue ts c h =
    let (e, le) =
      dequeue_scan-Scanned ts c.idle_thread (drop c.ready_head c.ready_threads) c.ready_threads
        c.ready_head refl h in
    let r = dequeue_scan ts c.idle_thread (drop c.ready_head c.ready_threads) c.ready_head in
    let c' : CpuState = record c { ready_head = r.1 } in
    (rw (pending-compact c') e, compact-InBounds c' le)
