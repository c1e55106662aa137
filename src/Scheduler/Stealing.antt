-- ===== src/Scheduler/Stealing.antt =====
-- Katline/Arch/Scheduler.cppm: the thread that one processor takes from another's queue.
use mathlib.Core.Path.{sym}
use dhos_reborn.Base.{
  ℕ, zero, suc, ◌≤◌, ◌≡◌, refl, inl, inr, Bool, true, false, not, List, [], ◌∷◌, ◌++◌, ◌==◌,
  if◌then◌else◌, length, drop, take, arith, Bool-cases, ap, ◌∙◌,
}
use dhos_reborn.ReadyQueue.{CpuState, Threads, nonnull}
use dhos_reborn.ReadyQueue.Fifo.{pending, InBounds, pending-compact, compact-InBounds}
use dhos_reborn.Scheduler.{steal_slot, is_stealable, steal_from}

-- The last element of a list that passes the test, 0 if there is none, and the list without it.
unfoldable pub take_last : (ℕ → Bool) → List ℕ → ℕ × List ℕ
take_last p [] = (0, [])
take_last p (t ∷ xs) =
    let (u, rest) = take_last p xs in
    if not (u == 0) then (u, t ∷ rest) else if p t then (t, xs) else (0, t ∷ xs)

take_last-none :
    (p : ℕ → Bool) (xs : List ℕ) → p 0 ≡ false → (take_last p xs).0 ≡ 0 → (take_last p xs).1 ≡ xs
unfolding take_last
take_last-none p [] z h = refl
take_last-none p (t ∷ xs) z h = elim (Bool-cases ((take_last p xs).0 == 0)) [
  | inl u ↦ elim (Bool-cases (p t)) [
    | inl y ↦
        let e : (take_last p (t ∷ xs)).0 ≡ t = rw (u, y) refl in
        let y' : p 0 ≡ true = rw (sym (sym e ∙ h)) y in absurd (cc)
    | inr n ↦ rw (u, n) refl
  ]
  | inr u ↦
      let e : (take_last p (t ∷ xs)).0 ≡ (take_last p xs).0 = rw u refl in
      let e' : (take_last p xs).0 ≡ 0 = sym e ∙ h in absurd (ground arith)
]

take_last-cons :
    (p : ℕ → Bool) (t : ℕ) (xs : List ℕ)
    → take_last p (t ∷ xs) ≡ (
        if not ((take_last p xs).0 == 0)
        then ((take_last p xs).0, t ∷ (take_last p xs).1)
        else if p t
        then (t, xs)
        else (0, t ∷ xs))
unfolding take_last
take_last-cons p t xs = refl

take_last-nil : (p : ℕ → Bool) → ◌≡◌ {A = ℕ × List ℕ} (take_last p []) (0, [])
unfolding take_last
take_last-nil p = refl

-- What a slot search takes from a queue.
abbrev Taken : (ℕ → Bool) → List ℕ → ℕ × List ℕ → Type 0
Taken p xs (t, slots) =
    (t ≡ (take_last p (nonnull xs)).0) × (nonnull slots ≡ (take_last p (nonnull xs)).1)

steal_slot-Taken : (p : ℕ → Bool) (xs : List ℕ) → p 0 ≡ false → Taken p xs (steal_slot p xs)
unfolding steal_slot nonnull
steal_slot-Taken p [] z = (rw (take_last-nil p) refl, rw (take_last-nil p) refl)
steal_slot-Taken p (t ∷ xs) z =
    let (a, b) = steal_slot-Taken p xs z in
    let same = take_last-none p (nonnull xs) z in
    elim (Bool-cases (t == 0)) [
      | inl y ↦
          let pt : p t ≡ false = ap p (ground arith) ∙ z in
          elim (Bool-cases ((steal_slot p xs).0 == 0)) [
            | inl u ↦
                let a' : (take_last p (nonnull xs)).0 ≡ 0 = ground arith in
                rw (y, u, pt) (sym a', rw y (sym (same a')))
            | inr u ↦ rw (y, u) (a, rw y b)
          ]
      | inr n ↦ elim (Bool-cases ((steal_slot p xs).0 == 0)) [
        | inl u ↦
            let a' : ((take_last p (nonnull xs)).0 == 0) ≡ true = ground arith in
            elim (Bool-cases (p t)) [
              | inl q ↦ rw (n, u, take_last-cons p t (nonnull xs), a', q) (refl, refl)
              | inr q ↦ rw (n, u, take_last-cons p t (nonnull xs), a', q) (refl, rw n refl)
            ]
        | inr u ↦
            let a' : ((take_last p (nonnull xs)).0 == 0) ≡ false = ground arith in
            rw (n, u, take_last-cons p t (nonnull xs), a') (a, rw n (ap (λ ys. t ∷ ys) b))
      ]
    ]

drop-take : (n : ℕ) (xs ys : List ℕ) → n ≤ length xs → drop n (take n xs ++ ys) ≡ ys
drop-take zero xs ys le = refl
drop-take (suc n) [] ys le = absurd (omega arith)
drop-take (suc n) (x ∷ xs) ys le = drop-take n xs ys (omega arith)

length-take-append : (n : ℕ) (xs ys : List ℕ) → n ≤ length xs → n ≤ length (take n xs ++ ys)
length-take-append zero xs ys le = omega arith
length-take-append (suc n) [] ys le = absurd (omega arith)
length-take-append (suc n) (x ∷ xs) ys le =
    let rest = length-take-append n xs ys (omega arith) in omega arith

-- A processor steals from another the last thread of its queue that is ready and neither its idle
-- thread nor the one that it hands off, and the queue keeps all others in order; it takes nothing
-- when there is no such thread.
pub pending-steal_from :
    (ts : Threads) (v : CpuState)
    → InBounds v
    → let (t, v') = steal_from ts v in
      let (u, rest) = take_last (is_stealable ts v) (pending v) in
      (t ≡ u) × (pending v' ≡ rest) × InBounds v'
unfolding steal_from
pending-steal_from ts v h =
    let slots = steal_slot (is_stealable ts v) (drop v.ready_head v.ready_threads) in
    let (a, b) = steal_slot-Taken (is_stealable ts v) (drop v.ready_head v.ready_threads) refl in
    let v' : CpuState = record v { ready_threads = take v.ready_head v.ready_threads ++ slots.1 } in
    let bound : InBounds v' = length-take-append v.ready_head v.ready_threads slots.1 h in
    (
      a,
      pending-compact v' ∙ ap nonnull (drop-take v.ready_head v.ready_threads slots.1 h) ∙ b,
      compact-InBounds v' bound,
    )
