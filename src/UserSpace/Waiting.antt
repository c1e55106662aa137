-- ===== src/UserSpace/Waiting.antt =====
-- `send_message` of Applications/Loader/main.cpp and of Applications/Bootstrap/main.cpp, and how long it waits.
use dhos_reborn.Base.{
  ℕ, zero, suc, ◌+◌, ◌*◌, ◌<◌, ◌≡◌, ◌≢◌, refl, sym, ap, ◌∙◌, inl, inr, false, not, ◌∷◌, length,
  List, ◌==◌, arith, Bool-cases,
}
use dhos_reborn.SyscallResult.{SyscallError, encode_error}
use dhos_reborn.UserSpace.{Message, Kernel, World, Outcome, Call, is_error, syscall}
use dhos_reborn.UserSpace.Messages.{send_message}

-- The answer to the `k`-th attempt of a run that begins at call `n`: between two attempts it yields.
abbrev pub attempt : Kernel → ℕ → ℕ → ℕ
attempt K n k = K.answers (n + 2 * k)

-- The calls of `k` attempts that failed, each with the yield behind it; the last call comes first.
abbrev pub retried : ℕ → ℕ → Message → List Call → List Call
retried zero endpoint message calls = calls
retried (suc k) endpoint message calls =
    retried k endpoint message (Call.yield ∷ Call.ipc_send endpoint message ∷ calls)

-- As long as the queue is full, the sender yields and tries again; the first other answer ends the
-- wait, and the result says whether it was a success. The calls are these and no others: the same message
-- each time, and one yield behind each attempt but the last. Fuel beyond the number of failed attempts is enough.
pub send_message_lem :
    (K : Kernel) (fuel k endpoint : ℕ) (message : Message) (w : World)
    → k < fuel
    → ((j : ℕ) → j < k → attempt K (length w.calls) j ≡ encode_error SyscallError.queue_full)
    → attempt K (length w.calls) k ≢ encode_error SyscallError.queue_full
    → ((send_message K fuel endpoint message w).0
        ≡ Outcome.value (not (is_error (attempt K (length w.calls) k))))
      × ((send_message K fuel endpoint message w).1.calls
          ≡ Call.ipc_send endpoint message ∷ retried k endpoint message w.calls)
unfolding send_message syscall encode_error
send_message_lem K zero k endpoint message w h full other = absurd (omega arith)
send_message_lem K (suc fuel) zero endpoint message w h full other =
    let n : length w.calls + 2 * 0 ≡ length w.calls = omega arith in
    let here : K.answers (length w.calls) ≢ encode_error SyscallError.queue_full =
      λ e. other (ap K.answers n ∙ e) in
    let differs : (K.answers (length w.calls) == encode_error SyscallError.queue_full) ≡ false =
      ground arith in
    let last : is_error (attempt K (length w.calls) 0) ≡ is_error (K.answers (length w.calls)) =
      ap (λ a. is_error (K.answers a)) n in
    elim (Bool-cases (is_error (K.answers (length w.calls)))) [
      | inl e ↦ rw (e, differs) (ap (λ b. Outcome.value (not b)) (sym (last ∙ e)), refl)
      | inr e ↦ rw e (ap (λ b. Outcome.value (not b)) (sym (last ∙ e)), refl)
    ]
send_message_lem K (suc fuel) (suc k) endpoint message w h full other =
    let n : ℕ = length w.calls in
    let w2 : World = record w {
      memory = K.effects (suc n) (K.effects n w.memory);
      calls = Call.yield ∷ Call.ipc_send endpoint message ∷ w.calls;
    } in
    let next : (j : ℕ) → attempt K (suc (suc n)) j ≡ attempt K n (suc j) =
      λ j. ap K.answers (omega arith) in
    let first : K.answers n ≡ encode_error SyscallError.queue_full =
      ap K.answers (omega arith) ∙ full 0 (omega arith) in
    let rest =
      send_message_lem K fuel k endpoint message w2 (omega arith)
        (λ j l. next j ∙ full (suc j) (omega arith)) (λ e. other (sym (next k) ∙ e)) in
    rw first (rest.0 ∙ ap (λ a. Outcome.value (not (is_error a))) (next k), rest.1)
