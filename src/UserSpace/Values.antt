-- ===== src/UserSpace/Values.antt =====
-- Actions of the user programs that end with a value: what each part of Applications/Loader/main.cpp
-- that is not an early return hands on.
use dhos_reborn.Base.{ℕ, zero, suc, ◌≡◌, refl, inl, inr, Bool, List, ◌∷◌, length, ◌==◌, Bool-cases}
use dhos_reborn.SyscallResult.{SyscallError, encode_error}
use dhos_reborn.UserSpace.{
  Action, World, Outcome, Kernel, Call, Message, bind_outcome, is_error, syscall,
}
use dhos_reborn.UserSpace.Messages.{send_message}

-- An action that ends with a value went through its first part, and its rest.
pub bind-value :
    {A B : Type 0} (m : Action A) (f : A → Action B) (b : B) (w : World)
    → (bind_outcome (m w).0 (m w).1 f).0 ≡ Outcome.value b
    → (a : A) × ((m w).0 ≡ Outcome.value a)
      × ((f a (m w).1).0 ≡ Outcome.value b)
      × (bind_outcome (m w).0 (m w).1 f ≡ f a (m w).1)
bind-value {A = A} {B = B} m f b w h = cases (m w).0 (m w).1 h
  where
    cases :
        (r : Outcome A) (w' : World)
        → (bind_outcome r w' f).0 ≡ Outcome.value b
        → (a : A) × (r ≡ Outcome.value a)
          × ((f a w').0 ≡ Outcome.value b)
          × (bind_outcome r w' f ≡ f a w')
    cases (Outcome.value a) w' h = (a, refl, h, refl)
    cases (Outcome.returned c) w' h = absurd cc
    cases (Outcome.halted c) w' h = absurd cc
    cases Outcome.faulted w' h = absurd cc
    cases Outcome.no_fuel w' h = absurd cc

-- A message that was sent, or was tried to be sent for the last time, is the last call.
pub send_message-last :
    (K : Kernel) (fuel endpoint : ℕ) (message : Message) (w : World) (b : Bool)
    → (send_message K fuel endpoint message w).0 ≡ Outcome.value b
    → (rest : List Call) × ((send_message K fuel endpoint message w).1.calls
        ≡ Call.ipc_send endpoint message ∷ rest)
unfolding send_message syscall
send_message-last K zero endpoint message w b = λ h. absurd cc
send_message-last K (suc fuel) endpoint message w b =
    let n : ℕ = length w.calls in
    elim (Bool-cases (is_error (K.answers n))) [
      | inr e ↦ rw e (λ h. (w.calls, refl))
      | inl e ↦ elim (Bool-cases (K.answers n == encode_error SyscallError.queue_full)) [
        | inr f ↦ rw (e, f) (λ h. (w.calls, refl))
        | inl f ↦
            rw (e, f)
              (send_message-last K fuel endpoint message
                (record w {
                  memory = K.effects (suc n) (K.effects n w.memory);
                  calls = Call.yield ∷ Call.ipc_send endpoint message ∷ w.calls;
                })
                b)
      ]
    ]
