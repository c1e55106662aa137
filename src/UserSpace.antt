-- ===== src/UserSpace.antt =====
-- A user program and the system calls that it makes: Katline/API/Types.cppm, Katline/API/IPC.cppm
-- and the wrappers of Katline/API/SyscallCalls.cppm. What the kernel answers to the `n`-th call of a
-- run, the message and the pointer that it writes, and what the call does to the memory of the
-- program, is a `Kernel`; the calls that a run made are kept, the last one first.
pub mod Messages
pub mod Values
pub mod Waiting
mod Tests
use dhos_reborn.Base.{
  ℕ, zero, suc, ◌+◌, ◌-◌, ◌%◌, ◌^◌, Bool, true, false, not, List, [], ◌∷◌, leb, if◌then◌else◌,
  length, ◌==◌,
}
use dhos_reborn.LibC.{Memory}
use dhos_reborn.SyscallResult.{SyscallError, encode_error}

pub record Message : Type 0 where
  pub id : ℕ
  pub sender : ℕ
  pub reply_to : ℕ
  pub cookie : ℕ
  pub type : ℕ
  pub status : ℕ
  pub args : List ℕ
  pub handles : List ℕ

-- `CL::Flags<MemoryMapFlag>`, by its two flags.
pub record MemoryMapFlags : Type 0 where
  pub writable : Bool
  pub no_execute : Bool

pub record ProcessMemoryMapOptions : Type 0 where
  pub process : ℕ
  pub memory_object : ℕ
  pub offset : ℕ
  pub size : ℕ
  pub flags : MemoryMapFlags
  pub addr : ℕ

-- Katline/API/SyscallList.def, the calls that the programs make.
pub data Call : Type 0 where
  yield : Call
  exit : ℕ → Call
  ipc_send : ℕ → Message → Call
  ipc_receive : Call
  handle_close : ℕ → Call
  process_create : Call
  thread_create : ℕ → ℕ → ℕ → Call
  thread_start : ℕ → Call
  memory_map : ℕ → ℕ → ℕ → MemoryMapFlags → Call
  process_memory_map : ProcessMemoryMapOptions → Call
  memory_unmap : ℕ → ℕ → Call
  process_grant_capabilities : ℕ → ℕ → Call
  memory_create : ℕ → Call
  debug_u64 : ℕ → ℕ → Call
  process_current : Call
  get_process_info : ℕ → ℕ → Call

pub record Kernel : Type 0 where
  pub answers : ℕ → ℕ
  pub messages : ℕ → Message
  pub pointers : ℕ → ℕ
  pub effects : ℕ → Memory → Memory

-- `cookie` is the static counter of a program.
pub record World : Type 0 where
  pub memory : Memory
  pub calls : List Call
  pub last_cookie : ℕ

-- `value a`: the program goes on. `returned code`: the function returns early. `halted`: `fatal`,
-- the end of the program. `faulted`: a write through a null pointer. `no_fuel`: the fuel of a loop ran out.
pub data Outcome {ℓ} (A : Type ℓ) : Type ℓ where
  value : A → Outcome A
  returned : ℕ → Outcome A
  halted : ℕ → Outcome A
  faulted : Outcome A
  no_fuel : Outcome A

abbrev pub Action : Type 0 → Type 0
Action A = World → Outcome A × World

abbrev pub bind_outcome : {A B : Type 0} → Outcome A → World → (A → Action B) → Outcome B × World
bind_outcome (value a) w f = f a w
bind_outcome (returned code) w f = (returned code, w)
bind_outcome (halted code) w f = (halted code, w)
bind_outcome faulted w f = (faulted, w)
bind_outcome no_fuel w f = (no_fuel, w)

infixl 5 ◌>>=◌ ◌>>◌
abbrev pub ◌>>=◌ : {A B : Type 0} → Action A → (A → Action B) → Action B
◌>>=◌ m f w = let (r, w') = m w in bind_outcome r w' f

abbrev pub ◌>>◌ : {A B : Type 0} → Action A → Action B → Action B
m >> k = m >>= λ _. k

abbrev pub pure : {A : Type 0} → A → Action A
pure a w = (value a, w)

abbrev pub return_code : {A : Type 0} → ℕ → Action A
return_code code w = (returned code, w)

abbrev pub return_if : Bool → ℕ → Action (Unit {0})
return_if test code w = (if test then returned code else value tt, w)

abbrev pub gets : {A : Type 0} → (World → A) → Action A
gets f w = (value (f w), w)

-- A call of a function that returns a number: its early return becomes its value.
abbrev pub ended : Outcome ℕ → Outcome ℕ
ended (value code) = value code
ended (returned code) = value code
ended (halted code) = halted code
ended faulted = faulted
ended no_fuel = no_fuel

abbrev pub call : Action ℕ → Action ℕ
call m w = let (r, w') = m w in (ended r, w')

-- The stacks of new processes.
abbrev pub k_user_stack_size : ℕ
k_user_stack_size = 0x4000

abbrev pub k_user_stack_top : ℕ
k_user_stack_top = 0x7fffffffe000

abbrev pub writable_flags : MemoryMapFlags
writable_flags = record { writable = true; no_execute = false }

abbrev pub stack_flags : MemoryMapFlags
stack_flags = record { writable = true; no_execute = true }

-- A raw answer that is negative as a signed number.
abbrev pub is_error : ℕ → Bool
is_error raw = leb (2 ^ 63) raw

module _ (K : Kernel) where
  -- A system call: its raw answer.
  unfoldable pub syscall : Call → Action ℕ
  syscall c w =
      let n : ℕ = length w.calls in
      (value (K.answers n), record w { memory = K.effects n w.memory; calls = c ∷ w.calls })

  -- `sys_ipc_receive`: the answer, and the message that was written.
  unfoldable pub receive : Action (ℕ × Message)
  receive w =
      let n : ℕ = length w.calls in
      (
        value (K.answers n, K.messages n),
        record w { memory = K.effects n w.memory; calls = Call.ipc_receive ∷ w.calls },
      )

  -- `sys_memory_map`: the answer, and the pointer that was written.
  unfoldable pub map_memory : ℕ → ℕ → ℕ → MemoryMapFlags → Action (ℕ × ℕ)
  map_memory handle offset size flags w =
      let n : ℕ = length w.calls in
      (
        value (K.answers n, K.pointers n),
        record w {
          memory = K.effects n w.memory;
          calls = Call.memory_map handle offset size flags ∷ w.calls;
        },
      )

  -- `sys_get_process_info`: the answer, and the size that was written.
  unfoldable pub ask_process_info : ℕ → ℕ → Action (ℕ × ℕ)
  ask_process_info process buffer w =
      let n : ℕ = length w.calls in
      (
        value (K.answers n, K.pointers n),
        record w {
          memory = K.effects n w.memory;
          calls = Call.get_process_info process buffer ∷ w.calls;
        },
      )

  -- `sys_exit` does not come back.
  unfoldable pub fatal : {A : Type 0} → ℕ → Action A
  unfolding syscall
  fatal code = do syscall (Call.exit code); λ w. (halted code, w)

  -- `map_memory_object`: the pointer, null on an error, and what was written to `mapped_out`.
  unfoldable pub map_memory_object : ℕ → ℕ → ℕ → MemoryMapFlags → Action (ℕ × ℕ)
  unfolding map_memory
  map_memory_object handle offset size flags = do
    r ← map_memory handle offset size flags
    pure (if is_error r.0 then 0 else r.0, r.1)

  unfoldable pub raw_process_memory_map : ProcessMemoryMapOptions → Action ℕ
  unfolding syscall
  raw_process_memory_map options = syscall (Call.process_memory_map options)
