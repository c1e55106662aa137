-- ===== src/LibRuntime.antt =====
-- Libraries/LibRuntime/RT.cpp: the start of a user program, up to its main function and its exit.
mod Tests
use dhos_reborn.Base.{
  ℕ, zero, suc, ◌+◌, ◌%◌, ◌^◌, Bool, true, false, not, ◌||◌, Option, none, some, List, [], ◌∷◌, ltb,
  ◌==◌, if◌then◌else◌,
}
use dhos_reborn.LibC.{Memory, memcpy, memset, store}
use dhos_reborn.UserSpace.{
  Action, ◌>>=◌, ◌>>◌, pure, gets, is_error, Call, Kernel, World, Outcome, syscall,
  ask_process_info, fatal,
}
use dhos_reborn.UserSpace.Messages.{fatal_if}
use dhos_reborn.Elf.{read_le}
use dhos_reborn.Loader.{Rounding}
use dhos_reborn.UserHeap.{operator_new, change_memory}

-- The two functions that a program may have, each over the addresses of its arguments. There are no
-- environment variables: `envp` is null.
pub record Program : Type 0 where
  pub dhos_main : Option (List ℕ → Action ℕ)
  pub main : Option (List ℕ → Action ℕ)

unfoldable pub run_main : Option (List ℕ → Action ℕ) → List ℕ → Action ℕ → Action ℕ
run_main none args other = other
run_main (some f) args other = f args

module _ (K : Kernel) where
  unfoldable pub debug_point : ℕ → Action (Unit {0})
  unfolding syscall
  debug_point number = do syscall K (Call.debug_u64 0x52540001 number); pure tt

  -- A debug point in front of the function, if there is one.
  unfoldable pub announced : ℕ → Option (List ℕ → Action ℕ) → Option (List ℕ → Action ℕ)
  unfolding debug_point
  announced number none = none
  announced number (some f) = some (λ args. debug_point number >> f args)

  -- The handle of the process.
  unfoldable pub current_process : Action ℕ
  unfolding debug_point syscall
  current_process = do
    debug_point 1
    process ← syscall K Call.process_current
    fatal_if K (is_error process) 1
    debug_point 2
    pure process

  -- The information about the process, at `storage`, 512 bytes.
  unfoldable pub read_process_info : ℕ → ℕ → Action (Unit {0})
  unfolding debug_point ask_process_info memset
  read_process_info storage process = do
    size ← ask_process_info K process 0
    fatal_if K (is_error size.0) 1
    debug_point 3
    fatal_if K (ltb size.1 32 || ltb 512 size.1) 1
    change_memory (memset storage 0 512)
    info ← ask_process_info K process storage
    fatal_if K (is_error info.0) 1
    debug_point 4

  -- The name of the process, in a block of its own with a final zero. `new` gives null where the allocator
  -- does; the name and the zero are then written through that, and the program faults.
  unfoldable pub copy_name : Rounding → ℕ → Action ℕ
  unfolding read_le operator_new memcpy store
  copy_name R storage = do
    name_len ← gets (λ w. read_le 8 w.memory (storage + 24))
    name ← operator_new K R ((name_len + 1) % 2 ^ 64)
    if name == 0 then (λ w. (Outcome.faulted, w)) else (do
      change_memory (memcpy name (storage + 32) name_len)
      change_memory (λ m. store m ((name + name_len) % 2 ^ 64) 0)
      pure name)

  unfoldable pub start : Rounding → ℕ → Program → Action (Unit {0})
  unfolding current_process read_process_info copy_name run_main announced fatal
  start R storage program = do
    process ← current_process
    read_process_info storage process
    name ← copy_name R storage
    ret ←
        run_main (announced 5 program.dhos_main) (name ∷ [])
          (run_main (announced 6 program.main) (name ∷ []) (pure 1))
    fatal K ret
