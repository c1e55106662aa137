-- ===== src/LibRuntime/Tests.antt =====
-- A program that Libraries/LibRuntime/RT.cpp starts.
use dhos_reborn.SyscallResult.{SyscallError, encode_error}
use dhos_reborn.Base.{◌==◌, if◌then◌else◌, ◌+◌, ◌-◌, ◌%◌, ◌≡◌, refl, none, some, []}
use dhos_reborn.UserSpace.{Kernel, World, Outcome}
use dhos_reborn.UserSpace.Messages.{make_request}
use dhos_reborn.Loader.{Rounding}
use dhos_reborn.LibRuntime.{Program, start}

abbrev rounding : Rounding
rounding = record { align_down = λ v m. v - v % m; align_up = λ v m. v + m - 1 - (v + m - 1) % m }

abbrev willing : Kernel
willing = record {
  answers = λ n. 7;
  messages = λ n. make_request 0 0 0 0;
  pointers = λ n. 40;
  effects = λ n m. m;
}

abbrev world : World
world = record { memory = λ a. 0; calls = []; last_cookie = 0 }

abbrev program : Program
program = record { dhos_main = some (λ args w. (Outcome.value 3, w)); main = none }

exits : (start willing rounding 0x1000 program world).0 ≡ Outcome.halted 3
unfolding start
exits = refl

-- Without memory for the name the program faults.
abbrev poor : Kernel
poor = record {
  answers = λ n. if n == 7 then encode_error SyscallError.queue_full else 7;
  messages = λ n. make_request 0 0 0 0;
  pointers = λ n. 40;
  effects = λ n m. m;
}

faults : (start poor rounding 0x1000 program world).0 ≡ Outcome.faulted
unfolding start encode_error
faults = refl
