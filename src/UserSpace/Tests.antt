-- ===== src/UserSpace/Tests.antt =====
-- A message to a full queue, as Applications/Loader/main.cpp sends it.
use dhos_reborn.Base.{ℕ, zero, suc, ◌≡◌, refl, [], ◌∷◌, ◌==◌, if◌then◌else◌, arith, true, ◌<◌}
use dhos_reborn.SyscallResult.{SyscallError, encode_error}
use dhos_reborn.UserSpace.{Kernel, World, Outcome, Call, syscall}
use dhos_reborn.UserSpace.Messages.{make_request, send_message}
use dhos_reborn.UserSpace.Waiting.{attempt, send_message_lem}

-- The first answer is that the queue is full.
abbrev busy : Kernel
busy = record {
  answers = λ n. if n == 0 then encode_error SyscallError.queue_full else 0;
  messages = λ n. make_request 0 0 0 0;
  pointers = λ n. 0;
  effects = λ n m. m;
}

abbrev world : World
world = record { memory = λ a. 0; calls = []; last_cookie = 0 }

sent : (send_message busy 3 7 (make_request 6 1 0 0) world).0 ≡ Outcome.value true
unfolding send_message syscall encode_error
sent = refl

send_message_lem_example :
    ((send_message busy 3 7 (make_request 6 1 0 0) world).0 ≡ Outcome.value true)
    × ((send_message busy 3 7 (make_request 6 1 0 0) world).1.calls
        ≡ Call.ipc_send 7 (make_request 6 1 0 0)
          ∷ Call.yield
          ∷ Call.ipc_send 7 (make_request 6 1 0 0)
          ∷ [])
unfolding encode_error
send_message_lem_example =
    send_message_lem busy 3 1 7 (make_request 6 1 0 0) world (omega arith) full (ground arith)
  where
    full : (j : ℕ) → j < 1 → attempt busy 0 j ≡ encode_error SyscallError.queue_full
    full zero l = refl
    full (suc j) l = absurd (omega arith)
