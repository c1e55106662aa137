-- ===== src/UserSpace/Messages.antt =====
-- The messages of the user programs, and the loops that send and receive them: Katline/API/IPC.cppm,
-- Applications/Loader/main.cpp and Applications/Bootstrap/main.cpp.
use dhos_reborn.Base.{
  ℕ, zero, suc, ◌+◌, ◌%◌, ◌^◌, Bool, true, false, not, List, [], ◌∷◌, ◌==◌, if◌then◌else◌,
}
use dhos_reborn.SyscallResult.{SyscallError, encode_error}
use dhos_reborn.UserSpace.{
  Message, Call, Kernel, value, Action, ◌>>=◌, ◌>>◌, pure, is_error, syscall, receive, fatal,
  no_fuel,
}

-- `args[i]` and `handles[i]`.
unfoldable pub nth : List ℕ → ℕ → ℕ
nth [] i = 0
nth (x ∷ xs) zero = x
nth (x ∷ xs) (suc i) = nth xs i

-- `make_request` with a cookie and two arguments.
unfoldable pub make_request : ℕ → ℕ → ℕ → ℕ → Message
make_request type cookie arg0 arg1 = record {
  id = 0;
  sender = 0;
  reply_to = 0;
  cookie = cookie;
  type = type;
  status = 0;
  args = arg0 ∷ arg1 ∷ 0 ∷ 0 ∷ 0 ∷ 0 ∷ [];
  handles = 0 ∷ 0 ∷ 0 ∷ 0 ∷ [];
}

unfoldable pub make_reply : Message → ℕ → ℕ → Message
make_reply request type status = record {
  id = 0;
  sender = 0;
  reply_to = request.id;
  cookie = request.cookie;
  type = type;
  status = status;
  args = 0 ∷ 0 ∷ 0 ∷ 0 ∷ 0 ∷ 0 ∷ [];
  handles = 0 ∷ 0 ∷ 0 ∷ 0 ∷ [];
}

-- `KernelMessageType`, `BootLoaderMessageType` and the fixed addresses of both programs.
abbrev pub get_boot_info : ℕ
get_boot_info = 1

abbrev pub get_boot_module_memory_object_by_id : ℕ
get_boot_module_memory_object_by_id = 2

abbrev pub get_page_size : ℕ
get_page_size = 6

abbrev pub ready : ℕ
ready = 0x100

abbrev pub load_boot_module_by_id : ℕ
load_boot_module_by_id = 0x101

abbrev pub k_bootstrap_endpoint_mailbox : ℕ
k_bootstrap_endpoint_mailbox = 0xfff00000

unfoldable pub next_cookie : Action ℕ
next_cookie w =
    let cookie : ℕ = (w.last_cookie + 1) % 2 ^ 64 in
    (value cookie, record w { last_cookie = cookie })

module _ (K : Kernel) where
  -- What follows the answer to a message that was sent.
  abbrev pub after_send : Action Bool → ℕ → Action Bool
  after_send again raw =
      if not (is_error raw)
      then pure true
      else if raw == encode_error SyscallError.queue_full
      then (do syscall K Call.yield; again)
      else pure false

  -- `for (;;)` in `send_message`.
  unfoldable pub send_message : ℕ → ℕ → Message → Action Bool
  unfolding syscall
  send_message zero endpoint message = λ w. (no_fuel, w)
  send_message (suc fuel) endpoint message =
      let again = send_message fuel endpoint message in
      do raw ← syscall K (Call.ipc_send endpoint message); after_send again raw

  -- `for (;;)` in `send_kernel_message`, until a reply has the cookie.
  unfoldable pub await_reply : ℕ → ℕ → Action Message
  unfolding syscall receive
  await_reply zero cookie = λ w. (no_fuel, w)
  await_reply (suc fuel) cookie =
      let again = await_reply fuel cookie in
      do
        r ← receive K
        if is_error r.0
            then (do syscall K Call.yield; again)
            else if r.1.cookie == cookie
            then pure r.1
            else again

  abbrev pub fatal_if : Bool → ℕ → Action (Unit {0})
  fatal_if test code = if test then fatal K code else pure tt

  unfoldable pub send_kernel_message : ℕ → ℕ → ℕ → Action Message
  unfolding next_cookie make_request send_message await_reply fatal
  send_kernel_message fuel type arg0 = do
    cookie ← next_cookie
    sent ← send_message fuel 0 (
        make_request type cookie (if type == get_boot_module_memory_object_by_id then arg0 else 0)
          0)
    fatal_if (not sent) 1
    await_reply fuel cookie

  -- `receive_message`, which asks again at once after an error.
  unfoldable pub receive_message : ℕ → Action Message
  unfolding receive
  receive_message zero = λ w. (no_fuel, w)
  receive_message (suc fuel) =
      let again = receive_message fuel in do r ← receive K; if is_error r.0 then again else pure r.1
