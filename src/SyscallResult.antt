-- ===== src/SyscallResult.antt =====
-- Katline/API/Syscalls.cppm and Katline/API/SyscallCalls.cppm: how the result of a system call
-- crosses the kernel boundary as one 64-bit word. The tag of an error is its place in the list of
-- `SyscallError`; what `from_tag_unsafe` does with any other tag is undefined, here `none`.
pub mod Cases
pub mod RoundTrip
mod Tests
use dhos_reborn.Base.{
  ℕ, zero, suc, ◌+◌, ◌-◌, ◌^◌, Bool, Option, none, some, leb, ltb, if◌then◌else◌,
}

pub data SyscallError : Type 0 where
  invalid_syscall invalid_argument bad_address permission_denied : SyscallError
  missing_capability queue_full empty_queue : SyscallError

pub data Result {ℓ} (A : Type ℓ) : Type ℓ where
  ok : A → Result A
  err : SyscallError → Result A

abbrev pub tag : SyscallError → ℕ
tag SyscallError.invalid_syscall = 0
tag SyscallError.invalid_argument = 1
tag SyscallError.bad_address = 2
tag SyscallError.permission_denied = 3
tag SyscallError.missing_capability = 4
tag SyscallError.queue_full = 5
tag SyscallError.empty_queue = 6

abbrev pub from_tag : ℕ → Option SyscallError
from_tag zero = some SyscallError.invalid_syscall
from_tag (suc zero) = some SyscallError.invalid_argument
from_tag (suc (suc zero)) = some SyscallError.bad_address
from_tag (suc (suc (suc zero))) = some SyscallError.permission_denied
from_tag (suc (suc (suc (suc zero)))) = some SyscallError.missing_capability
from_tag (suc (suc (suc (suc (suc zero))))) = some SyscallError.queue_full
from_tag (suc (suc (suc (suc (suc (suc zero)))))) = some SyscallError.empty_queue
from_tag _ = none

-- `-static_cast<i64>(tag + 1)` as an unsigned word.
unfoldable pub encode_error : SyscallError → ℕ
encode_error e = 2 ^ 64 - (tag e + 1)

unfoldable pub encode_void : Result (Unit {0}) → ℕ
unfolding encode_error
encode_void (ok u) = 0
encode_void (err e) = encode_error e

-- `encode_handle` too, where the value is the handle's id.
unfoldable pub encode_u64 : Result ℕ → ℕ
unfolding encode_error
encode_u64 (ok n) = n
encode_u64 (err e) = encode_error e

abbrev decode_error : {A : Type 0} → Option SyscallError → Option (Result A)
decode_error none = none
decode_error (some e) = some (err e)

-- The word read as a negative number: an error; otherwise the given result.
unfoldable pub decode_syscall_result : {A : Type 0} → A → ℕ → Option (Result A)
decode_syscall_result value raw =
    if leb (2 ^ 63) raw then decode_error (from_tag (2 ^ 64 - raw - 1)) else some (ok value)

unfoldable pub decode_void : ℕ → Option (Result (Unit {0}))
unfolding decode_syscall_result
decode_void raw = decode_syscall_result tt raw

unfoldable pub decode_u64 : ℕ → Option (Result ℕ)
unfolding decode_syscall_result
decode_u64 raw = decode_syscall_result raw raw
