-- ===== src/SyscallResult/RoundTrip.antt =====
-- Encoding a result in Katline/API/Syscalls.cppm and decoding it in Katline/API/SyscallCalls.cppm.
use dhos_reborn.Base.{ℕ, ◌^◌, ◌<◌, ◌≡◌, refl, some, arith}
use dhos_reborn.SyscallResult.{SyscallError, Result, ok, err, encode_u64, decode_u64}

-- The value that a result carries, if any, lies below 2^63.
abbrev pub IsSmall : Result ℕ → Type 0
IsSmall (ok n) = n < 2 ^ 63
IsSmall (err e) = Unit

-- A result whose value lies below 2^63 comes back from its encoding as it was, errors included.
pub decode_u64-encode_u64 : (r : Result ℕ) → IsSmall r → decode_u64 (encode_u64 r) ≡ some r
unfolding decode_u64 encode_u64
decode_u64-encode_u64 (ok n) small = ground arith
decode_u64-encode_u64 (err SyscallError.invalid_syscall) small = refl
decode_u64-encode_u64 (err SyscallError.invalid_argument) small = refl
decode_u64-encode_u64 (err SyscallError.bad_address) small = refl
decode_u64-encode_u64 (err SyscallError.permission_denied) small = refl
decode_u64-encode_u64 (err SyscallError.missing_capability) small = refl
decode_u64-encode_u64 (err SyscallError.queue_full) small = refl
decode_u64-encode_u64 (err SyscallError.empty_queue) small = refl
