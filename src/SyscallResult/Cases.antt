-- ===== src/SyscallResult/Cases.antt =====
-- The results of Katline/API/Syscalls.cppm, by cases.
use dhos_reborn.Base.{◌≡◌, refl, ◌⊎◌, inl, inr}
use dhos_reborn.SyscallResult.{SyscallError, Result, ok, err}

pub Result-cases :
    (r : Result (Unit {0})) → ((e : SyscallError) × (r ≡ err e)) ⊎ ((u : Unit {0}) × (r ≡ ok u))
Result-cases (ok u) = inr (u, refl)
Result-cases (err e) = inl (e, refl)
