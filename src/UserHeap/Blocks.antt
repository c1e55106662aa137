-- ===== src/UserHeap/Blocks.antt =====
-- The blocks that Libraries/LibRuntime/OperatorNewDelete.cpp hands out and takes back.
use Prim.Native.Nat.{bit_and}
use mathlib.Core.Path.{subst}
use dhos_reborn.Base.{
  ℕ, suc, ◌+◌, ◌-◌, ◌%◌, ◌^◌, ◌≤◌, ◌<◌, ◌≡◌, refl, sym, ◌⊎◌, inl, inr, false, ltb, ◌==◌, length,
  if◌then◌else◌, arith, Bool-cases,
}
use dhos_reborn.UserSpace.{Kernel, World, Outcome, is_error, syscall, map_memory}
use dhos_reborn.Loader.{Rounding}
use dhos_reborn.UserHeap.{header_of, allocation_alignment, total_size, user_address, allocate_block}

-- What `CL::Memory::align_up` promises for a power of two, where nothing wraps.
abbrev pub IsRoundingUp : Rounding → Type 0
IsRoundingUp R =
    (v m : ℕ)
    → bit_and m (m - 1) ≡ 0
    → 0 < m
    → v + m ≤ 2 ^ 64
    → (v ≤ R.align_up v m) × (R.align_up v m < v + m) × (R.align_up v m % m ≡ 0)

-- The alignment is a power of two, or at least passes the test for one, and is at least 8.
allocation_alignment_lem :
    (alignment : ℕ)
    → (bit_and (allocation_alignment alignment) (allocation_alignment alignment - 1) ≡ 0)
      × (8 ≤ allocation_alignment alignment)
unfolding allocation_alignment
allocation_alignment_lem alignment =
    let a : ℕ = if ltb alignment 8 then 8 else alignment in
    let low : 8 ≤ a = ground arith in
    elim (Bool-cases (bit_and a (a - 1) == 0)) [
      | inl e ↦ rw e (ground arith, low)
      | inr e ↦ rw e (refl, omega arith)
    ]

rounded :
    (R : Rounding) (v m : ℕ)
    → IsRoundingUp R
    → bit_and m (m - 1) ≡ 0
    → 0 < m
    → v + m ≤ 2 ^ 64
    → (v ≤ R.align_up (v % 2 ^ 64) m)
      × (R.align_up (v % 2 ^ 64) m < v + m)
      × (R.align_up (v % 2 ^ 64) m % m ≡ 0)
rounded R v m law power positive fits =
    let small : v % 2 ^ 64 ≡ v = omega arith in
    subst (λ x. (v ≤ R.align_up x m) × (R.align_up x m < v + m) × (R.align_up x m % m ≡ 0))
      (sym small) (law v m power positive fits)

granted-small : (raw : ℕ) → is_error raw ≡ false → raw < 2 ^ 64
granted-small raw e = ground arith

-- A block of `size` bytes at `user` in the mapping: it is aligned, its bytes and the header in front
-- of it lie inside.
abbrev pub InMapping : (mapping total size alignment user : ℕ) → Type 0
InMapping mapping total size alignment user =
    (user % alignment ≡ 0)
    × (mapping ≤ header_of user)
    × (header_of user + 32 ≡ user)
    × (user + size ≤ mapping + total)

user_address-InMapping :
    (R : Rounding) (mapping size alignment : ℕ)
    → IsRoundingUp R
    → bit_and alignment (alignment - 1) ≡ 0
    → 8 ≤ alignment
    → size + alignment + 40 ≤ 2 ^ 64
    → mapping + alignment + 32 ≤ 2 ^ 64
    → InMapping mapping
        (total_size R size alignment)
        size
        alignment
        (user_address R mapping alignment)
unfolding total_size
user_address-InMapping R mapping size alignment law power low fits placed =
    let asked : ℕ = if size == 0 then 1 else size in
    let enough : size ≤ asked = ground arith in
    let small : asked + alignment + 32 + 8 ≤ 2 ^ 64 = ground arith in
    let (a, b, c) = rounded R (mapping + 32) alignment law power (omega arith) (omega arith) in
    let (d, e, f) = rounded R (asked + alignment + 32) 8 law refl (omega arith) (omega arith) in
    (c, omega arith, omega arith, omega arith)

-- Where the request and the place of the mapping leave room below the end of memory, and rounding
-- keeps its promise: the allocator returns null, or the address of an aligned block inside the
-- mapping that the kernel made, with room in front for the header.
pub allocate_block-InMapping :
    (K : Kernel) (R : Rounding) (size alignment : ℕ) (w : World)
    → IsRoundingUp R
    → size + allocation_alignment alignment + 40 ≤ 2 ^ 64
    → K.pointers (suc (length w.calls)) + allocation_alignment alignment + 32 ≤ 2 ^ 64
    → let mapping : ℕ = K.pointers (suc (length w.calls)) in
      let aligned : ℕ = allocation_alignment alignment in
      let user : ℕ = user_address R mapping aligned in
      ((allocate_block K R size alignment w).0 ≡ Outcome.value 0)
      ⊎ (((allocate_block K R size alignment w).0 ≡ Outcome.value user)
          × InMapping mapping (total_size R size aligned) size aligned user)
unfolding allocate_block syscall map_memory
allocate_block-InMapping K R size alignment w law fits placed =
    let (power, low) = allocation_alignment_lem alignment in
    let inside =
      user_address-InMapping R (K.pointers (suc (length w.calls))) size
        (allocation_alignment alignment) law power low fits placed in
    elim (Bool-cases (is_error (K.answers (length w.calls)))) [
      | inl e ↦ inl (rw e refl)
      | inr e ↦ elim (Bool-cases (is_error (K.answers (suc (length w.calls))))) [
        | inl f ↦ inl (rw (e, f) refl)
        | inr f ↦ inr (rw (e, f) refl, inside)
      ]
    ]
