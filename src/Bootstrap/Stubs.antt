-- ===== src/Bootstrap/Stubs.antt =====
-- Applications/Bootstrap/RuntimeStubs.cpp: the runtime of the bootstrap program, which has no heap
-- and brings its own memory and string functions.
use dhos_reborn.Base.{
  ℕ, zero, suc, ◌+◌, ◌%◌, ◌≡◌, refl, not, Option, none, some, ◌==◌, if◌then◌else◌, Bool-cases, inl,
  ap, inr,
}
use dhos_reborn.Base.Int.{ℤ, pos, sub_ℕ}
use dhos_reborn.LibC.{
  Memory, store, fill, copy_up, compare_from, scan_zero, memset, memcpy, memcmp, strlen,
}

-- Every overload of `operator new` returns null, and `operator delete` does nothing.
unfoldable pub stub_new : ℕ → Memory → ℕ × Memory
stub_new size m = (0, m)

unfoldable pub stub_delete : ℕ → Memory → Memory
stub_delete ptr m = m

-- The loops count up from `i` for `n` rounds. Each function returns its first argument and memory.
unfoldable pub stub_fill : ℕ → ℕ → ℕ → ℕ → Memory → Memory
unfolding store
stub_fill zero i bytes byte m = m
stub_fill (suc n) i bytes byte m = stub_fill n (i + 1) bytes byte (store m (bytes + i) byte)

unfoldable pub stub_memset : ℕ → ℕ → ℕ → Memory → ℕ × Memory
unfolding stub_fill
stub_memset dst value size m = (dst, stub_fill size 0 dst (value % 256) m)

unfoldable pub stub_copy : ℕ → ℕ → ℕ → ℕ → Memory → Memory
unfolding store
stub_copy zero i d s m = m
stub_copy (suc n) i d s m = stub_copy n (i + 1) d s (store m (d + i) (m (s + i)))

unfoldable pub stub_memcpy : ℕ → ℕ → ℕ → Memory → ℕ × Memory
unfolding stub_copy
stub_memcpy dst src size m = (dst, stub_copy size 0 dst src m)

unfoldable pub stub_compare : ℕ → ℕ → ℕ → ℕ → Memory → ℤ
stub_compare zero i a b m = pos 0
stub_compare (suc n) i a b m =
    let rest = stub_compare n (i + 1) a b m in
    if not (m (a + i) == m (b + i)) then sub_ℕ (m (a + i)) (m (b + i)) else rest

unfoldable pub stub_memcmp : ℕ → ℕ → ℕ → Memory → ℤ
unfolding stub_compare
stub_memcmp lhs rhs size m = stub_compare size 0 lhs rhs m

unfoldable pub stub_scan : ℕ → ℕ → ℕ → Memory → Option ℕ
stub_scan zero len str m = none
stub_scan (suc fuel) len str m =
    let rest = stub_scan fuel (len + 1) str m in if not (m (str + len) == 0) then rest else some len

unfoldable pub stub_strlen : ℕ → ℕ → Memory → Option ℕ
unfolding stub_scan
stub_strlen fuel str m = if str == 0 then some 0 else stub_scan fuel 0 str m

stub_fill-fill : (n i d v : ℕ) (m : Memory) → stub_fill n i d v m ≡ fill n i d v m
unfolding stub_fill fill
stub_fill-fill zero i d v m = refl
stub_fill-fill (suc n) i d v m = stub_fill-fill n (i + 1) d v (store m (d + i) v)

stub_copy-copy_up : (n i d s : ℕ) (m : Memory) → stub_copy n i d s m ≡ copy_up n i d s m
unfolding stub_copy copy_up
stub_copy-copy_up zero i d s m = refl
stub_copy-copy_up (suc n) i d s m = stub_copy-copy_up n (i + 1) d s (store m (d + i) (m (s + i)))

stub_compare-compare_from :
    (n i a b : ℕ) (m : Memory) → stub_compare n i a b m ≡ compare_from n i a b m
unfolding stub_compare compare_from
stub_compare-compare_from zero i a b m = refl
stub_compare-compare_from (suc n) i a b m = elim (Bool-cases (m (a + i) == m (b + i))) [
  | inl e ↦ rw e (stub_compare-compare_from n (i + 1) a b m)
  | inr e ↦ rw e refl
]

stub_scan-scan_zero : (n len str : ℕ) (m : Memory) → stub_scan n len str m ≡ scan_zero n len str m
unfolding stub_scan scan_zero
stub_scan-scan_zero zero len str m = refl
stub_scan-scan_zero (suc n) len str m = elim (Bool-cases (m (str + len) == 0)) [
  | inl e ↦ rw e refl
  | inr e ↦ rw e (stub_scan-scan_zero n (len + 1) str m)
]

-- The four functions do what those of the C library do: the same memory after setting and copying,
-- the same answer of a comparison and the same length, with the same fuel.
pub stubs-LibC :
    (a b size value fuel : ℕ) (m : Memory)
    → ((stub_memset a value size m).1 ≡ memset a value size m)
      × ((stub_memcpy a b size m).1 ≡ memcpy a b size m)
      × (stub_memcmp a b size m ≡ memcmp a b size m)
      × (stub_strlen fuel a m ≡ strlen fuel a m)
unfolding stub_memset stub_memcpy stub_memcmp stub_strlen memset memcpy memcmp strlen
stubs-LibC a b size value fuel m = (
  stub_fill-fill size 0 a (value % 256) m,
  stub_copy-copy_up size 0 a b m,
  stub_compare-compare_from size 0 a b m,
  ap (λ x. if a == 0 then some 0 else x) (stub_scan-scan_zero fuel 0 a m),
)
