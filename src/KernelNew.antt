-- ===== src/KernelNew.antt =====
-- Katline/Memory/NewDelete.cpp: the operators `new` and `delete` of the kernel, over the kernel's heap.
mod Tests
use dhos_reborn.Base.{
  ℕ, zero, suc, ◌≤◌, ◌≡◌, ◌≢◌, refl, ◌⊎◌, inl, inr, Bool, true, false, ◌==◌, if◌then◌else◌, arith,
  Bool-cases,
}

-- `MemoryManager`: an address of 0 stands for null.
pub record Heap (S : Type 0) : Type 0 where
  pub allocate : ℕ → S → ℕ × S
  pub allocate_aligned : ℕ → ℕ → S → ℕ × S
  pub free : ℕ → S → S

-- `panicked` is the loop that halts the processor for good.
pub data Allocation : Type 0 where
  block : ℕ → Allocation
  panicked : Allocation

module _ {S : Type 0} (H : Heap S) where
  abbrev pub asked : ℕ → ℕ
  asked size = if size == 0 then 1 else size

  abbrev pub or_panic : ℕ × S → Allocation × S
  or_panic (ptr, s) = (if ptr == 0 then panicked else block ptr, s)

  unfoldable pub new_plain : ℕ → S → Allocation × S
  new_plain size s = or_panic (H.allocate (asked size) s)

  unfoldable pub new_aligned : ℕ → ℕ → S → Allocation × S
  new_aligned size alignment s = or_panic (H.allocate_aligned (asked size) alignment s)

  unfoldable pub new_nothrow : ℕ → S → Allocation × S
  new_nothrow size s = let (ptr, s') = H.allocate (asked size) s in (block ptr, s')

  unfoldable pub new_aligned_nothrow : ℕ → ℕ → S → Allocation × S
  new_aligned_nothrow size alignment s =
      let (ptr, s') = H.allocate_aligned (asked size) alignment s in (block ptr, s')

  unfoldable pub delete : ℕ → S → S
  delete ptr s = H.free ptr s

  or_panic_lem :
      (r : ℕ × S)
      → (((or_panic r).0 ≡ panicked) × (r.0 ≡ 0)) ⊎ (((or_panic r).0 ≡ block r.0) × (r.0 ≢ 0))
  or_panic_lem (ptr, s) = elim (Bool-cases (ptr == 0)) [
    | inl e ↦ inl (rw e refl, ground arith)
    | inr e ↦ inr (rw e refl, ground arith)
  ]

  -- The overloads that may not fail never hand out null: they panic exactly where the heap has no
  -- block of the size, which is at least 1, and hand out the heap's block otherwise. The `nothrow`
  -- overloads hand out what the heap returns, null included. All leave the heap as its call left it.
  pub new_lem :
      (size alignment : ℕ) (s : S)
      → let plain : ℕ × S = H.allocate (asked size) s in
        let aligned : ℕ × S = H.allocate_aligned (asked size) alignment s in
        (1 ≤ asked size)
        × ((((new_plain size s).0 ≡ panicked) × (plain.0 ≡ 0))
            ⊎ (((new_plain size s).0 ≡ block plain.0) × (plain.0 ≢ 0)))
        × ((((new_aligned size alignment s).0 ≡ panicked) × (aligned.0 ≡ 0))
            ⊎ (((new_aligned size alignment s).0 ≡ block aligned.0) × (aligned.0 ≢ 0)))
        × (new_nothrow size s ≡ (block plain.0, plain.1))
        × (new_aligned_nothrow size alignment s ≡ (block aligned.0, aligned.1))
        × ((new_plain size s).1 ≡ plain.1)
        × ((new_aligned size alignment s).1 ≡ aligned.1)
  unfolding new_plain new_aligned new_nothrow new_aligned_nothrow
  new_lem size alignment s = (
    ground arith,
    or_panic_lem (H.allocate (asked size) s),
    or_panic_lem (H.allocate_aligned (asked size) alignment s),
    refl,
    refl,
    refl,
    refl,
  )
