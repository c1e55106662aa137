-- ===== src/KernelNew/Tests.antt =====
-- The operators of Katline/Memory/NewDelete.cpp over a heap that counts its calls and has no large blocks.
use dhos_reborn.Base.{ℕ, suc, ◌+◌, ◌≡◌, refl, ltb, if◌then◌else◌}
use dhos_reborn.KernelNew.{Heap, block, panicked, new_plain, new_aligned_nothrow}

abbrev counting : Heap ℕ
counting = record {
  allocate = λ size s. (if ltb size 100 then 0x1000 + size else 0, suc s);
  allocate_aligned = λ size alignment s. (0, suc s);
  free = λ ptr s. suc s;
}

one_byte : new_plain counting 0 0 ≡ (block 0x1001, 1)
unfolding new_plain
one_byte = refl

too_large : new_plain counting 200 0 ≡ (panicked, 1)
unfolding new_plain
too_large = refl

null_allowed : new_aligned_nothrow counting 8 16 0 ≡ (block 0, 1)
unfolding new_aligned_nothrow
null_allowed = refl
