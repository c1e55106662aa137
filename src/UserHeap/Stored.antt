-- ===== src/UserHeap/Stored.antt =====
-- Numbers and headers in memory, as Libraries/LibRuntime/OperatorNewDelete.cpp writes them.
use dhos_reborn.Base.{
  ℕ, zero, suc, ◌+◌, ◌*◌, ◌%◌, ◌/◌, ◌^◌, ◌≤◌, ◌<◌, ◌≡◌, refl, ◌∙◌, ◌⊎◌, inl, inr, false, ◌==◌,
  if◌then◌else◌, arith,
}
use dhos_reborn.LibC.{Memory}
use dhos_reborn.Elf.{read_le}
use dhos_reborn.UserHeap.{
  write_le, AllocationHeader, read_allocation_header, write_allocation_header,
}

-- `256 ^ n`.
abbrev pub limit : ℕ → ℕ
limit zero = 1
limit (suc n) = 256 * limit n

write_le-outside :
    (n v a : ℕ) (m : Memory) (b : ℕ) → (b < a) ⊎ (a + n ≤ b) → write_le n v a m b ≡ m b
unfolding write_le
write_le-outside zero v a m b out = refl
write_le-outside (suc n) v a m b out =
    let away : (b == a) ≡ false = elim out [ inl h ↦ ground arith | inr h ↦ ground arith ] in
    write_le-outside n (v / 256) (a + 1) (λ x. if x == a then v % 256 else m x) b
      (elim out [ inl h ↦ inl (omega arith) | inr h ↦ inr (omega arith) ])
    ∙ rw away refl

-- A number that fits is read as it was written.
pub read_le-write_le : (n v a : ℕ) (m : Memory) → v < limit n → read_le n (write_le n v a m) a ≡ v
unfolding read_le write_le
read_le-write_le zero v a m h = omega arith
read_le-write_le (suc n) v a m h =
    let m' : Memory = λ x. if x == a then v % 256 else m x in
    let first : write_le n (v / 256) (a + 1) m' a ≡ m' a =
      write_le-outside n (v / 256) (a + 1) m' a (inl (omega arith)) in
    let here : m' a ≡ v % 256 = ground arith in
    let rest : read_le n (write_le n (v / 256) (a + 1) m') (a + 1) ≡ v / 256 =
      read_le-write_le n (v / 256) (a + 1) m' (omega arith) in
    rw (first ∙ here, rest) (omega arith)

-- A number elsewhere stays.
read_le-elsewhere :
    (n a k v b : ℕ) (m : Memory)
    → (a + n ≤ b) ⊎ (b + k ≤ a)
    → read_le n (write_le k v b m) a ≡ read_le n m a
unfolding read_le
read_le-elsewhere zero a k v b m apart = refl
read_le-elsewhere (suc n) a k v b m apart =
    let first : write_le k v b m a ≡ m a =
      write_le-outside k v b m a
        (elim apart [ inl h ↦ inl (omega arith) | inr h ↦ inr (omega arith) ]) in
    rw
      (
        first,
        read_le-elsewhere n (a + 1) k v b m
            (elim apart [ inl h ↦ inl (omega arith) | inr h ↦ inr (omega arith) ]),
      )
      refl

-- A header whose fields are numbers of 64 bits.
abbrev pub Is64 : AllocationHeader → Type 0
Is64 h =
    (h.memory_object < 2 ^ 64)
    × (h.mapping < 2 ^ 64)
    × (h.mapping_size < 2 ^ 64)
    × (h.magic < 2 ^ 64)

pub read-write_allocation_header :
    (h : AllocationHeader) (a : ℕ) (m : Memory)
    → Is64 h
    → read_allocation_header (write_allocation_header h a m) a ≡ h
unfolding read_allocation_header write_allocation_header
read-write_allocation_header h a m (b0, b1, b2, b3) =
    let m1 = write_le 8 h.memory_object a m in
    let m2 = write_le 8 h.mapping (a + 8) m1 in
    let m3 = write_le 8 h.mapping_size (a + 16) m2 in
    let object =
      read_le-elsewhere 8 a 8 h.magic (a + 24) m3 (inl (omega arith))
      ∙ read_le-elsewhere 8 a 8 h.mapping_size (a + 16) m2 (inl (omega arith))
      ∙ read_le-elsewhere 8 a 8 h.mapping (a + 8) m1 (inl (omega arith))
      ∙ read_le-write_le 8 h.memory_object a m (omega arith) in
    let mapping =
      read_le-elsewhere 8 (a + 8) 8 h.magic (a + 24) m3 (inl (omega arith))
      ∙ read_le-elsewhere 8 (a + 8) 8 h.mapping_size (a + 16) m2 (inl (omega arith))
      ∙ read_le-write_le 8 h.mapping (a + 8) m1 (omega arith) in
    let size =
      read_le-elsewhere 8 (a + 16) 8 h.magic (a + 24) m3 (inl (omega arith))
      ∙ read_le-write_le 8 h.mapping_size (a + 16) m2 (omega arith) in
    let magic = read_le-write_le 8 h.magic (a + 24) m3 (omega arith) in
    rw (object, mapping, size, magic) refl
