-- ===== src/KernelHeap/Aligned.antt =====
-- MemoryManager::allocate_aligned and MemoryManager::free of Katline/Memory/MemoryManager.cppm.
use dhos_reborn.Base.{
  ℕ, ◌+◌, ◌-◌, ◌*◌, ◌/◌, ◌%◌, ◌^◌, ◌≤◌, ◌<◌, ◌≡◌, ◌≢◌, refl, ◌∙◌, ◌⊎◌, inl, inr, true, false, ltb,
  ◌==◌, if◌then◌else◌, arith, Bool-cases, ap,
}
use native.Mathlib.Nat.{div-add-mod', mod-lt, mul-mod_left}
use Prim.Native.Nat.{bit_and}
use dhos_reborn.KernelHeap.{Heap, mrvn_malloc, mrvn_free}
use dhos_reborn.KernelHeap.Manager.{aligned_magic, place_aligned, allocate_aligned, free}

-- Rounding down to a multiple.
round_down-bounds :
    (x m : ℕ) → 0 < m → (x < x - x % m + m) × (x - x % m ≤ x) × ((x - x % m) % m ≡ 0)
round_down-bounds x m positive =
    let small : x % m < m = mod-lt x positive in
    let parts : x / m * m + x % m ≡ x = div-add-mod' x m in
    let multiple : x - x % m ≡ x / m * m = omega arith in
    (omega arith, omega arith, ap (λ y. y % m) multiple ∙ mul-mod_left (x / m) m)

-- The number of bytes and the alignment that `allocate_aligned` works with.
abbrev pub at_least_8 : ℕ → ℕ
at_least_8 alignment = if ltb alignment 8 then 8 else alignment

abbrev pub raw_block : ℕ → ℕ → Heap → ℕ × Heap
raw_block size al h = mrvn_malloc ((size + al - 1 + 16) % 2 ^ 64) h

-- The block lies within the bytes asked from `mrvn_malloc`, with 16 bytes in front, and `free` gives those back.
abbrev pub Aligned : ℕ → ℕ → ℕ × Heap → ℕ × Heap → Type 0
Aligned size al raw r =
    (r.0 % al ≡ 0)
    × (raw.0 + 16 ≤ r.0)
    × (r.0 + size ≤ raw.0 + (size + al - 1 + 16))
    × (free r.0 r.1 ≡ mrvn_free raw.0 r.1)

free_lem :
    (ptr : ℕ) (h : Heap)
    → ptr ≢ 0
    → free ptr h
      ≡ mrvn_free (if h.words (ptr - 8) == aligned_magic then h.words (ptr - 16) else ptr) h
unfolding free
free_lem ptr h nonnull =
    let a : (ptr == 0) ≡ false = ground arith in
    elim (Bool-cases (h.words (ptr - 8) == aligned_magic)) [
      | inl e ↦ rw (a, e) refl
      | inr e ↦ rw (a, e) refl
    ]

marked : ℕ → ℕ → (ℕ → ℕ) → ℕ → ℕ
marked p raw m b = if b == p - 8 then aligned_magic else if b == p - 16 then raw else m b

marked-free :
    (p raw : ℕ) (h : Heap)
    → 16 ≤ p
    → let h' : Heap = record h { words = marked p raw h.words } in free p h' ≡ mrvn_free raw h'
unfolding marked
marked-free p raw h big =
    let apart : (p - 16 == p - 8) ≡ false = ground arith in
    let same : (p - 8 == p - 8) ≡ true = ground arith in
    let there : (p - 16 == p - 16) ≡ true = ground arith in
    free_lem p (record h { words = marked p raw h.words }) (omega arith)
    ∙ rw (same, apart, there) refl

place_aligned-Aligned :
    (size al raw : ℕ) (h : Heap)
    → 8 ≤ al
    → raw ≢ 0
    → raw + size + 2 * al + 16 < 2 ^ 64
    → Aligned size al (raw, h) (place_aligned al raw h)
unfolding place_aligned marked
place_aligned-Aligned size al raw h big nonnull small =
    let top : ℕ = (raw + 16 + al - 1) % 2 ^ 64 in
    let (above, below, multiple) = round_down-bounds top al (omega arith) in
    let e : (raw == 0) ≡ false = ground arith in
    rw e (multiple, omega arith, omega arith, marked-free (top - top % al) raw h (omega arith))

place_aligned-null : (al raw : ℕ) (h : Heap) → raw ≡ 0 → (place_aligned al raw h).0 ≡ 0
unfolding place_aligned
place_aligned-null al raw h z = rw z refl

zero_of : (n : ℕ) → (n == 0) ≡ true → n ≡ 0
zero_of n e = ground arith

nonzero_of : (n : ℕ) → (n == 0) ≡ false → n ≢ 0
nonzero_of n e = ground arith

le-at_least_8 : (alignment : ℕ) → 8 ≤ at_least_8 alignment
le-at_least_8 alignment = ground arith

-- For a power of two (8 is taken for a smaller one) the block is aligned, it lies within the bytes
-- that were asked from the heap, behind a header of 16 bytes, and freeing it frees those; another alignment, or a
-- heap that has no block, gives 0. The sizes and addresses do not wrap around.
pub allocate_aligned-Aligned :
    (size alignment : ℕ) (h : Heap)
    → (raw_block size (at_least_8 alignment) h).0 + size + 2 * at_least_8 alignment + 16 < 2 ^ 64
    → let al : ℕ = at_least_8 alignment in
      let raw : ℕ × Heap = raw_block size al h in
      (((allocate_aligned size alignment h).0 ≡ 0) × ((bit_and al (al - 1) ≢ 0) ⊎ (raw.0 ≡ 0)))
      ⊎ ((bit_and al (al - 1) ≡ 0)
          × (raw.0 ≢ 0)
          × Aligned size al raw (allocate_aligned size alignment h))
unfolding allocate_aligned
allocate_aligned-Aligned size alignment h small =
    let al : ℕ = at_least_8 alignment in
    let raw : ℕ × Heap = raw_block size al h in
    let bits : ℕ = bit_and al (al - 1) in
    elim (Bool-cases (bits == 0)) [
      | inr e ↦ rw e (inl (refl, inl (nonzero_of bits e)))
      | inl e ↦ elim (Bool-cases (raw.0 == 0)) [
        | inl f ↦
            let z : raw.0 ≡ 0 = zero_of raw.0 f in
            rw e (inl (place_aligned-null al raw.0 raw.1 z, inr z))
        | inr f ↦
            let n : raw.0 ≢ 0 = nonzero_of raw.0 f in
            rw e (
              inr (
                zero_of bits e,
                n,
                place_aligned-Aligned size al raw.0 raw.1 (le-at_least_8 alignment) n small,
              ))
      ]
    ]
