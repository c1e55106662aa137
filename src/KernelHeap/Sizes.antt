-- ===== src/KernelHeap/Sizes.antt =====
-- The sizes of Katline/Memory/Heap.cppm: the lists of free chunks by size, and the size of a block.
use dhos_reborn.Base.{
  ℕ, zero, suc, ◌+◌, ◌-◌, ◌*◌, ◌/◌, ◌^◌, ◌≤◌, ◌<◌, ◌≡◌, ◌≢◌, refl, ◌∙◌, inl, inr, Option, none,
  some, leb, ltb, ◌==◌, arith, Bool-cases, ap,
}
use dhos_reborn.KernelHeap.{
  halvings, memory_chunk_slot, memory_chunk_bucket, rounded_size, find_bucket, num_sizes,
}

-- `2 ^ n`, by its clauses.
abbrev pub power : ℕ → ℕ
power zero = 1
power (suc n) = 2 * power n

pub power-le : (n k : ℕ) → n ≤ k → power n ≤ power k
power-le n zero h = let z : n ≡ 0 = omega arith in rw z (omega arith)
power-le n (suc k) h = elim (Bool-cases (n == suc k)) [
  | inl e ↦ let same : n ≡ suc k = ground arith in rw same (omega arith)
  | inr e ↦ omega (arith, power-le n k (ground arith))
]

halvings_zero : (fuel : ℕ) → halvings fuel 0 ≡ 0
unfolding halvings
halvings_zero zero = refl
halvings_zero (suc fuel) = refl

-- The loop finds the number of binary digits.
halvings_bounds :
    (fuel size : ℕ)
    → size < power fuel
    → (size < power (halvings fuel size)) × (size ≢ 0 → power (halvings fuel size) ≤ 2 * size)
unfolding halvings
halvings_bounds zero size h = (omega arith, λ n. absurd (n (omega arith)))
halvings_bounds (suc fuel) size h = elim (Bool-cases (size == 0)) [
  | inl e ↦ rw e (ground arith, λ n. absurd (n (ground arith)))
  | inr e ↦
      let (low, high) = halvings_bounds fuel (size / 2) (omega arith) in
      rw e (
        omega arith,
        λ n. elim (Bool-cases (size / 2 == 0)) [
          | inl z ↦
              let one : size / 2 ≡ 0 = ground arith in
              let none_left : halvings fuel (size / 2) ≡ 0 =
                ap (halvings fuel) one ∙ halvings_zero fuel in
              rw none_left (omega arith)
          | inr z ↦ omega (arith, high (ground arith))
        ],
      )
]

-- A chunk in the list `n`, which is not the first, has at least `2 ^ n` bytes.
pub power-le-memory_chunk_bucket :
    (size : ℕ)
    → size < 2 ^ 64
    → memory_chunk_bucket size ≢ 0
    → power (memory_chunk_bucket size) ≤ size
unfolding memory_chunk_bucket memory_chunk_slot
power-le-memory_chunk_bucket size small other =
    let n : ℕ = halvings 64 size in
    let (low, high) = halvings_bounds 64 size (omega arith) in
    elim (Bool-cases (n == 0)) [
      | inl e ↦ absurd (other (rw e refl))
      | inr e ↦
          let some_digit : n ≢ 0 = ground arith in
          let positive : size ≢ 0 = λ z. some_digit (ap (halvings 64) z ∙ halvings_zero 64) in
          let bound : power n ≤ 2 * size = high positive in
          elim (Bool-cases (ltb num_sizes n)) [
            | inl f ↦ rw (e, f) (omega (arith, power-le 33 n (ground arith)))
            | inr f ↦
                let down : power n ≡ 2 * power (n - 1) =
                  let step : n ≡ suc (n - 1) = omega arith in ap power step in
                rw (e, f) (omega arith)
          ]
    ]

-- A request of 16 bytes or more, rounded up, fits into `2 ^ slot` bytes.
pub le-power-memory_chunk_slot :
    (size : ℕ) → 0 < size → size < 2 ^ 64 → size ≤ power (memory_chunk_slot (size - 1))
unfolding memory_chunk_slot
le-power-memory_chunk_slot size positive small =
    let (low, high) = halvings_bounds 64 (size - 1) (omega arith) in omega arith

-- Rounding: a multiple of 4, at least 16 and at least the request.
pub rounded_size_bounds :
    (size : ℕ)
    → size + 3 < 2 ^ 64
    → (size ≤ rounded_size size) × (16 ≤ rounded_size size) × (rounded_size size < 2 ^ 64)
unfolding rounded_size
rounded_size_bounds size small = (ground arith, ground arith, ground arith)

-- The search stops at the first list from `n` on that is not empty.
abbrev pub Searched : (ℕ → ℕ) → ℕ → Option ℕ → Type 0
Searched lists n none = (k : ℕ) → n ≤ k → k < num_sizes → lists k ≡ 0
Searched lists n (some k) =
    (n ≤ k) × (k < num_sizes) × (lists k ≢ 0) × ((i : ℕ) → n ≤ i → i < k → lists i ≡ 0)

-- An empty list in front changes nothing.
Searched-widened :
    (lists : ℕ → ℕ) (n : ℕ)
    → lists n ≡ 0
    → (r : Option ℕ) → Searched lists (n + 1) r
    → Searched lists n r
Searched-widened lists n z none s = λ k l u. elim (Bool-cases (n == k)) [
  | inl e ↦ let q : k ≡ n = ground arith in ap lists q ∙ z
  | inr e ↦ s k (ground arith) u
]
Searched-widened lists n z (some k) (a, b, c, d) = (
  omega arith,
  b,
  c,
  λ i l u. elim (Bool-cases (n == i)) [
    | inl e ↦ let q : i ≡ n = ground arith in ap lists q ∙ z
    | inr e ↦ d i (ground arith) u
  ],
)

pub find_bucket-Searched :
    (fuel : ℕ) (lists : ℕ → ℕ) (n : ℕ)
    → num_sizes < n + fuel
    → Searched lists n (find_bucket fuel lists n)
unfolding find_bucket
find_bucket-Searched zero lists n h = λ k l u. absurd (omega arith)
find_bucket-Searched (suc fuel) lists n h = elim (Bool-cases (leb num_sizes n)) [
  | inl e ↦ rw e (λ k l u. absurd (ground arith))
  | inr e ↦ elim (Bool-cases (lists n == 0)) [
    | inr f ↦ rw (e, f) (omega arith, ground arith, ground arith, λ i l u. absurd (omega arith))
    | inl f ↦
        let zero_here : lists n ≡ 0 = ground arith in
        rw (e, f)
          (Searched-widened lists n zero_here (find_bucket fuel lists (n + 1))
            (find_bucket-Searched fuel lists (n + 1) (omega arith)))
  ]
]
