-- ===== src/ProcessMappings/Overlap.antt =====
-- What an overlap in Katline/Memory/ProcessMappings.cppm means of the addresses.
use dhos_reborn.Base.{
  ℕ, ◌+◌, ◌*◌, ◌^◌, ◌≤◌, ◌<◌, ◌≡◌, ◌⊎◌, inl, inr, Bool, ◌&&◌, none, some, List, [], ◌∷◌, ltb, arith,
  count, Bool-cases,
}
use dhos_reborn.Process.{MemoryMapping}
use dhos_reborn.ProcessMappings.{
  k_page_size, k_user_space_limit, overlaps, first_overlap, next_base,
}

-- The first address behind a mapping.
abbrev pub end_of : MemoryMapping → ℕ
end_of m = m.page_base + m.page_count * k_page_size

-- Every mapping lies in the user half of the address space.
abbrev pub AllUser : List MemoryMapping → Type 0
AllUser [] = Unit {0}
AllUser (m ∷ ms) = (end_of m ≤ k_user_space_limit) × AllUser ms

-- The range [base, base + size) and the mapping share no address.
abbrev pub Apart : ℕ → ℕ → MemoryMapping → Type 0
Apart base size m = (base + size ≤ m.page_base) ⊎ (end_of m ≤ base)

abbrev pub AllApart : ℕ → ℕ → List MemoryMapping → Type 0
AllApart base size [] = Unit {0}
AllApart base size (m ∷ ms) = Apart base size m × AllApart base size ms

-- Without wrap-around, two ranges overlap exactly when each begins below the other's end.
pub overlaps_lem :
    (base size : ℕ) (m : MemoryMapping)
    → base + size < 2 ^ 64
    → end_of m ≤ k_user_space_limit
    → overlaps base size m ≡ (ltb m.page_base (base + size) && ltb base (end_of m))
unfolding overlaps
overlaps_lem base size m lt user = ground arith

pub first_overlap-none :
    (base size : ℕ) (ms : List MemoryMapping)
    → base + size < 2 ^ 64
    → AllUser ms
    → first_overlap base size ms ≡ none
    → AllApart base size ms
unfolding first_overlap
first_overlap-none base size [] lt user h = tt
first_overlap-none base size (m ∷ ms) lt user h = elim (Bool-cases (overlaps base size m)) [
  | inl t ↦ absurd (ground arith)
  | inr f ↦ (
    ground (arith, overlaps_lem base size m lt user.0),
    first_overlap-none base size ms lt user.1 (ground arith),
  )
]

-- What the first overlapping mapping says of the candidate range at `base`.
pub record Blocks (base size : ℕ) (m : MemoryMapping) : Type 0 where
  pub user : end_of m ≤ k_user_space_limit
  pub begins : m.page_base < base + size
  pub ends : base < end_of m

pub first_overlap-Blocks :
    (base size : ℕ) (ms : List MemoryMapping) (m : MemoryMapping)
    → base + size < 2 ^ 64
    → AllUser ms
    → first_overlap base size ms ≡ some m
    → Blocks base size m
unfolding first_overlap
first_overlap-Blocks base size [] m lt user h = cc
first_overlap-Blocks base size (x ∷ ms) m lt user h = elim (Bool-cases (overlaps base size x)) [
  | inl t ↦ ground (arith, overlaps_lem base size x lt user.0)
  | inr f ↦ first_overlap-Blocks base size ms m lt user.1 (ground arith)
]

-- No candidate from `base` up to the end of the blocking mapping is free either.
pub first_overlap-skips :
    (base size b : ℕ) (ms : List MemoryMapping) (m : MemoryMapping)
    → base + size < 2 ^ 64
    → AllUser ms
    → first_overlap base size ms ≡ some m
    → base ≤ b
    → b < end_of m
    → ¬ AllApart b size ms
unfolding first_overlap
first_overlap-skips base size b [] m lt user h le below apart = cc
first_overlap-skips base size b (x ∷ ms) m lt user h le below apart =
    elim (Bool-cases (overlaps base size x)) [
      | inl t ↦ ground (arith, overlaps_lem base size x lt user.0)
      | inr f ↦ first_overlap-skips base size b ms m lt user.1 (ground arith) le below apart.1
    ]

-- The mapping ends above the address.
abbrev pub above : ℕ → MemoryMapping → Bool
above b m = ltb b (end_of m)

count-above-le :
    (b c : ℕ) (ms : List MemoryMapping) → b ≤ c → count (above c) ms ≤ count (above b) ms
count-above-le b c [] le = omega arith
count-above-le b c (m ∷ ms) le = ground (arith, count-above-le b c ms le)

pub first_overlap-count :
    (base size : ℕ) (ms : List MemoryMapping) (m : MemoryMapping)
    → base + size < 2 ^ 64
    → AllUser ms
    → first_overlap base size ms ≡ some m
    → count (above (end_of m)) ms < count (above base) ms
unfolding first_overlap
first_overlap-count base size [] m lt user h = cc
first_overlap-count base size (x ∷ ms) m lt user h = elim (Bool-cases (overlaps base size x)) [
  | inl t ↦ ground (arith, overlaps_lem base size x lt user.0, count-above-le base (end_of m) ms)
  | inr f ↦
      let q : first_overlap base size ms ≡ some m = ground arith in
      let k = first_overlap-Blocks base size ms m lt user.1 q in
      ground (arith, first_overlap-count base size ms m lt user.1 q, k.ends)
]

pub next_base-end :
    (base size : ℕ) (m : MemoryMapping)
    → Blocks base size m
    → k_page_size ≤ base
    → next_base base m ≡ end_of m
unfolding next_base
next_base-end base size m k le = ground (arith, k.user, k.ends)
