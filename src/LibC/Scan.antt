-- ===== src/LibC/Scan.antt =====
-- What the scanning functions of Libraries/LibC/src/String.cpp answer.
use dhos_reborn.Base.{
  ℕ, zero, suc, ◌+◌, ◌<◌, ◌≡◌, refl, ◌≢◌, ◌⊎◌, inl, inr, some, arith, ◌==◌, ==_iff, ==_false,
  Bool-cases, ap, ◌∙◌,
}
use dhos_reborn.Base.Int.{ℤ, pos, sub_ℕ}
use dhos_reborn.LibC.{Memory, compare_from, memcmp, scan_zero, strlen}

-- The bytes at `a + i` and at `b + i` agree for every i from `i` up to `j`.
abbrev pub Agree : ℕ → ℕ → Memory → ℕ → ℕ → Type 0
Agree a b m i j = (k : ℕ) → k < j → (k < i) ⊎ (m (a + k) ≡ m (b + k))

-- The answer of a comparison of `n` bytes from index `i` on: the first difference, or zero.
abbrev pub Compared : ℕ → ℕ → Memory → ℕ → ℕ → ℤ → Type 0
Compared a b m i j r =
    ((r ≡ pos 0) × Agree a b m i j)
    ⊎ ((k : ℕ) × (k < j)
        × Agree a b m i k
        × (m (a + k) ≢ m (b + k))
        × (r ≡ sub_ℕ (m (a + k)) (m (b + k))))

Agree-step :
    (a b : ℕ) (m : Memory) (i j : ℕ)
    → m (a + i) ≡ m (b + i)
    → Agree a b m (i + 1) j
    → Agree a b m i j
Agree-step a b m i j e h k lt = elim (Bool-cases (k == i)) [
  | inl s ↦ inr (let p : k ≡ i = (==_iff k i).0 s in ground arith)
  | inr s ↦ ground (arith, h k lt)
]

compare_from-Compared :
    (n i a b : ℕ) (m : Memory) (j : ℕ) → i + n ≡ j → Compared a b m i j (compare_from n i a b m)
unfolding compare_from
compare_from-Compared zero i a b m j e = inl (refl, λ k lt. inl (omega arith))
compare_from-Compared (suc n) i a b m j e = elim (Bool-cases (m (a + i) == m (b + i))) [
  | inr ne ↦ rw ne (inr (i, omega arith, (λ k lt. inl lt), ground arith, refl))
  | inl eq ↦
      let same : m (a + i) ≡ m (b + i) = (==_iff _ _).0 eq in
      rw eq (elim (compare_from-Compared n (i + 1) a b m j (omega arith)) [
        | inl (z, agree) ↦ inl (z, Agree-step a b m i j same agree)
        | inr (k, lt, agree, ne, r) ↦ inr (k, lt, Agree-step a b m i k same agree, ne, r)
      ])
]

-- `memcmp` of two ranges answers zero if all the bytes agree, and otherwise the difference of the
-- first two bytes that do not.
pub memcmp_lem : (a b size : ℕ) (m : Memory) → Compared a b m 0 size (memcmp a b size m)
unfolding memcmp
memcmp_lem a b size m = compare_from-Compared size 0 a b m size (omega arith)

scan_zero-some :
    (fuel len str k : ℕ) (m : Memory)
    → ((i : ℕ) → i < k → m (str + (len + i)) ≢ 0)
    → m (str + (len + k)) ≡ 0
    → k < fuel
    → scan_zero fuel len str m ≡ some (len + k)
unfolding scan_zero
scan_zero-some zero len str k m h z lt = absurd (omega arith)
scan_zero-some (suc fuel) len str zero m h z lt =
    let e : len + 0 ≡ len = omega arith in let z' : m (str + len) ≡ 0 = rw e at z in rw (z', e)
scan_zero-some (suc fuel) len str (suc k) m h z lt =
    let e : len + suc k ≡ len + 1 + k = omega arith in
    let f : len + 0 ≡ len = omega arith in
    let nz : m (str + len) ≢ 0 = rw f at (h 0 (omega arith)) in
    rw (==_false nz, e)
      (scan_zero-some fuel (len + 1) str k m
        (λ i l.
          let g : len + suc i ≡ len + 1 + i = omega arith in rw g at (h (suc i) (omega arith)))
        (rw e at z) (omega arith))

-- `strlen` of a text that does not stand at the null pointer is the index of its first zero byte,
-- once the fuel exceeds that index.
pub strlen_lem :
    (fuel str k : ℕ) (m : Memory)
    → str ≢ 0
    → ((i : ℕ) → i < k → m (str + i) ≢ 0)
    → m (str + k) ≡ 0
    → k < fuel
    → strlen fuel str m ≡ some k
unfolding strlen
strlen_lem fuel str k m nn h z lt =
    let e : 0 + k ≡ k = omega arith in
    rw (==_false nn) (
      scan_zero-some fuel 0 str k m (λ i l. let g : 0 + i ≡ i = omega arith in rw g (h i l))
        (rw e z) lt
      ∙ ap some e)
