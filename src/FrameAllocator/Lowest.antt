-- ===== src/FrameAllocator/Lowest.antt =====
-- Katline/Memory/FrameAllocator.cppm: loops over words and bits as searches of a set of indices.
use mathlib.Core.Path.{subst, sym}
use dhos_reborn.Base.{
  ℕ, zero, suc, ◌+◌, ◌<◌, ◌≤◌, ◌≡◌, refl, inl, inr, Bool, true, false, Option, none, some, arith,
  Bool-cases, Option-cases, ◌==◌, ◌-◌, ◌*◌, ◌∙◌, ltb,
}
use dhos_reborn.FrameAllocator.{FrameBits, first_bit, scan_words, max_frames}

-- The answer of a search for a member of `p` from `lo` on and below `hi`.
abbrev pub Lowest : (ℕ → Bool) → ℕ → ℕ → Option ℕ → Type 0
Lowest p lo hi none = (i : ℕ) → lo ≤ i → i < hi → p i ≡ false
Lowest p lo hi (some i) =
    (p i ≡ true) × (lo ≤ i) × (i < hi) × ((j : ℕ) → lo ≤ j → j < i → p j ≡ false)

first_bit-Lowest : (p : ℕ → Bool) (n b : ℕ) → Lowest p b (b + n) (first_bit p n b)
unfolding first_bit
first_bit-Lowest p zero b = λ i l h. absurd (omega arith)
first_bit-Lowest p (suc n) b = elim (Bool-cases (p b)) [
  | inl y ↦ rw y (y, omega arith, omega arith, λ j l h. absurd (omega arith))
  | inr no' ↦ rw no' (further p n b (first_bit p n (b + 1)) no' (first_bit-Lowest p n (b + 1)))
]
  where
    further :
        (p : ℕ → Bool) (n b : ℕ) (o : Option ℕ)
        → p b ≡ false
        → Lowest p (b + 1) (b + 1 + n) o
        → Lowest p b (b + suc n) o
    further p n b none e h = λ i l u. elim (Bool-cases (i == b)) [
      | inl s ↦ let q : i ≡ b = ground arith in rw q e
      | inr s ↦ h i (ground arith) (omega arith)
    ]
    further p n b (some k) e h = (
      h.0,
      omega (arith, h.1),
      omega (arith, h.2),
      λ j l u. elim (Bool-cases (j == b)) [
        | inl s ↦ let q : j ≡ b = ground arith in rw q e
        | inr s ↦ h.3 j (ground arith) u
      ],
    )

abbrev shifted : ℕ → Option ℕ → Option ℕ
shifted base none = none
shifted base (some b) = some (base + b)

-- A search over bits is a search over the indices that they stand for.
shift-Lowest :
    (p free : ℕ → Bool) (base n : ℕ) (o : Option ℕ)
    → ((b : ℕ) → b < n → free b ≡ p (base + b))
    → Lowest free 0 n o
    → Lowest p base (base + n) (shifted base o)
shift-Lowest p free base n o agree h = by-cases o h
  where
    at-index : (j : ℕ) → base ≤ j → j < base + n → free (j - base) ≡ false → p j ≡ false
    at-index j l u e =
        let q : base + (j - base) ≡ j = omega arith in
        subst (λ x. p x ≡ false) q (sym (agree (j - base) (omega arith)) ∙ e)

    by-cases : (o : Option ℕ) → Lowest free 0 n o → Lowest p base (base + n) (shifted base o)
    by-cases none h = λ j l u. at-index j l u (h (j - base) (omega arith) (omega arith))
    by-cases (some b) h = (
      sym (agree b (omega (arith, h.2))) ∙ h.0,
      omega arith,
      omega (arith, h.2),
      λ j l u. at-index j l (omega (arith, h.2)) (h.3 (j - base) (omega arith) (omega arith)),
    )

mul_next : (w n : ℕ) → (w + 1) * n ≡ w * n + n
mul_next w n = omega arith

join-Lowest :
    (p : ℕ → Bool) (lo mid hi : ℕ) (o : Option ℕ)
    → lo ≤ mid
    → Lowest p lo mid none
    → Lowest p mid hi o
    → Lowest p lo hi o
join-Lowest p lo mid hi none le a h = λ i l u. elim (Bool-cases (ltb i mid)) [
  | inl y ↦ a i l (ground arith)
  | inr y ↦ h i (ground arith) u
]
join-Lowest p lo mid hi (some k) le a h = (
  h.0,
  omega (arith, h.1),
  h.2,
  λ i l u. elim (Bool-cases (ltb i mid)) [
    | inl y ↦ a i l (ground arith)
    | inr y ↦ h.3 i (ground arith) u
  ],
)

module _ (B : FrameBits) where
  scan-none :
      (free : ℕ → ℕ → Bool) (n w : ℕ)
      → first_bit (free w) B.word_bits 0 ≡ none
      → scan_words B free (suc n) w ≡ scan_words B free n (w + 1)
  unfolding scan_words
  scan-none free n w e = rw (scan_words, e) refl

  scan-some :
      (free : ℕ → ℕ → Bool) (n w b : ℕ)
      → first_bit (free w) B.word_bits 0 ≡ some b
      → w * B.word_bits + b < max_frames
      → scan_words B free (suc n) w ≡ some (w * B.word_bits + b)
  unfolding scan_words
  scan-some free n w b e h =
      let small : ltb (w * B.word_bits + b) max_frames ≡ true = ground arith in
      rw (scan_words, e, small) refl

  -- The loop over words finds the lowest member of a set of frames whose bits are those that the
  -- words are searched for.
  pub scan_words-Lowest :
      (p : ℕ → Bool) (free : ℕ → ℕ → Bool) (n w : ℕ)
      → ((v b : ℕ) → w ≤ v → v < w + n → b < B.word_bits → free v b ≡ p (v * B.word_bits + b))
      → ((i : ℕ) → p i ≡ true → i < max_frames)
      → Lowest p (w * B.word_bits) ((w + n) * B.word_bits) (scan_words B free n w)
  unfolding scan_words
  scan_words-Lowest p free zero w agree bound = λ i l u. absurd (omega arith)
  scan_words-Lowest p free (suc n) w agree bound =
      let W : ℕ = B.word_bits in
      let z : 0 + W ≡ W = omega arith in
      let word : Lowest (free w) 0 W (first_bit (free w) W 0) =
        subst (λ hi. Lowest (free w) 0 hi (first_bit (free w) W 0)) z
          (first_bit-Lowest (free w) W 0) in
      let bits =
        shift-Lowest p (free w) (w * W) W (first_bit (free w) W 0)
          (λ b l. agree w b (omega arith) (omega arith) l) word in
      let rest =
        scan_words-Lowest p free n (w + 1) (λ v b l u h. agree v b (omega arith) (omega arith) h)
          bound in
      elim (Option-cases (first_bit (free w) W 0)) [
        | inl e ↦
            let here : Lowest p (w * W) (w * W + W) none =
              subst (λ o. Lowest p (w * W) (w * W + W) (shifted (w * W) o)) e bits in
            let q : (w + 1 + n) * W ≡ (w + suc n) * W = omega arith in
            let there : Lowest p (w * W + W) ((w + suc n) * W) (scan_words B free n (w + 1)) =
              subst (λ hi. Lowest p (w * W + W) hi (scan_words B free n (w + 1))) q
                (subst (λ lo. Lowest p lo ((w + 1 + n) * W) (scan_words B free n (w + 1)))
                  (mul_next w W) rest) in
            subst (Lowest p (w * W) ((w + suc n) * W)) (sym (scan-none free n w e)) (
              join-Lowest p (w * W) (w * W + W) ((w + suc n) * W) (scan_words B free n (w + 1))
                (omega arith) here there)
        | inr (b, e) ↦
            let here : Lowest p (w * W) (w * W + W) (some (w * W + b)) =
              subst (λ o. Lowest p (w * W) (w * W + W) (shifted (w * W) o)) e bits in
            let small : w * W + b < max_frames = bound (w * W + b) here.0 in
            let found : Lowest p (w * W) ((w + suc n) * W) (some (w * W + b)) =
              (here.0, here.1, omega (arith, here.2), here.3) in
            subst (Lowest p (w * W) ((w + suc n) * W)) (sym (scan-some free n w b e small)) found
      ]
