-- ===== src/FrameAllocator/Search.antt =====
-- Katline/Memory/FrameAllocator.cppm: the search of `allocate_page`, and `free_page`.
use mathlib.Core.Path.{subst, sym}
use native.Mathlib.Nat.{div-add-mod', mod-lt, mul-le-mul_right, lt_of_mul-lt-mul_right}
use dhos_reborn.Base.{
  ℕ, ◌+◌, ◌-◌, ◌*◌, ◌/◌, ◌%◌, ◌^◌, ◌<◌, ◌≤◌, ◌≡◌, refl, ◌≢◌, inl, inr, Bool, true, false, not, ◌&&◌,
  ◌||◌, Option, none, some, arith, Bool-cases, Option-cases, ap, ==_false, ltb, leb, if◌then◌else◌,
  ◌==◌,
}
use dhos_reborn.FrameAllocator.{
  FrameBits, FrameAllocator, max_frames, free_bits, scan_words, find_frame, allocate_page,
  free_page,
}
use dhos_reborn.FrameAllocator.Lowest.{Lowest, scan_words-Lowest}

-- A frame that is free, and not below `from`.
abbrev is_free_from : (ℕ → Bool) → ℕ → ℕ → Bool
is_free_from frames from i = not (frames i) && ltb i max_frames && leb from i

-- The hint is a frame, and every frame below it is in use.
abbrev pub IsHinted : FrameAllocator → Type 0
IsHinted s = (s.next_free_hint < max_frames) × ((i : ℕ) → i < s.next_free_hint → s.frames i ≡ true)

-- What an allocation does: nothing when every frame is in use; otherwise it takes the lowest free
-- frame and answers its address in the direct map.
pub data Allocated (s : FrameAllocator) (page : ℕ) (s' : FrameAllocator) : Type 0 where
  full : ((i : ℕ) → i < max_frames → s.frames i ≡ true) → page ≡ 0 → s' ≡ s → Allocated s page s'
  taken :
      (i : ℕ)
      → s.frames i ≡ false
      → i < max_frames
      → ((j : ℕ) → j < i → s.frames j ≡ true)
      → page ≡ (i * 4096 + s.hhdm_offset) % 2 ^ 64
      → ((j : ℕ) → s'.frames j ≡ (if j == i then true else s.frames j))
      → Allocated s page s'

module _ (B : FrameBits) where
  -- The mask of a word is empty but in the last word.
  masked :
      (w b : ℕ)
      → w < B.word_count
      → b < B.word_bits
      → (not (w == B.word_count - 1) || B.last_mask b) ≡ ltb (w * B.word_bits + b) max_frames
  masked w b l h = elim (Bool-cases (w == B.word_count - 1)) [
    | inl e ↦
        let q : w ≡ B.word_count - 1 = ground arith in
        rw (e, B.last_mask_lem b)
          (subst
            (λ x.
              ltb ((B.word_count - 1) * B.word_bits + b) max_frames
              ≡ ltb (x * B.word_bits + b) max_frames)
            (sym q) refl)
    | inr e ↦
        let small : w * B.word_bits + b < max_frames = B.before_last w b (ground arith) h in
        rw e (ground arith)
  ]

  hinted : (w v b r h x y : ℕ) → x ≡ y → y + r ≡ h → leb r b ≡ leb h (x + b)
  hinted w v b r h x y e d = ground arith

  later : (b h r x n y : ℕ) → x + r ≡ h → r < n → x + n ≤ y → true ≡ leb h (y + b)
  later b h r x n y d small big = ground arith

  -- In the word of the hint a bit is at least that of the hint; in later words it always is.
  above :
      (s : FrameAllocator) (w b : ℕ)
      → s.next_free_hint / B.word_bits ≤ w
      → b < B.word_bits
      → (not (w == s.next_free_hint / B.word_bits) || leb (s.next_free_hint % B.word_bits) b)
        ≡ leb s.next_free_hint (w * B.word_bits + b)
  above s w b l h =
      let W : ℕ = B.word_bits in
      let v : ℕ = s.next_free_hint / W in
      let r : ℕ = s.next_free_hint % W in
      let d : v * W + r ≡ s.next_free_hint = div-add-mod' s.next_free_hint W in
      let small : r < W = mod-lt s.next_free_hint (omega (arith, B.word_bits_positive)) in
      elim (Bool-cases (w == v)) [
        | inl e ↦
            let q : w ≡ v = ground arith in
            let m : w * W ≡ v * W = ap (λ x. x * W) q in
            rw e (hinted w v b r s.next_free_hint (w * W) (v * W) m d)
        | inr e ↦
            let m : (v + 1) * W ≤ w * W = mul-le-mul_right W (ground arith) in
            let big : v * W + W ≤ w * W = omega arith in
            rw e (later b s.next_free_hint r (v * W) W (w * W) d small big)
      ]

-- Nothing free lies below the hint, so a search from there finds the lowest free frame.
widen :
    (s : FrameAllocator) (lo hi : ℕ) (o : Option ℕ)
    → IsHinted s
    → lo ≤ s.next_free_hint
    → max_frames ≤ hi
    → Lowest (is_free_from s.frames s.next_free_hint) lo hi o
    → Lowest (λ i. not (s.frames i)) 0 max_frames o
widen s lo hi none v l u h = λ i a b. elim (Bool-cases (ltb i s.next_free_hint)) [
  | inl y ↦ rw (v.1 i (ground arith)) refl
  | inr y ↦ let e = h i (ground arith) (omega arith) in ground arith
]
widen s lo hi (some k) v l u h =
    let free : not (s.frames k) ≡ true = let e = h.0 in ground arith in
    let small : k < max_frames = let e = h.0 in ground arith in
    (
      free,
      omega arith,
      small,
      λ i a b. elim (Bool-cases (ltb i s.next_free_hint)) [
        | inl y ↦ rw (v.1 i (ground arith)) refl
        | inr y ↦ let e = h.3 i (ground arith) b in ground arith
      ],
    )

module _ (B : FrameBits) where
  first_pass :
      (s : FrameAllocator)
      → IsHinted s
      → let v : ℕ = s.next_free_hint / B.word_bits in
        Lowest
          (λ i. not (s.frames i))
          0
          max_frames
          (scan_words B (free_bits B true s) (B.word_count - v) v)
  unfolding free_bits
  first_pass s h =
      let W : ℕ = B.word_bits in
      let v : ℕ = s.next_free_hint / W in
      let d : v * W + s.next_free_hint % W ≡ s.next_free_hint = div-add-mod' s.next_free_hint W in
      let within : v * W < B.word_count * W = omega (arith, h.0, B.covers) in
      let few : v < B.word_count = lt_of_mul-lt-mul_right W within in
      let all : v + (B.word_count - v) ≡ B.word_count = omega arith in
      let top : max_frames ≤ (v + (B.word_count - v)) * W = rw all B.covers in
      widen s (v * W) ((v + (B.word_count - v)) * W)
        (scan_words B (free_bits B true s) (B.word_count - v) v) h (omega arith) top
        (scan_words-Lowest B (is_free_from s.frames s.next_free_hint) (free_bits B true s)
          (B.word_count - v) v
          (λ w b l u k. rw (masked B w b (omega arith) k, above B s w b l k) refl)
          (λ i e. ground arith))

  used_or_free :
      (frames : ℕ → Bool) (i : ℕ)
      → ((j : ℕ) → j < max_frames → frames j ≡ true)
      → is_free_from frames 0 i ≡ true
      → ⊥
  used_or_free frames i used e = let u = used i (ground arith) in ground arith

  -- The second pass never finds a frame that the first one did not.
  second_pass :
      (s : FrameAllocator)
      → IsHinted s
      → ((i : ℕ) → i < max_frames → s.frames i ≡ true)
      → scan_words B (free_bits B false s) (s.next_free_hint / B.word_bits) 0 ≡ none
  unfolding free_bits
  second_pass s h used =
      let W : ℕ = B.word_bits in
      let v : ℕ = s.next_free_hint / W in
      let d : v * W + s.next_free_hint % W ≡ s.next_free_hint = div-add-mod' s.next_free_hint W in
      let within : v * W < B.word_count * W = omega (arith, h.0, B.covers) in
      let few : v < B.word_count = lt_of_mul-lt-mul_right W within in
      let found : Lowest (is_free_from s.frames 0) (0 * W) ((0 + v) * W)
          (scan_words B (free_bits B false s) v 0) =
        scan_words-Lowest B (is_free_from s.frames 0) (free_bits B false s) v 0
          (λ w b l u k. rw (masked B w b (omega arith) k) (ground arith)) (λ i e. ground arith) in
      elim (Option-cases (scan_words B (free_bits B false s) v 0)) [
        | inl e ↦ e
        | inr (i, e) ↦
            let hit = subst (Lowest (is_free_from s.frames 0) (0 * W) ((0 + v) * W)) e found in
            absurd (used_or_free s.frames i used hit.0)
      ]

  find_frame-Lowest :
      (s : FrameAllocator)
      → IsHinted s
      → Lowest (λ i. not (s.frames i)) 0 max_frames (find_frame B s)
  unfolding find_frame
  find_frame-Lowest s h =
      let v : ℕ = s.next_free_hint / B.word_bits in
      let first = scan_words B (free_bits B true s) (B.word_count - v) v in
      let lowest = first_pass s h in
      elim (Option-cases first) [
        | inl e ↦
            let none' = subst (Lowest (λ i. not (s.frames i)) 0 max_frames) e lowest in
            let used : (i : ℕ) → i < max_frames → s.frames i ≡ true =
              λ i l. let f = none' i (omega arith) l in ground arith in
            rw (find_frame, e, second_pass s h used) none'
        | inr (i, e) ↦
            let hit = subst (Lowest (λ i. not (s.frames i)) 0 max_frames) e lowest in
            rw (find_frame, e) hit
      ]

  -- Allocating a page takes the lowest free frame, whatever the hint, and answers its address in the
  -- direct map; it answers 0 and changes nothing exactly when every frame is in use. The hint stays
  -- one below which every frame is in use.
  pub allocate_page-Allocated :
      (s : FrameAllocator)
      → IsHinted s
      → let (page, s') = allocate_page B s in Allocated s page s' × IsHinted s'
  unfolding allocate_page
  allocate_page-Allocated s h =
      let lowest = find_frame-Lowest s h in
      elim (Option-cases (find_frame B s)) [
        | inl e ↦
            let none' = subst (Lowest (λ i. not (s.frames i)) 0 max_frames) e lowest in
            rw (allocate_page, e)
              (full (λ i l. let f = none' i (omega arith) l in ground arith) refl refl, h)
        | inr (i, e) ↦
            let hit = subst (Lowest (λ i. not (s.frames i)) 0 max_frames) e lowest in
            let below : (j : ℕ) → j < i → s.frames j ≡ true =
              λ j l. let f = hit.3 j (omega arith) l in ground arith in
            rw (allocate_page, e)
              (
                taken i (let f = hit.0 in ground arith) (omega (arith, hit.2)) below refl
                    (λ j. refl),
                (ground arith, λ j l. let f = below j in ground arith),
              )
      ]

address-back :
    (i hhdm : ℕ)
    → i < max_frames
    → hhdm < 2 ^ 64
    → ((i * 4096 + hhdm) % 2 ^ 64 + 2 ^ 64 - hhdm) % 2 ^ 64 ≡ i * 4096
address-back i hhdm l h = omega arith

freed-index : (x i : ℕ) → x ≡ i * 4096 → (x - x % 4096) / 4096 ≡ i
freed-index x i e = omega arith

-- Freeing the address of a frame makes that frame free and no other, and the hint stays one below
-- which every frame is in use. The address is not 0, and the direct map starts below 2^64.
pub free_page-frames :
    (s : FrameAllocator) (i : ℕ)
    → IsHinted s
    → i < max_frames
    → s.hhdm_offset < 2 ^ 64
    → (i * 4096 + s.hhdm_offset) % 2 ^ 64 ≢ 0
    → let s' = free_page ((i * 4096 + s.hhdm_offset) % 2 ^ 64) s in
      ((j : ℕ) → s'.frames j ≡ (if j == i then false else s.frames j)) × IsHinted s'
unfolding free_page
free_page-frames s i h l b nz =
    let page : ℕ = (i * 4096 + s.hhdm_offset) % 2 ^ 64 in
    let phys : ℕ = (page + 2 ^ 64 - s.hhdm_offset) % 2 ^ 64 in
    let q : (phys - phys % 4096) / 4096 ≡ i =
      freed-index phys i (address-back i s.hhdm_offset l b) in
    let inside : leb max_frames i ≡ false = ground arith in
    rw (q, ==_false nz, inside)
      ((λ j. refl), (ground (arith, h.0), λ j u. let old = h.1 j in ground arith))
