-- ===== src/BootInfo/Sizes.antt =====
-- compute_boot_info_size of Katline/Runtime.cppm: the size without wrapping around.
use dhos_reborn.Base.{
  ℕ, ◌+◌, ◌*◌, ◌/◌, ◌%◌, ◌^◌, ◌≡◌, ◌≤◌, ◌<◌, inl, inr, refl, ap, ◌∙◌, List, [], ◌∷◌, ◌==◌,
  if◌then◌else◌, arith, Bool-cases, length,
}
use dhos_reborn.Loader.{Rounding}
use dhos_reborn.UserHeap.Blocks.{IsRoundingUp}
use dhos_reborn.BootInfo.{
  BootData, add64, mul64, padded_sizes, name_sizes, edid_sizes, compute_boot_info_size,
}

abbrev pub up8 : ℕ → ℕ
up8 v = (v + 7) / 8 * 8

-- The sizes without wrapping around.
abbrev pub exact_padded : List ℕ → ℕ → ℕ
exact_padded [] total = total
exact_padded (n ∷ sizes) total = exact_padded sizes (up8 total + n)

pub le-exact_padded : (sizes : List ℕ) (total : ℕ) → total ≤ exact_padded sizes total
le-exact_padded [] total = omega arith
le-exact_padded (n ∷ sizes) total = omega (arith, le-exact_padded sizes (up8 total + n))

pub exact_padded-le :
    (sizes : List ℕ) (a b : ℕ) → a ≤ b → exact_padded sizes a ≤ exact_padded sizes b
exact_padded-le [] a b h = h
exact_padded-le (n ∷ sizes) a b h = exact_padded-le sizes (up8 a + n) (up8 b + n) (omega arith)

module _ (R : Rounding) where
  -- The parts of the size without wrapping around, the last the whole.
  abbrev pub after_names : BootData → ℕ
  after_names boot = exact_padded (name_sizes R boot.modules) (72 + length boot.modules * 40)

  abbrev pub after_cmdline : BootData → ℕ
  after_cmdline boot =
      let len : ℕ = length boot.cmdline in
      if len == 0 then up8 (after_names boot) else up8 (after_names boot) + (8 + len)

  abbrev pub after_list : BootData → ℕ
  after_list boot = up8 (after_cmdline boot) + 16 + length boot.framebuffers * 80

  abbrev pub exact_size : BootData → ℕ
  exact_size boot = up8 (exact_padded (edid_sizes R boot.framebuffers) (after_list boot))

module _ (R : Rounding) (rounds : IsRoundingUp R) where
  pub align_up-up8 : (v : ℕ) → v < 2 ^ 63 → R.align_up v 8 ≡ up8 v
  align_up-up8 v low =
      let (above, below, multiple) = rounds v 8 refl (omega arith) (omega arith) in omega arith

  pub padded_sizes-exact :
      (sizes : List ℕ) (total : ℕ)
      → exact_padded sizes total < 2 ^ 63
      → padded_sizes R sizes total ≡ exact_padded sizes total
  unfolding padded_sizes
  padded_sizes-exact [] total low = refl
  padded_sizes-exact (n ∷ sizes) total low =
      let more : up8 total + n ≤ exact_padded sizes (up8 total + n) =
        le-exact_padded sizes (up8 total + n) in
      let up : R.align_up total 8 ≡ up8 total = align_up-up8 total (omega arith) in
      let sum : (up8 total + n) % 2 ^ 64 ≡ up8 total + n = omega arith in
      rw (up, sum) (padded_sizes-exact sizes (up8 total + n) low)

  -- Each part is below the whole.
  pub parts-le :
      (boot : BootData)
      → (after_list R boot ≤ exact_padded (edid_sizes R boot.framebuffers) (after_list R boot))
        × (up8 (after_names R boot) ≤ after_cmdline R boot)
        × (72 + length boot.modules * 40 ≤ after_names R boot)
  parts-le boot = (
    le-exact_padded (edid_sizes R boot.framebuffers) (after_list R boot),
    ground arith,
    le-exact_padded (name_sizes R boot.modules) (72 + length boot.modules * 40),
  )

  pub front-exact :
      (boot : BootData)
      → exact_size R boot < 2 ^ 63
      → R.align_up
          (padded_sizes R
            (name_sizes R boot.modules)
            (add64 (add64 (R.align_up 56 8) 16) (mul64 (length boot.modules) 40)))
          8
        ≡ up8 (after_names R boot)
  front-exact boot low =
      let (a, b, c) = parts-le boot in
      let first : R.align_up 56 8 ≡ 56 = align_up-up8 56 (omega arith) in
      let count : length boot.modules * 40 % 2 ^ 64 ≡ length boot.modules * 40 = omega arith in
      let lists : (72 + length boot.modules * 40) % 2 ^ 64 ≡ 72 + length boot.modules * 40 =
        omega arith in
      let names : padded_sizes R (name_sizes R boot.modules) (72 + length boot.modules * 40)
          ≡ after_names R boot =
        padded_sizes-exact (name_sizes R boot.modules) (72 + length boot.modules * 40)
          (omega arith) in
      rw (first, count, lists, names) (align_up-up8 (after_names R boot) (omega arith))

  pub middle-exact :
      (boot : BootData) (named : ℕ)
      → exact_size R boot < 2 ^ 63
      → named ≡ up8 (after_names R boot)
      → (if length boot.cmdline == 0 then named else add64 named (8 + length boot.cmdline))
        ≡ after_cmdline R boot
  middle-exact boot named low e =
      let (a, b, c) = parts-le boot in
      let len : ℕ = length boot.cmdline in
      elim (Bool-cases (len == 0)) [
        | inl f ↦ rw f e
        | inr f ↦
            let whole : after_cmdline R boot ≡ up8 (after_names R boot) + (8 + len) = rw f refl in
            let sum : (up8 (after_names R boot) + (8 + len)) % 2 ^ 64
                ≡ up8 (after_names R boot) + (8 + len) =
              omega arith in
            rw (f, e, sum) refl
      ]

  pub back-exact :
      (boot : BootData) (cmdline : ℕ)
      → exact_size R boot < 2 ^ 63
      → cmdline ≡ after_cmdline R boot
      → R.align_up
          (padded_sizes R
            (edid_sizes R boot.framebuffers)
            (add64 (add64 (R.align_up cmdline 8) 16) (mul64 (length boot.framebuffers) 80)))
          8
        ≡ exact_size R boot
  back-exact boot cmdline low e =
      let (a, b, c) = parts-le boot in
      let up : R.align_up cmdline 8 ≡ up8 (after_cmdline R boot) =
        ap (λ x. R.align_up x 8) e ∙ align_up-up8 (after_cmdline R boot) (omega arith) in
      let head : (up8 (after_cmdline R boot) + 16) % 2 ^ 64 ≡ up8 (after_cmdline R boot) + 16 =
        omega arith in
      let count : length boot.framebuffers * 80 % 2 ^ 64 ≡ length boot.framebuffers * 80 =
        omega arith in
      let list : after_list R boot % 2 ^ 64 ≡ after_list R boot = omega arith in
      let start : add64 (add64 (R.align_up cmdline 8) 16) (mul64 (length boot.framebuffers) 80)
          ≡ after_list R boot =
        ap (λ x. add64 (add64 x 16) (mul64 (length boot.framebuffers) 80)) up
        ∙ ap (λ x. add64 x (mul64 (length boot.framebuffers) 80)) head
        ∙ ap (λ x. add64 (up8 (after_cmdline R boot) + 16) x) count
        ∙ list in
      ap (λ x. R.align_up (padded_sizes R (edid_sizes R boot.framebuffers) x) 8) start
      ∙ ap (λ x. R.align_up x 8)
          (padded_sizes-exact (edid_sizes R boot.framebuffers) (after_list R boot) (omega arith))
      ∙ align_up-up8 (exact_padded (edid_sizes R boot.framebuffers) (after_list R boot))
          (omega arith)

  pub compute_boot_info_size-exact :
      (boot : BootData)
      → exact_size R boot < 2 ^ 63
      → compute_boot_info_size R boot ≡ exact_size R boot
  unfolding compute_boot_info_size
  compute_boot_info_size-exact boot low =
      back-exact boot _ low (middle-exact boot _ low (front-exact boot low))
