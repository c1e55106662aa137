-- ===== src/Elf/Checked.antt =====
-- Which headers the checks of Applications/Loader/main.cpp and Applications/Bootstrap/main.cpp accept.
use dhos_reborn.Base.{
  ℕ, ◌+◌, ◌*◌, ◌%◌, ◌^◌, ◌≤◌, ◌<◌, ◌≡◌, ◌≢◌, refl, ◌⊎◌, inl, inr, none, some, arith, Bool-cases,
  ◌&&◌, ◌||◌, ◌==◌, ltb, not, Bool, true, false,
}
use dhos_reborn.LibC.{Memory}
use dhos_reborn.Elf.{read_le, check_header}

-- There is an image, with room for a header, and pages have a size.
abbrev pub IsSized : ℕ → ℕ → ℕ → Type 0
IsSized image image_size page_size = (image ≢ 0) × (64 ≤ image_size) × (page_size ≢ 0)

-- 0x7f and the letters `ELF`.
abbrev pub HasMagic : Memory → ℕ → Type 0
HasMagic m image =
    (m image % 256 ≡ 0x7f)
    × (m (image + 1) % 256 ≡ 0x45)
    × (m (image + 2) % 256 ≡ 0x4c)
    × (m (image + 3) % 256 ≡ 0x46)

-- An executable, or a shared object.
abbrev pub IsProgram : Memory → ℕ → Type 0
IsProgram m image = (read_le 2 m (image + 16) ≡ 2) ⊎ (read_le 2 m (image + 16) ≡ 3)

-- Program headers take 56 bytes.
abbrev pub HasEntries : Memory → ℕ → Type 0
HasEntries m image = read_le 2 m (image + 54) ≡ 56

-- The program headers end within the image, at 64 bits.
abbrev pub HasTable : Memory → ℕ → ℕ → Type 0
HasTable m image image_size =
    (read_le 8 m (image + 32) + read_le 2 m (image + 56) * 56) % 2 ^ 64 ≤ image_size

abbrev pub GoodHeader : Memory → ℕ → ℕ → ℕ → Type 0
GoodHeader m image image_size page_size =
    IsSized image image_size page_size
    × HasMagic m image
    × HasEntries m image
    × IsProgram m image
    × HasTable m image image_size

-- What is wrong with a header, with the number for it: the first thing in this order.
pub data BadHeader (m : Memory) (image image_size page_size : ℕ) : ℕ → Type 0 where
  not_sized :
      (image ≡ 0) ⊎ ((image_size < 64) ⊎ (page_size ≡ 0)) → BadHeader m image image_size page_size 1
  no_magic :
      IsSized image image_size page_size
      → ¬ HasMagic m image
      → BadHeader m image image_size page_size 2
  no_entries :
      IsSized image image_size page_size
      → HasMagic m image
      → read_le 2 m (image + 54) ≢ 56
      → BadHeader m image image_size page_size 3
  no_program :
      IsSized image image_size page_size
      → HasMagic m image
      → HasEntries m image
      → read_le 2 m (image + 16) ≢ 2
      → read_le 2 m (image + 16) ≢ 3
      → BadHeader m image image_size page_size 4
  no_table :
      IsSized image image_size page_size
      → HasMagic m image
      → HasEntries m image
      → IsProgram m image
      → image_size < (read_le 8 m (image + 32) + read_le 2 m (image + 56) * 56) % 2 ^ 64
      → BadHeader m image image_size page_size 5

pub BadHeader-code :
    (m : Memory) (image image_size page_size code : ℕ)
    → BadHeader m image image_size page_size code
    → code ≢ 0
BadHeader-code m image image_size page_size code (BadHeader.not_sized a) = omega arith
BadHeader-code m image image_size page_size code (BadHeader.no_magic a b) = omega arith
BadHeader-code m image image_size page_size code (BadHeader.no_entries a b c) = omega arith
BadHeader-code m image image_size page_size code (BadHeader.no_program a b c d e) = omega arith
BadHeader-code m image image_size page_size code (BadHeader.no_table a b c d e) = omega arith

-- The checks pass for a good header, and give the number of what is wrong otherwise.
pub check_header-cases :
    (m : Memory) (image image_size page_size : ℕ)
    → ((check_header m image image_size page_size ≡ none) × GoodHeader m image image_size page_size)
      ⊎ ((code : ℕ) × ((check_header m image image_size page_size ≡ some code)
            × BadHeader m image image_size page_size code))
unfolding check_header
check_header-cases m image image_size page_size = elim (Bool-cases bad1) [
  | inl a ↦ inr (1, (rw a refl, BadHeader.not_sized (unsized a)))
  | inr a ↦ elim (Bool-cases magic) [
    | inr b ↦ inr (2, (rw (a, b) refl, BadHeader.no_magic (sized a) (λ h. absurd (ground arith))))
    | inl b ↦ elim (Bool-cases (read_le 2 m (image + 54) == 56)) [
      | inr c ↦
          inr (3, (rw (a, b, c) refl, BadHeader.no_entries (sized a) (has_magic b) (ground arith)))
      | inl c ↦ elim (Bool-cases (read_le 2 m (image + 16) == 2)) [
        | inl d ↦ last a b c (rw d refl) (inl (ground arith))
        | inr d ↦ elim (Bool-cases (read_le 2 m (image + 16) == 3)) [
          | inl e ↦ last a b c (rw (d, e) refl) (inr (ground arith))
          | inr e ↦ inr (
            4,
            (
              rw (a, b, c, d, e) refl,
              BadHeader.no_program (sized a) (has_magic b) (ground arith) (ground arith)
                  (ground arith),
            ),
          )
        ]
      ]
    ]
  ]
]
  where
    bad1 : Bool
    bad1 = (image == 0) || ltb image_size 64 || (page_size == 0)

    magic : Bool
    magic =
        (m image % 256 == 0x7f)
        && (m (image + 1) % 256 == 0x45)
        && (m (image + 2) % 256 == 0x4c)
        && (m (image + 3) % 256 == 0x46)

    unsized : bad1 ≡ true → (image ≡ 0) ⊎ ((image_size < 64) ⊎ (page_size ≡ 0))
    unsized a = ground arith

    sized : bad1 ≡ false → IsSized image image_size page_size
    sized a = (ground arith, ground arith, ground arith)

    has_magic : magic ≡ true → HasMagic m image
    has_magic b = (ground arith, ground arith, ground arith, ground arith)

    last :
        bad1 ≡ false
        → magic ≡ true
        → (read_le 2 m (image + 54) == 56) ≡ true
        → (not (read_le 2 m (image + 16) == 2) && not (read_le 2 m (image + 16) == 3)) ≡ false
        → IsProgram m image
        → ((check_header m image image_size page_size ≡ none)
            × GoodHeader m image image_size page_size)
          ⊎ ((code : ℕ) × ((check_header m image image_size page_size ≡ some code)
                × BadHeader m image image_size page_size code))
    last a b c d program =
        let size : read_le 2 m (image + 54) ≡ 56 = ground arith in
        elim (Bool-cases
          (ltb image_size ((read_le 8 m (image + 32) + read_le 2 m (image + 56) * 56) % 2 ^ 64))) [
            | inl e ↦ inr (
              5,
              (
                rw (a, b, c, d, size, e) refl,
                BadHeader.no_table (sized a) (has_magic b) size program (ground arith),
              ),
            )
            | inr e ↦
                inl (
                  rw (a, b, c, d, size, e) refl,
                  (sized a, has_magic b, size, program, ground arith),
                )
          ]

pub check_header-good :
    (m : Memory) (image image_size page_size : ℕ)
    → check_header m image image_size page_size ≡ none
    → GoodHeader m image image_size page_size
check_header-good m image image_size page_size passed =
    elim (check_header-cases m image image_size page_size) [
      | inl (same, good) ↦ good
      | inr (code, (failed, why)) ↦ absurd cc
    ]
