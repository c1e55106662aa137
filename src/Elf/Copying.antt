-- ===== src/Elf/Copying.antt =====
-- The memory after Applications/Loader/main.cpp or Applications/Bootstrap/main.cpp copied the segments
-- of an image.
use dhos_reborn.Base.{
  ℕ, zero, suc, ◌+◌, ◌-◌, ◌%◌, ◌^◌, ◌≤◌, ◌<◌, ◌≡◌, refl, ◌⊎◌, inl, inr, ◌&&◌, leb, ltb,
  if◌then◌else◌, arith, Bool-cases,
}
use dhos_reborn.LibC.{Memory, memcpy}
use dhos_reborn.LibC.Copy.{memcpy_lem, memset_lem}
use dhos_reborn.Elf.{ProgramHeader, read_le, read_program_header, copy_segment}

-- The byte at `a` once a segment was copied to `to` from `from`; `old` is the byte before.
abbrev pub segment_byte : Memory → ℕ → ℕ → ProgramHeader → ℕ → ℕ → ℕ
segment_byte m from to s a old =
    if leb to a && ltb a (to + s.p_filesz)
    then m (from + (a - to))
    else if leb (to + s.p_filesz) a && ltb a (to + s.p_memsz)
    then 0
    else old

pub copy_segment_lem :
    (image to : ℕ) (s : ProgramHeader) (m : Memory) (a : ℕ)
    → s.p_filesz ≤ s.p_memsz
    → let from : ℕ = (image + s.p_offset) % 2 ^ 64 in
      ((to ≤ from) ⊎ (from + s.p_filesz ≤ to))
      → copy_segment image to s m a ≡ segment_byte m from to s a (m a)
unfolding copy_segment
copy_segment_lem image to s m a l h =
    let from : ℕ = (image + s.p_offset) % 2 ^ 64 in
    let copied = memcpy_lem to from s.p_filesz m a h in
    elim (Bool-cases (ltb s.p_filesz s.p_memsz)) [
      | inr e ↦ rw (e, copied) (ground arith)
      | inl e ↦
          rw
            (
              e,
              memset_lem (to + s.p_filesz) 0 (s.p_memsz - s.p_filesz) (memcpy to from s.p_filesz m)
                  a,
              copied,
            )
            (ground arith)
    ]

read_le-agree :
    (n : ℕ) (m m' : Memory) (a : ℕ)
    → ((k : ℕ) → k < n → m (a + k) ≡ m' (a + k))
    → read_le n m a ≡ read_le n m' a
unfolding read_le
read_le-agree zero m m' a h = refl
read_le-agree (suc n) m m' a h =
    let e : m a ≡ m' a = let z : a + 0 ≡ a = omega arith in rw z at (h 0 (omega arith)) in
    let rest =
      read_le-agree n m m' (a + 1)
        (λ k l. let z : a + suc k ≡ a + 1 + k = omega arith in rw z at (h (suc k) (omega arith))) in
    rw (e, rest) refl

-- Two memories agree on a range.
abbrev pub SameOn : ℕ → ℕ → Memory → Memory → Type 0
SameOn lo hi m m' = (a : ℕ) → lo ≤ a → a < hi → m a ≡ m' a

pub read_program_header-agree :
    (m m' : Memory) (lo hi a : ℕ)
    → SameOn lo hi m m'
    → lo ≤ a
    → a + 56 ≤ hi
    → read_program_header m a ≡ read_program_header m' a
unfolding read_program_header
read_program_header-agree m m' lo hi a h l u =
    let part = λ (n k : ℕ) (b : k + n ≤ 56).
      read_le-agree n m m' (a + k) (λ j lt. h (a + k + j) (omega arith) (omega arith)) in
    let first = read_le-agree 4 m m' a (λ j lt. h (a + j) (omega arith) (omega arith)) in
    rw
      (
        first,
        part 4 4 (omega arith),
        part 8 8 (omega arith),
        part 8 16 (omega arith),
        part 8 24 (omega arith),
        part 8 32 (omega arith),
        part 8 40 (omega arith),
        part 8 48 (omega arith),
      )
      refl
