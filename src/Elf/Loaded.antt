-- ===== src/Elf/Loaded.antt =====
-- Each byte that the segments of an image describe, for the copying loop of Applications/Loader/main.cpp
-- and of Applications/Bootstrap/main.cpp.
use dhos_reborn.Base.{
  ℕ, ◌+◌, ◌-◌, ◌^◌, ◌≤◌, ◌<◌, ◌≡◌, refl, ◌⊎◌, inl, inr, true, false, ◌&&◌, List, [], ◌∷◌, leb, ltb,
  if◌then◌else◌, arith, Bool-cases,
}
use dhos_reborn.LibC.{Memory}
use dhos_reborn.Elf.{ProgramHeader, is_load}
use dhos_reborn.Elf.Copying.{segment_byte}

-- The byte at `a` after all segments of a list, from an image in the memory `m`; where two segments
-- overlap, the later one counts.
unfoldable pub loaded_byte : Memory → ℕ → ℕ → ℕ → List ProgramHeader → ℕ → ℕ → ℕ
loaded_byte m image image_local load_base [] a old = old
loaded_byte m image image_local load_base (s ∷ segments) a old =
    loaded_byte m image image_local load_base segments a (
      if is_load s
      then segment_byte m (image + s.p_offset) (image_local + (s.p_vaddr - load_base)) s a old
      else old)

pub loaded_byte-load :
    (m : Memory) (image image_local load_base : ℕ) (s : ProgramHeader)
    (segments : List ProgramHeader) (a old : ℕ)
    → is_load s ≡ true
    → loaded_byte m image image_local load_base (s ∷ segments) a old
      ≡ loaded_byte m image image_local load_base segments a
          (segment_byte m (image + s.p_offset) (image_local + (s.p_vaddr - load_base)) s a old)
unfolding loaded_byte
loaded_byte-load m image image_local load_base s segments a old h = rw h refl

pub loaded_byte-skip :
    (m : Memory) (image image_local load_base : ℕ) (s : ProgramHeader)
    (segments : List ProgramHeader) (a old : ℕ)
    → is_load s ≡ false
    → loaded_byte m image image_local load_base (s ∷ segments) a old
      ≡ loaded_byte m image image_local load_base segments a old
unfolding loaded_byte
loaded_byte-skip m image image_local load_base s segments a old h = rw h refl

-- The segment lies in the range of `total` bytes from `load_base` on, and its ends do not wrap.
abbrev pub IsFit : ℕ → ℕ → ProgramHeader → Type 0
IsFit load_base total s =
    is_load s ≡ true
    → (load_base ≤ s.p_vaddr)
      × (s.p_vaddr + s.p_memsz ≤ load_base + total)
      × (s.p_vaddr < 2 ^ 64)
      × (s.p_offset + s.p_filesz < 2 ^ 64)

abbrev pub AllFit : ℕ → ℕ → List ProgramHeader → Type 0
AllFit load_base total [] = Unit {0}
AllFit load_base total (s ∷ segments) = IsFit load_base total s × AllFit load_base total segments

-- Where the image and its copy stand: they do not overlap, and neither reaches the end of memory.
abbrev pub ArePlaced : ℕ → ℕ → ℕ → ℕ → Type 0
ArePlaced image image_size image_local total =
    ((image_local + total ≤ image) ⊎ (image + image_size ≤ image_local))
    × (image_local + total < 2 ^ 64)
    × (image + image_size < 2 ^ 64)

pub same_source :
    (m m0 : Memory) (from to : ℕ) (s : ProgramHeader) (a : ℕ)
    → ((leb to a && ltb a (to + s.p_filesz)) ≡ true → m (from + (a - to)) ≡ m0 (from + (a - to)))
    → segment_byte m from to s a (m a) ≡ segment_byte m0 from to s a (m a)
same_source m m0 from to s a h = elim (Bool-cases (leb to a && ltb a (to + s.p_filesz))) [
  | inl y ↦ rw y (h y)
  | inr n ↦ rw n refl
]

pub kept_byte :
    (m : Memory) (from to : ℕ) (s : ProgramHeader) (a old : ℕ)
    → s.p_filesz ≤ s.p_memsz
    → (a < to) ⊎ (to + s.p_memsz ≤ a)
    → segment_byte m from to s a old ≡ old
kept_byte m from to s a old l (inl h) = ground arith
kept_byte m from to s a old l (inr h) = ground arith
