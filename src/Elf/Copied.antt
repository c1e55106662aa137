-- ===== src/Elf/Copied.antt =====
-- The loop of Applications/Loader/main.cpp and of Applications/Bootstrap/main.cpp that copies the
-- segments of an image, against a description of each byte.
use dhos_reborn.Base.{
  ℕ, zero, suc, ◌+◌, ◌-◌, ◌*◌, ◌%◌, ◌^◌, ◌≤◌, ◌<◌, ◌≡◌, refl, sym, ap, ◌∙◌, ◌⊎◌, inl, inr, Bool,
  true, false, ◌&&◌, List, [], ◌∷◌, leb, ltb, arith, Bool-cases,
}
use dhos_reborn.LibC.{Memory}
use dhos_reborn.Elf.{
  ProgramHeader, read_program_header, program_headers, is_load, is_bad, span_of, copy_segment,
  copy_segments, destination,
}
use dhos_reborn.Elf.Spans.{AllWithin, span_from-AllWithin}
use dhos_reborn.Elf.Loaded.{
  loaded_byte, loaded_byte-load, loaded_byte-skip, IsFit, AllFit, ArePlaced, same_source, kept_byte,
}
use dhos_reborn.Elf.Copying.{segment_byte, copy_segment_lem, SameOn, read_program_header-agree}

-- What copying a list of segments does: all of them if none is bad, and nothing outside the copy.
abbrev pub Copied : ℕ → ℕ → ℕ → ℕ → List ProgramHeader → Memory → Memory → Bool × Memory → Type 0
Copied image image_local load_base total segments m0 m (done, m') =
    (done ≡ true → (a : ℕ) → m' a ≡ loaded_byte m0 image image_local load_base segments a (m a))
    × ((a : ℕ) → (a < image_local) ⊎ (image_local + total ≤ a) → m' a ≡ m a)

module _ (image image_size image_local load_base total : ℕ)
    (placed : ArePlaced image image_size image_local total) where
  -- One good segment.
  copy_one :
      (s : ProgramHeader) (m0 m : Memory)
      → SameOn image (image + image_size) m m0
      → IsFit load_base total s
      → is_load s ≡ true
      → is_bad image_size s ≡ false
      → (a : ℕ)
      → copy_segment image (destination image_local load_base s) s m a
        ≡ segment_byte m0 (image + s.p_offset) (image_local + (s.p_vaddr - load_base)) s a (m a)
  copy_one s m0 m same fit load good a =
      let (low, high, small, ends) = fit load in
      let (apart, top, end) = placed in
      let d : destination image_local load_base s ≡ image_local + (s.p_vaddr - load_base) =
        omega arith in
      let sized : s.p_filesz ≤ s.p_memsz = ground arith in
      let inside : s.p_offset + s.p_filesz ≤ image_size = ground arith in
      let f : (image + s.p_offset) % 2 ^ 64 ≡ image + s.p_offset = omega arith in
      let from : ℕ = image + s.p_offset in
      let to : ℕ = image_local + (s.p_vaddr - load_base) in
      let away : ((to ≤ from) ⊎ (from + s.p_filesz ≤ to)) = elim apart [
        | inl l ↦ inl (omega arith)
        | inr l ↦ inr (omega arith)
      ] in
      let away' : ((to ≤ (image + s.p_offset) % 2 ^ 64)
          ⊎ ((image + s.p_offset) % 2 ^ 64 + s.p_filesz ≤ to)) =
        rw f away in
      let step = copy_segment_lem image to s m a sized away' in
      let source : (leb to a && ltb a (to + s.p_filesz)) ≡ true
          → m (from + (a - to)) ≡ m0 (from + (a - to)) =
        λ e. same (from + (a - to)) (omega arith) (ground arith) in
      rw (d, step, f) (same_source m m0 from to s a source)

  -- The memory of the image is left alone.
  copy_one-SameOn :
      (s : ProgramHeader) (m0 m : Memory)
      → SameOn image (image + image_size) m m0
      → IsFit load_base total s
      → is_load s ≡ true
      → is_bad image_size s ≡ false
      → SameOn image
          (image + image_size)
          (copy_segment image (destination image_local load_base s) s m)
          m0
  copy_one-SameOn s m0 m same fit load good a l u =
      let (low, high, small, ends) = fit load in
      copy_one s m0 m same fit load good a
      ∙ kept_byte m0 (image + s.p_offset) (image_local + (s.p_vaddr - load_base)) s a (m a)
          (ground arith) (away a l u)
      ∙ same a l u
    where
      away :
          (a : ℕ)
          → image ≤ a
          → a < image + image_size
          → (a < image_local + (s.p_vaddr - load_base))
            ⊎ (image_local + (s.p_vaddr - load_base) + s.p_memsz ≤ a)
      away a l u =
          let (low, high, small, ends) = fit load in
          elim placed.0 [ inl h ↦ inr (omega arith) | inr h ↦ inl (omega arith) ]

  copy_one-outside :
      (s : ProgramHeader) (m0 m : Memory)
      → SameOn image (image + image_size) m m0
      → IsFit load_base total s
      → is_load s ≡ true
      → is_bad image_size s ≡ false
      → (a : ℕ) → (a < image_local) ⊎ (image_local + total ≤ a)
      → copy_segment image (destination image_local load_base s) s m a ≡ m a
  copy_one-outside s m0 m same fit load good a out =
      let (low, high, small, ends) = fit load in
      copy_one s m0 m same fit load good a
      ∙ kept_byte m0 (image + s.p_offset) (image_local + (s.p_vaddr - load_base)) s a (m a)
          (ground arith) (elim out [ inl h ↦ inl (omega arith) | inr h ↦ inr (omega arith) ])

  -- The loop, from any memory in which the image stands.
  copy_segments-Copied :
      (n a : ℕ) (m0 m : Memory)
      → SameOn image (image + image_size) m m0
      → AllFit load_base total (program_headers n m0 a)
      → image ≤ a
      → a + n * 56 ≤ image + image_size
      → Copied image image_local load_base total
          (program_headers n m0 a)
          m0
          m
          (copy_segments n a image image_size image_local load_base m)
  unfolding copy_segments program_headers loaded_byte
  copy_segments-Copied zero a m0 m same fit l u = (λ e b. refl, λ b out. refl)
  copy_segments-Copied (suc n) a m0 m same fit l u =
      let s = read_program_header m0 a in
      let read : read_program_header m a ≡ s =
        read_program_header-agree m m0 image (image + image_size) a same l (omega arith) in
      elim (Bool-cases (is_load s)) [
        | inr skip ↦
            let rest =
              copy_segments-Copied n (a + 56) m0 m same fit.1 (omega arith) (omega arith) in
            let segments = program_headers n m0 (a + 56) in
            rw (read, skip)
              (
                (λ e b.
                    rest.0 e b
                    ∙ sym
                        (loaded_byte-skip m0 image image_local load_base s segments b (m b) skip)),
                rest.1,
              )
        | inl load ↦ elim (Bool-cases (is_bad image_size s)) [
          | inl bad ↦ rw (read, load, bad) ((λ e. cc), λ b out. refl)
          | inr good ↦
              let m1 : Memory = copy_segment image (destination image_local load_base s) s m in
              let rest =
                copy_segments-Copied n (a + 56) m0 m1 (copy_one-SameOn s m0 m same fit.0 load good)
                  fit.1 (omega arith) (omega arith) in
              let segments = program_headers n m0 (a + 56) in
              let one = copy_one s m0 m same fit.0 load good in
              rw (read, load, good)
                (
                  (λ e b.
                      rest.0 e b
                      ∙ ap (loaded_byte m0 image image_local load_base segments b) (one b)
                      ∙ sym (
                          loaded_byte-load m0 image image_local load_base s segments b (m b) load)),
                  λ b out. rest.1 b out ∙ copy_one-outside s m0 m same fit.0 load good b out,
                )
        ]
      ]

-- The ends of the segments, in memory and in the file, do not wrap.
abbrev pub AllSmall : List ProgramHeader → Type 0
AllSmall [] = Unit {0}
AllSmall (s ∷ segments) =
    (is_load s ≡ true → (s.p_vaddr + s.p_memsz < 2 ^ 64) × (s.p_offset + s.p_filesz < 2 ^ 64))
    × AllSmall segments

AllWithin-AllFit :
    (load_base total lo hi : ℕ) (segments : List ProgramHeader)
    → load_base ≤ lo
    → hi ≤ load_base + total
    → AllWithin lo hi segments
    → AllSmall segments
    → AllFit load_base total segments
AllWithin-AllFit load_base total lo hi [] l h within small = tt
AllWithin-AllFit load_base total lo hi (s ∷ segments) l h within small = (
  (λ load.
      let (low, high) = within.0 load in
      let (memory, file) = small.0 load in (omega arith, omega arith, omega arith, omega arith)),
  AllWithin-AllFit load_base total lo hi segments l h within.1 small.1,
)

-- Take an image whose program headers lie inside it and whose segments' ends do not wrap, and a
-- range of `total` bytes from `load_base` on that holds the span of the segments; the mapping at
-- `image_local` is as large and does not overlap the image. If the copying reaches its end, then
-- each byte of memory is what the last segment over it says: a byte of the file, a zero behind the
-- file's bytes, or what stood there before. Whether or not it reaches its end, nothing outside the
-- mapping changes.
pub copy_segments_lem :
    (image image_size image_local load_base total n a : ℕ) (m : Memory)
    → ArePlaced image image_size image_local total
    → load_base ≤ (span_of (program_headers n m a)).min_vaddr
    → (span_of (program_headers n m a)).max_vaddr ≤ load_base + total
    → AllSmall (program_headers n m a)
    → image ≤ a
    → a + n * 56 ≤ image + image_size
    → Copied image image_local load_base total
        (program_headers n m a)
        m
        m
        (copy_segments n a image image_size image_local load_base m)
unfolding span_of
copy_segments_lem image image_size image_local load_base total n a m placed low high small l u =
    let segments = program_headers n m a in
    let within =
      span_from-AllWithin segments
        (record { found_load = false; min_vaddr = 2 ^ 64 - 1; max_vaddr = 0 }) in
    copy_segments-Copied image image_size image_local load_base total placed n a m m (λ b x y. refl)
      (AllWithin-AllFit load_base total (span_of segments).min_vaddr (span_of segments).max_vaddr
        segments low high within small)
      l u

-- The copying writes to the mapping only: where the program headers lie inside the image, the
-- segments' ends do not wrap, the range of `total` bytes from `load_base` on holds the span of the
-- segments and the mapping, as large, does not overlap the image, no byte outside the mapping changes, whether the loop reaches its end or meets a bad segment.
pub copy_segments-outside :
    (image image_size image_local load_base total n first a : ℕ) (m : Memory)
    → ArePlaced image image_size image_local total
    → load_base ≤ (span_of (program_headers n m first)).min_vaddr
    → (span_of (program_headers n m first)).max_vaddr ≤ load_base + total
    → AllSmall (program_headers n m first)
    → image ≤ first
    → first + n * 56 ≤ image + image_size
    → (a < image_local) ⊎ (image_local + total ≤ a)
    → (copy_segments n first image image_size image_local load_base m).1 a ≡ m a
copy_segments-outside image image_size image_local load_base total n first a m placed low high small
      l u out =
    (copy_segments_lem image image_size image_local load_base total n first m placed low high small
        l u).1
      a out
