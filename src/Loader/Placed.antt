-- ===== src/Loader/Placed.antt =====
-- `load_elf_into_new_process` of Applications/Loader/main.cpp up to the copy of the segments: where
-- the image is placed, and what stands there.
use dhos_reborn.Base.{
  ℕ, suc, ◌+◌, ◌-◌, ◌*◌, ◌%◌, ◌^◌, ◌≤◌, ◌<◌, ◌≡◌, sym, ap, ◌∙◌, inl, inr, true, not, ◌||◌, List,
  leb, ltb, ◌==◌, length, arith, Bool-cases,
}
use dhos_reborn.LibC.{Memory}
use dhos_reborn.UserSpace.{Kernel, World, Outcome, is_error, syscall, map_memory, map_memory_object}
use dhos_reborn.Elf.{ProgramHeader, Header, read_header, span_of, copy_segments}
use dhos_reborn.Elf.Loaded.{loaded_byte, ArePlaced}
use dhos_reborn.Elf.Copied.{AllSmall, copy_segments_lem}
use dhos_reborn.Loader.{Rounding, Target, headers_of, fail_if, place_image}

-- What `CL::Memory::align_down` and `align_up` promise for the size of a page.
abbrev pub RoundsPages : Rounding → ℕ → Type 0
RoundsPages R page_size =
    ((v : ℕ) → R.align_down v page_size ≤ v)
    × ((v : ℕ) → v + page_size ≤ 2 ^ 64 → v ≤ R.align_up v page_size)

-- Where an image starts and how large it is, as the loader computes them.
abbrev pub base_of : Rounding → ℕ → List ProgramHeader → ℕ
base_of R page_size segments = R.align_down (span_of segments).min_vaddr page_size

abbrev pub size_of : Rounding → ℕ → List ProgramHeader → ℕ
size_of R page_size segments =
    R.align_up (((span_of segments).max_vaddr + 2 ^ 64 - base_of R page_size segments) % 2 ^ 64)
      page_size

-- The program headers lie inside the image.
abbrev pub HasHeaders : ℕ → ℕ → Memory → Type 0
HasHeaders image image_size m =
    let h : Header = read_header m image in h.e_phoff + h.e_phnum * 56 ≤ image_size

abbrev load_base_of : Outcome Target → ℕ
load_base_of (Outcome.value t) = t.load_base
load_base_of _ = 0

abbrev total_size_of : Outcome Target → ℕ
total_size_of (Outcome.value t) = t.total_size
total_size_of _ = 0

-- The hypotheses of the copy hold for the place that the loader computes.
copied_there :
    (R : Rounding) (image image_size page_size image_local : ℕ) (w : World)
    → 0 < page_size
    → RoundsPages R page_size
    → HasHeaders image image_size w.memory
    → AllSmall (headers_of image w)
    → ltb (span_of (headers_of image w)).min_vaddr (span_of (headers_of image w)).max_vaddr ≡ true
    → (span_of (headers_of image w)).max_vaddr + page_size ≤ 2 ^ 64
    → ArePlaced image image_size image_local (size_of R page_size (headers_of image w))
    → let h : Header = read_header w.memory image in
      let (done, m) =
        copy_segments h.e_phnum
          ((image + h.e_phoff) % 2 ^ 64)
          image
          image_size
          image_local
          (base_of R page_size (headers_of image w))
          w.memory in
      done ≡ true
      → (a : ℕ)
      → m a
        ≡ loaded_byte w.memory image image_local
            (base_of R page_size (headers_of image w))
            (headers_of image w)
            a
            (w.memory a)
unfolding headers_of
copied_there R image image_size page_size image_local w positive (down, up) headers small ordered
      high placed done =
    let h : Header = read_header w.memory image in
    let segments : List ProgramHeader = headers_of image w in
    let base : ℕ = base_of R page_size segments in
    let total : ℕ = size_of R page_size segments in
    let low : base ≤ (span_of segments).min_vaddr = down (span_of segments).min_vaddr in
    let less : (span_of segments).min_vaddr < (span_of segments).max_vaddr = ground arith in
    let span : ℕ = ((span_of segments).max_vaddr + 2 ^ 64 - base) % 2 ^ 64 in
    let exact : span ≡ (span_of segments).max_vaddr - base = omega arith in
    let covers : span ≤ total = up span (omega arith) in
    let whole : (image + h.e_phoff) % 2 ^ 64 ≡ image + h.e_phoff = omega arith in
    (copy_segments_lem image image_size image_local base total h.e_phnum
        ((image + h.e_phoff) % 2 ^ 64) w.memory placed low (omega arith) small (omega arith)
        (omega arith)).0
      done

-- Take an image whose program headers lie inside it and whose segments' ends do not wrap, and a last
-- segment at least a page below the end of memory; the kernel's calls leave the memory of the loader
-- alone, and the mapping that it makes does not overlap the image. If the image is placed, then the
-- target has the base and the size that the span of the segments asks for, rounded to pages, and each
-- byte of memory is what the last segment over it says, at its distance from the base.
pub place_image_lem :
    (K : Kernel) (R : Rounding) (process image image_size page_size : ℕ) (w : World) (t : Target)
    → ((n : ℕ) (m : Memory) → length w.calls ≤ n → K.effects n m ≡ m)
    → 0 < page_size
    → RoundsPages R page_size
    → HasHeaders image image_size w.memory
    → AllSmall (headers_of image w)
    → (span_of (headers_of image w)).max_vaddr + page_size ≤ 2 ^ 64
    → ArePlaced image image_size
        (K.answers (suc (length w.calls)))
        (size_of R page_size (headers_of image w))
    → (place_image K R process image image_size page_size w).0 ≡ Outcome.value t
    → (t.load_base ≡ base_of R page_size (headers_of image w))
      × (t.total_size ≡ size_of R page_size (headers_of image w))
      × ((a : ℕ)
          → (place_image K R process image image_size page_size w).1.memory a
            ≡ loaded_byte w.memory image
                (K.answers (suc (length w.calls)))
                t.load_base
                (headers_of image w)
                a
                (w.memory a))
unfolding place_image syscall fail_if map_memory_object map_memory
place_image_lem K R process image image_size page_size w t keeps positive rounds headers small high
      placed =
    let n : ℕ = length w.calls in
    let segments : List ProgramHeader = headers_of image w in
    let h : Header = read_header w.memory image in
    let same : K.effects (suc n) (K.effects n w.memory) ≡ w.memory =
      keeps (suc n) (K.effects n w.memory) (omega arith) ∙ keeps n w.memory (omega arith) in
    let result =
      copy_segments h.e_phnum ((image + h.e_phoff) % 2 ^ 64) image image_size (K.answers (suc n))
        (base_of R page_size segments) w.memory in
    elim (Bool-cases (
      not (span_of segments).found_load
      || leb (span_of segments).max_vaddr (span_of segments).min_vaddr)) [
        | inl x ↦ rw x (λ e. cc)
        | inr x ↦
            let ordered : ltb (span_of segments).min_vaddr (span_of segments).max_vaddr ≡ true =
              ground arith in
            elim (Bool-cases (is_error (K.answers n))) [
              | inl y ↦ rw (x, y) (λ e. cc)
              | inr y ↦ elim (Bool-cases (is_error (K.answers (suc n)))) [
                | inl z ↦ rw (x, y, z) (λ e. cc)
                | inr z ↦ elim (Bool-cases (K.answers (suc n) == 0)) [
                  | inl v ↦ rw (x, y, z, v) (λ e. cc)
                  | inr v ↦ elim (Bool-cases result.0) [
                    | inr bad ↦ rw (x, y, z, v, same, bad) (λ e. cc)
                    | inl done ↦
                        let bytes =
                          copied_there R image image_size page_size (K.answers (suc n)) w positive
                            rounds headers small ordered high placed done in
                        rw (x, y, z, v, same, done)
                          (λ e. (
                            sym (ap load_base_of e),
                            sym (ap total_size_of e),
                            λ a.
                                bytes a
                                ∙ ap
                                    (λ b.
                                      loaded_byte w.memory image (K.answers (suc n)) b segments a
                                        (w.memory a))
                                    (ap load_base_of e),
                          ))
                  ]
                ]
              ]
            ]
      ]
