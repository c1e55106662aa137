-- ===== src/Elf/Tests.antt =====
-- An image as Applications/Loader/main.cpp reads it, and the theorems about it at that image.
use dhos_reborn.Base.{◌≡◌, refl, inr, none, List, [], ◌∷◌, ltb, ◌==◌, if◌then◌else◌, arith, inl}
use dhos_reborn.LibC.{memcpy, copy_up, memset, fill, store}
use dhos_reborn.Elf.Sample.{image}
use dhos_reborn.UserSpace.{writable_flags, stack_flags}
use dhos_reborn.Elf.{
  ProgramHeader, read_le, read_program_header, program_headers, check_header, read_header,
  span_from, span_of, copy_segments, copy_segment,
}
use dhos_reborn.Elf.Copied.{copy_segments-outside}
use dhos_reborn.Elf.Runs.{Pages, flags_at, runs, flags_at-runs}

well_formed : check_header image 4096 256 4096 ≡ none
unfolding check_header read_header read_le
well_formed = refl

copied : (copy_segments 1 4160 4096 256 0x10000 0x400000 image).1 0x10001 ≡ 0xbb
unfolding copy_segments copy_segment read_program_header read_le memcpy copy_up memset fill store
copied = refl

copy_segments-outside_example : (copy_segments 1 4160 4096 256 0x10000 0x400000 image).1 4217 ≡ 0xbb
unfolding span_of span_from program_headers read_program_header read_le
copy_segments-outside_example =
    copy_segments-outside 4096 256 0x10000 0x400000 4096 1 4160 4217 image
      (inr (omega arith), omega arith, omega arith) (omega arith) (omega arith)
      ((λ load. (omega arith, omega arith)), tt) (omega arith) (omega arith) (inl (omega arith))

-- Three pages of an image; the first has flags of its own.
abbrev pages : Pages
pages p = (ltb p 3, if p == 0 then stack_flags else writable_flags)

flags_at-runs_example : flags_at (runs 5 pages 4 0) 1 ≡ writable_flags ∷ []
flags_at-runs_example = flags_at-runs 5 pages 4 0 1 (omega arith) (omega arith) (omega arith)

abbrev segments : List ProgramHeader
segments =
    record {
      p_type = 1;
      p_flags = 5;
      p_offset = 120;
      p_vaddr = 0x400000;
      p_paddr = 0;
      p_filesz = 2;
      p_memsz = 4;
      p_align = 0;
    }
    ∷ []
