-- ===== src/FrameAllocator/Tests.antt =====
-- The allocator of Katline/Memory/FrameAllocator.cppm with words of 64 bits, where frames 0, 1 and
-- 3 are in use.
use dhos_reborn.Base.{
  ℕ, ◌+◌, ◌-◌, ◌*◌, ◌^◌, ◌≡◌, ◌<◌, refl, false, ltb, ◌==◌, ◌||◌, not, arith, if◌then◌else◌, Option,
}
use dhos_reborn.FrameAllocator.{
  FrameBits, FrameAllocator, max_frames, first_bit, allocate_page, free_page,
}
use dhos_reborn.FrameAllocator.Search.{
  IsHinted, Allocated, allocate_page-Allocated, free_page-frames,
}

inside : (w b : ℕ) → w + 1 < 2 ^ 22 → b < 64 → w * 64 + b < max_frames
inside w b l h = omega arith

abbrev words : FrameBits
words = record {
  word_bits = 64;
  word_count = 2 ^ 22;
  last_mask = λ b. ltb ((2 ^ 22 - 1) * 64 + b) max_frames;
  word_bits_positive = λ e. omega arith;
  covers = omega arith;
  before_last = inside;
  last_mask_lem = λ b. refl;
}

abbrev allocator : FrameAllocator
allocator = record { hhdm_offset = 2 ^ 63; frames = λ i. ltb i 2 || (i == 3); next_free_hint = 1 }

-- The first free bit of a word.
lowest_bit : first_bit (λ b. not (ltb b 2 || (b == 3))) 64 0 ≡ Option.some 2
unfolding first_bit
lowest_bit = refl

allocator-IsHinted : IsHinted allocator
allocator-IsHinted = (omega arith, λ i l. ground arith)

allocate_page-Allocated_example :
    Allocated allocator (allocate_page words allocator).0 (allocate_page words allocator).1
    × IsHinted (allocate_page words allocator).1
allocate_page-Allocated_example = allocate_page-Allocated words allocator allocator-IsHinted

free_page-frames_example :
    ((j : ℕ)
      → (free_page (2 ^ 63 + 4096) allocator).frames j
        ≡ (if j == 1 then false else allocator.frames j))
    × IsHinted (free_page (2 ^ 63 + 4096) allocator)
free_page-frames_example =
    free_page-frames allocator 1 allocator-IsHinted (omega arith) (omega arith) (λ e. omega arith)
