-- ===== src/FrameAllocator.antt =====
-- Katline/Memory/FrameAllocator.cppm: the bitmap of page frames and the search from a hint on.
-- A set bit is a frame in use. The words of `CL::BitArray`, of vendor/CommonLib, enter as an
-- interface, and operations on a word are written out on its bits.
pub mod Lowest
pub mod Search
mod Tests
use dhos_reborn.Base.{
  ℕ, zero, suc, ◌+◌, ◌-◌, ◌*◌, ◌/◌, ◌%◌, ◌^◌, ◌<◌, ◌≤◌, ◌≡◌, ◌≢◌, Bool, true, false, not, ◌&&◌,
  ◌||◌, Option, none, some, ◌==◌, ltb, leb, if◌then◌else◌,
}

abbrev pub max_frames : ℕ
max_frames = 2 ^ 28

-- `CL::BitArray<max_frames>`: its words cover the frames, and the mask of the last word has the
-- bits that stand for frames.
pub record FrameBits : Type 0 where
  pub word_bits : ℕ
  pub word_count : ℕ
  pub last_mask : ℕ → Bool
  pub word_bits_positive : word_bits ≢ 0
  pub covers : max_frames ≤ word_count * word_bits
  pub before_last : (w b : ℕ) → w + 1 < word_count → b < word_bits → w * word_bits + b < max_frames
  pub last_mask_lem : (b : ℕ) → last_mask b ≡ ltb ((word_count - 1) * word_bits + b) max_frames

pub record FrameAllocator : Type 0 where
  pub hhdm_offset : ℕ
  pub frames : ℕ → Bool
  pub next_free_hint : ℕ

abbrev pub set_frame : ℕ → Bool → (ℕ → Bool) → ℕ → Bool
set_frame i used frames j = if j == i then used else frames j

-- `first_clear_bit_index` over the `n` bits from `b` on; `none` if no bit is free.
unfoldable pub first_bit : (ℕ → Bool) → ℕ → ℕ → Option ℕ
first_bit free zero b = none
first_bit free (suc n) b = let rest = first_bit free n (b + 1) in if free b then some b else rest

module _ (B : FrameBits) where
  -- `free_bits` of a word; `first` tells the first pass from the second.
  unfoldable pub free_bits : Bool → FrameAllocator → ℕ → ℕ → Bool
  free_bits first s w b =
      let start_word : ℕ = s.next_free_hint / B.word_bits in
      let start_bit : ℕ = s.next_free_hint % B.word_bits in
      not (s.frames (w * B.word_bits + b))
      && (not (w == B.word_count - 1) || B.last_mask b)
      && (not (first && (w == start_word)) || leb start_bit b)

  abbrev found : ℕ → ℕ → Option ℕ
  found w b = if ltb (w * B.word_bits + b) max_frames then some (w * B.word_bits + b) else none

  -- The loop over `n` words from `w` on.
  unfoldable pub scan_words : (ℕ → ℕ → Bool) → ℕ → ℕ → Option ℕ
  scan_words free zero w = none
  scan_words free (suc n) w =
      let rest = scan_words free n (w + 1) in
      elim (first_bit (free w) B.word_bits 0) [ none ↦ rest | some b ↦ found w b ]

  -- The two passes.
  unfoldable pub find_frame : FrameAllocator → Option ℕ
  find_frame s =
      let start_word : ℕ = s.next_free_hint / B.word_bits in
      elim (scan_words (free_bits true s) (B.word_count - start_word) start_word) [
        | some i ↦ some i
        | none ↦ scan_words (free_bits false s) start_word 0
      ]

  abbrev take_frame : Option ℕ → FrameAllocator → ℕ × FrameAllocator
  take_frame none s = (0, s)
  take_frame (some i) s = (
    (i * 4096 + s.hhdm_offset) % 2 ^ 64,
    record s {
      frames = set_frame i true s.frames;
      next_free_hint = if ltb (i + 1) max_frames then i + 1 else 0;
    },
  )

  unfoldable pub allocate_page : FrameAllocator → ℕ × FrameAllocator
  unfolding find_frame
  allocate_page s = take_frame (find_frame s) s

-- Rounding an address down changes nothing before the division.
unfoldable pub free_page : ℕ → FrameAllocator → FrameAllocator
free_page page s =
    let phys : ℕ = (page + 2 ^ 64 - s.hhdm_offset) % 2 ^ 64 in
    let index : ℕ = (phys - phys % 4096) / 4096 in
    if page == 0 then s else if leb max_frames index then s else record s {
      frames = set_frame index false s.frames;
      next_free_hint = if ltb index s.next_free_hint then index else s.next_free_hint;
    }
