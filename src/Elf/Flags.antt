-- ===== src/Elf/Flags.antt =====
-- The flags that Applications/Loader/main.cpp and Applications/Bootstrap/main.cpp compute for a page.
use Prim.Native.Nat.{bit_and}
use dhos_reborn.Base.{
  ℕ, ◌+◌, ◌%◌, ◌^◌, ◌≡◌, inl, inr, Bool, true, false, not, ◌&&◌, ◌||◌, List, [], ◌∷◌, ◌==◌, arith,
  Bool-cases,
}
use dhos_reborn.UserSpace.{MemoryMapFlags}
use dhos_reborn.Elf.{
  ProgramHeader, touches, join_flags, elf_segment_flags, page_flags_from,
  page_flags_for_loaded_image, no_flags,
}

-- Some segment of the list passes the test.
unfoldable pub any : (ProgramHeader → Bool) → List ProgramHeader → Bool
any p [] = false
any p (s ∷ segments) = p s || any p segments

abbrev touching : ℕ → ℕ → (ProgramHeader → Bool) → ProgramHeader → Bool
touching page_base page_end p s = touches page_base page_end s && p s

-- What the loop finds from the flags `found` on.
abbrev Collected :
    ℕ → ℕ → List ProgramHeader → Bool × MemoryMapFlags → Bool × MemoryMapFlags → Type 0
Collected page_base page_end segments (o, f) (o', f') =
    (o' ≡ (o || any (touches page_base page_end) segments))
    × (f'.writable ≡ (
        f.writable
        || any (touching page_base page_end (λ s. (elf_segment_flags s).writable)) segments))
    × (f'.no_execute ≡ (
        f.no_execute
        || any (touching page_base page_end (λ s. (elf_segment_flags s).no_execute)) segments))

page_flags_from-Collected :
    (segments : List ProgramHeader) (page_base page_end : ℕ) (found : Bool × MemoryMapFlags)
    → Collected page_base page_end segments found
        (page_flags_from segments page_base page_end found)
unfolding page_flags_from any
page_flags_from-Collected [] page_base page_end found = (ground arith, ground arith, ground arith)
page_flags_from-Collected (s ∷ segments) page_base page_end found =
    elim (Bool-cases (touches page_base page_end s)) [
      | inl y ↦
          let (a, b, c) =
            page_flags_from-Collected segments page_base page_end
              (true, join_flags found.1 (elf_segment_flags s)) in
          rw y (ground arith, ground arith, ground arith)
      | inr n ↦
          let (a, b, c) = page_flags_from-Collected segments page_base page_end found in
          rw n (ground arith, ground arith, ground arith)
    ]

-- A page belongs to the image exactly when some segment reaches into it; it is writable when one
-- of these segments is, and not executable when one of these segments is not.
pub page_flags_for_loaded_image_lem :
    (segments : List ProgramHeader) (page_base page_size : ℕ)
    → let (overlaps, flags) = page_flags_for_loaded_image segments page_base page_size in
      let page_end : ℕ = (page_base + page_size) % 2 ^ 64 in
      (overlaps ≡ any (touches page_base page_end) segments)
      × (flags.writable
          ≡ any (λ s. touches page_base page_end s && not (bit_and s.p_flags 2 == 0)) segments)
      × (flags.no_execute
          ≡ any (λ s. touches page_base page_end s && (bit_and s.p_flags 1 == 0)) segments)
unfolding page_flags_for_loaded_image elf_segment_flags
page_flags_for_loaded_image_lem segments page_base page_size =
    page_flags_from-Collected segments page_base ((page_base + page_size) % 2 ^ 64)
      (false, no_flags)
