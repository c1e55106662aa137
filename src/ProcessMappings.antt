-- ===== src/ProcessMappings.antt =====
-- Katline/Memory/ProcessMappings.cppm: the search for a free range of user addresses.
-- Addresses are 64-bit, and sums wrap as they do there. The outer loop takes fuel.
pub mod Overlap
pub mod FirstFit
mod Tests
use dhos_reborn.Base.{
  ℕ, zero, suc, ◌+◌, ◌-◌, ◌*◌, ◌%◌, ◌^◌, Bool, true, false, not, ◌||◌, Option, none, some, List, [],
  ◌∷◌, ◌==◌, ltb, leb, if◌then◌else◌,
}
use dhos_reborn.Process.{MemoryMapping}

-- Katline/Arch/Constants.cppm
abbrev pub k_page_size : ℕ
k_page_size = 4096

abbrev pub k_user_space_limit : ℕ
k_user_space_limit = 2 ^ 47

abbrev pub search_start : ℕ
search_start = 2 ^ 46

unfoldable pub range_overlaps : ℕ → ℕ → ℕ → ℕ → Bool
range_overlaps a_base a_size b_base b_size =
    let a_end : ℕ = (a_base + a_size) % 2 ^ 64 in
    let b_end : ℕ = (b_base + b_size) % 2 ^ 64 in
    if ltb a_end a_base || ltb b_end b_base
    then true
    else not (leb a_end b_base || leb b_end a_base)

unfoldable pub span_bytes : ℕ → ℕ
span_bytes page_count = page_count * k_page_size % 2 ^ 64

unfoldable pub overlaps : ℕ → ℕ → MemoryMapping → Bool
unfolding range_overlaps span_bytes
overlaps base size m = range_overlaps base size m.page_base (span_bytes m.page_count)

-- The inner loop: the first mapping that a candidate range overlaps.
unfoldable pub first_overlap : ℕ → ℕ → List MemoryMapping → Option MemoryMapping
unfolding overlaps
first_overlap base size [] = none
first_overlap base size (m ∷ ms) =
    let rest = first_overlap base size ms in if overlaps base size m then some m else rest

-- The candidate after one that overlaps `m`: its end if that lies above, and then the step.
unfoldable pub next_base : ℕ → MemoryMapping → ℕ
unfolding span_bytes
next_base base m =
    let mapping_end : ℕ = (m.page_base + span_bytes m.page_count) % 2 ^ 64 in
    if ltb base mapping_end
    then (mapping_end - k_page_size + k_page_size) % 2 ^ 64
    else (base + k_page_size) % 2 ^ 64

-- The outer loop from `base` on, up to `last`: an address, 0 if there is none; `none` when the
-- fuel runs out.
unfoldable pub search_region : ℕ → ℕ → ℕ → List MemoryMapping → ℕ → Option ℕ
search_region zero size last ms base = none
search_region (suc fuel) size last ms base = elim (leb base last) [
  | false ↦ some 0
  | true ↦ elim (first_overlap base size ms) [
    | none ↦ some base
    | some m ↦ search_region fuel size last ms (next_base base m)
  ]
]

-- `process` is the list of its mappings, or `none` for `nullptr`.
unfoldable pub find_free_user_region : ℕ → Option (List MemoryMapping) → ℕ → Option ℕ
find_free_user_region fuel none page_count = some 0
find_free_user_region fuel (some ms) page_count =
    let size = span_bytes page_count in
    let last = (k_user_space_limit + 2 ^ 64 - size) % 2 ^ 64 in
    if (page_count == 0) || (size == 0) || ltb last search_start
    then some 0
    else search_region fuel size last ms search_start
