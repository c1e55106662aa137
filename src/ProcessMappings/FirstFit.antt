-- ===== src/ProcessMappings/FirstFit.antt =====
-- What the search of Katline/Memory/ProcessMappings.cppm answers, given enough fuel.
use dhos_reborn.Base.{
  ℕ, zero, suc, ◌+◌, ◌-◌, ◌*◌, ◌%◌, ◌^◌, ◌≤◌, ◌<◌, ◌≡◌, refl, ◌≢◌, ◌⊎◌, inl, inr, true, some, List,
  [], ◌∷◌, ltb, leb, arith, count, Bool-cases, ◌∙◌, Option-cases, length, ==_false, ltb-false,
}
use dhos_reborn.Process.{MemoryMapping}
use dhos_reborn.ProcessMappings.{
  k_page_size, k_user_space_limit, search_start, span_bytes, first_overlap, next_base,
  search_region, find_free_user_region,
}
use dhos_reborn.ProcessMappings.Overlap.{
  end_of, AllUser, AllApart, above, first_overlap-none, first_overlap-Blocks, first_overlap-skips,
  first_overlap-count, next_base-end,
}

-- No address from `lo` up to `hi` begins a free range.
abbrev pub NoneFree : ℕ → List MemoryMapping → ℕ → ℕ → Type 0
NoneFree size ms lo hi = (b : ℕ) → lo ≤ b → b < hi → ¬ AllApart b size ms

-- The answer of a first-fit search for `size` bytes from `lo` on, with `last` the highest candidate.
abbrev pub FirstFit : ℕ → List MemoryMapping → ℕ → ℕ → ℕ → Type 0
FirstFit size ms lo last r =
    ((r ≡ 0) × NoneFree size ms lo (last + 1))
    ⊎ ((lo ≤ r) × (r ≤ last) × AllApart r size ms × NoneFree size ms lo r)

search_region-blocked :
    (fuel size last base next : ℕ) (ms : List MemoryMapping) (m : MemoryMapping)
    → leb base last ≡ true
    → first_overlap base size ms ≡ some m
    → next_base base m ≡ next
    → search_region (suc fuel) size last ms base ≡ search_region fuel size last ms next
unfolding search_region
search_region-blocked fuel size last base next ms m go blocked e =
    rw (go, blocked, e, search_region)

search_region-FirstFit :
    (fuel size last : ℕ) (ms : List MemoryMapping) (lo base : ℕ)
    → last + size ≤ k_user_space_limit
    → AllUser ms
    → k_page_size ≤ lo
    → lo ≤ base
    → NoneFree size ms lo base
    → count (above base) ms < fuel
    → (r : ℕ) × (search_region fuel size last ms base ≡ some r) × FirstFit size ms lo last r
unfolding search_region
search_region-FirstFit zero size last ms lo base fits user pos le nf fuel = absurd (omega arith)
search_region-FirstFit (suc f) size last ms lo base fits user pos le nf fuel =
    elim (Bool-cases (leb base last)) [
      | inr stop ↦ (0, rw (stop, search_region), inl (refl, λ b l h. nf b l (ground arith)))
      | inl go ↦
          let lt : base + size < 2 ^ 64 = ground arith in
          elim (Option-cases (first_overlap base size ms)) [
            | inl free ↦ (
              base,
              rw (go, free, search_region),
              inr (le, ground arith, first_overlap-none base size ms lt user free, nf),
            )
            | inr (m, blocked) ↦
                let k = first_overlap-Blocks base size ms m lt user blocked in
                let e : next_base base m ≡ end_of m = next_base-end base size m k (omega arith) in
                let less = first_overlap-count base size ms m lt user blocked in
                let skipped = λ (b : ℕ) (l : lo ≤ b) (h : b < end_of m).
                  skip size ms lo base b m lt user blocked nf l h in
                let (r, run, fit) =
                  search_region-FirstFit f size last ms lo (end_of m) fits user pos
                    (omega (arith, k.ends)) skipped (omega arith) in
                (r, search_region-blocked f size last base (end_of m) ms m go blocked e ∙ run, fit)
          ]
    ]
  where
    skip :
        (size : ℕ) (ms : List MemoryMapping) (lo base b : ℕ) (m : MemoryMapping)
        → base + size < 2 ^ 64
        → AllUser ms
        → first_overlap base size ms ≡ some m
        → NoneFree size ms lo base
        → lo ≤ b
        → b < end_of m
        → ¬ AllApart b size ms
    skip size ms lo base b m lt user blocked nf l h = elim (Bool-cases (ltb b base)) [
      | inl t ↦ nf b l (ground arith)
      | inr t ↦ first_overlap-skips base size b ms m lt user blocked (ground arith) h
    ]

count-le-length : (b : ℕ) (ms : List MemoryMapping) → count (above b) ms ≤ length ms
count-le-length b [] = omega arith
count-le-length b (m ∷ ms) = ground (arith, count-le-length b ms)

find_free_user_region-search :
    (fuel : ℕ) (ms : List MemoryMapping) (page_count : ℕ)
    → 0 < page_count
    → page_count * k_page_size ≤ k_user_space_limit - search_start
    → find_free_user_region fuel (some ms) page_count
      ≡ search_region fuel
          (page_count * k_page_size)
          (k_user_space_limit - page_count * k_page_size)
          ms
          search_start
unfolding find_free_user_region span_bytes
find_free_user_region-search fuel ms page_count pos small =
    let size : ℕ = page_count * k_page_size in
    let last : ℕ = k_user_space_limit - size in
    let span : size % 2 ^ 64 ≡ size = omega arith in
    let highest : (k_user_space_limit + 2 ^ 64 - size) % 2 ^ 64 ≡ last = omega arith in
    let some_pages : page_count ≢ 0 = omega arith in
    let some_bytes : size ≢ 0 = omega arith in
    let room : search_start ≤ last = omega arith in
    rw (span, highest, ==_false some_pages, ==_false some_bytes, ltb-false room)

-- For a number of pages that fits in the user half of the address space and mappings that lie in
-- it, the search ends within one round more than there are mappings. It answers the lowest address
-- from the start of the search on whose pages are all free and lie in user space, or 0 if there is
-- no such address.
pub find_free_user_region-FirstFit :
    (fuel : ℕ) (ms : List MemoryMapping) (page_count : ℕ)
    → 0 < page_count
    → page_count * k_page_size ≤ k_user_space_limit - search_start
    → AllUser ms
    → length ms < fuel
    → (r : ℕ) × (find_free_user_region fuel (some ms) page_count ≡ some r)
      × FirstFit
          (page_count * k_page_size)
          ms
          search_start
          (k_user_space_limit - page_count * k_page_size)
          r
find_free_user_region-FirstFit fuel ms page_count pos small user enough =
    let size : ℕ = page_count * k_page_size in
    let last : ℕ = k_user_space_limit - size in
    let (r, run, fit) =
      search_region-FirstFit fuel size last ms search_start search_start (omega arith) user
        (omega arith) (omega arith) (λ b l h. absurd (omega arith))
        (omega (arith, count-le-length search_start ms)) in
    (r, find_free_user_region-search fuel ms page_count pos small ∙ run, fit)
