-- ===== src/MemoryMap/Fits.antt =====
-- The base address that Katline/Syscalls/MemoryMapHelpers.cppm chooses for a mapping, and the
-- mappings that are there.
use dhos_reborn.Base.{
  ℕ, ◌+◌, ◌-◌, ◌*◌, ◌%◌, ◌^◌, ◌≤◌, ◌<◌, ◌≡◌, ◌≢◌, inl, inr, true, some, List, [], ◌∷◌, ◌++◌, ◌==◌,
  ltb, arith, Bool-cases, length,
}
use dhos_reborn.Process.{MemoryMapping}
use dhos_reborn.ProcessMappings.{
  k_page_size, k_user_space_limit, search_start, find_free_user_region,
}
use dhos_reborn.ProcessMappings.Overlap.{end_of, AllUser, Apart, AllApart, overlaps_lem}
use dhos_reborn.ProcessMappings.FirstFit.{FirstFit, find_free_user_region-FirstFit}
use dhos_reborn.MapPages.{is_free_for, can_use_requested_base}
use dhos_reborn.MemoryMap.{or_zero, choose_base}

-- The mappings lie in user space and no two of them share an address.
abbrev pub IsLaidOut : List MemoryMapping → Type 0
IsLaidOut [] = Unit {0}
IsLaidOut (m ∷ ms) =
    (end_of m ≤ k_user_space_limit)
    × AllApart m.page_base (m.page_count * k_page_size) ms
    × IsLaidOut ms

pub IsLaidOut-AllUser : (ms : List MemoryMapping) → IsLaidOut ms → AllUser ms
IsLaidOut-AllUser [] h = tt
IsLaidOut-AllUser (m ∷ ms) h = (h.0, IsLaidOut-AllUser ms h.2)

AllApart-append :
    (base size : ℕ) (ms : List MemoryMapping) (m : MemoryMapping)
    → AllApart base size ms
    → Apart base size m
    → AllApart base size (ms ++ m ∷ [])
AllApart-append base size [] m h a = (a, tt)
AllApart-append base size (x ∷ ms) m h a = (h.0, AllApart-append base size ms m h.1 a)

pub IsLaidOut-append :
    (ms : List MemoryMapping) (m : MemoryMapping)
    → IsLaidOut ms
    → end_of m ≤ k_user_space_limit
    → AllApart m.page_base (m.page_count * k_page_size) ms
    → IsLaidOut (ms ++ m ∷ [])
IsLaidOut-append [] m h user a = (user, tt, tt)
IsLaidOut-append (x ∷ ms) m h user a = (
  h.0,
  AllApart-append x.page_base (x.page_count * k_page_size) ms m h.1 (flip a.0),
  IsLaidOut-append ms m h.2 user a.1,
)
  where
    flip :
        Apart m.page_base (m.page_count * k_page_size) x
        → Apart x.page_base (x.page_count * k_page_size) m
    flip (inl l) = inr l
    flip (inr r) = inl r

is_free_for-AllApart :
    (base size : ℕ) (ms : List MemoryMapping)
    → base + size < 2 ^ 64
    → AllUser ms
    → is_free_for base size ms ≡ true
    → AllApart base size ms
unfolding is_free_for
is_free_for-AllApart base size [] lt user h = tt
is_free_for-AllApart base size (m ∷ ms) lt user h = (
  ground (arith, overlaps_lem base size m lt user.0),
  is_free_for-AllApart base size ms lt user.1 (ground arith),
)

-- A base address for a range of pages that lies in user space and meets no mapping.
abbrev pub Fits : ℕ → ℕ → List MemoryMapping → Type 0
Fits base page_count ms =
    (base + page_count * k_page_size ≤ k_user_space_limit)
    × AllApart base (page_count * k_page_size) ms

can_use_requested_base-bounds :
    (ms : List MemoryMapping) (base page_count : ℕ)
    → page_count * k_page_size ≤ k_user_space_limit
    → can_use_requested_base ms base page_count ≡ true
    → (base + page_count * k_page_size ≤ k_user_space_limit)
      × (is_free_for base (page_count * k_page_size) ms ≡ true)
unfolding can_use_requested_base
can_use_requested_base-bounds ms base page_count small h =
    let e : page_count * k_page_size % 2 ^ 64 ≡ page_count * k_page_size = omega arith in
    let k = rw e at h in ground arith

can_use_requested_base-Fits :
    (ms : List MemoryMapping) (base page_count : ℕ)
    → page_count * k_page_size ≤ k_user_space_limit
    → AllUser ms
    → can_use_requested_base ms base page_count ≡ true
    → Fits base page_count ms
can_use_requested_base-Fits ms base page_count small user h =
    let (fits, free) = can_use_requested_base-bounds ms base page_count small h in
    (fits, is_free_for-AllApart base (page_count * k_page_size) ms (omega arith) user free)

-- The search answers a base that fits, if it answers any.
found-Fits :
    (ms : List MemoryMapping) (page_count : ℕ)
    → 0 < page_count
    → page_count * k_page_size ≤ k_user_space_limit - search_start
    → AllUser ms
    → or_zero (find_free_user_region (length ms + 1) (some ms) page_count) ≢ 0
    → Fits (or_zero (find_free_user_region (length ms + 1) (some ms) page_count)) page_count ms
found-Fits ms page_count pos small user nz =
    let (r, run, fit) =
      find_free_user_region-FirstFit (length ms + 1) ms page_count pos small user (omega arith) in
    rw run (answered r fit (λ z. nz (rw (run, z))))
  where
    answered :
        (r : ℕ)
        → FirstFit
            (page_count * k_page_size)
            ms
            search_start
            (k_user_space_limit - page_count * k_page_size)
            r
        → r ≢ 0
        → Fits r page_count ms
    answered r (inl (z, nf)) ne = absurd (ne z)
    answered r (inr (lo, hi, free, nf)) ne = (omega arith, free)

pub choose_base-Fits :
    (ms : List MemoryMapping) (requested page_offset page_count : ℕ)
    → 0 < page_count
    → page_count * k_page_size ≤ k_user_space_limit - search_start
    → AllUser ms
    → choose_base ms requested page_offset page_count ≢ 0
    → Fits (choose_base ms requested page_offset page_count) page_count ms
unfolding choose_base
choose_base-Fits ms requested page_offset page_count pos small user nz =
    elim (Bool-cases (requested == 0)) [
      | inl any ↦ rw any (found-Fits ms page_count pos small user (rw any at nz))
      | inr asked ↦ elim (Bool-cases (ltb requested page_offset)) [
        | inl low ↦ absurd (ground arith)
        | inr high ↦
            elim (Bool-cases (can_use_requested_base ms (requested - page_offset) page_count)) [
              | inr taken ↦ absurd (ground arith)
              | inl usable ↦
                  rw (asked, high, usable)
                    (can_use_requested_base-Fits ms (requested - page_offset) page_count
                      (omega arith) user usable)
            ]
      ]
    ]
