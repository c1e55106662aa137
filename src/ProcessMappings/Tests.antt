-- ===== src/ProcessMappings/Tests.antt =====
-- The search of Katline/Memory/ProcessMappings.cppm around two mappings.
use dhos_reborn.Base.{ℕ, ◌+◌, ◌-◌, ◌*◌, ◌≡◌, refl, List, [], ◌∷◌, some, arith}
use dhos_reborn.Process.{MemoryMapping}
use dhos_reborn.ProcessMappings.{
  search_start, k_user_space_limit, find_free_user_region, search_region, first_overlap, next_base,
}
use dhos_reborn.ProcessMappings.FirstFit.{FirstFit, find_free_user_region-FirstFit}

abbrev pages_at : ℕ → ℕ → MemoryMapping
pages_at base n = record {
  address = base;
  page_base = base;
  page_count = n;
  size = n * 4096;
  object = 5;
}

abbrev two : List MemoryMapping
two = pages_at (search_start + 4096) 1 ∷ pages_at search_start 1 ∷ []

-- Two pages do not fit below the first mapping.
behind_both : find_free_user_region 3 (some two) 2 ≡ some (search_start + 8192)
unfolding find_free_user_region search_region first_overlap next_base
behind_both = refl

find_free_user_region-FirstFit_example :
    (r : ℕ) × (find_free_user_region 3 (some two) 2 ≡ some r)
    × FirstFit 8192 two search_start (k_user_space_limit - 8192) r
find_free_user_region-FirstFit_example =
    find_free_user_region-FirstFit 3 two 2 (omega arith) (omega arith) (omega arith) (omega arith)
