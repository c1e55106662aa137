-- ===== src/MemoryObject/FreeList.antt =====
-- A concrete source of pages for the tests: a list of free pages.
use dhos_reborn.Base.{ℕ, Option, none, some, List, [], ◌∷◌}
use dhos_reborn.MemoryObject.{PageSource}

abbrev take_page : List ℕ → Option ℕ × List ℕ
take_page [] = (none, [])
take_page (p ∷ ps) = (some p, ps)

abbrev pub free_list : PageSource
free_list = record { Frames = List ℕ; allocate_zeroed_page = take_page; free_page = λ p ps. p ∷ ps }
