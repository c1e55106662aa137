-- ===== src/DList/Links.antt =====
-- The nodes of the lists of Katline/Memory/Heap.cppm: what an insertion or a removal writes.
use dhos_reborn.Base.{ℕ, ◌+◌, ◌≤◌, ◌≡◌, ◌⊎◌}
use dhos_reborn.DList.{Words, next_of, prev_of}

-- Two nodes share no byte.
abbrev pub Apart : ℕ → ℕ → Type 0
Apart d e = (d + 16 ≤ e) ⊎ (e + 16 ≤ d)

-- A node that is linked to itself only.
abbrev pub IsAlone : Words → ℕ → Type 0
IsAlone m d = (next_of m d ≡ d) × (prev_of m d ≡ d)
