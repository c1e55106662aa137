-- ===== src/LibC/Tests.antt =====
-- Runs of Libraries/LibC/src/String.cpp, and its theorems at concrete memories.
use dhos_reborn.Base.{◌-◌, ◌≡◌, refl, some}
use dhos_reborn.LibC.{Memory, memmove, strlen}
use dhos_reborn.LibC.Copy.{memmove_lem}

abbrev bytes : Memory
bytes a = 9 - a

-- The ranges overlap, and the copy runs downwards.
moved : memmove 3 1 4 bytes 6 ≡ 5
unfolding memmove
moved = refl

counted : strlen 20 2 bytes ≡ some 7
unfolding strlen
counted = refl

memmove_lem_example : memmove 3 1 4 bytes 6 ≡ 5
memmove_lem_example = memmove_lem 3 1 4 bytes 6
