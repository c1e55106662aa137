-- ===== src/UserHeap/Tests.antt =====
-- A block of Libraries/LibRuntime/OperatorNewDelete.cpp that is allocated and given back.
use native.Mathlib.Nat.{div-add-mod', mod-lt, mul-mod_left}
use dhos_reborn.Base.{ℕ, ◌+◌, ◌-◌, ◌*◌, ◌/◌, ◌%◌, ◌<◌, ◌≡◌, ◌⊎◌, ap, ◌∙◌, [], arith}
use dhos_reborn.UserSpace.{Kernel, World, Outcome}
use dhos_reborn.UserSpace.Messages.{make_request}
use dhos_reborn.Loader.{Rounding}
use dhos_reborn.UserHeap.{allocation_alignment, total_size, allocate_block, AllocationHeader}
use dhos_reborn.UserHeap.Blocks.{IsRoundingUp, InMapping, allocate_block-InMapping}

abbrev rounding : Rounding
rounding = record { align_down = λ v m. v - v % m; align_up = λ v m. v + m - 1 - (v + m - 1) % m }

rounding-IsRoundingUp : IsRoundingUp rounding
rounding-IsRoundingUp v m power positive fits =
    let x : ℕ = v + m - 1 in
    let small : x % m < m = mod-lt x positive in
    let parts : x / m * m + x % m ≡ x = div-add-mod' x m in
    let multiple : x - x % m ≡ x / m * m = omega arith in
    (omega arith, omega arith, ap (λ y. y % m) multiple ∙ mul-mod_left (x / m) m)

abbrev willing : Kernel
willing = record {
  answers = λ n. 7;
  messages = λ n. make_request 0 0 0 0;
  pointers = λ n. 0x10000;
  effects = λ n m. m;
}

abbrev world : World
world = record { memory = λ a. 0; calls = []; last_cookie = 0 }

allocate_block-InMapping_example :
    ((allocate_block willing rounding 100 64 world).0 ≡ Outcome.value 0)
    ⊎ (((allocate_block willing rounding 100 64 world).0 ≡ Outcome.value 0x10040)
        × InMapping 0x10000 200 100 64 0x10040)
unfolding allocation_alignment total_size
allocate_block-InMapping_example =
    allocate_block-InMapping willing rounding 100 64 world rounding-IsRoundingUp (omega arith)
      (omega arith)

abbrev header : AllocationHeader
header = record { memory_object = 7; mapping = 0x10000; mapping_size = 200; magic = 0x4448 }
