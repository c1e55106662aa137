-- ===== src/Bootstrap/Tests.antt =====
-- Runs of Applications/Bootstrap/main.cpp and Applications/Bootstrap/RuntimeStubs.cpp.
use dhos_reborn.Base.{◌≡◌, refl, ◌==◌, ◌||◌, [], if◌then◌else◌, [], some, ◌⊎◌, ℕ}
use dhos_reborn.LibC.{Memory, memset, memcpy, memcmp, strlen}
use dhos_reborn.Bootstrap.{Name, base_name, base_name_from, start_elf_process}
use dhos_reborn.UserSpace.{Kernel, World}
use dhos_reborn.UserSpace.Messages.{make_request}
use dhos_reborn.Loader.{Rounding, load_elf_into_new_process}
use dhos_reborn.Elf.Checked.{GoodHeader, BadHeader}
use dhos_reborn.Elf.{check_header}
use dhos_reborn.Bootstrap.Refused.{TurnedDown, bad_header-refused}
use dhos_reborn.Bootstrap.Stubs.{stub_memset, stub_memcpy, stub_memcmp, stub_strlen, stubs-LibC}

-- "/a/b" at 100.
abbrev path : Memory
path a =
    if (a == 100) || (a == 102)
    then 0x2f
    else if a == 101
    then 0x61
    else if a == 103
    then 0x62
    else 0

abbrev name : Name
name = record { start = 100; len = 4 }

last_part : base_name path name ≡ record { start = 103; len = 1 }
unfolding base_name base_name_from
last_part = refl

stubs-LibC_example :
    ((stub_memset 100 7 3 path).1 ≡ memset 100 7 3 path)
    × ((stub_memcpy 100 102 3 path).1 ≡ memcpy 100 102 3 path)
    × (stub_memcmp 100 102 3 path ≡ memcmp 100 102 3 path)
    × (stub_strlen 9 100 path ≡ strlen 9 100 path)
stubs-LibC_example = stubs-LibC 100 102 3 7 9 path

abbrev rounding : Rounding
rounding = record { align_down = λ v m. v; align_up = λ v m. v }

abbrev silent : Kernel
silent = record {
  answers = λ n. 0;
  messages = λ n. make_request 0 0 0 0;
  pointers = λ n. 0;
  effects = λ n m. m;
}

-- Every byte of memory is 0.
abbrev empty : World
empty = record { memory = λ a. 0; calls = []; last_cookie = 0 }

no_magic : check_header (λ a. 0) 4096 256 4096 ≡ some 2
unfolding check_header
no_magic = refl

bad_header-refused_example :
    GoodHeader (λ a. 0) 4096 256 4096
    ⊎ ((code : ℕ) × (BadHeader (λ a. 0) 4096 256 4096 code
          × TurnedDown silent code empty
              (load_elf_into_new_process silent rounding 2 4096 256 4096 1 empty)
              (start_elf_process silent rounding 2 7 4096 256 4096 empty)))
bad_header-refused_example = bad_header-refused silent rounding 2 7 4096 256 4096 1 empty
