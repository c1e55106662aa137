-- ===== src/Loader/Tests.antt =====
-- Runs of Applications/Loader/main.cpp against a kernel that answers every call with the same number.
use dhos_reborn.LibC.{Memory}
use dhos_reborn.Loader.Found.{IsFirst, IsAbsent, find_entry_by_id_lem}
use dhos_reborn.Loader.{BootModuleView, find_entry_by_id}
use dhos_reborn.Base.{
  ◌==◌, if◌then◌else◌, true, false, ℕ, ◌+◌, ◌-◌, ◌%◌, ◌≡◌, ◌⊎◌, refl, [], arith, inr,
}
use dhos_reborn.Elf.Sample.{image}
use dhos_reborn.UserSpace.{Kernel, World, Outcome}
use dhos_reborn.UserSpace.Messages.{make_request}
use dhos_reborn.Elf.{read_program_header, copy_segment}
use dhos_reborn.LibC.{memset, memcpy}
use dhos_reborn.Elf.Runs.{Pages, runs}
use dhos_reborn.Loader.{Rounding, Target, headers_of, pages_of, map_runs}
use dhos_reborn.Loader.Mapped.{AllMapped, Stopped, map_runs_lem}
use dhos_reborn.UserSpace.{Message}
use dhos_reborn.UserSpace.Messages.{load_boot_module_by_id}
use dhos_reborn.Loader.Requests.{Fuel, BootData}
use dhos_reborn.Elf.{span_of}
use dhos_reborn.Elf.Loaded.{loaded_byte}
use dhos_reborn.Loader.{place_image}
use dhos_reborn.Loader.Placed.{RoundsPages, base_of, size_of, place_image_lem}
use dhos_reborn.Loader.Started.{Started}

abbrev rounding : Rounding
rounding = record { align_down = λ v m. v - v % m; align_up = λ v m. v + m - 1 - (v + m - 1) % m }

abbrev willing : Kernel
willing = record {
  answers = λ n. 0x10000;
  messages = λ n. make_request 0 0 0 0;
  pointers = λ n. 0x10000;
  effects = λ n m. m;
}

abbrev world : World
world = record { memory = image; calls = []; last_cookie = 0 }

-- Every byte is 0.
abbrev empty : World
empty = record { memory = λ a. 0; calls = []; last_cookie = 0 }

abbrev target : Target
target = record {
  process = 1;
  image_handle = 2;
  image_local_map = 0x10000;
  load_base = 0x400000;
  total_size = 4096;
  page_size = 4096;
}

map_runs_lem_example :
    let end : Outcome (Unit {0}) × World = map_runs willing 2 target 4096 1 0 world in
    let f : Pages = pages_of (headers_of 4096 world) 0x400000 4096 in
    AllMapped willing target (runs 2 f 1 0) [] end ⊎ Stopped willing target (runs 2 f 1 0) [] end
map_runs_lem_example =
    map_runs_lem willing 2 target 4096 1 0 world (λ n m l. refl) (omega arith) (omega arith)

-- A request to load the module 1, while the kernel hands out no boot data.
abbrev forgetful : Kernel
forgetful = record {
  answers = λ n. 7;
  messages = λ n. make_request 0 1 0 0;
  pointers = λ n. 0;
  effects = λ n m. m;
}

abbrev request : Message
request = make_request load_boot_module_by_id 5 1 0

abbrev fuel : Fuel
fuel = record { waiting = 2; pages = 2 }

abbrev nothing : BootData
nothing = record { boot_info = 0; boot_blob = 0 }

-- Where the image goes.
abbrev place : Target
place = record {
  process = 7;
  image_handle = 0x10000;
  image_local_map = 0x10000;
  load_base = 0x400000;
  total_size = 4096;
  page_size = 4096;
}

is_placed : (place_image willing rounding 7 4096 256 4096 world).0 ≡ Outcome.value place
unfolding place_image read_program_header copy_segment memset memcpy
is_placed = refl

rounding-RoundsPages : RoundsPages rounding 4096
rounding-RoundsPages = ((λ v. omega arith), λ v fits. omega arith)

place_image_lem_example :
    (place.load_base ≡ base_of rounding 4096 (headers_of 4096 world))
    × (place.total_size ≡ size_of rounding 4096 (headers_of 4096 world))
    × ((a : ℕ)
        → (place_image willing rounding 7 4096 256 4096 world).1.memory a
          ≡ loaded_byte image 4096 0x10000 0x400000 (headers_of 4096 world) a (image a))
unfolding headers_of span_of read_program_header
place_image_lem_example =
    place_image_lem willing rounding 7 4096 256 4096 world place (λ n m l. refl) (omega arith)
      rounding-RoundsPages (omega arith) ((λ load. (omega arith, omega arith)), tt) (omega arith)
      (inr (omega arith), omega arith, omega arith) is_placed

-- Two entries at 256, the second with the id 9 and the size 5.
abbrev entries : Memory
entries a = if a == 296 then 9 else if a == 320 then 5 else 0

find_entry_by_id_lem_example :
    let r : BootModuleView = find_entry_by_id 2 entries 256 9 in
    ((r.found ≡ true) × ((i : ℕ) × IsFirst 2 entries 256 9 r i))
    ⊎ ((r.found ≡ false) × IsAbsent 2 entries 256 9)
find_entry_by_id_lem_example = find_entry_by_id_lem 2 entries 256 9
