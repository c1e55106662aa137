-- ===== src/Loader/Refused.antt =====
-- Images that Applications/Loader/main.cpp and Applications/Bootstrap/main.cpp turn down by their header.
use dhos_reborn.Base.{ℕ, ◌≡◌, refl, some}
use dhos_reborn.UserSpace.{Kernel, World, Outcome}
use dhos_reborn.Elf.{check_header}
use dhos_reborn.Loader.{Rounding, load_elf_into_new_process, refuse}

-- An image with a bad header is turned down with the number of the first failed check, before any
-- system call is made and with memory unchanged.
pub load_elf-refused :
    (K : Kernel) (R : Rounding) (fuel image image_size page_size capabilities code : ℕ) (w : World)
    → check_header w.memory image image_size page_size ≡ some code
    → load_elf_into_new_process K R fuel image image_size page_size capabilities w
      ≡ (Outcome.returned code, w)
unfolding load_elf_into_new_process refuse
load_elf-refused K R fuel image image_size page_size capabilities code w bad = rw bad refl
