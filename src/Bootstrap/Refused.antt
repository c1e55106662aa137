-- ===== src/Bootstrap/Refused.antt =====
-- Images that Applications/Loader/main.cpp and Applications/Bootstrap/main.cpp turn down by their header.
use dhos_reborn.Base.{ℕ, ◌≡◌, refl, false, ◌∷◌, ◌==◌, length, arith, ◌⊎◌, inl, inr, ◌≢◌}
use dhos_reborn.UserSpace.{Kernel, World, Outcome, Call, syscall}
use dhos_reborn.Loader.{Rounding, load_elf_into_new_process}
use dhos_reborn.Elf.Checked.{GoodHeader, BadHeader, BadHeader-code, check_header-cases}
use dhos_reborn.Loader.Refused.{load_elf-refused}
use dhos_reborn.Bootstrap.{start_elf_process, failed_check, fail_if, debug_point, close_all}

-- Both programs turn down the image, for the reason with the number.
abbrev pub TurnedDown : Kernel → (code : ℕ) → World → Outcome ℕ × World → Outcome ℕ × World → Type 0
TurnedDown K code w loaded (r, w') =
    (loaded ≡ (Outcome.returned code, w))
    × (r ≡ Outcome.returned 0)
    × (w'.calls ≡ Call.debug_u64 0xb100 code ∷ w.calls)
    × (w'.memory ≡ K.effects (length w.calls) w.memory)

-- An image either has a good header, or something is wrong with its header and then both programs turn
-- it down: the loader returns the number of the first thing that is wrong, before any system call is made and with
-- memory unchanged; the bootstrap program reports the same number in a debug call, its only one, and
-- answers `false`.
pub bad_header-refused :
    (K : Kernel) (R : Rounding) (fuel process image image_size page_size capabilities : ℕ)
    (w : World)
    → GoodHeader w.memory image image_size page_size
      ⊎ ((code : ℕ) × (BadHeader w.memory image image_size page_size code
            × TurnedDown K code w
                (load_elf_into_new_process K R fuel image image_size page_size capabilities w)
                (start_elf_process K R fuel process image image_size page_size w)))
unfolding start_elf_process failed_check fail_if debug_point close_all syscall
bad_header-refused K R fuel process image image_size page_size capabilities w =
    elim (check_header-cases w.memory image image_size page_size) [
      | inl (passed, good) ↦ inl good
      | inr (code, (bad, why)) ↦
          let positive : code ≢ 0 = BadHeader-code w.memory image image_size page_size code why in
          let real : (code == 0) ≡ false = ground arith in
          let refused : load_elf_into_new_process K R fuel image image_size page_size capabilities w
              ≡ (Outcome.returned code, w) =
            load_elf-refused K R fuel image image_size page_size capabilities code w bad in
          inr (code, (why, rw (bad, real) (refused, refl, refl, refl)))
    ]
