-- ===== src/BootInfo/Enough.antt =====
-- compute_boot_info_size and build_boot_info_object of Katline/Runtime.cppm: whether the size that is computed is
-- enough.
use mathlib.Core.Path.{subst}
use dhos_reborn.Base.{
  ℕ, ◌+◌, ◌*◌, ◌^◌, ◌≡◌, ◌≤◌, ◌<◌, inl, inr, refl, ap, ◌∙◌, some, List, [], ◌∷◌, ◌==◌,
  if◌then◌else◌, arith, Bool-cases, length,
}
use dhos_reborn.MemoryObject.{MemoryObject}
use dhos_reborn.Loader.{Rounding}
use dhos_reborn.UserHeap.Blocks.{IsRoundingUp}
use dhos_reborn.BootBlob.{Bytes}
use dhos_reborn.BootBlob.Pages.{Backed}
use dhos_reborn.BootInfo.{
  BootData, BootInfoTable, add64, mul64, name_sizes, edid_sizes, align, patch, then_do,
  write_if_any, write_modules, write_cmdline, finish, write_boot_info, compute_boot_info_size,
  table_words,
}
use dhos_reborn.BootInfo.Sizes.{
  up8, exact_padded, exact_padded-le, after_names, parts-le, compute_boot_info_size-exact,
  after_cmdline, after_list, exact_size,
}
use dhos_reborn.BootInfo.Writes.{
  At, then_do-At, align-At, patch-At, write-At, write_if_any-At, write_entries-At, write_names-At,
  Within, then_do-Within, write_framebuffers-Within,
}

module _ (R : Rounding) (rounds : IsRoundingUp R) (hhdm : ℕ) (o : MemoryObject) (base : ℕ → ℕ)
    (backed : Backed hhdm o.pages base o.size) (small : o.size < 2 ^ 63) where
  write_modules-At :
      (boot : BootData) (at : ℕ) (m : Bytes)
      → at + 16 + length boot.modules * 40 ≤ o.size
      → exact_padded (name_sizes R boot.modules) (at + 16 + length boot.modules * 40) ≤ o.size
      → At
          (exact_padded (name_sizes R boot.modules) (at + 16 + length boot.modules * 40))
          (write_modules R hhdm o boot at (at, m))
  unfolding write_modules
  write_modules-At boot at m entries fits =
      let last : ℕ =
        exact_padded (name_sizes R boot.modules) (at + 16 + length boot.modules * 40) in
      then_do-At (at + 16) last _ _
        (write-At R rounds hhdm o base backed small (length boot.modules ∷ add64 at 16 ∷ []) at m
          (omega arith))
        (λ m1.
          then_do-At (at + 16 + length boot.modules * 40) last _ _
            (write_entries-At R rounds hhdm o base backed small 0 boot.modules (at + 16) m1 entries)
            (λ m2.
              write_names-At R rounds hhdm o base backed small at 0 boot.modules
                (at + 16 + length boot.modules * 40) m2 (omega arith) fits))

  write_cmdline-At :
      (cmdline : List ℕ) (offset : ℕ) (m : Bytes)
      → offset + (8 + length cmdline) ≤ o.size
      → At (offset + (8 + length cmdline)) (write_cmdline R hhdm o cmdline (offset, m))
  unfolding write_cmdline
  write_cmdline-At cmdline offset m fits =
      then_do-At (offset + 8) (offset + (8 + length cmdline)) _ _
        (write-At R rounds hhdm o base backed small (length cmdline ∷ []) offset m (omega arith))
        (λ m1.
          subst (λ x. At x (write_if_any R hhdm o cmdline (offset + 8, m1))) (omega arith)
            (write_if_any-At R rounds hhdm o base backed small cmdline (offset + 8) m1
              (omega arith)))

  patch_table-Within :
      (t : BootInfoTable) (offset : ℕ) (m : Bytes)
      → 56 ≤ o.size
      → offset ≤ o.size
      → Within R rounds hhdm o base backed small o.size
          (patch R hhdm o 0 (table_words t) (offset, m))
  patch_table-Within t offset m room low =
      (offset, (low, patch-At R rounds hhdm o base backed small 0 (table_words t) offset m room))

  finish-Within :
      (boot : BootData) (table : BootInfoTable) (offset : ℕ) (m : Bytes)
      → up8 offset + 16 + length boot.framebuffers * 80 ≤ o.size
      → exact_padded
          (edid_sizes R boot.framebuffers)
          (up8 offset + 16 + length boot.framebuffers * 80)
        ≤ o.size
      → 56 ≤ o.size
      → Within R rounds hhdm o base backed small o.size (finish R hhdm o boot table (offset, m))
  unfolding finish
  finish-Within boot table offset m entries fits room =
      let d : ℕ = up8 offset in
      let less : exact_padded (edid_sizes R boot.framebuffers) (d + 16)
          ≤ exact_padded (edid_sizes R boot.framebuffers) (d + 16 + length boot.framebuffers * 80) =
        exact_padded-le (edid_sizes R boot.framebuffers) (d + 16)
          (d + 16 + length boot.framebuffers * 80) (omega arith) in
      then_do-Within R rounds hhdm o base backed small d o.size _ _
        (align-At R rounds hhdm o base backed small offset m (omega arith))
        (λ m1.
          then_do-Within R rounds hhdm o base backed small (d + 16) o.size _ _
            (write-At R rounds hhdm o base backed small (length boot.framebuffers ∷ add64 d 16 ∷ [])
              d m1 (omega arith))
            (λ m2.
              let (after, (below, done)) =
                write_framebuffers-Within R rounds hhdm o base backed small d 0 boot.framebuffers
                  (d + 16) m2 (omega arith) (omega arith) in
              then_do-Within R rounds hhdm o base backed small after o.size _ _ done (λ m3.
                patch_table-Within
                  (record table {
                    total_len = after;
                    framebuffers_offset = d;
                    framebuffers_len = add64 16 (mul64 (length boot.framebuffers) 80);
                  })
                  after m3 room (omega arith))))

  -- From the command line on.
  tail-Within :
      (boot : BootData) (table : BootInfoTable) (m : Bytes)
      → exact_size R boot ≤ o.size
      → Within R rounds hhdm o base backed small o.size (
          if length boot.cmdline == 0
          then finish R hhdm o boot table (after_names R boot, m)
          else then_do (align R hhdm o (after_names R boot, m)) (λ w.
            then_do (write_cmdline R hhdm o boot.cmdline w) (
              finish R hhdm o boot (record table {
                cmdline_offset = w.0;
                cmdline_len = add64 8 (length boot.cmdline);
              }))))
  tail-Within boot table m fits =
      let (a, b, c) = parts-le R rounds boot in
      let len : ℕ = length boot.cmdline in
      let padded : ℕ → ℕ = exact_padded (edid_sizes R boot.framebuffers) in
      elim (Bool-cases (len == 0)) [
        | inl e ↦
            let whole : after_cmdline R boot ≡ up8 (after_names R boot) = rw e refl in
            let same : up8 (after_names R boot) + 16 + length boot.framebuffers * 80
                ≡ after_list R boot =
              omega arith in
            let list : padded (up8 (after_names R boot) + 16 + length boot.framebuffers * 80)
                ≡ padded (after_list R boot) =
              ap padded same in
            rw e (
              finish-Within boot table (after_names R boot) m (omega arith) (omega arith)
                (omega arith))
        | inr e ↦
            let whole : up8 (after_names R boot) + (8 + len) ≡ after_cmdline R boot = rw e refl in
            rw e (
              then_do-Within R rounds hhdm o base backed small (up8 (after_names R boot)) o.size _ _
                (align-At R rounds hhdm o base backed small (after_names R boot) m (omega arith))
                (λ m1.
                  then_do-Within R rounds hhdm o base backed small (after_cmdline R boot) o.size _ _
                    (subst
                      (λ x.
                        At x (write_cmdline R hhdm o boot.cmdline (up8 (after_names R boot), m1)))
                      whole
                      (write_cmdline-At boot.cmdline (up8 (after_names R boot)) m1 (omega arith)))
                    (λ m2.
                      finish-Within boot _ (after_cmdline R boot) m2 (omega arith) (omega arith)
                        (omega arith))))
      ]

  write_boot_info-Within :
      (boot : BootData) (table : BootInfoTable) (m : Bytes)
      → exact_size R boot ≤ o.size
      → Within R rounds hhdm o base backed small o.size (write_boot_info R hhdm o boot table (0, m))
  unfolding write_boot_info
  write_boot_info-Within boot table m fits =
      let (a, b, c) = parts-le R rounds boot in
      then_do-Within R rounds hhdm o base backed small 56 o.size _ _
        (write-At R rounds hhdm o base backed small (table_words table) 0 m (omega arith))
        (λ m1.
          then_do-Within R rounds hhdm o base backed small 56 o.size _ _
            (align-At R rounds hhdm o base backed small 56 m1 (omega arith))
            (λ m2.
              then_do-Within R rounds hhdm o base backed small (after_names R boot) o.size _ _
                (write_modules-At boot 56 m2 (omega arith) (omega arith))
                (λ m3.
                  tail-Within boot
                    (record table {
                      modules_offset = 56;
                      modules_len = add64 16 (mul64 (length boot.modules) 40);
                    })
                    m3 fits)))

-- An object whose pages are all there, share no byte, and have the size that is computed, where no sum wraps around,
-- has room for all that is written: no write is refused, and the writer stays within the object.
pub write_boot_info-compute_boot_info_size :
    (R : Rounding) (hhdm : ℕ) (o : MemoryObject) (base : ℕ → ℕ) (boot : BootData)
    (table : BootInfoTable) (m : Bytes)
    → IsRoundingUp R
    → Backed hhdm o.pages base o.size
    → exact_size R boot < 2 ^ 63
    → o.size ≡ compute_boot_info_size R boot
    → (end : ℕ) × ((end ≤ o.size)
        × ((m' : Bytes) × (write_boot_info R hhdm o boot table (0, m) ≡ some (end, m'))))
write_boot_info-compute_boot_info_size R hhdm o base boot table m rounds backed low size =
    let exact : o.size ≡ exact_size R boot =
      size ∙ compute_boot_info_size-exact R rounds boot low in
    write_boot_info-Within R rounds hhdm o base backed (omega arith) boot table m (omega arith)
