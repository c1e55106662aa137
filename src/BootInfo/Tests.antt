-- ===== src/BootInfo/Tests.antt =====
-- Runs of build_boot_info_object of Katline/Runtime.cppm.
use dhos_reborn.Base.{
  ℕ, ◌+◌, ◌-◌, ◌*◌, ◌/◌, ◌%◌, ◌≡◌, ◌≤◌, ◌<◌, arith, ap, sym, ◌∙◌, refl, Option, none, some, [], ◌∷◌,
}
use dhos_reborn.MemoryObject.{MemoryObject, MemoryObjectKind}
use dhos_reborn.Loader.{Rounding}
use dhos_reborn.MemoryObject.{phys_to_virt}
use dhos_reborn.BootBlob.{get_page, Bytes}
use dhos_reborn.BootBlob.Pages.{Backed}
use dhos_reborn.UserHeap.Blocks.{IsRoundingUp}
use native.Mathlib.Nat.{div-add-mod', mod-lt, mul-mod_left}
use dhos_reborn.BootInfo.Enough.{write_boot_info-compute_boot_info_size}
use dhos_reborn.BootInfo.{BootData, BootInfoTable, Writer, compute_boot_info_size, write_boot_info}

abbrev pub rounding : Rounding
rounding = record { align_down = λ v m. v - v % m; align_up = λ v m. v + m - 1 - (v + m - 1) % m }

rounding-IsRoundingUp : IsRoundingUp rounding
rounding-IsRoundingUp v m power positive fits =
    let x : ℕ = v + m - 1 in
    let small : x % m < m = mod-lt x positive in
    let parts : x / m * m + x % m ≡ x = div-add-mod' x m in
    let multiple : x - x % m ≡ x / m * m = omega arith in
    (omega arith, omega arith, ap (λ y. y % m) multiple ∙ mul-mod_left (x / m) m)

abbrev object : MemoryObject
object = record {
  kind = MemoryObjectKind.allocated;
  size = 192;
  pages = 8192 ∷ [];
  phys_base = 0;
  ref_count = 0;
}

-- One framebuffer with two bytes of display data.
abbrev pub boot : BootData
boot = record {
  cmdline = [];
  modules = [];
  framebuffers =
      record {
        address = 4096;
        width = 7;
        height = 5;
        pitch = 9;
        bpp = 32;
        format = 1;
        edid = 200 ∷ 201 ∷ [];
      }
      ∷ [];
}

boot_size : compute_boot_info_size rounding boot ≡ 176
unfolding compute_boot_info_size
boot_size = refl

abbrev empty_table : BootInfoTable
empty_table = record {
  total_len = 192;
  modules_offset = 0;
  modules_len = 0;
  cmdline_offset = 0;
  cmdline_len = 0;
  framebuffers_offset = 0;
  framebuffers_len = 0;
}

abbrev offset_and : Option Writer → ℕ → ℕ × ℕ
offset_and none i = (0, 0)
offset_and (some w) i = (w.0, w.1 (8192 + i))

-- The display data, which the entry says to stand at 88, is the id of the entry, and the table's length
-- ends before the entry does.
framebuffer_overwritten :
    let r = write_boot_info rounding 0 object boot empty_table (0, λ b. 0) in
    (offset_and r 88 ≡ (90, 0)) × (offset_and r 152 ≡ (90, 88)) × (offset_and r 0 ≡ (90, 90))
unfolding write_boot_info
framebuffer_overwritten = (refl, refl, refl)

-- The object, of one page, has the size that is computed.
abbrev sized : MemoryObject
sized = record object { size = 176 }

sized-Backed : Backed 0 sized.pages (λ n. 8192) sized.size
unfolding phys_to_virt get_page
sized-Backed = (there, λ n k low high other. absurd (omega arith))
  where
    there :
        (n : ℕ)
        → n * 4096 < 176
        → (phys : ℕ) × ((get_page (8192 ∷ []) n ≡ some phys) × (phys_to_virt 0 phys ≡ 8192))
    there n low = let z : n ≡ 0 = omega arith in rw z (8192, (refl, refl))

write_boot_info-compute_boot_info_size_example :
    (end : ℕ) × ((end ≤ sized.size)
      × ((m' : Bytes) × (write_boot_info rounding 0 sized boot empty_table (0, λ b. 0)
            ≡ some (end, m'))))
write_boot_info-compute_boot_info_size_example =
    write_boot_info-compute_boot_info_size rounding 0 sized (λ n. 8192) boot empty_table (λ b. 0)
      rounding-IsRoundingUp sized-Backed (omega arith) (sym boot_size)
