-- ===== src/BootInfo.antt =====
-- Katline/Runtime.cppm: the packed table of what the kernel was started with, `build_boot_info_object`.
-- Spans are lists; a number is written as its eight bytes. What a build that is refused has written lies
-- in pages that are freed, and is not kept here.
pub mod Sizes
pub mod Writes
pub mod Enough
pub mod Tests
use dhos_reborn.Base.{
  ℕ, zero, suc, ◌+◌, ◌-◌, ◌*◌, ◌/◌, ◌%◌, ◌^◌, Bool, true, false, not, ◌&&◌, ◌||◌, Option, none,
  some, List, [], ◌∷◌, leb, ltb, ◌==◌, if◌then◌else◌, length,
}
use dhos_reborn.MemoryObject.{
  MemoryObject, PageSource, Objects, create_allocated, delete_object, retain_memory_object,
}
use dhos_reborn.Loader.{Rounding}
use dhos_reborn.BootBlob.{Bytes, write_boot_blob}

pub record BootModule : Type 0 where
  pub name : List ℕ
  pub address : ℕ
  pub size : ℕ

pub record BootFramebuffer : Type 0 where
  pub address : ℕ
  pub width : ℕ
  pub height : ℕ
  pub pitch : ℕ
  pub bpp : ℕ
  pub format : ℕ
  pub edid : List ℕ

pub record BootData : Type 0 where
  pub cmdline : List ℕ
  pub modules : List BootModule
  pub framebuffers : List BootFramebuffer

pub record BootInfoTable : Type 0 where
  pub total_len : ℕ
  pub modules_offset : ℕ
  pub modules_len : ℕ
  pub cmdline_offset : ℕ
  pub cmdline_len : ℕ
  pub framebuffers_offset : ℕ
  pub framebuffers_len : ℕ

abbrev pub table_words : BootInfoTable → List ℕ
table_words t =
    t.total_len ∷ t.modules_offset ∷ t.modules_len ∷ t.cmdline_offset ∷ t.cmdline_len
    ∷ t.framebuffers_offset ∷ t.framebuffers_len ∷ []

abbrev pub add64 : ℕ → ℕ → ℕ
add64 a b = (a + b) % 2 ^ 64

abbrev pub mul64 : ℕ → ℕ → ℕ
mul64 a b = a * b % 2 ^ 64

-- The bytes of a list, and of numbers of eight bytes each; 0 behind the end.
unfoldable pub nth_byte : List ℕ → ℕ → ℕ
nth_byte [] i = 0
nth_byte (x ∷ xs) zero = x
nth_byte (x ∷ xs) (suc i) = nth_byte xs i

unfoldable pub word_bytes : List ℕ → ℕ → ℕ
unfolding nth_byte
word_bytes ws i = nth_byte ws (i / 8) / 256 ^ (i % 8) % 256

-- `BootBlobWriter`: its offset and the bytes of memory; `none` for an answer of false.
abbrev pub Writer : Type 0
Writer = ℕ × Bytes

abbrev pub then_do : Option Writer → (Writer → Option Writer) → Option Writer
then_do none next = none
then_do (some w) next = next w

module _ (R : Rounding) where
  -- The loops of `compute_boot_info_size` over the names and the display data.
  unfoldable pub padded_sizes : List ℕ → ℕ → ℕ
  padded_sizes [] total = total
  padded_sizes (n ∷ sizes) total = padded_sizes sizes (add64 (R.align_up total 8) n)

  abbrev pub name_sizes : List BootModule → List ℕ
  name_sizes [] = []
  name_sizes (b ∷ modules) = length b.name ∷ name_sizes modules

  abbrev pub edid_sizes : List BootFramebuffer → List ℕ
  edid_sizes [] = []
  edid_sizes (f ∷ framebuffers) = length f.edid ∷ edid_sizes framebuffers

  unfoldable pub compute_boot_info_size : BootData → ℕ
  unfolding padded_sizes
  compute_boot_info_size boot =
      let lists : ℕ = add64 (add64 (R.align_up 56 8) 16) (mul64 (length boot.modules) 40) in
      let named : ℕ = R.align_up (padded_sizes (name_sizes boot.modules) lists) 8 in
      let len : ℕ = length boot.cmdline in
      let cmdline : ℕ = if len == 0 then named else add64 named (8 + len) in
      let displays : ℕ =
        add64 (add64 (R.align_up cmdline 8) 16) (mul64 (length boot.framebuffers) 80) in
      R.align_up (padded_sizes (edid_sizes boot.framebuffers) displays) 8

  module _ (hhdm : ℕ) (object : MemoryObject) where
    unfoldable pub align : Writer → Option Writer
    align (offset, m) =
        let aligned : ℕ = R.align_up offset 8 in
        if ltb object.size aligned then none else some (aligned, m)

    abbrev written : ℕ → Bool × Bytes → Option Writer
    written offset (ok, m) = if ok then some (offset, m) else none

    unfoldable pub write_bytes : (ℕ → ℕ) → ℕ → Writer → Option Writer
    unfolding write_boot_blob
    write_bytes src size (offset, m) =
        written (add64 offset size) (write_boot_blob hhdm (some object) offset (some src) size m)

    unfoldable pub write : List ℕ → Writer → Option Writer
    unfolding write_bytes word_bytes
    write ws = write_bytes (word_bytes ws) (8 * length ws)

    unfoldable pub patch : ℕ → List ℕ → Writer → Option Writer
    unfolding write_boot_blob word_bytes
    patch at ws (offset, m) =
        written offset
          (write_boot_blob hhdm (some object) at (some (word_bytes ws)) (8 * length ws) m)

    unfoldable pub write_entries : ℕ → List BootModule → Writer → Option Writer
    unfolding write
    write_entries i [] w = some w
    write_entries i (b ∷ modules) w =
        then_do (write (i ∷ 0 ∷ 0 ∷ b.size ∷ 0 ∷ []) w) (write_entries (i + 1) modules)

    -- `!= 0 &&` in front of the bytes of a name or of display data.
    unfoldable pub write_if_any : List ℕ → Writer → Option Writer
    unfolding write_bytes nth_byte
    write_if_any bytes w =
        if length bytes == 0 then some w else write_bytes (nth_byte bytes) (length bytes) w

    unfoldable pub write_names : ℕ → ℕ → List BootModule → Writer → Option Writer
    unfolding align patch write_if_any
    write_names modules_offset i [] w = some w
    write_names modules_offset i (b ∷ modules) w = then_do (align w) (λ w1.
        then_do
          (patch (add64 modules_offset (16 + i * 40)) (i ∷ w1.0 ∷ length b.name ∷ b.size ∷ 0 ∷ [])
            w1)
          (λ w2. then_do (write_if_any b.name w2) (write_names modules_offset (i + 1) modules)))

    unfoldable pub write_framebuffers : ℕ → ℕ → List BootFramebuffer → Writer → Option Writer
    unfolding align patch write_if_any
    write_framebuffers framebuffers_offset i [] w = some w
    write_framebuffers framebuffers_offset i (f ∷ framebuffers) w =
        let any : Bool = not (length f.edid == 0) in
        then_do (if any then align w else some w) (λ w1. then_do (write_if_any f.edid w1) (λ w2.
          then_do
            (patch (add64 framebuffers_offset (16 + i * 80))
              (i
                ∷ f.width
                ∷ f.height
                ∷ f.pitch
                ∷ f.bpp
                ∷ f.format
                ∷ mul64 f.pitch f.height
                ∷ length f.edid
                ∷ (if any then w1.0 else 0)
                ∷ 0
                ∷ [])
              w2)
            (write_framebuffers framebuffers_offset (i + 1) framebuffers)))

    -- The parts of `build_boot_info_object` in their order; each takes the table so far.
    unfoldable pub write_modules : BootData → ℕ → Writer → Option Writer
    unfolding write write_entries write_names
    write_modules boot at w =
        then_do (write (length boot.modules ∷ add64 at 16 ∷ []) w)
          (λ w1. then_do (write_entries 0 boot.modules w1) (write_names at 0 boot.modules))

    unfoldable pub write_cmdline : List ℕ → Writer → Option Writer
    unfolding write write_if_any
    write_cmdline cmdline w = then_do (write (length cmdline ∷ []) w) (write_if_any cmdline)

    unfoldable pub finish : BootData → BootInfoTable → Writer → Option Writer
    unfolding align write write_framebuffers patch
    finish boot table w = then_do (align w) (λ w1.
        then_do (write (length boot.framebuffers ∷ add64 w1.0 16 ∷ []) w1) (λ w2.
          then_do (write_framebuffers w1.0 0 boot.framebuffers w2) (λ w3.
            patch 0
              (table_words (record table {
                total_len = w3.0;
                framebuffers_offset = w1.0;
                framebuffers_len = add64 16 (mul64 (length boot.framebuffers) 80);
              }))
              w3)))

    unfoldable pub write_boot_info : BootData → BootInfoTable → Writer → Option Writer
    unfolding align write write_modules write_cmdline finish
    write_boot_info boot table w = then_do (write (table_words table) w) (λ w1.
        then_do (align w1) (λ w2.
          let table' : BootInfoTable = record table {
            modules_offset = w2.0;
            modules_len = add64 16 (mul64 (length boot.modules) 40);
          } in
          then_do (write_modules boot w2.0 w2) (λ w3.
            if length boot.cmdline == 0
            then finish boot table' w3
            else then_do (align w3) (λ w4. then_do (write_cmdline boot.cmdline w4) (
                finish boot (record table' {
                  cmdline_offset = w4.0;
                  cmdline_len = add64 8 (length boot.cmdline);
                }))))))

-- The object, which the kernel keeps for itself, or 0 for `nullptr`. `fresh` is where `new` puts it.
module _ (S : PageSource) (R : Rounding) where
  abbrev finished : ℕ → MemoryObject → Objects S → Bytes → Option Writer → ℕ × Objects S × Bytes
  finished a o s m none = (0, delete_object S a o s, m)
  finished a o s m (some w) = (a, retain_memory_object S a s, w.1)

  abbrev no_table : ℕ → BootInfoTable
  no_table total = record {
    total_len = total;
    modules_offset = 0;
    modules_len = 0;
    cmdline_offset = 0;
    cmdline_len = 0;
    framebuffers_offset = 0;
    framebuffers_len = 0;
  }

  abbrev fill_boot_info :
      BootData → ℕ → ℕ → Objects S → Bytes → Option MemoryObject → ℕ × Objects S × Bytes
  fill_boot_info boot total a s m none = (0, s, m)
  fill_boot_info boot total a s m (some o) =
      finished a o s m (write_boot_info R s.hhdm_offset o boot (no_table total) (0, m))

  unfoldable pub build_boot_info_object : ℕ → BootData → Objects S → Bytes → ℕ × Objects S × Bytes
  unfolding compute_boot_info_size create_allocated write_boot_info delete_object
      retain_memory_object
  build_boot_info_object fresh boot s m =
      let total : ℕ = compute_boot_info_size R boot in
      let (a, s1) = create_allocated S fresh total s in
      if (total == 0) || (a == 0)
      then (0, if total == 0 then s else s1, m)
      else fill_boot_info boot total a s1 m (s1.at a)

  -- `ensure_boot_info_object`, with the object that was built before, 0 for none.
  unfoldable pub ensure_boot_info_object :
      ℕ → Option BootData → ℕ → Objects S → Bytes → ℕ × Objects S × Bytes
  unfolding build_boot_info_object
  ensure_boot_info_object fresh boot object s m =
      if not (object == 0) then (object, s, m) else built boot
    where
      built : Option BootData → ℕ × Objects S × Bytes
      built none = (0, s, m)
      built (some b) = build_boot_info_object fresh b s m
