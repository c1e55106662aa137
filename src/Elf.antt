-- ===== src/Elf.antt =====
-- ELF images as Applications/Loader/main.cpp and Applications/Bootstrap/main.cpp read them: the
-- header, the program headers, the span of the segments, the flags of a page and the copy of the
-- segments. Numbers stand in memory with the low byte first.
pub mod Flags
pub mod Loaded
pub mod Checked
pub mod Copied
pub mod Copying
pub mod Runs
pub mod Sample
pub mod Spans
mod Tests
use Prim.Native.Nat.{bit_and}
use dhos_reborn.Base.{
  ℕ, zero, suc, ◌+◌, ◌-◌, ◌*◌, ◌%◌, ◌^◌, Bool, true, false, not, ◌&&◌, ◌||◌, Option, none, some,
  List, [], ◌∷◌, leb, ltb, ◌==◌, if◌then◌else◌,
}
use dhos_reborn.LibC.{Memory, memcpy, memset}
use dhos_reborn.UserSpace.{MemoryMapFlags}

unfoldable pub read_le : ℕ → Memory → ℕ → ℕ
read_le zero m a = 0
read_le (suc n) m a = m a % 256 + 256 * read_le n m (a + 1)

-- The fields of `Header` that are read.
pub record Header : Type 0 where
  pub e_type : ℕ
  pub e_entry : ℕ
  pub e_phoff : ℕ
  pub e_phentsize : ℕ
  pub e_phnum : ℕ

unfoldable pub read_header : Memory → ℕ → Header
unfolding read_le
read_header m a = record {
  e_type = read_le 2 m (a + 16);
  e_entry = read_le 8 m (a + 24);
  e_phoff = read_le 8 m (a + 32);
  e_phentsize = read_le 2 m (a + 54);
  e_phnum = read_le 2 m (a + 56);
}

pub record ProgramHeader : Type 0 where
  pub p_type : ℕ
  pub p_flags : ℕ
  pub p_offset : ℕ
  pub p_vaddr : ℕ
  pub p_paddr : ℕ
  pub p_filesz : ℕ
  pub p_memsz : ℕ
  pub p_align : ℕ

unfoldable pub read_program_header : Memory → ℕ → ProgramHeader
unfolding read_le
read_program_header m a = record {
  p_type = read_le 4 m a;
  p_flags = read_le 4 m (a + 4);
  p_offset = read_le 8 m (a + 8);
  p_vaddr = read_le 8 m (a + 16);
  p_paddr = read_le 8 m (a + 24);
  p_filesz = read_le 8 m (a + 32);
  p_memsz = read_le 8 m (a + 40);
  p_align = read_le 8 m (a + 48);
}

-- `n` program headers from the address `a` on; each takes 56 bytes.
unfoldable pub program_headers : ℕ → Memory → ℕ → List ProgramHeader
program_headers zero m a = []
program_headers (suc n) m a = read_program_header m a ∷ program_headers n m (a + 56)

-- The checks of a header, in their order: the number of the first that fails.
unfoldable pub check_header : Memory → ℕ → ℕ → ℕ → Option ℕ
unfolding read_header
check_header m image image_size page_size =
    let h = read_header m image in
    if (image == 0) || ltb image_size 64 || (page_size == 0)
    then some 1
    else if not (
        (m image % 256 == 0x7f)
        && (m (image + 1) % 256 == 0x45)
        && (m (image + 2) % 256 == 0x4c)
        && (m (image + 3) % 256 == 0x46))
    then some 2
    else if not (h.e_phentsize == 56)
    then some 3
    else if not (h.e_type == 2) && not (h.e_type == 3)
    then some 4
    else if ltb image_size ((h.e_phoff + h.e_phnum * h.e_phentsize) % 2 ^ 64)
    then some 5
    else none

abbrev pub is_load : ProgramHeader → Bool
is_load s = s.p_type == 1

abbrev pub segment_end : ProgramHeader → ℕ
segment_end s = (s.p_vaddr + s.p_memsz) % 2 ^ 64

pub record Span : Type 0 where
  pub found_load : Bool
  pub min_vaddr : ℕ
  pub max_vaddr : ℕ

-- The loop over the program headers that finds the lowest address and the highest end.
unfoldable pub span_from : List ProgramHeader → Span → Span
span_from [] b = b
span_from (s ∷ segments) b = span_from segments (
    if is_load s
    then record {
      found_load = true;
      min_vaddr = if ltb b.min_vaddr s.p_vaddr then b.min_vaddr else s.p_vaddr;
      max_vaddr = if ltb (segment_end s) b.max_vaddr then b.max_vaddr else segment_end s;
    }
    else b)

unfoldable pub span_of : List ProgramHeader → Span
unfolding span_from
span_of segments =
    span_from segments (record { found_load = false; min_vaddr = 2 ^ 64 - 1; max_vaddr = 0 })

-- `PF_W` is 2 and `PF_X` is 1.
unfoldable pub elf_segment_flags : ProgramHeader → MemoryMapFlags
elf_segment_flags s = record {
  writable = not (bit_and s.p_flags 2 == 0);
  no_execute = bit_and s.p_flags 1 == 0;
}

-- Whether a segment reaches into a page.
unfoldable pub touches : ℕ → ℕ → ProgramHeader → Bool
touches page_base page_end s =
    not (not (is_load s) || (s.p_memsz == 0))
    && not (leb (segment_end s) page_base || leb page_end s.p_vaddr)

abbrev pub join_flags : MemoryMapFlags → MemoryMapFlags → MemoryMapFlags
join_flags a b = record {
  writable = a.writable || b.writable;
  no_execute = a.no_execute || b.no_execute;
}

-- The loop of `page_flags_for_loaded_image`, with `overlaps` and `flags`.
unfoldable pub page_flags_from :
    List ProgramHeader → ℕ → ℕ → Bool × MemoryMapFlags → Bool × MemoryMapFlags
unfolding elf_segment_flags
page_flags_from [] page_base page_end found = found
page_flags_from (s ∷ segments) page_base page_end found =
    page_flags_from segments page_base page_end (
      if touches page_base page_end s
      then (true, join_flags found.1 (elf_segment_flags s))
      else found)

abbrev pub no_flags : MemoryMapFlags
no_flags = record { writable = false; no_execute = false }

unfoldable pub page_flags_for_loaded_image : List ProgramHeader → ℕ → ℕ → Bool × MemoryMapFlags
unfolding page_flags_from
page_flags_for_loaded_image segments page_base page_size =
    page_flags_from segments page_base ((page_base + page_size) % 2 ^ 64) (false, no_flags)

-- The bytes of one segment: those of the file, and zeros behind them.
unfoldable pub copy_segment : ℕ → ℕ → ProgramHeader → Memory → Memory
copy_segment image to s m =
    let copied : Memory = memcpy to ((image + s.p_offset) % 2 ^ 64) s.p_filesz m in
    if ltb s.p_filesz s.p_memsz
    then memset (to + s.p_filesz) 0 (s.p_memsz - s.p_filesz) copied
    else copied

-- Where a segment goes: `image_local + (p_vaddr - load_base)`.
abbrev pub destination : ℕ → ℕ → ProgramHeader → ℕ
destination image_local load_base s =
    (image_local + (s.p_vaddr + 2 ^ 64 - load_base) % 2 ^ 64) % 2 ^ 64

-- A segment whose bytes do not lie in the file.
abbrev pub is_bad : ℕ → ProgramHeader → Bool
is_bad image_size s =
    ltb s.p_memsz s.p_filesz || ltb image_size ((s.p_offset + s.p_filesz) % 2 ^ 64)

-- The loop that copies the segments of `n` program headers from the address `a` on; it reads each
-- when its turn comes. `false` if it meets a bad one.
unfoldable pub copy_segments :
    (n : ℕ) (a image image_size image_local load_base : ℕ) → Memory → Bool × Memory
copy_segments zero a image image_size image_local load_base m = (true, m)
copy_segments (suc n) a image image_size image_local load_base m =
    let s = read_program_header m a in
    let skipped = copy_segments n (a + 56) image image_size image_local load_base m in
    let copied =
      copy_segments n (a + 56) image image_size image_local load_base
        (copy_segment image (destination image_local load_base s) s m) in
    if not (is_load s) then skipped else if is_bad image_size s then (false, m) else copied
