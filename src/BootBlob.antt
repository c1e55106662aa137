-- ===== src/BootBlob.antt =====
-- Katline/Runtime.cppm: bytes that are written into a memory object, and the writer of the boot
-- information. The bytes of memory are a function from addresses. What is written does not
-- lie in the object, so the source is the function of its bytes, or none for `nullptr`.
pub mod Pages
pub mod Written
mod Tests
use dhos_reborn.Base.{
  ℕ, zero, suc, ◌+◌, ◌-◌, ◌*◌, ◌/◌, ◌%◌, ◌^◌, Bool, true, false, not, ◌&&◌, ◌||◌, Option, none,
  some, List, [], ◌∷◌, leb, ltb, ◌==◌, if◌then◌else◌, length,
}
use dhos_reborn.ProcessMappings.{k_page_size}
use dhos_reborn.MemoryObject.{MemoryObject, phys_to_virt}

abbrev pub Bytes : Type 0
Bytes = ℕ → ℕ

-- `pages.get(index)`.
unfoldable pub get_page : List ℕ → ℕ → Option ℕ
get_page [] i = none
get_page (p ∷ pages) zero = some p
get_page (p ∷ pages) (suc i) = get_page pages i

-- `memcpy` of Katline/Runtime.cppm.
unfoldable pub copy_bytes : ℕ → (ℕ → ℕ) → ℕ → Bytes → Bytes
copy_bytes dst src zero m = m
copy_bytes dst src (suc n) m =
    copy_bytes (dst + 1) (λ i. src (i + 1)) n (λ b. if b == dst then src 0 else m b)

-- The loop of `write_boot_blob`, with `copied` bytes done; the fuel bounds its rounds.
unfoldable pub write_pages : ℕ → ℕ → List ℕ → ℕ → (ℕ → ℕ) → ℕ → ℕ → Bytes → Bool × Bytes
unfolding get_page copy_bytes phys_to_virt
write_pages zero hhdm pages offset src size copied m = (leb size copied, m)
write_pages (suc fuel) hhdm pages offset src size copied m =
    let position : ℕ = offset + copied in
    let page_offset : ℕ = position % k_page_size in
    let room : ℕ = k_page_size - page_offset in
    let chunk : ℕ = if ltb room (size - copied) then room else size - copied in
    if leb size copied then (true, m) else elim (get_page pages (position / k_page_size)) [
      | none ↦ (false, m)
      | some phys ↦
          write_pages fuel hhdm pages offset src size (copied + chunk)
            (copy_bytes (phys_to_virt hhdm phys + page_offset) (λ i. src (copied + i)) chunk m)
    ]

-- Each round but the last fills a page, so `size` rounds and one are enough.
abbrev pub write_source : ℕ → MemoryObject → ℕ → Option (ℕ → ℕ) → ℕ → Bytes → Bool × Bytes
write_source hhdm o offset none size m = (leb size 0, m)
write_source hhdm o offset (some src) size m =
    write_pages (size + 1) hhdm o.pages offset src size 0 m

unfoldable pub write_boot_blob :
    ℕ → Option MemoryObject → ℕ → Option (ℕ → ℕ) → ℕ → Bytes → Bool × Bytes
unfolding write_pages
write_boot_blob hhdm none offset src size m = (false, m)
write_boot_blob hhdm (some o) offset src size m =
    if ltb o.size offset || ltb (o.size - offset) size
    then (false, m)
    else write_source hhdm o offset src size m
