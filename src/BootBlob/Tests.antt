-- ===== src/BootBlob/Tests.antt =====
-- A run of write_boot_blob of Katline/Runtime.cppm over the boundary of two pages.
use dhos_reborn.Base.{
  ℕ, ◌+◌, ◌-◌, ◌*◌, ◌≡◌, ◌≤◌, ◌<◌, ◌⊎◌, inl, inr, refl, true, false, ◌&&◌, some, [], ◌∷◌, leb, ltb,
  ◌==◌, if◌then◌else◌, arith, Bool-cases,
}
use dhos_reborn.MemoryObject.{MemoryObject, MemoryObjectKind, phys_to_virt}
use dhos_reborn.BootBlob.{get_page, write_boot_blob}
use dhos_reborn.BootBlob.Pages.{Backed, byte_at}
use dhos_reborn.BootBlob.Written.{write_boot_blob-Filled}

abbrev two_pages : MemoryObject
two_pages = record {
  kind = MemoryObjectKind.allocated;
  size = 5000;
  pages = 40960 ∷ 8192 ∷ [];
  phys_base = 0;
  ref_count = 0;
}

abbrev page_address : ℕ → ℕ
page_address n = if n == 0 then 40961 else 8193

two_pages-Backed : Backed 1 two_pages.pages page_address two_pages.size
unfolding phys_to_virt get_page
two_pages-Backed = (there, λ n k low high other. ground arith)
  where
    there :
        (n : ℕ)
        → n * 4096 < 5000
        → (phys : ℕ) × ((get_page (40960 ∷ 8192 ∷ []) n ≡ some phys)
            × (phys_to_virt 1 phys ≡ page_address n))
    there n low = elim (Bool-cases (n == 0)) [
      | inl e ↦ let z : n ≡ 0 = ground arith in rw z (40960, (refl, refl))
      | inr e ↦ let o : n ≡ 1 = ground arith in rw o (8192, (refl, refl))
    ]

write_boot_blob-Filled_example :
    let r = write_boot_blob 1 (some two_pages) 4090 (some (λ i. i)) 10 (λ b. 9) in
    ((4090 + 10 ≤ two_pages.size)
      × (r.0 ≡ true)
      × (byte_at page_address r.1 4097
          ≡ (if leb 4090 4097 && ltb 4097 (4090 + 10) then 4097 - 4090 else 9)))
    ⊎ ((two_pages.size < 4090 + 10) × (r ≡ (false, λ b. 9)))
write_boot_blob-Filled_example =
    write_boot_blob-Filled 1 two_pages page_address 4090 (λ i. i) 10 (λ b. 9) 4097 two_pages-Backed
      (omega arith)

-- The eighth byte written is the second of the second page.
second_page : (write_boot_blob 1 (some two_pages) 4090 (some (λ i. i)) 10 (λ b. 9)).1 8194 ≡ 7
unfolding write_boot_blob
second_page = refl
