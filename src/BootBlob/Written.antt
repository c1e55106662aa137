-- ===== src/BootBlob/Written.antt =====
-- write_boot_blob of Katline/Runtime.cppm: what a memory object holds after it.
use dhos_reborn.Base.{
  ℕ, zero, suc, ◌+◌, ◌-◌, ◌/◌, ◌%◌, ◌≡◌, ◌≤◌, ◌<◌, ◌⊎◌, inl, inr, refl, ◌∙◌, Bool, true, false,
  ◌&&◌, ◌||◌, some, List, leb, ltb, if◌then◌else◌, arith, Bool-cases,
}
use dhos_reborn.MemoryObject.{MemoryObject, phys_to_virt}
use dhos_reborn.BootBlob.{Bytes, get_page, copy_bytes, write_pages, write_boot_blob}
use dhos_reborn.BootBlob.Pages.{Backed, byte_at, copy_bytes-page}

-- One round of the loop, on a page that there is.
write_pages-step :
    (fuel hhdm : ℕ) (pages : List ℕ) (offset : ℕ) (src : ℕ → ℕ) (size copied phys at : ℕ)
    (m : Bytes)
    → copied < size
    → get_page pages ((offset + copied) / 4096) ≡ some phys
    → phys_to_virt hhdm phys ≡ at
    → let chunk : ℕ =
        if ltb (4096 - (offset + copied) % 4096) (size - copied)
        then 4096 - (offset + copied) % 4096
        else size - copied in
      write_pages (suc fuel) hhdm pages offset src size copied m
      ≡ write_pages fuel hhdm pages offset src size
          (copied + chunk)
          (copy_bytes (at + (offset + copied) % 4096) (λ i. src (copied + i)) chunk m)
unfolding write_pages
write_pages-step fuel hhdm pages offset src size copied phys at m more found there =
    let e : leb size copied ≡ false = ground arith in rw (e, found, there) refl

write_pages-done :
    (fuel hhdm : ℕ) (pages : List ℕ) (offset : ℕ) (src : ℕ → ℕ) (size copied : ℕ) (m : Bytes)
    → size ≤ copied
    → write_pages fuel hhdm pages offset src size copied m ≡ (true, m)
unfolding write_pages
write_pages-done zero hhdm pages offset src size copied m all =
    let e : leb size copied ≡ true = ground arith in rw e refl
write_pages-done (suc fuel) hhdm pages offset src size copied m all =
    let e : leb size copied ≡ true = ground arith in rw e refl

-- What the loop does to the object's bytes from `copied` on.
abbrev pub Filled : (ℕ → ℕ) → ℕ → (ℕ → ℕ) → ℕ → ℕ → ℕ → Bytes → Bool × Bytes → Type 0
Filled base object_size src offset copied size m r =
    (r.0 ≡ true)
    × ((i : ℕ)
        → i < object_size
        → byte_at base r.1 i ≡ (
            if leb (offset + copied) i && ltb i (offset + size)
            then src (i - offset)
            else byte_at base m i))

chunk_bounds :
    (room left : ℕ)
    → 0 < room
    → 0 < left
    → let chunk : ℕ = if ltb room left then room else left in
      (chunk ≤ room) × (0 < chunk) × (chunk ≤ left)
chunk_bounds room left some_room some_left = ground arith

-- A round and the rounds after it.
joined :
    (old now new offset copied chunk size i : ℕ)
    → copied + chunk ≤ size
    → now ≡ (if leb (offset + copied) i && ltb i (offset + copied + chunk) then new else old)
    → (if leb (offset + (copied + chunk)) i && ltb i (offset + size) then new else now)
      ≡ (if leb (offset + copied) i && ltb i (offset + size) then new else old)
joined old now new offset copied chunk size i fits e = ground arith

write_pages-Filled :
    (fuel hhdm : ℕ) (pages : List ℕ) (base : ℕ → ℕ) (object_size offset : ℕ) (src : ℕ → ℕ)
    (size copied : ℕ) (m : Bytes)
    → Backed hhdm pages base object_size
    → offset + size ≤ object_size
    → size ≤ copied + fuel
    → Filled base object_size src offset copied size m
        (write_pages fuel hhdm pages offset src size copied m)
write_pages-Filled zero hhdm pages base object_size offset src size copied m backed fits enough =
    rw (write_pages-done 0 hhdm pages offset src size copied m (omega arith)) (
      refl,
      λ i small.
          let outside : (leb (offset + copied) i && ltb i (offset + size)) ≡ false = ground arith in
          rw outside refl,
    )
write_pages-Filled (suc fuel) hhdm pages base object_size offset src size copied m backed fits
      enough =
    elim (Bool-cases (ltb copied size)) [
      | inr e ↦
          rw (write_pages-done (suc fuel) hhdm pages offset src size copied m (ground arith)) (
            refl,
            λ i small.
                let outside : (leb (offset + copied) i && ltb i (offset + size)) ≡ false =
                  ground arith in
                rw outside refl,
          )
      | inl e ↦
          let position : ℕ = offset + copied in
          let room : ℕ = 4096 - position % 4096 in
          let chunk : ℕ = if ltb room (size - copied) then room else size - copied in
          let m' : Bytes =
            copy_bytes (base (position / 4096) + position % 4096) (λ j. src (copied + j)) chunk m in
          let more : copied < size = ground arith in
          let (present, apart) = backed in
          let (phys, (found, there)) = present (position / 4096) (omega arith) in
          let step =
            write_pages-step fuel hhdm pages offset src size copied phys (base (position / 4096)) m
              more found there in
          let bounds : (chunk ≤ room) × (0 < chunk) × (chunk ≤ size - copied) =
            chunk_bounds room (size - copied) (omega arith) (omega arith) in
          let (good, rest) =
            write_pages-Filled fuel hhdm pages base object_size offset src size (copied + chunk) m'
              backed fits (omega arith) in
          rw step (
            good,
            λ i small.
                rest i small
                ∙ joined (byte_at base m i) (byte_at base m' i) (src (i - offset)) offset copied
                    chunk size i (omega arith)
                    (copy_bytes-page base src offset copied chunk i m (omega arith) (λ other.
                      apart (i / 4096) (position / 4096) (omega arith) (omega arith) other)),
          )
    ]

write_boot_blob-in :
    (hhdm : ℕ) (o : MemoryObject) (offset : ℕ) (src : ℕ → ℕ) (size : ℕ) (m : Bytes)
    → offset + size ≤ o.size
    → write_boot_blob hhdm (some o) offset (some src) size m
      ≡ write_pages (size + 1) hhdm o.pages offset src size 0 m
unfolding write_boot_blob
write_boot_blob-in hhdm o offset src size m fits =
    let e : (ltb o.size offset || ltb (o.size - offset) size) ≡ false = ground arith in rw e refl

write_boot_blob-out :
    (hhdm : ℕ) (o : MemoryObject) (offset : ℕ) (src : ℕ → ℕ) (size : ℕ) (m : Bytes)
    → o.size < offset + size
    → write_boot_blob hhdm (some o) offset (some src) size m ≡ (false, m)
unfolding write_boot_blob
write_boot_blob-out hhdm o offset src size m wide =
    let e : (ltb o.size offset || ltb (o.size - offset) size) ≡ true = ground arith in rw e refl

-- For an object whose pages are all there and share no byte: if the bytes fit, the write succeeds, and then each byte
-- of the object is the source's from `offset` on and as before elsewhere, over the bounds of the pages too; if they
-- do not fit, the write is refused and no byte of memory changes.
pub write_boot_blob-Filled :
    (hhdm : ℕ) (o : MemoryObject) (base : ℕ → ℕ) (offset : ℕ) (src : ℕ → ℕ) (size : ℕ) (m : Bytes)
    (i : ℕ)
    → Backed hhdm o.pages base o.size
    → i < o.size
    → let r : Bool × Bytes = write_boot_blob hhdm (some o) offset (some src) size m in
      ((offset + size ≤ o.size)
        × (r.0 ≡ true)
        × (byte_at base r.1 i ≡ (
            if leb offset i && ltb i (offset + size) then src (i - offset) else byte_at base m i)))
      ⊎ ((o.size < offset + size) × (r ≡ (false, m)))
write_boot_blob-Filled hhdm o base offset src size m i backed small =
    elim (Bool-cases (leb (offset + size) o.size)) [
      | inl e ↦
          let fits : offset + size ≤ o.size = ground arith in
          let (good, bytes) =
            write_pages-Filled (size + 1) hhdm o.pages base o.size offset src size 0 m backed fits
              (omega arith) in
          let whole : offset + 0 ≡ offset = omega arith in
          rw (write_boot_blob-in hhdm o offset src size m fits)
            (inl (fits, good, bytes i small ∙ rw whole refl))
      | inr e ↦
          let wide : o.size < offset + size = ground arith in
          inr (wide, write_boot_blob-out hhdm o offset src size m wide)
    ]

-- Bytes that fit are written.
pub write_boot_blob-fits :
    (hhdm : ℕ) (o : MemoryObject) (base : ℕ → ℕ) (offset : ℕ) (src : ℕ → ℕ) (size : ℕ) (m : Bytes)
    → Backed hhdm o.pages base o.size
    → offset + size ≤ o.size
    → (write_boot_blob hhdm (some o) offset (some src) size m).0 ≡ true
write_boot_blob-fits hhdm o base offset src size m backed fits =
    let (good, bytes) =
      write_pages-Filled (size + 1) hhdm o.pages base o.size offset src size 0 m backed fits
        (omega arith) in
    rw (write_boot_blob-in hhdm o offset src size m fits) good
