-- ===== src/BootBlob/Pages.antt =====
-- write_boot_blob of Katline/Runtime.cppm: what a copy within one page does to a memory object.
use dhos_reborn.Base.{
  ℕ, zero, suc, ◌+◌, ◌-◌, ◌*◌, ◌/◌, ◌%◌, ◌≡◌, ◌≢◌, ◌≤◌, ◌<◌, ◌⊎◌, inl, inr, refl, ap, ◌∙◌, Bool,
  true, false, ◌&&◌, some, List, leb, ltb, ◌==◌, if◌then◌else◌, arith, Bool-cases,
}
use dhos_reborn.MemoryObject.{phys_to_virt}
use dhos_reborn.BootBlob.{Bytes, get_page, copy_bytes}

-- `base n` is the address of the page `n` of an object of `size` bytes, and no byte lies in two of its pages.
abbrev pub Backed : ℕ → List ℕ → (ℕ → ℕ) → ℕ → Type 0
Backed hhdm pages base size =
    ((n : ℕ)
      → n * 4096 < size
      → (phys : ℕ) × ((get_page pages n ≡ some phys) × (phys_to_virt hhdm phys ≡ base n)))
    × ((n k : ℕ)
        → n * 4096 < size
        → k * 4096 < size
        → n ≢ k
        → (base n + 4096 ≤ base k) ⊎ (base k + 4096 ≤ base n))

-- The byte `i` of the object.
abbrev pub byte_at : (ℕ → ℕ) → Bytes → ℕ → ℕ
byte_at base m i = m (base (i / 4096) + i % 4096)

copy_bytes_lem :
    (n dst : ℕ) (src : ℕ → ℕ) (m : Bytes) (b : ℕ)
    → copy_bytes dst src n m b ≡ (if leb dst b && ltb b (dst + n) then src (b - dst) else m b)
unfolding copy_bytes
copy_bytes_lem zero dst src m b = ground arith
copy_bytes_lem (suc n) dst src m b =
    let rest =
      copy_bytes_lem n (dst + 1) (λ i. src (i + 1)) (λ c. if c == dst then src 0 else m c) b in
    elim (Bool-cases (b == dst)) [
      | inl e ↦
          let at : b ≡ dst = ground arith in
          let none_left : (leb (dst + 1) b && ltb b (dst + 1 + n)) ≡ false = ground arith in
          let inside : (leb dst b && ltb b (dst + suc n)) ≡ true = ground arith in
          let zero_off : b - dst ≡ 0 = omega arith in
          rest ∙ rw (none_left, e, inside, zero_off) refl
      | inr e ↦ elim (Bool-cases (leb (dst + 1) b && ltb b (dst + 1 + n))) [
        | inl f ↦
            let inside : (leb dst b && ltb b (dst + suc n)) ≡ true = ground arith in
            let same : b - (dst + 1) + 1 ≡ b - dst = ground arith in
            rest ∙ rw (f, inside, same) refl
        | inr f ↦
            let outside : (leb dst b && ltb b (dst + suc n)) ≡ false = ground arith in
            rest ∙ rw (f, e, outside) refl
      ]
    ]

le_of_and : (a b : ℕ) (t : Bool) → (leb a b && t) ≡ true → a ≤ b
le_of_and a b t e = ground arith

page_of :
    (position chunk i : ℕ)
    → chunk ≤ 4096 - position % 4096
    → (leb position i && ltb i (position + chunk)) ≡ true
    → i / 4096 ≡ position / 4096
page_of position chunk i fits e =
    let low : position ≤ i = ground arith in
    let high : i < position + chunk = ground arith in omega arith

-- Offsets in two pages that do not meet.
far_off :
    (a b x y chunk : ℕ)
    → (a + 4096 ≤ b) ⊎ (b + 4096 ≤ a)
    → x < 4096
    → y + chunk ≤ 4096
    → (leb (b + y) (a + x) && ltb (a + x) (b + y + chunk)) ≡ false
far_off a b x y chunk apart small fits = ground arith

-- Within one page.
near_by :
    (a b position chunk i : ℕ)
    → a ≡ b
    → i / 4096 ≡ position / 4096
    → (leb (b + position % 4096) (a + i % 4096) && ltb (a + i % 4096) (b + position % 4096 + chunk))
      ≡ (leb position i && ltb i (position + chunk))
near_by a b position chunk i here same =
    let shift : i + position % 4096 ≡ position + i % 4096 = omega arith in
    let low : leb (b + position % 4096) (a + i % 4096) ≡ leb position i = ground arith in
    let high : ltb (a + i % 4096) (b + position % 4096 + chunk) ≡ ltb i (position + chunk) =
      ground arith in
    rw (low, high) refl

-- What a copy of `chunk` bytes that stays in one page changes of the object.
pub copy_bytes-page :
    (base : ℕ → ℕ) (src : ℕ → ℕ) (offset copied chunk i : ℕ) (m : Bytes)
    → let position : ℕ = offset + copied in
      chunk ≤ 4096 - position % 4096
      → (i / 4096 ≢ position / 4096
          → (base (i / 4096) + 4096 ≤ base (position / 4096))
            ⊎ (base (position / 4096) + 4096 ≤ base (i / 4096)))
      → byte_at base
          (copy_bytes (base (position / 4096) + position % 4096) (λ j. src (copied + j)) chunk m)
          i
        ≡ (if leb position i && ltb i (position + chunk)
            then src (i - offset)
            else byte_at base m i)
copy_bytes-page base src offset copied chunk i m fits apart =
    let position : ℕ = offset + copied in
    let dst : ℕ = base (position / 4096) + position % 4096 in
    let b : ℕ = base (i / 4096) + i % 4096 in
    let all = copy_bytes_lem chunk dst (λ j. src (copied + j)) m b in
    elim (Bool-cases (leb position i && ltb i (position + chunk))) [
      | inl e ↦
          let same : i / 4096 ≡ position / 4096 = page_of position chunk i fits e in
          let here : base (i / 4096) ≡ base (position / 4096) = ap base same in
          let inside : (leb dst b && ltb b (dst + chunk)) ≡ true =
            near_by (base (i / 4096)) (base (position / 4096)) position chunk i here same ∙ e in
          let low : position ≤ i = le_of_and position i (ltb i (position + chunk)) e in
          let index : copied + (b - dst) ≡ i - offset = omega arith in
          all ∙ rw (e, inside) (ap src index)
      | inr e ↦
          let outside : (leb dst b && ltb b (dst + chunk)) ≡ false =
            elim (Bool-cases (i / 4096 == position / 4096)) [
              | inl f ↦
                  let same : i / 4096 ≡ position / 4096 = ground arith in
                  let here : base (i / 4096) ≡ base (position / 4096) = ap base same in
                  near_by (base (i / 4096)) (base (position / 4096)) position chunk i here same ∙ e
              | inr f ↦
                  far_off (base (i / 4096)) (base (position / 4096)) (i % 4096) (position % 4096)
                    chunk (apart (ground arith)) (omega arith) (omega arith)
            ] in
          all ∙ rw (e, outside) refl
    ]
