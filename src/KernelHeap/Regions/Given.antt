-- ===== src/KernelHeap/Regions/Given.antt =====
-- MemoryManager::init of Katline/Memory/MemoryManager.cppm, after reserve_mmap_phys_range of
-- Katline/Runtime.cppm: the regions that the heap gets.
use dhos_reborn.Base.{
  ℕ, ◌+◌, ◌-◌, ◌%◌, ◌^◌, ◌≤◌, ◌<◌, ◌≢◌, ◌⊎◌, ◌==◌, ltb, arith, sym, ap, ◌≡◌, refl, ◌∙◌, Bool, true,
  false, not, ◌&&◌, List, [], ◌∷◌, Option, none, some, if◌then◌else◌, Bool-cases, inl, inr,
}
use dhos_reborn.KernelHeap.{Heap, mrvn_memory_init}
use dhos_reborn.KernelHeap.Regions.{
  MemoryType, MemoryData, is_usable_type, is_usable, mrvn_memory_add, init_from, init, in_range,
  reserve_mmap_phys_range,
}

-- What is left of a list once the entries without a property are dropped, the others in their order.
pub data Selected (P : MemoryData → Type 0) : List MemoryData → List MemoryData → Type 0 where
  none_left : Selected P [] []
  keep :
      (md : MemoryData) (mmap given : List MemoryData)
      → P md
      → Selected P mmap given
      → Selected P (md ∷ mmap) (md ∷ given)
  drop :
      (md : MemoryData) (mmap given : List MemoryData)
      → ¬ P md
      → Selected P mmap given
      → Selected P (md ∷ mmap) given

abbrev pub add_all : List MemoryData → Heap → Heap
add_all [] h = h
add_all (md ∷ mmap) h = add_all mmap ((mrvn_memory_add md.base md.size h).1)

-- A heap that begins with the first region and is given the others in their order.
abbrev pub heap_of : List MemoryData → Heap → Option Heap
heap_of [] h = none
heap_of (md ∷ mmap) h = some (add_all mmap (mrvn_memory_init md.base md.size h))

-- What `CL::Memory::ranges_overlap` answers for two ranges that are not empty and do not wrap around.
abbrev pub ComparesRanges : (ℕ → ℕ → ℕ → ℕ → Bool) → Type 0
ComparesRanges ranges_overlap =
    (a n b m : ℕ)
    → 0 < n
    → 0 < m
    → a + n ≤ 2 ^ 64
    → b + m ≤ 2 ^ 64
    → ranges_overlap a n b m ≡ (ltb a (b + m) && ltb b (a + n))

-- The entries lie in the direct map, which begins at the offset, and no range wraps around.
abbrev pub InDirectMap : ℕ → List MemoryData → Type 0
InDirectMap hhdm_offset [] = Unit {0}
InDirectMap hhdm_offset (md ∷ mmap) =
    (hhdm_offset ≤ md.base) × (md.base + md.size ≤ 2 ^ 64) × InDirectMap hhdm_offset mmap

-- A usable region that is not empty and whose physical range, which ends where it begins or begins where
-- it ends at the earliest, shares no address with the given one.
abbrev pub IsFree : ℕ → ℕ → ℕ → MemoryData → Type 0
IsFree hhdm_offset phys_base size md =
    (md.type ≡ MemoryType.usable)
    × (md.size ≢ 0)
    × ((md.base - hhdm_offset + md.size ≤ phys_base) ⊎ (phys_base + size ≤ md.base - hhdm_offset))

usable_type-eq : (t : MemoryType) → is_usable_type t ≡ true → t ≡ MemoryType.usable
usable_type-eq MemoryType.usable e = refl
usable_type-eq MemoryType.reserved e = cc
usable_type-eq MemoryType.acpi_reclaimable e = cc
usable_type-eq MemoryType.acpi_nvs e = cc
usable_type-eq MemoryType.bad_memory e = cc
usable_type-eq MemoryType.bootloader_reclaimable e = cc
usable_type-eq MemoryType.kernel_and_modules e = cc
usable_type-eq MemoryType.framebuffer e = cc

and-true : (a b : Bool) → (a && b) ≡ true → (a ≡ true) × (b ≡ true)
and-true true true e = (refl, refl)
and-true true false e = absurd cc
and-true false b e = absurd cc

nonzero-not : (n : ℕ) → not (n == 0) ≡ true → n ≢ 0
nonzero-not n e = ground arith

not-nonzero : (n : ℕ) → n ≢ 0 → not (n == 0) ≡ true
not-nonzero n e = ground arith

apart-overlap :
    (a n b m : ℕ)
    → 0 < n
    → 0 < m
    → (ltb a (b + m) && ltb b (a + n)) ≡ false
    → (a + n ≤ b) ⊎ (b + m ≤ a)
apart-overlap a n b m p q e = elim (Bool-cases (ltb a (b + m))) [
  | inl f ↦ inl (ground arith)
  | inr f ↦ inr (ground arith)
]

overlap-apart : (a n b m : ℕ) → (a + n ≤ b) ⊎ (b + m ≤ a) → (ltb a (b + m) && ltb b (a + n)) ≡ false
overlap-apart a n b m (inl h) = ground arith
overlap-apart a n b m (inr h) = ground arith

abbrev filtered : (MemoryData → Bool) → List MemoryData → List MemoryData
filtered p [] = []
filtered p (md ∷ mmap) = let rest = filtered p mmap in if p md then md ∷ rest else rest

not-true : {b : Bool} → not b ≡ true → b ≡ false
not-true {b = true} e = cc
not-true {b = false} e = refl

module _ (ranges_overlap : ℕ → ℕ → ℕ → ℕ → Bool) (hhdm_offset phys_base size : ℕ) where
  abbrev is_given : MemoryData → Bool
  is_given md = is_usable md && not (in_range ranges_overlap hhdm_offset phys_base size md)

  abbrev reserve : List MemoryData → List MemoryData
  reserve = reserve_mmap_phys_range ranges_overlap hhdm_offset phys_base size

  -- One entry of the loops.
  init_from-reserve :
      (initialized : Bool) (md : MemoryData) (mmap : List MemoryData) (h : Heap)
      → init_from initialized (reserve (md ∷ mmap)) h ≡ (
          if is_given md
          then init_from true (reserve mmap) (
              if initialized
              then (mrvn_memory_add md.base md.size h).1
              else mrvn_memory_init md.base md.size h)
          else init_from initialized (reserve mmap) h)
  unfolding reserve_mmap_phys_range init_from
  init_from-reserve initialized md mmap h = elim (Bool-cases (is_usable md)) [
    | inr e ↦ rw (e, e) refl
    | inl e ↦ elim (Bool-cases (in_range ranges_overlap hhdm_offset phys_base size md)) [
      | inl f ↦ rw (e, f) refl
      | inr f ↦ elim (Bool-cases initialized) [
        | inl g ↦ rw (e, f, e, g) refl
        | inr g ↦ rw (e, f, e, g) refl
      ]
    ]
  ]

  init_from-nil :
      (initialized : Bool) (h : Heap) → init_from initialized (reserve []) h ≡ (initialized, h)
  unfolding reserve_mmap_phys_range init_from
  init_from-nil initialized h = refl

  init_from-add_all :
      (mmap : List MemoryData) (h : Heap)
      → init_from true (reserve mmap) h ≡ (true, add_all (filtered is_given mmap) h)
  init_from-add_all [] h = init_from-nil true h
  init_from-add_all (md ∷ mmap) h =
      init_from-reserve true md mmap h ∙ elim (Bool-cases (is_given md)) [
        | inl e ↦ rw e (init_from-add_all mmap ((mrvn_memory_add md.base md.size h).1))
        | inr e ↦ rw e (init_from-add_all mmap h)
      ]

  selected-init :
      (mmap : List MemoryData) (h : Heap)
      → init (reserve mmap) h ≡ heap_of (filtered is_given mmap) h
  unfolding init
  selected-init [] h = rw (init_from-nil false h) refl
  selected-init (md ∷ mmap) h =
      rw (init_from-reserve false md mmap h) (elim (Bool-cases (is_given md)) [
        | inl e ↦ rw (e, init_from-add_all mmap (mrvn_memory_init md.base md.size h)) refl
        | inr e ↦ rw e (selected-init mmap h)
      ])

  -- The tests of the code for one entry decide whether it is free.
  range-apart :
      (md : MemoryData)
      → ComparesRanges ranges_overlap
      → 0 < size
      → phys_base + size ≤ 2 ^ 64
      → hhdm_offset ≤ md.base
      → md.base + md.size ≤ 2 ^ 64
      → md.size ≢ 0
      → in_range ranges_overlap hhdm_offset phys_base size md ≡ (
          ltb (md.base - hhdm_offset) (phys_base + size)
          && ltb phys_base (md.base - hhdm_offset + md.size))
  range-apart md compares some_size fits low high full =
      let direct : (md.base + 2 ^ 64 - hhdm_offset) % 2 ^ 64 ≡ md.base - hhdm_offset =
        omega arith in
      rw direct (
        compares (md.base - hhdm_offset) md.size phys_base size (omega arith) some_size
          (omega arith) fits)

  given-IsFree :
      (md : MemoryData)
      → ComparesRanges ranges_overlap
      → 0 < size
      → phys_base + size ≤ 2 ^ 64
      → hhdm_offset ≤ md.base
      → md.base + md.size ≤ 2 ^ 64
      → is_given md ≡ true
      → IsFree hhdm_offset phys_base size md
  given-IsFree md compares some_size fits low high e =
      let (usable, outside) =
        and-true (is_usable md) (not (in_range ranges_overlap hhdm_offset phys_base size md)) e in
      let (typed, sized) = and-true (is_usable_type md.type) (not (md.size == 0)) usable in
      let full : md.size ≢ 0 = nonzero-not md.size sized in
      let range = range-apart md compares some_size fits low high full in
      let off : in_range ranges_overlap hhdm_offset phys_base size md ≡ false = not-true outside in
      (
        usable_type-eq md.type typed,
        full,
        apart-overlap (md.base - hhdm_offset) md.size phys_base size (omega arith) some_size
            (sym range ∙ off),
      )

  free-given :
      (md : MemoryData)
      → ComparesRanges ranges_overlap
      → 0 < size
      → phys_base + size ≤ 2 ^ 64
      → hhdm_offset ≤ md.base
      → md.base + md.size ≤ 2 ^ 64
      → IsFree hhdm_offset phys_base size md
      → is_given md ≡ true
  free-given md compares some_size fits low high (typed, full, apart) =
      let range = range-apart md compares some_size fits low high full in
      let off = overlap-apart (md.base - hhdm_offset) md.size phys_base size apart in
      let usable : is_usable_type md.type ≡ true = ap is_usable_type typed in
      rw (usable, not-nonzero md.size full, range ∙ off) refl

  filtered-Selected :
      (mmap : List MemoryData)
      → ComparesRanges ranges_overlap
      → 0 < size
      → phys_base + size ≤ 2 ^ 64
      → InDirectMap hhdm_offset mmap
      → Selected (IsFree hhdm_offset phys_base size) mmap (filtered is_given mmap)
  filtered-Selected [] compares some_size fits inside = none_left
  filtered-Selected (md ∷ mmap) compares some_size fits (low, high, inside) =
      let rest = filtered-Selected mmap compares some_size fits inside in
      elim (Bool-cases (is_given md)) [
        | inl e ↦ rw e (
            keep md mmap (filtered is_given mmap)
              (given-IsFree md compares some_size fits low high e) rest)
        | inr e ↦ rw e (
            drop md mmap (filtered is_given mmap)
              (λ free.
                let both : true ≡ false =
                  sym (free-given md compares some_size fits low high free) ∙ e in
                cc)
              rest)
      ]

  -- Of the memory map, the heap gets the entries that are usable, not empty, and apart from the reserved physical range,
  -- and no others: it begins with the first of them and is given the rest in their order; without one the kernel
  -- halts. The entries lie in the direct map, no range wraps around, and the reserved range is not empty.
  pub init-reserve_mmap_phys_range :
      (mmap : List MemoryData) (h : Heap)
      → ComparesRanges ranges_overlap
      → 0 < size
      → phys_base + size ≤ 2 ^ 64
      → InDirectMap hhdm_offset mmap
      → (given : List MemoryData) × (Selected (IsFree hhdm_offset phys_base size) mmap given
          × (init (reserve mmap) h ≡ heap_of given h))
  init-reserve_mmap_phys_range mmap h compares some_size fits inside = (
    filtered is_given mmap,
    (filtered-Selected mmap compares some_size fits inside, selected-init mmap h),
  )
