-- ===== src/MemoryObject.antt =====
-- Katline/Memory/MemoryObject.cppm: reference-counted memory objects. The kernel heap of objects
-- is a function from addresses; `new` takes the address that the heap hands out. The frame
-- allocator is an interface, `PageSource`.
pub mod FreeList
use dhos_reborn.Base.{
  ℕ, zero, suc, ◌+◌, ◌-◌, ◌/◌, ◌%◌, ◌^◌, Bool, true, false, Option, none, some, List, [], ◌∷◌, ◌++◌,
  ◌==◌, not, if◌then◌else◌, ◌||◌,
}

pub data MemoryObjectKind : Type 0 where
  allocated mmio : MemoryObjectKind

pub record MemoryObject : Type 0 where
  pub kind : MemoryObjectKind
  pub size : ℕ
  pub pages : List ℕ
  pub phys_base : ℕ
  pub ref_count : ℕ

-- What the memory objects use of the frame allocator.
pub record PageSource : Type 1 where
  pub Frames : Type 0
  pub allocate_zeroed_page : Frames → Option ℕ × Frames
  pub free_page : ℕ → Frames → Frames

-- `reserve_ok n` tells whether the array of page addresses can reserve room for n of them.
pub record Objects (S : PageSource) : Type 0 where
  pub at : ℕ → Option MemoryObject
  pub frames : S.Frames
  pub hhdm_offset : ℕ
  pub reserve_ok : ℕ → Bool

unfoldable pub page_align_up : ℕ → ℕ
page_align_up value = let aligned : ℕ = (value + 4095) % 2 ^ 64 in aligned - aligned % 4096

-- Katline/Arch/Paging.cppm: the direct map of physical memory.
unfoldable pub phys_to_virt : ℕ → ℕ → ℕ
phys_to_virt hhdm phys = (phys + hhdm) % 2 ^ 64

unfoldable pub virt_to_phys : ℕ → ℕ → ℕ
virt_to_phys hhdm virt = (virt + 2 ^ 64 - hhdm) % 2 ^ 64

module _ (S : PageSource) where
  unfoldable pub put : ℕ → Option MemoryObject → Objects S → Objects S
  put a o s = record s { at = λ b. if b == a then o else s.at b }

  unfoldable pub free_pages : ℕ → List ℕ → S.Frames → S.Frames
  unfolding phys_to_virt
  free_pages hhdm [] f = f
  free_pages hhdm (phys ∷ pages) f = free_pages hhdm pages (S.free_page (phys_to_virt hhdm phys) f)

  -- `delete object`, with the destructor's calls.
  unfoldable pub delete_object : ℕ → MemoryObject → Objects S → Objects S
  unfolding put free_pages
  delete_object a o s = elim o.kind [
    | MemoryObjectKind.allocated ↦
        put a none (record s { frames = free_pages s.hhdm_offset o.pages s.frames })
    | MemoryObjectKind.mmio ↦ put a none s
  ]

  retain_at : ℕ → Option MemoryObject → Objects S → Objects S
  unfolding put
  retain_at a none s = s
  retain_at a (some o) s = put a (some (record o { ref_count = (o.ref_count + 1) % 2 ^ 64 })) s

  unfoldable pub retain_memory_object : ℕ → Objects S → Objects S
  unfolding retain_at
  retain_memory_object a s = if a == 0 then s else retain_at a (s.at a) s

  release_at : ℕ → Option MemoryObject → Objects S → Objects S
  unfolding put delete_object
  release_at a none s = s
  release_at a (some o) s =
      if o.ref_count == 0
      then s
      else if o.ref_count - 1 == 0
      then delete_object a o s
      else put a (some (record o { ref_count = o.ref_count - 1 })) s

  unfoldable pub release_memory_object : ℕ → Objects S → Objects S
  unfolding release_at
  release_memory_object a s = if a == 0 then s else release_at a (s.at a) s

  -- The loop over the pages of a new object: the pages so far, and whether none was refused.
  unfoldable pub allocate_pages : ℕ → ℕ → List ℕ → S.Frames → Bool × List ℕ × S.Frames
  unfolding virt_to_phys
  allocate_pages zero hhdm pages f = (true, pages, f)
  allocate_pages (suc n) hhdm pages f =
      let (answer, f') = S.allocate_zeroed_page f in
      elim answer [
        | none ↦ (false, pages, f')
        | some page ↦ allocate_pages n hhdm (pages ++ virt_to_phys hhdm page ∷ []) f'
      ]

  abbrev fill_object : ℕ → MemoryObject → Objects S → Bool × List ℕ × S.Frames → ℕ × Objects S
  fill_object fresh o s (done, pages, f) =
      let full : MemoryObject = record o { pages = pages } in
      let filled : Objects S = record s { frames = f } in
      if done then (fresh, put fresh (some full) filled) else (0, delete_object fresh full filled)

  -- `fresh` is the address of the new object; 0 is answered for `nullptr`.
  unfoldable pub create_allocated : (fresh : ℕ) → ℕ → Objects S → ℕ × Objects S
  unfolding put delete_object page_align_up allocate_pages
  create_allocated fresh size s =
      let o : MemoryObject = record {
        kind = MemoryObjectKind.allocated;
        size = size;
        pages = [];
        phys_base = 0;
        ref_count = 0;
      } in
      let page_count : ℕ = page_align_up size / 4096 in
      if size == 0
      then (0, s)
      else if not (s.reserve_ok page_count)
      then (0, delete_object fresh o s)
      else fill_object fresh o s (allocate_pages page_count s.hhdm_offset [] s.frames)

  unfoldable pub create_mmio : (fresh : ℕ) → ℕ → ℕ → Objects S → ℕ × Objects S
  unfolding put
  create_mmio fresh phys_base size s =
      if (size == 0) || not (phys_base % 4096 == 0) then (0, s) else (
        fresh,
        put fresh
            (some (record {
              kind = MemoryObjectKind.mmio;
              size = size;
              pages = [];
              phys_base = phys_base;
              ref_count = 0;
            }))
            s,
      )
