-- ===== src/MemoryMap/Unmap.antt =====
-- Unmapping by Katline/Syscalls/MemoryMapHelpers.cppm.
use dhos_reborn.MemoryMap.Fits.{IsLaidOut}
use dhos_reborn.Base.{
  ℕ, ◌*◌, ◌≡◌, ◌≢◌, ◌⊎◌, ◌++◌, Option, none, true, false, sym, ap, ◌∙◌, arith, refl, inl, inr, ◌||◌,
  some, List, [], ◌∷◌, ◌==◌, if◌then◌else◌, Bool-cases, Option-cases,
}
use dhos_reborn.Process.{Process, MemoryMapping}
use dhos_reborn.MemoryObject.{PageSource, phys_to_virt, release_memory_object}
use dhos_reborn.ProcessMappings.{k_page_size}
use dhos_reborn.ProcessMappings.Overlap.{AllApart}
use dhos_reborn.SyscallResult.{SyscallError, Result, ok, err}
use dhos_reborn.MapPages.{PageTables, Machine}
use dhos_reborn.MemoryMap.{
  unmap_found, matches, remove_mapping, find_mapping, unmap_pages, unmap_memory_object,
}

-- The processes after one of them lost its first mapping with the address and the size.
abbrev pub without : ℕ → ℕ → ℕ → (ℕ → Process) → ℕ → Process
without process address size ps a =
    if a == process
    then record (ps a) { mappings = remove_mapping address size ((ps a).mappings) }
    else ps a

-- No mapping of a list has both the address and the size.
abbrev pub NoneAt : ℕ → ℕ → List MemoryMapping → Type 0
NoneAt address size [] = Unit {0}
NoneAt address size (m ∷ ms) = ((m.address ≢ address) ⊎ (m.size ≢ size)) × NoneAt address size ms

abbrev some_or : MemoryMapping → Option MemoryMapping → MemoryMapping
some_or other none = other
some_or other (some m) = m

-- The mapping that is found, between the others, and what its removal leaves.
abbrev Split : ℕ → ℕ → List MemoryMapping → MemoryMapping → Type 0
Split address size ms m =
    (before : List MemoryMapping) × ((after : List MemoryMapping) × ((ms ≡ before ++ m ∷ after)
        × (m.address ≡ address)
        × (m.size ≡ size)
        × NoneAt address size before
        × (remove_mapping address size ms ≡ before ++ after)))

matches-eq :
    (address size : ℕ) (m : MemoryMapping)
    → matches address size m ≡ true
    → (m.address ≡ address) × (m.size ≡ size)
matches-eq address size m e = (ground arith, ground arith)

matches-other :
    (address size : ℕ) (m : MemoryMapping)
    → matches address size m ≡ false
    → (m.address ≢ address) ⊎ (m.size ≢ size)
matches-other address size m e = elim (Bool-cases (m.address == address)) [
  | inl f ↦ inr (ground arith)
  | inr f ↦ inl (ground arith)
]

find_mapping-Split :
    (address size : ℕ) (ms : List MemoryMapping) (m : MemoryMapping)
    → find_mapping address size ms ≡ some m
    → Split address size ms m
unfolding find_mapping remove_mapping
find_mapping-Split address size [] m f = absurd cc
find_mapping-Split address size (x ∷ ms) m f = elim (Bool-cases (matches address size x)) [
  | inl e ↦
      let first : some x ≡ some m = sym (rw e refl) ∙ f in
      let same : x ≡ m = ap (some_or x) first in
      let (a, z) = matches-eq address size x e in
      rw (e, sym same) ([], (ms, (refl, a, z, tt, refl)))
  | inr e ↦
      let later : find_mapping address size ms ≡ some m = sym (rw e refl) ∙ f in
      let (before, (after, (split, a, z, others, left))) =
        find_mapping-Split address size ms m later in
      rw e (
        x ∷ before,
        (
          after,
          (
            ap (λ l. x ∷ l) split,
            a,
            z,
            (matches-other address size x e, others),
            ap (λ l. x ∷ l) left,
          ),
        ),
      )
]

module _ {S : PageSource} {P : PageTables} where
  -- The same with the mapping, split off from those before and behind it.
  pub data Removed (process address size : ℕ) (s : Machine S P)
      (r : Result (Unit {0}) × Machine S P) : Type 0 where
    refused :
        (e : SyscallError)
        → r.0 ≡ err e
        → r.1.processes ≡ s.processes
        → r.1.memory ≡ s.memory
        → Removed process address size s r
    removed :
        (before after : List MemoryMapping) (m : MemoryMapping)
        → (s.processes process).mappings ≡ before ++ m ∷ after
        → m.address ≡ address
        → m.size ≡ size
        → NoneAt address size before
        → r.0 ≡ ok tt
        → (r.1.processes process).mappings ≡ before ++ after
        → ((a : ℕ) → a ≢ process → r.1.processes a ≡ s.processes a)
        → r.1.memory ≡ release_memory_object S m.object s.memory
        → Removed process address size s r

  -- A call that failed leaves the processes and the objects as they were; one that succeeded found
  -- the mapping, removed it from its process and dropped its reference to the object.
  pub data Unmapped (process address size : ℕ) (s : Machine S P)
      (r : Result (Unit {0}) × Machine S P) : Type 0 where
    failed :
        (e : SyscallError)
        → r.0 ≡ err e
        → r.1.processes ≡ s.processes
        → r.1.memory ≡ s.memory
        → Unmapped process address size s r
    unmapped :
        (m : MemoryMapping)
        → find_mapping address size ((s.processes process).mappings) ≡ some m
        → r.0 ≡ ok tt
        → r.1.processes ≡ without process address size s.processes
        → r.1.memory ≡ release_memory_object S m.object s.memory
        → Unmapped process address size s r

module _ (S : PageSource) (P : PageTables) where
  unmap_found-Unmapped :
      (process address size : ℕ) (s : Machine S P) (m : MemoryMapping)
      → find_mapping address size ((s.processes process).mappings) ≡ some m
      → Unmapped process address size s (unmap_found S P process address size (some m) s)
  unmap_found-Unmapped process address size s m found =
      let root : ℕ = phys_to_virt s.memory.hhdm_offset ((s.processes process).cr3) in
      let bad = SyscallError.invalid_argument in
      elim (Bool-cases (root == 0)) [
        | inl z ↦ rw z (failed bad refl refl refl)
        | inr nz ↦ elim (Bool-cases (unmap_pages S P m.page_count 0 root m.page_base s.tables).0) [
          | inl done ↦ rw (nz, done) (unmapped m found refl refl refl)
          | inr stuck ↦ rw (nz, stuck) (failed bad refl refl refl)
        ]
      ]

  pub unmap_memory_object-Unmapped :
      (process address size : ℕ) (s : Machine S P)
      → Unmapped process address size s (unmap_memory_object S P process address size s)
  unfolding unmap_memory_object
  unmap_memory_object-Unmapped process address size s =
      elim (Bool-cases ((process == 0) || (address == 0) || (size == 0))) [
        | inl t ↦ rw (t, unmap_memory_object) (failed SyscallError.invalid_argument refl refl refl)
        | inr t ↦ elim (Option-cases (find_mapping address size ((s.processes process).mappings))) [
          | inl f ↦
              rw (t, f, unmap_memory_object) (failed SyscallError.invalid_argument refl refl refl)
          | inr (m, f) ↦
              rw (t, f, unmap_memory_object) (unmap_found-Unmapped process address size s m f)
        ]
      ]

module _ (S : PageSource) (P : PageTables) where
  removed_from :
      (process address size : ℕ) (s : Machine S P) (r : Result (Unit {0}) × Machine S P)
      → Unmapped process address size s r
      → Removed process address size s r
  removed_from process address size s r (failed e result processes memory) =
      refused e result processes memory
  removed_from process address size s r (unmapped m found result processes memory) =
      let (before, (after, (split, a, z, others, left))) =
        find_mapping-Split address size ((s.processes process).mappings) m found in
      let here : (process == process) ≡ true = ground arith in
      removed before after m split a z others result
        (ap (λ ps. (ps process).mappings) processes ∙ rw (without, here) left)
        (λ x other.
          let there : (x == process) ≡ false = ground arith in
          ap (λ ps. ps x) processes ∙ rw (without, there) refl)
        memory

  -- A call of the unmapping that fails keeps all mappings and references. One that succeeds takes out, of the
  -- process it is for, the first mapping with both the address and the size, keeps those before and behind it in
  -- their order and the other processes as they are, and drops the reference to the object of that mapping.
  pub unmap_memory_object-Removed :
      (process address size : ℕ) (s : Machine S P)
      → Removed process address size s (unmap_memory_object S P process address size s)
  unmap_memory_object-Removed process address size s =
      removed_from process address size s (unmap_memory_object S P process address size s)
        (unmap_memory_object-Unmapped S P process address size s)

AllApart-remove :
    (base span address size : ℕ) (ms : List MemoryMapping)
    → AllApart base span ms
    → AllApart base span (remove_mapping address size ms)
unfolding remove_mapping
AllApart-remove base span address size [] h = tt
AllApart-remove base span address size (m ∷ ms) h = elim (Bool-cases (matches address size m)) [
  | inl t ↦ rw t h.1
  | inr f ↦ rw f (h.0, AllApart-remove base span address size ms h.1)
]

IsLaidOut-remove :
    (address size : ℕ) (ms : List MemoryMapping)
    → IsLaidOut ms
    → IsLaidOut (remove_mapping address size ms)
unfolding remove_mapping
IsLaidOut-remove address size [] h = tt
IsLaidOut-remove address size (m ∷ ms) h = elim (Bool-cases (matches address size m)) [
  | inl t ↦ rw t h.2
  | inr f ↦ rw f (
    h.0,
    AllApart-remove m.page_base (m.page_count * k_page_size) address size ms h.1,
    IsLaidOut-remove address size ms h.2,
  )
]

-- Unmapping keeps the mappings of every process disjoint and in user space.
pub unmap_memory_object-IsLaidOut :
    (S : PageSource) (P : PageTables) (process address size : ℕ) (s : Machine S P)
    → ((a : ℕ) → IsLaidOut ((s.processes a).mappings))
    → (a : ℕ)
    → IsLaidOut (((unmap_memory_object S P process address size s).1.processes a).mappings)
unmap_memory_object-IsLaidOut S P process address size s laid a =
    kept (unmap_memory_object-Unmapped S P process address size s)
  where
    kept :
        Unmapped process address size s (unmap_memory_object S P process address size s)
        → IsLaidOut (((unmap_memory_object S P process address size s).1.processes a).mappings)
    kept (failed e r ps m) = rw ps (laid a)
    kept (unmapped m f r ps mem) = rw ps (elim (Bool-cases (a == process)) [
      | inr other ↦ rw other (laid a)
      | inl here ↦ rw here (IsLaidOut-remove address size _ (laid a))
    ])
