-- ===== src/MemoryMap/Layout.antt =====
-- The mappings of a process under Katline/Syscalls/MemoryMapHelpers.cppm, and what mapping an
-- object does to them.
use mathlib.Core.Path.{subst}
use dhos_reborn.Base.{
  ℕ, ◌+◌, ◌-◌, ◌*◌, ◌/◌, ◌%◌, ◌≤◌, ◌≡◌, refl, ◌≢◌, inl, inr, false, ◌||◌, List, [], ◌∷◌, ◌++◌, ◌==◌,
  ltb, if◌then◌else◌, arith, Bool-cases, Option-cases, ap, ==_iff,
}
use dhos_reborn.CommonLib.{FlagSets}
use dhos_reborn.Process.{Process, MemoryMapping}
use dhos_reborn.MemoryObject.{MemoryObject, PageSource, phys_to_virt}
use dhos_reborn.ProcessMappings.{k_page_size, k_user_space_limit, search_start}
use dhos_reborn.SyscallResult.Cases.{Result-cases}
use dhos_reborn.SyscallResult.{SyscallError, Result, ok, err}
use dhos_reborn.MapPages.{
  PageTables, Machine, current_cr3, required_page_count, page_flags_from_memory_flags,
  require_mmio_mapping_capability, map_pages, remember_mapping, abandon, current_cr3,
}
use dhos_reborn.MemoryMap.{Request, choose_base, publish, map_at, checked_map, map_memory_object}
use dhos_reborn.MemoryMap.Fits.{
  IsLaidOut, IsLaidOut-AllUser, IsLaidOut-append, Fits, choose_base-Fits,
}

pages_fit :
    (q : Request) (o : MemoryObject)
    → o.size ≤ search_start - k_page_size
    → (ltb o.size q.offset || ltb (o.size - q.offset) q.size) ≡ false
    → required_page_count q.offset q.size * k_page_size ≤ k_user_space_limit - search_start
unfolding required_page_count
pages_fit q o small within =
    let l : q.offset + q.size ≤ o.size = ground arith in
    let d : q.offset % k_page_size ≤ q.offset = omega arith in omega arith

-- The processes after one of them got a mapping.
abbrev pub added : ℕ → MemoryMapping → (ℕ → Process) → ℕ → Process
added process m ps a =
    if a == process then record (ps a) { mappings = (ps a).mappings ++ m ∷ [] } else ps a

abbrev pub mapping_of : Request → ℕ → ℕ → MemoryMapping
mapping_of q base page_count = record {
  address = base + q.offset % k_page_size;
  page_base = base;
  page_count = page_count;
  size = q.size;
  object = q.object;
}

module _ {S : PageSource} {P : PageTables} where
  -- A call that failed leaves the processes as they were; one that succeeded answers the address
  -- of a new mapping of its process, at a base that fits beside the others.
  pub data Mapped (q : Request) (s : Machine S P) (r : Result ℕ × Machine S P) : Type 0 where
    refused : (e : SyscallError) → r.0 ≡ err e → r.1.processes ≡ s.processes → Mapped q s r
    mapped :
        (base : ℕ)
        → base ≢ 0
        → Fits base (required_page_count q.offset q.size) ((s.processes q.process).mappings)
        → r.0 ≡ ok (base + q.offset % k_page_size)
        → r.1.processes
          ≡ added q.process (mapping_of q base (required_page_count q.offset q.size)) s.processes
        → Mapped q s r

module _ (F : FlagSets) (S : PageSource) (P : PageTables) (leftover : List ℕ → List ℕ) where
  publish-Mapped :
      (q : Request) (root base : ℕ) (virts : List ℕ) (s w : Machine S P)
      → w.processes ≡ s.processes
      → base ≢ 0
      → Fits base (required_page_count q.offset q.size) ((s.processes q.process).mappings)
      → Mapped q s
          (publish F S P leftover q root base (required_page_count q.offset q.size) virts w)
  unfolding publish abandon remember_mapping
  publish-Mapped q root base virts s w e nz fits =
      elim (Option-cases
        (P.copy_out (current_cr3 F S P w) q.out_addr (base + q.offset % k_page_size) w.tables).0) [
          | inl done ↦ rw (done, publish) (mapped base nz fits refl (rw e))
          | inr (x, failed) ↦ rw (failed, publish) (refused x refl e)
        ]

  map_at-Mapped :
      (q : Request) (o : MemoryObject) (root flags : ℕ) (s w : Machine S P)
      → w.processes ≡ s.processes
      → required_page_count q.offset q.size * k_page_size ≤ k_user_space_limit - search_start
      → IsLaidOut ((s.processes q.process).mappings)
      → Mapped q s (map_at F S P leftover q o root flags (required_page_count q.offset q.size) w)
  unfolding map_at abandon
  map_at-Mapped q o root flags s w e small laid =
      let pages : ℕ = required_page_count q.offset q.size in
      let off : ℕ = q.offset % k_page_size in
      let base : ℕ = choose_base ((w.processes q.process).mappings) q.requested_addr off pages in
      let ran = map_pages F S P pages o (q.offset / k_page_size) 0 root base flags [] w.tables in
      elim (Bool-cases (pages == 0)) [
        | inl none' ↦ rw none' (refused SyscallError.invalid_argument refl e)
        | inr some' ↦ elim (Bool-cases (base == 0)) [
          | inl z ↦ rw (some', z) (refused SyscallError.invalid_argument refl e)
          | inr nz ↦ elim (Bool-cases ran.0) [
            | inr failed ↦ rw (some', nz, failed) (refused SyscallError.invalid_argument refl e)
            | inl done ↦
                let same : (w.processes q.process).mappings ≡ (s.processes q.process).mappings =
                  ap (λ (ps : ℕ → Process). (ps q.process).mappings) e in
                let fits : Fits base pages ((s.processes q.process).mappings) =
                  subst (λ ms. Fits base pages ms) same
                    (choose_base-Fits ((w.processes q.process).mappings) q.requested_addr off pages
                      (ground arith) small (rw same (IsLaidOut-AllUser _ laid)) (ground arith)) in
                rw (some', nz, done)
                  (publish-Mapped q root base ran.1 s (record w { tables = ran.2 }) e (ground arith)
                    fits)
          ]
        ]
      ]

  -- An object of at most 2^46 - 4096 bytes is mapped, if at all, beside the other mappings of the
  -- process and in user space; a call that fails leaves the processes as they were.
  pub map_memory_object-Mapped :
      (q : Request) (o : MemoryObject) (s : Machine S P)
      → o.size ≤ search_start - k_page_size
      → IsLaidOut ((s.processes q.process).mappings)
      → Mapped q s (map_memory_object F S P leftover q o s)
  unfolding map_memory_object
  map_memory_object-Mapped q o s small laid =
      let root : ℕ = phys_to_virt s.memory.hhdm_offset ((s.processes q.process).cr3) in
      let bad = SyscallError.invalid_argument in
      elim (Bool-cases ((q.process == 0) || (q.object == 0) || (q.size == 0))) [
        | inl t ↦ rw (t, map_memory_object) (refused bad refl refl)
        | inr t ↦ elim (Bool-cases (ltb o.size q.offset || ltb (o.size - q.offset) q.size)) [
          | inl u ↦ rw (t, u, map_memory_object) (refused bad refl refl)
          | inr u ↦ elim (Bool-cases (root == 0)) [
            | inl v ↦ rw (t, u, v, map_memory_object) (refused bad refl refl)
            | inr v ↦ elim (Bool-cases (page_flags_from_memory_flags F q.flags == 0)) [
              | inl w ↦ rw (t, u, v, w, map_memory_object) (refused bad refl refl)
              | inr w ↦ rw (t, u, v, w, map_memory_object) (checked (pages_fit q o small u))
            ]
          ]
        ]
      ]
    where
      checked :
          required_page_count q.offset q.size * k_page_size ≤ k_user_space_limit - search_start
          → Mapped q s (
              checked_map F S P leftover q o
                (phys_to_virt s.memory.hhdm_offset ((s.processes q.process).cr3))
                (require_mmio_mapping_capability F S P o.kind s)
                s)
      checked fit = elim (Result-cases (require_mmio_mapping_capability F S P o.kind s)) [
        | inl (e, x) ↦ rw x (refused e refl refl)
        | inr (u, x) ↦ rw x (map_at-Mapped q o _ _ s _ refl fit laid)
      ]

-- The invariant, for every process.
module _ (F : FlagSets) (S : PageSource) (P : PageTables) (leftover : List ℕ → List ℕ) where
  -- Mapping an object of at most 2^46 - 4096 bytes keeps the mappings of every process disjoint
  -- and in user space.
  pub map_memory_object-IsLaidOut :
      (q : Request) (o : MemoryObject) (s : Machine S P)
      → o.size ≤ search_start - k_page_size
      → ((a : ℕ) → IsLaidOut ((s.processes a).mappings))
      → (a : ℕ) → IsLaidOut (((map_memory_object F S P leftover q o s).1.processes a).mappings)
  map_memory_object-IsLaidOut q o s small laid a =
      kept (map_memory_object-Mapped F S P leftover q o s small (laid q.process))
    where
      kept :
          Mapped q s (map_memory_object F S P leftover q o s)
          → IsLaidOut (((map_memory_object F S P leftover q o s).1.processes a).mappings)
      kept (refused e r ps) = rw ps (laid a)
      kept (mapped base nz fits r ps) = rw ps (elim (Bool-cases (a == q.process)) [
        | inr other ↦ rw other (laid a)
        | inl here ↦
            let e : a ≡ q.process = (==_iff a q.process).0 here in
            rw (here, e) (IsLaidOut-append _ (mapping_of q base _) (laid q.process) fits.0 fits.1)
      ])
