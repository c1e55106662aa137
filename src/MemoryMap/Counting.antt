-- ===== src/MemoryMap/Counting.antt =====
-- The references to a memory object under Katline/Syscalls/MemoryMapHelpers.cppm.
use dhos_reborn.Base.{
  ℕ, ◌+◌, ◌-◌, ◌/◌, ◌%◌, ◌^◌, ◌<◌, ◌≡◌, refl, ◌≢◌, inl, inr, ◌||◌, some, List, [], ◌==◌, ltb,
  if◌then◌else◌, arith, Bool-cases, Option-cases,
}
use dhos_reborn.CommonLib.{FlagSets}
use dhos_reborn.MemoryObject.{
  MemoryObject, PageSource, Objects, phys_to_virt, retain_memory_object, release_memory_object,
}
use dhos_reborn.ProcessMappings.{k_page_size}
use dhos_reborn.SyscallResult.Cases.{Result-cases}
use dhos_reborn.SyscallResult.{SyscallError, Result, ok, err}
use dhos_reborn.MapPages.{
  PageTables, Machine, current_cr3, page_flags_from_memory_flags, require_mmio_mapping_capability,
  map_pages, remember_mapping, abandon, current_cr3,
}
use dhos_reborn.MemoryMap.{Request, choose_base, publish, map_at, checked_map, map_memory_object}

module _ {S : PageSource} where
  -- A reference that is taken and dropped again leaves the objects as they were.
  release-retain :
      (a b : ℕ) (o : MemoryObject) (mem : Objects S)
      → a ≢ 0
      → mem.at a ≡ some o
      → 0 < o.ref_count
      → o.ref_count + 1 < 2 ^ 64
      → (release_memory_object S a (retain_memory_object S a mem)).at b ≡ mem.at b
  unfolding release_memory_object retain_memory_object
  release-retain a b o mem nz here pos room = ground arith

  retain-at :
      (a b : ℕ) (o : MemoryObject) (mem : Objects S)
      → a ≢ 0
      → mem.at a ≡ some o
      → o.ref_count + 1 < 2 ^ 64
      → (retain_memory_object S a mem).at b
        ≡ (if b == a then some (record o { ref_count = o.ref_count + 1 }) else mem.at b)
  unfolding retain_memory_object
  retain-at a b o mem nz here room = ground arith

  -- A call that failed leaves every object as it was; one that succeeded adds one reference to the
  -- object that it maps, and leaves every other one.
  pub data Counted (a : ℕ) (o : MemoryObject) (before : Objects S) (r : Result ℕ)
      (after : Objects S) : Type 0 where
    failed :
        (e : SyscallError)
        → r ≡ err e
        → ((b : ℕ) → after.at b ≡ before.at b)
        → Counted a o before r after
    counted :
        (address : ℕ)
        → r ≡ ok address
        → ((b : ℕ)
            → after.at b
              ≡ (if b == a then some (record o { ref_count = o.ref_count + 1 }) else before.at b))
        → Counted a o before r after

module _ (F : FlagSets) (S : PageSource) (P : PageTables) (leftover : List ℕ → List ℕ) where
  -- The object of the request is live, and its counter neither stands at zero nor at its limit.
  abbrev pub IsHeld : Request → MemoryObject → Objects S → Type 0
  IsHeld q o mem =
      (q.object ≢ 0) × (mem.at q.object ≡ some o) × (0 < o.ref_count) × (o.ref_count + 1 < 2 ^ 64)

  publish-Counted :
      (q : Request) (o : MemoryObject) (root base n : ℕ) (virts : List ℕ) (mem : Objects S)
      (w : Machine S P)
      → IsHeld q o mem
      → w.memory ≡ retain_memory_object S q.object mem
      → let r = publish F S P leftover q root base n virts w in
        Counted q.object o mem r.0 r.1.memory
  unfolding publish abandon remember_mapping
  publish-Counted q o root base n virts mem w h e =
      elim (Option-cases
        (P.copy_out (current_cr3 F S P w) q.out_addr (base + q.offset % k_page_size) w.tables).0) [
          | inl done ↦
              rw (done, publish, e)
                (counted (base + q.offset % k_page_size) refl
                  (λ b. retain-at q.object b o mem h.0 h.1 h.3))
          | inr (x, failed') ↦
              rw (failed', publish, e)
                (failed x refl (λ b. release-retain q.object b o mem h.0 h.1 h.2 h.3))
        ]

  map_at-Counted :
      (q : Request) (o : MemoryObject) (root flags pages : ℕ) (mem : Objects S) (w : Machine S P)
      → IsHeld q o mem
      → w.memory ≡ retain_memory_object S q.object mem
      → let r = map_at F S P leftover q o root flags pages w in
        Counted q.object o mem r.0 r.1.memory
  unfolding map_at abandon
  map_at-Counted q o root flags pages mem w h e =
      let bad = SyscallError.invalid_argument in
      let off : ℕ = q.offset % k_page_size in
      let base : ℕ = choose_base ((w.processes q.process).mappings) q.requested_addr off pages in
      let ran = map_pages F S P pages o (q.offset / k_page_size) 0 root base flags [] w.tables in
      let back = λ (b : ℕ). release-retain q.object b o mem h.0 h.1 h.2 h.3 in
      elim (Bool-cases (pages == 0)) [
        | inl t ↦ rw (t, e, map_at) (failed bad refl back)
        | inr t ↦ elim (Bool-cases (base == 0)) [
          | inl z ↦ rw (t, z, e, map_at) (failed bad refl back)
          | inr nz ↦ elim (Bool-cases ran.0) [
            | inr x ↦ rw (t, nz, x, e, map_at) (failed bad refl back)
            | inl x ↦
                rw (t, nz, x, map_at)
                  (publish-Counted q o root base pages ran.1 mem (record w { tables = ran.2 }) h e)
          ]
        ]
      ]

  -- Mapping an object that is held, on every path: a failed call takes back the reference that it
  -- took, and a successful one keeps it.
  pub map_memory_object-Counted :
      (q : Request) (o : MemoryObject) (s : Machine S P)
      → IsHeld q o s.memory
      → let r = map_memory_object F S P leftover q o s in Counted q.object o s.memory r.0 r.1.memory
  unfolding map_memory_object
  map_memory_object-Counted q o s h =
      let root : ℕ = phys_to_virt s.memory.hhdm_offset ((s.processes q.process).cr3) in
      let bad = SyscallError.invalid_argument in
      elim (Bool-cases ((q.process == 0) || (q.object == 0) || (q.size == 0))) [
        | inl t ↦ rw (t, map_memory_object) (failed bad refl (λ b. refl))
        | inr t ↦ elim (Bool-cases (ltb o.size q.offset || ltb (o.size - q.offset) q.size)) [
          | inl u ↦ rw (t, u, map_memory_object) (failed bad refl (λ b. refl))
          | inr u ↦ elim (Bool-cases (root == 0)) [
            | inl v ↦ rw (t, u, v, map_memory_object) (failed bad refl (λ b. refl))
            | inr v ↦ elim (Bool-cases (page_flags_from_memory_flags F q.flags == 0)) [
              | inl w ↦ rw (t, u, v, w, map_memory_object) (failed bad refl (λ b. refl))
              | inr w ↦ rw (t, u, v, w, map_memory_object) checked
            ]
          ]
        ]
      ]
    where
      checked :
          let r =
            checked_map F S P leftover q o
              (phys_to_virt s.memory.hhdm_offset ((s.processes q.process).cr3))
              (require_mmio_mapping_capability F S P o.kind s)
              s in
          Counted q.object o s.memory r.0 r.1.memory
      checked = elim (Result-cases (require_mmio_mapping_capability F S P o.kind s)) [
        | inl (e, x) ↦ rw x (failed e refl (λ b. refl))
        | inr (u, x) ↦ rw x (map_at-Counted q o _ _ _ s.memory _ h refl)
      ]
