-- ===== src/Capabilities/Granting.antt =====
-- Katline/Syscalls/ProcessGrantCapabilities.cppm: what a grant requires, and the capabilities of
-- parents and children.
use dhos_reborn.Base.{
  ℕ, ◌≡◌, refl, ◌≢◌, inl, inr, true, not, ◌||◌, ◌==◌, if◌then◌else◌, arith, Bool-cases, ==_iff,
}
use dhos_reborn.CommonLib.{FlagSets, HashMap}
use dhos_reborn.MemoryObject.{PageSource}
use dhos_reborn.HandleManager.{HandleKind, Entry, HandleManager, resolve}
use dhos_reborn.HandleManager.Ownership.{Holds, resolve_iff}
use dhos_reborn.SyscallResult.Cases.{Result-cases}
use dhos_reborn.SyscallResult.{ok}
use dhos_reborn.Capabilities.{
  process_of, capabilities_of, authorize, add_capabilities, grant_to, grant_capabilities,
  process_grant_capabilities, manage_caps,
}

module _ (F : FlagSets) where
  -- Capabilities are added to one process, which get no more than the other has.
  union-covers :
      (q p target c : ℕ) (caps : ℕ → ℕ)
      → F.contains_all (caps q) (caps p) ≡ true
      → ((p == target) ≡ true → F.contains_all (caps q) c ≡ true)
      → let after = λ (a : ℕ). if a == target then F.union (caps a) c else caps a in
        F.contains_all (after q) (after p) ≡ true
  union-covers q p target c caps h covers =
      let wider =
        F.contains_trans (F.union (caps q) c) (caps q) (caps p) (F.contains_left (caps q) c) h in
      elim (Bool-cases (q == target)) [
        | inl e ↦ elim (Bool-cases (p == target)) [
          | inl f ↦
              rw (e, f)
                (F.contains_union (caps p) c (F.union (caps q) c) wider
                  (F.contains_right (caps q) c))
          | inr f ↦ rw (e, f) wider
        ]
        | inr e ↦ elim (Bool-cases (p == target)) [
          | inl f ↦ rw (e, f) (F.contains_union (caps p) c (caps q) h (covers f))
          | inr f ↦ rw (e, f) h
        ]
      ]

module _ (F : FlagSets) (S : PageSource) (H : HashMap Entry) where
  -- The parent of the process has every capability of the process.
  abbrev pub Confined : ℕ → HandleManager S H → Type 0
  Confined p m =
      F.contains_all (capabilities_of F S H ((m.store.processes p).parent) m)
        (capabilities_of F S H p m)
      ≡ true

  added-parent :
      (target c a : ℕ) (m : HandleManager S H)
      → ((add_capabilities F S H target c m).store.processes a).parent
        ≡ (m.store.processes a).parent
  unfolding add_capabilities
  added-parent target c a m = ground arith

  added-capabilities :
      (target c a : ℕ) (m : HandleManager S H)
      → capabilities_of F S H a (add_capabilities F S H target c m)
        ≡ (if a == target then F.union (capabilities_of F S H a m) c else capabilities_of F S H a m)
  unfolding add_capabilities
  added-capabilities target c a m = ground arith

  add-Confined :
      (target c p : ℕ) (m : HandleManager S H)
      → Confined p m
      → ((p == target) ≡ true
          → F.contains_all (capabilities_of F S H ((m.store.processes p).parent) m) c ≡ true)
      → Confined p (add_capabilities F S H target c m)
  add-Confined target c p m h covers =
      rw
        (
          added-parent target c p m,
          added-capabilities target c p m,
          added-capabilities target c ((m.store.processes p).parent) m,
        )
        (union-covers F ((m.store.processes p).parent) p target c (λ a. capabilities_of F S H a m) h
          covers)

  grant_to-Confined :
      (caller target capabilities p : ℕ) (m : HandleManager S H)
      → Confined p m
      → Confined p (grant_to F S H caller target capabilities m).1
  unfolding grant_to
  grant_to-Confined caller target capabilities p m h =
      elim (Bool-cases ((target == 0) || not ((m.store.processes target).parent == caller))) [
        | inl refused ↦ rw refused h
        | inr child ↦
            elim (Bool-cases (F.contains_all (capabilities_of F S H caller m) capabilities)) [
              | inr n ↦ rw (child, n) h
              | inl has ↦
                  rw (child, has)
                    (add-Confined target capabilities p m h (λ e.
                      let same : p ≡ target = (==_iff p target).0 e in
                      let parent : (m.store.processes p).parent ≡ caller = rw same (ground arith) in
                      rw parent has))
            ]
      ]

  -- Granting capabilities never gives a process a capability that its parent does not have: a process
  -- whose parent had all its capabilities before the call is such a process afterwards, whatever the
  -- call answers.
  pub process_grant_capabilities-Confined :
      (thread handle capabilities p : ℕ) (m : HandleManager S H)
      → Confined p m
      → Confined p (process_grant_capabilities F S H thread handle capabilities m).1
  unfolding process_grant_capabilities grant_capabilities
  process_grant_capabilities-Confined thread handle capabilities p m h =
      elim (Result-cases (authorize F S H manage_caps thread m)) [
        | inl (e, f) ↦ rw f h
        | inr (u, f) ↦ rw f (
            grant_to-Confined (process_of F S H thread m)
              (resolve S H (process_of F S H thread m) handle HandleKind.process m) capabilities p m
              h)
      ]

  -- What a successful grant requires: the caller has `ManageCaps` and the capabilities it gives, and
  -- its handle stands for one of its own child processes.
  abbrev pub Entitled : ℕ → ℕ → ℕ → HandleManager S H → Type 0
  Entitled caller handle capabilities m =
      (F.contains_all (capabilities_of F S H caller m) manage_caps ≡ true)
      × (F.contains_all (capabilities_of F S H caller m) capabilities ≡ true)
      × (target : ℕ) × Holds m caller handle HandleKind.process target
      × ((m.store.processes target).parent ≡ caller)

  authorize-ok :
      (thread : ℕ) (m : HandleManager S H)
      → authorize F S H manage_caps thread m ≡ ok tt
      → (process_of F S H thread m ≢ 0)
        × (F.contains_all (capabilities_of F S H (process_of F S H thread m) m) manage_caps ≡ true)
  unfolding authorize
  authorize-ok thread m h = (ground arith, ground arith)

  grant_to-ok :
      (caller target capabilities : ℕ) (m : HandleManager S H)
      → (grant_to F S H caller target capabilities m).0 ≡ ok tt
      → (target ≢ 0)
        × ((m.store.processes target).parent ≡ caller)
        × (F.contains_all (capabilities_of F S H caller m) capabilities ≡ true)
  unfolding grant_to
  grant_to-ok caller target capabilities m h = (ground arith, ground arith, ground arith)

  -- A call that grants capabilities succeeds only for a process that has `ManageCaps` and all
  -- capabilities that it gives, by a handle of its own to a process of which it is the parent.
  pub process_grant_capabilities-Entitled :
      (thread handle capabilities : ℕ) (m : HandleManager S H)
      → (process_grant_capabilities F S H thread handle capabilities m).0 ≡ ok tt
      → Entitled (process_of F S H thread m) handle capabilities m
  unfolding process_grant_capabilities grant_capabilities
  process_grant_capabilities-Entitled thread handle capabilities m =
      let caller : ℕ = process_of F S H thread m in
      let target : ℕ = resolve S H caller handle HandleKind.process m in
      elim (Result-cases (authorize F S H manage_caps thread m)) [
        | inl (e, f) ↦ rw f (λ h. cc)
        | inr (u, f) ↦ rw f (λ h.
            let (nz, manages) = authorize-ok thread m f in
            let (there, parent, has) = grant_to-ok caller target capabilities m h in
            (
              manages,
              has,
              target,
              (resolve_iff m caller handle HandleKind.process target nz there).0 refl,
              parent,
            ))
      ]
