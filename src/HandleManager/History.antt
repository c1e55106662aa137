-- ===== src/HandleManager/History.antt =====
-- What holds of the table of Katline/HandleManager.cppm after any sequence of its calls.
use dhos_reborn.Base.{
  ℕ, ◌+◌, ◌^◌, ◌<◌, ◌≡◌, refl, ◌≢◌, inl, inr, ◌||◌, some, List, [], ◌∷◌, arith, ◌==◌, Bool-cases,
  Option-cases,
}
use dhos_reborn.CommonLib.{HashMap}
use dhos_reborn.MemoryObject.{PageSource}
use dhos_reborn.HandleManager.{
  HandleKind, Entry, HandleManager, find_entry, resolve, open_handle, duplicate, close, close_all,
  owned_handles, release_owned_handles,
}
use dhos_reborn.HandleManager.Ownership.{entry, resolve_iff}
use dhos_reborn.HandleManager.References.{
  IsCounted, references, entry-live, add_entry-IsCounted, remove-IsCounted,
}

-- The calls that the kernel makes on the table: `opens owner kind object`, `duplicates owner
-- handle`, `closes owner handle` and `releases owner`.
pub data Call : Type 0 where
  opens : ℕ → HandleKind → ℕ → Call
  duplicates : ℕ → ℕ → Call
  closes : ℕ → ℕ → Call
  releases : ℕ → Call

module _ {S : PageSource} {H : HashMap Entry} where
  unfoldable pub step : Call → HandleManager S H → HandleManager S H
  step (opens owner kind object) m = (open_handle S H owner kind object m).1
  step (duplicates owner handle) m = (duplicate S H owner handle m).1
  step (closes owner handle) m = (close S H owner handle m).1
  step (releases owner) m = release_owned_handles S H owner m

  unfoldable pub run : List Call → HandleManager S H → HandleManager S H
  unfolding step
  run [] m = m
  run (c ∷ cs) m = run cs (step c m)

  -- No counter wraps at the next call.
  abbrev pub HasRoom : (HandleKind → ℕ → ℕ) → HandleManager S H → Type 0
  HasRoom others m = (kind : HandleKind) (a : ℕ) → others kind a + m.next_handle_id + 1 < 2 ^ 64

  -- A handle is opened for an object that is live.
  abbrev pub IsLive : Call → HandleManager S H → Type 0
  IsLive (opens owner kind object) m = (r : ℕ) × (references kind object m.store ≡ some r)
  IsLive (duplicates owner handle) m = Unit
  IsLive (closes owner handle) m = Unit
  IsLive (releases owner) m = Unit

  abbrev pub AllReady : (HandleKind → ℕ → ℕ) → List Call → HandleManager S H → Type 0
  AllReady others [] m = Unit
  AllReady others (c ∷ cs) m = HasRoom others m × IsLive c m × AllReady others cs (step c m)

  open_handle-IsCounted :
      (others : HandleKind → ℕ → ℕ) (m : HandleManager S H) (owner : ℕ) (kind : HandleKind)
      (object r : ℕ)
      → IsCounted others m
      → HasRoom others m
      → references kind object m.store ≡ some r
      → IsCounted others (open_handle S H owner kind object m).1
  unfolding open_handle
  open_handle-IsCounted others m owner kind object r v room p =
      elim (Bool-cases ((owner == 0) || (object == 0))) [
        | inl z ↦ rw z v
        | inr z ↦ rw z (
            add_entry-IsCounted others m (entry kind object owner) r v (ground arith) p
              (room kind object))
      ]

  found :
      (m : HandleManager S H) (owner handle : ℕ) (e : Entry)
      → find_entry S H owner handle m ≡ some e
      → H.get m.entries handle ≡ some e
  unfolding find_entry
  found m owner handle e p = elim (Option-cases (H.get m.entries handle)) [
    | inl q ↦ absurd (ground arith)
    | inr (f, q) ↦ ground arith
  ]

  duplicate-IsCounted :
      (others : HandleKind → ℕ → ℕ) (m : HandleManager S H) (owner handle : ℕ)
      → IsCounted others m
      → HasRoom others m
      → IsCounted others (duplicate S H owner handle m).1
  unfolding duplicate
  duplicate-IsCounted others m owner handle v room =
      elim (Option-cases (find_entry S H owner handle m)) [
        | inl q ↦ rw q v
        | inr (e, q) ↦
            let g = found m owner handle e q in
            let (r, p, pos) = entry-live others m handle e v g in
            rw q (
              add_entry-IsCounted others m (entry e.kind e.object owner) r v (v.objects handle e g)
                p (room e.kind e.object))
      ]

  close-IsCounted :
      (others : HandleKind → ℕ → ℕ) (m : HandleManager S H) (owner handle : ℕ)
      → IsCounted others m
      → IsCounted others (close S H owner handle m).1
  unfolding close
  close-IsCounted others m owner handle v = elim (Option-cases (find_entry S H owner handle m)) [
    | inl q ↦ rw q v
    | inr (e, q) ↦ rw q (remove-IsCounted others m handle e v (found m owner handle e q))
  ]

  close_all-IsCounted :
      (others : HandleKind → ℕ → ℕ) (owner : ℕ) (handles : List ℕ) (m : HandleManager S H)
      → IsCounted others m
      → IsCounted others (close_all S H owner handles m)
  unfolding close_all
  close_all-IsCounted others owner [] m v = v
  close_all-IsCounted others owner (h ∷ handles) m v =
      close_all-IsCounted others owner handles ((close S H owner h m).1)
        (close-IsCounted others m owner h v)

  step-IsCounted :
      (others : HandleKind → ℕ → ℕ) (c : Call) (m : HandleManager S H)
      → IsCounted others m
      → HasRoom others m
      → IsLive c m
      → IsCounted others (step c m)
  unfolding step release_owned_handles
  step-IsCounted others (opens owner kind object) m v room (r, p) =
      open_handle-IsCounted others m owner kind object r v room p
  step-IsCounted others (duplicates owner handle) m v room live =
      duplicate-IsCounted others m owner handle v room
  step-IsCounted others (closes owner handle) m v room live =
      close-IsCounted others m owner handle v
  step-IsCounted others (releases owner) m v room live = elim (Bool-cases (owner == 0)) [
    | inl z ↦ rw z v
    | inr z ↦
        rw z (close_all-IsCounted others owner (owned_handles owner (H.entries m.entries)) m v)
  ]

  -- Whatever calls are made, every object counts exactly its handles and its other references, and
  -- no handle stands for a deleted object: as long as handles are opened for live objects and the
  -- 64-bit counters do not wrap.
  pub run-IsCounted :
      (others : HandleKind → ℕ → ℕ) (cs : List Call) (m : HandleManager S H)
      → IsCounted others m
      → AllReady others cs m
      → IsCounted others (run cs m)
  unfolding run
  run-IsCounted others [] m v ready = v
  run-IsCounted others (c ∷ cs) m v ready =
      run-IsCounted others cs (step c m) (step-IsCounted others c m v ready.0 ready.1) ready.2

  -- An object that a process reaches by a handle of its own is live and counts a reference.
  pub resolve-live :
      (others : HandleKind → ℕ → ℕ) (m : HandleManager S H) (owner handle : ℕ) (kind : HandleKind)
      → IsCounted others m
      → owner ≢ 0
      → resolve S H owner handle kind m ≢ 0
      → (r : ℕ) × (references kind (resolve S H owner handle kind m) m.store ≡ some r) × (0 < r)
  resolve-live others m owner handle kind v ho ne =
      let object : ℕ = resolve S H owner handle kind m in
      let h = (resolve_iff m owner handle kind object ho ne).0 refl in
      entry-live others m handle (entry kind object owner) v h.1
