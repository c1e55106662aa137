-- ===== src/HandleManager/References.antt =====
-- The reference counts that the calls of Katline/HandleManager.cppm keep.
use native.Mathlib.Nat.{add-zero}
use dhos_reborn.Base.{
  ℕ, ◌+◌, ◌-◌, ◌%◌, ◌^◌, ◌<◌, ◌≡◌, ◌≢◌, inl, inr, Bool, true, ◌&&◌, Option, none, some, arith, ◌==◌,
  if◌then◌else◌, count, Bool-cases, Option-cases, ==_false,
}
use dhos_reborn.CommonLib.{HashMap}
use dhos_reborn.MemoryObject.{PageSource, MemoryObject, retain_memory_object, release_memory_object}
use dhos_reborn.HandleManager.{
  HandleKind, same_kind, Entry, HandleManager, Store, retain_object, release_object, add_entry,
}
use dhos_reborn.HandleManager.Ownership.{
  IsFresh, unused-next, same_kind_self, add_entry-IsFresh, same_kind-eq, remove-IsFresh,
}

-- The references that a memory object counts; none if the object has been deleted.
abbrev pub ref_count? : Option MemoryObject → Option ℕ
ref_count? none = none
ref_count? (some o) = some o.ref_count

-- The references that an object counts, by the kind of its handles.
abbrev pub references : {S : PageSource} → HandleKind → ℕ → Store S → Option ℕ
references HandleKind.process a s = some ((s.processes a).handle_count)
references HandleKind.thread a s = some ((s.threads a).handle_count)
references HandleKind.memory_object a s = ref_count? (s.memory.at a)

abbrev same_object : HandleKind → ℕ → HandleKind → ℕ → Bool
same_object k a j b = same_kind k j && (a == b)

-- What is left of r references when one goes: a memory object without any is deleted.
abbrev pub dropped : HandleKind → ℕ → Option ℕ
dropped HandleKind.memory_object r = if r - 1 == 0 then none else some (r - 1)
dropped _ r = some (r - 1)

module _ {S : PageSource} where
  retain-references :
      (k j : HandleKind) (a b r : ℕ) (s : Store S)
      → a ≢ 0
      → references k a s ≡ some r
      → r + 1 < 2 ^ 64
      → references j b (retain_object S k a s)
        ≡ (if same_object k a j b then some (r + 1) else references j b s)
  unfolding retain_object retain_memory_object
  retain-references HandleKind.process HandleKind.process a b r s nz e lt = ground arith
  retain-references HandleKind.process HandleKind.thread a b r s nz e lt = ground arith
  retain-references HandleKind.process HandleKind.memory_object a b r s nz e lt = ground arith
  retain-references HandleKind.thread HandleKind.process a b r s nz e lt = ground arith
  retain-references HandleKind.thread HandleKind.thread a b r s nz e lt = ground arith
  retain-references HandleKind.thread HandleKind.memory_object a b r s nz e lt = ground arith
  retain-references HandleKind.memory_object HandleKind.process a b r s nz e lt = ground arith
  retain-references HandleKind.memory_object HandleKind.thread a b r s nz e lt = ground arith
  retain-references HandleKind.memory_object HandleKind.memory_object a b r s nz e lt = ground arith

  release-references :
      (k j : HandleKind) (a b r : ℕ) (s : Store S)
      → a ≢ 0
      → references k a s ≡ some r
      → 0 < r
      → references j b (release_object S k a s)
        ≡ (if same_object k a j b then dropped k r else references j b s)
  unfolding release_object release_memory_object
  release-references HandleKind.process HandleKind.process a b r s nz e lt = ground arith
  release-references HandleKind.process HandleKind.thread a b r s nz e lt = ground arith
  release-references HandleKind.process HandleKind.memory_object a b r s nz e lt = ground arith
  release-references HandleKind.thread HandleKind.process a b r s nz e lt = ground arith
  release-references HandleKind.thread HandleKind.thread a b r s nz e lt = ground arith
  release-references HandleKind.thread HandleKind.memory_object a b r s nz e lt = ground arith
  release-references HandleKind.memory_object HandleKind.process a b r s nz e lt = ground arith
  release-references HandleKind.memory_object HandleKind.thread a b r s nz e lt = ground arith
  release-references HandleKind.memory_object HandleKind.memory_object a b r s nz e lt =
      ground arith

-- The entry is a handle of the given kind for the given object.
abbrev pub refers : HandleKind → ℕ → ℕ × Entry → Bool
refers kind a (k, e) = same_kind e.kind kind && (e.object == a)

-- A live object counts exactly n references; a deleted one has none.
abbrev pub Counts : Option ℕ → ℕ → Type 0
Counts none n = n ≡ 0
Counts (some r) n = r ≡ n

dropped-Counts : (k : HandleKind) (r n : ℕ) → r ≡ n + 1 → Counts (dropped k r) n
dropped-Counts HandleKind.process r n e = omega arith
dropped-Counts HandleKind.thread r n e = omega arith
dropped-Counts HandleKind.memory_object r n e = ground arith

module _ {S : PageSource} where
  same-object :
      (e : Entry) (kind : HandleKind) (a k r : ℕ) (s : Store S)
      → refers kind a (k, e) ≡ true
      → references e.kind e.object s ≡ some r
      → references kind a s ≡ some r
  same-object e kind a k r s t p =
      let ek : e.kind ≡ kind = same_kind-eq e.kind kind (ground arith) in
      let ea : e.object ≡ a = ground arith in rw (← ek, ← ea) p

module _ {S : PageSource} {H : HashMap Entry} where
  -- `others kind a` is the number of references to an object that are no handles, such as those of
  -- mappings. Every object counts its handles and these; every entry refers to some object.
  pub record IsCounted (others : HandleKind → ℕ → ℕ) (m : HandleManager S H) : Type 0 where
    pub fresh : IsFresh m
    pub counted :
        (kind : HandleKind) (a : ℕ)
        → a ≢ 0
        → Counts
            (references kind a m.store)
            (count (refers kind a) (H.entries m.entries) + others kind a)
    pub objects : (k : ℕ) (e : Entry) → H.get m.entries k ≡ some e → e.object ≢ 0
    pub few :
        (kind : HandleKind) (a : ℕ) → count (refers kind a) (H.entries m.entries) < m.next_handle_id

  -- An object that an entry stands for is live.
  pub entry-live :
      (others : HandleKind → ℕ → ℕ) (m : HandleManager S H) (k : ℕ) (e : Entry)
      → IsCounted others m
      → H.get m.entries k ≡ some e
      → (r : ℕ) × (references e.kind e.object m.store ≡ some r) × (0 < r)
  entry-live others m k e v p =
      let nz : e.object ≢ 0 = v.objects k e p in
      let c = v.counted e.kind e.object nz in
      let n = H.count-remove (refers e.kind e.object) k e m.entries p in
      let self : refers e.kind e.object (k, e) ≡ true = ground (arith, same_kind_self e.kind) in
      elim (Option-cases (references e.kind e.object m.store)) [
        | inl d ↦ absurd (let z = rw d at c in let n' = rw self at n in omega arith)
        | inr (r, d) ↦ (r, d, let z = rw d at c in let n' = rw self at n in omega arith)
      ]

  counted-insert :
      (others : HandleKind → ℕ → ℕ) (m : HandleManager S H) (e : Entry) (r : ℕ) (kind : HandleKind)
      (a : ℕ)
      → IsCounted others m
      → e.object ≢ 0
      → references e.kind e.object m.store ≡ some r
      → r + 1 < 2 ^ 64
      → a ≢ 0
      → Counts (references kind a (retain_object S e.kind e.object m.store)) (
          count (refers kind a) (H.entries (H.insert_or_replace m.next_handle_id e m.entries))
          + others kind a)
  counted-insert others m e r kind a v nz p lt an =
      let n = H.count-insert (refers kind a) m.next_handle_id e m.entries (unused-next m v.fresh) in
      let c = v.counted kind a an in
      rw (retain-references e.kind kind e.object a r m.store nz p lt, n)
        (elim (Bool-cases (refers kind a (0, e))) [
          | inl t ↦
              let q = same-object e kind a 0 r m.store t p in
              let c' = rw q at c in rw t (omega arith)
          | inr t ↦ rw t (rw (add-zero (count (refers kind a) (H.entries m.entries))) c)
        ])

  objects-insert :
      (others : HandleKind → ℕ → ℕ) (m : HandleManager S H) (e : Entry) (k : ℕ) (g : Entry)
      → IsCounted others m
      → e.object ≢ 0
      → H.get (H.insert_or_replace m.next_handle_id e m.entries) k ≡ some g
      → g.object ≢ 0
  objects-insert others m e k g v nz q = elim (Bool-cases (m.next_handle_id == k)) [
    | inl s ↦
        let i : some e ≡ some g = ground (arith, H.get-insert m.next_handle_id k e m.entries) in
        ground (arith, nz)
    | inr s ↦ v.objects k g (ground (arith, H.get-insert m.next_handle_id k e m.entries))
  ]

  few-insert :
      (others : HandleKind → ℕ → ℕ) (m : HandleManager S H) (e : Entry) (kind : HandleKind) (a : ℕ)
      → IsCounted others m
      → count (refers kind a) (H.entries (H.insert_or_replace m.next_handle_id e m.entries))
        < m.next_handle_id + 1
  few-insert others m e kind a v =
      let n = H.count-insert (refers kind a) m.next_handle_id e m.entries (unused-next m v.fresh) in
      let b = v.few kind a in
      elim (Bool-cases (refers kind a (m.next_handle_id, e))) [
        | inl t ↦ let n' = rw t at n in omega arith
        | inr t ↦ let n' = rw t at n in omega arith
      ]

  -- One more entry for a live object keeps the counts.
  pub add_entry-IsCounted :
      (others : HandleKind → ℕ → ℕ) (m : HandleManager S H) (e : Entry) (r : ℕ)
      → IsCounted others m
      → e.object ≢ 0
      → references e.kind e.object m.store ≡ some r
      → others e.kind e.object + m.next_handle_id + 1 < 2 ^ 64
      → IsCounted others (add_entry S H e m).1
  unfolding add_entry
  add_entry-IsCounted others m e r v nz p room =
      let pos : m.next_handle_id ≢ 0 = omega (arith, v.fresh.positive) in
      let wrap : (m.next_handle_id + 1) % 2 ^ 64 ≡ m.next_handle_id + 1 = omega arith in
      let c = v.counted e.kind e.object nz in
      let c' = rw p at c in
      let lt : r + 1 < 2 ^ 64 = omega (arith, v.few e.kind e.object) in
      let f = add_entry-IsFresh m e v.fresh (omega arith) in
      record {
        fresh = f;
        counted = λ kind a an. rw (==_false pos) (counted-insert others m e r kind a v nz p lt an);
        objects = λ k g q. objects-insert others m e k g v nz (rw (==_false pos) at q);
        few = λ kind a. rw (==_false pos, wrap) (few-insert others m e kind a v);
      }

  counted-remove :
      (others : HandleKind → ℕ → ℕ) (m : HandleManager S H) (k : ℕ) (e : Entry) (kind : HandleKind)
      (a : ℕ)
      → IsCounted others m
      → H.get m.entries k ≡ some e
      → a ≢ 0
      → Counts
          (references kind a (release_object S e.kind e.object m.store))
          (count (refers kind a) (H.entries (H.remove k m.entries)) + others kind a)
  counted-remove others m k e kind a v g an =
      let n = H.count-remove (refers kind a) k e m.entries g in
      let c = v.counted kind a an in
      let (r, p, pos) = entry-live others m k e v g in
      rw (release-references e.kind kind e.object a r m.store (v.objects k e g) p pos)
        (elim (Bool-cases (refers kind a (k, e))) [
          | inl t ↦
              let q = same-object e kind a k r m.store t p in
              let c' = rw q at c in
              let n' = rw t at n in
              let d : r
                  ≡ count (refers kind a) (H.entries (H.remove k m.entries)) + others kind a + 1 =
                omega arith in
              rw t (dropped-Counts e.kind r _ d)
          | inr t ↦
              let n' = rw t at n in
              let same : count (refers kind a) (H.entries (H.remove k m.entries))
                  ≡ count (refers kind a) (H.entries m.entries) =
                omega arith in
              rw (t, same) c
        ])

  pub remove-IsCounted :
      (others : HandleKind → ℕ → ℕ) (m : HandleManager S H) (k : ℕ) (e : Entry)
      → IsCounted others m
      → H.get m.entries k ≡ some e
      → IsCounted others (record m {
        entries = H.remove k m.entries;
        store = release_object S e.kind e.object m.store;
      })
  remove-IsCounted others m k e v g = record {
    fresh = remove-IsFresh m k _ v.fresh;
    counted = λ kind a an. counted-remove others m k e kind a v g an;
    objects = λ j f q. v.objects j f (ground (arith, q, H.get-remove k j m.entries));
    few = λ kind a. omega (arith, v.few kind a, H.count-remove (refers kind a) k e m.entries g);
  }
