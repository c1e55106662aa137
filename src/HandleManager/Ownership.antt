-- ===== src/HandleManager/Ownership.antt =====
-- Who can use a handle of Katline/HandleManager.cppm, and what each call does to the other ones.
use dhos_reborn.Base.{
  ℕ, ◌+◌, ◌%◌, ◌^◌, ◌<◌, ◌≡◌, refl, ◌≢◌, ◌↔◌, inl, inr, Bool, true, false, ◌&&◌, Option, none, some,
  List, [], ◌∷◌, arith, ◌==◌, if◌then◌else◌, count, contains, Bool-cases, Option-cases, ==_false,
}
use dhos_reborn.CommonLib.{HashMap, get-insert_self, get-insert_ne}
use dhos_reborn.MemoryObject.{PageSource}
use dhos_reborn.HandleManager.{
  HandleKind, same_kind, Entry, HandleManager, resolve, open_handle, close, duplicate, close_all,
  owned_handles, find_entry, Store, add_entry, release_owned_handles,
}

pub same_kind-eq : (k j : HandleKind) → same_kind k j ≡ true → k ≡ j
same_kind-eq HandleKind.process HandleKind.process h = refl
same_kind-eq HandleKind.process HandleKind.thread h = cc
same_kind-eq HandleKind.process HandleKind.memory_object h = cc
same_kind-eq HandleKind.thread HandleKind.process h = cc
same_kind-eq HandleKind.thread HandleKind.thread h = refl
same_kind-eq HandleKind.thread HandleKind.memory_object h = cc
same_kind-eq HandleKind.memory_object HandleKind.process h = cc
same_kind-eq HandleKind.memory_object HandleKind.thread h = cc
same_kind-eq HandleKind.memory_object HandleKind.memory_object h = refl

pub same_kind_self : (k : HandleKind) → same_kind k k ≡ true
same_kind_self HandleKind.process = refl
same_kind_self HandleKind.thread = refl
same_kind_self HandleKind.memory_object = refl

abbrev pub entry : HandleKind → ℕ → ℕ → Entry
entry kind object owner = record { kind = kind; object = object; owner = owner }

-- What remains of an entry when its owner's handles are released.
abbrev pub purged : ℕ → Option Entry → Option Entry
purged owner none = none
purged owner (some e) = if e.owner == owner then none else some e

abbrev pub owned_at : ℕ → ℕ → ℕ × Entry → Bool
owned_at owner j (k, e) = (k == j) && (e.owner == owner)

unlisted-count :
    (owner j : ℕ) (es : List (ℕ × Entry))
    → contains j (owned_handles owner es) ≡ false
    → count (owned_at owner j) es ≡ 0
unfolding owned_handles
unlisted-count owner j [] h = refl
unlisted-count owner j ((k, e) ∷ es) h = ground (arith, unlisted-count owner j es)

module _ {S : PageSource} {H : HashMap Entry} where
  -- The handle belongs to the owner and stands for the object, of that kind.
  abbrev pub Holds : HandleManager S H → ℕ → ℕ → HandleKind → ℕ → Type 0
  Holds m owner handle kind object =
      (handle ≢ 0) × (H.get m.entries handle ≡ some (entry kind object owner))

  -- Every id in use lies below the next one.
  pub record IsFresh (m : HandleManager S H) : Type 0 where
    pub below : (k : ℕ) (e : Entry) → H.get m.entries k ≡ some e → k < m.next_handle_id
    pub positive : 0 < m.next_handle_id
    pub zero_unused : H.get m.entries 0 ≡ none

  pub unused-next : (m : HandleManager S H) → IsFresh m → H.get m.entries m.next_handle_id ≡ none
  unused-next m v = elim (Option-cases (H.get m.entries m.next_handle_id)) [
    | inl e ↦ e
    | inr (e, p) ↦ absurd (omega (arith, v.below m.next_handle_id e p))
  ]

  -- A process that asks for an object by a handle and a kind gets it exactly when it owns that
  -- handle and the handle stands for that object, of that kind.
  pub resolve_iff :
      (m : HandleManager S H) (owner handle : ℕ) (kind : HandleKind) (object : ℕ)
      → owner ≢ 0
      → object ≢ 0
      → (resolve S H owner handle kind m ≡ object) ↔ Holds m owner handle kind object
  unfolding resolve
  resolve_iff m owner handle kind object ho nz = (there, back)
    where
      there : resolve S H owner handle kind m ≡ object → Holds m owner handle kind object
      there h = elim (Option-cases (H.get m.entries handle)) [
        | inl e ↦ absurd (ground arith)
        | inr (e, p) ↦ ground (arith, same_kind-eq e.kind kind)
      ]

      back : Holds m owner handle kind object → resolve S H owner handle kind m ≡ object
      back h = rw (==_false h.0, h.1, ==_false ho) (ground (arith, same_kind_self kind))

  -- Opening a handle answers an id that was not in use, which stands for the object in the hands
  -- of its owner; every other handle stays what it was.
  pub open_handle_lem :
      (m : HandleManager S H) (owner : ℕ) (kind : HandleKind) (object : ℕ)
      → IsFresh m
      → owner ≢ 0
      → object ≢ 0
      → let (id, m') = open_handle S H owner kind object m in
        (H.get m.entries id ≡ none)
        × Holds m' owner id kind object
        × ((j : ℕ) → id ≢ j → H.get m'.entries j ≡ H.get m.entries j)
  unfolding open_handle
  open_handle_lem m owner kind object v ho hb =
      let pos : m.next_handle_id ≢ 0 = omega (arith, v.positive) in
      rw (==_false ho, ==_false hb, ==_false pos)
        (
          unused-next m v,
          (pos, get-insert_self H m.next_handle_id _ m.entries),
          λ j ne. get-insert_ne H _ m.entries ne,
        )

  -- A duplicate is a new handle of the same owner for the same object, and the original remains.
  pub duplicate_lem :
      (m : HandleManager S H) (owner handle : ℕ) (kind : HandleKind) (object : ℕ)
      → IsFresh m
      → owner ≢ 0
      → Holds m owner handle kind object
      → let (id, m') = duplicate S H owner handle m in
        (id ≢ handle)
        × Holds m' owner id kind object
        × ((j : ℕ) → id ≢ j → H.get m'.entries j ≡ H.get m.entries j)
  unfolding duplicate
  duplicate_lem m owner handle kind object v ho h =
      let pos : m.next_handle_id ≢ 0 = omega (arith, v.positive) in
      let lt : handle < m.next_handle_id = v.below handle _ h.1 in
      let self : (owner == owner) ≡ true = ground arith in
      rw (==_false h.0, h.1, ==_false ho, self, ==_false pos)
        (
          (λ e. omega arith),
          (pos, get-insert_self H m.next_handle_id _ m.entries),
          λ j ne. get-insert_ne H _ m.entries ne,
        )

  -- Closing a handle of one's own succeeds, removes that handle, and no other one.
  pub close-owned :
      (m : HandleManager S H) (owner handle : ℕ) (kind : HandleKind) (object : ℕ)
      → Holds m owner handle kind object
      → let (done, m') = close S H owner handle m in
        (done ≡ true)
        × ((j : ℕ) → H.get m'.entries j ≡ (if handle == j then none else H.get m.entries j))
  unfolding close
  close-owned m owner handle kind object h =
      let self : (owner == owner) ≡ true = ground arith in
      elim (Bool-cases (owner == 0)) [
        | inl z ↦ rw (==_false h.0, h.1, z) (refl, λ j. H.get-remove handle j m.entries)
        | inr z ↦ rw (==_false h.0, h.1, z, self) (refl, λ j. H.get-remove handle j m.entries)
      ]

  -- A process that neither owns a handle nor is the kernel cannot close it, duplicate it or reach
  -- an object by it: each call is refused and changes nothing.
  pub foreign_refused :
      (m : HandleManager S H) (owner handle : ℕ) (kind : HandleKind) (e : Entry)
      → owner ≢ 0
      → H.get m.entries handle ≡ some e
      → e.owner ≢ owner
      → (close S H owner handle m ≡ (false, m))
        × (duplicate S H owner handle m ≡ (0, m))
        × (resolve S H owner handle kind m ≡ 0)
  unfolding close duplicate resolve
  foreign_refused m owner handle kind e ho p ne = elim (Bool-cases (handle == 0)) [
    | inl z ↦ rw z (refl, refl, refl)
    | inr z ↦ rw (z, p, ==_false ho, ==_false ne) (refl, refl, refl)
  ]

  close-get :
      (m : HandleManager S H) (owner handle j : ℕ)
      → owner ≢ 0
      → H.get m.entries 0 ≡ none
      → H.get (close S H owner handle m).1.entries j
        ≡ (if handle == j then purged owner (H.get m.entries j) else H.get m.entries j)
  unfolding close
  close-get m owner handle j ho z = elim (Option-cases (H.get m.entries handle)) [
    | inl e ↦ ground (arith, z, e)
    | inr (e, p) ↦ ground (arith, z, p, H.get-remove handle j m.entries)
  ]

  close_all-get :
      (owner : ℕ) (handles : List ℕ) (m : HandleManager S H) (j : ℕ)
      → owner ≢ 0
      → H.get m.entries 0 ≡ none
      → H.get (close_all S H owner handles m).entries j
        ≡ (if contains j handles then purged owner (H.get m.entries j) else H.get m.entries j)
  unfolding close_all
  close_all-get owner [] m j ho z = refl
  close_all-get owner (h ∷ handles) m j ho z = ground (
    arith,
    close-get m owner h j ho z,
    close-get m owner h 0 ho z,
    close_all-get owner handles ((close S H owner h m).1) j ho,
  )

  listed :
      (m : HandleManager S H) (owner j : ℕ) (e : Entry)
      → H.get m.entries j ≡ some e
      → e.owner ≡ owner
      → contains j (owned_handles owner (H.entries m.entries)) ≡ true
  listed m owner j e p o = ground (
    arith,
    H.count-remove (owned_at owner j) j e m.entries,
    unlisted-count owner j (H.entries m.entries),
  )

  -- Releasing the handles of a process removes every handle that it owns and leaves every handle
  -- of another process.
  pub release_owned_handles-get :
      (m : HandleManager S H) (owner j : ℕ)
      → IsFresh m
      → owner ≢ 0
      → H.get (release_owned_handles S H owner m).entries j ≡ purged owner (H.get m.entries j)
  unfolding release_owned_handles
  release_owned_handles-get m owner j v ho =
      let hs : List ℕ = owned_handles owner (H.entries m.entries) in
      rw (==_false ho, close_all-get owner hs m j ho v.zero_unused)
        (elim (Option-cases (H.get m.entries j)) [
          | inl e ↦ ground (arith, e)
          | inr (e, p) ↦ ground (arith, p, listed m owner j e p)
        ])

  pub add_entry-IsFresh :
      (m : HandleManager S H) (e : Entry)
      → IsFresh m
      → m.next_handle_id + 1 < 2 ^ 64
      → IsFresh (add_entry S H e m).1
  unfolding add_entry
  add_entry-IsFresh m e v room =
      let pos : m.next_handle_id ≢ 0 = omega (arith, v.positive) in
      let wrap : (m.next_handle_id + 1) % 2 ^ 64 ≡ m.next_handle_id + 1 = omega arith in
      rw (==_false pos, wrap)
        (record {
          below = λ k f p. elim (Bool-cases (m.next_handle_id == k)) [
            | inl s ↦ ground arith
            | inr s ↦
                let q : H.get m.entries k ≡ some f =
                  ground (arith, p, H.get-insert m.next_handle_id k e m.entries) in
                omega (arith, v.below k f q)
          ];
          positive = omega arith;
          zero_unused = rw (get-insert_ne H e m.entries pos) v.zero_unused;
        })

  pub remove-IsFresh :
      (m : HandleManager S H) (handle : ℕ) (s : Store S)
      → IsFresh m
      → IsFresh (record m { entries = H.remove handle m.entries; store = s })
  remove-IsFresh m handle s v = record {
    below = λ k f p. v.below k f (ground (arith, p, H.get-remove handle k m.entries));
    positive = v.positive;
    zero_unused = ground (arith, H.get-remove handle 0 m.entries, v.zero_unused);
  }

  pub close-IsFresh :
      (m : HandleManager S H) (owner handle : ℕ) → IsFresh m → IsFresh (close S H owner handle m).1
  unfolding close
  close-IsFresh m owner handle v = elim (Option-cases (find_entry S H owner handle m)) [
    | inl e ↦ rw e v
    | inr (e, p) ↦ rw p (remove-IsFresh m handle _ v)
  ]

  pub close_all-IsFresh :
      (owner : ℕ) (handles : List ℕ) (m : HandleManager S H)
      → IsFresh m
      → IsFresh (close_all S H owner handles m)
  unfolding close_all
  close_all-IsFresh owner [] m v = v
  close_all-IsFresh owner (h ∷ handles) m v =
      close_all-IsFresh owner handles ((close S H owner h m).1) (close-IsFresh m owner h v)
