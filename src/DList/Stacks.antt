-- ===== src/DList/Stacks.antt =====
-- The free lists of Katline/Memory/Heap.cppm as stacks: dlist_push and dlist_pop.
use mathlib.Core.Path.{subst}
use dhos_reborn.Base.{
  ℕ, ◌+◌, ◌≡◌, ◌≢◌, refl, sym, ap, ◌⊎◌, inl, inr, true, false, List, [], ◌∷◌, ◌==◌, arith,
}
use dhos_reborn.DList.{
  Words, next_of, prev_of, set_next, set_prev, dlist_insert_before, dlist_remove, dlist_push,
  dlist_pop,
}
use dhos_reborn.DList.Links.{Apart, IsAlone}
use dhos_reborn.DList.Rings.{Linked, ApartFrom, AllApart, IsRing}

-- The last node of a segment is apart from what the segment is apart from, and is the first or apart from it.
last-Apart :
    (m : Words) (y x : ℕ) (xs : List ℕ) (b : ℕ)
    → Linked m x xs b
    → ApartFrom y (x ∷ xs)
    → Apart y (prev_of m b)
last-Apart m y x [] b (n, p) (yx, f) = rw p yx
last-Apart m y x (z ∷ zs) b (n, p, rest) (yx, f) = last-Apart m y z zs b rest f

last-cases :
    (m : Words) (x : ℕ) (xs : List ℕ) (b : ℕ)
    → Linked m x xs b
    → AllApart (x ∷ xs)
    → (prev_of m b ≡ x) ⊎ Apart x (prev_of m b)
last-cases m x [] b (n, p) all = inl p
last-cases m x (z ∷ zs) b (n, p, rest) (f, all) = inr (last-Apart m x z zs b rest f)

-- What inserting `d` in front of `a` writes, and what removing `d` writes, when `a` follows it.
abbrev before : Words → ℕ → ℕ → Words
before m a d = set_prev a d (set_next d a (set_prev d (prev_of m a) (set_next (prev_of m a) d m)))

abbrev without : Words → ℕ → ℕ → Words
without m a d = set_prev d d (set_next d d (set_prev a (prev_of m d) (set_next (prev_of m d) a m)))

Linked-before :
    (m : Words) (a d y : ℕ) (ys : List ℕ)
    → Linked m y ys a
    → AllApart (y ∷ ys)
    → ApartFrom d (y ∷ ys)
    → (y ≡ a) ⊎ Apart a y
    → ApartFrom a ys
    → Apart d a
    → Linked (before m a d) y ys d
Linked-before m a d y [] (n, p) all (dy, f) ya fa da = (ground arith, ground arith)
Linked-before m a d y (x ∷ xs) (n, p, rest) ((yx, fy), all) (dy, (dx, f)) ya (ax, fa) da =
    let e : Apart y (prev_of m a) = last-Apart m y x xs a rest (yx, fy) in
    let c : (prev_of m a ≡ x) ⊎ Apart x (prev_of m a) = last-cases m x xs a rest all in
    (ground arith, ground arith, Linked-before m a d x xs rest all (dx, f) (inr ax) fa da)

Linked-without :
    (m : Words) (a d y : ℕ) (ys : List ℕ)
    → Linked m y ys d
    → AllApart (y ∷ ys)
    → ApartFrom d (y ∷ ys)
    → (y ≡ a) ⊎ Apart a y
    → ApartFrom a ys
    → Apart d a
    → Linked (without m a d) y ys a
Linked-without m a d y [] (n, p) all (dy, f) ya fa da = (ground arith, ground arith)
Linked-without m a d y (x ∷ xs) (n, p, rest) ((yx, fy), all) (dy, (dx, f)) ya (ax, fa) da =
    let e : Apart y (prev_of m d) = last-Apart m y x xs d rest (yx, fy) in
    let c : (prev_of m d ≡ x) ⊎ Apart x (prev_of m d) = last-cases m x xs d rest all in
    (ground arith, ground arith, Linked-without m a d x xs rest all (dx, f) (inr ax) fa da)

-- A lone node goes in front of a ring.
pub dlist_insert_before-IsRing :
    (m : Words) (a d : ℕ) (xs : List ℕ)
    → IsRing m a xs
    → IsAlone m d
    → ApartFrom d (a ∷ xs)
    → IsRing (dlist_insert_before a d m) d (a ∷ xs)
unfolding dlist_insert_before
dlist_insert_before-IsRing m a d xs (ring, (fa, all)) (n, p) (da, f) =
    let same : dlist_insert_before a d m ≡ before m a d = rw p refl in
    subst (λ w. IsRing w d (a ∷ xs)) (sym same)
      (
        (
          ground arith,
          ground arith,
          Linked-before m a d a xs ring (fa, all) (da, f) (inl refl) fa da,
        ),
        ((da, f), (fa, all)),
      )

-- The first node of a ring of two or more goes out.
pub dlist_remove-first :
    (m : Words) (a d : ℕ) (xs : List ℕ)
    → IsRing m d (a ∷ xs)
    → IsRing (dlist_remove d m) a xs × IsAlone (dlist_remove d m) d
unfolding dlist_remove
dlist_remove-first m a d xs ((n, p, ring), ((da, f), (fa, all))) =
    let last_apart : Apart d (prev_of m d) = last-Apart m d a xs d ring (da, f) in
    let e1 : (d == m (d + 8)) ≡ false = ground arith in
    let e2 : (d + 8 == m (d + 8)) ≡ false = ground arith in
    let same : dlist_remove d m ≡ without m a d = rw (n, e1, e2) refl in
    rw same (
      (Linked-without m a d a xs ring (fa, all) (da, f) (inl refl) fa da, (fa, all)),
      (ground arith, ground arith),
    )

dlist_remove-IsAlone : (m : Words) (d : ℕ) → IsAlone m d → IsAlone (dlist_remove d m) d
unfolding dlist_remove
dlist_remove-IsAlone m d (n, p) = (ground arith, ground arith)

-- No node of a list is null.
abbrev pub NoneNull : List ℕ → Type 0
NoneNull [] = Unit {0}
NoneNull (x ∷ xs) = (x ≢ 0) × NoneNull xs

-- The free list with this head holds these nodes, in this order.
abbrev pub Holds : Words → ℕ → List ℕ → Type 0
Holds m head [] = head ≡ 0
Holds m head (x ∷ xs) = (head ≡ x) × NoneNull (x ∷ xs) × IsRing m x xs

dlist_push-onto :
    (m : Words) (head x d : ℕ)
    → head ≡ x
    → x ≢ 0
    → dlist_push head d m ≡ (d, dlist_insert_before x d m)
unfolding dlist_push
dlist_push-onto m head x d at nonnull = let e : (x == 0) ≡ false = ground arith in rw (at, e) refl

dlist_pop-last :
    (m : Words) (head x : ℕ) → head ≡ x → next_of m x ≡ x → dlist_pop head m ≡ (0, dlist_remove x m)
unfolding dlist_pop
dlist_pop-last m head x at n = let e : (x == m x) ≡ true = ground arith in rw (at, e) refl

dlist_pop-more :
    (m : Words) (head x y : ℕ)
    → head ≡ x
    → next_of m x ≡ y
    → x ≢ y
    → dlist_pop head m ≡ (y, dlist_remove x m)
unfolding dlist_pop
dlist_pop-more m head x y at n other =
    let e : (x == m x) ≡ false = ground arith in rw (at, e) (ap (λ z. (z, dlist_remove x m)) n)

-- Pushing a node, which is linked to itself only and shares no byte with the nodes of a free list,
-- puts it in front of them.
pub dlist_push-Holds :
    (m : Words) (head d : ℕ) (xs : List ℕ)
    → Holds m head xs
    → d ≢ 0
    → IsAlone m d
    → ApartFrom d xs
    → let (head', m') = dlist_push head d m in Holds m' head' (d ∷ xs)
unfolding dlist_push
dlist_push-Holds m head d [] empty nonnull alone apart =
    rw empty (refl, (nonnull, tt), (alone, (tt, tt)))
dlist_push-Holds m head d (x ∷ xs) (at, (xn, none_null), ring) nonnull alone apart =
    subst (λ r. Holds r.1 r.0 (d ∷ x ∷ xs)) (sym (dlist_push-onto m head x d at xn))
      (refl, (nonnull, (xn, none_null)), dlist_insert_before-IsRing m x d xs ring alone apart)

-- Popping a free list that is not empty leaves the other nodes in their order, and the popped node
-- is linked to itself only.
pub dlist_pop-Holds :
    (m : Words) (head x : ℕ) (xs : List ℕ)
    → Holds m head (x ∷ xs)
    → let (head', m') = dlist_pop head m in (head ≡ x) × Holds m' head' xs × IsAlone m' x
unfolding dlist_pop
dlist_pop-Holds m head x [] (at, (xn, none_null), ((n, p), apart)) =
    subst (λ r. (head ≡ x) × Holds r.1 r.0 [] × IsAlone r.1 x) (sym (dlist_pop-last m head x at n))
      (at, refl, dlist_remove-IsAlone m x (n, p))
dlist_pop-Holds m head x (y ∷ ys) (at, (xn, none_null), ring) =
    let ((n, p, rest), ((xy, f), all)) = ring in
    let (left, alone) = dlist_remove-first m y x ys ring in
    subst (λ r. (head ≡ x) × Holds r.1 r.0 (y ∷ ys) × IsAlone r.1 x)
      (sym (dlist_pop-more m head x y at n (ground arith))) (at, (refl, none_null, left), alone)
