-- ===== src/DList/Rings.antt =====
-- The circular lists of Katline/Memory/Heap.cppm: what insertion behind a node and removal do to them.
use mathlib.Core.Path.{subst, sym}
use dhos_reborn.Base.{ℕ, ◌+◌, ◌≡◌, refl, ◌∙◌, List, [], ◌∷◌, ◌==◌, if◌then◌else◌, arith}
use dhos_reborn.DList.{
  Words, next_of, prev_of, set_next, set_prev, dlist_insert_after, dlist_remove,
}
use dhos_reborn.DList.Links.{Apart, IsAlone}

-- From `a` over the nodes of a list to `b`, both ways.
abbrev pub Linked : Words → ℕ → List ℕ → ℕ → Type 0
Linked m a [] b = (next_of m a ≡ b) × (prev_of m b ≡ a)
Linked m a (x ∷ xs) b = (next_of m a ≡ x) × (prev_of m x ≡ a) × Linked m x xs b

-- A node is apart from all of a list.
abbrev pub ApartFrom : ℕ → List ℕ → Type 0
ApartFrom d [] = Unit {0}
ApartFrom d (x ∷ xs) = Apart d x × ApartFrom d xs

abbrev pub AllApart : List ℕ → Type 0
AllApart [] = Unit {0}
AllApart (x ∷ xs) = ApartFrom x xs × AllApart xs

-- A circular list of the nodes `a ∷ xs`.
abbrev pub IsRing : Words → ℕ → List ℕ → Type 0
IsRing m a xs = Linked m a xs a × AllApart (a ∷ xs)

-- The links of the nodes of a list are as before.
abbrev Kept : Words → Words → List ℕ → Type 0
Kept m m' [] = Unit {0}
Kept m m' (x ∷ xs) = (next_of m' x ≡ next_of m x) × (prev_of m' x ≡ prev_of m x) × Kept m m' xs

Linked-Kept :
    (m m' : Words) (a : ℕ) (xs : List ℕ) (b : ℕ)
    → Linked m a xs b
    → next_of m' a ≡ next_of m a
    → prev_of m' b ≡ prev_of m b
    → Kept m m' xs
    → Linked m' a xs b
Linked-Kept m m' a [] b (n, p) ea eb kept = (ea ∙ n, eb ∙ p)
Linked-Kept m m' a (x ∷ xs) b (n, p, rest) ea eb (kn, kp, kept) =
    (ea ∙ n, kp ∙ p, Linked-Kept m m' x xs b rest kn eb kept)

-- Two words are written in an insertion, at two nodes apart from a list.
Kept-writes :
    (m : Words) (a d x v w y z : ℕ) (xs : List ℕ)
    → ApartFrom a xs
    → ApartFrom d xs
    → ApartFrom x xs
    → Kept m (set_prev x z (set_next d y (set_prev d w (set_next a v m)))) xs
Kept-writes m a d x v w y z [] fa fd fx = tt
Kept-writes m a d x v w y z (b ∷ xs) (pa, fa) (pd, fd) (px, fx) =
    (ground arith, ground arith, Kept-writes m a d x v w y z xs fa fd fx)

-- The words after a lone node `d` was put between `a` and `x`.
abbrev written : Words → ℕ → ℕ → ℕ → Words
written m a d x = set_prev x d (set_next d x (set_prev d a (set_next a d m)))

-- A lone node goes behind the first.
pub dlist_insert_after-IsRing :
    (m : Words) (a d : ℕ) (xs : List ℕ)
    → IsRing m a xs
    → IsAlone m d
    → ApartFrom d (a ∷ xs)
    → IsRing (dlist_insert_after a d m) a (d ∷ xs)
unfolding dlist_insert_after
dlist_insert_after-IsRing m a d [] (ring, apart) alone (da, fd) =
    ((ground arith, ground arith, (ground arith, ground arith)), ((ground arith, tt), (tt, tt)))
dlist_insert_after-IsRing m a d (x ∷ xs) ((n, p, rest), ((ax, fa), (fx, all))) (dn, dp)
      (da, (dx, fd)) =
    let same : dlist_insert_after a d m ≡ written m a d x = rw (n, dp) refl in
    let chain : Linked (written m a d x) x xs a =
      Linked-Kept m (written m a d x) x xs a rest (ground arith) (ground arith)
        (Kept-writes m a d x d a x d xs fa fd fx) in
    subst (λ w. IsRing w a (d ∷ x ∷ xs)) (sym same)
      (
        (ground arith, ground arith, (ground arith, ground arith, chain)),
        ((ground arith, (ax, fa)), ((dx, fd), (fx, all))),
      )

-- The words after `d` was taken out from between `a` and `x`.
abbrev removed : Words → ℕ → ℕ → ℕ → Words
removed m a d x = set_prev d d (set_next d d (set_prev x a (set_next a x m)))

Kept-removed :
    (m : Words) (a d x : ℕ) (xs : List ℕ)
    → ApartFrom a xs
    → ApartFrom d xs
    → ApartFrom x xs
    → Kept m (removed m a d x) xs
Kept-removed m a d x [] fa fd fx = tt
Kept-removed m a d x (b ∷ xs) (pa, fa) (pd, fd) (px, fx) =
    (ground arith, ground arith, Kept-removed m a d x xs fa fd fx)

-- The node behind the first goes, and is alone.
pub dlist_remove-IsRing :
    (m : Words) (a d : ℕ) (xs : List ℕ)
    → IsRing m a (d ∷ xs)
    → IsRing (dlist_remove d m) a xs × IsAlone (dlist_remove d m) d
unfolding dlist_remove
dlist_remove-IsRing m a d [] ((n, p, (rn, rp)), ((ad, fa), all)) =
    let e1 : (if d == a then a else a) ≡ a = ground arith in
    let e2 : (if d + 8 == a then a else a) ≡ a = ground arith in
    let same : dlist_remove d m ≡ removed m a d a = rw (p, rn, e1, e2) refl in
    subst (λ w. IsRing w a [] × IsAlone w d) (sym same)
      (((ground arith, ground arith), (tt, tt)), (ground arith, ground arith))
dlist_remove-IsRing m a d (x ∷ xs)
      ((n, p, (rn, rp, rest)), ((ad, (ax, fa)), ((dx, fd), (fx, all)))) =
    let e1 : (if d == a then x else x) ≡ x = ground arith in
    let e2 : (if d + 8 == a then x else a) ≡ a = ground arith in
    let same : dlist_remove d m ≡ removed m a d x = rw (p, rn, e1, e2) refl in
    let chain : Linked (removed m a d x) x xs a =
      Linked-Kept m (removed m a d x) x xs a rest (ground arith) (ground arith)
        (Kept-removed m a d x xs fa fd fx) in
    subst (λ w. IsRing w a (x ∷ xs) × IsAlone w d) (sym same)
      (((ground arith, ground arith, chain), ((ax, fa), (fx, all))), (ground arith, ground arith))
