-- ===== src/CommonLib/AssociationMap.antt =====
-- A concrete map that meets the interface of `CL::HashMap`: an association list with distinct keys.
use dhos_reborn.CommonLib.{HashMap}
use dhos_reborn.Base.{
  ℕ, ◌+◌, ◌≡◌, refl, Bool, true, false, ◌&&◌, ◌||◌, not, Option, none, some, List, [], ◌∷◌, arith,
  ◌==◌, if◌then◌else◌, count, Bool-cases, inl, ==_iff, ==_self, inr,
}

module _ {V : Type 0} where
  abbrev pub lookup : List (ℕ × V) → ℕ → Option V
  lookup [] k = none
  lookup ((j, v) ∷ l) k = if j == k then some v else lookup l k

  abbrev pub has : ℕ → List (ℕ × V) → Bool
  has k [] = false
  has k ((j, v) ∷ l) = (j == k) || has k l

  abbrev pub erase : ℕ → List (ℕ × V) → List (ℕ × V)
  erase k [] = []
  erase k ((j, v) ∷ l) = let rest = erase k l in if k == j then rest else (j, v) ∷ rest

  abbrev pub distinct : List (ℕ × V) → Bool
  distinct [] = true
  distinct ((j, v) ∷ l) = not (has j l) && distinct l

  has-lookup : (k : ℕ) (l : List (ℕ × V)) → lookup l k ≡ none → has k l ≡ false
  has-lookup k [] h = refl
  has-lookup k ((j, v) ∷ l) h = ground (arith, has-lookup k l)

  erase-absent : (k : ℕ) (l : List (ℕ × V)) → has k l ≡ false → erase k l ≡ l
  erase-absent k [] h = refl
  erase-absent k ((j, v) ∷ l) h = ground (arith, erase-absent k l)

  has-erase : (j k : ℕ) (l : List (ℕ × V)) → has j (erase k l) ≡ (if k == j then false else has j l)
  has-erase j k [] = ground arith
  has-erase j k ((i, v) ∷ l) = ground (arith, has-erase j k l)

  pub distinct-erase : (k : ℕ) (l : List (ℕ × V)) → distinct l ≡ true → distinct (erase k l) ≡ true
  distinct-erase k [] h = refl
  distinct-erase k ((j, v) ∷ l) h = ground (arith, distinct-erase k l, has-erase j k l)

  pub distinct-insert :
      (k : ℕ) (v : V) (l : List (ℕ × V)) → distinct l ≡ true → distinct ((k, v) ∷ erase k l) ≡ true
  distinct-insert k v l h = ground (arith, has-erase k k l, distinct-erase k l)

  pub lookup-erase :
      (k j : ℕ) (l : List (ℕ × V)) → lookup (erase k l) j ≡ (if k == j then none else lookup l j)
  lookup-erase k j [] = ground arith
  lookup-erase k j ((i, v) ∷ l) = ground (arith, lookup-erase k j l)

  pub lookup-insert :
      (k j : ℕ) (v : V) (l : List (ℕ × V))
      → lookup ((k, v) ∷ erase k l) j ≡ (if k == j then some v else lookup l j)
  lookup-insert k j v l = ground (arith, lookup-erase k j l)

  pub count-fresh :
      (p : ℕ × V → Bool) (k : ℕ) (v : V) (l : List (ℕ × V))
      → lookup l k ≡ none
      → count p ((k, v) ∷ erase k l) ≡ count p l + (if p (k, v) then 1 else 0)
  count-fresh p k v l h = rw (erase-absent k l (has-lookup k l h))

  pub count-erase :
      (p : ℕ × V → Bool) (k : ℕ) (v : V) (l : List (ℕ × V))
      → distinct l ≡ true
      → lookup l k ≡ some v
      → count p l ≡ count p (erase k l) + (if p (k, v) then 1 else 0)
  count-erase p k v [] d h = cc
  count-erase p k v ((j, w) ∷ l) d h = elim (Bool-cases (j == k)) [
    | inl s ↦
        let e : j ≡ k = (==_iff j k).0 s in
        let f : w ≡ v = ground arith in
        let a : has k l ≡ false = rw (← e) (ground arith) in
        rw (e, f, ==_self k, erase-absent k l a)
    | inr s ↦
        let t : (k == j) ≡ false = ground arith in
        rw t (omega (arith, count-erase p k v l (ground arith) (ground arith)))
  ]

module _ (V : Type 0) where
  abbrev pub AssociationMap : Type 0
  AssociationMap = (l : List (ℕ × V)) × (distinct l ≡ true)

  abbrev pub association_map : HashMap V
  association_map = record {
    Map = AssociationMap;
    empty = ([], refl);
    get = λ (l, d) k. lookup l k;
    insert_or_replace = λ k v (l, d). ((k, v) ∷ erase k l, distinct-insert k v l d);
    remove = λ k (l, d). (erase k l, distinct-erase k l d);
    entries = λ (l, d). l;
    get-empty = λ k. refl;
    get-insert = λ k j v (l, d). lookup-insert k j v l;
    get-remove = λ k j (l, d). lookup-erase k j l;
    entries-empty = refl;
    count-insert = λ p k v (l, d) h. count-fresh p k v l h;
    count-remove = λ p k v (l, d) h. count-erase p k v l d h;
  }
