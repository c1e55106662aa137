-- ===== src/CommonLib.antt =====
-- vendor/CommonLib is a git submodule, so its containers enter as interfaces: the operations that
-- the kernel calls, with the documented behaviour that it relies on.
pub mod AssociationMap
pub mod Levels
pub mod ListQueue
use dhos_reborn.Base.{
  ℕ, ◌+◌, ◌≡◌, Bool, true, Option, none, some, List, [], ◌==◌, if◌then◌else◌, count, ==_self, ◌≢◌,
  ==_false, ◌++◌, ◌⊎◌, false, ◌∷◌,
}

-- `CL::HashMap<u64, V>`. `entries` is the list that `iter()` walks; it holds each key once.
pub record HashMap (V : Type 0) : Type 1 where
  pub Map : Type 0
  pub empty : Map
  pub get : Map → ℕ → Option V
  pub insert_or_replace : ℕ → V → Map → Map
  pub remove : ℕ → Map → Map
  pub entries : Map → List (ℕ × V)
  pub get-empty : (k : ℕ) → get empty k ≡ none
  pub get-insert :
      (k j : ℕ) (v : V) (m : Map)
      → get (insert_or_replace k v m) j ≡ (if k == j then some v else get m j)
  pub get-remove : (k j : ℕ) (m : Map) → get (remove k m) j ≡ (if k == j then none else get m j)
  pub entries-empty : entries empty ≡ []
  pub count-insert :
      (p : ℕ × V → Bool) (k : ℕ) (v : V) (m : Map)
      → get m k ≡ none
      → count p (entries (insert_or_replace k v m))
        ≡ count p (entries m) + (if p (k, v) then 1 else 0)
  pub count-remove :
      (p : ℕ × V → Bool) (k : ℕ) (v : V) (m : Map)
      → get m k ≡ some v
      → count p (entries m) ≡ count p (entries (remove k m)) + (if p (k, v) then 1 else 0)

-- `CL::MpscQueue`: a push is refused, without an effect, or puts the value behind the others; a pop takes the
-- first. How many values fit is left open.
pub record BoundedQueue (V : Type 0) : Type 1 where
  pub Queue : Type 0
  pub contents : Queue → List V
  pub try_push : V → Queue → Bool × Queue
  pub try_pop : Queue → Option V × Queue
  pub push-contents :
      (v : V) (q : Queue)
      → (((try_push v q).0 ≡ true) × (contents (try_push v q).1 ≡ contents q ++ v ∷ []))
        ⊎ (((try_push v q).0 ≡ false) × (contents (try_push v q).1 ≡ contents q))
  pub pop-contents :
      (q : Queue)
      → ((contents q ≡ []) × ((try_pop q).0 ≡ none) × (contents (try_pop q).1 ≡ []))
        ⊎ ((v : V) × ((contents q ≡ v ∷ contents (try_pop q).1) × ((try_pop q).0 ≡ some v)))

-- `CL::Flags`: sets of flags over a 64-bit word, `contains_all` and the union `|`.
pub record FlagSets : Type 0 where
  pub contains_all : ℕ → ℕ → Bool
  pub union : ℕ → ℕ → ℕ
  pub contains_self : (a : ℕ) → contains_all a a ≡ true
  pub contains_trans :
      (a b c : ℕ) → contains_all a b ≡ true → contains_all b c ≡ true → contains_all a c ≡ true
  pub contains_left : (a b : ℕ) → contains_all (union a b) a ≡ true
  pub contains_right : (a b : ℕ) → contains_all (union a b) b ≡ true
  pub contains_union :
      (a b c : ℕ)
      → contains_all c a ≡ true
      → contains_all c b ≡ true
      → contains_all c (union a b) ≡ true

module _ {V : Type 0} (H : HashMap V) where
  pub get-insert_self : (k : ℕ) (v : V) (m : H.Map) → H.get (H.insert_or_replace k v m) k ≡ some v
  get-insert_self k v m = rw (H.get-insert k k v m, ==_self k)

  pub get-insert_ne :
      {k j : ℕ} (v : V) (m : H.Map) → k ≢ j → H.get (H.insert_or_replace k v m) j ≡ H.get m j
  get-insert_ne {k} {j} v m ne = rw (H.get-insert k j v m, ==_false ne)
