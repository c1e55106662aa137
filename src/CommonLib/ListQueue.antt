-- ===== src/CommonLib/ListQueue.antt =====
-- A concrete queue that meets the interface of `CL::MpscQueue`: a list with room for four values.
use dhos_reborn.Base.{
  ◌≡◌, ◌⊎◌, refl, Bool, true, false, Option, none, some, List, [], ◌∷◌, ◌++◌, ltb, if◌then◌else◌,
  length, Bool-cases, inl, inr,
}
use dhos_reborn.CommonLib.{BoundedQueue}

module _ (V : Type 0) where
  abbrev push : V → List V → Bool × List V
  push v q = if ltb (length q) 4 then (true, q ++ v ∷ []) else (false, q)

  abbrev pop : List V → Option V × List V
  pop [] = (none, [])
  pop (v ∷ q) = (some v, q)

  abbrev pub list_queue : BoundedQueue V
  list_queue = record {
    Queue = List V;
    contents = λ q. q;
    try_push = push;
    try_pop = pop;
    push-contents = λ v q. elim (Bool-cases (ltb (length q) 4)) [
      | inl e ↦ rw e (inl (refl, refl))
      | inr e ↦ rw e (inr (refl, refl))
    ];
    pop-contents = pop_lem;
  }
    where
      pop_lem :
          (q : List V)
          → ((q ≡ []) × ((pop q).0 ≡ none) × ((pop q).1 ≡ []))
            ⊎ ((v : V) × ((q ≡ v ∷ (pop q).1) × ((pop q).0 ≡ some v)))
      pop_lem [] = inl (refl, refl, refl)
      pop_lem (v ∷ q) = inr (v, (refl, refl))
