-- ===== src/DList/Tests.antt =====
-- Runs of the lists of Katline/Memory/Heap.cppm.
use dhos_reborn.Base.{ℕ, ◌≡◌, refl, [], ◌∷◌, leb, if◌then◌else◌, arith, inr}
use dhos_reborn.DList.{Words, dlist_push, dlist_pop}
use dhos_reborn.DList.Links.{IsAlone}
use dhos_reborn.DList.Stacks.{Holds, dlist_push-Holds, dlist_pop-Holds}

-- A list of one node at 64, and another at 128.
abbrev two_nodes : Words
two_nodes b = if leb 128 b then 128 else 64

abbrev node : ℕ
node = 64

dlist_push-Holds_example :
    Holds (dlist_push 64 128 two_nodes).1 (dlist_push 64 128 two_nodes).0 (128 ∷ 64 ∷ [])
dlist_push-Holds_example =
    dlist_push-Holds two_nodes 64 128 (64 ∷ [])
      (refl, ((λ e. absurd (omega arith)), tt), ((refl, refl), (tt, tt)))
      (λ e. absurd (omega arith)) (refl, refl) (inr (omega arith), tt)

dlist_pop-Holds_example :
    (node ≡ node) × ((dlist_pop node two_nodes).0 ≡ 0) × IsAlone (dlist_pop node two_nodes).1 node
dlist_pop-Holds_example =
    dlist_pop-Holds two_nodes node node []
      (refl, ((λ e. absurd (omega arith)), tt), ((refl, refl), (tt, tt)))
