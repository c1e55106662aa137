-- ===== src/DList.antt =====
-- Katline/Memory/Heap.cppm: circular lists. Memory is a store of words by their addresses: the two pointers
-- of a `DList` at `d` stand at `d` and `d + 8`.
pub mod Links
pub mod Rings
pub mod Stacks
mod Tests
use Prim.Native.Nat.{bit_and}
use dhos_reborn.Base.{
  ℕ, zero, suc, ◌+◌, ◌-◌, ◌*◌, ◌/◌, ◌%◌, ◌^◌, Bool, true, false, not, ◌||◌, Option, none, some, leb,
  ltb, ◌==◌, if◌then◌else◌,
}
use dhos_reborn.LibC.{store}

abbrev pub Words : Type 0
Words = ℕ → ℕ

abbrev pub next_of : Words → ℕ → ℕ
next_of m d = m d

abbrev pub prev_of : Words → ℕ → ℕ
prev_of m d = m (d + 8)

abbrev pub set_next : ℕ → ℕ → Words → Words
set_next d v m b = if b == d then v else m b

abbrev pub set_prev : ℕ → ℕ → Words → Words
set_prev d v m b = if b == d + 8 then v else m b

unfoldable pub dlist_init : ℕ → Words → Words
dlist_init d m = set_prev d d (set_next d d m)

unfoldable pub dlist_insert_after : ℕ → ℕ → Words → Words
dlist_insert_after d1 d2 m =
    let n1 : ℕ = next_of m d1 in
    let e2 : ℕ = prev_of m d2 in set_prev n1 e2 (set_next e2 n1 (set_prev d2 d1 (set_next d1 d2 m)))

unfoldable pub dlist_insert_before : ℕ → ℕ → Words → Words
dlist_insert_before d1 d2 m =
    let e1 : ℕ = prev_of m d1 in
    let e2 : ℕ = prev_of m d2 in set_prev d1 e2 (set_next e2 d1 (set_prev d2 e1 (set_next e1 d2 m)))

unfoldable pub dlist_remove : ℕ → Words → Words
dlist_remove d m =
    let m1 : Words = set_next (prev_of m d) (next_of m d) m in
    let m2 : Words = set_prev (next_of m1 d) (prev_of m1 d) m1 in set_prev d d (set_next d d m2)

-- The head of a list, 0 for an empty one, goes in and out of these.
unfoldable pub dlist_push : ℕ → ℕ → Words → ℕ × Words
unfolding dlist_insert_before
dlist_push head d m = (d, if not (head == 0) then dlist_insert_before head d m else m)

unfoldable pub dlist_pop : ℕ → Words → ℕ × Words
unfolding dlist_remove
dlist_pop head m =
    let d2 : ℕ = next_of m head in (if head == d2 then 0 else d2, dlist_remove head m)

unfoldable pub dlist_remove_from : ℕ → ℕ → Words → ℕ × Words
unfolding dlist_pop dlist_remove
dlist_remove_from head d m = if head == d then dlist_pop head m else (head, dlist_remove d m)
