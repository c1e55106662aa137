-- ===== src/CommonLib/Levels.antt =====
-- Concrete values for the interfaces in the tests: nested flag sets, where a higher number holds
-- every lower one.
use Prim.Native.Nat.{max}
use dhos_reborn.Base.{ℕ, ◌≤◌, ◌≡◌, true, arith, leb, leb→le, leb-true}
use dhos_reborn.CommonLib.{FlagSets}

pub trans : (a b c : ℕ) → leb a b ≡ true → leb b c ≡ true → leb a c ≡ true
trans a b c p q = ground arith

pub join : (a b c : ℕ) → leb a c ≡ true → leb b c ≡ true → leb (max a b) c ≡ true
join a b c p q =
    let l : a ≤ c = leb→le a c p in
    let r : b ≤ c = leb→le b c q in leb-true {a = max a b} {b = c} (omega arith)

abbrev pub levels : FlagSets
levels = record {
  contains_all = λ a b. leb b a;
  union = max;
  contains_self = λ a. leb-true {a = a} {b = a} (omega arith);
  contains_trans = λ a b c p q. trans c b a q p;
  contains_left = λ a b. leb-true {a = a} {b = max a b} (omega arith);
  contains_right = λ a b. leb-true {a = b} {b = max a b} (omega arith);
  contains_union = λ a b c p q. join a b c p q;
}
