-- ===== src/LibC.antt =====
-- Libraries/LibC/src/String.cpp: the memory and string functions of the C library.
-- Memory is a function from addresses to bytes. A `for` loop recurs on the rounds left; the
-- search of `strlen` for the final zero takes fuel.
pub mod Copy
pub mod Scan
mod Tests
use dhos_reborn.Base.{
  ℕ, zero, suc, ◌+◌, ◌%◌, Bool, Option, none, some, ◌==◌, ltb, if◌then◌else◌, ◌||◌,
}
use dhos_reborn.Base.Int.{ℤ, pos, sub_ℕ}

abbrev pub Memory : Type 0
Memory = ℕ → ℕ

-- `bytes[a] = v`
unfoldable pub store : Memory → ℕ → ℕ → Memory
store m a v b = if b == a then v else m b

-- for (i; rounds left) bytes[i] = byte
unfoldable pub fill : ℕ → ℕ → ℕ → ℕ → Memory → Memory
unfolding store
fill zero i dst byte m = m
fill (suc n) i dst byte m = fill n (i + 1) dst byte (store m (dst + i) byte)

unfoldable pub memset : ℕ → ℕ → ℕ → Memory → Memory
unfolding fill
memset dst value size m = fill size 0 dst (value % 256) m

-- for (i; rounds left) d[i] = s[i]
unfoldable pub copy_up : ℕ → ℕ → ℕ → ℕ → Memory → Memory
unfolding store
copy_up zero i d s m = m
copy_up (suc n) i d s m = copy_up n (i + 1) d s (store m (d + i) (m (s + i)))

-- for (i = size; i-- > 0;) d[i] = s[i]
unfoldable pub copy_down : ℕ → ℕ → ℕ → Memory → Memory
unfolding store
copy_down zero d s m = m
copy_down (suc i) d s m = copy_down i d s (store m (d + i) (m (s + i)))

unfoldable pub memcpy : ℕ → ℕ → ℕ → Memory → Memory
unfolding copy_up
memcpy d s size m = copy_up size 0 d s m

unfoldable pub memmove : ℕ → ℕ → ℕ → Memory → Memory
unfolding copy_up copy_down
memmove d s size m =
    if (d == s) || (size == 0)
    then m
    else if ltb d s
    then copy_up size 0 d s m
    else copy_down size d s m

-- for (i; rounds left) if (a[i] != b[i]) return a[i] - b[i]; return 0;
unfoldable pub compare_from : ℕ → ℕ → ℕ → ℕ → Memory → ℤ
compare_from zero i a b m = pos 0
compare_from (suc n) i a b m =
    let rest = compare_from n (i + 1) a b m in
    if m (a + i) == m (b + i) then rest else sub_ℕ (m (a + i)) (m (b + i))

unfoldable pub memcmp : ℕ → ℕ → ℕ → Memory → ℤ
unfolding compare_from
memcmp a b size m = compare_from size 0 a b m

-- while (str[len] != 0) ++len;  `none` when the fuel runs out.
unfoldable pub scan_zero : ℕ → ℕ → ℕ → Memory → Option ℕ
scan_zero zero len str m = none
scan_zero (suc fuel) len str m =
    let rest = scan_zero fuel (len + 1) str m in if m (str + len) == 0 then some len else rest

unfoldable pub strlen : ℕ → ℕ → Memory → Option ℕ
unfolding scan_zero
strlen fuel str m = if str == 0 then some 0 else scan_zero fuel 0 str m
