-- ===== src/LibC/Copy.antt =====
-- What the copying functions of Libraries/LibC/src/String.cpp leave in memory.
use dhos_reborn.Base.{
  ℕ, zero, suc, ◌+◌, ◌-◌, ◌%◌, ◌≤◌, ◌≡◌, ◌⊎◌, ◌&&◌, arith, leb, ltb, if◌then◌else◌,
}
use dhos_reborn.LibC.{Memory, store, fill, memset, copy_up, copy_down, memcpy, memmove}

fill_lem :
    (n i dst byte : ℕ) (m : Memory) (a : ℕ)
    → fill n i dst byte m a ≡ (if leb (dst + i) a && ltb a (dst + i + n) then byte else m a)
unfolding fill
fill_lem zero i dst byte m a = ground arith
fill_lem (suc n) i dst byte m a =
    ground (arith, fill_lem n (i + 1) dst byte (store m (dst + i) byte) a)

copy_up_lem :
    (n i d s : ℕ) (m : Memory) (a : ℕ)
    → (d ≤ s) ⊎ (s + n ≤ d)
    → copy_up n i d s m a ≡ (if leb (d + i) a && ltb a (d + i + n) then m (s + (a - d)) else m a)
unfolding copy_up
copy_up_lem zero i d s m a h = ground arith
copy_up_lem (suc n) i d s m a h =
    ground (arith, copy_up_lem n (i + 1) d s (store m (d + i) (m (s + i))) a)

copy_down_lem :
    (n d s : ℕ) (m : Memory) (a : ℕ)
    → s ≤ d
    → copy_down n d s m a ≡ (if leb d a && ltb a (d + n) then m (s + (a - d)) else m a)
unfolding copy_down
copy_down_lem zero d s m a h = ground arith
copy_down_lem (suc n) d s m a h =
    ground (arith, copy_down_lem n d s (store m (d + n) (m (s + n))) a)

-- `memset` writes the low byte of the value to every address of [dst, dst + size) and leaves every
-- other address as it was.
pub memset_lem :
    (dst value size : ℕ) (m : Memory) (a : ℕ)
    → memset dst value size m a ≡ (if leb dst a && ltb a (dst + size) then value % 256 else m a)
unfolding memset
memset_lem dst value size m a = ground (arith, fill_lem size 0 dst (value % 256) m a)

-- `memcpy` of two ranges of which the source does not reach into the destination from below
-- leaves the old source bytes in the destination, and every other address as it was.
pub memcpy_lem :
    (d s size : ℕ) (m : Memory) (a : ℕ)
    → (d ≤ s) ⊎ (s + size ≤ d)
    → memcpy d s size m a ≡ (if leb d a && ltb a (d + size) then m (s + (a - d)) else m a)
unfolding memcpy
memcpy_lem d s size m a h = ground (arith, copy_up_lem size 0 d s m a h)

-- `memmove` leaves the old source bytes in the destination and every other address as it was,
-- however the two ranges overlap.
pub memmove_lem :
    (d s size : ℕ) (m : Memory) (a : ℕ)
    → memmove d s size m a ≡ (if leb d a && ltb a (d + size) then m (s + (a - d)) else m a)
unfolding memmove
memmove_lem d s size m a = ground (arith, copy_up_lem size 0 d s m a, copy_down_lem size d s m a)
