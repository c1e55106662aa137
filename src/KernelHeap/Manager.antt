-- ===== src/KernelHeap/Manager.antt =====
-- MemoryManager::allocate_aligned, allocate and free of Katline/Memory/MemoryManager.cppm.
use Prim.Native.Nat.{bit_and}
use dhos_reborn.Base.{ℕ, ◌+◌, ◌-◌, ◌%◌, ◌^◌, not, ltb, ◌==◌, if◌then◌else◌}
use dhos_reborn.KernelHeap.{Heap, mrvn_malloc, mrvn_free}

abbrev pub aligned_magic : ℕ
aligned_magic = 0xa7b04f1e

-- A block of `allocate_aligned` in the block `raw`: its address is rounded up by `& ~(alignment - 1)`, for a
-- power of two, and its header stands in front.
unfoldable pub place_aligned : ℕ → ℕ → Heap → ℕ × Heap
place_aligned al raw h =
    let top : ℕ = (raw + 16 + al - 1) % 2 ^ 64 in
    let aligned : ℕ = top - top % al in
    if raw == 0 then (0, h) else (
      aligned,
      record h {
        words = λ b.
            if b == aligned - 8
            then aligned_magic
            else if b == aligned - 16
            then raw
            else h.words b;
      },
    )

unfoldable pub allocate_aligned : ℕ → ℕ → Heap → ℕ × Heap
unfolding mrvn_malloc place_aligned
allocate_aligned size alignment h =
    let al : ℕ = if ltb alignment 8 then 8 else alignment in
    let (raw, h1) = mrvn_malloc ((size + al - 1 + 16) % 2 ^ 64) h in
    if not (bit_and al (al - 1) == 0) then (0, h) else place_aligned al raw h1

unfoldable pub allocate : ℕ → Heap → ℕ × Heap
unfolding mrvn_malloc
allocate size h = mrvn_malloc size h

unfoldable pub free : ℕ → Heap → Heap
unfolding mrvn_free
free ptr h =
    if ptr == 0
    then h
    else if h.words (ptr - 8) == aligned_magic
    then mrvn_free (h.words (ptr - 16)) h
    else mrvn_free ptr h
