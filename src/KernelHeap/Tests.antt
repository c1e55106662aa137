-- ===== src/KernelHeap/Tests.antt =====
-- Runs of the kernel's heap, Katline/Memory/Heap.cppm and Katline/Memory/MemoryManager.cppm.
use mathlib.Core.Path.{subst}
use Prim.Native.Nat.{bit_and}
use dhos_reborn.Base.{
  ℕ, ◌+◌, ◌*◌, ◌^◌, ◌<◌, ◌≡◌, ◌≢◌, refl, sym, ◌⊎◌, Bool, ◌&&◌, List, [], ◌∷◌, ◌==◌, if◌then◌else◌,
  ltb, Bool-cases, inl, inr, arith,
}
use dhos_reborn.KernelHeap.{
  Heap, memory_chunk_size, memory_chunk_bucket, mrvn_memory_init, mrvn_malloc, mrvn_free,
}
use dhos_reborn.KernelHeap.Manager.{allocate_aligned}
use dhos_reborn.KernelHeap.Blocks.{IsSorted, Served, mrvn_malloc-Served}
use dhos_reborn.KernelHeap.Aligned.{Aligned, raw_block, allocate_aligned-Aligned}
use dhos_reborn.KernelHeap.Regions.{MemoryType, MemoryData, init, reserve_mmap_phys_range}
use dhos_reborn.KernelHeap.Regions.Given.{
  ComparesRanges, Selected, IsFree, heap_of, init-reserve_mmap_phys_range,
}

abbrev no_heap : Heap
no_heap = record {
  words = λ b. 0;
  free_chunk = λ k. 0;
  mem_free = 0;
  mem_used = 0;
  mem_meta = 0;
  first = 0;
  last = 0;
}

-- A region, and blocks of 16 bytes: a, b, c, d, e and one that stays.
abbrev blocks : Heap
blocks =
    let h0 : Heap = mrvn_memory_init 4096 4096 no_heap in
    let h1 : Heap = (mrvn_malloc 16 h0).1 in
    let h2 : Heap = (mrvn_malloc 16 h1).1 in
    let h3 : Heap = (mrvn_malloc 16 h2).1 in
    let h4 : Heap = (mrvn_malloc 16 h3).1 in
    let h5 : Heap = (mrvn_malloc 16 h4).1 in (mrvn_malloc 16 h5).1

blocks_first : (mrvn_malloc 16 (mrvn_memory_init 4096 4096 no_heap)).0 ≡ 4160
unfolding mrvn_malloc mrvn_memory_init
blocks_first = refl

-- Freeing the first and the third, and taking two blocks again: the last freed comes first.
abbrev again : ℕ × ℕ
again =
    let h1 : Heap = mrvn_free 4240 (mrvn_free 4160 blocks) in
    let (x, h2) = mrvn_malloc 16 h1 in let (y, h3) = mrvn_malloc 16 h2 in (x, y)

again_lem : again ≡ (4240, 4160)
unfolding mrvn_malloc mrvn_memory_init mrvn_free
again_lem = refl

-- A block that was not split counts less when it is taken than when it is freed.
mem_used_wraps :
    let h1 : Heap = mrvn_free 4240 (mrvn_free 4160 blocks) in
    let h2 : Heap = (mrvn_malloc 16 h1).1 in
    (blocks.mem_used ≡ 96) × (h1.mem_used ≡ 64) × (h2.mem_used ≡ 56)
unfolding mrvn_malloc mrvn_memory_init mrvn_free
mem_used_wraps = (refl, refl, refl)

-- A heap with one free chunk at 100, in the list of its size.
abbrev one_chunk : Heap
one_chunk = record no_heap { words = λ b. 250; free_chunk = λ k. if k == 6 then 100 else 0 }

one_chunk-IsSorted : IsSorted one_chunk
unfolding memory_chunk_bucket memory_chunk_size
one_chunk-IsSorted n small full = elim (Bool-cases (n == 6)) [
  | inl e ↦
      let six : n ≡ 6 = ground arith in
      subst
        (λ k. memory_chunk_bucket (memory_chunk_size one_chunk.words (one_chunk.free_chunk k)) ≡ k)
        (sym six) refl
  | inr e ↦ absurd (full (rw e refl))
]

mrvn_malloc-Served_example : Served 20 one_chunk (mrvn_malloc 20 one_chunk)
mrvn_malloc-Served_example = mrvn_malloc-Served 20 one_chunk (omega arith) one_chunk-IsSorted

abbrev fresh : Heap
fresh = mrvn_memory_init 4096 4096 no_heap

fresh-small : (raw_block 100 64 fresh).0 + 100 + 2 * 64 + 16 < 2 ^ 64
unfolding mrvn_malloc mrvn_memory_init
fresh-small = omega arith

allocate_aligned-Aligned_example :
    (((allocate_aligned 100 64 fresh).0 ≡ 0)
      × ((bit_and 64 63 ≢ 0) ⊎ ((raw_block 100 64 fresh).0 ≡ 0)))
    ⊎ ((bit_and 64 63 ≡ 0)
        × ((raw_block 100 64 fresh).0 ≢ 0)
        × Aligned 100 64 (raw_block 100 64 fresh) (allocate_aligned 100 64 fresh))
allocate_aligned-Aligned_example = allocate_aligned-Aligned 100 64 fresh fresh-small

aligned_block : (allocate_aligned 100 64 fresh).0 ≡ 4224
unfolding mrvn_malloc mrvn_memory_init allocate_aligned
aligned_block = refl

abbrev touch : ℕ → ℕ → ℕ → ℕ → Bool
touch a n b m = ltb a (b + m) && ltb b (a + n)

abbrev map : List MemoryData
map =
    record { base = 0; size = 4096; type = MemoryType.usable }
    ∷ record { base = 8192; size = 4096; type = MemoryType.usable }
    ∷ record { base = 16384; size = 0; type = MemoryType.usable }
    ∷ record { base = 20480; size = 4096; type = MemoryType.framebuffer }
    ∷ []

touch-ComparesRanges : ComparesRanges touch
touch-ComparesRanges a n b m some_n some_m low high = refl

init-reserve_mmap_phys_range_example :
    (given : List MemoryData) × (Selected (IsFree 0 0 4096) map given
      × (init (reserve_mmap_phys_range touch 0 0 4096 map) no_heap ≡ heap_of given no_heap))
init-reserve_mmap_phys_range_example =
    init-reserve_mmap_phys_range touch 0 0 4096 map no_heap touch-ComparesRanges (omega arith)
      (omega arith)
      ((
        omega arith,
        omega arith,
        (omega arith, omega arith, (omega arith, omega arith, (omega arith, omega arith, tt))),
      ))
