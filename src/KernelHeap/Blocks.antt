-- ===== src/KernelHeap/Blocks.antt =====
-- mrvn_malloc of Katline/Memory/Heap.cppm: the block that a request gets.
use dhos_reborn.Base.{
  ℕ, ◌+◌, ◌-◌, ◌^◌, ◌≤◌, ◌<◌, ◌≡◌, ◌≢◌, refl, ◌∙◌, ◌⊎◌, inl, inr, true, Option, none, some, arith,
  ap, sym,
}
use dhos_reborn.KernelHeap.{
  Heap, memory_chunk_size, memory_chunk_slot, memory_chunk_bucket, rounded_size, find_bucket,
  num_sizes, is_used, take_chunk, take_from, mrvn_malloc, pop_chunk,
}
use dhos_reborn.KernelHeap.Sizes.{
  power, power-le, power-le-memory_chunk_bucket, le-power-memory_chunk_slot, rounded_size_bounds,
  Searched, find_bucket-Searched,
}

-- Every list is empty or begins with a chunk of its sizes.
abbrev pub IsSorted : Heap → Type 0
IsSorted h =
    (n : ℕ)
    → n < num_sizes
    → h.free_chunk n ≢ 0
    → memory_chunk_bucket (memory_chunk_size h.words (h.free_chunk n)) ≡ n

memory_chunk_size-small : (m : ℕ → ℕ) (c : ℕ) → memory_chunk_size m c < 2 ^ 64
unfolding memory_chunk_size
memory_chunk_size-small m c = omega arith

take_chunk-block :
    (n size : ℕ) (h : Heap)
    → ((take_chunk n size h).0 ≡ h.free_chunk n + 24)
      × (is_used (take_chunk n size h).1.words (h.free_chunk n) ≡ true)
unfolding take_chunk pop_chunk
take_chunk-block n size h = (refl, ground arith)

-- A size that begins the search at a list is held by every chunk of that list and the later ones.
slot-holds :
    (size chunk n : ℕ)
    → 16 ≤ size
    → size < 2 ^ 64
    → chunk < 2 ^ 64
    → memory_chunk_slot (size - 1) ≤ n
    → memory_chunk_bucket chunk ≡ n
    → n ≢ 0
    → size ≤ chunk
slot-holds size chunk n big small chunk_small from bucket positive =
    let fits : size ≤ power (memory_chunk_slot (size - 1)) =
      le-power-memory_chunk_slot size (omega arith) small in
    let wide : power (memory_chunk_slot (size - 1)) ≤ power n =
      power-le (memory_chunk_slot (size - 1)) n from in
    let held : power (memory_chunk_bucket chunk) ≤ chunk =
      power-le-memory_chunk_bucket chunk chunk_small (λ z. positive (sym bucket ∙ z)) in
    let same : power (memory_chunk_bucket chunk) ≡ power n = ap power bucket in omega arith

-- The search does not begin at the first list.
slot-positive : (size : ℕ) → 16 ≤ size → size < 2 ^ 64 → memory_chunk_slot (size - 1) ≢ 0
slot-positive size big small z =
    let fits : size ≤ power (memory_chunk_slot (size - 1)) =
      le-power-memory_chunk_slot size (omega arith) small in
    let one : power (memory_chunk_slot (size - 1)) ≡ 1 = ap power z in omega arith

-- What `mrvn_malloc` returns and leaves for a request of `size` bytes.
abbrev pub Served : ℕ → Heap → ℕ × Heap → Type 0
Served size h r =
    let slot : ℕ = memory_chunk_slot (rounded_size size - 1) in
    ((r.0 ≡ 0) × ((k : ℕ) → slot ≤ k → k < num_sizes → h.free_chunk k ≡ 0))
    ⊎ ((n : ℕ) × ((n < num_sizes)
          × (h.free_chunk n ≢ 0)
          × (r.0 ≡ h.free_chunk n + 24)
          × (size ≤ memory_chunk_size h.words (h.free_chunk n))
          × (is_used r.1.words (h.free_chunk n) ≡ true)))

take_from-Served :
    (size : ℕ) (h : Heap)
    → size + 3 < 2 ^ 64
    → IsSorted h
    → (found : Option ℕ) → Searched h.free_chunk (memory_chunk_slot (rounded_size size - 1)) found
    → Served size h (take_from found (rounded_size size) h)
take_from-Served size h small sorted none searched = inl (refl, searched)
take_from-Served size h small sorted (some n) (from, bound, full, before) =
    let (up, big, top) = rounded_size_bounds size small in
    let (block, used) = take_chunk-block n (rounded_size size) h in
    let positive : n ≢ 0 = λ z. slot-positive (rounded_size size) big top (omega arith) in
    let held : rounded_size size ≤ memory_chunk_size h.words (h.free_chunk n) =
      slot-holds (rounded_size size) (memory_chunk_size h.words (h.free_chunk n)) n big top
        (memory_chunk_size-small h.words (h.free_chunk n)) from (sorted n bound full) positive in
    inr (n, (bound, full, block, omega arith, used))

-- A request, which does not wrap around when it is rounded, is refused only when every list that
-- the search goes through is empty; otherwise the block is the data of the first chunk of a list, which has
-- room for the request and is marked as used. This asks that each list begins with a chunk of its sizes.
pub mrvn_malloc-Served :
    (size : ℕ) (h : Heap) → size + 3 < 2 ^ 64 → IsSorted h → Served size h (mrvn_malloc size h)
unfolding mrvn_malloc
mrvn_malloc-Served size h small sorted =
    let slot : ℕ = memory_chunk_slot (rounded_size size - 1) in
    take_from-Served size h small sorted (find_bucket 33 h.free_chunk slot)
      (find_bucket-Searched 33 h.free_chunk slot (omega arith))
