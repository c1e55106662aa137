-- ===== src/KernelHeap.antt =====
-- Katline/Memory/Heap.cppm: the kernel's heap, over the store of words of `DList`. The mark `used` of a
-- `Chunk` at `c` stands at `c + 16`, and its data, or its node of a free list, at `c + 24`. The heap's
-- lock makes each call atomic.
pub mod Manager
pub mod Sizes
pub mod Blocks
pub mod Aligned
pub mod Regions
mod Tests
use Prim.Native.Nat.{bit_and}
use dhos_reborn.Base.{
  ℕ, zero, suc, ◌+◌, ◌-◌, ◌*◌, ◌/◌, ◌%◌, ◌^◌, Bool, true, false, not, ◌||◌, Option, none, some, leb,
  ltb, ◌==◌, if◌then◌else◌,
}
use dhos_reborn.LibC.{store}
use dhos_reborn.DList.{
  Words, next_of, prev_of, set_next, set_prev, dlist_init, dlist_insert_after, dlist_insert_before,
  dlist_remove, dlist_push, dlist_pop, dlist_remove_from,
}

-- `free_chunk` is a function; the numbers are the sums of bytes that the heap keeps.
pub record Heap : Type 0 where
  pub words : Words
  pub free_chunk : ℕ → ℕ
  pub mem_free : ℕ
  pub mem_used : ℕ
  pub mem_meta : ℕ
  pub first : ℕ
  pub last : ℕ

abbrev pub num_sizes : ℕ
num_sizes = 32

abbrev pub header_size : ℕ
header_size = 24

abbrev pub chunk_bytes : ℕ
chunk_bytes = 40

abbrev pub min_size : ℕ
min_size = 16

-- The chunk of a node of a free list, and the other way round.
abbrev pub chunk_of : ℕ → ℕ
chunk_of node = if node == 0 then 0 else node - 24

abbrev pub free_node : ℕ → ℕ
free_node c = c + 24

unfoldable pub memory_chunk_init : ℕ → Words → Words
unfolding dlist_init
memory_chunk_init c m = dlist_init (free_node c) (λ b. if b == c + 16 then 0 else dlist_init c m b)

unfoldable pub memory_chunk_size : Words → ℕ → ℕ
memory_chunk_size m c = (next_of m c + 2 * 2 ^ 64 - c - header_size) % 2 ^ 64

-- `memory_chunk_slot` and one more, so 0 for a size of 0: how often the size can be halved.
unfoldable pub halvings : ℕ → ℕ → ℕ
halvings zero size = 0
halvings (suc fuel) size = if size == 0 then 0 else suc (halvings fuel (size / 2))

unfoldable pub memory_chunk_slot : ℕ → ℕ
unfolding halvings
memory_chunk_slot size = halvings 64 size

unfoldable pub memory_chunk_bucket : ℕ → ℕ
unfolding memory_chunk_slot
memory_chunk_bucket size =
    let n : ℕ = memory_chunk_slot size in
    if n == 0 then 0 else if ltb num_sizes n then num_sizes - 1 else n - 1

abbrev pub set_free_chunk : ℕ → ℕ → Heap → Heap
set_free_chunk n c h = record h { free_chunk = λ k. if k == n then c else h.free_chunk k }

-- `DLIST_PUSH(&free_chunk[n], chunk, free)`, `DLIST_POP` and `DLIST_REMOVE_FROM`.
unfoldable pub push_chunk : ℕ → ℕ → Heap → Heap
unfolding dlist_push
push_chunk n c h =
    let old : ℕ = h.free_chunk n in
    let (head, m) = dlist_push (if old == 0 then 0 else free_node old) (free_node c) h.words in
    set_free_chunk n (chunk_of head) (record h { words = m })

unfoldable pub pop_chunk : ℕ → Heap → ℕ × Heap
unfolding dlist_pop
pop_chunk n h =
    let c : ℕ = h.free_chunk n in
    let (head, m) = dlist_pop (free_node c) h.words in
    (c, set_free_chunk n (chunk_of head) (record h { words = m }))

unfoldable pub remove_chunk : ℕ → ℕ → Heap → Heap
unfolding dlist_remove_from
remove_chunk n c h =
    let (head, m) = dlist_remove_from (free_node (h.free_chunk n)) (free_node c) h.words in
    set_free_chunk n (chunk_of head) (record h { words = m })

abbrev pub sum64 : ℕ → ℕ → ℕ
sum64 a b = (a + b) % 2 ^ 64

abbrev pub sub64 : ℕ → ℕ → ℕ
sub64 a b = (a + 2 ^ 64 - b) % 2 ^ 64

unfoldable pub push_free : ℕ → Heap → Heap
unfolding memory_chunk_size memory_chunk_bucket push_chunk
push_free c h =
    let len : ℕ = memory_chunk_size h.words c in
    let h' : Heap = push_chunk (memory_chunk_bucket len) c h in
    record h' { mem_free = sum64 h'.mem_free (sub64 len header_size) }

unfoldable pub remove_free : ℕ → Heap → Heap
unfolding memory_chunk_size memory_chunk_bucket remove_chunk
remove_free c h =
    let len : ℕ = memory_chunk_size h.words c in
    let h' : Heap = remove_chunk (memory_chunk_bucket len) c h in
    record h' { mem_free = sub64 h'.mem_free (sub64 len header_size) }

abbrev pub is_used : Words → ℕ → Bool
is_used m c = not (m (c + 16) % 2 ^ 32 == 0)

abbrev pub mark : ℕ → ℕ → Words → Words
mark c v m b = if b == c + 16 then v else m b

-- The three chunks of a new region, linked.
unfoldable pub link_region : ℕ → ℕ → ℕ → Words → Words
unfolding memory_chunk_init dlist_insert_after
link_region region_first second region_last m = mark region_last 1 (
    mark region_first 1 (
      dlist_insert_after second region_last (
        dlist_insert_after region_first second (
          memory_chunk_init region_last
            (memory_chunk_init second (memory_chunk_init region_first m))))))

unfoldable pub memory_add_region : ℕ → ℕ → Heap → Bool × Heap
unfolding link_region push_free
memory_add_region mem size h =
    let mem_start : ℕ = (mem + 3) % 2 ^ 64 / 4 * 4 in
    let mem_end : ℕ = (mem + size) % 2 ^ 64 / 4 * 4 in
    let second : ℕ = mem_start + chunk_bytes in
    let region_last : ℕ = mem_end - chunk_bytes in
    let h1 : Heap =
      push_free second (record h { words = link_region mem_start second region_last h.words }) in
    if leb mem_end mem_start
      || ltb (mem_end - mem_start) (chunk_bytes * 3)
      || leb region_last second
    then (false, h)
    else (
      true,
      record h1 {
        mem_meta = sum64 h1.mem_meta (chunk_bytes * 2 + header_size);
        first = if h1.first == 0 then mem_start else h1.first;
        last = region_last;
      },
    )

unfoldable pub mrvn_memory_init : ℕ → ℕ → Heap → Heap
unfolding memory_add_region
mrvn_memory_init mem size h =
    (memory_add_region mem size (record {
      words = h.words;
      free_chunk = λ k. 0;
      mem_free = 0;
      mem_used = 0;
      mem_meta = 0;
      first = 0;
      last = 0;
    })).1

-- The size that a request is rounded to, and the search for a list that is not empty.
unfoldable pub rounded_size : ℕ → ℕ
rounded_size size =
    let rounded : ℕ = (size + 3) % 2 ^ 64 / 4 * 4 in
    if ltb rounded min_size then min_size else rounded

unfoldable pub find_bucket : ℕ → (ℕ → ℕ) → ℕ → Option ℕ
find_bucket zero lists n = none
find_bucket (suc fuel) lists n =
    let rest = find_bucket fuel lists (n + 1) in
    if leb num_sizes n then none else if lists n == 0 then rest else some n

-- What is left of a chunk behind `size` bytes becomes a chunk, if it is large enough for one: the
-- length of the new chunk, 0 if there is none.
unfoldable pub split_chunk : ℕ → ℕ → ℕ → Heap → ℕ × Heap
unfolding memory_chunk_init dlist_insert_after memory_chunk_size push_free
split_chunk c size size2 h =
    let chunk2 : ℕ = c + header_size + size in
    let h1 : Heap = record h {
      words = dlist_insert_after c chunk2 (memory_chunk_init chunk2 h.words);
    } in
    let h2 : Heap = push_free chunk2 h1 in
    if leb (size + chunk_bytes) size2
    then (memory_chunk_size h1.words chunk2, record h2 { mem_meta = sum64 h2.mem_meta header_size })
    else (0, h)

-- A block from the list `n`.
unfoldable pub take_chunk : ℕ → ℕ → Heap → ℕ × Heap
unfolding pop_chunk memory_chunk_size split_chunk
take_chunk n size h =
    let (c, h1) = pop_chunk n h in
    let size2 : ℕ = memory_chunk_size h1.words c in
    let (len, h2) = split_chunk c size size2 h1 in
    (
      free_node c,
      record h2 {
        words = mark c 1 h2.words;
        mem_free = sub64 h2.mem_free size2;
        mem_used = sum64 h2.mem_used (sub64 (sub64 size2 len) header_size);
      },
    )

abbrev pub take_from : Option ℕ → ℕ → Heap → ℕ × Heap
take_from none size h = (0, h)
take_from (some n) size h = take_chunk n size h

-- `memory_chunk_slot(size - 1) + 1` is where the search begins; the fuel is the number of lists and one more.
unfoldable pub mrvn_malloc : ℕ → Heap → ℕ × Heap
unfolding rounded_size memory_chunk_slot find_bucket take_chunk
mrvn_malloc size h =
    let rounded : ℕ = rounded_size size in
    take_from (find_bucket 33 h.free_chunk (memory_chunk_slot (rounded - 1))) rounded h

-- A chunk behind a freed one goes into it, if it is free.
unfoldable pub merge_next : ℕ → ℕ → Heap → Heap
unfolding remove_free dlist_remove
merge_next chunk next h =
    let h1 : Heap = remove_free next h in
    if is_used h.words next then h else record h1 {
      words = dlist_remove next h1.words;
      mem_meta = sub64 h1.mem_meta header_size;
      mem_free = sum64 h1.mem_free header_size;
    }

-- A freed chunk goes into the one before, if that is free, or becomes a free chunk itself.
unfoldable pub merge_prev : ℕ → ℕ → Heap → Heap
unfolding remove_free dlist_remove push_free dlist_init
merge_prev chunk prev h =
    let h1 : Heap = remove_free prev h in
    let h2 : Heap = push_free prev (record h1 { words = dlist_remove chunk h1.words }) in
    if not (is_used h.words prev)
    then record h2 {
      mem_meta = sub64 h2.mem_meta header_size;
      mem_free = sum64 h2.mem_free header_size;
    }
    else push_free chunk (record h { words = dlist_init (free_node chunk) (mark chunk 0 h.words) })

unfoldable pub mrvn_free : ℕ → Heap → Heap
unfolding memory_chunk_size merge_next merge_prev
mrvn_free mem h =
    let chunk : ℕ = mem - header_size in
    let next : ℕ = next_of h.words chunk in
    let prev : ℕ = prev_of h.words chunk in
    let h1 : Heap = record h { mem_used = sub64 h.mem_used (memory_chunk_size h.words chunk) } in
    merge_prev chunk prev (merge_next chunk next h1)
