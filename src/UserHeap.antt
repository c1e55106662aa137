-- ===== src/UserHeap.antt =====
-- Libraries/LibRuntime/OperatorNewDelete.cpp: the allocator of the user programs. Each block has a
-- memory object of its own, with a header of 32 bytes in front of the block.
pub mod Stored
pub mod Blocks
mod Tests
use Prim.Native.Nat.{bit_and}
use dhos_reborn.Base.{
  ℕ, zero, suc, ◌+◌, ◌-◌, ◌%◌, ◌/◌, ◌^◌, Bool, true, false, not, List, [], ◌∷◌, leb, ltb, ◌==◌,
  if◌then◌else◌,
}
use dhos_reborn.LibC.{Memory}
use dhos_reborn.UserSpace.{
  Action, ◌>>=◌, ◌>>◌, pure, gets, is_error, Call, Kernel, World, Outcome, syscall, map_memory,
  writable_flags,
}
use dhos_reborn.Elf.{read_le}
use dhos_reborn.Loader.{Rounding}

abbrev pub k_allocation_magic : ℕ
k_allocation_magic = 0x44484f532e616c6c

abbrev pub k_default_alignment : ℕ
k_default_alignment = 16

-- The `n` low bytes of a number, the low one first.
unfoldable pub write_le : ℕ → ℕ → ℕ → Memory → Memory
write_le zero v a m = m
write_le (suc n) v a m = write_le n (v / 256) (a + 1) (λ x. if x == a then v % 256 else m x)

pub record AllocationHeader : Type 0 where
  pub memory_object : ℕ
  pub mapping : ℕ
  pub mapping_size : ℕ
  pub magic : ℕ

-- The address of the header of a block.
abbrev pub header_of : ℕ → ℕ
header_of user = (user + 2 ^ 64 - 32) % 2 ^ 64

unfoldable pub read_allocation_header : Memory → ℕ → AllocationHeader
unfolding read_le
read_allocation_header m a = record {
  memory_object = read_le 8 m a;
  mapping = read_le 8 m (a + 8);
  mapping_size = read_le 8 m (a + 16);
  magic = read_le 8 m (a + 24);
}

unfoldable pub write_allocation_header : AllocationHeader → ℕ → Memory → Memory
unfolding write_le
write_allocation_header h a m = write_le 8 h.magic (a + 24) (
    write_le 8 h.mapping_size (a + 16)
      (write_le 8 h.mapping (a + 8) (write_le 8 h.memory_object a m)))

unfoldable pub allocation_alignment : ℕ → ℕ
allocation_alignment alignment =
    let a : ℕ = if ltb alignment 8 then 8 else alignment in
    if not (bit_and a (a - 1) == 0) then 8 else a

-- The size of the memory object for a block.
unfoldable pub total_size : Rounding → ℕ → ℕ → ℕ
total_size R size alignment =
    R.align_up (((if size == 0 then 1 else size) + alignment + 32) % 2 ^ 64) 8

-- Where the block stands in its mapping.
abbrev pub user_address : Rounding → ℕ → ℕ → ℕ
user_address R mapping alignment = R.align_up ((mapping + 32) % 2 ^ 64) alignment

abbrev pub change_memory : (Memory → Memory) → Action (Unit {0})
change_memory f w = (Outcome.value tt, record w { memory = f w.memory })

module _ (K : Kernel) where
  -- The block, or null.
  unfoldable pub allocate_block : Rounding → ℕ → ℕ → Action ℕ
  unfolding syscall map_memory total_size allocation_alignment write_allocation_header
  allocate_block R size alignment =
      let aligned : ℕ = allocation_alignment alignment in
      let total : ℕ = total_size R size aligned in
      do
        memory_object ← syscall K (Call.memory_create total)
        if is_error memory_object then pure 0 else (do
          mapped ← map_memory K memory_object 0 total writable_flags
          if is_error mapped.0
              then (do syscall K (Call.handle_close memory_object); pure 0)
              else (do
                let user : ℕ = user_address R mapped.1 aligned
                change_memory (
                    write_allocation_header
                      (record {
                        memory_object = memory_object;
                        mapping = mapped.1;
                        mapping_size = total;
                        magic = k_allocation_magic;
                      })
                      (header_of user))
                pure user))

  -- The header is read again after the mapping that holds it is gone.
  unfoldable pub release_block : ℕ → Action (Unit {0})
  unfolding syscall read_allocation_header write_le
  release_block ptr = if ptr == 0 then pure tt else (do
    h ← gets (λ w. read_allocation_header w.memory (header_of ptr))
    if not (h.magic == k_allocation_magic) then pure tt else (do
      syscall K (Call.memory_unmap h.mapping h.mapping_size)
      after ← gets (λ w. read_allocation_header w.memory (header_of ptr))
      syscall K (Call.handle_close after.memory_object)
      change_memory (write_le 8 0 (header_of ptr + 24))))

  -- The overloads of `operator new` without an alignment, of `operator new` with one, and of
  -- `operator delete`.
  unfoldable pub operator_new : Rounding → ℕ → Action ℕ
  unfolding allocate_block
  operator_new R size = allocate_block R size k_default_alignment

  unfoldable pub operator_new_aligned : Rounding → ℕ → ℕ → Action ℕ
  unfolding allocate_block
  operator_new_aligned R size alignment = allocate_block R size alignment

  unfoldable pub operator_delete : ℕ → Action (Unit {0})
  unfolding release_block
  operator_delete ptr = release_block ptr
