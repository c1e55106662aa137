-- ===== src/Process.antt =====
-- Katline/Arch/Thread.cppm and the register file of Katline/Arch/CPU.cppm: processes, threads and
-- memory mappings. A pointer is a number, 0 for `nullptr`; each type has its own addresses. The
-- message queues of processes stand in KernelIpc.
use dhos_reborn.Base.{ℕ, Bool, List}

pub record CpuContext : Type 0 where
  pub rax : ℕ
  pub rbx : ℕ
  pub rcx : ℕ
  pub rdx : ℕ
  pub rsi : ℕ
  pub rdi : ℕ
  pub rbp : ℕ
  pub rsp : ℕ
  pub r8 : ℕ
  pub r9 : ℕ
  pub r10 : ℕ
  pub r11 : ℕ
  pub r12 : ℕ
  pub r13 : ℕ
  pub r14 : ℕ
  pub r15 : ℕ
  pub rip : ℕ
  pub rflags : ℕ
  pub cs : ℕ
  pub ss : ℕ
  pub ds : ℕ
  pub es : ℕ
  pub fs : ℕ
  pub gs : ℕ

pub data ThreadState : Type 0 where
  created ready running blocked dead : ThreadState

pub data ProcessState : Type 0 where
  running dead : ProcessState

pub record MemoryMapping : Type 0 where
  pub address : ℕ
  pub page_base : ℕ
  pub page_count : ℕ
  pub size : ℕ
  pub object : ℕ

pub record Process : Type 0 where
  pub parent : ℕ
  pub pid : ℕ
  pub name : List ℕ
  pub handle_count : ℕ
  pub state : ProcessState
  pub capabilities : ℕ
  pub threads : List ℕ
  pub mappings : List MemoryMapping
  pub endpoint_id : ℕ
  pub cr3 : ℕ

pub record Thread : Type 0 where
  pub tid : ℕ
  pub tstate : ThreadState
  pub handle_count : ℕ
  pub entry_point : ℕ
  pub context : CpuContext
  pub slice_remaining : ℕ
  pub home_lapic_id : ℕ
  pub last_lapic_id : ℕ
  pub kernel_stack_base : ℕ
  pub kernel_stack_size : ℕ
  pub stack_is_heap_allocated : Bool
  pub process : ℕ
  pub fs_base : ℕ
  pub gs_base : ℕ
