-- ===== src/Timer/Tests.antt =====
-- A run of the register swap of Katline/Arch/Scheduler.cppm: thread 3 is interrupted for thread 4
-- and returns.
use dhos_reborn.Base.{ℕ, ◌≡◌, arith, ◌+◌}
use dhos_reborn.Scheduler.Tests.{scheduler}
use dhos_reborn.Timer.{IrqSavedRegisters, IrqStackFrame, Returned, swap_registers}
use dhos_reborn.Timer.Registers.{swap_registers_twice}

abbrev registers : ℕ → IrqSavedRegisters
registers n = record {
  rax = n;
  rbx = n + 1;
  rcx = n + 2;
  rdx = n + 3;
  rsi = n + 4;
  rdi = n + 5;
  rbp = n + 6;
  r8 = n + 7;
  r9 = n + 8;
  r10 = n + 9;
  r11 = n + 10;
  r12 = n + 11;
  r13 = n + 12;
  r14 = n + 13;
  r15 = n + 14;
}

abbrev frame : ℕ → IrqStackFrame
frame n = record { rip = n; cs = 0x23; rflags = 0x202; rsp = n + 1; ss = 0x1b }

abbrev interrupted : Returned
interrupted = swap_registers 4096 3 4 (registers 100) (frame 500) scheduler

abbrev resumed : Returned
resumed = swap_registers 4096 4 3 (registers 200) (frame 600) interrupted.state

swap_registers_twice_example : (resumed.regs ≡ registers 100) × (resumed.frame ≡ frame 500)
swap_registers_twice_example =
    swap_registers_twice 4096 4096 3 4 (registers 100) (registers 200) (frame 500) (frame 600)
      scheduler (λ e. omega arith)
