-- ===== src/Timer/Registers.antt =====
-- The registers that the timer interrupt of Katline/Arch/Scheduler.cppm saves and loads.
use dhos_reborn.Base.{ℕ, ◌≡◌, refl, ◌≢◌, ==_false, ==_self}
use dhos_reborn.Scheduler.{Scheduler}
use dhos_reborn.Timer.{IrqSavedRegisters, IrqStackFrame, swap_registers}

-- A thread that an interrupt took off a processor, and that a later interrupt puts back, returns
-- with the registers and the stack frame with which it was interrupted, whatever other thread runs
-- in between with whatever registers.
pub swap_registers_twice :
    (cr3 cr3' prev next : ℕ) (regs regs' : IrqSavedRegisters) (frame frame' : IrqStackFrame)
    (s : Scheduler)
    → prev ≢ next
    → let first = swap_registers cr3 prev next regs frame s in
      let second = swap_registers cr3' next prev regs' frame' first.state in
      (second.regs ≡ regs) × (second.frame ≡ frame)
unfolding swap_registers
swap_registers_twice cr3 cr3' prev next regs regs' frame frame' s ne =
    rw (==_false ne, ==_self prev) (refl, refl)
