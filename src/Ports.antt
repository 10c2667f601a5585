-- ===== src/Ports.antt =====
-- kernel/io.h: the four port instructions. What is behind the ports is not code of the repository:
-- it is a type of device states and, for each instruction, what it returns and the next state.

use szym_os_kernel.Prelude.{ℕ}

pub record Ports (Device : Type 0) : Type 0 where
  pub inb : ℕ → Device → ℕ × Device
  pub inw : ℕ → Device → ℕ × Device
  pub outb : ℕ → ℕ → Device → Device
  pub outw : ℕ → ℕ → Device → Device
