-- ===== src/Kernel.antt =====
-- `kernel_panic` of kernel/kernel.c, and how a call ends that may stop the machine.
pub mod Main
pub mod Readme
pub mod Files
pub mod Drivers
pub mod Session
use szym_os_kernel.Prelude.{ℕ, List, [], ◌∷◌}
use szym_os_kernel.Console.{Call, setcolor, vga_entry_color, write, writestring, white, red}
use szym_os_kernel.System.{System, say}

-- The call returns, or the processor is halted.
pub data Outcome (Device : Type 0) : Type 0 where
  returns : System Device → Outcome Device
  halts : System Device → Outcome Device

abbrev pub panic_lines : List ℕ → List Call
panic_lines message =
    setcolor (vga_entry_color white red)
    ∷ write "\n\n*** KERNEL PANIC ***\n"
    ∷ writestring message
    ∷ write "\n\nSystem halted."
    ∷ []

-- `message` is the text of the string.
unfoldable pub kernel_panic : {Device : Type 0} → List ℕ → System Device → Outcome Device
kernel_panic message s = halts (say (panic_lines message) s)
