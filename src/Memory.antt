-- ===== src/Memory.antt =====
-- kernel/memory.c: the sizes that the boot loader reports.
use szym_os_kernel.Prelude.{ℕ, ◌+◌, ◌/◌, ◌==◌, if◌then◌else◌, u32, bit_and, List, [], ◌∷◌}
use szym_os_kernel.Console.{Call, uint, foreground, write, format, light_cyan, white}

-- `memory_info_t`, in KB.
pub record MemoryInfo : Type 0 where
  pub lower : ℕ
  pub upper : ℕ
  pub total : ℕ

-- `struct multiboot_info`
pub record MultibootInfo : Type 0 where
  pub flags : ℕ
  pub mem_lower : ℕ
  pub mem_upper : ℕ

-- `mbi` is what lies at the address; it is read only if that is not 0.
unfoldable pub memory_init : ℕ → MultibootInfo → MemoryInfo → MemoryInfo
memory_init multiboot_info mbi mem_info =
    if multiboot_info == 0
    then record { lower = 0; upper = 0; total = 0 }
    else if bit_and mbi.flags 0x01 == 0
    then mem_info
    else record {
      lower = mbi.mem_lower;
      upper = mbi.mem_upper;
      total = u32 (mbi.mem_lower + mbi.mem_upper);
    }

unfoldable pub memory_print_info : MemoryInfo → List Call
memory_print_info m =
    foreground light_cyan
    ∷ write "=== Memory Information ===\n"
    ∷ foreground white
    ∷ format "Lower Memory: %d KB\n" (uint m.lower ∷ [])
    ∷ format "Upper Memory: %d KB\n" (uint m.upper ∷ [])
    ∷ format "Total Memory: %d KB (%d MB)\n" (uint m.total ∷ uint (m.total / 1024) ∷ [])
    ∷ []

unfoldable pub get_total_memory : MemoryInfo → ℕ
get_total_memory m = m.total
