-- ===== src/Cpu.antt =====
-- kernel/cpu.c. What the instructions answer is a parameter.
use szym_os_kernel.Prelude.{
  ℕ, Bool, true, false, not, Option, some, List, [], ◌∷◌, ◌++◌, ◌==◌, if◌then◌else◌, ◌>>=◌, bit_and,
  set,
}
use szym_os_kernel.CString.{text_of}
use szym_os_kernel.Filesystem.Layout.{le32}
use szym_os_kernel.Console.{Call, uint, str, foreground, write, format, light_cyan, white}

-- The registers that CPUID leaves.
pub record Registers : Type 0 where
  pub eax : ℕ
  pub ebx : ℕ
  pub ecx : ℕ
  pub edx : ℕ

-- The processor: whether the ID flag can be changed, and the answer to each code of CPUID.
pub record Processor : Type 0 where
  pub check_cpuid : Bool
  pub cpuid : ℕ → Registers

-- `cpu_info_t`; `vendor` is its array of 13 bytes.
pub record CpuInfo : Type 0 where
  pub vendor : List ℕ
  pub signature : ℕ
  pub features : ℕ
  pub has_cpuid : Bool

-- `info` holds anything before the call.
unfoldable pub cpu_detect : Processor → CpuInfo → CpuInfo
unfolding le32
cpu_detect p info =
    let first = p.cpuid 0 in
    let second = p.cpuid 1 in
    if not p.check_cpuid
    then record { vendor = set info.vendor 0 0; signature = 0; features = 0; has_cpuid = false }
    else record {
      vendor = le32 first.ebx ++ (le32 first.edx ++ (le32 first.ecx ++ 0 ∷ []));
      signature = second.eax;
      features = second.edx;
      has_cpuid = true;
    }

-- `if (cpu.features & (1 << k)) terminal_writestring(...)`, with `1 << k` given.
abbrev pub feature : ℕ → ℕ → Call → List Call
feature features bit call = if bit_and features bit == 0 then [] else call ∷ []

abbrev pub feature_lines : ℕ → List Call
feature_lines features =
    write "Features: "
    ∷ (feature features 0x1 (write "FPU ")
        ++ (feature features 0x10 (write "TSC ")
            ++ (feature features 0x20 (write "MSR ")
                ++ (feature features 0x800000 (write "MMX ")
                    ++ (feature features 0x2000000 (write "SSE ")
                        ++ (feature features 0x4000000 (write "SSE2 ") ++ write "\n" ∷ []))))))

-- `stack` is what the local variable holds at first; outside `some` the vendor has no terminator.
unfoldable pub cpu_print_info : Processor → CpuInfo → Option (List Call)
unfolding cpu_detect
cpu_print_info p stack =
    let cpu = cpu_detect p stack in
    let heading =
      foreground light_cyan ∷ write "=== CPU Information ===\n" ∷ foreground white ∷ [] in
    if not cpu.has_cpuid
    then some (heading ++ write "CPUID not supported (pre-Pentium CPU)\n" ∷ [])
    else (text_of cpu.vendor >>= λ vendor. some (
        heading
        ++ (format "Vendor: %s\n" (str vendor ∷ [])
            ∷ format "Signature: 0x%x\n" (uint cpu.signature ∷ [])
            ∷ feature_lines cpu.features)))
