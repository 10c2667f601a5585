-- ===== src/Shell/Dispatch.antt =====
-- `shell_execute_command` of kernel/shell.c. Outside `some` a string or a table is read past its end,
-- a division has no result, or the rounds of a waiting loop are used up.
pub mod Commands
use szym_os_kernel.Prelude.{
  ℕ, zero, suc, ◌+◌, Bool, true, false, not, Option, none, some, List, [], ◌∷◌, ◌++◌, ℤ, pos, eq_ℤ,
  ◌==◌, if◌then◌else◌, ◌>>=◌, drop, bit_and,
}
use szym_os_kernel.CString.{codes, literal, strcmp, text_of}
use szym_os_kernel.Ports.{Ports}
use szym_os_kernel.Console.{Call, clear, write, writestring, foreground, print_boot_art, yellow}
use szym_os_kernel.System.{System, say, with_dev}
use szym_os_kernel.Ata.Identify.{ata_detect_drives}
use szym_os_kernel.Ata.Print.{ata_print_drives}
use szym_os_kernel.Filesystem.Persist.{fs_save_to_disk}
use szym_os_kernel.Memory.{MemoryInfo, memory_print_info, get_total_memory}
use szym_os_kernel.Cpu.{Processor, CpuInfo, cpu_print_info}
use szym_os_kernel.Serial.{serial_init, serial_print, read_bytes}
use szym_os_kernel.Kernel.{Outcome, returns, halts, kernel_panic}
use szym_os_kernel.Shell.Text.{starts_with}
use szym_os_kernel.Shell.Files.{cmd_ls, cmd_cat, cmd_write, cmd_rm}
use szym_os_kernel.Shell.Calc.{cmd_calc}
use szym_os_kernel.Shell.Screens.{help, info, version, cmd_colors, unknown_command}
use Prim.Native.String.{String}

-- `if (test) { ... } else ...`
abbrev pub branch {ℓ} : {A : Type ℓ} → Option Bool → Option A → Option A → Option A
branch none a b = none
branch (some true) a b = a
branch (some false) a b = b

-- `strcmp(cmd, "...") == 0`
abbrev pub is_command : List ℕ → String → Option Bool
is_command cmd name = strcmp cmd (literal name) >>= λ z. some (eq_ℤ z (pos 0))

-- `starts_with(cmd, "...")`
abbrev pub has_prefix : List ℕ → String → Option Bool
has_prefix cmd prefix = starts_with cmd (literal prefix)

-- What the commands find around them: the memory behind `fs_header`, what the stack holds, the
-- memory sizes, the processor, and the rounds that waiting loops are given.
pub record Surroundings : Type 0 where
  pub behind : List ℕ
  pub stack : List ℕ
  pub cpu_stack : CpuInfo
  pub mem_info : MemoryInfo
  pub processor : Processor
  pub polls : ℕ

abbrev pub prints : {Device : Type 0} → List Call → System Device → Option (Outcome Device)
prints calls s = some (returns (say calls s))

-- A command that always returns.
abbrev pub returning : {Device : Type 0} → Option (System Device) → Option (Outcome Device)
returning o = o >>= λ s. some (returns s)

module _ {Device : Type 0} (ports : Ports Device) where
  unfoldable pub cmd_serial_print : ℕ → List ℕ → System Device → Option (System Device)
  unfolding serial_init serial_print
  cmd_serial_print polls msg s =
      let (calls, d) = serial_init ports s.dev in
      serial_print ports polls msg d >>= λ d'. some (say calls (with_dev d' s))

  unfoldable pub cmd_serial_read : ℕ → System Device → Option (System Device)
  unfolding serial_init read_bytes
  cmd_serial_read polls s =
      let (calls, d) = serial_init ports s.dev in
      read_bytes ports 127 polls d >>= λ r.
      text_of (r.0 ++ 0 ∷ []) >>= λ t. some (say (calls ++ writestring t ∷ []) (with_dev r.1 s))

  -- `do { temp = inb(0x64); if (temp & 0x01) inb(0x60); } while (temp & 0x02);`
  unfoldable pub empty_controller : ℕ → Device → Option Device
  empty_controller zero d = none
  empty_controller (suc polls) d =
      let (temp, d1) = ports.inb 0x64 d in
      let d2 = if bit_and temp 0x01 == 0 then d1 else (ports.inb 0x60 d1).1 in
      let rest = empty_controller polls d2 in if bit_and temp 0x02 == 0 then some d2 else rest

  -- If the controller does not reset the machine, it is halted.
  unfoldable pub reboot : ℕ → System Device → Option (Outcome Device)
  unfolding empty_controller
  reboot polls s =
      let s1 = say (foreground yellow ∷ write "Rebooting system...\n" ∷ []) s in
      empty_controller polls s1.dev >>= λ d. some (halts (with_dev (ports.outb 0x64 0xFE d) s1))

  unfoldable pub list_disks : System Device → Option (System Device)
  list_disks s = ata_detect_drives ports s.ata s.dev >>= λ r.
      ata_print_drives r.1 >>= λ lines. some (say lines (record s { dev = r.2; ata = r.1 }))

  -- The commands behind `save`.
  unfoldable pub last_commands : Surroundings → List ℕ → System Device → Option (Outcome Device)
  unfolding reboot list_disks
  last_commands e cmd s =
      branch (is_command cmd "cpuid")
        (cpu_print_info e.processor e.cpu_stack >>= λ calls. prints calls s)
        (branch (is_command cmd "mem") (prints (memory_print_info e.mem_info) s) (
          branch (is_command cmd "banner") (prints print_boot_art s) (
            branch (is_command cmd "colors") (prints cmd_colors s) (
              branch (is_command cmd "disks") (returning (list_disks s)) (
                branch (has_prefix cmd "calc ") (returning (cmd_calc (drop 5 cmd) s)) (
                  branch (is_command cmd "reboot") (reboot e.polls s) (
                    branch (has_prefix cmd "echo ")
                      (text_of (drop 5 cmd) >>= λ t. prints (writestring t ∷ write "\n" ∷ []) s)
                      (branch (is_command cmd "panic")
                        (some (kernel_panic (codes "User triggered panic from shell") s))
                        (text_of cmd >>= λ t. prints (unknown_command t) s)))))))))

  -- The commands behind `rm`.
  unfoldable pub other_commands : Surroundings → List ℕ → System Device → Option (Outcome Device)
  unfolding cmd_serial_print cmd_serial_read reboot list_disks
  other_commands e cmd s =
      branch (has_prefix cmd "serial_print ") (returning (cmd_serial_print e.polls (drop 13 cmd) s))
        (branch (is_command cmd "serial_read") (returning (cmd_serial_read e.polls s)) (
          branch (is_command cmd "clear") (prints (clear ∷ []) s) (
            branch (is_command cmd "info") (prints (info (get_total_memory e.mem_info)) s) (
              branch (is_command cmd "version") (prints version s) (
                branch (is_command cmd "save") (some (returns (fs_save_to_disk ports e.behind s)))
                  (last_commands e cmd s))))))

  -- `cmd + 4` is the command without its first four bytes.
  unfoldable pub shell_execute_command :
      Surroundings → List ℕ → System Device → Option (Outcome Device)
  unfolding cmd_serial_print cmd_serial_read reboot list_disks
  shell_execute_command e cmd s = branch (is_command cmd "") (some (returns s)) (
      branch (is_command cmd "help") (prints help s) (
        branch (is_command cmd "ls") (returning (cmd_ls s)) (
          branch (has_prefix cmd "cat ") (returning (cmd_cat (drop 4 cmd) s)) (
            branch (has_prefix cmd "write ")
              (returning (cmd_write ports e.behind e.stack (drop 6 cmd) s))
              (branch (has_prefix cmd "rm ") (returning (cmd_rm ports e.behind (drop 3 cmd) s))
                (other_commands e cmd s))))))
