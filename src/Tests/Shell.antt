-- ===== src/Tests/Shell.antt =====
-- Lines and commands of kernel/shell.c.
use szym_os_kernel.Prelude.{
  ℕ, ◌≤◌, ◌≡◌, refl, true, false, none, some, List, [], ◌∷◌, ◌++◌, arith, ℤ, pos, negsuc, replicate,
  length, length-replicate,
}
use szym_os_kernel.CString.{codes, literal, text_of, NoNul}
use szym_os_kernel.Console.{int, uint, format, write, writestring}
use szym_os_kernel.System.{System, say}
use szym_os_kernel.Filesystem.State.{FsState}
use szym_os_kernel.Filesystem.Refine.{create_code, create_count, create_view, Leaves}
use szym_os_kernel.Filesystem.Directory.{view, count_used}
use szym_os_kernel.Filesystem.Refine.Session.{find}
use szym_os_kernel.Terminal.Printf.Numeral.{value_from}
use szym_os_kernel.Shell.Text.{starts_with}
use szym_os_kernel.Shell.Line.{Line, Shows, edit_all, entered, typed, type_key, edit_all-Shows}
use szym_os_kernel.Shell.Files.{cmd_write, cmd_cat, write_report, not_found}
use szym_os_kernel.Shell.Files.Session.{cmd_cat-view, cmd_write-Leaves, cmd_cat-cmd_write}
use szym_os_kernel.Shell.Calc.{cmd_calc}
use szym_os_kernel.Shell.Calc.Decimal.{exact, cmd_calc-exact}
use szym_os_kernel.Shell.Dispatch.{Surroundings}
use szym_os_kernel.Tests.Filesystem.{silent, booted, booted-Represents}

starts_with_test : starts_with (literal "cat a.txt") (literal "cat ") ≡ some true
unfolding starts_with
starts_with_test = refl

abbrev pub empty_line : Line
empty_line = record { command_buffer = replicate 256 0; command_index = pos 0 }

pub empty_line-Shows : Shows [] empty_line
empty_line-Shows = record {
  size = length-replicate {A = ℕ} 256 0;
  index = refl;
  room = omega arith;
  text = refl;
  no_nul = tt;
}

-- `lx`, a backspace, `s`.
abbrev keys : List ℕ
keys = b'l' ∷ b'x' ∷ 8 ∷ b's' ∷ []

typed_test : typed keys [] ≡ codes "ls"
unfolding typed type_key
typed_test = refl

edit_all-Shows_example :
    (l' : Line) × (edit_all keys empty_line ≡ some l')
    × Shows (typed keys []) l'
    × (buffer : List ℕ) × (entered l' ≡ some buffer)
    × (text_of buffer ≡ some (typed keys []))
edit_all-Shows_example = edit_all-Shows keys [] empty_line empty_line-Shows

cmd_calc-exact_example :
    cmd_calc (codes "7 - 12" ++ 0 ∷ []) booted
    ≡ some (
        say
          (format "%d %c %d = %d\n" (int (pos 7) ∷ uint b'-' ∷ int (pos 12) ∷ int (negsuc 4) ∷ [])
            ∷ [])
          booted)
unfolding value_from exact
cmd_calc-exact_example =
    cmd_calc-exact b'7' [] b'-' b'1' (b'2' ∷ []) [] (negsuc 4) booted (refl, tt) (refl, (refl, tt))
      (omega arith) (omega arith) refl (omega arith)

-- On an empty directory every small file is new.
new_file :
    (f : FsState) (t c : List ℕ)
    → view f t ≡ none
    → count_used f.header.files ≡ 0
    → length c ≤ 4096
    → create_code f t c ≡ pos 0
unfolding create_code
new_file f t c absent empty small = ground (arith, absent, empty)

note_is_new : create_code booted.fs (codes "a") (codes "hi") ≡ pos 0
unfolding find
note_is_new =
    new_file booted.fs (codes "a") (codes "hi") (booted-Represents.same (codes "a"))
      booted-Represents.number (omega arith)

cmd_cat-view_example :
    ((view booted.fs (codes "a") ≡ none)
      → cmd_cat (literal "a") booted ≡ some (say (not_found (codes "a")) booted))
    × ((c : List ℕ)
        → view booted.fs (codes "a") ≡ some c
        → NoNul c
        → length c ≤ 4096
        → cmd_cat (literal "a") booted ≡ some (say (writestring c ∷ write "\n" ∷ []) booted))
unfolding text_of
cmd_cat-view_example =
    cmd_cat-view (literal "a") (codes "a") booted booted-Represents.valid booted-Represents.ready
      refl

cmd_write-Leaves_example :
    (r : ℤ × System (Unit {0})) × (cmd_write silent [] (replicate 32 7) (literal "a hi") booted
      ≡ some (say (write_report r.0 (codes "a")) r.1))
    × Leaves
        (create_code booted.fs (codes "a") (codes "hi"))
        (create_count booted.fs (codes "a") (codes "hi"))
        (create_view booted.fs (codes "a") (codes "hi"))
        booted
        r
cmd_write-Leaves_example =
    cmd_write-Leaves silent [] (replicate 32 7) b'a' [] b'h' (b'i' ∷ []) [] booted
      booted-Represents.valid booted-Represents.ready (length-replicate {A = ℕ} 32 7)
      (refl, refl, tt) (omega arith) refl (refl, (refl, tt))

cmd_cat-cmd_write_example :
    (s' : System (Unit {0})) × (cmd_write silent [] (replicate 32 7) (literal "a hi") booted
      ≡ some s')
    × (cmd_cat (literal "a") s' ≡ some (say (writestring (codes "hi") ∷ write "\n" ∷ []) s'))
cmd_cat-cmd_write_example =
    cmd_cat-cmd_write silent [] (replicate 32 7) b'a' [] b'h' (b'i' ∷ []) [] [] booted
      booted-Represents.valid booted-Represents.ready (length-replicate {A = ℕ} 32 7)
      (refl, refl, tt) (omega arith) refl (refl, (refl, tt)) note_is_new (omega arith)

abbrev pub around : Surroundings
around = record {
  behind = [];
  stack = replicate 32 7;
  cpu_stack = record { vendor = replicate 13 0; signature = 0; features = 0; has_cpuid = false };
  mem_info = record { lower = 639; upper = 64512; total = 65151 };
  processor = record {
    check_cpuid = false;
    cpuid = λ code. record { eax = 0; ebx = 0; ecx = 0; edx = 0 };
  };
  polls = 10;
}
