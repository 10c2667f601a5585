-- ===== src/Shell/Calc.antt =====
-- `cmd_calc` of kernel/shell.c. An `int` is its 32-bit pattern, so that a number that does not fit
-- wraps around; `none` is a read past the command, or a division that the processor refuses.
pub mod Decimal
use szym_os_kernel.Prelude.{
  ℕ, zero, suc, ◌+◌, ◌-◌, ◌*◌, ◌/◌, Bool, ◌&&◌, Option, none, some, List, [], ◌∷◌, ℤ, pos, negsuc,
  leb, ◌==◌, if◌then◌else◌, ◌>>=◌, u32,
}
use szym_os_kernel.Console.{Call, int, write, format, uint}
use szym_os_kernel.System.{System, say}
use szym_os_kernel.Terminal.Printf.{to_int}
use szym_os_kernel.Shell.Text.{skip_spaces}

abbrev pub is_digit : ℕ → Bool
is_digit c = leb b'0' c && leb c b'9'

-- `while (*p >= '0' && *p <= '9') { num = num * 10 + (*p - '0'); p++; }`: `num` and `p` behind it.
unfoldable pub read_number : ℕ → List ℕ → Option (ℕ × List ℕ)
read_number num [] = none
read_number num (c ∷ p) =
    let rest = read_number (u32 (num * 10 + (c - b'0'))) p in
    if is_digit c then rest else some (num, c ∷ p)

-- The byte at a pointer, and the pointer behind it.
abbrev pub next_byte : List ℕ → Option (ℕ × List ℕ)
next_byte [] = none
next_byte (c ∷ p) = some (c, p)

-- The pattern of a number that is not positive.
abbrev pub minus : ℕ → ℕ
minus n = u32 (4294967296 - n)

-- `num1 / num2` of two `int`s, rounded towards 0. The least `int` by -1 has no result: the
-- processor stops with an exception.
unfoldable pub quotient : ℤ → ℤ → Option ℕ
quotient (pos a) (pos b) = some (a / b)
quotient (pos a) (negsuc b) = some (minus (a / (b + 1)))
quotient (negsuc a) (pos b) = some (minus ((a + 1) / b))
quotient (negsuc a) (negsuc b) =
    if a == 2147483647 && b == 0 then none else some ((a + 1) / (b + 1))

abbrev pub calc_usage : List Call
calc_usage =
    write "Usage: calc <num1> <op> <num2>\n"
    ∷ write "Operators: + - * /\n"
    ∷ write "Example: calc 15 + 27\n"
    ∷ []

-- `terminal_printf("%d %c %d = %d\n", num1, op, num2, result)`
abbrev pub calc_answer : ℕ → ℕ → ℕ → ℕ → List Call
calc_answer num1 op num2 result =
    format "%d %c %d = %d\n"
      (int (to_int num1) ∷ uint op ∷ int (to_int num2) ∷ int (to_int result) ∷ [])
    ∷ []

-- The `switch (op)` and what is printed.
unfoldable pub calculate : ℕ → ℕ → ℕ → Option (List Call)
unfolding quotient
calculate num1 op num2 =
    if op == b'+'
    then some (calc_answer num1 op num2 (u32 (num1 + num2)))
    else if op == b'-'
    then some (calc_answer num1 op num2 (u32 (num1 + (4294967296 - num2))))
    else if op == b'*'
    then some (calc_answer num1 op num2 (u32 (num1 * num2)))
    else if op == b'/'
    then (if num2 == 0
        then some (write "Error: Division by zero!\n" ∷ [])
        else (quotient (to_int num1) (to_int num2) >>= λ result.
            some (calc_answer num1 op num2 result)))
    else some calc_usage

unfoldable pub cmd_calc : {Device : Type 0} → List ℕ → System Device → Option (System Device)
unfolding read_number calculate
cmd_calc expr s = skip_spaces expr >>= λ p1. read_number 0 p1 >>= λ first.
    skip_spaces first.1 >>= λ p2. next_byte p2 >>= λ op. skip_spaces op.1 >>= λ p3.
    read_number 0 p3 >>= λ second. calculate first.0 op.0 second.0 >>= λ calls. some (say calls s)
