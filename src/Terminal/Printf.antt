-- ===== src/Terminal/Printf.antt =====
-- `terminal_printf` of kernel/terminal.c: what it sends to `terminal_putchar`, byte by byte.
pub mod Numeral
pub mod Decimal
use szym_os_kernel.Prelude.{
  ℕ, zero, suc, ◌+◌, ◌-◌, ◌*◌, ◌/◌, ◌%◌, Bool, Option, none, some, List, [], ◌∷◌, ◌++◌, ℤ, pos,
  negsuc, ltb, ◌==◌, if◌then◌else◌, ◌>>=◌, take,
}
use szym_os_kernel.CString.{codes}
use szym_os_kernel.Console.{Arg, int, uint, str}

-- The value of a 32-bit pattern as an `int`, and the pattern of an `int`.
abbrev pub to_int : ℕ → ℤ
to_int w = if ltb w 2147483648 then pos w else negsuc (4294967295 - w)

abbrev pub to_uint : ℤ → ℕ
to_uint (pos n) = n
to_uint (negsuc n) = 4294967295 - n

-- `num = -num` for a negative `int`: the negation of the least one wraps to itself.
abbrev pub negate : ℕ → ℤ
negate n = if n == 2147483647 then negsuc n else pos (n + 1)

-- `while (num > 0) { buffer[i++] = digit(num % base); num /= base; }`, with the buffer's last byte
-- first, as the loop behind it sends them. A 32-bit number has at most 32 digits in any base.
unfoldable pub digits_loop : ℕ → (ℕ → ℕ) → ℕ → ℕ → List ℕ → List ℕ
digits_loop zero digit base num buffer = buffer
digits_loop (suc fuel) digit base num buffer =
    let rest = digits_loop fuel digit base (num / base) (digit (num % base) ∷ buffer) in
    if num == 0 then buffer else rest

abbrev pub decimal_digit : ℕ → ℕ
decimal_digit d = b'0' + d

abbrev pub hex_digit : ℕ → ℕ
hex_digit d = if ltb d 10 then b'0' + d else b'A' + d - 10

-- The digits of a number that is not negative.
unfoldable pub decimal : ℕ → List ℕ
decimal num = if num == 0 then b'0' ∷ [] else digits_loop 32 decimal_digit 10 num []

-- `%d`. The least `int` stays negative, and the loop sends no digit of it.
unfoldable pub format_int : ℤ → List ℕ
format_int (pos n) = decimal n
format_int (negsuc n) = elim (negate n) [ pos m ↦ b'-' ∷ decimal m | negsuc _ ↦ b'-' ∷ [] ]

-- `%x`
unfoldable pub format_hex : ℕ → List ℕ
format_hex num = if num == 0 then codes "0x0" else codes "0x" ++ digits_loop 32 hex_digit 16 num []

-- `va_arg(args, int)`, `va_arg(args, unsigned int)` and `va_arg(args, char*)`.
abbrev pub as_int : Arg → Option ℤ
as_int (int z) = some z
as_int (uint w) = some (to_int w)
as_int (str _) = none

abbrev pub as_uint : Arg → Option ℕ
as_uint (int z) = some (to_uint z)
as_uint (uint w) = some w
as_uint (str _) = none

abbrev pub as_str : Arg → Option (List ℕ)
as_str (str s) = some s
as_str _ = none

-- The next argument; there is none behind the last.
abbrev pub next : List Arg → Option (Arg × List Arg)
next [] = none
next (a ∷ args) = some (a, args)

-- The bytes of one conversion, and the arguments left. A letter that is no conversion sends nothing.
unfoldable pub convert : ℕ → List Arg → Option (List ℕ × List Arg)
convert d args =
    if d == b's'
    then (next args >>= λ p. as_str p.0 >>= λ s. some (s, p.1))
    else if d == b'd'
    then (next args >>= λ p. as_int p.0 >>= λ z. some (format_int z, p.1))
    else if d == b'x'
    then (next args >>= λ p. as_uint p.0 >>= λ w. some (format_hex w, p.1))
    else if d == b'c'
    then (next args >>= λ p. as_uint p.0 >>= λ w. some (w % 256 ∷ [], p.1))
    else if d == b'%'
    then some (b'%' ∷ [], args)
    else some ([], args)

-- The bytes that the format sends. After a `%` the next byte is taken as a conversion, the
-- terminator too: then the walk goes on behind it, and `none` is a read past the format.
unfoldable pub expand : List ℕ → List Arg → Option (List ℕ)
expand [] args = none
expand (c ∷ []) args = if c == 0 then some [] else none
expand (c ∷ d ∷ rest) args =
    let plain = expand (d ∷ rest) args in
    let converted : Option (List ℕ) =
      convert d args >>= λ p. expand rest p.1 >>= λ bytes. some (p.0 ++ bytes) in
    if c == 0 then some [] else if c == b'%' then converted else plain >>= λ bytes. some (c ∷ bytes)
