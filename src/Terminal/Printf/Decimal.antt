-- ===== src/Terminal/Printf/Decimal.antt =====
-- The digits that `%d` and `%x` print, and how many there are.
use Prim.Native.Nat.pow
use native.Mathlib.Nat.{pow-suc}
use szym_os_kernel.Prelude.{
  ℕ, zero, suc, ◌+◌, ◌/◌, ◌%◌, ◌^◌, ◌≤◌, ◌<◌, ◌≡◌, ap, ◌∙◌, inl, inr, List, [], ◌∷◌, false, arith,
  pos, ltb, ◌==◌, Bool-cases, length,
}
use szym_os_kernel.Terminal.Printf.{
  digits_loop, decimal_digit, hex_digit, decimal, format_int, format_hex,
}
use szym_os_kernel.Terminal.Printf.Numeral.{
  value_from, decimal_value, hex_value, IsDecimal, IsHex, DecimalOf, HexOf, Numeral-positive,
  Each-digits_loop, LeadsWell-digits_loop,
}

digits_loop-decimal :
    (fuel num : ℕ) (buffer : List ℕ)
    → num < 10 ^ fuel
    → value_from 10 decimal_value 0 (digits_loop fuel decimal_digit 10 num buffer)
      ≡ value_from 10 decimal_value num buffer
unfolding digits_loop value_from
digits_loop-decimal zero num buffer h = ap (λ n. value_from 10 decimal_value n buffer) (omega arith)
digits_loop-decimal (suc fuel) num buffer h = elim (Bool-cases (num == 0)) [
  | inl e ↦ rw e (ap (λ n. value_from 10 decimal_value n buffer) (ground arith))
  | inr e ↦ rw e (
      digits_loop-decimal fuel (num / 10) (decimal_digit (num % 10) ∷ buffer)
        (omega (arith, pow-suc 10 fuel))
      ∙ ap (λ n. value_from 10 decimal_value n buffer) (omega arith))
]

digits_loop-hex :
    (fuel num : ℕ) (buffer : List ℕ)
    → num < 16 ^ fuel
    → value_from 16 hex_value 0 (digits_loop fuel hex_digit 16 num buffer)
      ≡ value_from 16 hex_value num buffer
unfolding digits_loop value_from
digits_loop-hex zero num buffer h = ap (λ n. value_from 16 hex_value n buffer) (omega arith)
digits_loop-hex (suc fuel) num buffer h = elim (Bool-cases (num == 0)) [
  | inl e ↦ rw e (ap (λ n. value_from 16 hex_value n buffer) (ground arith))
  | inr e ↦ rw e (
      digits_loop-hex fuel (num / 16) (hex_digit (num % 16) ∷ buffer)
        (omega (arith, pow-suc 16 fuel))
      ∙ ap (λ n. value_from 16 hex_value n buffer) (ground arith))
]

length-digits_loop :
    (base fuel k num : ℕ) (digit : ℕ → ℕ) (buffer : List ℕ)
    → ((m j : ℕ) → m < base ^ suc j → m / base < base ^ j)
    → num < base ^ k
    → length (digits_loop fuel digit base num buffer) ≤ length buffer + k
unfolding digits_loop
length-digits_loop base zero k num digit buffer shrink h = omega arith
length-digits_loop base (suc fuel) zero num digit buffer shrink h =
    let e : num ≡ 0 = omega (arith, pow.zero base) in rw e (omega arith)
length-digits_loop base (suc fuel) (suc k) num digit buffer shrink h = ground (
  arith,
  shrink num k,
  length-digits_loop base fuel k (num / base) digit (digit (num % base) ∷ buffer) shrink,
)

is_decimal : (n : ℕ) → IsDecimal (decimal_digit (n % 10))
is_decimal n = (omega arith, omega arith)

is_hex : (n : ℕ) → IsHex (hex_digit (n % 16))
is_hex n = elim (Bool-cases (ltb (n % 16) 10)) [
  | inl e ↦ inl (ground arith, ground arith)
  | inr e ↦ inr (ground arith, ground arith)
]

decimal-DecimalOf : (n : ℕ) → n < 10 ^ 32 → DecimalOf n (decimal n)
unfolding decimal value_from
decimal-DecimalOf n h = elim (Bool-cases (n == 0)) [
  | inl e ↦
      rw e
        (record { digits = ((omega arith, omega arith), tt); shortest = tt; stands = ground arith })
  | inr e ↦ rw e (
      Numeral-positive n (digits_loop 32 decimal_digit 10 n []) e
        (Each-digits_loop 10 decimal_digit IsDecimal is_decimal 32 n [] tt)
        (LeadsWell-digits_loop 10 decimal_digit (λ m p. omega arith) (λ m p q. ground arith)
          (λ m j p. omega (arith, pow-suc 10 j)) 32 n [] h (λ _. tt))
        (digits_loop-decimal 32 n [] h))
]

hex-HexOf : (n : ℕ) → n < 16 ^ 32 → (n == 0) ≡ false → HexOf n (digits_loop 32 hex_digit 16 n [])
unfolding value_from
hex-HexOf n h e =
    Numeral-positive n (digits_loop 32 hex_digit 16 n []) e
      (Each-digits_loop 16 hex_digit IsHex is_hex 32 n [] tt)
      (LeadsWell-digits_loop 16 hex_digit (λ m p. omega arith) (λ m p q. ground arith)
        (λ m j p. omega (arith, pow-suc 16 j)) 32 n [] h (λ _. tt))
      (digits_loop-hex 32 n [] h)

length-decimal : (n : ℕ) → n < 10 ^ 10 → length (decimal n) ≤ 10
unfolding decimal
length-decimal n h = elim (Bool-cases (n == 0)) [
  | inl e ↦ rw e (omega arith)
  | inr e ↦
      rw e (length-digits_loop 10 32 10 n decimal_digit [] (λ m j p. omega (arith, pow-suc 10 j)) h)
]

-- `%d` of an `int` that is not negative, below 2^31, prints the decimal numeral of it, of at most 10
-- digits.
pub format_int-pos :
    (n : ℕ) → n < 2147483648 → DecimalOf n (format_int (pos n)) × (length (format_int (pos n)) ≤ 10)
unfolding format_int
format_int-pos n h = (decimal-DecimalOf n (omega arith), length-decimal n (omega arith))

-- `%x` of an `unsigned int`, below 2^32, prints `0x` and the hexadecimal numeral of it: bytes from `0`
-- to `9` and from `A` to `F`, without a leading zero but for 0 itself, at most 8 of them, so that
-- the 9 bytes of the buffer are enough.
pub format_hex_lem :
    (num : ℕ)
    → num < 4294967296
    → (ds : List ℕ) × (format_hex num ≡ b'0' ∷ b'x' ∷ ds) × HexOf num ds × (length ds ≤ 8)
unfolding format_hex value_from
format_hex_lem num h = elim (Bool-cases (num == 0)) [
  | inl e ↦ (
    b'0' ∷ [],
    rw e,
    record { digits = (inl (omega arith, omega arith), tt); shortest = tt; stands = ground arith },
    omega arith,
  )
  | inr e ↦ (
    digits_loop 32 hex_digit 16 num [],
    rw e,
    hex-HexOf num (omega arith) e,
    length-digits_loop 16 32 8 num hex_digit [] (λ m j p. omega (arith, pow-suc 16 j))
        (omega arith),
  )
]
