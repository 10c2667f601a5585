-- ===== src/Terminal/Printf/Numeral.antt =====
-- Numerals: what the bytes that `%d` and `%x` print stand for.
use Prim.Native.Nat.pow
use szym_os_kernel.Prelude.{
  ℕ, zero, suc, ◌+◌, ◌-◌, ◌*◌, ◌/◌, ◌%◌, ◌^◌, ◌≤◌, ◌<◌, ◌≡◌, inl, inr, List, [], ◌∷◌, ◌⊎◌, arith,
  true, false, ltb, ◌==◌, Bool-cases, if◌then◌else◌,
}
use szym_os_kernel.Terminal.Printf.{digits_loop}

-- The number that a row of digits stands for, most significant first.
unfoldable pub value_from : ℕ → (ℕ → ℕ) → ℕ → List ℕ → ℕ
value_from base digit_value acc [] = acc
value_from base digit_value acc (c ∷ cs) =
    value_from base digit_value (acc * base + digit_value c) cs

abbrev pub decimal_value : ℕ → ℕ
decimal_value c = c - b'0'

abbrev pub hex_value : ℕ → ℕ
hex_value c = if ltb c b'A' then c - b'0' else c - b'A' + 10

abbrev pub Each : (ℕ → Type 0) → List ℕ → Type 0
Each P [] = Unit
Each P (c ∷ cs) = P c × Each P cs

abbrev pub IsDecimal : ℕ → Type 0
IsDecimal c = (b'0' ≤ c) × (c ≤ b'9')

abbrev pub IsHex : ℕ → Type 0
IsHex c = IsDecimal c ⊎ ((b'A' ≤ c) × (c ≤ b'F'))

abbrev pub LeadsWell : List ℕ → Type 0
LeadsWell [] = Unit
LeadsWell (c ∷ cs) = (c == b'0') ≡ false

-- There is a digit, and the first of several is not a zero.
abbrev pub IsShortest : List ℕ → Type 0
IsShortest [] = ⊥
IsShortest (c ∷ []) = Unit
IsShortest (c ∷ d ∷ ds) = (c == b'0') ≡ false

-- The numeral of `n` in the digits `IsDigit`.
pub record Numeral (base : ℕ) (IsDigit : ℕ → Type 0) (digit_value : ℕ → ℕ) (n : ℕ) (ds : List ℕ)
    : Type 0 where
  pub digits : Each IsDigit ds
  pub shortest : IsShortest ds
  pub stands : value_from base digit_value 0 ds ≡ n

abbrev pub DecimalOf : ℕ → List ℕ → Type 0
DecimalOf = Numeral 10 IsDecimal decimal_value

abbrev pub HexOf : ℕ → List ℕ → Type 0
HexOf = Numeral 16 IsHex hex_value

-- A row of digits that does not lead with a zero and stands for a number that is not 0.
pub Numeral-positive :
    {base : ℕ} {IsDigit : ℕ → Type 0} {digit_value : ℕ → ℕ} (n : ℕ) (ds : List ℕ)
    → (n == 0) ≡ false
    → Each IsDigit ds
    → LeadsWell ds
    → value_from base digit_value 0 ds ≡ n
    → Numeral base IsDigit digit_value n ds
unfolding value_from
Numeral-positive n [] e d l v = absurd (ground (arith, v))
Numeral-positive n (c ∷ []) e d l v = record { digits = d; shortest = tt; stands = v }
Numeral-positive n (c ∷ c' ∷ ds) e d l v = record { digits = d; shortest = l; stands = v }

module _ (base : ℕ) (digit : ℕ → ℕ) (IsDigit : ℕ → Type 0)
    (is_digit : (n : ℕ) → IsDigit (digit (n % base))) where
  pub Each-digits_loop :
      (fuel num : ℕ) (buffer : List ℕ)
      → Each IsDigit buffer
      → Each IsDigit (digits_loop fuel digit base num buffer)
  unfolding digits_loop
  Each-digits_loop zero num buffer p = p
  Each-digits_loop (suc fuel) num buffer p = elim (Bool-cases (num == 0)) [
    | inl e ↦ rw e p
    | inr e ↦
        rw e (Each-digits_loop fuel (num / base) (digit (num % base) ∷ buffer) (is_digit num, p))
  ]

module _ (base : ℕ) (digit : ℕ → ℕ) (below : (n : ℕ) → n / base ≡ 0 → n % base ≡ n)
    (not_zero : (n : ℕ) → (n == 0) ≡ false → (digit (n % base) == b'0') ≡ true → n % base ≡ 0)
    (shrink : (m j : ℕ) → m < base ^ suc j → m / base < base ^ j) where
  pub LeadsWell-digits_loop :
      (fuel num : ℕ) (buffer : List ℕ)
      → num < base ^ fuel
      → (num ≡ 0 → LeadsWell buffer)
      → LeadsWell (digits_loop fuel digit base num buffer)
  unfolding digits_loop
  LeadsWell-digits_loop zero num buffer h p = p (omega (arith, pow.zero base))
  LeadsWell-digits_loop (suc fuel) num buffer h p = elim (Bool-cases (num == 0)) [
    | inl e ↦ rw e (p (ground arith))
    | inr e ↦ rw e (
        LeadsWell-digits_loop fuel (num / base) (digit (num % base) ∷ buffer) (shrink num fuel h)
          (λ small. elim (Bool-cases (digit (num % base) == b'0')) [
            | inl z ↦ absurd (ground (arith, below num small, not_zero num e z))
            | inr z ↦ z
          ]))
  ]
