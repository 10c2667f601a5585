-- ===== src/Shell/Calc/Decimal.antt =====
-- `cmd_calc` of kernel/shell.c on numbers written in decimal digits.
use native.Mathlib.Nat.{div-le_self}
use szym_os_kernel.Prelude.{
  ℕ, ◌+◌, ◌-◌, ◌*◌, ◌/◌, ◌≤◌, ◌<◌, ◌≡◌, refl, ap, ◌∙◌, inl, inr, true, false, not, ◌&&◌, Bool-cases,
  Option, none, some, List, [], ◌∷◌, ◌++◌, arith, ℤ, pos, negsuc, pos_part, sub_ℕ, sym, eq_of_some,
  leb, ltb, ◌==◌, if◌then◌else◌, u32,
}
use szym_os_kernel.Console.{int, uint, format}
use szym_os_kernel.System.{System, say}
use szym_os_kernel.Terminal.Printf.{to_int}
use szym_os_kernel.Terminal.Printf.Numeral.{value_from, decimal_value}
use szym_os_kernel.Shell.Text.{skip_spaces-done, skip_spaces-space}
use szym_os_kernel.Shell.Calc.{is_digit, read_number, quotient, calculate, calc_answer, cmd_calc}

abbrev pub AreDigits : List ℕ → Type 0
AreDigits [] = Unit
AreDigits (c ∷ cs) = (is_digit c ≡ true) × AreDigits cs

-- The number that digits stand for.
abbrev pub value : List ℕ → ℕ
value ds = value_from 10 decimal_value 0 ds

value_from-le : (num : ℕ) (ds : List ℕ) → num ≤ value_from 10 decimal_value num ds
unfolding value_from
value_from-le num [] = omega arith
value_from-le num (c ∷ ds) = omega (arith, value_from-le (num * 10 + (c - b'0')) ds)

read_number-digits :
    (num : ℕ) (ds : List ℕ) (c : ℕ) (p : List ℕ)
    → AreDigits ds
    → is_digit c ≡ false
    → value_from 10 decimal_value num ds < 4294967296
    → read_number num (ds ++ c ∷ p) ≡ some (value_from 10 decimal_value num ds, c ∷ p)
unfolding read_number value_from
read_number-digits num [] c p h e fits = rw e
read_number-digits num (d ∷ ds) c p h e fits =
    let n = num * 10 + (d - b'0') in
    let whole : u32 n ≡ n = omega (arith, value_from-le n ds) in
    rw (h.0, whole) (read_number-digits n ds c p h.1 e fits)

digit-no_space : (d : ℕ) → is_digit d ≡ true → (d == b' ') ≡ false
digit-no_space d h = ground arith

-- What the operator means on integers; nothing for another character, or a division by 0.
unfoldable pub exact : ℕ → ℕ → ℕ → Option ℤ
exact a op b =
    if op == b'+'
    then some (pos (a + b))
    else if op == b'-'
    then some (sub_ℕ a b)
    else if op == b'*'
    then some (pos (a * b))
    else if op == b'/' && not (b == 0)
    then some (pos (a / b))
    else none

operator-no_space : (a op b : ℕ) (z : ℤ) → exact a op b ≡ some z → (op == b' ') ≡ false
unfolding exact
operator-no_space a op b z e = ground arith

to_int-small : (n : ℕ) → n < 2147483648 → to_int n ≡ pos n
to_int-small n h = ground arith

to_int-sub :
    (a b : ℕ) → a < 2147483648 → b < 2147483648 → to_int (u32 (a + (4294967296 - b))) ≡ sub_ℕ a b
to_int-sub a b ha hb = elim (Bool-cases (leb b a)) [
  | inl e ↦
      let w : u32 (a + (4294967296 - b)) ≡ a - b = ground arith in
      rw (w, e) (to_int-small (a - b) (ground arith))
  | inr e ↦
      let w : u32 (a + (4294967296 - b)) ≡ 4294967296 - (b - a) = ground arith in
      let top : ltb (4294967296 - (b - a)) 2147483648 ≡ false = ground arith in
      let n : 4294967295 - (4294967296 - (b - a)) ≡ b - a - 1 = ground arith in
      rw (w, e, top) (ap negsuc n)
]

calc_answer-right :
    (a op b w : ℕ) (z : ℤ)
    → a < 2147483648
    → b < 2147483648
    → to_int w ≡ z
    → calc_answer a op b w
      ≡ format "%d %c %d = %d\n" (int (pos a) ∷ uint op ∷ int (pos b) ∷ int z ∷ []) ∷ []
calc_answer-right a op b w z ha hb e = rw (to_int-small a ha, to_int-small b hb, e)

quotient-small :
    (a b : ℕ) → a < 2147483648 → b < 2147483648 → quotient (to_int a) (to_int b) ≡ some (a / b)
unfolding quotient
quotient-small a b ha hb = rw (to_int-small a ha, to_int-small b hb) refl

-- A result that is no larger than an `int` is printed as it is.
calc_answer-pos :
    (a op b w n : ℕ) (z : ℤ)
    → a < 2147483648
    → b < 2147483648
    → pos n ≡ z
    → pos_part z < 2147483648
    → w ≡ u32 n
    → calc_answer a op b w
      ≡ format "%d %c %d = %d\n" (int (pos a) ∷ uint op ∷ int (pos b) ∷ int z ∷ []) ∷ []
calc_answer-pos a op b w n z ha hb is fits e =
    let low : n < 2147483648 = omega (arith, ap pos_part is) in
    let whole : w ≡ n = omega arith in
    calc_answer-right a op b w z ha hb (ap to_int whole ∙ (to_int-small n low ∙ is))

-- On numbers that are `int`s, where the result is one too, the `switch` has the result.
calculate-exact :
    (a op b : ℕ) (z : ℤ)
    → a < 2147483648
    → b < 2147483648
    → exact a op b ≡ some z
    → pos_part z < 2147483648
    → calculate a op b
      ≡ some (format "%d %c %d = %d\n" (int (pos a) ∷ uint op ∷ int (pos b) ∷ int z ∷ []) ∷ [])
unfolding calculate exact
calculate-exact a op b z ha hb e fits = elim (Bool-cases (op == b'+')) [
  | inl p ↦ rw p (
      ap some (
        calc_answer-pos a op b (u32 (a + b)) (a + b) z ha hb (eq_of_some (sym (rw p refl) ∙ e)) fits
          refl))
  | inr p ↦ elim (Bool-cases (op == b'-')) [
    | inl q ↦
        rw (p, q)
          (ap some (
            calc_answer-right a op b (u32 (a + (4294967296 - b))) z ha hb
              (to_int-sub a b ha hb ∙ eq_of_some (sym (rw (p, q) refl) ∙ e))))
    | inr q ↦ elim (Bool-cases (op == b'*')) [
      | inl r ↦
          rw (p, q, r)
            (ap some (
              calc_answer-pos a op b (u32 (a * b)) (a * b) z ha hb
                (eq_of_some (sym (rw (p, q, r) refl) ∙ e)) fits refl))
      | inr r ↦ elim (Bool-cases (op == b'/' && not (b == 0))) [
        | inl t ↦
            let slash : (op == b'/') ≡ true = ground arith in
            let nonzero : (b == 0) ≡ false = ground arith in
            let small : a / b ≡ u32 (a / b) = omega (arith, div-le_self a b) in
            rw (p, q, r, slash, nonzero, quotient-small a b ha hb)
              (ap some (
                calc_answer-pos a op b (a / b) (a / b) z ha hb
                  (eq_of_some (sym (rw (p, q, r, t) refl) ∙ e)) fits small))
        | inr t ↦ let never : none ≡ some z = sym (rw (p, q, r, t) refl) ∙ e in cc
      ]
    ]
  ]
]

-- `cmd_calc` of two numbers in decimal digits, with an operator between them and a space on both
-- sides: where both numbers and the exact result are `int`s, it prints the numbers, the operator and
-- the exact result, the quotient of a division being rounded down.
pub cmd_calc-exact :
    {Device : Type 0} (d : ℕ) (ds : List ℕ) (op d' : ℕ) (ds' rest : List ℕ) (z : ℤ)
    (s : System Device)
    → AreDigits (d ∷ ds)
    → AreDigits (d' ∷ ds')
    → value (d ∷ ds) < 2147483648
    → value (d' ∷ ds') < 2147483648
    → exact (value (d ∷ ds)) op (value (d' ∷ ds')) ≡ some z
    → pos_part z < 2147483648
    → cmd_calc ((d ∷ ds) ++ (b' ' ∷ op ∷ b' ' ∷ (d' ∷ ds') ++ 0 ∷ rest)) s
      ≡ some (
          say
            (format "%d %c %d = %d\n"
                (int (pos (value (d ∷ ds))) ∷ uint op ∷ int (pos (value (d' ∷ ds'))) ∷ int z ∷ [])
              ∷ [])
            s)
unfolding cmd_calc
cmd_calc-exact d ds op d' ds' rest z s h h' low low' e fits =
    let second = (d' ∷ ds') ++ 0 ∷ rest in
    let tail = b' ' ∷ op ∷ b' ' ∷ second in
    let start = skip_spaces-done d (ds ++ tail) (digit-no_space d h.0) in
    let one = read_number-digits 0 (d ∷ ds) b' ' (op ∷ b' ' ∷ second) h refl (omega arith) in
    let mid =
      skip_spaces-space (op ∷ b' ' ∷ second)
      ∙ skip_spaces-done op (b' ' ∷ second) (operator-no_space _ op _ z e) in
    let last =
      skip_spaces-space second ∙ skip_spaces-done d' (ds' ++ 0 ∷ rest) (digit-no_space d' h'.0) in
    let two = read_number-digits 0 (d' ∷ ds') 0 rest h' refl (omega arith) in
    let answer = calculate-exact (value (d ∷ ds)) op (value (d' ∷ ds')) z low low' e fits in
    rw (start, one, mid, last, two, answer) refl
