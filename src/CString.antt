-- ===== src/CString.antt =====
-- The string functions of kernel/kernel.c. A `const char*` is the list of the bytes from the
-- pointer to the end of the object that holds the string: the text, its NUL, and what follows.
-- `none` is a read past that object.
pub mod Compare
use szym_os_kernel.Prelude.{
  ℕ, zero, suc, ◌+◌, ◌≡◌, Bool, true, false, not, ◌&&◌, Option, none, some, List, [], ◌∷◌, ◌++◌, ℤ,
  pos, sub_ℕ, ◌==◌, if◌then◌else◌,
}
use mathlib.Core.Option
use Prim.Native.Char.{code}
use Prim.Native.String.{String}

-- `while (str[len]) len++;`, with `len` bytes passed.
strlen_from : ℕ → List ℕ → Option ℕ
strlen_from len [] = none
strlen_from len (c ∷ rest) =
    let more = strlen_from (len + 1) rest in if c == 0 then some len else more

unfoldable pub strlen : List ℕ → Option ℕ
unfolding strlen_from
strlen str = strlen_from 0 str

-- The difference of the first bytes that differ, or of the terminators.
unfoldable pub strcmp : List ℕ → List ℕ → Option ℤ
strcmp [] str2 = none
strcmp (a ∷ str1) [] = none
strcmp (a ∷ str1) (b ∷ str2) =
    let more = strcmp str1 str2 in if not (a == 0) && a == b then more else some (sub_ℕ a b)

-- At `n ≡ 0` no byte is read.
unfoldable pub strncmp : List ℕ → List ℕ → ℕ → Option ℤ
strncmp str1 str2 zero = some (pos 0)
strncmp [] str2 (suc n) = none
strncmp (a ∷ str1) [] (suc n) = none
strncmp (a ∷ str1) (b ∷ str2) (suc n) =
    let more = strncmp str1 str2 n in if not (a == 0) && a == b then more else some (sub_ℕ a b)

-- The bytes of a text literal, without its terminator.
abbrev pub codes : String → List ℕ
codes String.[] = []
codes (String.◌∷◌ c s) = code c ∷ codes s

-- A string literal as the object that the compiler lays out.
abbrev pub literal : String → List ℕ
literal s = codes s ++ 0 ∷ []

-- The text that a buffer holds: the bytes before the first terminator.
unfoldable pub text_of : List ℕ → Option (List ℕ)
text_of [] = none
text_of (c ∷ rest) =
    let more = text_of rest in if c == 0 then some [] else Option.map (λ t. c ∷ t) more

-- No byte of the list is a terminator.
abbrev pub NoNul : List ℕ → Type 0
NoNul [] = Unit
NoNul (c ∷ cs) = ((c == 0) ≡ false) × NoNul cs

-- Equality of texts, decided.
unfoldable pub text_eq : List ℕ → List ℕ → Bool
text_eq [] [] = true
text_eq [] (d ∷ t) = false
text_eq (c ∷ s) [] = false
text_eq (c ∷ s) (d ∷ t) = c == d && text_eq s t
