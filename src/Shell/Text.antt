-- ===== src/Shell/Text.antt =====
-- How kernel/shell.c walks over a command. A pointer into a string is the list of the bytes from it
-- to the end of the object; `none` is a read past that object.
use szym_os_kernel.Prelude.{
  ℕ, zero, suc, ◌≡◌, refl, Bool, true, false, ◌||◌, Option, none, some, List, [], ◌∷◌, ◌++◌, arith,
  ◌==◌, if◌then◌else◌, ◌≤◌, length,
}
use mathlib.Core.Option

-- `starts_with`
unfoldable pub starts_with : List ℕ → List ℕ → Option Bool
starts_with str [] = none
starts_with str (p ∷ prefix) = if p == 0 then some true else elim str [
  | [] ↦ none
  | a ∷ rest ↦ let more = starts_with rest prefix in if a == p then more else some false
]

-- `while (*p == ' ') p++;`
unfoldable pub skip_spaces : List ℕ → Option (List ℕ)
skip_spaces [] = none
skip_spaces (c ∷ p) = let rest = skip_spaces p in if c == b' ' then rest else some (c ∷ p)

-- The loop of `cmd_write` that takes a file name, with room for the given number of bytes: the bytes
-- that it stores, and the pointer behind them.
unfoldable pub take_word : ℕ → List ℕ → Option (List ℕ × List ℕ)
take_word room [] = none
take_word zero (c ∷ p) = some ([], c ∷ p)
take_word (suc room) (c ∷ p) =
    let rest = Option.map (λ (r : List ℕ × List ℕ). (c ∷ r.0, r.1)) (take_word room p) in
    if c == 0 || c == b' ' then some ([], c ∷ p) else rest

-- The bytes are of a word: no terminator, no space.
abbrev pub IsWord : List ℕ → Type 0
IsWord [] = Unit
IsWord (c ∷ cs) = ((c == 0) ≡ false) × ((c == b' ') ≡ false) × IsWord cs

-- Spaces in front are passed over.
abbrev pub Ends : ℕ → Type 0
Ends c = (c == 0 || c == b' ') ≡ true

pub take_word-word :
    (room c : ℕ) (w p : List ℕ)
    → IsWord w
    → length w ≤ room
    → Ends c
    → take_word room (w ++ c ∷ p) ≡ some (w, c ∷ p)
unfolding take_word
take_word-word zero c [] p h fits e = refl
take_word-word (suc room) c [] p h fits e = rw e
take_word-word zero c (x ∷ w) p h fits e = absurd (omega arith)
take_word-word (suc room) c (x ∷ w) p h fits e =
    rw (h.0, h.1, take_word-word room c w p h.2 (omega arith) e)

pub skip_spaces-done :
    (c : ℕ) (p : List ℕ) → (c == b' ') ≡ false → skip_spaces (c ∷ p) ≡ some (c ∷ p)
unfolding skip_spaces
skip_spaces-done c p h = rw h

pub skip_spaces-space : (p : List ℕ) → skip_spaces (b' ' ∷ p) ≡ skip_spaces p
unfolding skip_spaces
skip_spaces-space p = refl
