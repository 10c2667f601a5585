-- ===== src/Shell/Line.antt =====
-- The line editor of `shell_run` in kernel/shell.c: what a character other than Enter does to
-- `command_buffer` and `command_index`, and the string that Enter makes of them.
pub mod Buffer
use szym_os_kernel.Prelude.{
  ℕ, zero, suc, ◌+◌, ◌-◌, ◌<◌, ◌≤◌, ◌≡◌, refl, ap, ◌∙◌, inl, inr, true, false, Bool-cases, some,
  none, Option, ◌>>=◌, ℤ, pos, negsuc, ltb_ℤ, bind_some, List, [], ◌∷◌, ◌++◌, arith, ltb, ◌==◌,
  if◌then◌else◌, length, take, drop, set, length-set, length-take, length-append, sym, ltb→lt,
}
use szym_os_kernel.CString.{NoNul, text_of}
use szym_os_kernel.Console.{Call, putchar}
use szym_os_kernel.Shell.Line.Buffer.{
  NoNul-snoc, NoNul-take, take-set_end, take-take, text_of-set_end,
}

abbrev pub max_command_length : ℕ
max_command_length = 256

pub record Line : Type 0 where
  pub command_buffer : List ℕ
  pub command_index : ℤ

-- `command_index--` and `command_index++`
abbrev pred_ℤ : ℤ → ℤ
pred_ℤ (pos zero) = negsuc 0
pred_ℤ (pos (suc n)) = pos n
pred_ℤ (negsuc n) = negsuc (n + 1)

abbrev suc_ℤ : ℤ → ℤ
suc_ℤ (pos n) = pos (n + 1)
suc_ℤ (negsuc zero) = pos 0
suc_ℤ (negsuc (suc n)) = negsuc n

-- `buffer[index] = c`; outside the buffer there is no result.
unfoldable set_at : List ℕ → ℤ → ℕ → Option (List ℕ)
set_at buffer (pos i) c = if ltb i (length buffer) then some (set buffer i c) else none
set_at buffer (negsuc i) c = none

-- `'\b'`: the line and what is printed.
unfoldable backspace : Line → Line × List Call
backspace l =
    if ltb_ℤ (pos 0) l.command_index
    then (
      record l { command_index = pred_ℤ l.command_index },
      putchar 8 ∷ putchar b' ' ∷ putchar 8 ∷ [],
    )
    else (l, [])

-- A character that `keyboard_getchar` gives, other than Enter: the line and what is printed.
unfoldable pub edit : ℕ → Line → Option (Line × List Call)
unfolding backspace set_at
edit c l =
    if c == 0
    then some (l, [])
    else if c == 8
    then some (backspace l)
    else if c == 9
    then some (l, [])
    else if ltb_ℤ l.command_index (pos (max_command_length - 1))
    then (set_at l.command_buffer l.command_index c >>= λ buffer.
        some (
          record { command_buffer = buffer; command_index = suc_ℤ l.command_index },
          putchar c ∷ [],
        ))
    else some (l, [])

-- The characters of a line, one after the other.
unfoldable pub edit_all : List ℕ → Line → Option Line
unfolding edit
edit_all [] l = some l
edit_all (c ∷ cs) l = edit c l >>= λ r. edit_all cs r.0

-- `command_buffer[command_index] = '\0'`: the buffer that is then executed.
unfoldable pub entered : Line → Option (List ℕ)
unfolding set_at
entered l = set_at l.command_buffer l.command_index 0

-- The line that the user means: what has been typed, a backspace taking the last character back, a
-- tab ignored, and nothing beyond 255 characters.
abbrev pub without_last : List ℕ → List ℕ
without_last t = take (length t - 1) t

unfoldable pub type_key : ℕ → List ℕ → List ℕ
type_key c t =
    if c == 0
    then t
    else if c == 8
    then without_last t
    else if c == 9
    then t
    else if ltb (length t) 255
    then t ++ c ∷ []
    else t

unfoldable pub typed : List ℕ → List ℕ → List ℕ
unfolding type_key
typed [] t = t
typed (c ∷ cs) t = typed cs (type_key c t)

-- The buffer holds the text up to the index, which leaves room for the terminator.
pub record Shows (t : List ℕ) (l : Line) : Type 0 where
  pub size : length l.command_buffer ≡ max_command_length
  pub index : l.command_index ≡ pos (length t)
  pub room : length t < max_command_length
  pub text : take (length t) l.command_buffer ≡ t
  pub no_nul : NoNul t

backspace-Shows : (t : List ℕ) (l : Line) → Shows t l → Shows (without_last t) (backspace l).0
unfolding backspace
backspace-Shows [] l s =
    let stays : ltb_ℤ (pos 0) l.command_index ≡ false = rw (s.index) refl in rw stays s
backspace-Shows (x ∷ t) l s =
    let goes : ltb_ℤ (pos 0) l.command_index ≡ true = rw (s.index) (ground arith) in
    let one : length (x ∷ t) - 1 ≡ length t = omega arith in
    let kept : without_last (x ∷ t) ≡ take (length t) (x ∷ t) = rw one refl in
    let size : length (take (length t) (x ∷ t)) ≡ length t =
      omega (arith, length-take (length t) (x ∷ t)) in
    rw (goes, kept)
      (record {
        size = s.size;
        index = rw (s.index, size) refl;
        room = omega (arith, s.room);
        text =
            ap (λ n. take n l.command_buffer) size
            ∙ (sym (take-take (length t) (suc (length t)) l.command_buffer (omega arith))
                ∙ ap (λ b. take (length t) b) s.text);
        no_nul = NoNul-take (length t) (x ∷ t) s.no_nul;
      })

-- A character that is no other key is put behind the text, as long as there is room.
pub edit-printed :
    (c : ℕ) (t : List ℕ) (l : Line)
    → Shows t l
    → length t < 255
    → (c == 0) ≡ false
    → (c == 8) ≡ false
    → (c == 9) ≡ false
    → (l' : Line) × (edit c l ≡ some (l', putchar c ∷ [])) × Shows (t ++ c ∷ []) l'
unfolding edit set_at
edit-printed c t l s low e f g =
    let below : ltb_ℤ (pos (length t)) (pos 255) ≡ true = ground arith in
    let inside : ltb (length t) (length l.command_buffer) ≡ true = ground (arith, s.size) in
    (
      record {
        command_buffer = set l.command_buffer (length t) c;
        command_index = pos (length t + 1);
      },
      rw (e, f, g, s.index, below, inside) refl,
      record {
        size = length-set l.command_buffer (length t) c ∙ s.size;
        index = ap pos (omega (arith, length-append t (c ∷ [])));
        room = omega (arith, length-append t (c ∷ []));
        text = take-set_end t l.command_buffer c s.text (omega (arith, s.room, s.size));
        no_nul = NoNul-snoc t c s.no_nul e;
      },
    )

edit-Shows :
    (c : ℕ) (t : List ℕ) (l : Line)
    → Shows t l
    → (r : Line × List Call) × (edit c l ≡ some r) × Shows (type_key c t) r.0
unfolding edit type_key
edit-Shows c t l s = elim (Bool-cases (c == 0)) [
  | inl e ↦ ((l, []), rw e refl, rw e s)
  | inr e ↦ elim (Bool-cases (c == 8)) [
    | inl f ↦ (backspace l, rw (e, f) refl, rw (e, f) (backspace-Shows t l s))
    | inr f ↦ elim (Bool-cases (c == 9)) [
      | inl g ↦ ((l, []), rw (e, f, g) refl, rw (e, f, g) s)
      | inr g ↦ elim (Bool-cases (ltb (length t) 255)) [
        | inl h ↦
            let (l', edits, shows) = edit-printed c t l s (ltb→lt _ _ h) e f g in
            ((l', putchar c ∷ []), edits, rw (e, f, g, h) shows)
        | inr h ↦
            let full : ltb_ℤ (pos (length t)) (pos 255) ≡ false = ground arith in
            ((l, []), rw (e, f, g, s.index, full) refl, rw (e, f, g, h) s)
      ]
    ]
  ]
]

-- Enter terminates the text.
pub entered-Shows :
    (t : List ℕ) (l : Line)
    → Shows t l
    → (buffer : List ℕ) × (entered l ≡ some buffer)
      × (text_of buffer ≡ some t)
      × (length buffer ≡ max_command_length)
unfolding entered set_at
entered-Shows t l s =
    let inside : ltb (length t) (length l.command_buffer) ≡ true = ground (arith, s.size, s.room) in
    (
      set l.command_buffer (length t) 0,
      rw (s.index, inside) refl,
      text_of-set_end t l.command_buffer s.text (omega (arith, s.room, s.size)) s.no_nul,
      length-set l.command_buffer (length t) 0 ∙ s.size,
    )

-- Whatever characters are typed, no byte is written outside the 256 bytes of the buffer and the index
-- leaves room for the terminator: from a line that shows a text, the editor comes to a line that
-- shows what has been typed behind it, and Enter makes the terminated string of it.
pub edit_all-Shows :
    (cs t : List ℕ) (l : Line)
    → Shows t l
    → (l' : Line) × (edit_all cs l ≡ some l')
      × Shows (typed cs t) l'
      × (buffer : List ℕ) × (entered l' ≡ some buffer)
      × (text_of buffer ≡ some (typed cs t))
unfolding edit_all typed
edit_all-Shows [] t l s =
    let (buffer, ends, text, size) = entered-Shows t l s in (l, refl, s, buffer, ends, text)
edit_all-Shows (c ∷ cs) t l s =
    let (r, edits, shows) = edit-Shows c t l s in
    let (l', all, is, buffer, ends, text) = edit_all-Shows cs (type_key c t) r.0 shows in
    (l', bind_some _ edits ∙ all, is, buffer, ends, text)
