-- ===== src/Keyboard/Layout.antt =====
-- What kernel/keyboard.c types on a keyboard of the US layout.
use szym_os_kernel.Prelude.{
  ℕ, suc, ◌+◌, ◌<◌, ◌≡◌, refl, sym, ap, ◌∙◌, inl, inr, Bool, true, false, ◌&&◌, Bool-cases, Option,
  none, some, List, [], ◌∷◌, ◌++◌, arith, ltb, ◌==◌, ==_iff, if◌then◌else◌, ◌>>=◌, replicate,
  eq_of_some, >>=-eq-some,
}
use szym_os_kernel.CString.{codes}
use szym_os_kernel.Keyboard.{Keyboard, character, on_scancode}
use szym_os_kernel.Keyboard.Stream.{decode, typeable, tap_one, decode-repeat}

-- The keys of the US layout that print, with the scancode of each (set 1) and its two characters.
pub record Key : Type 0 where
  pub code : ℕ
  pub plain : ℕ
  pub shifted : ℕ

abbrev pub row : ℕ → List ℕ → List ℕ → List Key
row code (p ∷ ps) (s ∷ ss) = record { code = code; plain = p; shifted = s } ∷ row (suc code) ps ss
row code _ _ = []

abbrev pub us_layout : List Key
us_layout =
    row 0x02 (codes "1234567890-=") (codes "!@#$%^&*()_+")
    ++ (row 0x10 (codes "qwertyuiop[]") (codes "QWERTYUIOP{}")
        ++ (row 0x1E (codes "asdfghjkl;'`") (codes "ASDFGHJKL:\"~")
            ++ (row 0x2B (codes "\\zxcvbnm,./") (codes "|ZXCVBNM<>?")
                ++ row 0x39 (codes " ") (codes " "))))

unfoldable pub key_with : ℕ → List Key → Option Key
key_with c [] = none
key_with c (key ∷ keys) = if key.code == c then some key else key_with c keys

-- One key is struck, alone or with a shift key held, long enough to be repeated a number of times.
pub data Held : Type 0 where
  alone left right : Held

pub record Stroke : Type 0 where
  pub held : Held
  pub code : ℕ
  pub repeats : ℕ

-- The scancodes of a stroke: those of the key as often as they are sent, and its release, between the
-- press and the release of the shift key.
abbrev pub strike : ℕ → ℕ → List ℕ → List ℕ
strike repeats code more = replicate (suc repeats) code ++ (code + 128) ∷ more

abbrev pub with_held : Held → ℕ → ℕ → List ℕ → List ℕ
with_held alone repeats code more = strike repeats code more
with_held left repeats code more = 0x2A ∷ strike repeats code (0xAA ∷ more)
with_held right repeats code more = 0x36 ∷ strike repeats code (0xB6 ∷ more)

abbrev pub scancodes : List Stroke → List ℕ
scancodes [] = []
scancodes (x ∷ xs) = with_held x.held x.repeats x.code (scancodes xs)

-- What is printed on the keys that are struck; nothing for a key that is not of the layout.
abbrev pub is_shifted : Held → Bool
is_shifted alone = false
is_shifted _ = true

unfoldable pub symbol : Bool → ℕ → Option ℕ
symbol shifted code =
    key_with code us_layout >>= λ key. some (if shifted then key.shifted else key.plain)

unfoldable pub spell : List Stroke → Option (List ℕ)
spell [] = some []
spell (x ∷ xs) = symbol (is_shifted x.held) x.code >>= λ c. spell xs >>= λ cs. some (c ∷ cs)

abbrev key_ok : Key → Bool
key_ok key =
    ltb key.code 128
    && (typeable false key.code
        && (typeable true key.code
            && (character false key.code == key.plain && character true key.code == key.shifted)))

abbrev all_ok : List Key → Bool
all_ok [] = true
all_ok (key ∷ keys) = key_ok key && all_ok keys

layout_ok : all_ok us_layout ≡ true
unfolding character replicate
layout_ok = refl

key_with-ok :
    (c : ℕ) (keys : List Key) (key : Key)
    → all_ok keys ≡ true
    → key_with c keys ≡ some key
    → (key_ok key ≡ true) × (key.code ≡ c)
unfolding key_with
key_with-ok c [] key ok at = absurd cc
key_with-ok c (x ∷ keys) key ok at = elim (Bool-cases (x.code == c)) [
  | inl e ↦
      let same : x ≡ key = eq_of_some (sym (rw e refl) ∙ at) in
      rw (← same) (ground arith, (==_iff _ _).0 e)
  | inr e ↦ key_with-ok c keys key (ground arith) (rw e at at)
]

-- The tables of the driver have what is printed on the keys.
symbol-character :
    (shifted : Bool) (code c : ℕ)
    → symbol shifted code ≡ some c
    → (code < 128) × (typeable shifted code ≡ true) × (character shifted code ≡ c)
unfolding symbol
symbol-character true code c h =
    let (key, at, is) = >>=-eq-some (key_with code us_layout) (λ key. some (key.shifted)) h in
    let (ok, same) = key_with-ok code us_layout key layout_ok at in
    let printed : key.shifted ≡ c = eq_of_some is in
    rw (← same, ← printed) (ground arith, ground arith, ground arith)
symbol-character false code c h =
    let (key, at, is) = >>=-eq-some (key_with code us_layout) (λ key. some (key.plain)) h in
    let (ok, same) = key_with-ok code us_layout key layout_ok at in
    let printed : key.plain ≡ c = eq_of_some is in
    rw (← same, ← printed) (ground arith, ground arith, ground arith)

decode-strike :
    (n code c : ℕ) (more : List ℕ) (k : Keyboard)
    → symbol k.shift_pressed code ≡ some c
    → (code == k.last_scancode) ≡ false
    → let rest = decode more (record k { last_scancode = code + 128 }) in
      decode (strike n code more) k ≡ (c ∷ rest.0, rest.1)
unfolding decode
decode-strike n code c more k h new =
    let (low, types, same) = symbol-character k.shift_pressed code c h in
    let (press, release) = tap_one code k low types new in
    let some_character : (character k.shift_pressed code == 0) ≡ false = ground arith in
    decode-repeat n code ((code + 128) ∷ more) k ∙ rw (press, release, some_character, same) refl

-- The shift keys themselves.
decode-shift_key :
    (press release n code c : ℕ) (more : List ℕ) (k : Keyboard)
    → ((k' : Keyboard)
        → (press == k'.last_scancode) ≡ false
        → on_scancode press k' ≡ (0, record { shift_pressed = true; last_scancode = press }))
    → ((k' : Keyboard)
        → (release == k'.last_scancode) ≡ false
        → on_scancode release k' ≡ (0, record { shift_pressed = false; last_scancode = release }))
    → symbol true code ≡ some c
    → (press == k.last_scancode) ≡ false
    → (code == press) ≡ false
    → (release == code + 128) ≡ false
    → let rest = decode more (record { shift_pressed = false; last_scancode = release }) in
      decode (press ∷ strike n code (release ∷ more)) k ≡ (c ∷ rest.0, rest.1)
unfolding decode
decode-shift_key press release n code c more k down up h new differs apart =
    let k1 : Keyboard = record { shift_pressed = true; last_scancode = press } in
    rw (down k new) (
      decode-strike n code c (release ∷ more) k1 h differs
      ∙ rw (up (record { shift_pressed = true; last_scancode = code + 128 }) apart) refl)

-- What a stroke has typed, and that the driver is ready for the next one.
record Struck (c : ℕ) (codes more : List ℕ) (k : Keyboard) : Type 0 where
  next : Keyboard
  types : decode codes k ≡ (c ∷ (decode more next).0, (decode more next).1)
  unshifted : next.shift_pressed ≡ false
  released : 127 < next.last_scancode

stroke-Struck :
    (x : Held) (n code c : ℕ) (more : List ℕ) (k : Keyboard)
    → symbol (is_shifted x) code ≡ some c
    → k.shift_pressed ≡ false
    → 127 < k.last_scancode
    → Struck c (with_held x n code more) more k
unfolding on_scancode
stroke-Struck alone n code c more k h up ready =
    let (low, types, same) = symbol-character false code c h in
    record {
      next = record k { last_scancode = code + 128 };
      types = decode-strike n code c more k (rw up h) (ground arith);
      unshifted = up;
      released = omega arith;
    }
stroke-Struck left n code c more k h up ready =
    let (low, types, same) = symbol-character true code c h in
    record {
      next = record { shift_pressed = false; last_scancode = 0xAA };
      types =
          decode-shift_key 0x2A 0xAA n code c more k (λ k' e. ground arith) (λ k' e. ground arith) h
            (ground arith) (ground arith) (ground arith);
      unshifted = refl;
      released = omega arith;
    }
stroke-Struck right n code c more k h up ready =
    let (low, types, same) = symbol-character true code c h in
    record {
      next = record { shift_pressed = false; last_scancode = 0xB6 };
      types =
          decode-shift_key 0x36 0xB6 n code c more k (λ k' e. ground arith) (λ k' e. ground arith) h
            (ground arith) (ground arith) (ground arith);
      unshifted = refl;
      released = omega arith;
    }

-- Let printing keys of a US keyboard be struck one after the other, each alone or while the left or the
-- right shift key is held, and each repeated by the keyboard any number of times. From a state in which
-- no shift key is pressed and the last scancode was a release, the driver makes of the scancodes
-- exactly the characters printed on the keys, each once: the upper ones of the keys that are struck
-- with shift, and the lower ones of the others. No shift key is pressed in the end.
pub decode-spell :
    (xs : List Stroke) (cs : List ℕ) (k : Keyboard)
    → spell xs ≡ some cs
    → k.shift_pressed ≡ false
    → 127 < k.last_scancode
    → ((decode (scancodes xs) k).0 ≡ cs) × ((decode (scancodes xs) k).1.shift_pressed ≡ false)
unfolding spell decode
decode-spell [] cs k h up ready = (eq_of_some h, up)
decode-spell (x ∷ xs) cs k h up ready =
    let (c, is, later) =
      >>=-eq-some (symbol (is_shifted x.held) x.code) (λ c. spell xs >>= λ cs. some (c ∷ cs)) h in
    let (cs', spells, all) = >>=-eq-some (spell xs) (λ cs. some (c ∷ cs)) later in
    let s = stroke-Struck x.held x.repeats x.code c (scancodes xs) k is up ready in
    let (typed, end) = decode-spell xs cs' s.next spells s.unshifted s.released in
    let whole : c ∷ cs' ≡ cs = eq_of_some all in
    rw (s.types, ← whole) (ap (λ (t : List ℕ). c ∷ t) typed, end)
