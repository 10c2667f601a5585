-- ===== src/Keyboard/Stream.antt =====
-- What the driver makes of a stream of scancodes.
use szym_os_kernel.Prelude.{
  ℕ, zero, suc, ◌++◌, ◌+◌, ◌<◌, ◌≡◌, refl, ap, ◌∙◌, Bool, true, false, not, ◌&&◌, ◌||◌, List, [],
  ◌∷◌, arith, ◌==◌, if◌then◌else◌, all_below, all_below_sound, replicate,
}
use szym_os_kernel.Keyboard.{Keyboard, is_release, character, on_scancode}

-- The characters that a stream of scancodes gives, and the state after it.
unfoldable pub decode : List ℕ → Keyboard → List ℕ × Keyboard
decode [] k = ([], k)
decode (s ∷ ss) k =
    let (c, k') = on_scancode s k in
    let (cs, k'') = decode ss k' in (if c == 0 then cs else c ∷ cs, k'')

-- A key that is not shift and has a character.
abbrev pub typeable : Bool → ℕ → Bool
typeable shift s = not (s == 0x2A) && not (s == 0x36) && not (character shift s == 0)

abbrev key_ok : Bool → ℕ → Bool
key_ok shift s =
    not (is_release s) && is_release (s + 128) && not (s + 128 == 0xAA) && not (s + 128 == 0xB6)
    || not (typeable shift s)

key_table : (shift : Bool) → all_below 128 (key_ok shift) ≡ true
unfolding all_below character replicate
key_table true = refl
key_table false = refl

-- A key is pressed and released.
pub tap_one :
    (s : ℕ) (k : Keyboard)
    → s < 128
    → typeable k.shift_pressed s ≡ true
    → (s == k.last_scancode) ≡ false
    → (on_scancode s k ≡ (character k.shift_pressed s, record k { last_scancode = s }))
      × (on_scancode (s + 128) (record k { last_scancode = s })
          ≡ (0, record k { last_scancode = s + 128 }))
unfolding on_scancode
tap_one s k h t new =
    let ok = all_below_sound 128 (key_ok k.shift_pressed) s (key_table k.shift_pressed) h in
    (ground arith, ground arith)

decode-again : (s : ℕ) (ss : List ℕ) (k : Keyboard) → decode (s ∷ s ∷ ss) k ≡ decode (s ∷ ss) k
unfolding decode on_scancode
decode-again s ss k = ground arith

-- A scancode that the controller repeats any number of times while a key is held types what the
-- first one types, and leaves the same state.
pub decode-repeat :
    (n s : ℕ) (ss : List ℕ) (k : Keyboard)
    → decode (replicate (suc n) s ++ ss) k ≡ decode (s ∷ ss) k
unfolding replicate
decode-repeat zero s ss k = refl
decode-repeat (suc n) s ss k = decode-again s (replicate n s ++ ss) k ∙ decode-repeat n s ss k

-- The shift state that a stream leaves by itself: that of the last press or release of a shift key.
unfoldable pub shift_step : ℕ → Bool → Bool
shift_step s b =
    if s == 0x2A || s == 0x36 then true else if s == 0xAA || s == 0xB6 then false else b

unfoldable pub shift_after : List ℕ → Bool → Bool
shift_after [] b = b
shift_after (s ∷ ss) b = shift_after ss (shift_step s b)

on_scancode-shift :
    (s : ℕ) (k : Keyboard)
    → shift_step k.last_scancode k.shift_pressed ≡ k.shift_pressed
    → let k' = (on_scancode s k).1 in
      (k'.shift_pressed ≡ shift_step s k.shift_pressed)
      × (shift_step k'.last_scancode k'.shift_pressed ≡ k'.shift_pressed)
unfolding on_scancode shift_step
on_scancode-shift s k h = ground arith

-- Though repeated scancodes are passed over, the shift state follows the shift keys: from a state
-- that agrees with its last scancode, it is that of the last press or release of a shift key, and the
-- one before where there is none.
pub decode-shift :
    (ss : List ℕ) (k : Keyboard)
    → shift_step k.last_scancode k.shift_pressed ≡ k.shift_pressed
    → (decode ss k).1.shift_pressed ≡ shift_after ss k.shift_pressed
unfolding decode shift_after
decode-shift [] k h = refl
decode-shift (s ∷ ss) k h =
    let (same, agrees) = on_scancode-shift s k h in
    decode-shift ss (on_scancode s k).1 agrees ∙ ap (shift_after ss) same
