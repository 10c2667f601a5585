-- ===== src/Keyboard.antt =====
-- The keyboard driver, kernel/keyboard.c and kernel/keyboard.h.
pub mod Stream
pub mod Layout
pub mod Wait
pub mod Queued
use szym_os_kernel.Prelude.{
  ℕ, zero, suc, ◌*◌, Bool, true, false, not, ◌&&◌, ◌||◌, Option, none, some, List, [], ◌∷◌, ◌++◌,
  ltb, ◌==◌, if◌then◌else◌, bit_and, get_or, replicate,
}
use mathlib.Core.Option
use szym_os_kernel.CString.{codes}
use szym_os_kernel.Ports.{Ports}

-- `keyboard_map` and `keyboard_map_shifted`. The bytes behind the last one given are 0.
abbrev pub keyboard_map : List ℕ
keyboard_map =
    0 ∷ 27 ∷ codes "1234567890-="
    ++ (8 ∷ 9 ∷ codes "qwertyuiop[]"
        ++ (10 ∷ 0 ∷ codes "asdfghjkl;'`"
            ++ (0 ∷ codes "\\zxcvbnm,./"
                ++ (0 ∷ b'*' ∷ 0 ∷ b' ' ∷ replicate 16 0 ++ (b'-' ∷ 0 ∷ 0 ∷ 0 ∷ b'+' ∷ [])))))

abbrev pub keyboard_map_shifted : List ℕ
keyboard_map_shifted =
    0 ∷ 27 ∷ codes "!@#$%^&*()_+"
    ++ (8 ∷ 9 ∷ codes "QWERTYUIOP{}"
        ++ (10 ∷ 0 ∷ codes "ASDFGHJKL:\"~"
            ++ (0 ∷ codes "|ZXCVBNM<>?" ++ (0 ∷ b'*' ∷ 0 ∷ b' ' ∷ 0 ∷ []))))

-- The static variables.
pub record Keyboard : Type 0 where
  pub shift_pressed : Bool
  pub last_scancode : ℕ

abbrev pub data_port : ℕ
data_port = 0x60

abbrev pub status_port : ℕ
status_port = 0x64

-- `scancode & 0x80`
abbrev pub is_release : ℕ → Bool
is_release scancode = not (bit_and scancode 0x80 == 0)

-- `keyboard_map[scancode]` or its shifted form; 0 for no character.
unfoldable pub character : Bool → ℕ → ℕ
character true scancode = if ltb scancode 128 then get_or keyboard_map_shifted scancode 0 else 0
character false scancode = if ltb scancode 128 then get_or keyboard_map scancode 0 else 0

-- One scancode that has been read: the next state, and the character that `keyboard_getchar` finds
-- (0 where its loop goes on).
unfoldable pub on_scancode : ℕ → Keyboard → ℕ × Keyboard
on_scancode scancode k =
    let k' = record k { last_scancode = scancode } in
    if scancode == k.last_scancode
    then (0, k)
    else if scancode == 0x2A || scancode == 0x36
    then (0, record k' { shift_pressed = true })
    else if scancode == 0xAA || scancode == 0xB6
    then (0, record k' { shift_pressed = false })
    else if is_release scancode
    then (0, k')
    else (character k.shift_pressed scancode, k')

abbrev pub initial : Keyboard
initial = record { shift_pressed = false; last_scancode = 0 }

module _ {Device : Type 0} (ports : Ports Device) where
  -- `inb(KEYBOARD_STATUS_PORT) & 1`
  unfoldable pub keyboard_haskey : Device → Bool × Device
  keyboard_haskey d =
      let (status, d') = ports.inb status_port d in (not (bit_and status 1 == 0), d')

  -- The loop that empties the controller, for at most `fuel` bytes; `none` if there are more.
  unfoldable pub drain : ℕ → Device → Option Device
  drain zero d = none
  drain (suc fuel) d =
      let (ready, d') = keyboard_haskey d in
      let (byte, d'') = ports.inb data_port d' in
      let rest = drain fuel d'' in if ready then rest else some d'

  unfoldable pub keyboard_init : ℕ → Device → Option (Keyboard × Device)
  keyboard_init fuel d = Option.map (λ d'. (initial, d')) (drain fuel d)

  -- The endless loop of `keyboard_getchar`, for `fuel` polls; `none` if no key has given a
  -- character by then.
  unfoldable pub keyboard_getchar : ℕ → Keyboard → Device → Option (ℕ × Keyboard × Device)
  keyboard_getchar zero k d = none
  keyboard_getchar (suc fuel) k d =
      let (ready, d1) = keyboard_haskey d in
      let (scancode, d2) = ports.inb data_port d1 in
      let (c, k') = on_scancode scancode k in
      let idle = keyboard_getchar fuel k d1 in
      let again = keyboard_getchar fuel k' d2 in
      if ready then (if c == 0 then again else some (c, k', d2)) else idle
