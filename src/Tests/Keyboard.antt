-- ===== src/Tests/Keyboard.antt =====
-- kernel/keyboard.c on streams of scancodes.
use szym_os_kernel.Prelude.{
  some, ℕ, ◌≡◌, refl, false, List, [], ◌∷◌, arith, ◌==◌, if◌then◌else◌, replicate,
}
use szym_os_kernel.CString.{codes}
use szym_os_kernel.Ports.{Ports}
use szym_os_kernel.Keyboard.{
  Keyboard, character, on_scancode, initial, keyboard_init, keyboard_getchar, data_port,
}
use szym_os_kernel.Keyboard.Stream.{decode, shift_step, shift_after, decode-shift}
use szym_os_kernel.Keyboard.Layout.{
  Stroke, alone, left, right, scancodes, spell, symbol, key_with, decode-spell,
}
use szym_os_kernel.Keyboard.Wait.{Controller, Gives, keyboard_getchar-decode, keyboard_init-empties}

-- A controller that is nothing but its queue.
abbrev pub first : List ℕ → ℕ
first [] = 0
first (s ∷ ss) = s

abbrev pub others : List ℕ → List ℕ
others [] = []
others (s ∷ ss) = ss

abbrev pub is_waiting : List ℕ → ℕ
is_waiting [] = 0
is_waiting (s ∷ ss) = 1

abbrev pub queue_ports : Ports (List ℕ)
queue_ports = record {
  inb = λ port d. if port == data_port then (first d, others d) else (is_waiting d, d);
  inw = λ port d. (0, d);
  outb = λ port value d. d;
  outw = λ port value d. d;
}

unfoldable pub queue_law : Controller queue_ports
queue_law = record {
  queue = λ d. d;
  status_keeps = λ d. refl;
  status_empty = λ d e. rw e;
  status_ready = λ d s ss e. rw e;
  reads_first = λ d s ss e. (rw e, rw e);
}

abbrev pub idle : Keyboard
idle = record { shift_pressed = false; last_scancode = 0xB6 }

-- Shift is held for the `h` of `Hi`.
typed_hi : (decode (0x2A ∷ 0x23 ∷ 0x23 ∷ 0xA3 ∷ 0xAA ∷ 0x17 ∷ 0x97 ∷ []) idle).0 ≡ codes "Hi"
unfolding decode on_scancode character replicate
typed_hi = refl

-- `Hi!`: left shift and a long `h`, `i`, right shift and `1`.
abbrev strokes : List Stroke
strokes =
    record { held = left; code = 0x23; repeats = 2 }
    ∷ record { held = alone; code = 0x17; repeats = 0 }
    ∷ record { held = right; code = 0x02; repeats = 1 }
    ∷ []

decode-spell_example :
    ((decode (scancodes strokes) idle).0 ≡ codes "Hi!")
    × ((decode (scancodes strokes) idle).1.shift_pressed ≡ false)
unfolding spell symbol key_with
decode-spell_example = decode-spell strokes (codes "Hi!") idle refl refl (omega arith)

keyboard_getchar-decode_example :
    Gives queue_ports queue_law b'h'
      (codes "i")
      (record { shift_pressed = false; last_scancode = 0x97 })
      (keyboard_getchar queue_ports 5 idle (0x23 ∷ 0xA3 ∷ 0x17 ∷ 0x97 ∷ []))
unfolding decode on_scancode character replicate queue_law
keyboard_getchar-decode_example =
    keyboard_getchar-decode queue_ports queue_law (0x23 ∷ 0xA3 ∷ 0x17 ∷ 0x97 ∷ []) 5 idle
      (record { shift_pressed = false; last_scancode = 0x97 }) (0x23 ∷ 0xA3 ∷ 0x17 ∷ 0x97 ∷ []) b'h'
      (codes "i") refl (omega arith) refl

keyboard_init-empties_example :
    (d' : List ℕ) × (keyboard_init queue_ports 4 (0x23 ∷ 0xA3 ∷ 0x2A ∷ []) ≡ some (initial, d'))
    × (Controller.queue queue_law d' ≡ [])
unfolding queue_law
keyboard_init-empties_example =
    keyboard_init-empties queue_ports queue_law 4 (0x23 ∷ 0xA3 ∷ 0x2A ∷ []) (omega arith)

decode-shift_example :
    (decode (0x2A ∷ 0x2A ∷ 0x23 ∷ 0xAA ∷ 0x17 ∷ 0x36 ∷ []) idle).1.shift_pressed
    ≡ shift_after (0x2A ∷ 0x2A ∷ 0x23 ∷ 0xAA ∷ 0x17 ∷ 0x36 ∷ []) false
unfolding shift_step
decode-shift_example = decode-shift (0x2A ∷ 0x2A ∷ 0x23 ∷ 0xAA ∷ 0x17 ∷ 0x36 ∷ []) idle refl
