-- ===== src/Keyboard/Queued.antt =====
-- A user at the keyboard: what the controller holds, as the characters that it will type.
use szym_os_kernel.Prelude.{ℕ, ◌<◌, ◌≡◌, refl, some, List, ◌∷◌, arith, length}
use szym_os_kernel.Ports.{Ports}
use szym_os_kernel.Keyboard.{Keyboard, keyboard_getchar}
use szym_os_kernel.Keyboard.Stream.{decode}
use szym_os_kernel.Keyboard.Wait.{Controller, keyboard_getchar-decode, keyboard_getchar-queue}

module _ {Device : Type 0} (ports : Ports Device) (law : Controller ports) (polls : ℕ)
    (last : Keyboard) where
  open law use {queue}

  -- The controller holds scancodes that will type the given characters, and they are fewer than the
  -- polls that a call of `keyboard_getchar` makes.
  pub record Queued (cs : List ℕ) (k : Keyboard) (d : Device) : Type 0 where
    pub types : decode (queue d) k ≡ (cs, last)
    pub fewer : length (queue d) < polls

  -- What a call of `keyboard_getchar` finds.
  pub record Found (c : ℕ) (cs : List ℕ) (k : Keyboard) (d : Device) : Type 0 where
    pub keyboard : Keyboard
    pub device : Device
    pub found : keyboard_getchar ports polls k d ≡ some (c, keyboard, device)
    pub left : Queued cs keyboard device

  pub keyboard_getchar-Found :
      (c : ℕ) (cs : List ℕ) (k : Keyboard) (d : Device) → Queued (c ∷ cs) k d → Found c cs k d
  keyboard_getchar-Found c cs k d q =
      let (k', d', finds, rest) =
        keyboard_getchar-decode ports law (queue d) polls k last d c cs refl q.fewer q.types in
      let shrinks = keyboard_getchar-queue ports law (queue d) polls k k' d d' c refl finds in
      record {
        keyboard = k';
        device = d';
        found = finds;
        left = record { types = rest; fewer = omega (arith, shrinks, q.fewer) };
      }
