-- ===== src/Keyboard/Wait.antt =====
-- What `keyboard_getchar` returns.
use szym_os_kernel.Prelude.{
  refl, ℕ, zero, suc, ◌<◌, ◌≡◌, sym, ◌∙◌, inl, inr, true, false, Option, some, List, [], ◌∷◌, arith,
  ◌==◌, Bool-cases, bit_and, length, ap, ◌≤◌, eq_of_some,
}
use szym_os_kernel.Ports.{Ports}
use szym_os_kernel.Keyboard.{
  Keyboard, initial, on_scancode, keyboard_haskey, drain, keyboard_init, keyboard_getchar,
  status_port, data_port,
}
use szym_os_kernel.Keyboard.Stream.{decode}

-- The controller, as its documentation has it: it holds a queue of scancodes, says in bit 0 of its
-- status whether there is one, and hands out the first by a read of its data port.
pub record Controller {Device : Type 0} (ports : Ports Device) : Type 0 where
  pub queue : Device → List ℕ
  pub status_keeps : (d : Device) → queue (ports.inb status_port d).1 ≡ queue d
  pub status_empty : (d : Device) → queue d ≡ [] → bit_and (ports.inb status_port d).0 1 ≡ 0
  pub status_ready :
      (d : Device) (s : ℕ) (ss : List ℕ)
      → queue d ≡ s ∷ ss
      → bit_and (ports.inb status_port d).0 1 ≡ 1
  pub reads_first :
      (d : Device) (s : ℕ) (ss : List ℕ)
      → queue d ≡ s ∷ ss
      → ((ports.inb data_port d).0 ≡ s) × (queue (ports.inb data_port d).1 ≡ ss)

decode-silent :
    (s : ℕ) (ss : List ℕ) (k : Keyboard)
    → ((on_scancode s k).0 == 0) ≡ true
    → decode (s ∷ ss) k ≡ decode ss (on_scancode s k).1
unfolding decode
decode-silent s ss k e = rw e

decode-typed :
    (s : ℕ) (ss : List ℕ) (k last : Keyboard) (c : ℕ) (cs : List ℕ)
    → ((on_scancode s k).0 == 0) ≡ false
    → decode (s ∷ ss) k ≡ (c ∷ cs, last)
    → ((on_scancode s k).0 ≡ c) × (decode ss (on_scancode s k).1 ≡ (cs, last))
unfolding decode
decode-typed s ss k last c cs e h = ground arith

module _ {Device : Type 0} (ports : Ports Device) (law : Controller ports) where
  open law use {queue, status_keeps, status_empty, status_ready, reads_first}

  -- What a call owes for a stream that types `c` first.
  abbrev pub Gives : ℕ → List ℕ → Keyboard → Option (ℕ × Keyboard × Device) → Type 0
  Gives c cs last r =
      (k' : Keyboard) × (d' : Device) × (r ≡ some (c, k', d')) × (decode (queue d') k' ≡ (cs, last))

  -- If the controller behaves as documented and the scancodes that it holds type the characters
  -- `c ∷ cs`, then `keyboard_getchar` returns `c` within one poll for each scancode and one more, and
  -- what the controller holds after it types `cs`.
  pub keyboard_getchar-decode :
      (ss : List ℕ) (fuel : ℕ) (k last : Keyboard) (d : Device) (c : ℕ) (cs : List ℕ)
      → queue d ≡ ss
      → length ss < fuel
      → decode ss k ≡ (c ∷ cs, last)
      → Gives c cs last (keyboard_getchar ports fuel k d)
  unfolding keyboard_getchar keyboard_haskey decode
  keyboard_getchar-decode [] fuel k last d c cs q f h = cc
  keyboard_getchar-decode (s ∷ ss) zero k last d c cs q f h = absurd (omega arith)
  keyboard_getchar-decode (s ∷ ss) (suc fuel) k last d c cs q f h =
      let d1 = (ports.inb status_port d).1 in
      let q1 : queue d1 ≡ s ∷ ss = status_keeps d ∙ q in
      let (byte, q2) = reads_first d1 s ss q1 in
      let d2 = (ports.inb data_port d1).1 in
      elim (Bool-cases ((on_scancode s k).0 == 0)) [
        | inl e ↦
            let shorter = sym (decode-silent s ss k e) ∙ h in
            let (k', d', r, rest) =
              keyboard_getchar-decode ss fuel (on_scancode s k).1 last d2 c cs q2 (omega arith)
                shorter in
            (k', d', rw (status_ready d s ss q, byte, e) r, rest)
        | inr e ↦
            let (typed, rest) = decode-typed s ss k last c cs e h in
            ((on_scancode s k).1, d2, rw (status_ready d s ss q, byte, e, typed), rw q2 rest)
      ]

  drain-empties :
      (ss : List ℕ) (fuel : ℕ) (d : Device)
      → queue d ≡ ss
      → length ss < fuel
      → (d' : Device) × (drain ports fuel d ≡ some d') × (queue d' ≡ [])
  unfolding drain keyboard_haskey
  drain-empties ss zero d q f = absurd (omega arith)
  drain-empties [] (suc fuel) d q f =
      ((ports.inb status_port d).1, rw (status_empty d q), status_keeps d ∙ q)
  drain-empties (s ∷ ss) (suc fuel) d q f =
      let d1 = (ports.inb status_port d).1 in
      let (_, q2) = reads_first d1 s ss (status_keeps d ∙ q) in
      let (d', r, e) = drain-empties ss fuel (ports.inb data_port d1).1 q2 (omega arith) in
      (d', rw (status_ready d s ss q) r, e)

  -- If the controller behaves as documented, `keyboard_init` ends within one poll for each scancode
  -- that it holds and one more, with the initial state and nothing left in the controller.
  pub keyboard_init-empties :
      (fuel : ℕ) (d : Device)
      → length (queue d) < fuel
      → (d' : Device) × (keyboard_init ports fuel d ≡ some (initial, d')) × (queue d' ≡ [])
  unfolding keyboard_init
  keyboard_init-empties fuel d f =
      let (d', r, e) = drain-empties (queue d) fuel d refl f in (d', rw r, e)

  -- A call takes scancodes from the controller and gives none back.
  pub keyboard_getchar-queue :
      (ss : List ℕ) (fuel : ℕ) (k k' : Keyboard) (d d' : Device) (c : ℕ)
      → queue d ≡ ss
      → keyboard_getchar ports fuel k d ≡ some (c, k', d')
      → length (queue d') ≤ length ss
  unfolding keyboard_getchar keyboard_haskey
  keyboard_getchar-queue ss zero k k' d d' c q h = cc
  keyboard_getchar-queue [] (suc fuel) k k' d d' c q h =
      keyboard_getchar-queue [] fuel k k' (ports.inb status_port d).1 d' c (status_keeps d ∙ q)
        (sym (rw (status_empty d q) refl) ∙ h)
  keyboard_getchar-queue (s ∷ ss) (suc fuel) k k' d d' c q h =
      let d1 = (ports.inb status_port d).1 in
      let (byte, q2) = reads_first d1 s ss (status_keeps d ∙ q) in
      let d2 = (ports.inb data_port d1).1 in
      elim (Bool-cases ((on_scancode s k).0 == 0)) [
        | inl e ↦
            let rest =
              keyboard_getchar-queue ss fuel (on_scancode s k).1 k' d2 d' c q2
                (sym (rw (status_ready d s ss q, byte, e) refl) ∙ h) in
            omega (arith, rest)
        | inr e ↦
            let z : some ((on_scancode s k).0, (on_scancode s k).1, d2) ≡ some (c, k', d') =
              sym (rw (status_ready d s ss q, byte, e) refl) ∙ h in
            let same : d2 ≡ d' = ap (λ (r : ℕ × Keyboard × Device). r.2) (eq_of_some z) in
            omega (arith, ap length (sym (ap queue same) ∙ q2))
      ]
