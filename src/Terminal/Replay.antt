-- ===== src/Terminal/Replay.antt =====
-- What the calls of the other parts do to the screen: kernel/terminal.c behind the interface that
-- `Console` declares.
use szym_os_kernel.Prelude.{
  ℕ, ◌+◌, ◌≡◌, refl, ◌∙◌, inl, inr, Option, none, some, List, [], ◌∷◌, ◌++◌, arith, ◌>>=◌,
  Option-cases, eq_of_some,
}
use szym_os_kernel.Ports.{Ports}
use szym_os_kernel.Console.{Call, setcolor, putchar, writestring, printf, clear}
use szym_os_kernel.Terminal.Screen.{
  Screen, terminal_setcolor, terminal_putchar, terminal_write, terminal_clear,
}
use szym_os_kernel.Terminal.Screen.Bounds.{
  OnScreen, DrawsInside, terminal_putchar-OnScreen, terminal_write-OnScreen,
}
use szym_os_kernel.Terminal.Screen.Text.{terminal_clear_lem}
use szym_os_kernel.Terminal.Printf.{expand}

module _ {Device : Type 0} (ports : Ports Device) where
  -- `none` is a format that is read past its end, or an argument that is missing.
  unfoldable pub perform : Call → Screen Device → Option (Screen Device)
  perform (setcolor c) t = some (terminal_setcolor c t)
  perform (putchar c) t = some (terminal_putchar ports c t)
  perform (writestring text) t = some (terminal_write ports text t)
  perform (printf format args) t =
      expand (format ++ 0 ∷ []) args >>= λ bytes. some (terminal_write ports bytes t)
  perform clear t = some (terminal_clear ports t)

  unfoldable pub replay : List Call → Screen Device → Option (Screen Device)
  replay [] t = some t
  replay (c ∷ cs) t = perform c t >>= λ t'. replay cs t'

  perform-OnScreen :
      (c : Call) (t t' : Screen Device)
      → OnScreen t
      → perform c t ≡ some t'
      → OnScreen t' × DrawsInside t t'
  unfolding perform terminal_setcolor
  perform-OnScreen (setcolor c) t t' v h = rw (← eq_of_some h) (omega arith, λ j. refl)
  perform-OnScreen (putchar c) t t' v h =
      rw (← eq_of_some h) (terminal_putchar-OnScreen ports c t v)
  perform-OnScreen (writestring text) t t' v h =
      rw (← eq_of_some h) (terminal_write-OnScreen ports text t v)
  perform-OnScreen (printf format args) t t' v h =
      elim (Option-cases (expand (format ++ 0 ∷ []) args)) [
        | inl e ↦ absurd (not_some e)
        | inr (bytes, e) ↦
            rw (← eq_of_some (shown bytes e)) (terminal_write-OnScreen ports bytes t v)
      ]
    where
      shown :
          (bytes : List ℕ)
          → expand (format ++ 0 ∷ []) args ≡ some bytes
          → some (terminal_write ports bytes t) ≡ some t'
      shown bytes e = rw e at h

      not_some : expand (format ++ 0 ∷ []) args ≡ none → ⊥
      not_some e = let k : none ≡ some t' = rw e at h in cc
  perform-OnScreen clear t t' v h =
      let (cells, fits, row, column) = terminal_clear_lem ports t in
      rw (← eq_of_some h) (fits, λ j. cells (2000 + j) ∙ ground arith)

  -- Whatever calls the other parts make, in whatever order, with the cursor on the screen: if
  -- no format is read past its end and its arguments are there, the cursor stays on the screen
  -- and no memory behind the screen's cells is written.
  pub replay-OnScreen :
      (cs : List Call) (t t' : Screen Device)
      → OnScreen t
      → replay cs t ≡ some t'
      → OnScreen t' × DrawsInside t t'
  unfolding replay
  replay-OnScreen [] t t' v h = rw (← eq_of_some h) (v, λ j. refl)
  replay-OnScreen (c ∷ cs) t t' v h = elim (Option-cases (perform c t)) [
    | inl e ↦ absurd (stuck e)
    | inr (t1, e) ↦
        let (v1, same) = perform-OnScreen c t t1 v e in
        let (v2, same') = replay-OnScreen cs t1 t' v1 (rw e at h) in (v2, λ j. same' j ∙ same j)
  ]
    where
      stuck : perform c t ≡ none → ⊥
      stuck e = let k : none ≡ some t' = rw e at h in cc
