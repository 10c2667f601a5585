-- ===== src/Shell/Line/Buffer.antt =====
-- A text in a buffer of characters: what stands up to an index.
use szym_os_kernel.Prelude.{
  ℕ, zero, suc, ◌<◌, ◌≤◌, ◌≡◌, refl, ap, some, false, List, [], ◌∷◌, ◌++◌, arith, ◌==◌, length,
  take, drop, set,
}
use szym_os_kernel.CString.{NoNul, text_of}

pub NoNul-snoc : (t : List ℕ) (c : ℕ) → NoNul t → (c == 0) ≡ false → NoNul (t ++ c ∷ [])
NoNul-snoc [] c h e = (e, tt)
NoNul-snoc (x ∷ t) c h e = (h.0, NoNul-snoc t c h.1 e)

pub NoNul-take : (n : ℕ) (t : List ℕ) → NoNul t → NoNul (take n t)
NoNul-take zero t h = tt
NoNul-take (suc n) [] h = tt
NoNul-take (suc n) (x ∷ t) h = (h.0, NoNul-take n t h.1)

-- One more character behind the text.
pub take-set_end :
    (t buffer : List ℕ) (c : ℕ)
    → take (length t) buffer ≡ t
    → length t < length buffer
    → take (length (t ++ c ∷ [])) (set buffer (length t) c) ≡ t ++ c ∷ []
take-set_end t [] c h fits = absurd (omega arith)
take-set_end [] (b ∷ buffer) c h fits = refl
take-set_end (x ∷ t) (b ∷ buffer) c h fits =
    let head : b ≡ x = cc in
    let rest = take-set_end t buffer c (ap (drop 1) h) (omega arith) in rw (head, rest)

-- A shorter part of the text.
pub take-take : (n m : ℕ) (xs : List ℕ) → n ≤ m → take n (take m xs) ≡ take n xs
take-take zero m xs h = refl
take-take (suc n) zero xs h = absurd (omega arith)
take-take (suc n) (suc m) [] h = refl
take-take (suc n) (suc m) (x ∷ xs) h = ap (λ (ys : List ℕ). x ∷ ys) (take-take n m xs (omega arith))

pub text_of-set_end :
    (t buffer : List ℕ)
    → take (length t) buffer ≡ t
    → length t < length buffer
    → NoNul t
    → text_of (set buffer (length t) 0) ≡ some t
unfolding text_of
text_of-set_end t [] h fits n = absurd (omega arith)
text_of-set_end [] (b ∷ buffer) h fits n = refl
text_of-set_end (x ∷ t) (b ∷ buffer) h fits n =
    let head : b ≡ x = cc in
    let rest = text_of-set_end t buffer (ap (drop 1) h) (omega arith) n.1 in rw (head, n.0, rest)
