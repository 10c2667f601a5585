-- ===== src/CString/Compare.antt =====
-- `strlen`, `strcmp` and `strncmp` of kernel/kernel.c on terminated strings.
use szym_os_kernel.Prelude.{
  ℕ, zero, suc, ◌+◌, ◌≡◌, refl, ◌↔◌, inl, inr, true, false, some, List, [], ◌∷◌, arith, ℤ, pos,
  sub_ℕ, eq_ℤ, ◌==◌, Bool-cases, length, take, sym, ◌∙◌, if_true, eq_of_some,
}
use szym_os_kernel.CString.{strlen_from, strlen, strcmp, strncmp, text_of, text_eq, NoNul}

pub text_eq_iff : (s t : List ℕ) → (text_eq s t ≡ true) ↔ (s ≡ t)
unfolding text_eq
text_eq_iff [] [] = (λ h. refl, λ h. refl)
text_eq_iff [] (d ∷ t) = (λ h. cc, λ h. cc)
text_eq_iff (c ∷ s) [] = (λ h. cc, λ h. cc)
text_eq_iff (c ∷ s) (d ∷ t) =
    (λ h. ground (arith, (text_eq_iff s t).0), λ h. ground (arith, (text_eq_iff s t).1))

pub text_eq_refl : (s : List ℕ) → text_eq s s ≡ true
text_eq_refl s = (text_eq_iff s s).1 refl

pub text_of-cons :
    (c : ℕ) (rest t : List ℕ)
    → text_of (c ∷ rest) ≡ some t
    → (c == 0) ≡ false
    → (u : List ℕ) × (text_of rest ≡ some u) × (t ≡ c ∷ u)
unfolding text_of
text_of-cons c rest t h e = ground arith

-- A text holds no terminator.
pub text_of-NoNul : (xs t : List ℕ) → text_of xs ≡ some t → NoNul t
unfolding text_of
text_of-NoNul [] t h = cc
text_of-NoNul (c ∷ xs) t h = elim (Bool-cases (c == 0)) [
  | inl e ↦ let z = sym (if_true _ _ e) ∙ h in rw (← eq_of_some z) tt
  | inr e ↦ let (u, rest, same) = text_of-cons c xs t h e in rw same (e, text_of-NoNul xs u rest)
]

strlen_from-text :
    (n : ℕ) (buf t : List ℕ) → text_of buf ≡ some t → strlen_from n buf ≡ some (n + length t)
unfolding strlen_from text_of
strlen_from-text n [] t h = cc
strlen_from-text n (c ∷ rest) t h = elim (Bool-cases (c == 0)) [
  | inl e ↦ ground arith
  | inr e ↦
      let (u, hu, ht) = text_of-cons c rest t h e in
      ground (arith, strlen_from-text (n + 1) rest u hu)
]

-- On a terminated string `strlen` is the length of its text.
pub strlen-text : (buf t : List ℕ) → text_of buf ≡ some t → strlen buf ≡ some (length t)
unfolding strlen
strlen-text buf t h = ground (arith, strlen_from-text 0 buf t)

-- On terminated strings `strcmp` reads only within them, and is 0 exactly when the texts are equal.
pub strcmp-text :
    (a b s t : List ℕ)
    → text_of a ≡ some s
    → text_of b ≡ some t
    → (z : ℤ) × (strcmp a b ≡ some z) × (eq_ℤ z (pos 0) ≡ text_eq s t)
unfolding strcmp text_of text_eq
strcmp-text [] b s t h k = cc
strcmp-text (c ∷ a) [] s t h k = cc
strcmp-text (c ∷ a) (d ∷ b) s t h k = elim (Bool-cases (c == 0)) [
  | inl e ↦ (sub_ℕ c d, ground arith, ground arith)
  | inr e ↦ elim (Bool-cases (c == d)) [
    | inl f ↦
        let (u, hu, hs) = text_of-cons c a s h e in
        let (v, hv, ht) = text_of-cons d b t k (ground arith) in
        let (z, p, q) = strcmp-text a b u v hu hv in (z, ground arith, ground arith)
    | inr f ↦ (sub_ℕ c d, ground arith, ground arith)
  ]
]

-- On terminated strings `strncmp` is 0 exactly when the texts agree on their first `n` bytes.
pub strncmp-text :
    (n : ℕ) (a b s t : List ℕ)
    → text_of a ≡ some s
    → text_of b ≡ some t
    → (z : ℤ) × (strncmp a b n ≡ some z) × (eq_ℤ z (pos 0) ≡ text_eq (take n s) (take n t))
unfolding strncmp text_of text_eq
strncmp-text zero a b s t h k = (pos 0, refl, ground arith)
strncmp-text (suc n) [] b s t h k = cc
strncmp-text (suc n) (c ∷ a) [] s t h k = cc
strncmp-text (suc n) (c ∷ a) (d ∷ b) s t h k = elim (Bool-cases (c == 0)) [
  | inl e ↦ (sub_ℕ c d, ground arith, ground arith)
  | inr e ↦ elim (Bool-cases (c == d)) [
    | inl f ↦
        let (u, hu, hs) = text_of-cons c a s h e in
        let (v, hv, ht) = text_of-cons d b t k (ground arith) in
        let (z, p, q) = strncmp-text n a b u v hu hv in (z, ground arith, ground arith)
    | inr f ↦ (sub_ℕ c d, ground arith, ground arith)
  ]
]

pub text_eq_comm : (s t : List ℕ) → text_eq s t ≡ text_eq t s
unfolding text_eq
text_eq_comm [] [] = refl
text_eq_comm [] (d ∷ t) = refl
text_eq_comm (c ∷ s) [] = refl
text_eq_comm (c ∷ s) (d ∷ t) = ground (arith, text_eq_comm s t)

-- The bytes before the terminator are the text.
pub take-text : (buf t : List ℕ) → text_of buf ≡ some t → take (length t) buf ≡ t
unfolding text_of
take-text [] t h = cc
take-text (c ∷ rest) t h = elim (Bool-cases (c == 0)) [
  | inl e ↦ ground arith
  | inr e ↦
      let (u, hu, ht) = text_of-cons c rest t h e in rw ht (ground (arith, take-text rest u hu))
]
