-- ===== src/Prelude/Index.antt =====
-- The byte at an index of a buffer after it has been copied, cut or filled.
use Prim.Native.Nat.{ℕ, zero, suc, ◌+◌, ◌-◌, ◌≤◌, ◌<◌}
use mathlib.Core.Path.{◌≡◌, refl, ap, ap₂, ◌∙◌}
use mathlib.Core.Bool.{◌&&◌}
use mathlib.Core.List.{List, [], ◌∷◌, ◌++◌}
use native.Mathlib.Omega.{arith}
use szym_os_kernel.Prelude.Tests.{leb, ltb, if◌then◌else◌}
use szym_os_kernel.Prelude.Lists.{length, get_or, take, overwrite, replicate}
use szym_os_kernel.Prelude.Bytes.{Memory, slice, memcpy, poke}

-- Every element is a byte.
abbrev pub AreBytes : List ℕ → Type 0
AreBytes xs = (j : ℕ) → get_or xs j 0 < 256

pub get_or-out : (xs : List ℕ) (j : ℕ) → length xs ≤ j → get_or xs j 0 ≡ 0
get_or-out [] j h = refl
get_or-out (x ∷ xs) zero h = absurd (omega arith)
get_or-out (x ∷ xs) (suc j) h = get_or-out xs j (omega arith)

pub get_or-slice : (m : Memory) (a n j : ℕ) → j < n → get_or (slice m a n) j 0 ≡ m (a + j)
unfolding slice
get_or-slice m a zero j h = absurd (omega arith)
get_or-slice m a (suc n) zero h = let at : a ≡ a + 0 = omega arith in ap m at
get_or-slice m a (suc n) (suc j) h =
    let at : a + 1 + j ≡ a + suc j = omega arith in
    get_or-slice m (a + 1) n j (omega arith) ∙ ap m at

pub get_or-overwrite_lem :
    (xs ys : List ℕ) (j : ℕ)
    → get_or (overwrite xs ys) j 0
      ≡ (if ltb j (length xs) && ltb j (length ys) then get_or ys j 0 else get_or xs j 0)
get_or-overwrite_lem [] ys j = ground arith
get_or-overwrite_lem (x ∷ xs) [] j = ground arith
get_or-overwrite_lem (x ∷ xs) (y ∷ ys) zero = ground arith
get_or-overwrite_lem (x ∷ xs) (y ∷ ys) (suc j) = ground (arith, get_or-overwrite_lem xs ys j)

pub get_or-append_lem :
    (xs ys : List ℕ) (j : ℕ)
    → get_or (xs ++ ys) j 0
      ≡ (if ltb j (length xs) then get_or xs j 0 else get_or ys (j - length xs) 0)
get_or-append_lem [] ys j = ground arith
get_or-append_lem (x ∷ xs) ys zero = ground arith
get_or-append_lem (x ∷ xs) ys (suc j) = ground (arith, get_or-append_lem xs ys j)

pub get_or-take_lem :
    (n j : ℕ) (xs : List ℕ) → get_or (take n xs) j 0 ≡ (if ltb j n then get_or xs j 0 else 0)
get_or-take_lem zero j xs = ground arith
get_or-take_lem (suc n) j [] = ground arith
get_or-take_lem (suc n) zero (x ∷ xs) = ground arith
get_or-take_lem (suc n) (suc j) (x ∷ xs) = ground (arith, get_or-take_lem n j xs)

pub get_or-replicate_zero : (n j : ℕ) → get_or {A = ℕ} (replicate n 0) j 0 ≡ 0
unfolding replicate
get_or-replicate_zero zero j = refl
get_or-replicate_zero (suc n) zero = refl
get_or-replicate_zero (suc n) (suc j) = get_or-replicate_zero n j

-- Lists of one length with the same bytes are equal.
pub list_ext :
    (xs ys : List ℕ)
    → length xs ≡ length ys
    → ((j : ℕ) → j < length xs → get_or xs j 0 ≡ get_or ys j 0)
    → xs ≡ ys
list_ext [] [] h same = refl
list_ext [] (y ∷ ys) h same = absurd (omega arith)
list_ext (x ∷ xs) [] h same = absurd (omega arith)
list_ext (x ∷ xs) (y ∷ ys) h same =
    ap₂ ◌∷◌ (same 0 (omega arith))
      (list_ext xs ys (omega arith) (λ j p. same (suc j) (omega arith)))

pub memcpy_lem :
    (m : Memory) (a : ℕ) (xs : List ℕ) (i : ℕ)
    → memcpy m a xs i ≡ (if leb a i && ltb i (a + length xs) then get_or xs (i - a) 0 else m i)
unfolding memcpy
memcpy_lem m a [] i = ground arith
memcpy_lem m a (x ∷ xs) i = memcpy_lem (poke m a x) (a + 1) xs i ∙ shifted
  where
    shifted :
        (if leb (a + 1) i && ltb i (a + 1 + length xs)
          then get_or xs (i - (a + 1)) 0
          else poke m a x i)
        ≡ (if leb a i && ltb i (a + suc (length xs)) then get_or (x ∷ xs) (i - a) 0 else m i)
    shifted = ground arith
