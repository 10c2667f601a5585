-- ===== src/Prelude/Bytes.antt =====
-- A large byte array as a function from an index to the byte there, with the loops of `memcpy` and
-- `memset` (kernel/kernel.c) over it. The callers check or prove that the indices are in range.
use Prim.Native.Nat.{ℕ, zero, suc, ◌+◌, ◌≤◌, ◌<◌}
use mathlib.Core.Path.{◌≡◌, refl, ap, ap₂, ◌∙◌}
use mathlib.Core.Logic.{◌⊎◌, inl, inr}
use mathlib.Core.Bool.{◌&&◌}
use mathlib.Core.List.{List, [], ◌∷◌}
use native.Mathlib.Omega.{arith}
use szym_os_kernel.Prelude.Tests.{◌==◌, leb, ltb, if◌then◌else◌}
use szym_os_kernel.Prelude.Lists.{length, take}

abbrev pub Memory : Type 0
Memory = ℕ → ℕ

-- `*(m + a) = v`
unfoldable pub poke : Memory → ℕ → ℕ → Memory
poke m a v i = if i == a then v else m i

-- `n` bytes from `a` on.
unfoldable pub slice : Memory → ℕ → ℕ → List ℕ
slice m a zero = []
slice m a (suc n) = m a ∷ slice m (a + 1) n

-- `memcpy(m + a, xs, length xs)`, from low to high as in the source.
unfoldable pub memcpy : Memory → ℕ → List ℕ → Memory
unfolding poke
memcpy m a [] = m
memcpy m a (x ∷ xs) = memcpy (poke m a x) (a + 1) xs

-- `memset(m + a, v, n)`
unfoldable pub memset : Memory → ℕ → ℕ → ℕ → Memory
unfolding poke
memset m a v zero = m
memset m a v (suc n) = memset (poke m a v) (a + 1) v n

pub length-slice : (m : Memory) (a n : ℕ) → length (slice m a n) ≡ n
unfolding slice
length-slice m a zero = refl
length-slice m a (suc n) = omega (arith, length-slice m (a + 1) n)

pub slice_ext :
    (m m' : Memory) (a n : ℕ)
    → ((i : ℕ) → a ≤ i → i < a + n → m i ≡ m' i)
    → slice m a n ≡ slice m' a n
unfolding slice
slice_ext m m' a zero h = refl
slice_ext m m' a (suc n) h =
    ap₂ ◌∷◌ (h a (omega arith) (omega arith))
      (slice_ext m m' (a + 1) n (λ i p q. h i (omega arith) (omega arith)))

pub memcpy-out :
    (m : Memory) (a : ℕ) (xs : List ℕ) (i : ℕ)
    → (i < a) ⊎ (a + length xs ≤ i)
    → memcpy m a xs i ≡ m i
unfolding memcpy
memcpy-out m a [] i h = refl
memcpy-out m a (x ∷ xs) i h = memcpy-out (poke m a x) (a + 1) xs i (below h) ∙ other h
  where
    below : (i < a) ⊎ (a + suc (length xs) ≤ i) → (i < a + 1) ⊎ (a + 1 + length xs ≤ i)
    below (inl p) = inl (omega arith)
    below (inr p) = inr (omega arith)

    other : (i < a) ⊎ (a + suc (length xs) ≤ i) → poke m a x i ≡ m i
    other p = ground arith

pub slice-memcpy : (m : Memory) (a : ℕ) (xs : List ℕ) → slice (memcpy m a xs) a (length xs) ≡ xs
unfolding slice memcpy
slice-memcpy m a [] = refl
slice-memcpy m a (x ∷ xs) =
    ap₂ ◌∷◌ (memcpy-out (poke m a x) (a + 1) xs a (inl (omega arith)) ∙ ground arith)
      (slice-memcpy (poke m a x) (a + 1) xs)

pub slice-memcpy_out :
    (m : Memory) (a : ℕ) (xs : List ℕ) (b n : ℕ)
    → (b + n ≤ a) ⊎ (a + length xs ≤ b)
    → slice (memcpy m a xs) b n ≡ slice m b n
slice-memcpy_out m a xs b n h =
    slice_ext (memcpy m a xs) m b n (λ i p q. memcpy-out m a xs i (side i p q h))
  where
    side :
        (i : ℕ)
        → b ≤ i
        → i < b + n
        → (b + n ≤ a) ⊎ (a + length xs ≤ b)
        → (i < a) ⊎ (a + length xs ≤ i)
    side i p q (inl s) = inl (omega arith)
    side i p q (inr s) = inr (omega arith)

pub memset_lem :
    (m : Memory) (a v n i : ℕ) → memset m a v n i ≡ (if leb a i && ltb i (a + n) then v else m i)
unfolding memset
memset_lem m a v zero i = ground arith
memset_lem m a v (suc n) i = ground (arith, memset_lem (poke m a v) (a + 1) v n i)

pub take-slice : (m : Memory) (a n k : ℕ) → k ≤ n → take k (slice m a n) ≡ slice m a k
unfolding slice
take-slice m a n zero h = refl
take-slice m a zero (suc k) h = absurd (omega arith)
take-slice m a (suc n) (suc k) h =
    ap (λ (t : List ℕ). m a ∷ t) (take-slice m (a + 1) n k (omega arith))
