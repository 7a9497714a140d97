-- ===== src/Base/Order.antt =====
-- The order of byte strings: `Ord` of `str` and `String`, which compares bytes from the left.
use Prim.Native.Nat.{compare, Ordering}
use mathlib.Core.Path.{◌≡◌, refl}
use mathlib.Core.Logic.{◌⊎◌, inl, inr}
use mathlib.Core.List.{[], ◌∷◌}
use native.Mathlib.Omega.{arith}
use magisk.Prelude.{Bytes}

-- `a.cmp(b)`
unfoldable pub compare_bytes : Bytes → Bytes → Ordering
compare_bytes [] [] = Ordering.eq
compare_bytes [] (y ∷ ys) = Ordering.lt
compare_bytes (x ∷ xs) [] = Ordering.gt
compare_bytes (x ∷ xs) (y ∷ ys) = elim (compare x y) [
  | Ordering.lt ↦ Ordering.lt
  | Ordering.gt ↦ Ordering.gt
  | Ordering.eq ↦ compare_bytes xs ys
]

abbrev pub Below : Bytes → Bytes → Type 0
Below a b = compare_bytes a b ≡ Ordering.lt

pub compare_bytes_refl : (a : Bytes) → compare_bytes a a ≡ Ordering.eq
unfolding compare_bytes
compare_bytes_refl [] = refl
compare_bytes_refl (x ∷ xs) = ground (arith, compare_bytes_refl xs)

pub compare_bytes_eq : (a b : Bytes) → compare_bytes a b ≡ Ordering.eq → a ≡ b
unfolding compare_bytes
compare_bytes_eq (x ∷ xs) (y ∷ ys) h = ground (arith, compare_bytes_eq xs ys)
compare_bytes_eq _ _ h = ground arith

pub compare_bytes_gt : (a b : Bytes) → compare_bytes a b ≡ Ordering.gt → Below b a
unfolding compare_bytes
compare_bytes_gt (x ∷ xs) (y ∷ ys) h = ground (arith, compare_bytes_gt xs ys)
compare_bytes_gt _ _ h = ground arith

pub Below-flip : (a b : Bytes) → Below a b → compare_bytes b a ≡ Ordering.gt
unfolding compare_bytes
Below-flip (x ∷ xs) (y ∷ ys) h = ground (arith, Below-flip xs ys)
Below-flip _ _ h = ground arith

pub Below-trans : (a b c : Bytes) → Below a b → Below b c → Below a c
unfolding compare_bytes
Below-trans (x ∷ xs) (y ∷ ys) (z ∷ zs) h k = ground (arith, Below-trans xs ys zs)
Below-trans _ _ _ h k = ground arith

pub Ordering-cases : (o : Ordering) → (o ≡ Ordering.lt) ⊎ ((o ≡ Ordering.eq) ⊎ (o ≡ Ordering.gt))
Ordering-cases Ordering.lt = inl refl
Ordering-cases Ordering.eq = inr (inl refl)
Ordering-cases Ordering.gt = inr (inr refl)
