-- ===== src/Boot/Cpio/Paths.antt =====
-- norm_path, align_4 and parse_mode of native/src/boot/cpio.rs.
use magisk.Prelude.{
  Option-cases, inl, inr, ℕ, ◌+◌, ◌-◌, ◌*◌, ◌%◌, ◌^◌, ◌≤◌, ◌<◌, ◌≡◌, sym, ap, ◌∙◌, ◌↔◌, inl, inr,
  true, false, ◌&&◌, Option, none, some, List, [], ◌∷◌, arith, ltb, leb, ◌==◌, if◌then◌else◌,
  Option-cases, Bytes,
}
use Prim.Native.Nat.{bit_and, bit_and-bitwise}
use magisk.Base.Text.{split, non_empty, join, parts-IsPart, parts-join}

-- `split('/')`, the empty parts left out, joined by "/"
unfoldable pub norm_path : Bytes → Bytes
norm_path path = join b'/' (non_empty (split b'/' path))

-- `(x + 3) & !3`: the bits of 3 are cleared. `x` is a position in a slice or a size that has been
-- checked against one, so `x + 3` fits.
unfoldable pub align_4 : ℕ → ℕ
align_4 x = x + 3 - bit_and 3 (x + 3)

-- `to_digit(8)`
octal : ℕ → Option ℕ
octal c = if leb b'0' c && leb c b'7' then some (c - b'0') else none

-- The loop of `u32::from_str_radix(s, 8)`: an overflow is an error.
octal_digits : ℕ → Bytes → Option ℕ
octal_digits n [] = some n
octal_digits n (c ∷ s) = elim (octal c) [
  | none ↦ none
  | some d ↦ elim (ltb (n * 8 + d) (2 ^ 32)) [ true ↦ octal_digits (n * 8 + d) s | false ↦ none ]
]

-- A text with no digit is an error.
octal_number : Bytes → Option ℕ
octal_number [] = none
octal_number (c ∷ s) = octal_digits 0 (c ∷ s)

-- `from_str_radix` of an unsigned type takes a plus sign in front.
unfoldable pub parse_mode : Bytes → Option ℕ
unfolding octal octal_digits octal_number
parse_mode [] = none
parse_mode (c ∷ s) = if c == b'+' then octal_number s else octal_number (c ∷ s)

-- The parts between the slashes, which is all that a path is compared by.
abbrev pub components : Bytes → List Bytes
components path = non_empty (split b'/' path)

-- A path in the form that `norm_path` gives.
abbrev pub IsNormal : Bytes → Type 0
IsNormal path = norm_path path ≡ path

-- The normal form of a path has the same parts.
pub components-norm_path : (path : Bytes) → components (norm_path path) ≡ components path
unfolding norm_path
components-norm_path path = parts-join b'/' (components path) (parts-IsPart b'/' path)

-- `norm_path` leaves what it returns as it is.
pub norm_path-IsNormal : (path : Bytes) → IsNormal (norm_path path)
unfolding norm_path
norm_path-IsNormal path = ap (join b'/') (components-norm_path path)

-- Two paths have the same normal form exactly if they have the same parts.
pub norm_path_iff : (a b : Bytes) → (norm_path a ≡ norm_path b) ↔ (components a ≡ components b)
unfolding norm_path
norm_path_iff a b = (
  (λ e. sym (components-norm_path a) ∙ ap components e ∙ components-norm_path b),
  (λ e. ap (join b'/') e),
)

bit_and_three : (y : ℕ) → bit_and 3 y ≡ y % 4
bit_and_three y = omega (arith, bit_and-bitwise 3 y)

-- `align_4 x` is the multiple of 4 that is at least `x` and less than `x + 4`.
pub align_4_lem : (x : ℕ) → (x ≤ align_4 x) × (align_4 x < x + 4) × (align_4 x % 4 ≡ 0)
unfolding align_4
align_4_lem x = (
  omega (arith, bit_and_three (x + 3)),
  omega (arith, bit_and_three (x + 3)),
  omega (arith, bit_and_three (x + 3)),
)

pub align_4_idem : (x : ℕ) → align_4 (align_4 x) ≡ align_4 x
unfolding align_4
align_4_idem x = omega (arith, bit_and_three (x + 3), bit_and_three (align_4 x + 3))

-- A mode that is read is a 32-bit number.
octal_digits-lt : (n : ℕ) (s : Bytes) (m : ℕ) → n < 2 ^ 32 → octal_digits n s ≡ some m → m < 2 ^ 32
unfolding octal_digits
octal_digits-lt n [] m h e = ground arith
octal_digits-lt n (c ∷ s) m h e = elim (Option-cases (octal c)) [
  | inl a ↦ ground arith
  | inr (d, a) ↦ ground (arith, octal_digits-lt (n * 8 + d) s m)
]

-- A mode that `parse_mode` reads is a 32-bit number.
pub parse_mode-lt : (s : Bytes) (m : ℕ) → parse_mode s ≡ some m → m < 2 ^ 32
unfolding parse_mode
parse_mode-lt [] m e = cc
parse_mode-lt (c ∷ []) m e = ground (arith, octal_digits-lt 0 (c ∷ []) m)
parse_mode-lt (c ∷ d ∷ s) m e =
    ground (arith, octal_digits-lt 0 (c ∷ d ∷ s) m, octal_digits-lt 0 (d ∷ s) m)
