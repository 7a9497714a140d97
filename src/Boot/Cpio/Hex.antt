-- ===== src/Boot/Cpio/Hex.antt =====
-- The numbers in a header of native/src/boot/cpio.rs: `x8u` reads one, and `{:08x}` writes one.
use native.Mathlib.Nat.{pow-suc}
use magisk.Prelude.{
  ap, sym, ◌∙◌, append_assoc, append-nil, ℕ, zero, suc, ◌+◌, ◌-◌, ◌*◌, ◌/◌, ◌%◌, ◌^◌, ◌<◌, ◌≡◌, sym,
  ap, ◌∙◌, ◌&&◌, Option, none, some, [], ◌∷◌, ◌++◌, append-nil, append_assoc, arith, ltb, leb, ◌==◌,
  if◌then◌else◌, Bytes,
}
use magisk.Base.Outcome.{Outcome, ok, fail}

-- `c.to_digit(16)`
unfoldable pub to_digit : ℕ → Option ℕ
to_digit c =
    if leb b'0' c && leb c b'9'
    then some (c - b'0')
    else if leb b'a' c && leb c b'f'
    then some (c - 87)
    else if leb b'A' c && leb c b'F'
    then some (c - 55)
    else none

-- The loop of `x8u`. A byte that is not ASCII belongs to a character that is no digit, or to no
-- character at all, and both are the same error.
unfoldable pub x8u_loop : ℕ → Bytes → Outcome ℕ
x8u_loop ret [] = ok ret
x8u_loop ret (c ∷ x) = elim (to_digit c) [
  | none ↦ fail
  | some d ↦ x8u_loop ((ret * 16 + d) % 2 ^ 32) x
]

unfoldable pub x8u : Bytes → Outcome ℕ
unfolding x8u_loop to_digit
x8u = x8u_loop 0

-- A digit of `{:x}`
unfoldable pub hex_digit : ℕ → ℕ
hex_digit d = if ltb d 10 then d + 48 else d + 87

-- The last `n` digits of a number.
unfoldable pub low_digits : ℕ → ℕ → Bytes
unfolding hex_digit
low_digits zero v = []
low_digits (suc n) v = low_digits n (v / 16) ++ (hex_digit (v % 16) ∷ [])

-- The digits in front of those, with no leading zero; a 64-bit number has 8 at most.
high_digits : ℕ → ℕ → Bytes
high_digits zero v = []
high_digits (suc n) v =
    let rest = high_digits n (v / 16) in if v == 0 then [] else rest ++ (hex_digit (v % 16) ∷ [])

-- `{:08x}`: at least eight digits.
unfoldable pub format_08x : ℕ → Bytes
unfolding high_digits low_digits
format_08x v = high_digits 8 (v / 2 ^ 32) ++ low_digits 8 v

pub format_08x-low_digits : (v : ℕ) → v < 2 ^ 32 → format_08x v ≡ low_digits 8 v
unfolding format_08x
format_08x-low_digits v h = let z : v / 2 ^ 32 ≡ 0 = omega arith in rw z

to_digit-hex_digit : (d : ℕ) → d < 16 → to_digit (hex_digit d) ≡ some d
unfolding to_digit hex_digit
to_digit-hex_digit d h = ground arith

-- One more digit.
x8u_loop_step :
    (v : ℕ) (rest : Bytes)
    → v < 2 ^ 32
    → x8u_loop (v / 16) (hex_digit (v % 16) ∷ rest) ≡ x8u_loop v rest
unfolding x8u_loop
x8u_loop_step v rest k =
    let e : (v / 16 * 16 + v % 16) % 2 ^ 32 ≡ v = omega arith in
    ground (arith, to_digit-hex_digit (v % 16), e)

x8u_loop-low_digits :
    (n v : ℕ) (rest : Bytes)
    → v < 16 ^ n
    → v < 2 ^ 32
    → x8u_loop 0 (low_digits n v ++ rest) ≡ x8u_loop v rest
unfolding x8u_loop low_digits
x8u_loop-low_digits zero v rest h k = let z : v ≡ 0 = omega arith in rw z
x8u_loop-low_digits (suc n) v rest h k =
    ap (x8u_loop 0) (append_assoc (low_digits n (v / 16)) (hex_digit (v % 16) ∷ []) rest)
    ∙ x8u_loop-low_digits n (v / 16) (hex_digit (v % 16) ∷ rest) (omega (arith, pow-suc 16 n))
        (omega arith)
    ∙ x8u_loop_step v rest k

-- `x8u` reads what `{:08x}` wrote of any 32-bit number.
pub x8u-format_08x : (v : ℕ) → v < 2 ^ 32 → x8u (format_08x v) ≡ ok v
unfolding x8u
x8u-format_08x v h =
    ap (x8u_loop 0) (format_08x-low_digits v h ∙ sym (append-nil (low_digits 8 v)))
    ∙ x8u_loop-low_digits 8 v [] h h
