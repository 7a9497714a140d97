-- ===== src/Boot/Patch/Hex.antt =====
-- hex2byte of native/src/boot/patch.rs reads what a hexadecimal printer writes.
use magisk.Boot.Patch.{nibble, hex2byte}
use magisk.Prelude.{
  inr, ◌∙◌, ap, inl, Bool-cases, ℕ, zero, suc, ◌+◌, ◌-◌, ◌*◌, ◌/◌, ◌%◌, ◌<◌, bit_or, ◌≡◌, refl, ap₂,
  Bool, true, false, [], ◌∷◌, ◌++◌, arith, ltb, ◌==◌, if◌then◌else◌, ==_iff, Bytes, All, length,
}

abbrev digit : Bool → ℕ → ℕ
digit capital n = if ltb n 10 then n + b'0' else n + (if capital then 55 else 87)

-- Two digits for a byte, in capitals or not.
abbrev pub hex_encode : Bool → Bytes → Bytes
hex_encode capital [] = []
hex_encode capital (b ∷ bs) =
    digit capital (b / 16) ∷ digit capital (b % 16) ∷ hex_encode capital bs

-- A test of every number below a bound, and what a run of it shows.
every : (ℕ → Bool) → ℕ → Bool
every test zero = true
every test (suc bound) = if test bound then every test bound else false

every-at :
    (test : ℕ → Bool) (bound : ℕ) → every test bound ≡ true → {i : ℕ} → i < bound → test i ≡ true
unfolding every
every-at test zero _ below = absurd (omega arith)
every-at test (suc bound) all {i} below = elim (Bool-cases (i == bound)) [
  | inl last ↦ ap test ((==_iff i bound).0 last) ∙ ground arith
  | inr other ↦ every-at test bound (ground arith) (ground arith)
]

-- The byte that `hex2byte` makes of two digits.
abbrev read_two : Bool → ℕ → ℕ
read_two capital b =
    bit_or (nibble (digit capital (b / 16)) * 16 % 256) (nibble (digit capital (b % 16)))

byte_table : (capital : Bool) → every (λ b. read_two capital b == b) 256 ≡ true
unfolding every nibble
byte_table true = refl
byte_table false = refl

read_two_lem : (capital : Bool) (b : ℕ) → b < 256 → read_two capital b ≡ b
read_two_lem capital b h =
    (==_iff _ b).0 (every-at (λ c. read_two capital c == c) 256 (byte_table capital) h)

-- `hex2byte` gives back every list of bytes that is printed in hexadecimal, with capital digits
-- or not.
pub hex2byte-hex_encode :
    (capital : Bool) (bs : Bytes) → All (λ b. b < 256) bs → hex2byte (hex_encode capital bs) ≡ bs
unfolding hex2byte
hex2byte-hex_encode capital [] h = refl
hex2byte-hex_encode capital (b ∷ bs) h =
    ap₂ ◌∷◌ (read_two_lem capital b h.0) (hex2byte-hex_encode capital bs h.1)

-- `hex2byte` drops a last digit behind an even number of digits.
pub hex2byte_odd :
    (hex : Bytes) (c : ℕ) → (n : ℕ) → length hex ≡ n + n → hex2byte (hex ++ (c ∷ [])) ≡ hex2byte hex
unfolding hex2byte
hex2byte_odd [] c n h = refl
hex2byte_odd (d ∷ []) c n h = absurd (omega arith)
hex2byte_odd (d ∷ e ∷ hex) c n h = cc (hex2byte_odd hex c (n - 1) (omega arith))
