-- ===== src/Boot/Patch.antt =====
-- native/src/boot/patch.rs: patterns are cut out of a buffer in place. A `&mut [u8]` is a list that
-- each write replaces, so the reads see the writes that were made before them.
pub mod Strips
pub mod Remove
pub mod Bounds
pub mod Flags
pub mod Hex
mod Examples
use magisk.Prelude.{
  ℕ, zero, suc, ◌+◌, ◌-◌, ◌*◌, ◌%◌, Bytes, List, [], ◌∷◌, ◌++◌, Option, none, some, Bool, true,
  false, ◌||◌, ltb, ◌==◌, if◌then◌else◌, length, take, drop, set, replicate, bit_or,
}
use magisk.Base.Text.{codes, starts_with}

-- The pattern that the `else if` chain of the macro takes, as its length.
first_match : List Bytes → Bytes → Option ℕ
first_match [] b = none
first_match (p ∷ ps) b =
    let rest = first_match ps b in if starts_with b p then some (length p) else rest

-- `b" \n\0".contains(c)`
ends_value : ℕ → Bool
ends_value c = c == b' ' || c == b'\n' || c == 0

-- The `for c in b.iter()` loop, as what it adds to `len`.
until_end : Bytes → ℕ
until_end [] = 0
until_end (c ∷ b) = let rest = until_end b in if ends_value c then 0 else suc rest

-- `if !b.is_empty() && b[0] == b'='`
value_len : Bytes → ℕ
unfolding until_end ends_value
value_len [] = 0
value_len (c ∷ b) = if c == b'=' then until_end (c ∷ b) else 0

-- `if *$buf.get_unchecked(0) == b',' { 1 } else { 0 }`; the read is out of range on an
-- empty buffer, which `remove_pattern` never gives to the matcher.
pub comma_len : Bytes → ℕ
comma_len [] = 0
comma_len (c ∷ b) = if c == b',' then 1 else 0

-- The patterns are tried only on a text that is not empty.
pub match_text : List Bytes → Bytes → Option ℕ
match_text ps [] = none
match_text ps (c ∷ b) = first_match ps (c ∷ b)

-- `match_patterns!`
unfoldable pub match_patterns : List Bytes → Bytes → Option ℕ
unfolding comma_len match_text first_match value_len
match_patterns ps buf =
    let len = comma_len buf in
    let b = drop len buf in
    elim (match_text ps b) [ none ↦ none | some n ↦ some (len + n + value_len (drop n b)) ]

-- What the loop of `remove_pattern` changes.
pub record Cursor : Type 0 where
  pub buf : Bytes
  pub write : ℕ
  pub sz : ℕ

-- The loop `while read < buf.len()`, on fuel: each round moves `read` on.
remove_loop : ℕ → (Bytes → Option ℕ) → ℕ → Cursor → Cursor
remove_loop zero matcher read s = s
remove_loop (suc fuel) matcher read s = elim (drop read s.buf) [
  | [] ↦ s
  | c ∷ rest ↦ elim (matcher (c ∷ rest)) [
    | some len ↦ remove_loop fuel matcher (read + len) (record s { sz = s.sz - len })
    | none ↦
        remove_loop fuel matcher (read + 1)
          (record s { buf = set s.buf s.write c; write = s.write + 1 })
  ]
]

-- `buf.get_mut(write..)` is filled with zeros.
fill_from : ℕ → Bytes → Bytes
fill_from write buf = take write buf ++ replicate (length buf - write) 0

-- The buffer afterwards, and the size that is returned.
unfoldable pub remove_pattern : (Bytes → Option ℕ) → Bytes → Bytes × ℕ
unfolding remove_loop fill_from
remove_pattern matcher buf =
    let s = remove_loop (length buf) matcher 0 (record { buf = buf; write = 0; sz = length buf }) in
    (fill_from s.write s.buf, s.sz)

abbrev pub verity_patterns : List Bytes
verity_patterns =
    codes "verifyatboot"
    ∷ codes "verify"
    ∷ codes "avb_keys"
    ∷ codes "avb"
    ∷ codes "support_scfs"
    ∷ codes "fsverity"
    ∷ []

unfoldable pub match_verity_pattern : Bytes → Option ℕ
unfolding match_patterns
match_verity_pattern = match_patterns verity_patterns

unfoldable pub patch_verity : Bytes → Bytes × ℕ
unfolding remove_pattern match_verity_pattern
patch_verity = remove_pattern match_verity_pattern

abbrev pub encryption_patterns : List Bytes
encryption_patterns = codes "forceencrypt" ∷ codes "forcefdeorfbe" ∷ codes "fileencryption" ∷ []

unfoldable pub match_encryption_pattern : Bytes → Option ℕ
unfolding match_patterns
match_encryption_pattern = match_patterns encryption_patterns

unfoldable pub patch_encryption : Bytes → Bytes × ℕ
unfolding remove_pattern match_encryption_pattern
patch_encryption = remove_pattern match_encryption_pattern

-- `to_ascii_uppercase`
upper : ℕ → ℕ
upper c = if ltb b'`' c then (if ltb c b'{' then c - 32 else c) else c

-- `c.to_ascii_uppercase() - b'0'` and the test after it, with the release build's wrap-around.
nibble : ℕ → ℕ
unfolding upper
nibble c = let high = (upper c + 256 - b'0') % 256 in if ltb 9 high then high - 7 else high

-- `hex2byte`: `chunks(2)` ends with a chunk of one byte where the length is odd, and the loop
-- stops there. `h << 4` keeps eight bits.
unfoldable pub hex2byte : Bytes → Bytes
unfolding nibble
hex2byte [] = []
hex2byte (c ∷ []) = []
hex2byte (c ∷ d ∷ hex) = bit_or (nibble c * 16 % 256) (nibble d) ∷ hex2byte hex
