-- ===== src/Boot/Patch/Flags.antt =====
-- What `patch_verity` and `patch_encryption` of native/src/boot/patch.rs cut out.
use magisk.Prelude.{
  ℕ, ◌-◌, ◌≡◌, refl, ap, ◌∙◌, Option, none, [], ◌∷◌, ◌++◌, append-nil, arith, Bytes, length,
  replicate,
}
use magisk.Boot.Patch.{
  verity_patterns, match_verity_pattern, patch_verity, encryption_patterns,
  match_encryption_pattern, patch_encryption,
}
use magisk.Boot.Patch.Strips.{keep, Strips, done, cut}
use magisk.Boot.Patch.Remove.{remove_pattern_lem}
use magisk.Boot.Patch.Bounds.{match_patterns-IsBounded}

-- `patch_verity` cuts out what its pattern matcher takes and keeps every other byte in its order;
-- the buffer is filled up with zeros, and the size returned is that of what is kept.
pub patch_verity_lem :
    (buf : Bytes)
    → (out : Bytes) × Strips match_verity_pattern buf out
      × (patch_verity buf ≡ (out ++ replicate (length buf - length out) 0, length out))
unfolding patch_verity match_verity_pattern
patch_verity_lem buf =
    remove_pattern_lem match_verity_pattern buf
      (match_patterns-IsBounded verity_patterns (omega arith))

-- `patch_encryption` cuts out what its pattern matcher takes and keeps every other byte in its
-- order; the buffer is filled up with zeros, and the size returned is that of what is kept.
pub patch_encryption_lem :
    (buf : Bytes)
    → (out : Bytes) × Strips match_encryption_pattern buf out
      × (patch_encryption buf ≡ (out ++ replicate (length buf - length out) 0, length out))
unfolding patch_encryption match_encryption_pattern
patch_encryption_lem buf =
    remove_pattern_lem match_encryption_pattern buf
      (match_patterns-IsBounded encryption_patterns (omega arith))

-- No pattern starts anywhere in the text.
abbrev pub IsClean : (Bytes → Option ℕ) → Bytes → Type 0
IsClean matcher [] = Unit
IsClean matcher (c ∷ text) = (matcher (c ∷ text) ≡ none) × IsClean matcher text

pub Strips-IsClean :
    (matcher : Bytes → Option ℕ) (text : Bytes) {out : Bytes}
    → Strips matcher text out
    → IsClean matcher text
    → out ≡ text
Strips-IsClean matcher _ done h = refl
Strips-IsClean matcher _ (cut len e s) h = cc
Strips-IsClean matcher _ (keep {c} {text} e s) h = ap (◌∷◌ c) (Strips-IsClean matcher text s h.1)

-- A buffer in which no verity pattern starts anywhere is left as it is.
pub patch_verity-IsClean :
    (buf : Bytes) → IsClean match_verity_pattern buf → patch_verity buf ≡ (buf, length buf)
patch_verity-IsClean buf h =
    let (out, s, e) = patch_verity_lem buf in
    let same : out ≡ buf = Strips-IsClean match_verity_pattern buf s h in
    e ∙ ground (arith, same, nothing_left buf)
  where
    nothing_left : (b : Bytes) → b ++ replicate {A = ℕ} (length b - length b) 0 ≡ b
    nothing_left b = let z : length b - length b ≡ 0 = omega arith in rw z (append-nil b)
