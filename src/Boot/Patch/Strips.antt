-- ===== src/Boot/Patch/Strips.antt =====
-- What remove_pattern of native/src/boot/patch.rs promises, without the cursors.
use magisk.Prelude.{ℕ, ◌≤◌, ◌<◌, Bytes, [], ◌∷◌, ◌≡◌, Option, none, some, length, drop}

module _ (matcher : Bytes → Option ℕ) where
  -- `Strips matcher text out`: reading from the left, what the matcher takes is left out of the
  -- text, and every other byte is kept.
  pub data Strips : Bytes → Bytes → Type 0 where
    done : Strips [] []
    cut :
        {c : ℕ} {text out : Bytes} (len : ℕ)
        → matcher (c ∷ text) ≡ some len
        → Strips (drop len (c ∷ text)) out
        → Strips (c ∷ text) out
    keep :
        {c : ℕ} {text out : Bytes}
        → matcher (c ∷ text) ≡ none
        → Strips text out
        → Strips (c ∷ text) (c ∷ out)

-- A match takes at least one byte, and no more than there are.
abbrev pub IsBounded : (Bytes → Option ℕ) → Type 0
IsBounded matcher =
    (text : Bytes) (len : ℕ) → matcher text ≡ some len → (0 < len) × (len ≤ length text)
