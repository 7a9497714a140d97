-- ===== src/Boot/Patch/Examples.antt =====
-- The theorems about native/src/boot/patch.rs at concrete inputs.
use magisk.Prelude.{
  ◌+◌, some, drop, ℕ, ◌+◌, ◌-◌, ◌≤◌, ◌<◌, ◌≡◌, refl, true, [], ◌∷◌, ◌++◌, arith, Bytes, length,
  replicate,
}
use magisk.Base.Text.{codes, starts_with}
use magisk.Boot.Patch.{
  match_text, comma_len, match_patterns, remove_pattern, verity_patterns, match_verity_pattern,
  patch_verity, hex2byte,
}
use magisk.Boot.Patch.Strips.{Strips}
use magisk.Boot.Patch.Remove.{remove_pattern_lem}
use magisk.Boot.Patch.Bounds.{match_patterns-in_range, match_patterns-IsBounded}
use magisk.Boot.Patch.Flags.{patch_verity-IsClean}
use magisk.Boot.Patch.Hex.{hex2byte-hex_encode}

remove_pattern_lem_example :
    (out : Bytes) × Strips (match_patterns verity_patterns) (codes "ro,avb rw") out
    × (remove_pattern (match_patterns verity_patterns) (codes "ro,avb rw")
        ≡ (out ++ replicate (length (codes "ro,avb rw") - length out) 0, length out))
remove_pattern_lem_example =
    remove_pattern_lem (match_patterns verity_patterns) (codes "ro,avb rw")
      (match_patterns-IsBounded verity_patterns (omega arith))

match_patterns-in_range_example :
    (comma_len (codes ",avb rw") ≤ length (codes ",avb rw"))
    × ((n : ℕ) × (match_text verity_patterns (drop (comma_len (codes ",avb rw")) (codes ",avb rw"))
          ≡ some n)
        × (comma_len (codes ",avb rw") + n ≤ length (codes ",avb rw")))
    × (0 < 4)
    × (4 ≤ length (codes ",avb rw"))
unfolding match_patterns starts_with
match_patterns-in_range_example =
    match_patterns-in_range verity_patterns b',' (codes "avb rw") 4 (omega arith) refl

patch_verity-IsClean_example : patch_verity (codes "ro,x") ≡ (codes "ro,x", 4)
unfolding match_verity_pattern starts_with
patch_verity-IsClean_example =
    patch_verity-IsClean (codes "ro,x") (refl, (refl, (refl, (refl, tt))))

hex2byte-hex_encode_example : hex2byte (codes "0AFF") ≡ 10 ∷ 255 ∷ []
hex2byte-hex_encode_example = hex2byte-hex_encode true (10 ∷ 255 ∷ []) (omega arith)
