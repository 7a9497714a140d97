-- ===== src/Boot/Cpio/Ramdisk/Patched.antt =====
-- What `patch` and `test` of native/src/boot/cpio.rs do.
use magisk.Prelude.{
  ℕ, zero, suc, ◌-◌, ◌≡◌, refl, ap, ap₂, ◌∙◌, Bool, true, false, not, ◌&&◌, Option, none, some, [],
  ◌∷◌, ◌++◌, append-nil, arith, ◌==◌, if◌then◌else◌, Bytes, length, take, replicate, length-append,
  length-replicate,
}
use magisk.Base.Text.{equal}
use magisk.Base.Map.{IsSorted, get, bind, get-retain}
use magisk.Boot.Patch.{match_verity_pattern, match_encryption_pattern}
use magisk.Boot.Patch.Strips.{Strips}
use magisk.Boot.Patch.Flags.{patch_verity_lem, patch_encryption_lem}
use magisk.Boot.Cpio.{CpioEntry, Cpio}
use magisk.Boot.Cpio.Ramdisk.{
  is_fstab, resized, verity_key, verity_step, encryption_step, patch_entry, patch,
}

-- What is cut out of a text, unless it is to be kept.
abbrev pub Cut : Bool → (Bytes → Option ℕ) → Bytes → Bytes → Type 0
Cut true matcher text out = out ≡ text
Cut false matcher text out = Strips matcher text out

take_front : (a b : Bytes) → take (length a) (a ++ b) ≡ a
take_front [] b = refl
take_front (x ∷ a) b = ap (◌∷◌ x) (take_front a b)

if_agrees {ℓ} :
    {A : Type ℓ} (c : Bool) {x y z : A} → (c ≡ true → x ≡ z) → y ≡ z → (if c then x else y) ≡ z
if_agrees true f g = f refl
if_agrees false f g = g

resized_front : (out : Bytes) (n : ℕ) → resized (out ++ replicate n 0, length out) ≡ out
resized_front out n = if_agrees (length out == length (out ++ replicate n 0)) (same_length n) (
    ap₂ ◌++◌ (take_front out (replicate n 0)) (ap (λ (k : ℕ). replicate {A = ℕ} k 0) nothing_more)
    ∙ append-nil out)
  where
    same_length :
        (n : ℕ) → (length out == length (out ++ replicate n 0)) ≡ true → out ++ replicate n 0 ≡ out
    same_length zero h = append-nil out
    same_length (suc n) h = absurd (
        ground (
          arith,
          length-append out (replicate {A = ℕ} (suc n) 0),
          length-replicate {A = ℕ} (suc n) 0,
        ))

    nothing_more : length out - length (out ++ replicate n 0) ≡ 0
    nothing_more = omega (arith, length-append out (replicate {A = ℕ} n 0))

verity_step-Cut :
    (keep : Bool) (name content : Bytes)
    → (mid : Bytes) × Cut keep match_verity_pattern content mid
      × (verity_step keep true name content ≡ some mid)
unfolding verity_step
verity_step-Cut true name content = (content, refl, refl)
verity_step-Cut false name content =
    let (out, s, e) = patch_verity_lem content in
    (
      out,
      s,
      ap (λ p. some (resized p)) e ∙ ap some (resized_front out (length content - length out)),
    )

encryption_step-Cut :
    (keep : Bool) (content : Bytes)
    → (out : Bytes) × Cut keep match_encryption_pattern content out
      × (encryption_step keep true content ≡ out)
unfolding encryption_step
encryption_step-Cut true content = (content, refl, refl)
encryption_step-Cut false content =
    let (out, s, e) = patch_encryption_lem content in
    (out, s, ap resized e ∙ resized_front out (length content - length out))

patch_entry_steps :
    (keep_force_encrypt : Bool) (name : Bytes) (e : CpioEntry) {mid out : Bytes}
    → is_fstab name e.mode ≡ true
    → verity_step false true name e.content ≡ some mid
    → encryption_step keep_force_encrypt true mid ≡ out
    → patch_entry false keep_force_encrypt name e ≡ some (record e { content = out })
unfolding patch_entry
patch_entry_steps keep_force_encrypt name e h p q = ground arith

fstab_entry :
    (keep_verity keep_force_encrypt : Bool) (name : Bytes) (e : CpioEntry)
    → is_fstab name e.mode ≡ true
    → (mid : Bytes) × (out : Bytes) × Cut keep_verity match_verity_pattern e.content mid
      × Cut keep_force_encrypt match_encryption_pattern mid out
      × (patch_entry keep_verity keep_force_encrypt name e ≡ some (record e { content = out }))
unfolding patch_entry
fstab_entry true true name e h = (e.content, e.content, refl, refl, ground arith)
fstab_entry true false name e h =
    let (out, s, q) = encryption_step-Cut false e.content in (e.content, out, refl, s, ground arith)
fstab_entry false keep_force name e h =
    let (mid, s, p) = verity_step-Cut false name e.content in
    let (out, t, q) = encryption_step-Cut keep_force mid in
    (mid, out, s, t, patch_entry_steps keep_force name e h p q)

-- In a sorted archive, an entry that `patch` takes for an `fstab` file keeps its place; the
-- verity patterns are cut out of its data unless `KEEPVERITY` is set, then the encryption
-- patterns unless `KEEPFORCEENCRYPT` is set, and nothing else of it changes.
pub patch-fstab :
    (keep_verity keep_force_encrypt : Bool) (entries : Cpio) (name : Bytes) (e : CpioEntry)
    → IsSorted entries
    → get name entries ≡ some e
    → is_fstab name e.mode ≡ true
    → (mid : Bytes) × (out : Bytes) × Cut keep_verity match_verity_pattern e.content mid
      × Cut keep_force_encrypt match_encryption_pattern mid out
      × (get name (patch keep_verity keep_force_encrypt entries)
          ≡ some (record e { content = out }))
unfolding patch
patch-fstab keep_verity keep_force_encrypt entries name e s h f =
    let (mid, out, a, b, q) = fstab_entry keep_verity keep_force_encrypt name e f in
    (
      mid,
      out,
      a,
      b,
      get-retain (patch_entry keep_verity keep_force_encrypt) name entries s
          ∙ ap (λ o. bind o (patch_entry keep_verity keep_force_encrypt name)) h
          ∙ q,
    )

-- In a sorted archive, `patch` leaves every entry that is no `fstab` file as it is, except that
-- `verity_key` goes unless `KEEPVERITY` is set.
pub patch_others :
    (keep_verity keep_force_encrypt : Bool) (entries : Cpio) (name : Bytes) (e : CpioEntry)
    → IsSorted entries
    → get name entries ≡ some e
    → is_fstab name e.mode ≡ false
    → get name (patch keep_verity keep_force_encrypt entries)
      ≡ (if not keep_verity && equal name verity_key then none else some e)
unfolding patch patch_entry verity_step encryption_step
patch_others keep_verity keep_force_encrypt entries name e s h f =
    ground (arith, get-retain (patch_entry keep_verity keep_force_encrypt) name entries s)
