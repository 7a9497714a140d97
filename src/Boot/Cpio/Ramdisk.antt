-- ===== src/Boot/Cpio/Ramdisk.antt =====
-- The commands `patch` and `test` of native/src/boot/cpio.rs. `keep_verity` and `keep_force_encrypt`
-- are what `check_env` finds in the environment.
pub mod Patched
use magisk.Prelude.{
  ℕ, zero, suc, ◌+◌, ◌-◌, ◌*◌, ◌/◌, ◌%◌, ◌^◌, ◌≤◌, ◌<◌, Ordering, compare, bit_and, bit_or, ◌≡◌,
  refl, sym, ap, ap₂, ◌∙◌, fun_ext, ◌≢◌, ◌↔◌, ◌⊎◌, inl, inr, Bool, true, false, not, ◌&&◌, ◌||◌,
  Option, none, some, List, [], ◌∷◌, ◌++◌, map, append-nil, append_assoc, arith, ltb, leb, ◌==◌,
  if◌then◌else◌, ltb→lt, lt→ltb, ltb→le, leb→le, le→leb, ==_iff, tests, Bool-cases, Option-cases,
  Bytes, All, length, take, drop, replicate, is_empty, all_of, length-append, length-replicate,
  take-append-drop, length-take, length-drop, take-append_left, drop-append_left, take_all,
  drop_all, set, set-append,
}
use magisk.Base.Text.{codes, equal, starts_with}
use magisk.Base.Map.{retain}
use magisk.Boot.Patch.{patch_verity, patch_encryption}
use magisk.Boot.Cpio.{CpioEntry, Cpio, s_ifreg, has_type}
use magisk.Boot.Cpio.Edit.{exists}

-- The part of the variable `fstab` that the flags do not decide.
unfoldable pub is_fstab : Bytes → ℕ → Bool
is_fstab name mode =
    has_type s_ifreg mode
    && (not (starts_with name (codes ".backup"))
        && (not (starts_with name (codes "twrp"))
            && (not (starts_with name (codes "recovery")) && starts_with name (codes "fstab"))))

-- `resize(len, 0)`
abbrev pub resize : ℕ → Bytes → Bytes
resize len b = take len b ++ replicate (len - length b) 0

-- A patch in place, and the `resize` where the length has changed.
abbrev pub resized : Bytes × ℕ → Bytes
resized (b, len) = if len == length b then b else resize len b

abbrev pub verity_key : Bytes
verity_key = codes "verity_key"

-- `if !keep_verity`: the data of the entry, or `none` where the closure returns false.
unfoldable pub verity_step : Bool → Bool → Bytes → Bytes → Option Bytes
verity_step true fstab name content = some content
verity_step false true name content = some (resized (patch_verity content))
verity_step false false name content = if equal name verity_key then none else some content

-- `if !keep_force_encrypt && fstab`
unfoldable pub encryption_step : Bool → Bool → Bytes → Bytes
encryption_step keep_force_encrypt fstab content =
    if not keep_force_encrypt && fstab then resized (patch_encryption content) else content

-- The closure that `patch` hands to `retain`.
unfoldable pub patch_entry : Bool → Bool → Bytes → CpioEntry → Option CpioEntry
unfolding is_fstab verity_step encryption_step
patch_entry keep_verity keep_force_encrypt name e =
    let fstab = (not keep_verity || not keep_force_encrypt) && is_fstab name e.mode in
    elim (verity_step keep_verity fstab name e.content) [
      | none ↦ none
      | some content ↦
          some (record e { content = encryption_step keep_force_encrypt fstab content })
    ]

unfoldable pub patch : Bool → Bool → Cpio → Cpio
unfolding patch_entry
patch keep_verity keep_force_encrypt entries =
    retain (patch_entry keep_verity keep_force_encrypt) entries

abbrev pub unsupported_files : List Bytes
unsupported_files =
    codes "sbin/launch_daemonsu.sh"
    ∷ codes "sbin/su"
    ∷ codes "init.xposed.rc"
    ∷ codes "boot/sbin/launch_daemonsu.sh"
    ∷ []

abbrev pub patched_files : List Bytes
patched_files =
    codes ".backup/.magisk" ∷ codes "init.magisk.rc" ∷ codes "overlay/init.magisk.rc" ∷ []

abbrev pub magisk_patched : ℕ
magisk_patched = 1

abbrev pub unsupported_cpio : ℕ
unsupported_cpio = 2

-- A loop `for file in files` that returns where the file exists.
unfoldable pub any_exists : Cpio → List Bytes → Bool
any_exists entries [] = false
any_exists entries (file ∷ files) =
    let rest = any_exists entries files in if exists entries file then true else rest

unfoldable pub test : Cpio → ℕ
unfolding any_exists
test entries =
    if any_exists entries unsupported_files
    then unsupported_cpio
    else if any_exists entries patched_files
    then magisk_patched
    else 0
