-- ===== src/Boot/Cpio/Examples.antt =====
-- The theorems about native/src/boot/cpio.rs at concrete inputs.
use magisk.Base.Order.{compare_bytes}
use magisk.Prelude.{
  bit_or, All, ◌≡◌, refl, sym, ◌≢◌, ◌↔◌, inr, true, false, none, some, [], ◌∷◌, arith,
  if◌then◌else◌, Bytes,
}
use magisk.Base.Text.{codes, equal, starts_with, ends_with, split, non_empty, join}
use magisk.Base.Utf8.{is_utf8}
use magisk.Base.Map.{insert, IsSorted, same, get, remove, retain}
use magisk.Base.Map.Entries.{Entries}
use magisk.Base.Outcome.{◌>>=◌, ok}
use magisk.Boot.Patch.{match_verity_pattern, match_encryption_pattern}
use magisk.Boot.Cpio.{CpioEntry, Cpio}
use magisk.Boot.Cpio.Paths.{norm_path, components, norm_path_iff}
use magisk.Boot.Cpio.Hex.{x8u, format_08x, x8u-format_08x}
use magisk.Boot.Cpio.Archive.{load_from_data, dump}
use magisk.Boot.Cpio.Archive.Rounds.{Fits}
use magisk.Boot.Cpio.Archive.RoundTrip.{load_from_data-dump}
use magisk.Boot.Cpio.Archive.Total.{Loaded, load_from_data-Loaded}
use magisk.Boot.Cpio.Edit.{InFile, rm, mkdir, ok_or_fail, mv, add}
use magisk.Boot.Cpio.Edit.Laws.{get-rm, mv_lem, add_iff, Taken}
use magisk.Boot.Cpio.Backup.{Codec, IsLossless, backup_from, restore}
use magisk.Boot.Cpio.Backup.Stored.{Storable}
use magisk.Boot.Cpio.Backup.Removed.{Listable}
use magisk.Boot.Cpio.Backup.Archived.{clean}
use magisk.Boot.Cpio.Backup.RoundTrip.{content_at}
use magisk.Boot.Cpio.Backup.Laws.{restore-backup, restore-backup_same}
use magisk.Boot.Cpio.Ramdisk.{is_fstab, verity_key, patch}
use magisk.Boot.Cpio.Ramdisk.Patched.{Cut, patch-fstab, patch_others}
use magisk.Boot.Cpio.Commands.{
  System, run_action, run_command, cpio_commands, run_make_dir, go, dumped,
}
use magisk.Boot.Cpio.Commands.Run.{
  Runs, Continues, start, cpio_commands-dumped, cpio_commands-Runs, at_end, after,
}

abbrev init : Bytes
init = codes "init"

abbrev plain_file : Bytes → CpioEntry
plain_file content = record {
  mode = 0o100750;
  uid = 0;
  gid = 2000;
  rdevmajor = 0;
  rdevminor = 0;
  content = content;
}

-- The stock ramdisk.
abbrev stock : Cpio
stock = (init, plain_file (codes "stock")) ∷ []

-- The ramdisk with another `init` and a file more.
abbrev patched : Cpio
patched = (init, plain_file (codes "magiskinit")) ∷ (codes "overlay", plain_file (codes "x")) ∷ []

-- A coder that changes nothing.
abbrev id_codec : Codec
id_codec = record { encode = λ b. some b; decode = λ b. some b }

id_codec-IsLossless : IsLossless id_codec
id_codec-IsLossless b c e = sym e

stock-IsSorted : IsSorted stock
stock-IsSorted = (tt, tt)

patched-IsSorted : IsSorted patched
unfolding compare_bytes
patched-IsSorted = ((refl, tt), (tt, tt))

stock-Storable : Entries Storable stock
unfolding ends_with equal
stock-Storable = (record { no_xz = refl; no_rmlist = refl; no_magisk = refl }, tt)

init-Listable : Listable init (plain_file (codes "magiskinit"))
unfolding norm_path split non_empty join is_utf8
init-Listable = record { normal = refl; not_empty = cc; no_nul = ground arith; utf8 = refl }

stock_init-Listable : Listable init (plain_file (codes "stock"))
unfolding norm_path split non_empty join is_utf8
stock_init-Listable = record { normal = refl; not_empty = cc; no_nul = ground arith; utf8 = refl }

overlay-Listable : Listable (codes "overlay") (plain_file (codes "x"))
unfolding norm_path split non_empty join is_utf8
overlay-Listable = record { normal = refl; not_empty = cc; no_nul = ground arith; utf8 = refl }

init_differs : content_at init (clean stock) ≢ content_at init (clean patched)
unfolding rm remove retain get norm_path split non_empty join starts_with compare_bytes
init_differs e = cc e

restore-backup_example :
    content_at init (restore id_codec (backup_from id_codec false patched stock))
    ≡ content_at init (clean stock)
restore-backup_example =
    restore-backup id_codec false id_codec-IsLossless stock patched stock-IsSorted patched-IsSorted
      stock-Storable (init-Listable, (overlay-Listable, tt)) init init init_differs

restore-backup_same_example : restore id_codec (backup_from id_codec false stock stock) ≡ []
restore-backup_same_example =
    restore-backup_same id_codec false id_codec-IsLossless stock stock stock-IsSorted stock-IsSorted
      stock-Storable (stock_init-Listable, tt) (λ k. refl)

init-Fits : Fits init (plain_file (codes "stock"))
unfolding equal is_utf8
init-Fits = record {
  mode = omega arith;
  uid = omega arith;
  gid = omega arith;
  rdevmajor = omega arith;
  rdevminor = omega arith;
  filesize = omega arith;
  namesize = omega arith;
  no_nul = ground arith;
  utf8 = refl;
  no_dot = refl;
  no_dots = refl;
  no_trailer = refl;
}

load_from_data-dump_example : load_from_data (dump stock) ≡ ok stock
load_from_data-dump_example = load_from_data-dump stock stock-IsSorted (init-Fits, tt) (omega arith)

load_from_data-Loaded_example : Loaded (load_from_data (dump stock))
load_from_data-Loaded_example = load_from_data-Loaded (dump stock)

system : System
system = record {
  codec = id_codec;
  keep_verity = false;
  keep_force_encrypt = false;
  read_archive = λ name. none;
  read_file = λ name. none;
  write_entry = λ name e. true;
  from_args = λ words. inr (run_make_dir 0o755 (codes "overlay.d"));
}

mkdir_run :
    run_command system [] (codes "mkdir 755 overlay.d")
    ≡ ok (go (mkdir [] 0o755 (codes "overlay.d")))
unfolding run_command run_action starts_with system
mkdir_run = refl

mkdir_runs :
    cpio_commands system false [] (codes "mkdir 755 overlay.d" ∷ [])
    ≡ ok (dumped (dump (mkdir [] 0o755 (codes "overlay.d"))))
mkdir_runs =
    cpio_commands-Runs system false [] (codes "mkdir 755 overlay.d" ∷ []) []
      (mkdir [] 0o755 (codes "overlay.d")) refl (after mkdir_run at_end)

cpio_commands-dumped_example :
    (first : Cpio) × (last : Cpio) × (start system false [] ≡ ok first)
    × Runs system first (codes "mkdir 755 overlay.d" ∷ []) last
    × All (Continues system) (codes "mkdir 755 overlay.d" ∷ [])
    × IsSorted last
    × (dump (mkdir [] 0o755 (codes "overlay.d")) ≡ dump last)
cpio_commands-dumped_example =
    cpio_commands-dumped system false [] (dump (mkdir [] 0o755 (codes "overlay.d")))
      (codes "mkdir 755 overlay.d" ∷ []) mkdir_runs

abbrev fstab_name : Bytes
fstab_name = codes "fstab.qcom"

abbrev fstab : CpioEntry
fstab = plain_file (codes "/vendor wait,verify,forceencrypt=x\n")

abbrev fstab_ramdisk : Cpio
fstab_ramdisk = (fstab_name, fstab) ∷ (verity_key, plain_file (codes "k")) ∷ []

fstab_ramdisk-IsSorted : IsSorted fstab_ramdisk
unfolding compare_bytes
fstab_ramdisk-IsSorted = ((refl, tt), (tt, tt))

patch-fstab_example :
    (mid : Bytes) × (out : Bytes) × Cut false match_verity_pattern fstab.content mid
    × Cut false match_encryption_pattern mid out
    × (get fstab_name (patch false false fstab_ramdisk) ≡ some (record fstab { content = out }))
unfolding get compare_bytes is_fstab starts_with
patch-fstab_example =
    patch-fstab false false fstab_ramdisk fstab_name fstab fstab_ramdisk-IsSorted refl refl

patch_others_example : get verity_key (patch false true fstab_ramdisk) ≡ none
unfolding get compare_bytes is_fstab starts_with equal
patch_others_example =
    patch_others false true fstab_ramdisk verity_key (plain_file (codes "k")) fstab_ramdisk-IsSorted
      refl refl

x8u-format_08x_example : x8u (format_08x 300000) ≡ ok 300000
x8u-format_08x_example = x8u-format_08x 300000 (omega arith)

norm_path_iff_example :
    (norm_path (codes "/sbin//su/") ≡ norm_path (codes "sbin/su"))
    ↔ (components (codes "/sbin//su/") ≡ components (codes "sbin/su"))
norm_path_iff_example = norm_path_iff (codes "/sbin//su/") (codes "sbin/su")

get-rm_example : get (codes "overlay") (rm patched init false) ≡ some (plain_file (codes "x"))
unfolding get compare_bytes norm_path split non_empty join starts_with
get-rm_example = get-rm patched init false (codes "overlay") patched-IsSorted

mv_lem_example : (do moved ← mv stock init (codes "real_init"); ok (get init moved)) ≡ (do
  e ← ok_or_fail (get (norm_path init) stock)
  ok (
      if same init (norm_path (codes "real_init"))
      then some e
      else if same init (norm_path init)
      then none
      else get init stock))
mv_lem_example = mv_lem stock init (codes "real_init") init

abbrev text_file : InFile
text_file = record {
  is_file = true;
  is_symlink = false;
  is_block_device = false;
  is_char_device = false;
  rdev_major = 0;
  rdev_minor = 0;
  bytes = some (codes "t");
}

abbrev text_entry : CpioEntry
text_entry = record {
  mode = bit_or 0o644 0o100000;
  uid = 0;
  gid = 0;
  rdevmajor = 0;
  rdevminor = 0;
  content = codes "t";
}

abbrev with_text : Cpio
with_text = insert (norm_path (codes "a")) text_entry stock

add_iff_example : (add stock 0o644 (codes "a") (some text_file) ≡ ok with_text) ↔ (
    (ends_with (codes "a") (codes "/") ≡ false)
    × ((attr : InFile) × (e : CpioEntry) × (some text_file ≡ some attr)
        × Taken 0o644 attr e
        × (insert (norm_path (codes "a")) e stock ≡ with_text)))
add_iff_example = add_iff stock 0o644 (codes "a") (some text_file) with_text
