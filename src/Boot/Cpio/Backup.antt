-- ===== src/Boot/Cpio/Backup.antt =====
-- backup and restore of native/src/boot/cpio.rs. The `HashMap`s are the ordered map as well: they
-- are only inserted to, asked whether they are empty, and moved into the archive.
pub mod Merge
pub mod Stored
pub mod Removed
pub mod Restored
pub mod Archived
pub mod RoundTrip
pub mod Laws
use magisk.Prelude.{
  ℕ, zero, suc, ◌+◌, ◌-◌, ◌*◌, ◌/◌, ◌%◌, ◌^◌, ◌≤◌, ◌<◌, Ordering, compare, bit_and, bit_or, ◌≡◌,
  refl, sym, ap, ap₂, ◌∙◌, fun_ext, ◌≢◌, ◌↔◌, ◌⊎◌, inl, inr, Bool, true, false, not, ◌&&◌, ◌||◌,
  Option, none, some, List, [], ◌∷◌, ◌++◌, map, append-nil, append_assoc, arith, ltb, leb, ◌==◌,
  if◌then◌else◌, ltb→lt, lt→ltb, ltb→le, leb→le, le→leb, ==_iff, tests, Bool-cases, Option-cases,
  Bytes, All, length, take, drop, replicate, is_empty, all_of, length-append, length-replicate,
  take-append-drop, length-take, length-drop, take-append_left, drop-append_left, take_all,
  drop_all, set, set-append,
}
use magisk.Base.Text.{codes, equal, starts_with, ends_with, split}
use magisk.Base.Utf8.{is_utf8}
use magisk.Base.Order.{compare_bytes}
use magisk.Base.Map.{Map, insert, retain, extend}
use magisk.Base.Outcome.{Outcome, ok, fail, panic, out_of_fuel, ◌>>=◌}
use magisk.Boot.Cpio.{CpioEntry, Cpio, s_ifdir, s_ifreg, has_type}
use magisk.Boot.Cpio.Edit.{rm}

-- The XZ coder of `compress.rs`, which calls a library: `none` where it reports an error.
pub record Codec : Type 0 where
  pub encode : Bytes → Option Bytes
  pub decode : Bytes → Option Bytes

-- What the library documents: decoding gives back what was encoded.
abbrev pub IsLossless : Codec → Type 0
IsLossless codec = (b c : Bytes) → codec.encode b ≡ some c → codec.decode c ≡ some b

abbrev pub with_content : CpioEntry → Option Bytes → Option CpioEntry
with_content e none = none
with_content e (some b) = some (record e { content = b })

-- `CpioEntry::compress` and `decompress`: the changed entry where they return true.
unfoldable pub compress : Codec → CpioEntry → Option CpioEntry
compress codec e = if has_type s_ifreg e.mode then with_content e (codec.encode e.content) else none

unfoldable pub decompress : Codec → CpioEntry → Option CpioEntry
decompress codec e =
    if has_type s_ifreg e.mode then with_content e (codec.decode e.content) else none

abbrev pub backup_dir : Bytes
backup_dir = codes ".backup"

-- ".backup/"
abbrev pub backup_prefix : Bytes
backup_prefix = codes ".backup/"

abbrev pub xz_suffix : Bytes
xz_suffix = codes ".xz"

abbrev pub rmlist_name : Bytes
rmlist_name = codes ".backup/.rmlist"

abbrev pub magisk_name : Bytes
magisk_name = codes ".backup/.magisk"

abbrev pub empty_entry : ℕ → Bytes → CpioEntry
empty_entry mode content = record {
  mode = mode;
  uid = 0;
  gid = 0;
  rdevmajor = 0;
  rdevminor = 0;
  content = content;
}

-- `if !rm_list.is_empty()`
abbrev pub with_rmlist : Cpio × Bytes → Cpio
with_rmlist (backups, []) = backups
with_rmlist (backups, c ∷ rm_list) = insert rmlist_name (empty_entry s_ifreg (c ∷ rm_list)) backups

module _ (codec : Codec) (skip_compress : Bool) where
  -- The name and the entry that `Action::Backup` stores.
  unfoldable pub stored : Bytes → CpioEntry → Bytes × CpioEntry
  stored name e = elim (if skip_compress then none else compress codec e) [
    | some e' ↦ (backup_prefix ++ (name ++ xz_suffix), e')
    | none ↦ (backup_prefix ++ name, e)
  ]

  abbrev pub store : Bytes → CpioEntry → Cpio → Cpio
  store name e backups = insert (stored name e).0 (stored name e).1 backups

  -- The loop of `backup` over the two archives: what it leaves in `backups` and `rm_list`.
  unfoldable pub backup_loop : Cpio → Cpio → Cpio → Bytes → Cpio × Bytes
  backup_loop [] [] backups rm_list = (backups, rm_list)
  backup_loop ((ln, le) ∷ left) [] backups rm_list =
      backup_loop left [] (store ln le backups) rm_list
  backup_loop [] ((rn, re) ∷ right) backups rm_list =
      backup_loop [] right backups (rm_list ++ (rn ++ (0 ∷ [])))
  backup_loop ((ln, le) ∷ left) ((rn, re) ∷ right) backups rm_list = elim (compare_bytes ln rn) [
    | Ordering.lt ↦ backup_loop left ((rn, re) ∷ right) (store ln le backups) rm_list
    | Ordering.gt ↦ backup_loop ((ln, le) ∷ left) right backups (rm_list ++ (rn ++ (0 ∷ [])))
    | Ordering.eq ↦
        backup_loop left right
          (if equal re.content le.content then backups else store ln le backups) rm_list
  ]

  -- `backup`, behind the loading of the original archive.
  unfoldable pub backup_from : Cpio → Cpio → Cpio
  backup_from entries o =
      let o' = rm o backup_dir true in
      let entries' = rm entries backup_dir true in
      let backups = (backup_dir, empty_entry s_ifdir []) ∷ [] in
      extend entries' (with_rmlist (backup_loop o' entries' backups []))

  -- `backup`: `origin` is what `load_from_file` returns.
  unfoldable pub backup : Cpio → Outcome Cpio → Outcome Cpio
  unfolding backup_from
  backup entries origin = do o ← origin; ok (backup_from entries o)

-- The name and the entry that `restore` makes of a backup that is not one of the two special files.
unfoldable pub unstored : Codec → Bytes → CpioEntry → Bytes × CpioEntry
unstored codec name e = elim (if ends_with name xz_suffix then decompress codec e else none) [
  | some e' ↦ (take (length name - 3 - 8) (drop 8 name), e')
  | none ↦ (drop 8 name, e)
]

-- The two closures over `extract_if`, for one entry: what they leave in `backups` and `rm_list`.
unfoldable pub restore_entry : Codec → Bytes → CpioEntry → Cpio × Bytes → Cpio × Bytes
restore_entry codec name e (backups, rm_list) =
    if equal name rmlist_name
    then (backups, if is_utf8 e.content then rm_list ++ e.content else rm_list)
    else if equal name magisk_name
    then (backups, rm_list)
    else (insert (unstored codec name e).0 (unstored codec name e).1 backups, rm_list)

unfoldable pub restore_entries : Codec → Cpio → Cpio × Bytes → Cpio × Bytes
restore_entries codec [] s = s
restore_entries codec ((name, e) ∷ entries) s =
    restore_entries codec entries
      (if starts_with name backup_prefix then restore_entry codec name e s else s)

-- What `extract_if` leaves in the archive.
abbrev pub not_backup : Bytes → CpioEntry → Option CpioEntry
not_backup name e = if starts_with name backup_prefix then none else some e

-- The loop over `rm_list.split('\0')`
unfoldable pub rm_names : Cpio → List Bytes → Cpio
rm_names entries [] = entries
rm_names entries ([] ∷ names) = rm_names entries names
rm_names entries ((c ∷ name) ∷ names) = rm_names (rm entries (c ∷ name) false) names

abbrev pub restore_with : Cpio → Cpio × Bytes → Cpio
restore_with entries ([], []) = []
restore_with entries (backups, rm_list) = extend (rm_names entries (split 0 rm_list)) backups

-- `restore`
unfoldable pub restore : Codec → Cpio → Cpio
unfolding restore_entry restore_entries rm_names
restore codec entries =
    restore_with (rm (retain not_backup entries) backup_dir false)
      (restore_entries codec entries ([], []))
