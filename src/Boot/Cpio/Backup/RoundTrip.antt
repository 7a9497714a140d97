-- ===== src/Boot/Cpio/Backup/RoundTrip.antt =====
-- `restore` after `backup` (native/src/boot/cpio.rs).
use mathlib.Core.Bool.{false≢true}
use magisk.Prelude.{
  ◌≡◌, refl, sym, ap, ap₂, ◌∙◌, inl, inr, Bool, true, false, Option, none, some, [], arith,
  Option-cases, Bytes,
}
use magisk.Base.Text.{starts_with, split, non_empty, join}
use magisk.Base.Utf8.{is_utf8}
use magisk.Base.Order.{compare_bytes}
use magisk.Base.Map.{
  IsSorted, get, retain, extend, retain-IsSorted, extend-IsSorted, get-retain, or_else, get-extend,
  map_ext,
}
use magisk.Base.Map.Entries.{Entries, is_some, Entries-extend, Entries-get, Entries-of_get}
use magisk.Boot.Cpio.{CpioEntry, Cpio}
use magisk.Boot.Cpio.Paths.{norm_path}
use magisk.Boot.Cpio.Edit.{rm}
use magisk.Boot.Cpio.Edit.Laws.{get-rm, rm-IsSorted}
use magisk.Boot.Cpio.Backup.{
  Codec, IsLossless, backup_dir, backup_prefix, rmlist_name, stored, restore_entries, not_backup,
  restore_with, restore,
}
use magisk.Boot.Cpio.Backup.Merge.{
  recorded-IsSorted, changed, recorded, name_list, changed-IsSorted, get-changed, get-recorded,
}
use magisk.Boot.Cpio.Backup.Stored.{Storable, stored-StoredAs}
use magisk.Boot.Cpio.Backup.Removed.{Listable, is_utf8-name_list}
use magisk.Boot.Cpio.Backup.Restored.{
  Known, restore_entries_sound, restore_entries-IsSorted, restore_entries_complete,
  restore_entries_rm_list,
}
use magisk.Boot.Cpio.Backup.Archived.{
  in_backup, backups, backups-Known, get-backups, backups-stored, backups-IsSorted, backups-listed,
}

abbrev pub content_of : Option CpioEntry → Option Bytes
content_of none = none
content_of (some e) = some e.content

-- The data under a name.
abbrev pub content_at : Bytes → Cpio → Option Bytes
content_at k m = content_of (get k m)

module _ (codec : Codec) (skip : Bool) (lossless : IsLossless codec) (left right : Cpio)
    (sl : IsSorted left) (sr : IsSorted right) (storable : Entries Storable left)
    (listable : Entries Listable right)
    (free : (k : Bytes) → in_backup k ≡ true → get k right ≡ none) where
  -- The archive that `backup` leaves.
  abbrev pub archive : Cpio
  archive = extend right (backups codec skip left right)

  pub sc : IsSorted (changed left right)
  sc = changed-IsSorted left right sl

  Storable-changed : Entries Storable (changed left right)
  Storable-changed =
      Entries-of_get Storable (changed left right) sc
        (λ k v e. Entries-get Storable k v left storable (from_left k v e))
    where
      from_left :
          (k : Bytes) (v : CpioEntry) → get k (changed left right) ≡ some v → get k left ≡ some v
      from_left k v e = ground (arith, get-changed left right k sl sr)

  not_inside :
      (k : Bytes) (v : CpioEntry) → get k right ≡ some v → starts_with k backup_prefix ≡ false
  not_inside k v e = ground (arith, free k)

  archive-Known :
      Entries (Known codec (changed left right) (name_list (recorded left right))) archive
  archive-Known =
      Entries-extend (Known codec (changed left right) (name_list (recorded left right))) right
        (backups codec skip left right)
        (Entries-of_get _ right sr (λ k v e. Known.outside (not_inside k v e)))
        (backups-Known codec skip left right lossless Storable-changed sc)

  archive-IsSorted : IsSorted archive
  archive-IsSorted = extend-IsSorted right (backups codec skip left right) sr

  get-archive :
      (k : Bytes) → get k archive ≡ or_else (get k (backups codec skip left right)) (get k right)
  get-archive k =
      get-extend k right (backups codec skip left right)
        (backups-IsSorted codec skip left right lossless Storable-changed sc)

  pub Listable-recorded : Entries Listable (recorded left right)
  Listable-recorded =
      Entries-of_get Listable (recorded left right) (recorded-IsSorted left right sr)
        (λ k v e. Entries-get Listable k v right listable (from_right k v e))
    where
      from_right :
          (k : Bytes) (v : CpioEntry) → get k (recorded left right) ≡ some v → get k right ≡ some v
      from_right k v e = ground (arith, get-recorded left right k sl sr)

  utf8 : is_utf8 (name_list (recorded left right)) ≡ true
  utf8 = is_utf8-name_list (recorded left right) Listable-recorded

  abbrev restored : Cpio × Bytes
  restored = restore_entries codec archive ([], [])

  restored_names :
      (k : Bytes) (e : CpioEntry)
      → get k (changed left right) ≡ some e
      → is_some (get k restored.0) ≡ true
  restored_names k e h =
      let form =
        stored-StoredAs codec skip k e lossless
          (Entries-get Storable k e (changed left right) Storable-changed h) in
      let q = (stored codec skip k e).0 in
      let here : is_some (get q archive) ≡ true = ground (
        arith,
        get-archive q,
        backups-stored codec skip left right lossless Storable-changed sc k e h,
      ) in
      rw form.name at (
        restore_entries_complete codec (changed left right) (name_list (recorded left right)) utf8
          archive ([], []) q archive-Known form.inside form.not_rmlist (inr here))

  -- The entries that are restored are those that were backed up.
  restored_changed : restored.0 ≡ changed left right
  restored_changed =
      map_ext restored.0 (changed left right)
        (restore_entries-IsSorted codec (changed left right) (name_list (recorded left right)) utf8
          archive ([], []) archive-Known tt)
        sc same_answer
    where
      same_answer : (k : Bytes) → get k restored.0 ≡ get k (changed left right)
      same_answer k = elim (Option-cases (get k restored.0)) [
        | inl gone ↦ elim (Option-cases (get k (changed left right))) [
          | inl gone' ↦ gone ∙ sym gone'
          | inr (e, h) ↦ absurd (false≢true (sym (ap is_some gone) ∙ restored_names k e h))
        ]
        | inr (e, h) ↦
            h
            ∙ sym (
                Entries-get (λ n e. get n (changed left right) ≡ some e) k e restored.0
                  (restore_entries_sound codec (changed left right)
                    (name_list (recorded left right)) utf8 archive ([], []) archive-Known tt)
                  h)
      ]

  restored_list : restored.1 ≡ name_list (recorded left right)
  restored_list =
      restore_entries_rm_list codec (changed left right) (name_list (recorded left right)) utf8
        archive ([], []) archive-Known archive-IsSorted
      ∙ ground (
        arith,
        get-archive rmlist_name,
        free rmlist_name (unfold compare_bytes starts_with in refl),
        backups-listed codec skip left right lossless Storable-changed sc,
      )

  cleaned_at : (k : Bytes) → get k (rm (retain not_backup archive) backup_dir false) ≡ get k right
  cleaned_at k = ground (
    arith,
    get-rm (retain not_backup archive) backup_dir false k
        (retain-IsSorted not_backup archive archive-IsSorted),
    plain_dir,
    get-retain not_backup k archive archive-IsSorted,
    get-archive k,
    get-backups codec skip left right lossless Storable-changed sc k,
    free k,
  )
    where
      plain_dir : norm_path backup_dir ≡ backup_dir
      plain_dir = unfold norm_path split non_empty join in refl

  -- Without its backup the archive is what it was.
  archive_cleaned : rm (retain not_backup archive) backup_dir false ≡ right
  archive_cleaned =
      map_ext (rm (retain not_backup archive) backup_dir false) right
        (rm-IsSorted (retain not_backup archive) backup_dir false
          (retain-IsSorted not_backup archive archive-IsSorted))
        sr cleaned_at

  pub restore-archive :
      restore codec archive
      ≡ restore_with right (changed left right, name_list (recorded left right))
  unfolding restore
  restore-archive =
      ap₂ restore_with archive_cleaned (ap₂ (λ a b. (a, b)) restored_changed restored_list)
