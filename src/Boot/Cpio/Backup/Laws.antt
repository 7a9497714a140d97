-- ===== src/Boot/Cpio/Backup/Laws.antt =====
-- `restore` after `backup` (native/src/boot/cpio.rs).
use magisk.Prelude.{
  ◌≡◌, refl, sym, ap, ap₂, ◌∙◌, ◌≢◌, Bool, true, Option, none, some, [], ◌∷◌, arith, if◌then◌else◌,
  Bytes,
}
use magisk.Base.Text.{split, equal_refl, equal→eq}
use magisk.Base.Map.{IsSorted, get, extend, or_else, get-extend, map_ext}
use magisk.Base.Map.Entries.{Entries, is_some, Entries-get, Entries-of_get}
use magisk.Boot.Cpio.{CpioEntry, Cpio}
use magisk.Boot.Cpio.Edit.Laws.{rm-IsSorted}
use magisk.Boot.Cpio.Backup.{
  Codec, IsLossless, backup_dir, empty_entry, with_rmlist, backup_from, rm_names, restore_with,
  restore,
}
use magisk.Boot.Cpio.Backup.Merge.{
  changed, recorded, name_list, backup_loop_lem, changed_at, recorded_at, changed-IsSorted,
  get-changed, recorded-IsSorted, get-recorded,
}
use magisk.Boot.Cpio.Backup.Stored.{Storable}
use magisk.Boot.Cpio.Backup.Removed.{Listable, get-rm_names}
use magisk.Boot.Cpio.Backup.Archived.{clean, in_backup, get-clean, backups}
use magisk.Boot.Cpio.Backup.RoundTrip.{content_of, content_at, Listable-recorded, restore-archive}

-- What `restore` answers under a name, of the two archives.
content_merged :
    (l r : Option CpioEntry)
    → content_of (or_else (changed_at l r) (if is_some (recorded_at l r) then none else r))
      ≡ content_of l
content_merged none none = refl
content_merged none (some r) = refl
content_merged (some l) none = refl
content_merged (some l) (some r) = ground (arith, equal→eq r.content l.content)

content_unchanged :
    (l r : Option CpioEntry)
    → content_of l ≢ content_of r
    → changed_at l r ≡ none
    → recorded_at l r ≢ none
content_unchanged none none d h = absurd (d refl)
content_unchanged none (some r) d h = λ e. ground arith
content_unchanged (some l) none d h = ground arith
content_unchanged (some l) (some r) d h = absurd (ground (arith, equal→eq r.content l.content, d))

content_agrees :
    (l r : Option CpioEntry)
    → content_of l ≡ content_of r
    → (changed_at l r ≡ none) × (recorded_at l r ≡ none)
content_agrees none none h = (refl, refl)
content_agrees none (some r) h = ground arith
content_agrees (some l) none h = ground arith
content_agrees (some l) (some r) h = ground (arith, equal_refl r.content)

no_names : (m : Cpio) → name_list m ≡ [] → m ≡ []
no_names [] h = refl
no_names (([], e) ∷ m) h = cc
no_names ((c ∷ n, e) ∷ m) h = cc

restore_with_some :
    (r b : Cpio) (rm_list : Bytes)
    → (b ≡ [] → rm_list ≢ [])
    → restore_with r (b, rm_list) ≡ extend (rm_names r (split 0 rm_list)) b
restore_with_some r [] [] h = absurd (h refl refl)
restore_with_some r [] (x ∷ rm_list) h = refl
restore_with_some r (p ∷ b) [] h = refl
restore_with_some r (p ∷ b) (x ∷ rm_list) h = refl

module _ (codec : Codec) (skip : Bool) (lossless : IsLossless codec) (o c : Cpio) (so : IsSorted o)
    (sc : IsSorted c) (storable : Entries Storable o) (listable : Entries Listable c) where
  slo : IsSorted (clean o)
  slo = rm-IsSorted o backup_dir true so

  slc : IsSorted (clean c)
  slc = rm-IsSorted c backup_dir true sc

  clean_sub :
      (m : Cpio) (k : Bytes) (v : CpioEntry)
      → IsSorted m
      → get k (clean m) ≡ some v
      → get k m ≡ some v
  clean_sub m k v s e = ground (arith, get-clean m k s)

  Storable-clean : Entries Storable (clean o)
  Storable-clean =
      Entries-of_get Storable (clean o) slo
        (λ k v e. Entries-get Storable k v o storable (clean_sub o k v so e))

  Listable-clean : Entries Listable (clean c)
  Listable-clean =
      Entries-of_get Listable (clean c) slc
        (λ k v e. Entries-get Listable k v c listable (clean_sub c k v sc e))

  free : (k : Bytes) → in_backup k ≡ true → get k (clean c) ≡ none
  free k h = ground (arith, get-clean c k sc)

  backup_archive :
      backup_from codec skip c o ≡ extend (clean c) (backups codec skip (clean o) (clean c))
  unfolding backup_from
  backup_archive =
      ap (λ s. extend (clean c) (with_rmlist s))
        (backup_loop_lem codec skip (clean o) (clean c) ((backup_dir, empty_entry 16384 []) ∷ [])
          [])

  restore_backup_with :
      restore codec (backup_from codec skip c o)
      ≡ restore_with
          (clean c)
          (changed (clean o) (clean c), name_list (recorded (clean o) (clean c)))
  restore_backup_with =
      ap (restore codec) backup_archive
      ∙ restore-archive codec skip lossless (clean o) (clean c) slo slc Storable-clean
          Listable-clean free

  -- The two archives differ: then one of the two lists is not empty.
  something_to_do :
      (k : Bytes)
      → content_at k (clean o) ≢ content_at k (clean c)
      → changed (clean o) (clean c) ≡ []
      → name_list (recorded (clean o) (clean c)) ≢ []
  something_to_do k d e f =
      content_unchanged (get k (clean o)) (get k (clean c)) d
        (sym (get-changed (clean o) (clean c) k slo slc) ∙ ap (get k) e ∙ unfold get in refl)
        (sym (get-recorded (clean o) (clean c) k slo slc)
          ∙ ap (get k) (no_names (recorded (clean o) (clean c)) f)
          ∙ unfold get in refl)

  -- With a lossless coder, take two sorted archives, the original and the current one. No name of
  -- the original ends in `.xz` or is `.rmlist` or `.magisk`; the names of the current one are
  -- normal paths, not empty, and UTF-8 without NUL. If the two, without their `.backup`, have
  -- different data under some name, then `restore` of what `backup` makes has under every name
  -- the data of the original without its `.backup`, or nothing where that has nothing.
  pub restore-backup :
      (k0 k : Bytes)
      → content_at k0 (clean o) ≢ content_at k0 (clean c)
      → content_at k (restore codec (backup_from codec skip c o)) ≡ content_at k (clean o)
  restore-backup k0 k d = ground (
    arith,
    ap (content_at k) restore_backup_with,
    ap (content_at k) (
        restore_with_some (clean c) (changed (clean o) (clean c))
          (name_list (recorded (clean o) (clean c))) (something_to_do k0 d)),
    get-extend k (rm_names (clean c) (split 0 (name_list (recorded (clean o) (clean c)))))
        (changed (clean o) (clean c)) (changed-IsSorted (clean o) (clean c) slo),
    get-rm_names (clean c) (recorded (clean o) (clean c)) k (
        Listable-recorded codec skip lossless (clean o) (clean c) slo slc Storable-clean
          Listable-clean free),
    get-changed (clean o) (clean c) k slo slc,
    get-recorded (clean o) (clean c) k slo slc,
    content_merged (get k (clean o)) (get k (clean c)),
  )

  -- Under the same conditions, if the two archives without their `.backup` have the same data
  -- under every name, `restore` of what `backup` makes is the empty archive.
  pub restore-backup_same :
      ((k : Bytes) → content_at k (clean o) ≡ content_at k (clean c))
      → restore codec (backup_from codec skip c o) ≡ []
  restore-backup_same h =
      restore_backup_with ∙ ap₂ (λ a b. restore_with (clean c) (a, name_list b)) no_change no_new
    where
      no_change : changed (clean o) (clean c) ≡ []
      no_change = map_ext _ [] (changed-IsSorted (clean o) (clean c) slo) tt (λ k.
          get-changed (clean o) (clean c) k slo slc
          ∙ (content_agrees (get k (clean o)) (get k (clean c)) (h k)).0
          ∙ unfold get in refl)

      no_new : recorded (clean o) (clean c) ≡ []
      no_new = map_ext _ [] (recorded-IsSorted (clean o) (clean c) slc) tt (λ k.
          get-recorded (clean o) (clean c) k slo slc
          ∙ (content_agrees (get k (clean o)) (get k (clean c)) (h k)).1
          ∙ unfold get in refl)
