-- ===== src/Boot/Cpio/Backup/Archived.antt =====
-- The archive that `backup` of native/src/boot/cpio.rs leaves: the archive without its old backup,
-- the stored entries, and the list of names.
use mathlib.Core.Bool.{false≢true}
use magisk.Prelude.{
  ◌≡◌, refl, sym, ap, ◌∙◌, inl, inr, Bool, true, false, ◌||◌, none, some, [], ◌∷◌, arith,
  if◌then◌else◌, Bool-cases, Option-cases, Bytes,
}
use magisk.Base.Text.{starts_with, split, non_empty, join}
use magisk.Base.Order.{compare_bytes}
use magisk.Base.Map.{IsSorted, same, same→eq, get, get-insert_self, insert-IsSorted}
use magisk.Base.Map.Entries.{
  Entries, is_some, Entries-insert, Entries-get, present-insert, Entries-of_get,
}
use magisk.Boot.Cpio.{CpioEntry, Cpio, s_ifdir, s_ifreg}
use magisk.Boot.Cpio.Paths.{norm_path}
use magisk.Boot.Cpio.Edit.{rm}
use magisk.Boot.Cpio.Edit.Laws.{get-rm}
use magisk.Boot.Cpio.Backup.{
  Codec, IsLossless, backup_dir, backup_prefix, rmlist_name, empty_entry, stored, store,
  with_rmlist,
}
use magisk.Boot.Cpio.Backup.Merge.{changed, recorded, name_list, store_all}
use magisk.Boot.Cpio.Backup.Stored.{Storable, stored-StoredAs}
use magisk.Boot.Cpio.Backup.Restored.{Known, listed, kept}

-- An archive without its backup.
abbrev pub clean : Cpio → Cpio
clean m = rm m backup_dir true

-- Names that belong to a backup.
abbrev pub in_backup : Bytes → Bool
in_backup k = same k backup_dir || starts_with k backup_prefix

pub get-clean :
    (m : Cpio) (k : Bytes) → IsSorted m → get k (clean m) ≡ (if in_backup k then none else get k m)
get-clean m k s = get-rm m backup_dir true k s ∙ unfold norm_path split non_empty join in refl

module _ (codec : Codec) (skip : Bool) (left right : Cpio) where
  abbrev pub ch : Cpio
  ch = changed left right

  abbrev pub rl : Bytes
  rl = name_list (recorded left right)

  abbrev start : Cpio
  start = (backup_dir, empty_entry s_ifdir []) ∷ []

  -- The map `backups` at the end of `backup`.
  abbrev pub backups : Cpio
  backups = with_rmlist (store_all codec skip ch start, rl)

  module _ (lossless : IsLossless codec) (storable : Entries Storable ch)
      (sorted : IsSorted ch) where
    store_all-Known :
        (m b : Cpio)
        → Entries (λ n e. (get n ch ≡ some e) × Storable n e) m
        → Entries (Known codec ch rl) b
        → Entries (Known codec ch rl) (store_all codec skip m b)
    store_all-Known [] b h k = k
    store_all-Known ((n, e) ∷ m) b h k =
        let form = stored-StoredAs codec skip n e lossless h.0.1 in
        store_all-Known m (store codec skip n e b) h.1 (
          Entries-insert (Known codec ch rl) (stored codec skip n e).0 (stored codec skip n e).1 b
            (kept (record { n = n; e = e; found = h.0.0; form = form })) k)

    with_rmlist-Known :
        (b : Cpio) (r : Bytes)
        → r ≡ rl
        → Entries (Known codec ch rl) b
        → Entries (Known codec ch rl) (with_rmlist (b, r))
    with_rmlist-Known b [] e k = k
    with_rmlist-Known b (c ∷ r) e k =
        Entries-insert (Known codec ch rl) rmlist_name (empty_entry s_ifreg (c ∷ r)) b
          (listed refl e) k

    -- Every entry of `backups` is known.
    pub backups-Known : Entries (Known codec ch rl) backups
    backups-Known = with_rmlist-Known (store_all codec skip ch start) rl refl (
        store_all-Known ch start
          (Entries-of_get (λ n e. (get n ch ≡ some e) × Storable n e) ch sorted
            (λ k v e. (e, Entries-get Storable k v ch storable e)))
          (Known.outside (unfold starts_with in refl), tt))

    abbrev Backed : Bytes → CpioEntry → Type 0
    Backed q x = in_backup q ≡ true

    store_all-Backed :
        (m b : Cpio)
        → Entries Storable m
        → Entries Backed b
        → Entries Backed (store_all codec skip m b)
    store_all-Backed [] b h k = k
    store_all-Backed ((n, e) ∷ m) b h k =
        let form = stored-StoredAs codec skip n e lossless h.0 in
        store_all-Backed m (store codec skip n e b) h.1 (
          Entries-insert Backed (stored codec skip n e).0 (stored codec skip n e).1 b
            (ground (arith, form.inside)) k)

    with_rmlist-Backed :
        (b : Cpio) (r : Bytes) → Entries Backed b → Entries Backed (with_rmlist (b, r))
    with_rmlist-Backed b [] k = k
    with_rmlist-Backed b (c ∷ r) k =
        Entries-insert Backed rmlist_name (empty_entry s_ifreg (c ∷ r)) b
          (unfold starts_with compare_bytes in refl) k

    -- All names in `backups` belong to a backup.
    pub get-backups : (k : Bytes) → in_backup k ≡ false → get k backups ≡ none
    get-backups k h = elim (Option-cases (get k backups)) [
      | inl e ↦ e
      | inr (x, e) ↦ absurd (
          false≢true (
            sym h
            ∙ Entries-get Backed k x backups
                (with_rmlist-Backed (store_all codec skip ch start) rl
                  (store_all-Backed ch start storable (unfold compare_bytes in refl, tt)))
                e))
    ]

    store_all-present :
        (m b : Cpio) (q : Bytes)
        → is_some (get q b) ≡ true
        → is_some (get q (store_all codec skip m b)) ≡ true
    store_all-present [] b q h = h
    store_all-present ((n, e) ∷ m) b q h =
        store_all-present m (store codec skip n e b) q
          (present-insert (stored codec skip n e).0 q (stored codec skip n e).1 b h)

    store_all-stored :
        (m b : Cpio) (n : Bytes) (e : CpioEntry)
        → get n m ≡ some e
        → is_some (get (stored codec skip n e).0 (store_all codec skip m b)) ≡ true
    unfolding get
    store_all-stored [] b n e h = cc
    store_all-stored ((j, w) ∷ m) b n e h = elim (Bool-cases (same n j)) [
      | inl s ↦
          let en : n ≡ j = same→eq n j s in
          let ew : w ≡ e = ground arith in
          store_all-present m (store codec skip j w b) (stored codec skip n e).0 (
            rw (en, ← ew)
              (ap is_some (get-insert_self (stored codec skip j w).0 (stored codec skip j w).1 b)))
      | inr d ↦ store_all-stored m (store codec skip j w b) n e (ground arith)
    ]

    with_rmlist-present :
        (b : Cpio) (r q : Bytes)
        → is_some (get q b) ≡ true
        → is_some (get q (with_rmlist (b, r))) ≡ true
    with_rmlist-present b [] q h = h
    with_rmlist-present b (c ∷ r) q h =
        present-insert rmlist_name q (empty_entry s_ifreg (c ∷ r)) b h

    -- Every entry of the original that differs is in `backups`.
    pub backups-stored :
        (n : Bytes) (e : CpioEntry)
        → get n ch ≡ some e
        → is_some (get (stored codec skip n e).0 backups) ≡ true
    backups-stored n e h =
        with_rmlist-present (store_all codec skip ch start) rl (stored codec skip n e).0
          (store_all-stored ch start n e h)

    with_rmlist-IsSorted : (b : Cpio) (r : Bytes) → IsSorted b → IsSorted (with_rmlist (b, r))
    with_rmlist-IsSorted b [] h = h
    with_rmlist-IsSorted b (c ∷ r) h = insert-IsSorted rmlist_name (empty_entry s_ifreg (c ∷ r)) b h

    store_all-IsSorted : (m b : Cpio) → IsSorted b → IsSorted (store_all codec skip m b)
    store_all-IsSorted [] b h = h
    store_all-IsSorted ((n, e) ∷ m) b h =
        store_all-IsSorted m (store codec skip n e b)
          (insert-IsSorted (stored codec skip n e).0 (stored codec skip n e).1 b h)

    pub backups-IsSorted : IsSorted backups
    backups-IsSorted =
        with_rmlist-IsSorted (store_all codec skip ch start) rl
          (store_all-IsSorted ch start (tt, tt))

    listed_names :
        (b : Cpio) (r : Bytes)
        → (if is_some (get rmlist_name (with_rmlist (b, r))) then r else []) ≡ r
    listed_names b [] = ground arith
    listed_names b (c ∷ r) = rw (get-insert_self rmlist_name (empty_entry s_ifreg (c ∷ r)) b)

    -- The list of names stands in `backups` unless it is empty.
    pub backups-listed : (if is_some (get rmlist_name backups) then rl else []) ≡ rl
    backups-listed = listed_names (store_all codec skip ch start) rl
