-- ===== src/Boot/Cpio/Backup/Restored.antt =====
-- The loop of `restore` in native/src/boot/cpio.rs over an archive that holds backups.
use mathlib.Core.Bool.{false≢true}
use magisk.Prelude.{
  Ordering, ◌≡◌, refl, sym, ap, ◌∙◌, ◌⊎◌, inl, inr, true, false, some, [], ◌∷◌, ◌++◌, append-nil,
  arith, if◌then◌else◌, Bool-cases, Bytes,
}
use magisk.Base.Text.{equal, starts_with, equal_refl}
use magisk.Base.Utf8.{is_utf8}
use magisk.Base.Order.{compare_bytes, compare_bytes_refl}
use magisk.Base.Map.{
  IsSorted, same, same→eq, get, insert, get-insert_self, get-After_eq, insert-IsSorted,
}
use magisk.Base.Map.Entries.{Entries, is_some, Entries-insert, present-insert}
use magisk.Boot.Cpio.{CpioEntry, Cpio}
use magisk.Boot.Cpio.Backup.{Codec, backup_prefix, rmlist_name, restore_entry, restore_entries}
use magisk.Boot.Cpio.Backup.Stored.{plain, StoredAs}

pub equal_false→same : (q special : Bytes) → equal q special ≡ false → same special q ≡ false
equal_false→same q special h = elim (Bool-cases (same special q)) [
  | inl s ↦ absurd (false≢true (sym h ∙ ap (equal q) (same→eq special q s) ∙ equal_refl q))
  | inr d ↦ d
]

pub outside→same : (q : Bytes) → starts_with q backup_prefix ≡ false → same rmlist_name q ≡ false
outside→same q o = elim (Bool-cases (same rmlist_name q)) [
  | inl s ↦ absurd (
      false≢true (
        sym o
        ∙ ap (λ (t : Bytes). starts_with t backup_prefix) (sym (same→eq rmlist_name q s))
        ∙ unfold starts_with in refl))
  | inr d ↦ d
]

-- The entry is what `backup` stores for an entry of the map.
pub record IsStored (codec : Codec) (ch : Cpio) (q : Bytes) (x : CpioEntry) : Type 0 where
  pub n : Bytes
  pub e : CpioEntry
  pub found : get n ch ≡ some e
  pub form : StoredAs codec n e q x

-- What stands in the archive: entries outside the backup, the list of names, or stored entries.
pub data Known (codec : Codec) (ch : Cpio) (rm_list : Bytes) (q : Bytes) (x : CpioEntry)
    : Type 0 where
  outside : starts_with q backup_prefix ≡ false → Known codec ch rm_list q x
  listed : q ≡ rmlist_name → x.content ≡ rm_list → Known codec ch rm_list q x
  kept : IsStored codec ch q x → Known codec ch rm_list q x

-- One round of the loop.
abbrev round : Codec → Bytes → CpioEntry → Cpio × Bytes → Cpio × Bytes
round codec q x s = if starts_with q backup_prefix then restore_entry codec q x s else s

module _ (codec : Codec) (ch : Cpio) (rm_list : Bytes) (utf8 : is_utf8 rm_list ≡ true) where
  round_listed :
      (x : CpioEntry) (s : Cpio × Bytes)
      → x.content ≡ rm_list
      → round codec rmlist_name x s ≡ (s.0, s.1 ++ rm_list)
  unfolding restore_entry starts_with equal
  round_listed x s h = rw (h, utf8)

  round_kept :
      (q : Bytes) (x : CpioEntry) (s : Cpio × Bytes) (k : IsStored codec ch q x)
      → round codec q x s ≡ (insert k.n k.e s.0, s.1)
  unfolding restore_entry
  round_kept q x s k =
      ground (arith, k.form.inside, k.form.not_rmlist, k.form.not_magisk, k.form.back)

  round_sound :
      (q : Bytes) (x : CpioEntry) (s : Cpio × Bytes)
      → Known codec ch rm_list q x
      → Entries (λ n e. get n ch ≡ some e) s.0
      → Entries (λ n e. get n ch ≡ some e) (round codec q x s).0
  round_sound q x s (outside o) p = rw o p
  round_sound q x s (listed e c) p = rw e (rw (round_listed x s c) p)
  round_sound q x s (kept k) p =
      rw (round_kept q x s k) (Entries-insert (λ n e. get n ch ≡ some e) k.n k.e s.0 k.found p)

  -- What is restored is in the map.
  pub restore_entries_sound :
      (m : Cpio) (s : Cpio × Bytes)
      → Entries (Known codec ch rm_list) m
      → Entries (λ n e. get n ch ≡ some e) s.0
      → Entries (λ n e. get n ch ≡ some e) (restore_entries codec m s).0
  unfolding restore_entries
  restore_entries_sound [] s h p = p
  restore_entries_sound ((q, x) ∷ m) s h p =
      restore_entries_sound m (round codec q x s) h.1 (round_sound q x s h.0 p)

  round-IsSorted :
      (q : Bytes) (x : CpioEntry) (s : Cpio × Bytes)
      → Known codec ch rm_list q x
      → IsSorted s.0
      → IsSorted (round codec q x s).0
  round-IsSorted q x s (outside o) p = rw o p
  round-IsSorted q x s (listed e c) p = rw e (rw (round_listed x s c) p)
  round-IsSorted q x s (kept k) p = rw (round_kept q x s k) (insert-IsSorted k.n k.e s.0 p)

  pub restore_entries-IsSorted :
      (m : Cpio) (s : Cpio × Bytes)
      → Entries (Known codec ch rm_list) m
      → IsSorted s.0
      → IsSorted (restore_entries codec m s).0
  unfolding restore_entries
  restore_entries-IsSorted [] s h p = p
  restore_entries-IsSorted ((q, x) ∷ m) s h p =
      restore_entries-IsSorted m (round codec q x s) h.1 (round-IsSorted q x s h.0 p)

  round_keeps :
      (q : Bytes) (x : CpioEntry) (s : Cpio × Bytes) (n : Bytes)
      → Known codec ch rm_list q x
      → is_some (get n s.0) ≡ true
      → is_some (get n (round codec q x s).0) ≡ true
  round_keeps q x s n (outside o) p = rw o p
  round_keeps q x s n (listed e c) p = rw e (rw (round_listed x s c) p)
  round_keeps q x s n (kept k) p = rw (round_kept q x s k) (present-insert k.n n k.e s.0 p)

  -- The round at a stored entry restores its name.
  round_restores :
      (q : Bytes) (x : CpioEntry) (s : Cpio × Bytes)
      → Known codec ch rm_list q x
      → starts_with q backup_prefix ≡ true
      → equal q rmlist_name ≡ false
      → is_some (get (plain q) (round codec q x s).0) ≡ true
  round_restores q x s (outside o) i l = cc
  round_restores q x s (listed e c) i l =
      absurd
        (false≢true (sym l ∙ ap (λ (t : Bytes). equal t rmlist_name) e ∙ equal_refl rmlist_name))
  round_restores q x s (kept k) i l =
      rw (round_kept q x s k, k.form.name) (ap is_some (get-insert_self k.n k.e s.0))

  -- The name of every stored entry is restored.
  pub restore_entries_complete :
      (m : Cpio) (s : Cpio × Bytes) (q : Bytes)
      → Entries (Known codec ch rm_list) m
      → starts_with q backup_prefix ≡ true
      → equal q rmlist_name ≡ false
      → (is_some (get (plain q) s.0) ≡ true) ⊎ (is_some (get q m) ≡ true)
      → is_some (get (plain q) (restore_entries codec m s).0) ≡ true
  unfolding restore_entries get
  restore_entries_complete [] s q h i l (inl p) = p
  restore_entries_complete [] s q h i l (inr p) = cc
  restore_entries_complete ((j, x) ∷ m) s q h i l (inl p) =
      restore_entries_complete m (round codec j x s) q h.1 i l
        (inl (round_keeps j x s (plain q) h.0 p))
  restore_entries_complete ((j, x) ∷ m) s q h i l (inr p) = elim (Bool-cases (same q j)) [
    | inl e ↦
        let eq : q ≡ j = same→eq q j e in
        restore_entries_complete m (round codec j x s) q h.1 i l
          (inl (rw eq (round_restores j x s h.0 (rw eq at i) (rw eq at l))))
    | inr d ↦ restore_entries_complete m (round codec j x s) q h.1 i l (inr (ground arith))
  ]

  -- The list of names that is read is the one that stands in the archive.
  pub restore_entries_rm_list :
      (m : Cpio) (s : Cpio × Bytes)
      → Entries (Known codec ch rm_list) m
      → IsSorted m
      → (restore_entries codec m s).1 ≡ s.1 ++ (if is_some (get rmlist_name m) then rm_list else [])
  unfolding restore_entries get
  restore_entries_rm_list [] s h t = sym (append-nil s.1)
  restore_entries_rm_list ((q, x) ∷ m) s (outside o, h) t =
      restore_entries_rm_list m (round codec q x s) h t.1 ∙ ground (arith, outside→same q o)
  restore_entries_rm_list ((q, x) ∷ m) s (listed e c, h) t =
      let here : compare_bytes rmlist_name q ≡ Ordering.eq =
        rw e (compare_bytes_refl rmlist_name) in
      let r : round codec q x s ≡ (s.0, s.1 ++ rm_list) = rw e (round_listed x s c) in
      restore_entries_rm_list m (round codec q x s) h t.1
      ∙ ground (arith, here, r, get-After_eq rmlist_name q m here t.0, append-nil (s.1 ++ rm_list))
  restore_entries_rm_list ((q, x) ∷ m) s (kept k, h) t =
      restore_entries_rm_list m (round codec q x s) h t.1
      ∙ ground (arith, equal_false→same q rmlist_name k.form.not_rmlist, round_kept q x s k)
