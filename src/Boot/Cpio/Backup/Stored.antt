-- ===== src/Boot/Cpio/Backup/Stored.antt =====
-- Names and entries under ".backup/" (native/src/boot/cpio.rs): what `backup` stores, `restore` turns
-- back into the name and the entry that it was made of.
use magisk.Prelude.{
  ◌-◌, ◌≡◌, refl, sym, ap, ◌∙◌, inl, inr, Bool, true, false, some, ◌++◌, append_assoc, arith,
  if◌then◌else◌, Bool-cases, Option-cases, Bytes, length, take, drop, length-append,
  take-append_left,
}
use mathlib.Core.Bool.{false≢true}
use magisk.Base.Text.{codes, equal, starts_with, ends_with, equal→eq, ends_with-append}
use magisk.Boot.Cpio.{CpioEntry}
use magisk.Boot.Cpio.Backup.{
  Codec, IsLossless, compress, decompress, backup_prefix, xz_suffix, rmlist_name, magisk_name,
  stored, unstored,
}

-- A name that `restore` does not take for another: it does not end in ".xz", and it is not the name
-- of one of the two special files.
pub record Storable (name : Bytes) (e : CpioEntry) : Type 0 where
  pub no_xz : ends_with name xz_suffix ≡ false
  pub no_rmlist : equal name (codes ".rmlist") ≡ false
  pub no_magisk : equal name (codes ".magisk") ≡ false

-- The name that a stored name was made of.
unfoldable pub plain : Bytes → Bytes
plain q = if ends_with q xz_suffix then take (length q - 3 - 8) (drop 8 q) else drop 8 q

module _ (n : Bytes) where
  ends_with-prefix : ends_with (backup_prefix ++ n) xz_suffix ≡ ends_with n xz_suffix
  unfolding ends_with equal
  ends_with-prefix = refl

  ends_with-xz : ends_with (backup_prefix ++ (n ++ xz_suffix)) xz_suffix ≡ true
  ends_with-xz =
      rw (← append_assoc backup_prefix n xz_suffix)
        (ends_with-append (backup_prefix ++ n) xz_suffix)

  take-xz :
      take
        (length (backup_prefix ++ (n ++ xz_suffix)) - 3 - 8)
        (drop 8 (backup_prefix ++ (n ++ xz_suffix)))
      ≡ n
  take-xz =
      let e : length (backup_prefix ++ (n ++ xz_suffix)) - 3 - 8 ≡ length n =
        omega (arith, length-append n xz_suffix) in
      rw e (take-append_left n xz_suffix)

-- What `compress` returned, `decompress` turns back.
decompress-compress :
    (codec : Codec) (e e' : CpioEntry)
    → IsLossless codec
    → compress codec e ≡ some e'
    → decompress codec e' ≡ some e
unfolding compress decompress
decompress-compress codec e e' lossless h = elim (Option-cases (codec.encode e.content)) [
  | inl a ↦ ground arith
  | inr (c, a) ↦ ground (arith, lossless e.content c a)
]

-- A stored name: with the suffix where the entry was compressed.
pub record StoredAs (codec : Codec) (n : Bytes) (e : CpioEntry) (q : Bytes) (x : CpioEntry)
    : Type 0 where
  pub inside : starts_with q backup_prefix ≡ true
  pub not_rmlist : equal q rmlist_name ≡ false
  pub not_magisk : equal q magisk_name ≡ false
  pub name : plain q ≡ n
  pub back : unstored codec q x ≡ (n, e)

module _ (codec : Codec) (n : Bytes) (e : CpioEntry) (s : Storable n e) where
  as_it_is : StoredAs codec n e (backup_prefix ++ n) e
  unfolding starts_with equal plain unstored
  as_it_is = record {
    inside = refl;
    not_rmlist = s.no_rmlist;
    not_magisk = s.no_magisk;
    name = rw (ends_with-prefix n, s.no_xz);
    back = rw (ends_with-prefix n, s.no_xz, unstored);
  }

  not_special :
      (special : Bytes)
      → ends_with special xz_suffix ≡ false
      → equal (n ++ xz_suffix) special ≡ false
  not_special special h = elim (Bool-cases (equal (n ++ xz_suffix) special)) [
    | inl same ↦ absurd (
        false≢true (
          sym h
          ∙ ap (λ (t : Bytes). ends_with t xz_suffix) (sym (equal→eq (n ++ xz_suffix) special same))
          ∙ ends_with-append n xz_suffix))
    | inr other ↦ other
  ]

  compressed :
      (x : CpioEntry)
      → decompress codec x ≡ some e
      → StoredAs codec n e (backup_prefix ++ (n ++ xz_suffix)) x
  unfolding plain unstored
  compressed x d = record {
    inside = unfold starts_with in refl;
    not_rmlist = unfold equal in not_special (codes ".rmlist") (unfold ends_with in refl);
    not_magisk = unfold equal in not_special (codes ".magisk") (unfold ends_with in refl);
    name = rw (ends_with-xz n) (take-xz n);
    back = rw (ends_with-xz n, d, unstored) (cc (take-xz n));
  }

-- Whatever `backup` stores for an entry, `restore` makes the entry of it.
pub stored-StoredAs :
    (codec : Codec) (skip : Bool) (n : Bytes) (e : CpioEntry)
    → IsLossless codec
    → Storable n e
    → StoredAs codec n e (stored codec skip n e).0 (stored codec skip n e).1
unfolding stored
stored-StoredAs codec true n e lossless s = as_it_is codec n e s
stored-StoredAs codec false n e lossless s = elim (Option-cases (compress codec e)) [
  | inl a ↦ rw (a, stored) (as_it_is codec n e s)
  | inr (x, a) ↦
      rw (a, stored) (compressed codec n e s x (decompress-compress codec e x lossless a))
]
