-- ===== src/Boot/Cpio/Edit/Laws.antt =====
-- What the editing commands of native/src/boot/cpio.rs change, and what they leave.
use magisk.Prelude.{
  ℕ, ◌≡◌, refl, ap, inl, inr, Bool, true, false, ◌&&◌, ◌||◌, Option, none, some, ◌++◌, arith,
  if◌then◌else◌, Option-cases, Bytes,
}
use magisk.Base.Text.{ends_with, codes, starts_with}
use magisk.Base.Map.{
  IsSorted, same, get, insert, remove, get-insert, get-remove, retain-IsSorted, remove-IsSorted,
  get-retain,
}
use mathlib.Core.Path.{subst}
use magisk.Boot.Cpio.Edit.{added}
use magisk.Prelude.{[], bit_or, ◌↔◌, refl, ap}
use magisk.Boot.Cpio.{s_ifreg, s_ifblk, s_ifchr}
use magisk.Base.Outcome.{>>=-eq-ok, Outcome, ◌>>=◌, ok, fail}
use magisk.Boot.Cpio.{CpioEntry, Cpio}
use magisk.Boot.Cpio.Paths.{norm_path}
use magisk.Boot.Cpio.Edit.{outside, rm, exists, ok_or_fail, mv, InFile, add_entry, add}

ok_inj {ℓ} : {A : Type ℓ} {a b : A} → ok a ≡ ok b → a ≡ b
ok_inj {A = A} {a} {b} e = ap of_ok e
  where
    of_ok : Outcome A → A
    of_ok (ok x) = x
    of_ok _ = a

-- In a sorted archive, after `rm` an entry is gone exactly if it is the one named or, with `-r`,
-- if its name starts with the path and a slash; every other entry is as before.
pub get-rm :
    (entries : Cpio) (path : Bytes) (recursive : Bool) (k : Bytes)
    → IsSorted entries
    → get k (rm entries path recursive) ≡ (
        if same k (norm_path path) || (recursive && starts_with k (norm_path path ++ codes "/"))
        then none
        else get k entries)
unfolding rm
get-rm entries path false k s = ground (arith, get-remove (norm_path path) k entries)
get-rm entries path true k s = ground (
  arith,
  get-remove (norm_path path) k entries,
  get-retain (outside (norm_path path ++ codes "/")) k (remove (norm_path path) entries)
      (remove-IsSorted (norm_path path) entries s),
)

pub rm-IsSorted :
    (entries : Cpio) (path : Bytes) (recursive : Bool)
    → IsSorted entries
    → IsSorted (rm entries path recursive)
unfolding rm
rm-IsSorted entries path false s = remove-IsSorted (norm_path path) entries s
rm-IsSorted entries path true s =
    retain-IsSorted _ (remove (norm_path path) entries) (remove-IsSorted (norm_path path) entries s)

-- After an entry is put under the normal form of a path, as `mkdir`, `ln` and `add` do, a name
-- exists exactly if it has the same normal form as the path or existed before.
pub exists-insert :
    (entries : Cpio) (path name : Bytes) (e : CpioEntry)
    → exists (insert (norm_path path) e entries) name
      ≡ (same (norm_path name) (norm_path path) || exists entries name)
unfolding exists
exists-insert entries path name e =
    ground (arith, get-insert (norm_path path) (norm_path name) e entries)

-- Where the source does not exist, `mv` fails. Otherwise its entry stands at the destination, there
-- is nothing at the source unless it is the destination, and every other entry is kept.
pub mv_lem :
    (entries : Cpio) (from to k : Bytes)
    → (do moved ← mv entries from to; ok (get k moved)) ≡ (do
      e ← ok_or_fail (get (norm_path from) entries)
      ok (
          if same k (norm_path to)
          then some e
          else if same k (norm_path from)
          then none
          else get k entries))
unfolding mv
mv_lem entries from to k = elim (Option-cases (get (norm_path from) entries)) [
  | inl gone ↦ rw gone
  | inr (e, here) ↦ rw here (
      ground (
        arith,
        get-insert (norm_path to) k e (remove (norm_path from) entries),
        get-remove (norm_path from) k entries,
      ))
]

-- What `add` makes of a file, by its type.
pub data Taken : ℕ → InFile → CpioEntry → Type 0 where
  regular :
      {mode : ℕ} {file : InFile} {content : Bytes}
      → (file.is_file || file.is_symlink) ≡ true
      → file.bytes ≡ some content
      → Taken mode file (record {
        mode = bit_or mode 0o100000;
        uid = 0;
        gid = 0;
        rdevmajor = 0;
        rdevminor = 0;
        content = content;
      })
  block_device :
      {mode : ℕ} {file : InFile}
      → (file.is_file || file.is_symlink) ≡ false
      → file.is_block_device ≡ true
      → Taken mode file (record {
        mode = bit_or mode 0o060000;
        uid = 0;
        gid = 0;
        rdevmajor = file.rdev_major;
        rdevminor = file.rdev_minor;
        content = [];
      })
  char_device :
      {mode : ℕ} {file : InFile}
      → (file.is_file || file.is_symlink) ≡ false
      → file.is_block_device ≡ false
      → file.is_char_device ≡ true
      → Taken mode file (record {
        mode = bit_or mode 0o020000;
        uid = 0;
        gid = 0;
        rdevmajor = file.rdev_major;
        rdevminor = file.rdev_minor;
        content = [];
      })

add_entry-Taken :
    (mode : ℕ) (file : InFile) (e : CpioEntry) → add_entry mode file ≡ ok e → Taken mode file e
unfolding add_entry
add_entry-Taken mode file e h =
    by_type (file.is_file || file.is_symlink) refl file.is_block_device refl file.is_char_device
      refl file.bytes refl h
  where
    by_type :
        (f : Bool)
        → (file.is_file || file.is_symlink) ≡ f
        → (b : Bool) → file.is_block_device ≡ b
        → (c : Bool) → file.is_char_device ≡ c
        → (bytes : Option Bytes) → file.bytes ≡ bytes
        → (if◌then◌else◌ {A = Outcome CpioEntry} f
            (do content ← ok_or_fail bytes; ok (added (bit_or mode s_ifreg) 0 0 content))
            (if◌then◌else◌ {A = Outcome CpioEntry} b
              (ok (added (bit_or mode s_ifblk) file.rdev_major file.rdev_minor []))
              (if◌then◌else◌ {A = Outcome CpioEntry} c
                (ok (added (bit_or mode s_ifchr) file.rdev_major file.rdev_minor []))
                fail)))
          ≡ ok e
        → Taken mode file e
    by_type true p b q c r (some content) t h = subst (Taken mode file) (ok_inj h) (regular p t)
    by_type true p b q c r none t h = cc
    by_type false p true q c r bytes t h = subst (Taken mode file) (ok_inj h) (block_device p q)
    by_type false p false q true r bytes t h =
        subst (Taken mode file) (ok_inj h) (char_device p q r)
    by_type false p false q false r bytes t h = cc

Taken-add_entry :
    (mode : ℕ) (file : InFile) (e : CpioEntry) → Taken mode file e → add_entry mode file ≡ ok e
unfolding add_entry
Taken-add_entry mode file _ (regular p t) = rw (p, t) refl
Taken-add_entry mode file _ (block_device p q) = rw (p, q) refl
Taken-add_entry mode file _ (char_device p q r) = rw (p, q, r) refl

-- `add` ends well exactly if the path does not end with a slash, the file can be looked at, and it
-- is a regular file or a symbolic link whose content can be read, or a block or a character
-- device; the archive is then the one before with the entry of the file, which has the type in
-- its mode and the device numbers or the content, under the normal form of the path.
pub add_iff :
    (entries : Cpio) (mode : ℕ) (path : Bytes) (file : Option InFile) (after : Cpio)
    → (add entries mode path file ≡ ok after) ↔ (
        (ends_with path (codes "/") ≡ false)
        × ((attr : InFile) × (e : CpioEntry) × (file ≡ some attr)
            × Taken mode attr e
            × (insert (norm_path path) e entries ≡ after)))
unfolding add
add_iff entries mode path file after =
    (forward (ends_with path (codes "/")) refl file refl, backward)
  where
    forward :
        (slash : Bool)
        → ends_with path (codes "/") ≡ slash
        → (f : Option InFile) → file ≡ f
        → (if◌then◌else◌ {A = Outcome Cpio} slash fail (do
          attr ← ok_or_fail f
          entry ← add_entry mode attr
          ok (insert (norm_path path) entry entries)))
          ≡ ok after
        → (ends_with path (codes "/") ≡ false)
          × ((attr : InFile) × (e : CpioEntry) × (file ≡ some attr)
              × Taken mode attr e
              × (insert (norm_path path) e entries ≡ after))
    forward true p f q h = cc
    forward false p none q h = cc
    forward false p (some attr) q h =
        let (e, t, i) =
          >>=-eq-ok (add_entry mode attr) (λ e. ok (insert (norm_path path) e entries)) h in
        (p, (attr, e, q, add_entry-Taken mode attr e t, ok_inj i))

    backward :
        (ends_with path (codes "/") ≡ false)
          × ((attr : InFile) × (e : CpioEntry) × (file ≡ some attr)
              × Taken mode attr e
              × (insert (norm_path path) e entries ≡ after))
        → add entries mode path file ≡ ok after
    backward (p, (attr, e, q, t, i)) = rw (p, q, Taken-add_entry mode attr e t) (ap ok i)
