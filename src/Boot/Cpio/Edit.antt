-- ===== src/Boot/Cpio/Edit.antt =====
-- The commands of native/src/boot/cpio.rs that edit or query the entries of an archive.
pub mod Laws
use magisk.Prelude.{
  ℕ, zero, suc, ◌+◌, ◌-◌, ◌*◌, ◌/◌, ◌%◌, ◌^◌, ◌≤◌, ◌<◌, Ordering, compare, bit_and, bit_or, ◌≡◌,
  refl, sym, ap, ap₂, ◌∙◌, fun_ext, ◌≢◌, ◌↔◌, ◌⊎◌, inl, inr, Bool, true, false, not, ◌&&◌, ◌||◌,
  Option, none, some, List, [], ◌∷◌, ◌++◌, map, append-nil, append_assoc, arith, ltb, leb, ◌==◌,
  if◌then◌else◌, ltb→lt, lt→ltb, ltb→le, leb→le, le→leb, ==_iff, tests, Bool-cases, Option-cases,
  Bytes, All, length, take, drop, replicate, is_empty, all_of, length-append, length-replicate,
  take-append-drop, length-take, length-drop, take-append_left, drop-append_left, take_all,
  drop_all, set, set-append,
}
use magisk.Base.Text.{codes, starts_with, ends_with, strip_prefix}
use magisk.Base.Map.{Map, get, insert, remove, retain}
use magisk.Base.Outcome.{Outcome, ok, fail, panic, out_of_fuel, ◌>>=◌}
use magisk.Boot.Cpio.{CpioEntry, Cpio, s_ifdir, s_ifreg, s_iflnk, s_ifblk, s_ifchr}
use magisk.Boot.Cpio.Paths.{norm_path}

-- The closure that `rm` hands to `retain`.
abbrev pub outside : Bytes → Bytes → CpioEntry → Option CpioEntry
outside prefix k e = if starts_with k prefix then none else some e

unfoldable pub rm : Cpio → Bytes → Bool → Cpio
rm entries path recursive =
    let path' = norm_path path in
    let entries' = remove path' entries in
    if recursive then retain (outside (path' ++ codes "/")) entries' else entries'

abbrev is_some {ℓ} : {A : Type ℓ} → Option A → Bool
is_some none = false
is_some (some a) = true

unfoldable pub exists : Cpio → Bytes → Bool
exists entries path = is_some (get (norm_path path) entries)

unfoldable pub mkdir : Cpio → ℕ → Bytes → Cpio
mkdir entries mode dir =
    insert (norm_path dir)
      (record {
        mode = bit_or mode s_ifdir;
        uid = 0;
        gid = 0;
        rdevmajor = 0;
        rdevminor = 0;
        content = [];
      })
      entries

unfoldable pub ln : Cpio → Bytes → Bytes → Cpio
ln entries src dst =
    insert (norm_path dst)
      (record {
        mode = s_iflnk;
        uid = 0;
        gid = 0;
        rdevmajor = 0;
        rdevminor = 0;
        content = norm_path src;
      })
      entries

-- `ok_or_log_msg`
abbrev pub ok_or_fail {ℓ} : {A : Type ℓ} → Option A → Outcome A
ok_or_fail none = fail
ok_or_fail (some a) = ok a

unfoldable pub mv : Cpio → Bytes → Bytes → Outcome Cpio
mv entries from to = do
  entry ← ok_or_fail (get (norm_path from) entries)
  ok (insert (norm_path to) entry (remove (norm_path from) entries))

-- What the operating system says of the file that `add` reads: `none` where the call fails.
pub record InFile : Type 0 where
  pub is_file : Bool
  pub is_symlink : Bool
  pub is_block_device : Bool
  pub is_char_device : Bool
  pub rdev_major : ℕ
  pub rdev_minor : ℕ
  pub bytes : Option Bytes

pub added : ℕ → ℕ → ℕ → Bytes → CpioEntry
added mode rdevmajor rdevminor content = record {
  mode = mode;
  uid = 0;
  gid = 0;
  rdevmajor = rdevmajor;
  rdevminor = rdevminor;
  content = content;
}

-- The entry that `add` makes of the file.
unfoldable pub add_entry : ℕ → InFile → Outcome CpioEntry
unfolding added
add_entry mode file =
    if file.is_file || file.is_symlink
    then (do content ← ok_or_fail file.bytes; ok (added (bit_or mode s_ifreg) 0 0 content))
    else if file.is_block_device
    then ok (added (bit_or mode s_ifblk) file.rdev_major file.rdev_minor [])
    else if file.is_char_device
    then ok (added (bit_or mode s_ifchr) file.rdev_major file.rdev_minor [])
    else fail

unfoldable pub add : Cpio → ℕ → Bytes → Option InFile → Outcome Cpio
add entries mode path file = if ends_with path (codes "/") then fail else do
  attr ← ok_or_fail file
  entry ← add_entry mode attr
  ok (insert (norm_path path) entry entries)

-- `p.matches('/').count()`
slashes : Bytes → ℕ
slashes [] = 0
slashes (c ∷ p) = (if c == b'/' then 1 else 0) + slashes p

-- What `ls` asks of the name's text behind the path.
lists_rest : Bool → Bytes → Bool
unfolding slashes
lists_rest recursive [] = true
lists_rest recursive (c ∷ p) = c == b'/' && (recursive || leb (slashes (c ∷ p)) 1)

-- Whether `ls` prints the entry of this name.
unfoldable pub lists : Bytes → Bool → Bytes → Bool
unfolding lists_rest
lists path recursive name = elim (strip_prefix (b'/' ∷ name) path) [
  | none ↦ false
  | some p ↦ lists_rest recursive p
]

-- The path that the names are compared with.
abbrev rooted : Bytes → Bytes
rooted [] = []
rooted (c ∷ p) = b'/' ∷ c ∷ p

selected : (Bytes → Bool) → Cpio → Cpio
selected p [] = []
selected p ((name, e) ∷ entries) =
    let rest = selected p entries in if p name then (name, e) ∷ rest else rest

-- The entries that `ls` prints, in the order of printing.
unfoldable pub ls : Cpio → Bytes → Bool → Cpio
unfolding lists selected
ls entries path recursive = selected (lists (rooted (norm_path path)) recursive) entries
