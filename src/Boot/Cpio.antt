-- ===== src/Boot/Cpio.antt =====
-- native/src/boot/cpio.rs: the `Cpio` archive of a ramdisk.
pub mod Paths
pub mod Hex
pub mod Archive
pub mod Edit
pub mod Backup
pub mod Ramdisk
pub mod Commands
mod Examples
use magisk.Prelude.{
  ℕ, zero, suc, ◌+◌, ◌-◌, ◌*◌, ◌/◌, ◌%◌, ◌^◌, ◌≤◌, ◌<◌, Ordering, compare, bit_and, bit_or, ◌≡◌,
  refl, sym, ap, ap₂, ◌∙◌, fun_ext, ◌≢◌, ◌↔◌, ◌⊎◌, inl, inr, Bool, true, false, not, ◌&&◌, ◌||◌,
  Option, none, some, List, [], ◌∷◌, ◌++◌, map, append-nil, append_assoc, arith, ltb, leb, ◌==◌,
  if◌then◌else◌, ltb→lt, lt→ltb, ltb→le, leb→le, le→leb, ==_iff, tests, Bool-cases, Option-cases,
  Bytes, All, length, take, drop, replicate, is_empty, all_of, length-append, length-replicate,
  take-append-drop, length-take, length-drop, take-append_left, drop-append_left, take_all,
  drop_all, set, set-append,
}
use magisk.Base.Map.{Map}

-- `mode_t`, `uid_t` and `gid_t` are 32-bit numbers, and so are the device numbers that are read.
pub record CpioEntry : Type 0 where
  pub mode : ℕ
  pub uid : ℕ
  pub gid : ℕ
  pub rdevmajor : ℕ
  pub rdevminor : ℕ
  pub content : Bytes

-- The field `entries` of `Cpio`: a `BTreeMap` from names to entries.
abbrev pub Cpio : Type 0
Cpio = Map CpioEntry

-- `S_IFMT` and the file types of libc
abbrev pub s_ifmt : ℕ
s_ifmt = 0o170000

abbrev pub s_ifdir : ℕ
s_ifdir = 0o040000

abbrev pub s_ifreg : ℕ
s_ifreg = 0o100000

abbrev pub s_iflnk : ℕ
s_iflnk = 0o120000

abbrev pub s_ifblk : ℕ
s_ifblk = 0o060000

abbrev pub s_ifchr : ℕ
s_ifchr = 0o020000

-- `mode & S_IFMT == t`
abbrev pub has_type : ℕ → ℕ → Bool
has_type t mode = bit_and mode s_ifmt == t
