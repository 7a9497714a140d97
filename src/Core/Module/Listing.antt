-- ===== src/Core/Module/Listing.antt =====
-- `collect_modules` of native/src/core/module.rs: which modules are there, and which of them count.
pub mod Laws
pub mod Examples
use magisk.Prelude.{
  ℕ, zero, suc, ◌+◌, ◌-◌, ◌*◌, ◌/◌, ◌%◌, ◌^◌, ◌≤◌, ◌<◌, Ordering, compare, bit_and, bit_or, ◌≡◌,
  refl, sym, ap, ap₂, ◌∙◌, fun_ext, ◌≢◌, ◌↔◌, ◌⊎◌, inl, inr, Bool, true, false, not, ◌&&◌, ◌||◌,
  Option, none, some, List, [], ◌∷◌, ◌++◌, map, append-nil, append_assoc, arith, ltb, leb, ◌==◌,
  if◌then◌else◌, ltb→lt, lt→ltb, ltb→le, leb→le, le→leb, ==_iff, tests, Bool-cases, Option-cases,
  Bytes, All, length, take, drop, replicate, is_empty, all_of, length-append, length-replicate,
  take-append-drop, length-take, length-drop, take-append_left, drop-append_left, take_all,
  drop_all, set, set-append,
}
use magisk.Base.Text.{codes, equal}

-- What is in the folder of the modules: its name, whether it is a directory, and, where it is one,
-- whether it can be opened and removed and which files it has. `z32` and `z64` are the files of its
-- zygisk libraries, where they can be opened.
pub record ModuleDir : Type 0 where
  pub name : Bytes
  pub is_folder : Bool
  pub opens : Bool
  pub removes : Bool
  pub has_remove : Bool
  pub has_uninstall : Bool
  pub has_update : Bool
  pub has_disable : Bool
  pub has_zygisk : Bool
  pub has_riru : Bool
  pub has_unloaded : Bool
  pub lib_32 : Option ℕ
  pub lib_64 : Option ℕ

-- The file descriptors are none where they are -1.
pub record ModuleInfo : Type 0 where
  pub name : Bytes
  pub z32 : Option ℕ
  pub z64 : Option ℕ

-- What is listed, what is in the folder afterwards, the scripts that ran, and whether the loop went
-- on to its end.
pub record Listing : Type 0 where
  pub modules : List ModuleInfo
  pub folder : List ModuleDir
  pub scripts : List Bytes
  pub all_done : Bool

-- A module that does not count in this boot, whatever is in it.
abbrev pub is_ignored : Bool → ModuleDir → Bool
is_ignored zygisk_enabled m =
    if zygisk_enabled then equal m.name (codes "riru-core") || m.has_riru else m.has_zygisk

abbrev pub is_module : ModuleDir → Bool
is_module m = m.is_folder && not (equal m.name (codes ".core"))

abbrev pub info_of : Bool → ModuleDir → ModuleInfo
info_of open_libs m =
    if open_libs && m.has_zygisk
    then record { name = m.name; z32 = m.lib_32; z64 = m.lib_64 }
    else record { name = m.name; z32 = none; z64 = none }

-- The module after its turn.
abbrev pub cleared : Bool → ModuleDir → ModuleDir
cleared open_libs m = record m {
  has_update = false;
  has_unloaded = m.has_unloaded && not (open_libs && m.has_zygisk);
}

abbrev pub without_update : ModuleDir → ModuleDir
without_update m = record m { has_update = false }

abbrev pub keep_dir : ModuleDir → Listing → Listing
keep_dir m rest = record rest { folder = m ∷ rest.folder }

abbrev pub list_module : ModuleInfo → Listing → Listing
list_module info rest = record rest { modules = info ∷ rest.modules }

abbrev pub run_script : Bool → Bytes → Listing → Listing
run_script true name rest = record rest { scripts = name ∷ rest.scripts }
run_script false name rest = rest

-- The way out with an error.
abbrev pub ended_early : List ModuleDir → Listing
ended_early folder = record { modules = []; folder = folder; scripts = []; all_done = false }

-- `left` is what a removal leaves that fails.
module _ (left : ModuleDir → ModuleDir) (zygisk_enabled open_zygisk : Bool) where
  unfoldable pub list_loop : List ModuleDir → Listing
  list_loop [] = record { modules = []; folder = []; scripts = []; all_done = true }
  list_loop (m ∷ ms) =
      let rest = list_loop ms in
      if not (is_module m)
      then keep_dir m rest
      else if not m.opens
      then ended_early (m ∷ ms)
      else if m.has_remove
      then run_script m.has_uninstall m.name (if m.removes then rest else ended_early (left m ∷ ms))
      else if m.has_disable
      then keep_dir (without_update m) rest
      else if is_ignored zygisk_enabled m
      then keep_dir (without_update m) rest
      else list_module (info_of (zygisk_enabled && open_zygisk) m)
          (keep_dir (cleared (zygisk_enabled && open_zygisk) m) rest)

-- `convert_to_memfd`: `memfd` is the copy of a file in memory, where all calls succeed. The first
-- failure ends it for all.
module _ (memfd : ℕ → Option ℕ) where
  unfoldable pub convert_to_memfd : Bool → Option ℕ → Bool × Option ℕ
  convert_to_memfd use_memfd none = (use_memfd, none)
  convert_to_memfd false (some fd) = (false, some fd)
  convert_to_memfd true (some fd) = elim (memfd fd) [
    | none ↦ (false, some fd)
    | some copy ↦ (true, some copy)
  ]

  unfoldable pub convert_all : Bool → List ModuleInfo → List ModuleInfo
  unfolding convert_to_memfd
  convert_all use_memfd [] = []
  convert_all use_memfd (m ∷ ms) =
      let (use_32, z32) = convert_to_memfd use_memfd m.z32 in
      let (use_64, z64) = convert_to_memfd use_32 m.z64 in
      record { name = m.name; z32 = z32; z64 = z64 } ∷ convert_all use_64 ms

  unfoldable pub collect_modules :
      (left : ModuleDir → ModuleDir)
      → (zygisk_enabled open_zygisk : Bool) → List ModuleDir
      → Listing
  unfolding list_loop convert_all
  collect_modules left zygisk_enabled open_zygisk folder =
      let listing = list_loop left zygisk_enabled open_zygisk folder in
      if zygisk_enabled && open_zygisk
      then record listing { modules = convert_all true listing.modules }
      else listing
