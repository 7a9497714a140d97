-- ===== src/Core/Module/Collect.antt =====
-- `collect` of native/src/core/module.rs: the files of a module are added to the tree.
pub mod Laws
pub mod Added
pub mod Order
use magisk.Prelude.{
  ℕ, zero, suc, ◌+◌, ◌-◌, ◌*◌, ◌/◌, ◌%◌, ◌^◌, ◌≤◌, ◌<◌, Ordering, compare, bit_and, bit_or, ◌≡◌,
  refl, sym, ap, ap₂, ◌∙◌, fun_ext, ◌≢◌, ◌↔◌, ◌⊎◌, inl, inr, Bool, true, false, not, ◌&&◌, ◌||◌,
  Option, none, some, List, [], ◌∷◌, ◌++◌, map, append-nil, append_assoc, arith, ltb, leb, ◌==◌,
  if◌then◌else◌, ltb→lt, lt→ltb, ltb→le, leb→le, le→leb, ==_iff, tests, Bool-cases, Option-cases,
  Bytes, All, length, take, drop, replicate, is_empty, all_of, length-append, length-replicate,
  take-append-drop, length-take, length-drop, take-append_left, drop-append_left, take_all,
  drop_all, set, set-append,
}
use magisk.Core.Module.Tree.{
  FsNode, FsNodeMap, child, put, take_out, or_insert, sub_dir, child-put, child-or_insert,
  child-take_out, append_path, visible, directory, file, symlink, magisk_link, whiteout, empty,
  node,
}

-- What a module has on disk. `none` stands where the call that reads it fails.
mutual
  pub data ModuleEntry : Type 0 where
    dir : ModuleEntries → ModuleEntry
    link : Option Bytes → ModuleEntry
    char_device : (is_whiteout : Option Bool) → ModuleEntry
    other : ModuleEntry

  -- What the directory gives when it is read: entries, and at last the end or an error. A directory
  -- that cannot be opened gives an error at once.
  pub data ModuleEntries : Type 0 where
    end : ModuleEntries
    broken : ModuleEntries
    entry : Bytes → ModuleEntry → ModuleEntries → ModuleEntries

-- The paths `real` and `module_mnt` of `ModulePaths`.
pub record ModulePaths : Type 0 where
  pub real : Bytes
  pub module_mnt : Bytes

abbrev pub append : ModulePaths → Bytes → ModulePaths
append paths name = record {
  real = append_path paths.real name;
  module_mnt = append_path paths.module_mnt name;
}

-- The tree afterwards, and whether all went well.
abbrev pub Collected : Type 0
Collected = FsNodeMap × Bool

abbrev pub stored_dir : Bytes → FsNodeMap → Collected → Collected
stored_dir name children (sub, ok) = (put name (directory sub) children, ok)

-- `node.collect(entry_paths)?`, which does nothing to a node that is no directory.
abbrev pub in_directory : Bytes → FsNodeMap → (FsNodeMap → Collected) → Option FsNodeMap → Collected
in_directory name children inside_of none = (children, true)
in_directory name children inside_of (some sub) = stored_dir name children (inside_of sub)

-- What `?` does after a step: the rest of the loop, or the way out.
abbrev pub continue_with : Collected → (FsNodeMap → Collected) → Collected
continue_with (children, true) rest = rest children
continue_with (children, false) rest = (children, false)

-- `exists` says whether there is a file at the path, and `clone_attr` whether its attributes can be
-- copied.
module _ (exists clone_attr : Bytes → Bool) where
  -- The last branch of the loop's body.
  unfoldable pub collect_file : ModulePaths → Bytes → FsNodeMap → Collected
  unfolding or_insert
  collect_file paths name children =
      if exists paths.real && not (clone_attr paths.real)
      then (children, false)
      else (or_insert name (file paths.module_mnt) children, true)

  unfoldable mutual
    unfolding collect_file or_insert put child

    -- The body of the loop; `paths` are those of the directory.
    pub collect_entry : ModulePaths → Bytes → ModuleEntry → FsNodeMap → Collected
    collect_entry paths name (dir entries) children =
        in_directory name children (λ sub. collect (append paths name) entries sub)
          (sub_dir (child name children))
    collect_entry paths name (link none) children = (children, false)
    collect_entry paths name (link (some target)) children =
        (or_insert name (symlink target) children, true)
    collect_entry paths name (char_device none) children = (children, false)
    collect_entry paths name (char_device (some true)) children =
        (or_insert name whiteout children, true)
    collect_entry paths name (char_device (some false)) children =
        collect_file (append paths name) name children
    collect_entry paths name other children = collect_file (append paths name) name children

    -- `collect` of a directory with these children.
    pub collect : ModulePaths → ModuleEntries → FsNodeMap → Collected
    collect paths end children = (children, true)
    collect paths broken children = (children, false)
    collect paths (entry name e entries) children =
        continue_with (collect_entry paths name e children) (λ c. collect paths entries c)
