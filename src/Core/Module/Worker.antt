-- ===== src/Core/Module/Worker.antt =====
-- `commit_tmpfs` of native/src/core/module.rs: a directory is built anew in the worker directory.
pub mod Within
pub mod Names
pub mod Shown
pub mod LeftOut
use magisk.Prelude.{
  ℕ, zero, suc, ◌+◌, ◌-◌, ◌*◌, ◌/◌, ◌%◌, ◌^◌, ◌≤◌, ◌<◌, Ordering, compare, bit_and, bit_or, ◌≡◌,
  refl, sym, ap, ap₂, ◌∙◌, fun_ext, ◌≢◌, ◌↔◌, ◌⊎◌, inl, inr, Bool, true, false, not, ◌&&◌, ◌||◌,
  Option, none, some, List, [], ◌∷◌, ◌++◌, map, append-nil, append_assoc, arith, ltb, leb, ◌==◌,
  if◌then◌else◌, ltb→lt, lt→ltb, ltb→le, leb→le, le→leb, ==_iff, tests, Bool-cases, Option-cases,
  Bytes, All, length, take, drop, replicate, is_empty, all_of, length-append, length-replicate,
  take-append-drop, length-take, length-drop, take-append_left, drop-append_left, take_all,
  drop_all, set, set-append,
}
use magisk.Base.Text.{
  codes, equal, starts_with, strip_prefix, ends_with, find, push_head, split, non_empty, join,
  Lacks, IsPart, equal_refl, equal→eq, starts_with-append, starts_with_split, strip_prefix-append,
  ends_with-append, split_part, split_last, parts-IsPart, parts-join, find_front,
}
use magisk.Base.Map.{
  Map, After, IsSorted, same, same_refl, same→eq, ne→same, Below→same, Below→same_flip, get, insert,
  remove, keep, retain, extend, get-insert, get-insert_self, get-remove, get-After, get-After_eq,
  After-trans, After-insert, insert-IsSorted, After-retain, retain-IsSorted, After-remove,
  remove-IsSorted, extend-IsSorted, bind, get-retain, or_else, get-extend, map_ext,
}
use magisk.Base.Map.Entries.{is_some}
use magisk.Core.Module.Tree.{
  FsNode, FsNodeMap, child, put, take_out, or_insert, sub_dir, child-put, child-or_insert,
  child-take_out, append_path, visible, directory, file, symlink, magisk_link, whiteout, empty,
  node,
}

-- What is on the device, as far as the tree of the modules looks at it.
mutual
  -- A link has the text that reading it gives (empty where that fails), and what opening it as a
  -- directory gives.
  pub data Real : Type 0 where
    real_directory : Reals → Real
    real_link : (target : Bytes) → Reals → Real
    real_other : Real

  -- What is in a directory, in the order in which it is read. Reading stops at `unread`: the rest is
  -- there, but an error comes first. A directory that cannot be opened starts with it.
  pub data Reals : Type 0 where
    nothing : Reals
    unread : Reals → Reals
    real_entry : Bytes → Real → Reals → Reals

-- What is at a name of a directory: what `get_attr` of the path finds.
unfoldable pub real_at : Bytes → Reals → Option Real
real_at k nothing = none
real_at k (unread rs) = real_at k rs
real_at k (real_entry name r rs) = let rest = real_at k rs in if same k name then some r else rest

-- What a directory at the path has. Paths go through links.
abbrev pub inside_of : Option Real → Reals
inside_of none = nothing
inside_of (some (real_directory rs)) = rs
inside_of (some (real_link target rs)) = rs
inside_of (some real_other) = nothing

-- A path that is written to: `MountPaths` has two buffers that get the same names, the last name
-- first here.
pub data Place : Type 0 where
  real : List Bytes → Place
  worker : List Bytes → Place
  source : Bytes → Place

-- The calls that change the device, and the error that `commit` logs.
pub data Op : Type 0 where
  mkdirs : Place → Op
  clone : (src dest : Place) → Op
  make_dir : Place → Op
  create : Place → Op
  mount : (reason : Bytes) → (src dest : Place) → (rec : Bool) → Op
  remount : Place → Op
  link_to : (target : Bytes) → Place → Op
  unhandled : Place → Op

-- The calls that were made, and whether none of those that count failed.
abbrev pub Run : Type 0
Run = List Op × Bool

abbrev pub completed : Run
completed = ([], true)

-- `first?; next`
abbrev pub then_run : Run → Run → Run
then_run (ops, true) (more, ok) = (ops ++ more, ok)
then_run (ops, false) next = (ops, false)

abbrev pub replace_name : Bytes
replace_name = codes ".replace"

-- `bind_mount`, which ignores the errors.
abbrev pub bind_mount : Bytes → Place → Place → Bool → Run
bind_mount reason src dest rec = (mount reason src dest rec ∷ remount dest ∷ [], true)

-- `succeeds` says how a call ends.
module _ (succeeds : Op → Bool) where
  abbrev pub attempt : Op → Run
  attempt op = (op ∷ [], succeeds op)

  unfoldable pub mount_dummy : Bytes → Place → Place → Bool → Run
  mount_dummy reason src dest is_dir =
      then_run (if is_dir then attempt (make_dir dest) else attempt (create dest))
        (bind_mount reason src dest false)

  -- The directory itself: its attributes are those of the real one, or of its parent.
  -- No tree is built in the worker directory itself, so the names are not empty.
  abbrev pub clone_from : List Bytes → Bool → Run
  clone_from names true = attempt (clone (real names) (worker names))
  clone_from [] false = completed
  clone_from (name ∷ names) false = attempt (clone (worker names) (worker (name ∷ names)))

  unfoldable pub worker_dir : List Bytes → Bool → Run
  worker_dir names exists = then_run (attempt (mkdirs (worker names))) (clone_from names exists)

  unfoldable pub worker_link : List Bytes → Bytes → Bool → Run
  worker_link names target exists =
      then_run (attempt (link_to target (worker names)))
        (if exists then attempt (clone (real names) (worker names)) else completed)

  unfoldable pub worker_magisk : List Bytes → Run
  worker_magisk names = attempt (
      link_to (if is_supolicy names then codes "./magiskpolicy" else codes "./magisk")
        (worker names))
    where
      is_supolicy : List Bytes → Bool
      is_supolicy [] = false
      is_supolicy (name ∷ names) = same name (codes "supolicy")

  -- Mirroring: `commit_tmpfs` of a directory without children, of a link and of the rest, at what is
  -- on the device. What `children` has is left out.
  unfoldable mutual
    unfolding child mount_dummy worker_dir worker_link

    pub mirror : List Bytes → Real → Run
    mirror names (real_directory rs) = then_run (worker_dir names true) (mirror_all names empty rs)
    mirror names (real_link target rs) = worker_link names target true
    mirror names real_other = mount_dummy (codes "mirror") (real names) (worker names) false

    pub mirror_all : List Bytes → FsNodeMap → Reals → Run
    mirror_all names children nothing = completed
    mirror_all names children (unread rs) = completed
    mirror_all names children (real_entry name r rs) =
        let rest = mirror_all names children rs in
        let here = mirror (name ∷ names) r in
        if is_some (child name children) then rest else then_run here rest

-- The file `.replace`, and the directory that holds it. `parent_dir` is that of the standard
-- library.
abbrev pub replace_dir : (parent_dir : Bytes → Option Bytes) → Option FsNode → Option Bytes
replace_dir parent_dir none = none
replace_dir parent_dir (some (file src)) = parent_dir src
replace_dir parent_dir (some (directory m)) = none
replace_dir parent_dir (some (symlink target)) = none
replace_dir parent_dir (some magisk_link) = none
replace_dir parent_dir (some whiteout) = none

module _ (succeeds : Op → Bool) (parent_dir : Bytes → Option Bytes) where
  unfoldable mutual
    unfolding child take_out real_at mount_dummy worker_dir worker_link worker_magisk mirror

    -- The last argument is what is at the real path.
    pub commit_tmpfs : List Bytes → FsNode → Option Real → Run
    commit_tmpfs names (directory children) r =
        let replaced = replace_all names children (inside_of r) in
        let committed = commit_all names children (inside_of r) in
        then_run (worker_dir succeeds names (is_some r))
          (elim (replace_dir parent_dir (child replace_name children)) [
            | none ↦
                then_run (mirror_all succeeds names (take_out replace_name children) (inside_of r))
                  committed
            | some src_dir ↦ replaced src_dir
          ])
    commit_tmpfs names (file src) r =
        mount_dummy succeeds (codes "mount") (source src) (worker names) false
    commit_tmpfs names (symlink target) r = worker_link succeeds names target (is_some r)
    commit_tmpfs names magisk_link r = worker_magisk succeeds names
    commit_tmpfs names whiteout r = completed

    -- The last loop; `.replace` has been removed.
    pub commit_all : List Bytes → FsNodeMap → Reals → Run
    commit_all names empty rs = completed
    commit_all names (node name v children) rs =
        let here = commit_tmpfs (name ∷ names) v (real_at name rs) in
        let rest = commit_all names children rs in
        if same replace_name name then rest else then_run here rest

    -- The loop for a directory that is replaced; `.replace` has been removed.
    pub replace_all : List Bytes → FsNodeMap → Reals → Bytes → Run
    replace_all names empty rs src_dir = completed
    replace_all names (node name (directory m) children) rs src_dir =
        let rest = replace_all names children rs src_dir in
        if same replace_name name
        then rest
        else then_run
            (mount_dummy succeeds (codes "mount") (source (append_path src_dir name))
              (worker (name ∷ names)) true)
            rest
    replace_all names (node name v children) rs src_dir =
        let here = commit_tmpfs (name ∷ names) v (real_at name rs) in
        let rest = replace_all names children rs src_dir in
        if same replace_name name then rest else then_run here rest
