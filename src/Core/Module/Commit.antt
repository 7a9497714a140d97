-- ===== src/Core/Module/Commit.antt =====
-- `commit` of native/src/core/module.rs: a tree becomes mounts, and directories are built anew where
-- mounts do not do.
pub mod Within
pub mod Built
pub mod Mounted
use magisk.Prelude.{
  ℕ, zero, suc, ◌+◌, ◌-◌, ◌*◌, ◌/◌, ◌%◌, ◌^◌, ◌≤◌, ◌<◌, Ordering, compare, bit_and, bit_or, ◌≡◌,
  refl, sym, ap, ap₂, ◌∙◌, fun_ext, ◌≢◌, ◌↔◌, ◌⊎◌, inl, inr, Bool, true, false, not, ◌&&◌, ◌||◌,
  Option, none, some, List, [], ◌∷◌, ◌++◌, map, append-nil, append_assoc, arith, ltb, leb, ◌==◌,
  if◌then◌else◌, ltb→lt, lt→ltb, ltb→le, leb→le, le→leb, ==_iff, tests, Bool-cases, Option-cases,
  Bytes, All, length, take, drop, replicate, is_empty, all_of, length-append, length-replicate,
  take-append-drop, length-take, length-drop, take-append_left, drop-append_left, take_all,
  drop_all, set, set-append,
}
use magisk.Base.Text.{codes}
use magisk.Base.Map.{
  Map, After, IsSorted, same, same_refl, same→eq, ne→same, Below→same, Below→same_flip, get, insert,
  remove, keep, retain, extend, get-insert, get-insert_self, get-remove, get-After, get-After_eq,
  After-trans, After-insert, insert-IsSorted, After-retain, retain-IsSorted, After-remove,
  remove-IsSorted, extend-IsSorted, bind, get-retain, or_else, get-extend, map_ext,
}
use magisk.Core.Module.Tree.{
  FsNode, FsNodeMap, child, put, take_out, or_insert, sub_dir, child-put, child-or_insert,
  child-take_out, append_path, visible, directory, file, symlink, magisk_link, whiteout, empty,
  node,
}
use magisk.Core.Module.Worker.{
  completed, inside_of, Real, Reals, real_at, Place, Op, Run, then_run, replace_name, bind_mount,
  attempt, mount_dummy, clone_from, worker_dir, worker_link, worker_magisk, mirror, mirror_all,
  replace_dir, commit_tmpfs, commit_all, replace_all, real_directory, real_link, real_other,
  nothing, unread, real_entry, real, worker, source, mkdirs, clone, create, mount, remount, link_to,
  unhandled,
}

-- What `get_attr` tells of the target.
abbrev pub is_absent_or_link : Option Real → Bool
is_absent_or_link none = true
is_absent_or_link (some (real_directory rs)) = false
is_absent_or_link (some (real_link target rs)) = true
is_absent_or_link (some real_other) = false

unfoldable pub parent_should_be_tmpfs : FsNode → Option Real → Bool
parent_should_be_tmpfs (directory m) r = is_absent_or_link r
parent_should_be_tmpfs (file src) r = is_absent_or_link r
parent_should_be_tmpfs (symlink target) r = true
parent_should_be_tmpfs magisk_link r = true
parent_should_be_tmpfs whiteout r = true

-- What the closure of `retain` gives for a child.
unfoldable pub is_retained : Bool → Bytes → FsNode → Option Real → Bool
unfolding parent_should_be_tmpfs
is_retained is_root_dir name v r =
    if same name replace_name
    then not is_root_dir
    else not (parent_should_be_tmpfs v r && is_root_dir)

unfoldable pub retained : Bool → FsNodeMap → Reals → FsNodeMap
unfolding is_retained real_at
retained is_root_dir empty rs = empty
retained is_root_dir (node name v m) rs =
    let rest = retained is_root_dir m rs in
    if is_retained is_root_dir name v (real_at name rs) then node name v rest else rest

-- What the closure of `retain` leaves in `is_tmpfs`.
unfoldable pub needs_tmpfs : Bool → FsNodeMap → Reals → Bool
unfolding parent_should_be_tmpfs real_at
needs_tmpfs is_root_dir empty rs = false
needs_tmpfs is_root_dir (node name v m) rs =
    let rest = needs_tmpfs is_root_dir m rs in
    if (same name replace_name || parent_should_be_tmpfs v (real_at name rs)) && not is_root_dir
    then true
    else rest

module _ (succeeds : Op → Bool) (parent_dir : Bytes → Option Bytes) where
  unfoldable mutual
    unfolding is_retained retained needs_tmpfs real_at commit_tmpfs

    -- The last but one argument is what is at the real path.
    pub commit : List Bytes → FsNode → Option Real → (is_root_dir : Bool) → Run
    commit names (directory children) r is_root_dir =
        let committed = commit_children names children (inside_of r) is_root_dir in
        if needs_tmpfs is_root_dir children (inside_of r)
        then then_run
            (commit_tmpfs succeeds parent_dir names
              (directory (retained is_root_dir children (inside_of r))) r)
            (bind_mount (codes "move") (worker names) (real names) true)
        else committed
    commit names (file src) r is_root_dir =
        bind_mount (codes "mount") (source src) (real names) false
    commit names (symlink target) r is_root_dir = (unhandled (real names) ∷ [], true)
    commit names magisk_link r is_root_dir = (unhandled (real names) ∷ [], true)
    commit names whiteout r is_root_dir = (unhandled (real names) ∷ [], true)

    -- The loop over the children that `retain` has left.
    pub commit_children : List Bytes → FsNodeMap → Reals → (is_root_dir : Bool) → Run
    commit_children names empty rs is_root_dir = completed
    commit_children names (node name v m) rs is_root_dir =
        let here = commit (name ∷ names) v (real_at name rs) false in
        let rest = commit_children names m rs is_root_dir in
        if is_retained is_root_dir name v (real_at name rs) then then_run here rest else rest
