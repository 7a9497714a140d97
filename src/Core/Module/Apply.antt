-- ===== src/Core/Module/Apply.antt =====
-- `apply_modules` of native/src/core/module.rs: the trees of the modules become one, which is split
-- into those of the partitions, and each of them becomes mounts.
pub mod Laws
pub mod Roots
use magisk.Prelude.{
  ℕ, zero, suc, ◌+◌, ◌-◌, ◌*◌, ◌/◌, ◌%◌, ◌^◌, ◌≤◌, ◌<◌, Ordering, compare, bit_and, bit_or, ◌≡◌,
  refl, sym, ap, ap₂, ◌∙◌, fun_ext, ◌≢◌, ◌↔◌, ◌⊎◌, inl, inr, Bool, true, false, not, ◌&&◌, ◌||◌,
  Option, none, some, List, [], ◌∷◌, ◌++◌, map, append-nil, append_assoc, arith, ltb, leb, ◌==◌,
  if◌then◌else◌, ltb→lt, lt→ltb, ltb→le, leb→le, le→leb, ==_iff, tests, Bool-cases, Option-cases,
  Bytes, All, length, take, drop, replicate, is_empty, all_of, length-append, length-replicate,
  take-append-drop, length-take, length-drop, take-append_left, drop-append_left, take_all,
  drop_all, set, set-append,
}
use magisk.Base.Text.{codes, split, equal}
use magisk.Base.Map.{
  Map, After, IsSorted, same, same_refl, same→eq, ne→same, Below→same, Below→same_flip, get, insert,
  remove, keep, retain, extend, get-insert, get-insert_self, get-remove, get-After, get-After_eq,
  After-trans, After-insert, insert-IsSorted, After-retain, retain-IsSorted, After-remove,
  remove-IsSorted, extend-IsSorted, bind, get-retain, or_else, get-extend, map_ext,
}
use magisk.Core.Module.Tree.{
  FsNode, FsNodeMap, child, put, take_out, or_insert, sub_dir, child-put, child-or_insert,
  child-take_out, append_path, visible, directory, file, symlink, magisk_link, whiteout, empty,
  node,
}
use magisk.Core.Module.Collect.{
  ModuleEntry, ModuleEntries, ModulePaths, append, Collected, in_directory, continue_with,
  collect_file, collect_entry, collect, dir, link, char_device, other, end, broken, entry,
}
use magisk.Core.Module.Worker.{
  Real, Reals, real_at, Place, Op, Run, then_run, replace_name, bind_mount, attempt, mount_dummy,
  clone_from, worker_dir, worker_link, worker_magisk, mirror, mirror_all, replace_dir, commit_tmpfs,
  commit_all, replace_all, real_directory, real_link, real_other, nothing, unread, real_entry, real,
  worker, source, mkdirs, clone, create, mount, remount, link_to, unhandled,
}
use magisk.Core.Module.Commit.{
  is_absent_or_link, parent_should_be_tmpfs, is_retained, retained, needs_tmpfs, commit,
  commit_children,
}
use magisk.Core.Module.Inject.{
  magisk_bin_inject_partitions, strip_system_prefix, normal_components, insert_candidate,
  sort_candidates, file_count, candidates, found_dir, otherwise, in_dir, with_dir, inject,
  inject_path, path_loop, inject_magisk_bins, inject_zygisk_bins,
}

-- What the loop over the modules looks at: whether there is `system.prop` and `skip_mount`, and
-- what there is of `system`.
pub record Module : Type 0 where
  pub name : Bytes
  pub system_prop : Bool
  pub skip_mount : Bool
  pub system : Option ModuleEntries

-- The paths of the folder `system` of a module.
abbrev pub system_paths : (module_mnt : Bytes) → Bytes → ModulePaths
system_paths module_mnt name =
    append (record { real = codes "/"; module_mnt = append_path module_mnt name }) (codes "system")

abbrev pub secondary_read_only_partitions : List Bytes
secondary_read_only_partitions = codes "vendor" ∷ codes "product" ∷ codes "system_ext" ∷ []

-- `exists` and `clone_attr` are as for `collect`; `module_mnt` is where the modules are mounted.
module _ (exists clone_attr : Bytes → Bool) (module_mnt : Bytes) where
  -- Step 1; an error of `collect` is logged.
  abbrev pub load_module : Module → FsNodeMap → FsNodeMap
  load_module info tree = elim info.system [
    | none ↦ tree
    | some entries ↦
        if info.skip_mount
        then tree
        else (collect exists clone_attr (system_paths module_mnt info.name) entries tree).0
  ]

  unfoldable pub load_modules : List Module → FsNodeMap → FsNodeMap
  unfolding collect
  load_modules [] tree = tree
  load_modules (info ∷ modules) tree = load_modules modules (load_module info tree)

-- The modules whose properties are loaded in step 1.
unfoldable pub loaded_props : List Module → List Bytes
loaded_props [] = []
loaded_props (info ∷ modules) =
    let rest = loaded_props modules in if info.system_prop then info.name ∷ rest else rest

-- Step 3. `is_dir` says whether there is a directory of the name in the root directory.
unfoldable pub extract_roots :
    (is_dir : Bytes → Bool) → List Bytes → FsNodeMap → Map FsNode → FsNodeMap × Map FsNode
unfolding child take_out
extract_roots is_dir [] children roots = (children, roots)
extract_roots is_dir (name ∷ names) children roots =
    if is_dir name
    then elim (child name children) [
      | none ↦ extract_roots is_dir names children roots
      | some root ↦ extract_roots is_dir names (take_out name children) (insert name root roots)
    ]
    else extract_roots is_dir names children roots

unfoldable pub roots_of : (is_dir : Bytes → Bool) → FsNodeMap → Map FsNode
unfolding extract_roots
roots_of is_dir system =
    let (rest, roots) = extract_roots is_dir secondary_read_only_partitions system [] in
    insert (codes "system") (directory rest) roots

-- Step 4; an error of `commit` is logged. `root_dir` is what is in the root directory.
module _ (succeeds : Op → Bool) (parent_dir : Bytes → Option Bytes) where
  unfoldable pub commit_roots : (root_dir : Reals) → Map FsNode → List Op
  unfolding commit
  commit_roots root_dir [] = []
  commit_roots root_dir ((partition, root) ∷ roots) =
      (commit succeeds parent_dir (partition ∷ []) root (real_at partition root_dir) true).0
      ++ commit_roots root_dir roots

abbrev pub has_no : Bytes → List Bytes → Bool
has_no x [] = true
has_no x (y ∷ ys) = not (equal y x) && has_no x ys

-- Everything `apply_modules` looks at. `zygisk` is the name of the library, where zygisk is on.
pub record Device : Type 0 where
  pub path_exists : Bytes → Bool
  pub clone_attr : Bytes → Bool
  pub mode : Bytes → Option ℕ
  pub count_files : Bytes → Option ℕ
  pub succeeds : Op → Bool
  pub parent_dir : Bytes → Option Bytes
  pub is_dir : Bytes → Bool
  pub root_dir : Reals
  pub magisk_tmp : Bytes
  pub module_mnt : Bytes
  pub path_env : Bytes
  pub is_emulator : Bool
  pub is_64 : Bool
  pub zygisk : Option Bytes

unfoldable pub inject_bins : Device → FsNodeMap → FsNodeMap
unfolding inject_magisk_bins
inject_bins d system =
    if not (equal d.magisk_tmp (codes "/sbin")) || has_no (codes "/sbin") (split 58 d.path_env)
    then inject_magisk_bins d.path_exists d.mode d.count_files d.magisk_tmp d.path_env d.is_emulator
        system
    else system

unfoldable pub inject_zygisk : Device → FsNodeMap → FsNodeMap
unfolding inject_zygisk_bins
inject_zygisk d system = elim d.zygisk [
  | none ↦ system
  | some lib ↦ inject_zygisk_bins d.path_exists d.magisk_tmp d.is_64 lib system
]

-- The tree after steps 1 and 2.
unfoldable pub module_tree : Device → List Module → FsNodeMap
unfolding load_modules inject_bins inject_zygisk
module_tree d modules =
    inject_zygisk d
      (inject_bins d (load_modules d.path_exists d.clone_attr d.module_mnt modules empty))

-- The calls of the last two steps of `apply_modules`, for the tree that the first two make. Step 1 has
-- copied attributes to files of the modules by then, which is not among them.
unfoldable pub commit_partitions : Device → List Module → List Op
unfolding module_tree roots_of commit_roots
commit_partitions d modules =
    commit_roots d.succeeds d.parent_dir d.root_dir (roots_of d.is_dir (module_tree d modules))
