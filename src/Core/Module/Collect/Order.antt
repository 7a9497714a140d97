-- ===== src/Core/Module/Collect/Order.antt =====
-- `collect` of native/src/core/module.rs keeps the tree in order.
use magisk.Prelude.{◌≡◌, refl, Bool, true, false, Option, none, some, arith, Bytes}
use mathlib.Core.Path.{subst}
use magisk.Core.Module.Tree.{
  FsNode, FsNodeMap, child, sub_dir, directory, file, symlink, magisk_link, whiteout, empty,
}
use magisk.Core.Module.Tree.Order.{
  IsOrdered, IsOrderedNode, put-IsOrdered, or_insert-IsOrdered, child-IsOrdered,
}
use magisk.Core.Module.Collect.{
  ModuleEntry, ModuleEntries, ModulePaths, append, Collected, in_directory, continue_with,
  collect_file, collect_entry, collect, dir, link, char_device, other, end, broken, entry,
}

pub sub_dir-IsOrdered :
    (name : Bytes) (m sub : FsNodeMap)
    → IsOrdered m
    → sub_dir (child name m) ≡ some sub
    → IsOrdered sub
sub_dir-IsOrdered name m sub o e = of_node (child name m) (λ v h. child-IsOrdered name m v o h) e
  where
    of_node :
        (c : Option FsNode)
        → ((v : FsNode) → c ≡ some v → IsOrderedNode v)
        → sub_dir c ≡ some sub
        → IsOrdered sub
    of_node none h e = let is_empty : empty ≡ sub = ground arith in subst IsOrdered is_empty tt
    of_node (some (directory m)) h e =
        let is_sub : m ≡ sub = ground arith in subst IsOrdered is_sub (h (directory m) refl)
    of_node (some (file src)) h e = cc
    of_node (some (symlink target)) h e = cc
    of_node (some magisk_link) h e = cc
    of_node (some whiteout) h e = cc

module _ (exists clone_attr : Bytes → Bool) where
  collect_file-IsOrdered :
      (paths : ModulePaths) (name : Bytes) (m : FsNodeMap)
      → IsOrdered m
      → IsOrdered (collect_file exists clone_attr paths name m).0
  unfolding collect_file
  collect_file-IsOrdered paths name m o =
      ground (arith, or_insert-IsOrdered name (file paths.module_mnt) m tt o)

  mutual
    unfolding collect collect_entry

    collect_entry-IsOrdered :
        (paths : ModulePaths) (name : Bytes) (e : ModuleEntry) (m : FsNodeMap)
        → IsOrdered m
        → IsOrdered (collect_entry exists clone_attr paths name e m).0
    collect_entry-IsOrdered paths name (dir entries) m o =
        in_sub (sub_dir (child name m)) (λ sub e. sub_dir-IsOrdered name m sub o e)
          (λ sub h. collect-IsOrdered (append paths name) entries sub h)
      where
        in_sub :
            (c : Option FsNodeMap)
            → ((sub : FsNodeMap) → c ≡ some sub → IsOrdered sub)
            → ((sub : FsNodeMap)
                → IsOrdered sub
                → IsOrdered (collect exists clone_attr (append paths name) entries sub).0)
            → IsOrdered
                (in_directory name m
                  (λ sub. collect exists clone_attr (append paths name) entries sub)
                  c).0
        in_sub none h f = o
        in_sub (some sub) h f =
            put-IsOrdered name
              (directory (collect exists clone_attr (append paths name) entries sub).0) m
              (f sub (h sub refl)) o
    collect_entry-IsOrdered paths name (link none) m o = o
    collect_entry-IsOrdered paths name (link (some target)) m o =
        or_insert-IsOrdered name (symlink target) m tt o
    collect_entry-IsOrdered paths name (char_device none) m o = o
    collect_entry-IsOrdered paths name (char_device (some true)) m o =
        or_insert-IsOrdered name whiteout m tt o
    collect_entry-IsOrdered paths name (char_device (some false)) m o =
        collect_file-IsOrdered (append paths name) name m o
    collect_entry-IsOrdered paths name other m o =
        collect_file-IsOrdered (append paths name) name m o

    pub collect-IsOrdered :
        (paths : ModulePaths) (entries : ModuleEntries) (m : FsNodeMap)
        → IsOrdered m
        → IsOrdered (collect exists clone_attr paths entries m).0
    collect-IsOrdered paths end m o = o
    collect-IsOrdered paths broken m o = o
    collect-IsOrdered paths (entry name e entries) m o =
        then_rest (collect_entry exists clone_attr paths name e m)
          (collect_entry-IsOrdered paths name e m o) (λ c h. collect-IsOrdered paths entries c h)
      where
        then_rest :
            (r : Collected)
            → IsOrdered r.0
            → ((c : FsNodeMap)
                → IsOrdered c
                → IsOrdered (collect exists clone_attr paths entries c).0)
            → IsOrdered (continue_with r (λ c. collect exists clone_attr paths entries c)).0
        then_rest (c, true) h f = f c h
        then_rest (c, false) h f = h
