-- ===== src/Core/Module/Apply/Laws.antt =====
-- Laws of the steps of `apply_modules` of native/src/core/module.rs.
use magisk.Prelude.{
  ◌≡◌, refl, Bool, true, false, not, ◌||◌, Option, none, some, List, [], ◌∷◌, ◌++◌, if◌then◌else◌,
  Bytes,
}
use magisk.Base.Text.{codes, split, equal}
use magisk.Core.Module.Tree.{FsNode, FsNodeMap, visible, empty}
use magisk.Core.Module.Tree.Order.{IsOrdered}
use magisk.Core.Module.Collect.{ModuleEntries, collect}
use magisk.Core.Module.Collect.Laws.{IsLeaf, collect-keeps}
use magisk.Core.Module.Collect.Added.{brought_at, IsOpen, brought_at-IsLeaf, collect-brings}
use magisk.Core.Module.Collect.Order.{collect-IsOrdered}
use magisk.Core.Module.Inject.{inject_magisk_bins}
use magisk.Core.Module.Inject.Laws.{inject_zygisk_bins-IsOrdered, inject_magisk_bins-IsOrdered}
use magisk.Core.Module.Apply.{
  Module, system_paths, load_module, load_modules, has_no, Device, inject_bins, inject_zygisk,
  module_tree,
}

module _ (exists clone_attr : Bytes → Bool) (module_mnt : Bytes) where
  load_module-keeps :
      (info : Module) (p : List Bytes) (n : FsNode) (m : FsNodeMap)
      → IsLeaf n
      → visible p m ≡ some n
      → visible p (load_module exists clone_attr module_mnt info m) ≡ some n
  load_module-keeps info p n m leaf h = cases info.system info.skip_mount
    where
      cases :
          (system : Option ModuleEntries) (skip : Bool)
          → visible p (
              load_module exists clone_attr module_mnt
                (record info { system = system; skip_mount = skip })
                m)
            ≡ some n
      cases none skip = h
      cases (some entries) true = h
      cases (some entries) false =
          collect-keeps exists clone_attr (system_paths module_mnt info.name) entries p n m leaf h

  load_modules-keeps :
      (modules : List Module) (p : List Bytes) (n : FsNode) (m : FsNodeMap)
      → IsLeaf n
      → visible p m ≡ some n
      → visible p (load_modules exists clone_attr module_mnt modules m) ≡ some n
  unfolding load_modules
  load_modules-keeps [] p n m leaf h = h
  load_modules-keeps (info ∷ modules) p n m leaf h =
      load_modules-keeps modules p n (load_module exists clone_attr module_mnt info m) leaf
        (load_module-keeps info p n m leaf h)

  load_modules-append :
      (before after : List Module) (m : FsNodeMap)
      → load_modules exists clone_attr module_mnt (before ++ after) m
        ≡ load_modules exists clone_attr module_mnt after
            (load_modules exists clone_attr module_mnt before m)
  unfolding load_modules
  load_modules-append [] after m = refl
  load_modules-append (info ∷ before) after m =
      load_modules-append before after (load_module exists clone_attr module_mnt info m)

  -- If a module has a folder `system` and no `skip_mount`, has a file, link or whiteout at a
  -- path, its `collect` ends without an error, and the modules before it have brought nothing at
  -- the path and only directories above it, then the node of that file, link or whiteout stands
  -- at the path after all modules are loaded, whatever the later modules have.
  pub load_modules-first :
      (before after : List Module) (info : Module) (entries : ModuleEntries) (p : List Bytes)
      (n : FsNode) (m : FsNodeMap)
      → info.system ≡ some entries
      → info.skip_mount ≡ false
      → IsOpen p (load_modules exists clone_attr module_mnt before m)
      → (collect exists clone_attr
          (system_paths module_mnt info.name)
          entries
          (load_modules exists clone_attr module_mnt before m)).1
        ≡ true
      → brought_at (system_paths module_mnt info.name) p entries ≡ some n
      → visible p (load_modules exists clone_attr module_mnt (before ++ (info ∷ after)) m) ≡ some n
  unfolding load_modules
  load_modules-first before after info entries p n m has mounts free ok brings =
      let so_far = load_modules exists clone_attr module_mnt before m in
      rw (load_modules-append before (info ∷ after) m) (
        load_modules-keeps after p n (load_module exists clone_attr module_mnt info so_far)
          (brought_at-IsLeaf (system_paths module_mnt info.name) p entries n brings)
          (rw (has, mounts)
            (collect-brings exists clone_attr (system_paths module_mnt info.name) p entries n so_far
              ok free brings)))

  load_modules-IsOrdered :
      (modules : List Module) (m : FsNodeMap)
      → IsOrdered m
      → IsOrdered (load_modules exists clone_attr module_mnt modules m)
  unfolding load_modules
  load_modules-IsOrdered [] m o = o
  load_modules-IsOrdered (info ∷ modules) m o =
      load_modules-IsOrdered modules (load_module exists clone_attr module_mnt info m)
        (loaded info.system info.skip_mount)
    where
      loaded :
          (system : Option ModuleEntries) (skip : Bool)
          → IsOrdered (
              load_module exists clone_attr module_mnt
                (record info { system = system; skip_mount = skip })
                m)
      loaded none skip = o
      loaded (some entries) true = o
      loaded (some entries) false =
          collect-IsOrdered exists clone_attr (system_paths module_mnt info.name) entries m o

inject_bins-IsOrdered : (d : Device) (m : FsNodeMap) → IsOrdered m → IsOrdered (inject_bins d m)
unfolding inject_bins
inject_bins-IsOrdered d m o =
    either
      (not (equal d.magisk_tmp (codes "/sbin")) || has_no (codes "/sbin") (split 58 d.path_env))
  where
    either :
        (b : Bool)
        → IsOrdered (
            if b
            then inject_magisk_bins d.path_exists d.mode d.count_files d.magisk_tmp d.path_env
                d.is_emulator m
            else m)
    either true =
        inject_magisk_bins-IsOrdered d.path_exists d.mode d.count_files d.magisk_tmp d.path_env
          d.is_emulator m o
    either false = o

inject_zygisk-IsOrdered : (d : Device) (m : FsNodeMap) → IsOrdered m → IsOrdered (inject_zygisk d m)
inject_zygisk-IsOrdered d m o = cases d.zygisk
  where
    cases : (zygisk : Option Bytes) → IsOrdered (inject_zygisk (record d { zygisk = zygisk }) m)
    cases none = unfold inject_zygisk in o
    cases (some lib) =
        unfold inject_zygisk in
        inject_zygisk_bins-IsOrdered d.path_exists d.magisk_tmp d.is_64 lib m o

-- The tree that is made of the modules and the programs of Magisk has the names of every
-- directory in order, each once.
pub module_tree-IsOrdered : (d : Device) (modules : List Module) → IsOrdered (module_tree d modules)
unfolding module_tree
module_tree-IsOrdered d modules =
    let loaded = load_modules d.path_exists d.clone_attr d.module_mnt modules empty in
    inject_zygisk-IsOrdered d (inject_bins d loaded) (
      inject_bins-IsOrdered d loaded
        (load_modules-IsOrdered d.path_exists d.clone_attr d.module_mnt modules empty tt))
