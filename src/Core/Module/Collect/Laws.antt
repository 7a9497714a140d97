-- ===== src/Core/Module/Collect/Laws.antt =====
-- Laws of `collect` of native/src/core/module.rs: what earlier modules brought stays, and what a
-- module brings is added where nothing stands in the way.
use magisk.Prelude.{
  ◌≡◌, refl, sym, inl, inr, Bool, true, false, Option, none, some, List, [], ◌∷◌, arith,
  if◌then◌else◌, Bool-cases, Option-cases, Bytes,
}
use magisk.Base.Map.{same, same→eq}
use magisk.Core.Module.Tree.{
  FsNode, FsNodeMap, child, put, or_insert, sub_dir, child-put, child-or_insert, visible, directory,
  file, symlink, magisk_link, whiteout,
}
use magisk.Core.Module.Collect.{
  in_directory, ModuleEntry, ModuleEntries, ModulePaths, append, Collected, continue_with,
  collect_file, collect_entry, collect, dir, link, char_device, other, end, broken, entry,
}

-- Not a directory.
abbrev pub IsLeaf : FsNode → Type 0
IsLeaf (directory m) = ⊥
IsLeaf (file src) = Unit
IsLeaf (symlink target) = Unit
IsLeaf magisk_link = Unit
IsLeaf whiteout = Unit

-- What stands at the rest of a path, under the node of its first name.
abbrev pub under : Option FsNode → List Bytes → Option FsNode
under none p = none
under (some v) [] = some v
under (some (directory m)) (l ∷ p) = visible (l ∷ p) m
under (some (file src)) (l ∷ p) = none
under (some (symlink target)) (l ∷ p) = none
under (some magisk_link) (l ∷ p) = none
under (some whiteout) (l ∷ p) = none

pub visible_lem :
    (k : Bytes) (p : List Bytes) (m : FsNodeMap) → visible (k ∷ p) m ≡ under (child k m) p
unfolding visible
visible_lem k [] m = ground (arith, Option-cases (child k m))
visible_lem k (l ∷ p) m = ground (arith)

pub visible-put :
    (j : Bytes) (p : List Bytes) (k : Bytes) (v : FsNode) (m : FsNodeMap)
    → visible (j ∷ p) (put k v m) ≡ (if same j k then under (some v) p else visible (j ∷ p) m)
visible-put j p k v m = elim (Bool-cases (same j k)) [
  | inl s ↦ ground (arith, visible_lem j p (put k v m), child-put k j v m)
  | inr d ↦ ground (arith, visible_lem j p (put k v m), visible_lem j p m, child-put k j v m)
]

keeps-or_insert :
    (p : List Bytes) (n : FsNode) (k : Bytes) (v : FsNode) (m : FsNodeMap)
    → visible p m ≡ some n
    → visible p (or_insert k v m) ≡ some n
keeps-or_insert [] n k v m h = unfold visible in ground arith
keeps-or_insert (j ∷ p) n k v m h = ground (
  arith,
  visible_lem j p m,
  visible_lem j p (or_insert k v m),
  child-or_insert k j v m,
  Option-cases (child j m),
)

keeps-collect_file :
    (exists clone_attr : Bytes → Bool) (paths : ModulePaths) (name : Bytes) (p : List Bytes)
    (n : FsNode) (m : FsNodeMap)
    → visible p m ≡ some n
    → visible p (collect_file exists clone_attr paths name m).0 ≡ some n
unfolding collect_file
keeps-collect_file exists clone_attr paths name p n m h =
    ground (arith, keeps-or_insert p n name (file paths.module_mnt) m h)

pub no_root : (n : FsNode) (m : FsNodeMap) {R : Type 0} → visible [] m ≡ some n → R
unfolding visible
no_root n m h = cc

-- A leaf below a node stands in the directory that the node is.
leaf_below :
    (o : Option FsNode) (sub : FsNodeMap) (p : List Bytes) (n : FsNode)
    → sub_dir o ≡ some sub
    → IsLeaf n
    → under o p ≡ some n
    → visible p sub ≡ some n
leaf_below none sub p n e leaf h = cc
leaf_below (some (directory m)) sub [] n e leaf h = ground (arith)
leaf_below (some (directory m)) sub (l ∷ p) n e leaf h = ground (arith)
leaf_below (some (file src)) sub p n e leaf h = cc
leaf_below (some (symlink target)) sub p n e leaf h = cc
leaf_below (some magisk_link) sub p n e leaf h = cc
leaf_below (some whiteout) sub p n e leaf h = cc

pub under_directory :
    (sub : FsNodeMap) (p : List Bytes) (n : FsNode)
    → visible p sub ≡ some n
    → under (some (directory sub)) p ≡ some n
unfolding visible
under_directory sub [] n h = cc
under_directory sub (l ∷ p) n h = h

keeps_dir :
    (after : FsNodeMap → Collected) (name j : Bytes) (p : List Bytes) (n : FsNode) (m : FsNodeMap)
    → IsLeaf n
    → visible (j ∷ p) m ≡ some n
    → ((sub : FsNodeMap) → visible p sub ≡ some n → visible p (after sub).0 ≡ some n)
    → (o : Option FsNodeMap) → sub_dir (child name m) ≡ o
    → visible (j ∷ p) (in_directory name m after o).0 ≡ some n
keeps_dir after name j p n m leaf h inside_of none e = h
keeps_dir after name j p n m leaf h inside_of (some sub) e = elim (Bool-cases (same j name)) [
  | inl s ↦
      rw (visible-put j p name (directory (after sub).0) m, s)
        (under_directory (after sub).0 p n (
          inside_of sub (
            leaf_below (child name m) sub p n e leaf
              (rw (sym (same→eq j name s), sym (visible_lem j p m)) h))))
  | inr d ↦ rw (visible-put j p name (directory (after sub).0) m, d) h
]

mutual
  unfolding collect_entry collect

  keeps_entry :
      (exists clone_attr : Bytes → Bool) (paths : ModulePaths) (name : Bytes) (e : ModuleEntry)
      (p : List Bytes) (n : FsNode) (m : FsNodeMap)
      → IsLeaf n
      → visible p m ≡ some n
      → visible p (collect_entry exists clone_attr paths name e m).0 ≡ some n
  keeps_entry exists clone_attr paths name (dir entries) [] n m leaf h = no_root n m h
  keeps_entry exists clone_attr paths name (dir entries) (j ∷ p) n m leaf h =
      keeps_dir (λ sub. collect exists clone_attr (append paths name) entries sub) name j p n m leaf
        h (λ sub k. collect-keeps exists clone_attr (append paths name) entries p n sub leaf k)
        (sub_dir (child name m)) refl
  keeps_entry exists clone_attr paths name (link none) p n m leaf h = h
  keeps_entry exists clone_attr paths name (link (some target)) p n m leaf h =
      keeps-or_insert p n name (symlink target) m h
  keeps_entry exists clone_attr paths name (char_device none) p n m leaf h = h
  keeps_entry exists clone_attr paths name (char_device (some true)) p n m leaf h =
      keeps-or_insert p n name whiteout m h
  keeps_entry exists clone_attr paths name (char_device (some false)) p n m leaf h =
      keeps-collect_file exists clone_attr (append paths name) name p n m h
  keeps_entry exists clone_attr paths name other p n m leaf h =
      keeps-collect_file exists clone_attr (append paths name) name p n m h

  -- What an earlier module brought stays, whatever happens.
  pub collect-keeps :
      (exists clone_attr : Bytes → Bool) (paths : ModulePaths) (entries : ModuleEntries)
      (p : List Bytes) (n : FsNode) (m : FsNodeMap)
      → IsLeaf n
      → visible p m ≡ some n
      → visible p (collect exists clone_attr paths entries m).0 ≡ some n
  collect-keeps exists clone_attr paths end p n m leaf h = h
  collect-keeps exists clone_attr paths broken p n m leaf h = h
  collect-keeps exists clone_attr paths (entry name e entries) p n m leaf h =
      then_rest (collect_entry exists clone_attr paths name e m)
        (keeps_entry exists clone_attr paths name e p n m leaf h)
        (λ c k. collect-keeps exists clone_attr paths entries p n c leaf k)
    where
      then_rest :
          (r : Collected)
          → visible p r.0 ≡ some n
          → ((c : FsNodeMap)
              → visible p c ≡ some n
              → visible p (collect exists clone_attr paths entries c).0 ≡ some n)
          → visible p (continue_with r (λ c. collect exists clone_attr paths entries c)).0 ≡ some n
      then_rest (c, true) k rest = rest c k
      then_rest (c, false) k rest = k
