-- ===== src/Core/Module/Collect/Added.antt =====
-- What `collect` of native/src/core/module.rs adds to the tree.
use magisk.Prelude.{
  ◌≡◌, refl, sym, ap, ◌∙◌, inl, inr, Bool, true, false, Option, none, some, List, [], ◌∷◌, arith,
  if◌then◌else◌, Bool-cases, Option-cases, Bytes,
}
use mathlib.Core.Path.{subst}
use magisk.Base.Map.{same, same_refl, same→eq}
use magisk.Core.Module.Tree.{
  FsNode, FsNodeMap, child, sub_dir, child-put, child-or_insert, visible, directory, file, symlink,
  magisk_link, whiteout, empty,
}
use magisk.Core.Module.Collect.{
  ModuleEntry, ModuleEntries, ModulePaths, append, Collected, in_directory, continue_with,
  collect_file, collect_entry, collect, dir, link, char_device, other, end, broken, entry,
}
use magisk.Core.Module.Collect.Laws.{IsLeaf, visible-put, under_directory, collect-keeps}

-- The node of what a module has at a path, where that is no directory.
abbrev pub brought : Bytes → ModuleEntry → Option FsNode
brought src (dir entries) = none
brought src (link none) = none
brought src (link (some target)) = some (symlink target)
brought src (char_device none) = none
brought src (char_device (some true)) = some whiteout
brought src (char_device (some false)) = some (file src)
brought src other = some (file src)

-- The entry at a path of a module.
unfoldable pub brought_at : ModulePaths → List Bytes → ModuleEntries → Option FsNode
brought_at paths [] entries = none
brought_at paths (k ∷ p) end = none
brought_at paths (k ∷ p) broken = none
brought_at paths (k ∷ []) (entry name e entries) =
    let rest = brought_at paths (k ∷ []) entries in
    if same k name then brought (append paths name).module_mnt e else rest
brought_at paths (k ∷ l ∷ p) (entry name (dir sub) entries) =
    let deeper = brought_at (append paths name) (l ∷ p) sub in
    let rest = brought_at paths (k ∷ l ∷ p) entries in if same k name then deeper else rest
brought_at paths (k ∷ l ∷ p) (entry name _ entries) =
    let rest = brought_at paths (k ∷ l ∷ p) entries in if same k name then none else rest

-- Nothing in the tree stands at the path, and no node above it is a leaf.
unfoldable pub IsOpenUnder : List Bytes → Option FsNode → Type 0
unfolding child
IsOpenUnder p none = Unit
IsOpenUnder [] (some v) = ⊥
IsOpenUnder (l ∷ p) (some (directory sub)) = IsOpenUnder p (child l sub)
IsOpenUnder (l ∷ p) (some (file src)) = ⊥
IsOpenUnder (l ∷ p) (some (symlink target)) = ⊥
IsOpenUnder (l ∷ p) (some magisk_link) = ⊥
IsOpenUnder (l ∷ p) (some whiteout) = ⊥

unfoldable pub IsOpen : List Bytes → FsNodeMap → Type 0
unfolding IsOpenUnder
IsOpen [] m = ⊥
IsOpen (k ∷ p) m = IsOpenUnder p (child k m)

brought-IsLeaf : (src : Bytes) (e : ModuleEntry) (n : FsNode) → brought src e ≡ some n → IsLeaf n
brought-IsLeaf src (dir entries) n h = cc
brought-IsLeaf src (link none) n h = cc
brought-IsLeaf src (link (some target)) n h = ground arith
brought-IsLeaf src (char_device none) n h = cc
brought-IsLeaf src (char_device (some true)) n h = ground arith
brought-IsLeaf src (char_device (some false)) n h = ground arith
brought-IsLeaf src other n h = ground arith

pub brought_at-IsLeaf :
    (paths : ModulePaths) (p : List Bytes) (entries : ModuleEntries) (n : FsNode)
    → brought_at paths p entries ≡ some n
    → IsLeaf n
unfolding brought_at
brought_at-IsLeaf paths [] entries n h = cc
brought_at-IsLeaf paths (k ∷ p) end n h = cc
brought_at-IsLeaf paths (k ∷ p) broken n h = cc
brought_at-IsLeaf paths (k ∷ []) (entry name e entries) n h = ground (
  arith,
  brought-IsLeaf (append paths name).module_mnt e n,
  brought_at-IsLeaf paths (k ∷ []) entries n,
)
brought_at-IsLeaf paths (k ∷ l ∷ p) (entry name (dir sub) entries) n h = ground (
  arith,
  brought_at-IsLeaf (append paths name) (l ∷ p) sub n,
  brought_at-IsLeaf paths (k ∷ l ∷ p) entries n,
)
brought_at-IsLeaf paths (k ∷ l ∷ p) (entry name _ entries) n h =
    ground (arith, brought_at-IsLeaf paths (k ∷ l ∷ p) entries n)

-- Another entry has no part in what the rest brings.
brought_at_other :
    (paths : ModulePaths) (k name : Bytes) (p : List Bytes) (e : ModuleEntry)
    (entries : ModuleEntries)
    → same k name ≡ false
    → brought_at paths (k ∷ p) entries ≡ brought_at paths (k ∷ p) (entry name e entries)
unfolding brought_at
brought_at_other paths k name [] e entries d = ground arith
brought_at_other paths k name (l ∷ p) (dir sub) entries d = ground arith
brought_at_other paths k name (l ∷ p) _ entries d = ground arith

-- Whether a path is free is seen at the child of its first name.
IsOpen-child :
    (k : Bytes) (p : List Bytes) (m c : FsNodeMap)
    → child k c ≡ child k m
    → IsOpen (k ∷ p) m
    → IsOpen (k ∷ p) c
unfolding IsOpen IsOpenUnder
IsOpen-child k p m c e h = subst (IsOpenUnder p) (sym e) h

-- The children that are read next on an free path are free too.
IsOpen-below :
    (l : Bytes) (p : List Bytes) (o : Option FsNode)
    → IsOpenUnder (l ∷ p) o
    → (sub : FsNodeMap) × (sub_dir o ≡ some sub) × IsOpen (l ∷ p) sub
unfolding IsOpen IsOpenUnder child
IsOpen-below l p none h = (empty, refl, tt)
IsOpen-below l p (some (directory sub)) h = (sub, refl, h)
IsOpen-below l p (some (file src)) h = absurd h
IsOpen-below l p (some (symlink target)) h = absurd h
IsOpen-below l p (some magisk_link) h = absurd h
IsOpen-below l p (some whiteout) h = absurd h

module _ (exists clone_attr : Bytes → Bool) where
  child-collect_file :
      (paths : ModulePaths) (name k : Bytes) (m : FsNodeMap)
      → same k name ≡ false
      → child k (collect_file exists clone_attr paths name m).0 ≡ child k m
  unfolding collect_file
  child-collect_file paths name k m d =
      ground (arith, child-or_insert name k (file paths.module_mnt) m, Option-cases (child k m))

  -- An entry leaves the children of other names as they are.
  child-collect_entry :
      (paths : ModulePaths) (name : Bytes) (e : ModuleEntry) (k : Bytes) (m : FsNodeMap)
      → same k name ≡ false
      → child k (collect_entry exists clone_attr paths name e m).0 ≡ child k m
  unfolding collect_entry
  child-collect_entry paths name (dir entries) k m d = dir_case (sub_dir (child name m))
    where
      dir_case :
          (o : Option FsNodeMap)
          → child k
              (in_directory name m
                (λ sub. collect exists clone_attr (append paths name) entries sub)
                o).0
            ≡ child k m
      dir_case none = refl
      dir_case (some sub) =
          let after = collect exists clone_attr (append paths name) entries sub in
          rw (child-put name k (directory after.0) m, d)
  child-collect_entry paths name (link none) k m d = refl
  child-collect_entry paths name (link (some target)) k m d =
      ground (arith, child-or_insert name k (symlink target) m, Option-cases (child k m))
  child-collect_entry paths name (char_device none) k m d = refl
  child-collect_entry paths name (char_device (some true)) k m d =
      ground (arith, child-or_insert name k whiteout m, Option-cases (child k m))
  child-collect_entry paths name (char_device (some false)) k m d =
      child-collect_file (append paths name) name k m d
  child-collect_entry paths name other k m d = child-collect_file (append paths name) name k m d

  -- A leaf is added where there is nothing.
  brings_leaf :
      (paths : ModulePaths) (name : Bytes) (e : ModuleEntry) (n : FsNode) (m : FsNodeMap)
      → (collect_entry exists clone_attr paths name e m).1 ≡ true
      → child name m ≡ none
      → brought (append paths name).module_mnt e ≡ some n
      → child name (collect_entry exists clone_attr paths name e m).0 ≡ some n
  unfolding collect_entry collect_file
  brings_leaf paths name (dir entries) n m ok c h = cc
  brings_leaf paths name (link none) n m ok c h = cc
  brings_leaf paths name (link (some target)) n m ok c h =
      ground (arith, child-or_insert name name (symlink target) m, same_refl name)
  brings_leaf paths name (char_device none) n m ok c h = cc
  brings_leaf paths name (char_device (some true)) n m ok c h =
      ground (arith, child-or_insert name name whiteout m, same_refl name)
  brings_leaf paths name (char_device (some false)) n m ok c h =
      ground
        (arith, child-or_insert name name (file (append paths name).module_mnt) m, same_refl name)
  brings_leaf paths name other n m ok c h =
      ground
        (arith, child-or_insert name name (file (append paths name).module_mnt) m, same_refl name)

  -- What is under a name after the directory of that name has been collected.
  brings_below :
      (after : FsNodeMap → Collected) (name l : Bytes) (p : List Bytes) (n : FsNode) (m : FsNodeMap)
      → (in_directory name m after (sub_dir (child name m))).1 ≡ true
      → IsOpen (name ∷ l ∷ p) m
      → ((sub : FsNodeMap)
          → (after sub).1 ≡ true
          → IsOpen (l ∷ p) sub
          → visible (l ∷ p) (after sub).0 ≡ some n)
      → visible (name ∷ l ∷ p) (in_directory name m after (sub_dir (child name m))).0 ≡ some n
  unfolding IsOpen IsOpenUnder
  brings_below after name l p n m ok free inside_of =
      let (sub, e, below) = IsOpen-below l p (child name m) free in
      in_sub (sub_dir (child name m)) sub e ok below
    where
      in_sub :
          (o : Option FsNodeMap) (sub : FsNodeMap)
          → o ≡ some sub
          → (in_directory name m after o).1 ≡ true
          → IsOpen (l ∷ p) sub
          → visible (name ∷ l ∷ p) (in_directory name m after o).0 ≡ some n
      in_sub none sub e ok below = cc
      in_sub (some c) sub e ok below =
          let same_sub : c ≡ sub = ground arith in
          rw (visible-put name (l ∷ p) name (directory (after c).0) m, same_refl name)
            (under_directory (after c).0 (l ∷ p) n
              (inside_of c ok (subst (IsOpen (l ∷ p)) (sym same_sub) below)))

  IsOpen_last : (o : Option FsNode) → IsOpenUnder [] o → o ≡ none
  unfolding IsOpen IsOpenUnder
  IsOpen_last none h = refl
  IsOpen_last (some v) h = absurd h

  first_ok :
      (r : Collected) (rest : FsNodeMap → Collected)
      → (continue_with r rest).1 ≡ true
      → (r.1 ≡ true) × (continue_with r rest ≡ rest r.0)
  first_ok (c, true) rest h = (refl, refl)
  first_ok (c, false) rest h = cc

  mutual
    unfolding collect_entry collect brought_at visible IsOpen IsOpenUnder

    brings_entry :
        (paths : ModulePaths) (name : Bytes) (e : ModuleEntry) (p : List Bytes) (n : FsNode)
        (m : FsNodeMap) (entries : ModuleEntries)
        → (collect_entry exists clone_attr paths name e m).1 ≡ true
        → IsOpen (name ∷ p) m
        → brought_at paths (name ∷ p) (entry name e entries) ≡ some n
        → visible (name ∷ p) (collect_entry exists clone_attr paths name e m).0 ≡ some n
    brings_entry paths name e [] n m entries ok free h =
        brings_leaf paths name e n m ok (IsOpen_last (child name m) free)
          (ground (arith, same_refl name))
    brings_entry paths name (dir sub) (l ∷ p) n m entries ok free h =
        brings_below (λ c. collect exists clone_attr (append paths name) sub c) name l p n m ok free
          (λ c k below.
            collect-brings (append paths name) (l ∷ p) sub n c k below
              (ground (arith, same_refl name)))
    brings_entry paths name _ (l ∷ p) n m entries ok free h = ground (arith, same_refl name)

    pub collect-brings :
        (paths : ModulePaths) (p : List Bytes) (entries : ModuleEntries) (n : FsNode)
        (m : FsNodeMap)
        → (collect exists clone_attr paths entries m).1 ≡ true
        → IsOpen p m
        → brought_at paths p entries ≡ some n
        → visible p (collect exists clone_attr paths entries m).0 ≡ some n
    collect-brings paths [] entries n m ok free h = cc
    collect-brings paths (k ∷ p) end n m ok free h = cc
    collect-brings paths (k ∷ p) broken n m ok free h = cc
    collect-brings paths (k ∷ p) (entry name e entries) n m ok free h =
        let first = collect_entry exists clone_attr paths name e m in
        let (good, now) = first_ok first (λ c. collect exists clone_attr paths entries c) ok in
        rw now (elim (Bool-cases (same k name)) [
          | inl s ↦
              collect-keeps exists clone_attr paths entries (k ∷ p) n first.0
                (brought_at-IsLeaf paths (k ∷ p) (entry name e entries) n h)
                (subst (λ j. visible (j ∷ p) first.0 ≡ some n) (sym (same→eq k name s))
                  (brings_entry paths name e p n m entries good
                    (subst (λ j. IsOpen (j ∷ p) m) (same→eq k name s) free)
                    (subst (λ j. brought_at paths (j ∷ p) (entry name e entries) ≡ some n)
                      (same→eq k name s) h)))
          | inr d ↦
              collect-brings paths (k ∷ p) entries n first.0 (ap (λ r. r.1) (sym now) ∙ ok)
                (IsOpen-child k p m first.0 (child-collect_entry paths name e k m d) free)
                (brought_at_other paths k name p e entries d ∙ h)
        ])
