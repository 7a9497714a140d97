-- ===== src/Core/Module/Apply/Roots.antt =====
-- The partitions in `apply_modules` of native/src/core/module.rs.
use magisk.Prelude.{
  ◌&&◌, ◌||◌, ◌≡◌, refl, ◌∙◌, ◌⊎◌, inl, inr, Bool, true, false, Option, none, some, List, [], ◌∷◌,
  arith, if◌then◌else◌, Option-cases, Bytes, All,
}
use magisk.Base.Text.{codes}
use magisk.Base.Map.{Map, same, same→eq, get, insert, get-insert, get-insert_self, or_else}
use magisk.Base.Map.Entries.{Entries, Entries-insert}
use magisk.Core.Module.Tree.{
  FsNode, FsNodeMap, child, take_out, child-take_out, directory, file, symlink, magisk_link,
  whiteout,
}
use magisk.Core.Module.Worker.{Real, Reals, real_at, Op}
use magisk.Core.Module.Worker.Within.{All-append, All_map}
use magisk.Core.Module.Commit.{commit}
use magisk.Core.Module.Commit.Within.{written, written-OnPath, IsAtOrBelow, OnPath, commit-IsSafe}
use magisk.Core.Module.Apply.{
  Module, secondary_read_only_partitions, extract_roots, roots_of, commit_roots, Device,
  module_tree, commit_partitions,
}

abbrev pub is_one_of : List Bytes → Bytes → Bool
is_one_of [] k = false
is_one_of (name ∷ names) k = same k name || is_one_of names k

extract_roots-rest :
    (is_dir : Bytes → Bool) (names : List Bytes) (m : FsNodeMap) (roots : Map FsNode) (k : Bytes)
    → child k (extract_roots is_dir names m roots).0
      ≡ (if is_one_of names k && is_dir k then none else child k m)
unfolding extract_roots
extract_roots-rest is_dir [] m roots k = refl
extract_roots-rest is_dir (name ∷ names) m roots k = elim (Option-cases (child name m)) [
  | inl e ↦ ground (arith, extract_roots-rest is_dir names m roots k, same→eq k name)
  | inr (root, e) ↦ ground (
    arith,
    extract_roots-rest is_dir names m roots k,
    extract_roots-rest is_dir names (take_out name m) (insert name root roots) k,
    child-take_out name k m,
    same→eq k name,
  )
]

extract_roots-roots :
    (is_dir : Bytes → Bool) (names : List Bytes) (m : FsNodeMap) (roots : Map FsNode) (k : Bytes)
    → get k (extract_roots is_dir names m roots).1
      ≡ (if is_one_of names k && is_dir k then or_else (child k m) (get k roots) else get k roots)
unfolding extract_roots
extract_roots-roots is_dir [] m roots k = refl
extract_roots-roots is_dir (name ∷ names) m roots k = elim (Option-cases (child name m)) [
  | inl e ↦ ground (arith, extract_roots-roots is_dir names m roots k, same→eq k name)
  | inr (root, e) ↦ ground (
    arith,
    extract_roots-roots is_dir names m roots k,
    extract_roots-roots is_dir names (take_out name m) (insert name root roots) k,
    child-take_out name k m,
    get-insert name k root roots,
    same→eq k name,
  )
]

-- The name is that of a partition of its own: `vendor`, `product` or `system_ext`, with a
-- directory of that name in the root directory.
abbrev pub has_root : (Bytes → Bool) → Bytes → Bool
has_root is_dir k =
    (same k (codes "vendor") || (same k (codes "product") || same k (codes "system_ext")))
    && is_dir k

-- The roots are split off exactly so: under `system` stands a directory with the children of the
-- whole tree but those named `vendor`, `product` or `system_ext` for which the root directory has
-- a directory of that name; under such a name stands that child, if there is one; and under any
-- other name nothing.
pub roots_of-whole :
    (is_dir : Bytes → Bool) (m : FsNodeMap)
    → (rest : FsNodeMap) × (get (codes "system") (roots_of is_dir m) ≡ some (directory rest))
      × ((k : Bytes) → child k rest ≡ (if has_root is_dir k then none else child k m))
      × ((k : Bytes)
          → same k (codes "system") ≡ false
          → get k (roots_of is_dir m) ≡ (if has_root is_dir k then child k m else none))
unfolding roots_of
roots_of-whole is_dir m =
    let (rest, roots) = extract_roots is_dir secondary_read_only_partitions m [] in
    (
      rest,
      get-insert_self (codes "system") (directory rest) roots,
      λ k. ground (arith, extract_roots-rest is_dir secondary_read_only_partitions m [] k),
      λ k d.
          rw (get-insert (codes "system") k (directory rest) roots, d)
            (extract_roots-roots is_dir secondary_read_only_partitions m [] k ∙ none_more k),
    )
  where
    none_more :
        (k : Bytes)
        → (if is_one_of secondary_read_only_partitions k && is_dir k
            then or_else (child k m) (get k [])
            else get k [])
          ≡ (if has_root is_dir k then child k m else none)
    none_more k = unfold get in ground (arith, Option-cases (child k m))

abbrev pub IsRoot : Bytes → Type 0
IsRoot k =
    (k ≡ codes "system")
    ⊎ ((k ≡ codes "vendor") ⊎ ((k ≡ codes "product") ⊎ (k ≡ codes "system_ext")))

-- What the call may write to belongs to one of the partitions, or to its place in the worker
-- directory.
abbrev pub OnPartition : Op → Type 0
OnPartition op = (partition : Bytes) × IsRoot partition × All (IsAtOrBelow partition) (written op)

abbrev IsRootEntry : Bytes → FsNode → Type 0
IsRootEntry k v = IsRoot k

extract_roots-IsRoot :
    (is_dir : Bytes → Bool) (names : List Bytes) (m : FsNodeMap) (roots : Map FsNode)
    → All IsRoot names
    → Entries IsRootEntry roots
    → Entries IsRootEntry (extract_roots is_dir names m roots).1
unfolding extract_roots
extract_roots-IsRoot is_dir [] m roots h e = e
extract_roots-IsRoot is_dir (name ∷ names) m roots h e =
    split_off (is_dir name) (child name m) (extract_roots-IsRoot is_dir names m roots h.1 e)
      (λ c r k. extract_roots-IsRoot is_dir names c r h.1 k)
  where
    split_off :
        (there : Bool) (root : Option FsNode)
        → Entries IsRootEntry (extract_roots is_dir names m roots).1
        → ((c : FsNodeMap) (r : Map FsNode)
            → Entries IsRootEntry r
            → Entries IsRootEntry (extract_roots is_dir names c r).1)
        → Entries IsRootEntry
            (if there
              then elim root as (λ x. FsNodeMap × Map FsNode) [
                | none ↦ extract_roots is_dir names m roots
                | some root ↦ extract_roots is_dir names (take_out name m) (insert name root roots)
              ]
              else extract_roots is_dir names m roots).1
    split_off false root same_roots more = same_roots
    split_off true none same_roots more = same_roots
    split_off true (some root) same_roots more =
        more (take_out name m) (insert name root roots)
          (Entries-insert IsRootEntry name root roots h.0 e)

roots_of-IsRoot : (is_dir : Bytes → Bool) (m : FsNodeMap) → Entries IsRootEntry (roots_of is_dir m)
unfolding roots_of
roots_of-IsRoot is_dir m =
    let (rest, roots) = extract_roots is_dir secondary_read_only_partitions m [] in
    Entries-insert IsRootEntry (codes "system") (directory rest) roots (inl refl) (
      extract_roots-IsRoot is_dir secondary_read_only_partitions m []
        (inr (inl refl), (inr (inr (inl refl)), (inr (inr (inr refl)), tt))) tt)

module _ (succeeds : Op → Bool) (parent_dir : Bytes → Option Bytes) where
  -- `commit` of any node writes at its path.
  commit-OnPath :
      (names : List Bytes) (v : FsNode) (r : Option Real) (is_root : Bool)
      → All (OnPath names) (commit succeeds parent_dir names v r is_root).0
  unfolding commit
  commit-OnPath names (directory m) r is_root =
      All_map (commit succeeds parent_dir names (directory m) r is_root).0 (λ op s. s.0)
        (commit-IsSafe succeeds parent_dir names (directory m) r is_root tt)
  commit-OnPath names (file src) r is_root = (([], inr (refl, tt)), (([], inr (refl, tt)), tt))
  commit-OnPath names (symlink target) r is_root = (([], inr (refl, tt)), tt)
  commit-OnPath names magisk_link r is_root = (([], inr (refl, tt)), tt)
  commit-OnPath names whiteout r is_root = (([], inr (refl, tt)), tt)

  commit_roots-OnPartition :
      (root_dir : Reals) (roots : Map FsNode)
      → Entries IsRootEntry roots
      → All OnPartition (commit_roots succeeds parent_dir root_dir roots)
  unfolding commit_roots
  commit_roots-OnPartition root_dir [] h = tt
  commit_roots-OnPartition root_dir ((partition, root) ∷ roots) h =
      let run =
        commit succeeds parent_dir (partition ∷ []) root (real_at partition root_dir) true in
      All-append OnPartition run.0 (commit_roots succeeds parent_dir root_dir roots)
        (All_map run.0 (λ op o. (partition, h.0, written-OnPath partition op o))
          (commit-OnPath (partition ∷ []) root (real_at partition root_dir) true))
        (commit_roots-OnPartition root_dir roots h.1)

-- Whatever the modules hold, every place that a call of `commit_partitions` may write to is one of
-- the partitions `system`, `vendor`, `product` and `system_ext` or below it, or in the worker
-- directory that directory itself, the place of such a partition or below that.
pub commit_partitions-OnPartition :
    (d : Device) (modules : List Module) → All OnPartition (commit_partitions d modules)
unfolding commit_partitions
commit_partitions-OnPartition d modules =
    commit_roots-OnPartition d.succeeds d.parent_dir d.root_dir
      (roots_of d.is_dir (module_tree d modules)) (roots_of-IsRoot d.is_dir (module_tree d modules))
