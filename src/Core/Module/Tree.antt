-- ===== src/Core/Module/Tree.antt =====
-- `FsNode` of native/src/core/module.rs, and its map of children.
pub mod Order
use magisk.Prelude.{
  ℕ, zero, suc, ◌+◌, ◌-◌, ◌*◌, ◌/◌, ◌%◌, ◌^◌, ◌≤◌, ◌<◌, Ordering, compare, bit_and, bit_or, ◌≡◌,
  refl, sym, ap, ap₂, ◌∙◌, fun_ext, ◌≢◌, ◌↔◌, ◌⊎◌, inl, inr, Bool, true, false, not, ◌&&◌, ◌||◌,
  Option, none, some, List, [], ◌∷◌, ◌++◌, map, append-nil, append_assoc, arith, ltb, leb, ◌==◌,
  if◌then◌else◌, ltb→lt, lt→ltb, ltb→le, leb→le, le→leb, ==_iff, tests, Bool-cases, Option-cases,
  Bytes, All, length, take, drop, replicate, is_empty, all_of, length-append, length-replicate,
  take-append-drop, length-take, length-drop, take-append_left, drop-append_left, take_all,
  drop_all, set, set-append,
}
use magisk.Base.Text.{codes, starts_with, ends_with}
use magisk.Base.Order.{
  compare_bytes, Below, compare_bytes_refl, compare_bytes_eq, compare_bytes_gt, Below-flip,
  Below-trans, Ordering-cases,
}
use magisk.Base.Map.{
  Map, After, IsSorted, same, same_refl, same→eq, ne→same, Below→same, Below→same_flip, get, insert,
  remove, keep, retain, extend, get-insert, get-insert_self, get-remove, get-After, get-After_eq,
  After-trans, After-insert, insert-IsSorted, After-retain, retain-IsSorted, After-remove,
  remove-IsSorted, extend-IsSorted, bind, get-retain, or_else, get-extend, map_ext,
}

mutual
  pub data FsNode : Type 0 where
    directory : FsNodeMap → FsNode
    file : (src : Bytes) → FsNode
    symlink : (target : Bytes) → FsNode
    magisk_link : FsNode
    whiteout : FsNode

  -- `BTreeMap<String, FsNode>`, in the order of the names.
  pub data FsNodeMap : Type 0 where
    empty : FsNodeMap
    node : Bytes → FsNode → FsNodeMap → FsNodeMap

-- `children.get(name)`
unfoldable pub child : Bytes → FsNodeMap → Option FsNode
child k empty = none
child k (node j v m) =
    let rest = child k m in elim (compare_bytes k j) [ Ordering.eq ↦ some v | _ ↦ rest ]

-- `children.insert(name, node)`
unfoldable pub put : Bytes → FsNode → FsNodeMap → FsNodeMap
put k v empty = node k v empty
put k v (node j w m) =
    let rest = put k v m in
    elim (compare_bytes k j) [
      | Ordering.lt ↦ node k v (node j w m)
      | Ordering.eq ↦ node k v m
      | Ordering.gt ↦ node j w rest
    ]

-- `children.remove(name)`, what it leaves
unfoldable pub take_out : Bytes → FsNodeMap → FsNodeMap
take_out k empty = empty
take_out k (node j w m) =
    let rest = take_out k m in elim (compare_bytes k j) [ Ordering.eq ↦ rest | _ ↦ node j w rest ]

-- `children.entry(name).or_insert_with(...)`, what it leaves
unfoldable pub or_insert : Bytes → FsNode → FsNodeMap → FsNodeMap
unfolding child put
or_insert k v m = elim (child k m) [ none ↦ put k v m | some w ↦ m ]

-- `children.entry(name).or_insert_with(FsNode::new_dir)`, as the children of a directory there.
abbrev pub sub_dir : Option FsNode → Option FsNodeMap
sub_dir none = some empty
sub_dir (some (directory m)) = some m
sub_dir (some (file s)) = none
sub_dir (some (symlink t)) = none
sub_dir (some magisk_link) = none
sub_dir (some whiteout) = none

pub child-put :
    (k j : Bytes) (v : FsNode) (m : FsNodeMap)
    → child j (put k v m) ≡ (if same j k then some v else child j m)
unfolding child put
child-put k j v empty = ground arith
child-put k j v (node i w m) = ground (
  arith,
  child-put k j v m,
  compare_bytes_eq k i,
  compare_bytes_eq j k,
  compare_bytes_eq j i,
  compare_bytes_refl j,
)

pub child-or_insert :
    (k j : Bytes) (v : FsNode) (m : FsNodeMap)
    → child j (or_insert k v m) ≡ or_else (child j m) (if same j k then some v else none)
unfolding or_insert
child-or_insert k j v m = elim (Option-cases (child k m)) [
  | inl e ↦ ground (arith, child-put k j v m, same→eq j k, same_refl k)
  | inr (w, e) ↦ ground (arith, same→eq j k, same_refl k)
]

pub child-take_out :
    (k j : Bytes) (m : FsNodeMap) → child j (take_out k m) ≡ (if same j k then none else child j m)
unfolding child take_out
child-take_out k j empty = ground arith
child-take_out k j (node i w m) = ground (
  arith,
  child-take_out k j m,
  compare_bytes_eq k i,
  compare_bytes_eq j k,
  compare_bytes_eq j i,
  compare_bytes_refl j,
)

-- `append_path` of native/src/base/files.rs.
unfoldable pub append_path : Bytes → Bytes → Bytes
append_path buf path =
    let start = if starts_with path (codes "/") then [] else buf in
    (if is_empty start || ends_with start (codes "/") then start else start ++ codes "/") ++ path

-- The node at a path.
unfoldable pub visible : List Bytes → FsNodeMap → Option FsNode
unfolding child
visible [] m = none
visible (k ∷ []) m = child k m
visible (k ∷ l ∷ p) m = elim (child k m) [
  | none ↦ none
  | some (directory sub) ↦ visible (l ∷ p) sub
  | some (file s) ↦ none
  | some (symlink t) ↦ none
  | some magisk_link ↦ none
  | some whiteout ↦ none
]
