-- ===== src/Core/Module/Tree/Order.antt =====
-- The trees of native/src/core/module.rs are in order: each map of children has its names in order,
-- each once.
use magisk.Prelude.{Ordering, ◌≡◌, refl, inl, inr, none, some, arith, Option-cases, Bytes}
use mathlib.Core.Path.{subst}
use magisk.Base.Order.{
  compare_bytes, Below, compare_bytes_eq, compare_bytes_gt, Below-trans, Ordering-cases,
}
use magisk.Core.Module.Tree.{
  FsNode, FsNodeMap, child, put, take_out, or_insert, directory, file, symlink, magisk_link,
  whiteout, empty, node,
}

abbrev pub AfterName : Bytes → FsNodeMap → Type 0
AfterName k empty = Unit
AfterName k (node j v m) = Below k j × AfterName k m

abbrev mutual
  pub IsOrdered : FsNodeMap → Type 0
  IsOrdered empty = Unit
  IsOrdered (node k v m) = AfterName k m × (IsOrderedNode v × IsOrdered m)

  pub IsOrderedNode : FsNode → Type 0
  IsOrderedNode (directory m) = IsOrdered m
  IsOrderedNode (file src) = Unit
  IsOrderedNode (symlink target) = Unit
  IsOrderedNode magisk_link = Unit
  IsOrderedNode whiteout = Unit

-- A name before all others is not in the map.
pub child-AfterName : (k : Bytes) (m : FsNodeMap) → AfterName k m → child k m ≡ none
unfolding child
child-AfterName k empty h = refl
child-AfterName k (node j v m) h = ground (arith, child-AfterName k m)

pub AfterName-put :
    (j k : Bytes) (v : FsNode) (m : FsNodeMap) → Below j k → AfterName j m → AfterName j (put k v m)
unfolding put
AfterName-put j k v empty b h = (b, tt)
AfterName-put j k v (node i w m) b h = ground (arith, AfterName-put j k v m b h.1)

AfterName-trans : (j k : Bytes) (m : FsNodeMap) → Below j k → AfterName k m → AfterName j m
AfterName-trans j k empty b h = tt
AfterName-trans j k (node i w m) b h = (Below-trans j k i b h.0, AfterName-trans j k m b h.1)

pub AfterName-eq :
    (j k : Bytes) (m : FsNodeMap) → compare_bytes j k ≡ Ordering.eq → AfterName k m → AfterName j m
AfterName-eq j k m e h = rw (compare_bytes_eq j k e) h

pub put-IsOrdered :
    (k : Bytes) (v : FsNode) (m : FsNodeMap) → IsOrderedNode v → IsOrdered m → IsOrdered (put k v m)
unfolding put
put-IsOrdered k v empty o h = (tt, (o, tt))
put-IsOrdered k v (node j w m) o h = ground (
  arith,
  put-IsOrdered k v m o h.1.1,
  AfterName-trans k j m,
  AfterName-put j k v m,
  AfterName-eq k j m,
  compare_bytes_gt k j,
)

pub or_insert-IsOrdered :
    (k : Bytes) (v : FsNode) (m : FsNodeMap)
    → IsOrderedNode v
    → IsOrdered m
    → IsOrdered (or_insert k v m)
unfolding or_insert
or_insert-IsOrdered k v m o h = ground (arith, put-IsOrdered k v m o h, Option-cases (child k m))

pub AfterName-take_out : (j k : Bytes) (m : FsNodeMap) → AfterName j m → AfterName j (take_out k m)
unfolding take_out
AfterName-take_out j k empty h = tt
AfterName-take_out j k (node i w m) h = ground (arith, AfterName-take_out j k m h.1)

pub take_out-IsOrdered : (k : Bytes) (m : FsNodeMap) → IsOrdered m → IsOrdered (take_out k m)
unfolding take_out
take_out-IsOrdered k empty h = tt
take_out-IsOrdered k (node i w m) h =
    ground (arith, take_out-IsOrdered k m h.1.1, AfterName-take_out i k m h.0)

-- What is found_dir in a map in order is in order.
pub child-IsOrdered :
    (k : Bytes) (m : FsNodeMap) (v : FsNode) → IsOrdered m → child k m ≡ some v → IsOrderedNode v
unfolding child
child-IsOrdered k empty v h e = cc
child-IsOrdered k (node i w m) v h e = elim (Ordering-cases (compare_bytes k i)) [
  | inl b ↦ child-IsOrdered k m v h.1.1 (ground arith)
  | inr (inl b) ↦ let same_node : w ≡ v = ground arith in subst IsOrderedNode same_node h.1.0
  | inr (inr b) ↦ child-IsOrdered k m v h.1.1 (ground arith)
]
