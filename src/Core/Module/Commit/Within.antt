-- ===== src/Core/Module/Commit/Within.antt =====
-- Where `commit` of native/src/core/module.rs writes.
use magisk.Prelude.{
  sym, ◌∙◌, map, ◌≡◌, refl, ap, ◌≢◌, ◌⊎◌, inl, inr, Bool, true, false, not, ◌&&◌, ◌||◌, Option,
  List, [], ◌∷◌, ◌++◌, append_assoc, arith, if◌then◌else◌, Bytes, All,
}
use magisk.Base.Text.{codes}
use magisk.Base.Map.{same}
use magisk.Core.Module.Tree.{
  FsNode, FsNodeMap, directory, file, symlink, magisk_link, whiteout, empty, node,
}
use magisk.Core.Module.Worker.{
  remount, make_dir, Real, Reals, real_at, Place, Op, Run, then_run, replace_name, bind_mount,
  commit_tmpfs, real, worker, source, unhandled,
}
use magisk.Core.Module.Worker.Within.{dest, InWorker, All-then_run, All_map, commit_tmpfs-Within}
use magisk.Core.Module.Commit.{
  link_to, remount, mount, create, clone, mkdirs, inside_of, parent_should_be_tmpfs, is_retained,
  retained, needs_tmpfs, commit, commit_children,
}

-- The call makes nothing but what stands at its path.
abbrev pub MakesOne : Op → Type 0
MakesOne (mkdirs p) = ⊥
MakesOne _ = Unit

-- The call is for the path with these names or one below it, in the worker directory or, where it
-- makes nothing above its path, on the device.
abbrev pub OnPath : List Bytes → Op → Type 0
OnPath names op =
    (below : List Bytes) × ((dest op ≡ worker (below ++ names))
      ⊎ ((dest op ≡ real (below ++ names)) × MakesOne op))

-- The path and those above it.
abbrev pub suffixes : List Bytes → List (List Bytes)
suffixes [] = [] ∷ []
suffixes (name ∷ names) = (name ∷ names) ∷ suffixes names

-- The places that a call may write to. `mkdirs` makes the directories above its path too.
abbrev pub written : Op → List Place
written (mkdirs (worker names)) = map worker (suffixes names)
written (mkdirs (real names)) = map real (suffixes names)
written (mkdirs (source src)) = source src ∷ []
written op = dest op ∷ []

-- The place is in the worker directory, and there it is the root or at or below the path.
abbrev pub IsBuilt : List Bytes → Place → Type 0
IsBuilt names p = (p ≡ worker []) ⊎ ((below : List Bytes) × (p ≡ worker (below ++ names)))

-- The place is below the path on the device, or is where it is built in the worker directory.
abbrev pub IsBelow : Bytes → Place → Type 0
IsBelow partition p =
    IsBuilt (partition ∷ []) p
    ⊎ ((below : List Bytes) × (name : Bytes) × (p ≡ real (below ++ (name ∷ partition ∷ []))))

-- The place is the path on the device or one below, or is where it is built.
abbrev pub IsAtOrBelow : Bytes → Place → Type 0
IsAtOrBelow partition p =
    IsBuilt (partition ∷ []) p ⊎ ((below : List Bytes) × (p ≡ real (below ++ (partition ∷ []))))

abbrev pub IsHandled : Op → Type 0
IsHandled op = (names : List Bytes) → op ≢ unhandled (real names)

-- What is retained stays in a parent that is no tmpfs only if it can be mounted there.
abbrev pub IsMountable : FsNode → Type 0
IsMountable (directory m) = Unit
IsMountable (file src) = Unit
IsMountable (symlink target) = ⊥
IsMountable magisk_link = ⊥
IsMountable whiteout = ⊥

abbrev pub IsSafe : List Bytes → Op → Type 0
IsSafe names op = OnPath names op × IsHandled op

InWorker-IsSafe : (names : List Bytes) (op : Op) → InWorker names op → IsSafe names op
InWorker-IsSafe names op (below, e) = ((below, inl e), λ ns u. ground (arith, ap dest u, e))

IsSafe-up :
    (name : Bytes) (names : List Bytes) (op : Op) → IsSafe (name ∷ names) op → IsSafe names op
IsSafe-up name names op ((below, e), h) =
    ((below ++ (name ∷ []), rw (append_assoc below (name ∷ []) names) e), h)

IsMountable-retained :
    (name : Bytes) (v : FsNode) (r : Option Real) (is_root : Bool)
    → is_retained is_root name v r ≡ true
    → ((same name replace_name || parent_should_be_tmpfs v r) && not is_root) ≡ false
    → IsMountable v
unfolding is_retained parent_should_be_tmpfs
IsMountable-retained name (directory m) r is_root h k = tt
IsMountable-retained name (file src) r is_root h k = tt
IsMountable-retained name (symlink target) r is_root h k = ground arith
IsMountable-retained name magisk_link r is_root h k = ground arith
IsMountable-retained name whiteout r is_root h k = ground arith

-- The call writes below the path, not to the path itself.
abbrev pub IsSafeBelow : List Bytes → Op → Type 0
IsSafeBelow names op = (name : Bytes) × IsSafe (name ∷ names) op

pub needs_tmpfs_root : (m : FsNodeMap) (rs : Reals) → needs_tmpfs true m rs ≡ false
unfolding needs_tmpfs
needs_tmpfs_root empty rs = refl
needs_tmpfs_root (node name v m) rs = ground (arith, needs_tmpfs_root m rs)

bind_mount-IsSafe :
    (reason : Bytes) (src : Place) (names : List Bytes) (rec : Bool)
    → All (IsSafe names) (bind_mount reason src (real names) rec).0
bind_mount-IsSafe reason src names rec =
    ((([], inr (refl, tt)), (λ ns e. cc)), ((([], inr (refl, tt)), (λ ns e. cc)), tt))

suffixes-IsBuilt :
    (partition : Bytes) (below : List Bytes)
    → All (IsBuilt (partition ∷ [])) (map worker (suffixes (below ++ (partition ∷ []))))
suffixes-IsBuilt partition [] = (inr ([], refl), (inl refl, tt))
suffixes-IsBuilt partition (x ∷ below) = (inr (x ∷ below, refl), suffixes-IsBuilt partition below)

module _ (P : Place → Type 0) (partition : Bytes) where
  All_built :
      (ps : List Place)
      → ((p : Place) → IsBuilt (partition ∷ []) p → P p)
      → All (IsBuilt (partition ∷ [])) ps
      → All P ps
  All_built [] f h = tt
  All_built (p ∷ ps) f h = (f p h.0, All_built ps f h.1)

  written-worker :
      (op : Op) (below : List Bytes)
      → ((p : Place) → IsBuilt (partition ∷ []) p → P p)
      → dest op ≡ worker (below ++ (partition ∷ []))
      → All P (written op)
  written-worker (mkdirs (worker names)) below f e =
      let names_eq : names ≡ below ++ (partition ∷ []) = cc in
      rw names_eq (
        All_built (map worker (suffixes (below ++ (partition ∷ [])))) f
          (suffixes-IsBuilt partition below))
  written-worker (mkdirs (real names)) below f e = cc
  written-worker (mkdirs (source src)) below f e = cc
  written-worker (clone src p) below f e = (f p (inr (below, e)), tt)
  written-worker (make_dir p) below f e = (f p (inr (below, e)), tt)
  written-worker (create p) below f e = (f p (inr (below, e)), tt)
  written-worker (mount reason src p rec) below f e = (f p (inr (below, e)), tt)
  written-worker (remount p) below f e = (f p (inr (below, e)), tt)
  written-worker (link_to target p) below f e = (f p (inr (below, e)), tt)
  written-worker (unhandled p) below f e = (f p (inr (below, e)), tt)

  written-one : (op : Op) → MakesOne op → P (dest op) → All P (written op)
  written-one (mkdirs p) m h = absurd m
  written-one (clone src p) m h = (h, tt)
  written-one (make_dir p) m h = (h, tt)
  written-one (create p) m h = (h, tt)
  written-one (mount reason src p rec) m h = (h, tt)
  written-one (remount p) m h = (h, tt)
  written-one (link_to target p) m h = (h, tt)
  written-one (unhandled p) m h = (h, tt)

pub written-OnPath :
    (partition : Bytes) (op : Op)
    → OnPath (partition ∷ []) op
    → All (IsAtOrBelow partition) (written op)
written-OnPath partition op (below, inl e) =
    written-worker (IsAtOrBelow partition) partition op below (λ p h. inl h) e
written-OnPath partition op (below, inr (e, m)) =
    written-one (IsAtOrBelow partition) partition op m (inr (below, e))

written-IsSafeBelow :
    (partition : Bytes) (op : Op)
    → IsSafeBelow (partition ∷ []) op
    → All (IsBelow partition) (written op)
written-IsSafeBelow partition op (name, ((below, inl e), h)) =
    written-worker (IsBelow partition) partition op (below ++ (name ∷ [])) (λ p h. inl h)
      (e ∙ ap worker (sym (append_assoc below (name ∷ []) (partition ∷ []))))
written-IsSafeBelow partition op (name, ((below, inr (e, m)), h)) =
    written-one (IsBelow partition) partition op m (inr (below, name, e))

step-IsSafe :
    (name : Bytes) (names : List Bytes) (retains : Bool) (here rest : Run)
    → (retains ≡ true → All (IsSafe (name ∷ names)) here.0)
    → All (IsSafeBelow names) rest.0
    → All (IsSafeBelow names) (if retains then then_run here rest else rest).0
step-IsSafe name names true here rest h k =
    All-then_run (IsSafeBelow names) here rest (All_map here.0 (λ op s. (name, s)) (h refl)) k
step-IsSafe name names false here rest h k = k

module _ (succeeds : Op → Bool) (parent_dir : Bytes → Option Bytes) where
  mutual
    unfolding commit commit_children needs_tmpfs

    pub commit-IsSafe :
        (names : List Bytes) (v : FsNode) (r : Option Real) (is_root : Bool)
        → IsMountable v
        → All (IsSafe names) (commit succeeds parent_dir names v r is_root).0
    commit-IsSafe names (directory m) r is_root h =
        either (needs_tmpfs is_root m (inside_of r))
          (λ n. commit_children-IsSafe names m (inside_of r) is_root n)
      where
        built : Run
        built =
            commit_tmpfs succeeds parent_dir names (directory (retained is_root m (inside_of r))) r

        either :
            (needed : Bool)
            → (needed ≡ false
                → All
                    (IsSafeBelow names)
                    (commit_children succeeds parent_dir names m (inside_of r) is_root).0)
            → All
                (IsSafe names)
                (if needed
                  then then_run built (bind_mount (codes "move") (worker names) (real names) true)
                  else commit_children succeeds parent_dir names m (inside_of r) is_root).0
        either true f =
            All-then_run (IsSafe names) built
              (bind_mount (codes "move") (worker names) (real names) true)
              (All_map built.0 (InWorker-IsSafe names) (
                commit_tmpfs-Within succeeds parent_dir names
                  (directory (retained is_root m (inside_of r))) r))
              (bind_mount-IsSafe (codes "move") (worker names) names true)
        either false f =
            All_map (commit_children succeeds parent_dir names m (inside_of r) is_root).0
              (λ op s. IsSafe-up s.0 names op s.1) (f refl)
    commit-IsSafe names (file src) r is_root h =
        bind_mount-IsSafe (codes "mount") (source src) names false
    commit-IsSafe names (symlink target) r is_root h = absurd h
    commit-IsSafe names magisk_link r is_root h = absurd h
    commit-IsSafe names whiteout r is_root h = absurd h

    commit_children-IsSafe :
        (names : List Bytes) (m : FsNodeMap) (rs : Reals) (is_root : Bool)
        → needs_tmpfs is_root m rs ≡ false
        → All (IsSafeBelow names) (commit_children succeeds parent_dir names m rs is_root).0
    commit_children-IsSafe names empty rs is_root n = tt
    commit_children-IsSafe names (node name v m) rs is_root n =
        step-IsSafe name names (is_retained is_root name v (real_at name rs))
          (commit succeeds parent_dir (name ∷ names) v (real_at name rs) false)
          (commit_children succeeds parent_dir names m rs is_root)
          (λ e.
            commit-IsSafe (name ∷ names) v (real_at name rs) false
              (IsMountable-retained name v (real_at name rs) is_root e (ground arith)))
          (commit_children-IsSafe names m rs is_root (ground arith))

  commit_root-IsSafeBelow :
      (partition : Bytes) (m : FsNodeMap) (r : Option Real)
      → All
          (IsSafeBelow (partition ∷ []))
          (commit succeeds parent_dir (partition ∷ []) (directory m) r true).0
  unfolding commit
  commit_root-IsSafeBelow partition m r = rw (needs_tmpfs_root m (inside_of r)) (
      commit_children-IsSafe (partition ∷ []) m (inside_of r) true
        (needs_tmpfs_root m (inside_of r)))

  -- Every place that a call of `commit` for the tree of a partition may write to, if that tree is a
  -- directory, is below the partition on the device and not the partition itself, so that no
  -- partition is replaced as a whole; or it is the worker directory, the partition's place there
  -- or below that. And `commit` meets no node that it cannot handle.
  pub commit_root-IsSafe :
      (partition : Bytes) (m : FsNodeMap) (r : Option Real)
      → All
          (λ op. All (IsBelow partition) (written op) × IsHandled op)
          (commit succeeds parent_dir (partition ∷ []) (directory m) r true).0
  commit_root-IsSafe partition m r =
      All_map (commit succeeds parent_dir (partition ∷ []) (directory m) r true).0
        (λ op s. (written-IsSafeBelow partition op s, s.1.1))
        (commit_root-IsSafeBelow partition m r)
