-- ===== src/Core/Module/Worker/Within.antt =====
-- Where the calls of `commit_tmpfs` of native/src/core/module.rs write.
use magisk.Prelude.{
  ◌≡◌, refl, sym, ap, ◌∙◌, Bool, true, false, Option, none, some, List, [], ◌∷◌, ◌++◌, append_assoc,
  if◌then◌else◌, Bytes, All,
}
use magisk.Base.Map.{same}
use magisk.Base.Map.Entries.{is_some}
use magisk.Core.Module.Tree.{
  FsNode, FsNodeMap, child, take_out, append_path, directory, file, symlink, magisk_link, whiteout,
  empty, node,
}
use magisk.Core.Module.Worker.{
  clone_from, completed, codes, inside_of, make_dir, Real, Reals, real_at, Place, Op, Run, then_run,
  replace_name, bind_mount, attempt, mount_dummy, worker_dir, worker_link, worker_magisk, mirror,
  mirror_all, replace_dir, commit_tmpfs, commit_all, replace_all, real_directory, real_link,
  real_other, nothing, unread, real_entry, real, worker, source, mkdirs, clone, create, mount,
  remount, link_to, unhandled,
}

-- The path that a call is for. What it writes may be more: `mkdirs` makes the directories above too.
abbrev pub dest : Op → Place
dest (mkdirs p) = p
dest (clone src p) = p
dest (make_dir p) = p
dest (create p) = p
dest (mount reason src p rec) = p
dest (remount p) = p
dest (link_to target p) = p
dest (unhandled p) = p

-- The call writes to the worker directory, to the path with these names or below it.
abbrev pub InWorker : List Bytes → Op → Type 0
InWorker names op = (below : List Bytes) × (dest op ≡ worker (below ++ names))

abbrev pub Within : List Bytes → Run → Type 0
Within names run = All (InWorker names) run.0

module _ (P : Op → Type 0) where
  pub All-append : (a b : List Op) → All P a → All P b → All P (a ++ b)
  All-append [] b h k = k
  All-append (x ∷ a) b h k = (h.0, All-append a b h.1 k)

  pub All-then_run : (a b : Run) → All P a.0 → All P b.0 → All P (then_run a b).0
  All-then_run (ops, true) (more, ok) h k = All-append ops more h k
  All-then_run (ops, false) b h k = h

pub All_map :
    {P Q : Op → Type 0} (ops : List Op) → ((op : Op) → P op → Q op) → All P ops → All Q ops
All_map [] f h = tt
All_map (op ∷ ops) f h = (f op h.0, All_map ops f h.1)

InWorker-up :
    (name : Bytes) (names : List Bytes) (op : Op) → InWorker (name ∷ names) op → InWorker names op
InWorker-up name names op (below, e) =
    (below ++ (name ∷ []), e ∙ ap worker (sym (append_assoc below (name ∷ []) names)))

pub Within-up :
    (name : Bytes) (names : List Bytes) (run : Run) → Within (name ∷ names) run → Within names run
Within-up name names run h = All_map run.0 (InWorker-up name names) h

module _ (succeeds : Op → Bool) where
  pub mount_dummy-Within :
      (reason : Bytes) (src : Place) (names : List Bytes) (is_dir : Bool)
      → Within names (mount_dummy succeeds reason src (worker names) is_dir)
  unfolding mount_dummy
  mount_dummy-Within reason src names is_dir =
      All-then_run (InWorker names)
        (if is_dir
          then attempt succeeds (make_dir (worker names))
          else attempt succeeds (create (worker names)))
        (bind_mount reason src (worker names) false) (first is_dir) (([], refl), (([], refl), tt))
    where
      first :
          (is_dir : Bool)
          → Within names (
              if is_dir
              then attempt succeeds (make_dir (worker names))
              else attempt succeeds (create (worker names)))
      first true = (([], refl), tt)
      first false = (([], refl), tt)

  pub worker_dir-Within :
      (names : List Bytes) (exists : Bool) → Within names (worker_dir succeeds names exists)
  unfolding worker_dir
  worker_dir-Within names exists =
      All-then_run (InWorker names) (attempt succeeds (mkdirs (worker names)))
        (clone_from succeeds names exists) (([], refl), tt) (cloned names exists)
    where
      cloned :
          (names : List Bytes) (exists : Bool) → Within names (clone_from succeeds names exists)
      cloned names true = (([], refl), tt)
      cloned [] false = tt
      cloned (name ∷ names) false = (([], refl), tt)

  pub worker_link-Within :
      (names : List Bytes) (target : Bytes) (exists : Bool)
      → Within names (worker_link succeeds names target exists)
  unfolding worker_link
  worker_link-Within names target exists =
      All-then_run (InWorker names) (attempt succeeds (link_to target (worker names)))
        (if exists then attempt succeeds (clone (real names) (worker names)) else completed)
        (([], refl), tt) (cloned exists)
    where
      cloned :
          (exists : Bool)
          → Within names
              (if exists then attempt succeeds (clone (real names) (worker names)) else completed)
      cloned true = (([], refl), tt)
      cloned false = tt

  pub worker_magisk-Within : (names : List Bytes) → Within names (worker_magisk succeeds names)
  unfolding worker_magisk
  worker_magisk-Within names = (([], refl), tt)

  -- A loop over the names of a directory: what it does at one name, and the rest, where it takes part.
  pub Within-step :
      (name : Bytes) (names : List Bytes) (skip : Bool) (here rest : Run)
      → Within (name ∷ names) here
      → Within names rest
      → Within names (if skip then rest else then_run here rest)
  Within-step name names true here rest h k = k
  Within-step name names false here rest h k =
      All-then_run (InWorker names) here rest (Within-up name names here h) k

  mutual
    unfolding mirror mirror_all

    pub mirror-Within : (names : List Bytes) (r : Real) → Within names (mirror succeeds names r)
    mirror-Within names (real_directory rs) =
        All-then_run (InWorker names) _ _ (worker_dir-Within names true)
          (mirror_all-Within names empty rs)
    mirror-Within names (real_link target rs) = worker_link-Within names target true
    mirror-Within names real_other = mount_dummy-Within (codes "mirror") (real names) names false

    pub mirror_all-Within :
        (names : List Bytes) (children : FsNodeMap) (rs : Reals)
        → Within names (mirror_all succeeds names children rs)
    mirror_all-Within names children nothing = tt
    mirror_all-Within names children (unread rs) = tt
    mirror_all-Within names children (real_entry name r rs) =
        Within-step name names (is_some (child name children)) _ _ (mirror-Within (name ∷ names) r)
          (mirror_all-Within names children rs)

module _ (succeeds : Op → Bool) (parent_dir : Bytes → Option Bytes) where
  mutual
    unfolding commit_tmpfs commit_all replace_all

    -- Nothing is written outside the directory of the worker that is built.
    pub commit_tmpfs-Within :
        (names : List Bytes) (v : FsNode) (r : Option Real)
        → Within names (commit_tmpfs succeeds parent_dir names v r)
    commit_tmpfs-Within names (directory children) r =
        All-then_run (InWorker names) _ _ (worker_dir-Within succeeds names (is_some r)) (
          at_dir (replace_dir parent_dir (child replace_name children))
            (mirror_all-Within succeeds names (take_out replace_name children) (inside_of r))
            (commit_all-Within names children (inside_of r))
            (λ src_dir. replace_all-Within names children (inside_of r) src_dir))
      where
        at_dir :
            (o : Option Bytes)
            → Within names
                (mirror_all succeeds names (take_out replace_name children) (inside_of r))
            → Within names (commit_all succeeds parent_dir names children (inside_of r))
            → ((src_dir : Bytes)
                → Within names
                    (replace_all succeeds parent_dir names children (inside_of r) src_dir))
            → Within names (elim o [
              | none ↦
                  then_run
                    (mirror_all succeeds names (take_out replace_name children) (inside_of r))
                    (commit_all succeeds parent_dir names children (inside_of r))
              | some src_dir ↦ replace_all succeeds parent_dir names children (inside_of r) src_dir
            ])
        at_dir none m c f = All-then_run (InWorker names) _ _ m c
        at_dir (some src_dir) m c f = f src_dir
    commit_tmpfs-Within names (file src) r =
        mount_dummy-Within succeeds (codes "mount") (source src) names false
    commit_tmpfs-Within names (symlink target) r =
        worker_link-Within succeeds names target (is_some r)
    commit_tmpfs-Within names magisk_link r = worker_magisk-Within succeeds names
    commit_tmpfs-Within names whiteout r = tt

    commit_all-Within :
        (names : List Bytes) (children : FsNodeMap) (rs : Reals)
        → Within names (commit_all succeeds parent_dir names children rs)
    commit_all-Within names empty rs = tt
    commit_all-Within names (node name v children) rs =
        Within-step succeeds name names (same replace_name name) _ _
          (commit_tmpfs-Within (name ∷ names) v (real_at name rs))
          (commit_all-Within names children rs)

    replace_all-Within :
        (names : List Bytes) (children : FsNodeMap) (rs : Reals) (src_dir : Bytes)
        → Within names (replace_all succeeds parent_dir names children rs src_dir)
    replace_all-Within names empty rs src_dir = tt
    replace_all-Within names (node name (directory m) children) rs src_dir =
        Within-step succeeds name names (same replace_name name) _ _
          (mount_dummy-Within succeeds (codes "mount") (source (append_path src_dir name))
            (name ∷ names) true)
          (replace_all-Within names children rs src_dir)
    replace_all-Within names (node name v children) rs src_dir =
        Within-step succeeds name names (same replace_name name)
          (commit_tmpfs succeeds parent_dir (name ∷ names) v (real_at name rs))
          (replace_all succeeds parent_dir names children rs src_dir)
          (commit_tmpfs-Within (name ∷ names) v (real_at name rs))
          (replace_all-Within names children rs src_dir)
