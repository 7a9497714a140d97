-- ===== src/Core/Module/Worker/LeftOut.antt =====
-- Which names `commit_tmpfs` of native/src/core/module.rs leaves out of the directory that it builds.
use magisk.Prelude.{
  ◌≡◌, refl, ◌⊎◌, inl, inr, Bool, true, false, Option, none, some, List, [], ◌∷◌, arith,
  if◌then◌else◌, Bool-cases, Bytes, All,
}
use magisk.Base.Map.{same, same_refl, same→eq}
use magisk.Base.Map.Entries.{is_some}
use magisk.Core.Module.Tree.{
  FsNode, FsNodeMap, child, take_out, child-take_out, append_path, directory, file, symlink,
  magisk_link, whiteout, empty, node,
}
use magisk.Core.Module.Tree.Order.{IsOrdered, child-AfterName, AfterName-eq}
use magisk.Core.Module.Worker.{
  inside_of, codes, Real, Reals, real_at, Op, Run, then_run, replace_name, attempt, mount_dummy,
  clone_from, worker_dir, mirror, mirror_all, replace_dir, commit_tmpfs, commit_all, replace_all,
  nothing, unread, real_entry, worker, source, mkdirs,
}
use magisk.Core.Module.Worker.Within.{
  All-then_run, mount_dummy-Within, mirror-Within, commit_tmpfs-Within,
}
use magisk.Core.Module.Worker.Names.{Avoids, not_longer, Avoids-run, is_listed, is_shown}
use magisk.Core.Module.Worker.Shown.{is_kept, loops}

-- A step of a loop whose name is another one, or that has nothing to do.
step-Avoids :
    (place : List Bytes) (skip : Bool) (here rest : Run)
    → (skip ≡ false → All (Avoids place) here.0)
    → All (Avoids place) rest.0
    → All (Avoids place) (if skip then rest else then_run here rest).0
step-Avoids place true here rest h k = k
step-Avoids place false here rest h k = All-then_run (Avoids place) here rest (h refl) k

-- What `commit_tmpfs` does for a node is nothing, where the name is not to be seen.
module _ (succeeds : Op → Bool) where
  worker_dir-Avoids :
      (k : Bytes) (names : List Bytes) (exists : Bool)
      → All (Avoids (k ∷ names)) (worker_dir succeeds names exists).0
  unfolding worker_dir
  worker_dir-Avoids k names exists =
      All-then_run (Avoids (k ∷ names)) (attempt succeeds (mkdirs (worker names)))
        (clone_from succeeds names exists) ((λ h. not_longer h.0 names k (cc (h.1))), tt)
        (cloned names exists)
    where
      cloned :
          (names : List Bytes) (exists : Bool)
          → All (Avoids (k ∷ names)) (clone_from succeeds names exists).0
      cloned names true = ((λ h. not_longer h.0 names k (cc (h.1))), tt)
      cloned [] false = tt
      cloned (name ∷ names) false = ((λ h. not_longer h.0 (name ∷ names) k (cc (h.1))), tt)

  mirror_all-Avoids :
      (names : List Bytes) (children : FsNodeMap) (rs : Reals) (k : Bytes)
      → (is_some (child k children) ≡ true) ⊎ (is_listed k rs ≡ false)
      → All (Avoids (k ∷ names)) (mirror_all succeeds names children rs).0
  unfolding mirror_all is_listed
  mirror_all-Avoids names children nothing k h = tt
  mirror_all-Avoids names children (unread rs) k h = tt
  mirror_all-Avoids names children (real_entry name r rs) k h = elim (Bool-cases (same k name)) [
    | inl s ↦
        let there : is_some (child name children) ≡ true = ground (arith, same→eq k name s) in
        rw there (mirror_all-Avoids names children rs k (inl (ground (arith, same→eq k name s))))
    | inr d ↦
        step-Avoids (k ∷ names) (is_some (child name children)) (mirror succeeds (name ∷ names) r)
          (mirror_all succeeds names children rs)
          (λ e.
            Avoids-run name k names (mirror succeeds (name ∷ names) r) d
              (mirror-Within succeeds (name ∷ names) r))
          (mirror_all-Avoids names children rs k (ground arith))
  ]

-- The name is `.replace`, or the modules have nothing or a whiteout there.
abbrev IsHidden : Bytes → FsNodeMap → Type 0
IsHidden k m = (same k replace_name ≡ true) ⊎ (is_shown (child k m) false ≡ false)

IsHidden-rest :
    (k name : Bytes) (v : FsNode) (m : FsNodeMap)
    → IsOrdered (node name v m)
    → IsHidden k (node name v m)
    → IsHidden k m
unfolding child
IsHidden-rest k name v m o (inl h) = inl h
IsHidden-rest k name v m o (inr h) =
    inr (ground (arith, child-AfterName k m, AfterName-eq k name m))

IsHidden-here :
    (k name : Bytes) (v : FsNode) (m : FsNodeMap)
    → IsHidden k (node name v m)
    → same replace_name name ≡ false
    → same k name ≡ true
    → is_shown (some v) false ≡ false
unfolding child
IsHidden-here k name v m (inl h) n s =
    ground (arith, same→eq k name, same→eq k replace_name, same_refl replace_name)
IsHidden-here k name v m (inr h) n s = ground arith

not_mirrored :
    (k : Bytes) (m : FsNodeMap) (on_device : Bool)
    → is_shown (child k (take_out replace_name m)) on_device ≡ false
    → (is_some (child k (take_out replace_name m)) ≡ true) ⊎ (on_device ≡ false)
not_mirrored k m on_device h = elim (Bool-cases (is_some (child k (take_out replace_name m)))) [
  | inl e ↦ inl e
  | inr e ↦ inr (ground arith)
]

hidden :
    (k : Bytes) (m : FsNodeMap) (on_device : Bool)
    → is_shown (child k (take_out replace_name m)) on_device ≡ false
    → IsHidden k m
hidden k m on_device h = elim (Bool-cases (same k replace_name)) [
  | inl e ↦ inl e
  | inr e ↦ inr (ground (arith, child-take_out replace_name k m))
]

module _ (succeeds : Op → Bool) (parent_dir : Bytes → Option Bytes) where
  -- Nothing is completed for a whiteout, and what is completed for another name is completed there.
  node-Avoids :
      (names : List Bytes) (name : Bytes) (v : FsNode) (r : Option Real) (k : Bytes)
      → (same k name ≡ true → is_shown (some v) false ≡ false)
      → All (Avoids (k ∷ names)) (commit_tmpfs succeeds parent_dir (name ∷ names) v r).0
  unfolding commit_tmpfs
  node-Avoids names name v r k h = elim (Bool-cases (same k name)) [
    | inl s ↦ quiet v (h s)
    | inr d ↦
        Avoids-run name k names (commit_tmpfs succeeds parent_dir (name ∷ names) v r) d
          (commit_tmpfs-Within succeeds parent_dir (name ∷ names) v r)
  ]
    where
      quiet :
          (v : FsNode)
          → is_shown (some v) false ≡ false
          → All (Avoids (k ∷ names)) (commit_tmpfs succeeds parent_dir (name ∷ names) v r).0
      quiet (directory m) e = cc
      quiet (file src) e = cc
      quiet (symlink target) e = cc
      quiet magisk_link e = cc
      quiet whiteout e = tt

  commit_all-Avoids :
      (names : List Bytes) (m : FsNodeMap) (rs : Reals) (k : Bytes)
      → IsOrdered m
      → IsHidden k m
      → All (Avoids (k ∷ names)) (commit_all succeeds parent_dir names m rs).0
  unfolding commit_all
  commit_all-Avoids names empty rs k o h = tt
  commit_all-Avoids names (node name v m) rs k o h =
      step-Avoids (k ∷ names) (same replace_name name)
        (commit_tmpfs succeeds parent_dir (name ∷ names) v (real_at name rs))
        (commit_all succeeds parent_dir names m rs)
        (λ n. node-Avoids names name v (real_at name rs) k (IsHidden-here k name v m h n))
        (commit_all-Avoids names m rs k o.1.1 (IsHidden-rest k name v m o h))

  replace_all-Avoids :
      (names : List Bytes) (m : FsNodeMap) (rs : Reals) (src_dir k : Bytes)
      → IsOrdered m
      → IsHidden k m
      → All (Avoids (k ∷ names)) (replace_all succeeds parent_dir names m rs src_dir).0
  unfolding replace_all
  replace_all-Avoids names empty rs src_dir k o h = tt
  replace_all-Avoids names (node name (directory sub) m) rs src_dir k o h =
      let here =
        mount_dummy succeeds (codes "mount") (source (append_path src_dir name))
          (worker (name ∷ names)) true in
      step-Avoids (k ∷ names) (same replace_name name) here
        (replace_all succeeds parent_dir names m rs src_dir)
        (λ n. elim (Bool-cases (same k name)) [
          | inl s ↦ absurd (is_dir (IsHidden-here k name (directory sub) m h n s))
          | inr d ↦ Avoids-run name k names here d (
              mount_dummy-Within succeeds (codes "mount") (source (append_path src_dir name))
                (name ∷ names) true)
        ])
        (replace_all-Avoids names m rs src_dir k o.1.1 (IsHidden-rest k name (directory sub) m o h))
    where
      is_dir : is_shown (some (directory sub)) false ≡ false → ⊥
      is_dir e = cc
  replace_all-Avoids names (node name v m) rs src_dir k o h =
      step-Avoids (k ∷ names) (same replace_name name)
        (commit_tmpfs succeeds parent_dir (name ∷ names) v (real_at name rs))
        (replace_all succeeds parent_dir names m rs src_dir)
        (λ n. node-Avoids names name v (real_at name rs) k (IsHidden-here k name v m h n))
        (replace_all-Avoids names m rs src_dir k o.1.1 (IsHidden-rest k name v m o h))

  loops-Avoids :
      (names : List Bytes) (m : FsNodeMap) (rs : Reals) (k : Bytes) (dir : Option Bytes)
      → IsOrdered m
      → is_shown
          (child k (take_out replace_name m))
          (elim dir as (λ x. Bool) [ none ↦ is_listed k rs | some src_dir ↦ false ])
        ≡ false
      → All (Avoids (k ∷ names)) (loops succeeds parent_dir names m rs dir).0
  loops-Avoids names m rs k none o h =
      All-then_run (Avoids (k ∷ names)) (mirror_all succeeds names (take_out replace_name m) rs)
        (commit_all succeeds parent_dir names m rs)
        (mirror_all-Avoids succeeds names (take_out replace_name m) rs k
          (not_mirrored k m (is_listed k rs) h))
        (commit_all-Avoids names m rs k o (hidden k m (is_listed k rs) h))
  loops-Avoids names m rs k (some src_dir) o h =
      replace_all-Avoids names m rs src_dir k o (hidden k m false h)

  -- For children in order, `commit_tmpfs` of a directory writes nothing at or below a name that
  -- is not to be there: a whiteout, or a name that the modules do not have and that is not read
  -- from the device or belongs to a directory to be replaced.
  pub commit_tmpfs-left_out :
      (names : List Bytes) (m : FsNodeMap) (r : Option Real) (k : Bytes)
      → IsOrdered m
      → is_kept parent_dir k m (inside_of r) ≡ false
      → All (Avoids (k ∷ names)) (commit_tmpfs succeeds parent_dir names (directory m) r).0
  unfolding commit_tmpfs is_kept
  commit_tmpfs-left_out names m r k o h =
      let dir = replace_dir parent_dir (child replace_name m) in
      All-then_run (Avoids (k ∷ names)) (worker_dir succeeds names (is_some r))
        (loops succeeds parent_dir names m (inside_of r) dir)
        (worker_dir-Avoids succeeds k names (is_some r))
        (loops-Avoids names m (inside_of r) k dir o h)
