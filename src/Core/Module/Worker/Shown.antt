-- ===== src/Core/Module/Worker/Shown.antt =====
-- Which names a directory has that `commit_tmpfs` of native/src/core/module.rs builds: those of the
-- modules but for the whiteouts, and those of the device that the modules do not have.
use magisk.Prelude.{
  ◌≡◌, refl, sym, inl, inr, Bool, true, false, Option, none, some, List, ◌∷◌, arith, Bool-cases,
  Bytes,
}
use mathlib.Core.Path.{subst}
use magisk.Base.Map.{same, same_refl, same→eq}
use magisk.Base.Map.Entries.{is_some}
use magisk.Core.Module.Tree.{
  FsNode, FsNodeMap, child, take_out, child-take_out, append_path, directory, file, symlink,
  magisk_link, whiteout, empty, node,
}
use magisk.Core.Module.Worker.{
  codes, inside_of, Real, Reals, real_at, Op, Run, then_run, replace_name, mount_dummy, worker_dir,
  worker_magisk, mirror_all, replace_dir, commit_tmpfs, commit_all, replace_all, worker, source,
}
use magisk.Core.Module.Worker.Names.{
  Any, Makes, first_part, second_part, first_ok, second_ok, is_listed, is_shown, worker_dir-Makes,
  mount_dummy-Makes, worker_link-Makes, step-Makes, mirror_all-Makes,
}

not_replace :
    (k name : Bytes)
    → same k name ≡ true
    → same k replace_name ≡ false
    → same replace_name name ≡ false
not_replace k name s n =
    ground (arith, same→eq k name, same→eq replace_name name, same_refl replace_name)

module _ (succeeds : Op → Bool) (parent_dir : Bytes → Option Bytes) where
  commit_tmpfs-Makes :
      (names : List Bytes) (v : FsNode) (r : Option Real)
      → is_shown (some v) false ≡ true
      → Any (Makes names) (commit_tmpfs succeeds parent_dir names v r).0
  unfolding commit_tmpfs worker_magisk
  commit_tmpfs-Makes names (directory m) r h =
      first_part (Makes names) (worker_dir succeeds names (is_some r))
        (elim (replace_dir parent_dir (child replace_name m)) [
          | none ↦
              then_run (mirror_all succeeds names (take_out replace_name m) (inside_of r))
                (commit_all succeeds parent_dir names m (inside_of r))
          | some src_dir ↦ replace_all succeeds parent_dir names m (inside_of r) src_dir
        ])
        (worker_dir-Makes succeeds names (is_some r))
  commit_tmpfs-Makes names (file src) r h =
      mount_dummy-Makes succeeds (codes "mount") (source src) names false
  commit_tmpfs-Makes names (symlink target) r h =
      worker_link-Makes succeeds names target (is_some r)
  commit_tmpfs-Makes names magisk_link r h = inl refl
  commit_tmpfs-Makes names whiteout r h = cc

  commit_all-Makes :
      (names : List Bytes) (m : FsNodeMap) (rs : Reals) (k : Bytes)
      → (commit_all succeeds parent_dir names m rs).1 ≡ true
      → same k replace_name ≡ false
      → is_shown (child k m) false ≡ true
      → Any (Makes (k ∷ names)) (commit_all succeeds parent_dir names m rs).0
  unfolding commit_all child
  commit_all-Makes names empty rs k ok n h = cc
  commit_all-Makes names (node name v m) rs k ok n h = elim (Bool-cases (same k name)) [
    | inl s ↦ rw (not_replace k name s n) (
        first_part (Makes (k ∷ names))
          (commit_tmpfs succeeds parent_dir (name ∷ names) v (real_at name rs))
          (commit_all succeeds parent_dir names m rs)
          (subst
            (λ j.
              Any (Makes (j ∷ names))
                (commit_tmpfs succeeds parent_dir (name ∷ names) v (real_at name rs)).0)
            (sym (same→eq k name s))
            (commit_tmpfs-Makes (name ∷ names) v (real_at name rs) (ground arith))))
    | inr d ↦
        step-Makes succeeds (Makes (k ∷ names)) (same replace_name name)
          (commit_tmpfs succeeds parent_dir (name ∷ names) v (real_at name rs))
          (commit_all succeeds parent_dir names m rs) ok
          (λ e. commit_all-Makes names m rs k e n (ground arith))
  ]

  replace_all-Makes :
      (names : List Bytes) (m : FsNodeMap) (rs : Reals) (src_dir k : Bytes)
      → (replace_all succeeds parent_dir names m rs src_dir).1 ≡ true
      → same k replace_name ≡ false
      → is_shown (child k m) false ≡ true
      → Any (Makes (k ∷ names)) (replace_all succeeds parent_dir names m rs src_dir).0
  unfolding replace_all child
  replace_all-Makes names empty rs src_dir k ok n h = cc
  replace_all-Makes names (node name (directory sub) m) rs src_dir k ok n h =
      let here =
        mount_dummy succeeds (codes "mount") (source (append_path src_dir name))
          (worker (name ∷ names)) true in
      let rest = replace_all succeeds parent_dir names m rs src_dir in
      elim (Bool-cases (same k name)) [
        | inl s ↦ rw (not_replace k name s n) (
            first_part (Makes (k ∷ names)) here rest (
              subst (λ j. Any (Makes (j ∷ names)) here.0) (sym (same→eq k name s))
                (mount_dummy-Makes succeeds (codes "mount") (source (append_path src_dir name))
                  (name ∷ names) true)))
        | inr d ↦
            step-Makes succeeds (Makes (k ∷ names)) (same replace_name name) here rest ok
              (λ e. replace_all-Makes names m rs src_dir k e n (ground arith))
      ]
  replace_all-Makes names (node name v m) rs src_dir k ok n h =
      let here = commit_tmpfs succeeds parent_dir (name ∷ names) v (real_at name rs) in
      let rest = replace_all succeeds parent_dir names m rs src_dir in
      elim (Bool-cases (same k name)) [
        | inl s ↦ rw (not_replace k name s n) (
            first_part (Makes (k ∷ names)) here rest (
              subst (λ j. Any (Makes (j ∷ names)) here.0) (sym (same→eq k name s))
                (commit_tmpfs-Makes (name ∷ names) v (real_at name rs) (ground arith))))
        | inr d ↦
            step-Makes succeeds (Makes (k ∷ names)) (same replace_name name) here rest ok
              (λ e. replace_all-Makes names m rs src_dir k e n (ground arith))
      ]

-- Whether a name is in the directory that is built: with `.replace`, only what the modules have.
unfoldable pub is_kept : (parent_dir : Bytes → Option Bytes) → Bytes → FsNodeMap → Reals → Bool
unfolding child take_out is_listed
is_kept parent_dir k m rs =
    is_shown (child k (take_out replace_name m))
      (elim (replace_dir parent_dir (child replace_name m)) [
        | none ↦ is_listed k rs
        | some src_dir ↦ false
      ])

module _ (succeeds : Op → Bool) (parent_dir : Bytes → Option Bytes) where
  -- What follows when the directory itself has been made.
  abbrev pub loops : List Bytes → FsNodeMap → Reals → Option Bytes → Run
  loops names m rs none =
      then_run (mirror_all succeeds names (take_out replace_name m) rs)
        (commit_all succeeds parent_dir names m rs)
  loops names m rs (some src_dir) = replace_all succeeds parent_dir names m rs src_dir

  -- What the modules have under a name other than `.replace`.
  taken :
      (k : Bytes) (m : FsNodeMap)
      → is_shown (child k (take_out replace_name m)) false ≡ true
      → (same k replace_name ≡ false) × (is_shown (child k m) false ≡ true)
  taken k m h = ground (arith, child-take_out replace_name k m)

  loops-Makes :
      (names : List Bytes) (m : FsNodeMap) (rs : Reals) (k : Bytes) (dir : Option Bytes)
      → (loops names m rs dir).1 ≡ true
      → is_shown
          (child k (take_out replace_name m))
          (elim dir as (λ x. Bool) [ none ↦ is_listed k rs | some src_dir ↦ false ])
        ≡ true
      → Any (Makes (k ∷ names)) (loops names m rs dir).0
  loops-Makes names m rs k none ok h =
      let mirrored = mirror_all succeeds names (take_out replace_name m) rs in
      let committed = commit_all succeeds parent_dir names m rs in
      elim (Bool-cases (is_some (child k (take_out replace_name m)))) [
        | inl there ↦
            let (n, s) = taken k m (ground arith) in
            second_part (Makes (k ∷ names)) mirrored committed ok (
              commit_all-Makes succeeds parent_dir names m rs k (second_ok mirrored committed ok) n
                s)
        | inr away ↦ first_part (Makes (k ∷ names)) mirrored committed (
            mirror_all-Makes succeeds names (take_out replace_name m) rs k
              (first_ok mirrored committed ok) away (ground arith))
      ]
  loops-Makes names m rs k (some src_dir) ok h =
      let (n, s) = taken k m h in replace_all-Makes succeeds parent_dir names m rs src_dir k ok n s

  -- If `commit_tmpfs` of a directory ends without an error, every name that is to be in the
  -- directory has been made there: those of the modules but for `.replace` and the whiteouts,
  -- and, unless the directory is to be replaced, those read from the device that the modules do
  -- not have.
  pub commit_tmpfs-made :
      (names : List Bytes) (m : FsNodeMap) (r : Option Real) (k : Bytes)
      → (commit_tmpfs succeeds parent_dir names (directory m) r).1 ≡ true
      → is_kept parent_dir k m (inside_of r) ≡ true
      → Any (Makes (k ∷ names)) (commit_tmpfs succeeds parent_dir names (directory m) r).0
  unfolding commit_tmpfs is_kept
  commit_tmpfs-made names m r k ok h =
      let dir = replace_dir parent_dir (child replace_name m) in
      second_part (Makes (k ∷ names)) (worker_dir succeeds names (is_some r))
        (loops names m (inside_of r) dir) ok
        (loops-Makes names m (inside_of r) k dir
          (second_ok (worker_dir succeeds names (is_some r)) (loops names m (inside_of r) dir) ok)
          h)
