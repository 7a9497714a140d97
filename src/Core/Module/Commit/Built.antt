-- ===== src/Core/Module/Commit/Built.antt =====
-- Every file of the modules is mounted in what `commit_tmpfs` of native/src/core/module.rs builds.
use magisk.Prelude.{
  ◌++◌, ◌≡◌, sym, ap, ◌∙◌, ◌⊎◌, inl, inr, Bool, true, false, Option, none, some, List, [], ◌∷◌,
  arith, Bool-cases, Option-cases, Bytes,
}
use mathlib.Core.Path.{subst, subst₂}
use magisk.Base.Text.{codes}
use magisk.Base.Map.{same, same→eq}
use magisk.Base.Map.Entries.{is_some}
use magisk.Core.Module.Tree.{
  FsNode, FsNodeMap, child, take_out, directory, file, symlink, magisk_link, whiteout, empty, node,
}
use magisk.Core.Module.Collect.Laws.{under, visible_lem}
use magisk.Core.Module.Worker.{
  Real, Reals, real_at, Place, Op, Run, then_run, replace_name, bind_mount, attempt, mount_dummy,
  worker_dir, mirror_all, replace_dir, commit_tmpfs, commit_all, real, worker, source, create,
  mount,
}
use magisk.Core.Module.Worker.Names.{Any, first_part, second_part, first_ok, second_ok}
use magisk.Core.Module.Worker.Shown.{loops}
use magisk.Core.Module.Commit.{inside_of}

-- The names of a path below another; the last name comes first in the result.
abbrev pub place_of : List Bytes → List Bytes → List Bytes
place_of [] names = names
place_of (k ∷ p) names = place_of p (k ∷ names)

-- No directory on the path is one that is replaced.
abbrev pub IsPlainUnder : List Bytes → FsNode → Type 0
IsPlainUnder [] v = Unit
IsPlainUnder (l ∷ p) (directory m) =
    (child replace_name m ≡ none) × ((v : FsNode) → child l m ≡ some v → IsPlainUnder p v)
IsPlainUnder (l ∷ p) (file src) = Unit
IsPlainUnder (l ∷ p) (symlink target) = Unit
IsPlainUnder (l ∷ p) magisk_link = Unit
IsPlainUnder (l ∷ p) whiteout = Unit

abbrev pub MountsAt : Bytes → Place → Op → Type 0
MountsAt src place op = op ≡ mount (codes "mount") (source src) place false

abbrev pub Moves : List Bytes → Op → Type 0
Moves names op = op ≡ mount (codes "move") (worker names) (real names) true

-- A call with the first property, and later one with the second.
abbrev pub Then : (Op → Type 0) → (Op → Type 0) → List Op → Type 0
Then P Q [] = ⊥
Then P Q (op ∷ ops) = (P op × Any Q ops) ⊎ Then P Q ops

-- The file is mounted at the path; or it is mounted in the worker directory at the path, and later a
-- directory above takes the place of the real one.
abbrev pub Reaches : Bytes → List Bytes → List Op → Type 0
Reaches src place ops =
    Any (MountsAt src (real place)) ops
    ⊎ ((above rest : List Bytes) × (place ≡ place_of rest above)
        × Then (MountsAt src (worker place)) (Moves above) ops)

module _ (P Q : Op → Type 0) where
  Then-in_order : (a b : List Op) → Any P a → Any Q b → Then P Q (a ++ b)
  Then-in_order (op ∷ a) b (inl h) k = inl (h, any_later a b k)
    where
      any_later : (a b : List Op) → Any Q b → Any Q (a ++ b)
      any_later [] b k = k
      any_later (op ∷ a) b k = inr (any_later a b k)
  Then-in_order (op ∷ a) b (inr h) k = inr (Then-in_order a b h k)
  Then-in_order [] b h k = absurd h

  Any-front : (a b : List Op) → Any Q a → Any Q (a ++ b)
  Any-front (op ∷ a) b (inl h) = inl h
  Any-front (op ∷ a) b (inr h) = inr (Any-front a b h)
  Any-front [] b h = absurd h

  Then-front : (a b : List Op) → Then P Q a → Then P Q (a ++ b)
  Then-front (op ∷ a) b (inl (h, k)) = inl (h, Any-front a b k)
  Then-front (op ∷ a) b (inr h) = inr (Then-front a b h)
  Then-front [] b h = absurd h

  Then-back : (a b : List Op) → Then P Q b → Then P Q (a ++ b)
  Then-back [] b h = h
  Then-back (op ∷ a) b h = inr (Then-back a b h)

  Then-first : (a b : Run) → Then P Q a.0 → Then P Q (then_run a b).0
  Then-first (ops, true) (more, ok) h = Then-front ops more h
  Then-first (ops, false) b h = h

  Then-second : (a b : Run) → (then_run a b).1 ≡ true → Then P Q b.0 → Then P Q (then_run a b).0
  Then-second (ops, true) (more, ok) e h = Then-back ops more h
  Then-second (ops, false) b e h = cc

  -- The first in a run that ends well, the second in the one that follows.
  pub Then-across :
      (a b : Run) → (then_run a b).1 ≡ true → Any P a.0 → Any Q b.0 → Then P Q (then_run a b).0
  Then-across (ops, true) (more, ok) e h k = Then-in_order ops more h k
  Then-across (ops, false) b e h k = cc

module _ (src : Bytes) (place : List Bytes) where
  pub Reaches-first : (a b : Run) → Reaches src place a.0 → Reaches src place (then_run a b).0
  Reaches-first a b (inl h) = inl (first_part (MountsAt src (real place)) a b h)
  Reaches-first a b (inr (above, rest, e, m)) =
      inr (above, rest, e, Then-first (MountsAt src (worker place)) (Moves above) a b m)

  pub Reaches-second :
      (a b : Run)
      → (then_run a b).1 ≡ true
      → Reaches src place b.0
      → Reaches src place (then_run a b).0
  Reaches-second a b ok (inl h) = inl (second_part (MountsAt src (real place)) a b ok h)
  Reaches-second a b ok (inr (above, rest, e, m)) =
      inr (above, rest, e, Then-second (MountsAt src (worker place)) (Moves above) a b ok m)

-- A path that leads to something in a directory has a child for its first name.
pub below_child :
    (l : Bytes) (p : List Bytes) (m : FsNodeMap) (n : FsNode)
    → under (some (directory m)) (l ∷ p) ≡ some n
    → (v : FsNode) × (child l m ≡ some v) × (under (some v) p ≡ some n)
below_child l p m n h = elim (Option-cases (child l m)) [
  | inl e ↦ absurd (missing e)
  | inr (v, e) ↦ (v, e, ap (λ o. under o p) (sym e) ∙ (sym (visible_lem l p m) ∙ h))
]
  where
    missing : child l m ≡ none → ⊥
    missing e = ground (arith, visible_lem l p m)

module _ (succeeds : Op → Bool) (parent_dir : Bytes → Option Bytes) where
  -- What the loop does for one child is part of what it does.
  commit_all-part :
      (P : Op → Type 0) (names : List Bytes) (m : FsNodeMap) (rs : Reals) (k : Bytes) (v : FsNode)
      → (commit_all succeeds parent_dir names m rs).1 ≡ true
      → child replace_name m ≡ none
      → child k m ≡ some v
      → ((commit_tmpfs succeeds parent_dir (k ∷ names) v (real_at k rs)).1 ≡ true
          → Any P (commit_tmpfs succeeds parent_dir (k ∷ names) v (real_at k rs)).0)
      → Any P (commit_all succeeds parent_dir names m rs).0
  unfolding commit_all child
  commit_all-part P names empty rs k v ok n c h = cc
  commit_all-part P names (node name w m) rs k v ok n c h =
      let here = commit_tmpfs succeeds parent_dir (name ∷ names) w (real_at name rs) in
      let rest = commit_all succeeds parent_dir names m rs in
      let other : same replace_name name ≡ false = ground arith in
      let ok2 : (then_run here rest).1 ≡ true = ground (arith, ok, other) in
      elim (Bool-cases (same k name)) [
        | inl s ↦
            let same_node : v ≡ w = ground arith in
            rw other (
              first_part P here rest (
                subst₂
                  (λ j u.
                    (commit_tmpfs succeeds parent_dir (j ∷ names) u (real_at j rs)).1 ≡ true
                    → Any P (commit_tmpfs succeeds parent_dir (j ∷ names) u (real_at j rs)).0)
                  (same→eq k name s) same_node h (first_ok here rest ok2)))
        | inr d ↦ rw other (
            second_part P here rest ok2 (
              commit_all-part P names m rs k v (second_ok here rest ok2) (ground arith)
                (ground arith) h))
      ]

  pub commit_tmpfs-mounts :
      (src : Bytes) (p names : List Bytes) (v : FsNode) (r : Option Real)
      → (commit_tmpfs succeeds parent_dir names v r).1 ≡ true
      → IsPlainUnder p v
      → under (some v) p ≡ some (file src)
      → Any
          (MountsAt src (worker (place_of p names)))
          (commit_tmpfs succeeds parent_dir names v r).0
  unfolding commit_tmpfs mount_dummy
  commit_tmpfs-mounts src [] names (file s) r ok plain h =
      let src_eq : s ≡ src = ground arith in
      second_part (MountsAt src (worker names)) (attempt succeeds (create (worker names)))
        (bind_mount (codes "mount") (source s) (worker names) false) ok
        (inl (ap (λ x. mount (codes "mount") (source x) (worker names) false) src_eq))
  commit_tmpfs-mounts src [] names (directory m) r ok plain h = cc
  commit_tmpfs-mounts src [] names (symlink target) r ok plain h = cc
  commit_tmpfs-mounts src [] names magisk_link r ok plain h = cc
  commit_tmpfs-mounts src [] names whiteout r ok plain h = cc
  commit_tmpfs-mounts src (l ∷ p) names (directory m) r ok plain h =
      let (v, c, u) = below_child l p m (file src) h in
      let first = worker_dir succeeds names (is_some r) in
      let mirrored = mirror_all succeeds names (take_out replace_name m) (inside_of r) in
      let committed = commit_all succeeds parent_dir names m (inside_of r) in
      let no_dir : replace_dir parent_dir (child replace_name m) ≡ none =
        ap (replace_dir parent_dir) plain.0 in
      let ok2 : (then_run first (then_run mirrored committed)).1 ≡ true =
        subst (λ o. (then_run first (loops succeeds parent_dir names m (inside_of r) o)).1 ≡ true)
          no_dir ok in
      rw no_dir (
        second_part (MountsAt src (worker (place_of p (l ∷ names)))) first
          (then_run mirrored committed) ok2
          (second_part (MountsAt src (worker (place_of p (l ∷ names)))) mirrored committed
            (second_ok first (then_run mirrored committed) ok2)
            (commit_all-part (MountsAt src (worker (place_of p (l ∷ names)))) names m (inside_of r)
              l v (second_ok mirrored committed (second_ok first (then_run mirrored committed) ok2))
              plain.0 c
              (λ e.
                commit_tmpfs-mounts src p (l ∷ names) v (real_at l (inside_of r)) e (plain.1 v c)
                  u))))
  commit_tmpfs-mounts src (l ∷ p) names (file s) r ok plain h = cc
  commit_tmpfs-mounts src (l ∷ p) names (symlink target) r ok plain h = cc
  commit_tmpfs-mounts src (l ∷ p) names magisk_link r ok plain h = cc
  commit_tmpfs-mounts src (l ∷ p) names whiteout r ok plain h = cc
