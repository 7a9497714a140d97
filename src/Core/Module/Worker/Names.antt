-- ===== src/Core/Module/Worker/Names.antt =====
-- Which names a directory has that `commit_tmpfs` of native/src/core/module.rs builds.
use magisk.Prelude.{
  ◌≡◌, refl, sym, ap, ◌⊎◌, inl, inr, Bool, true, false, ◌||◌, Option, none, some, List, [], ◌∷◌,
  ◌++◌, arith, if◌then◌else◌, Bool-cases, Bytes, All, length, length-append,
}
use magisk.Base.Map.{same, same_refl, same→eq}
use magisk.Base.Map.Entries.{is_some}
use magisk.Core.Module.Tree.{
  FsNode, FsNodeMap, child, directory, file, symlink, magisk_link, whiteout, empty,
}
use magisk.Core.Module.Worker.{
  codes, completed, make_dir, Real, Reals, Place, Op, Run, then_run, bind_mount, attempt,
  mount_dummy, clone_from, worker_dir, worker_link, mirror, mirror_all, real_directory, real_link,
  real_other, nothing, unread, real_entry, real, worker, mkdirs, clone, create, mount, remount,
  link_to, unhandled,
}
use magisk.Core.Module.Worker.Within.{InWorker, Within, All_map}

abbrev pub Any : (Op → Type 0) → List Op → Type 0
Any P [] = ⊥
Any P (x ∷ xs) = P x ⊎ Any P xs

-- The call makes something with this path in the worker directory.
abbrev pub Makes : List Bytes → Op → Type 0
Makes names (mkdirs p) = p ≡ worker names
Makes names (clone src p) = ⊥
Makes names (make_dir p) = p ≡ worker names
Makes names (create p) = p ≡ worker names
Makes names (mount reason src p rec) = ⊥
Makes names (remount p) = ⊥
Makes names (link_to target p) = p ≡ worker names
Makes names (unhandled p) = ⊥

-- The call writes nothing at the path in the worker directory, nor below it.
abbrev pub Avoids : List Bytes → Op → Type 0
Avoids names op = InWorker names op → ⊥

pub not_longer : (b ns : List Bytes) (k : Bytes) → ns ≡ b ++ (k ∷ ns) → ⊥
not_longer b ns k e = ground (arith, ap length e, length-append b (k ∷ ns))

same_name :
    (b c : List Bytes) (j k : Bytes) (ns : List Bytes) → b ++ (j ∷ ns) ≡ c ++ (k ∷ ns) → j ≡ k
same_name [] [] j k ns e = cc
same_name [] (x ∷ c) j k ns e = absurd (not_longer c ns k (cc))
same_name (x ∷ b) [] j k ns e = absurd (not_longer b ns j (cc))
same_name (x ∷ b) (y ∷ c) j k ns e = same_name b c j k ns (cc)

pub siblings :
    (j k : Bytes) (names : List Bytes) (op : Op)
    → same k j ≡ false
    → InWorker (j ∷ names) op
    → Avoids (k ∷ names) op
siblings j k names op d (b, e) (c, f) =
    let eq : j ≡ k = same_name b c j k names (cc) in ground (arith, same_refl k)

pub Avoids-run :
    (j k : Bytes) (names : List Bytes) (run : Run)
    → same k j ≡ false
    → Within (j ∷ names) run
    → All (Avoids (k ∷ names)) run.0
Avoids-run j k names run d h = All_map run.0 (λ op. siblings j k names op d) h

Any-left : (P : Op → Type 0) (a b : List Op) → Any P a → Any P (a ++ b)
Any-left P [] b h = absurd h
Any-left P (x ∷ a) b (inl h) = inl h
Any-left P (x ∷ a) b (inr h) = inr (Any-left P a b h)

Any-right : (P : Op → Type 0) (a b : List Op) → Any P b → Any P (a ++ b)
Any-right P [] b h = h
Any-right P (x ∷ a) b h = inr (Any-right P a b h)

module _ (P : Op → Type 0) where
  -- Both parts of a run that ends well take part.
  pub first_part : (a b : Run) → Any P a.0 → Any P (then_run a b).0
  first_part (ops, true) (more, ok) h = Any-left P ops more h
  first_part (ops, false) b h = h

  pub second_part : (a b : Run) → (then_run a b).1 ≡ true → Any P b.0 → Any P (then_run a b).0
  second_part (ops, true) (more, ok) e h = Any-right P ops more h
  second_part (ops, false) b e h = cc

pub first_ok : (a b : Run) → (then_run a b).1 ≡ true → a.1 ≡ true
first_ok (ops, true) b e = refl
first_ok (ops, false) b e = cc

pub second_ok : (a b : Run) → (then_run a b).1 ≡ true → b.1 ≡ true
second_ok (ops, true) (more, ok) e = e
second_ok (ops, false) b e = cc

-- What the reading of a directory gives.
unfoldable pub is_listed : Bytes → Reals → Bool
is_listed k nothing = false
is_listed k (unread rs) = false
is_listed k (real_entry name r rs) = same k name || is_listed k rs

-- A name that the modules do not have is that of the device; a whiteout takes it away.
abbrev pub is_shown : Option FsNode → Bool → Bool
is_shown none on_device = on_device
is_shown (some (directory m)) on_device = true
is_shown (some (file src)) on_device = true
is_shown (some (symlink target)) on_device = true
is_shown (some magisk_link) on_device = true
is_shown (some whiteout) on_device = false

module _ (succeeds : Op → Bool) where
  pub worker_dir-Makes :
      (names : List Bytes) (exists : Bool) → Any (Makes names) (worker_dir succeeds names exists).0
  unfolding worker_dir
  worker_dir-Makes names exists =
      first_part (Makes names) (attempt succeeds (mkdirs (worker names)))
        (clone_from succeeds names exists) (inl refl)

  pub mount_dummy-Makes :
      (reason : Bytes) (src : Place) (names : List Bytes) (is_dir : Bool)
      → Any (Makes names) (mount_dummy succeeds reason src (worker names) is_dir).0
  unfolding mount_dummy
  mount_dummy-Makes reason src names true =
      first_part (Makes names) (attempt succeeds (make_dir (worker names)))
        (bind_mount reason src (worker names) false) (inl refl)
  mount_dummy-Makes reason src names false =
      first_part (Makes names) (attempt succeeds (create (worker names)))
        (bind_mount reason src (worker names) false) (inl refl)

  pub worker_link-Makes :
      (names : List Bytes) (target : Bytes) (exists : Bool)
      → Any (Makes names) (worker_link succeeds names target exists).0
  unfolding worker_link
  worker_link-Makes names target exists =
      first_part (Makes names) (attempt succeeds (link_to target (worker names)))
        (if exists then attempt succeeds (clone (real names) (worker names)) else completed)
        (inl refl)

  mirror-Makes : (names : List Bytes) (r : Real) → Any (Makes names) (mirror succeeds names r).0
  unfolding mirror
  mirror-Makes names (real_directory rs) =
      first_part (Makes names) (worker_dir succeeds names true) (mirror_all succeeds names empty rs)
        (worker_dir-Makes names true)
  mirror-Makes names (real_link target rs) = worker_link-Makes names target true
  mirror-Makes names real_other = mount_dummy-Makes (codes "mirror") (real names) names false

  pub step-Makes :
      (P : Op → Type 0) (skip : Bool) (here rest : Run)
      → (if skip then rest else then_run here rest).1 ≡ true
      → (rest.1 ≡ true → Any P rest.0)
      → Any P (if skip then rest else then_run here rest).0
  step-Makes P true here rest e h = h e
  step-Makes P false here rest e h = second_part P here rest e (h (second_ok here rest e))

  pub mirror_all-Makes :
      (names : List Bytes) (children : FsNodeMap) (rs : Reals) (k : Bytes)
      → (mirror_all succeeds names children rs).1 ≡ true
      → is_some (child k children) ≡ false
      → is_listed k rs ≡ true
      → Any (Makes (k ∷ names)) (mirror_all succeeds names children rs).0
  unfolding mirror_all is_listed
  mirror_all-Makes names children nothing k ok c h = cc
  mirror_all-Makes names children (unread rs) k ok c h = cc
  mirror_all-Makes names children (real_entry name r rs) k ok c h =
      elim (Bool-cases (same k name)) [
        | inl s ↦
            rw (sym (same→eq k name s), c)
              (first_part (Makes (k ∷ names)) (mirror succeeds (k ∷ names) r)
                (mirror_all succeeds names children rs) (mirror-Makes (k ∷ names) r))
        | inr d ↦
            step-Makes (Makes (k ∷ names)) (is_some (child name children))
              (mirror succeeds (name ∷ names) r) (mirror_all succeeds names children rs) ok
              (λ e. mirror_all-Makes names children rs k e c (ground arith))
      ]
