-- ===== src/Core/Module/Inject/Laws.antt =====
-- Laws of the injection of native/src/core/module.rs.
use magisk.Base.Order.{compare_bytes}
use magisk.Prelude.{
  ℕ, ◌≡◌, refl, ◌≢◌, inl, inr, Bool, true, false, not, ◌&&◌, Option, none, some, List, [], ◌∷◌,
  arith, if◌then◌else◌, Bool-cases, Bytes,
}
use magisk.Base.Text.{codes, split}
use magisk.Base.Map.{same, same_refl}
use magisk.Core.Module.Tree.{
  FsNodeMap, child, put, sub_dir, child-put, append_path, directory, file, magisk_link,
}
use magisk.Core.Module.Tree.Order.{IsOrdered, put-IsOrdered}
use magisk.Core.Module.Collect.{Collected}
use magisk.Core.Module.Collect.Order.{sub_dir-IsOrdered}
use magisk.Core.Module.Inject.{
  normal_components, sort_candidates, candidates, found_dir, otherwise, in_dir, with_dir, inject,
  inject_path, path_loop, inject_magisk_bins, zygisk_lib, inject_zygisk_bins,
}

-- A directory has the programs: `su` and the other applets are links to `magisk`.
abbrev pub HasBins : Bytes → FsNodeMap → Type 0
HasBins tmp m =
    (child (codes "magisk") m ≡ some (file (append_path tmp (codes "magisk"))))
    × (child (codes "magiskpolicy") m ≡ some (file (append_path tmp (codes "magiskpolicy"))))
    × (child (codes "su") m ≡ some magisk_link)
    × (child (codes "resetprop") m ≡ some magisk_link)
    × (child (codes "supolicy") m ≡ some magisk_link)

-- Somewhere in the tree is a directory that has them.
abbrev pub HasBinsAt : Bytes → List Bytes → FsNodeMap → Type 0
HasBinsAt tmp [] m = HasBins tmp m
HasBinsAt tmp (k ∷ p) m =
    (sub : FsNodeMap) × (child k m ≡ some (directory sub)) × HasBinsAt tmp p sub

module _ (tmp : Bytes) where
  inject-HasBins : (m : FsNodeMap) → HasBins tmp (inject tmp m)
  unfolding inject compare_bytes
  inject-HasBins m =
      (simp (child-put), simp (child-put), simp (child-put), simp (child-put), simp (child-put))

  -- Where `inject_path` goes to the end, the programs are at the path.
  inject_path-HasBins :
      (p : List Bytes) (m : FsNodeMap)
      → (inject_path tmp p m).1 ≡ true
      → HasBinsAt tmp p (inject_path tmp p m).0
  unfolding inject_path
  inject_path-HasBins [] m ok = inject-HasBins m
  inject_path-HasBins (k ∷ p) m ok =
      step (sub_dir (child k m)) ok (λ sub e. inject_path-HasBins p sub e)
    where
      step :
          (o : Option FsNodeMap)
          → (found_dir k m (λ sub. inject_path tmp p sub) o).1 ≡ true
          → ((sub : FsNodeMap)
              → (inject_path tmp p sub).1 ≡ true
              → HasBinsAt tmp p (inject_path tmp p sub).0)
          → HasBinsAt tmp (k ∷ p) (found_dir k m (λ sub. inject_path tmp p sub) o).0
      step none e f = cc
      step (some sub) e f = (
        (inject_path tmp p sub).0,
        ground (arith, child-put k k (directory (inject_path tmp p sub).0) m, same_refl k),
        f sub e,
      )

  -- A name that may be a directory may be one afterwards.
  inject_path-dir :
      (b : Bytes) (p : List Bytes) (m : FsNodeMap)
      → sub_dir (child b m) ≢ none
      → (inject_path tmp p m).1 ≡ false
      → sub_dir (child b (inject_path tmp p m).0) ≢ none
  unfolding inject_path
  inject_path-dir b [] m h e = cc
  inject_path-dir b (k ∷ p) m h e = step (sub_dir (child k m))
    where
      step :
          (o : Option FsNodeMap)
          → sub_dir (child b (found_dir k m (λ sub. inject_path tmp p sub) o).0) ≢ none
      step none = h
      step (some sub) =
          rw (child-put k b (directory (inject_path tmp p sub).0) m)
            (elim (Bool-cases (same b k)) [ inl s ↦ rw s (λ x. cc) | inr d ↦ rw d h ])

  -- The programs are injected: where no path of the candidates can take them, in `bin`.
  path_loop-HasBins :
      (cs : List (Bytes × ℕ)) (m : FsNodeMap)
      → sub_dir (child (codes "bin") m) ≢ none
      → (p : List Bytes) × HasBinsAt tmp p (path_loop tmp cs m)
  unfolding path_loop
  path_loop-HasBins [] m h = in_bin (sub_dir (child (codes "bin") m)) h
    where
      in_bin :
          (o : Option FsNodeMap)
          → o ≢ none
          → (p : List Bytes) × HasBinsAt tmp p (in_dir (codes "bin") (inject tmp) m o)
      in_bin none h = absurd (h refl)
      in_bin (some sub) h = (
        codes "bin" ∷ [],
        (
          inject tmp sub,
          ground (
            arith,
            child-put (codes "bin") (codes "bin") (directory (inject tmp sub)) m,
            same_refl (codes "bin"),
          ),
          inject-HasBins sub,
        ),
      )
  path_loop-HasBins ((item, count) ∷ cs) m h =
      tried (inject_path tmp (normal_components item) m)
        (inject_path-HasBins (normal_components item) m)
        (λ e.
          path_loop-HasBins cs (inject_path tmp (normal_components item) m).0
            (inject_path-dir (codes "bin") (normal_components item) m h e))
    where
      tried :
          (r : Collected)
          → (r.1 ≡ true → HasBinsAt tmp (normal_components item) r.0)
          → (r.1 ≡ false → (p : List Bytes) × HasBinsAt tmp p (path_loop tmp cs r.0))
          → (p : List Bytes) × HasBinsAt tmp p (otherwise r (λ s. path_loop tmp cs s))
      tried (s, true) f g = (normal_components item, f refl)
      tried (s, false) f g = g refl

  inject-IsOrdered : (m : FsNodeMap) → IsOrdered m → IsOrdered (inject tmp m)
  unfolding inject
  inject-IsOrdered m o = put-IsOrdered _ _ _ tt (
      put-IsOrdered _ _ _ tt
        (put-IsOrdered _ _ _ tt (put-IsOrdered _ _ _ tt (put-IsOrdered _ _ m tt o))))

  inject_path-IsOrdered :
      (p : List Bytes) (m : FsNodeMap) → IsOrdered m → IsOrdered (inject_path tmp p m).0
  unfolding inject_path
  inject_path-IsOrdered [] m o = inject-IsOrdered m o
  inject_path-IsOrdered (k ∷ p) m o =
      step (sub_dir (child k m)) (λ sub e. sub_dir-IsOrdered k m sub o e)
        (λ sub h. inject_path-IsOrdered p sub h)
    where
      step :
          (c : Option FsNodeMap)
          → ((sub : FsNodeMap) → c ≡ some sub → IsOrdered sub)
          → ((sub : FsNodeMap) → IsOrdered sub → IsOrdered (inject_path tmp p sub).0)
          → IsOrdered (found_dir k m (λ sub. inject_path tmp p sub) c).0
      step none h f = o
      step (some sub) h f =
          put-IsOrdered k (directory (inject_path tmp p sub).0) m (f sub (h sub refl)) o

-- A change of a directory that keeps the order keeps that of the tree.
with_dir-IsOrdered :
    (k : Bytes) (f : FsNodeMap → FsNodeMap) (m : FsNodeMap)
    → ((sub : FsNodeMap) → IsOrdered sub → IsOrdered (f sub))
    → IsOrdered m
    → IsOrdered (with_dir k f m)
with_dir-IsOrdered k f m h o = step (sub_dir (child k m)) (λ sub e. sub_dir-IsOrdered k m sub o e)
  where
    step :
        (c : Option FsNodeMap)
        → ((sub : FsNodeMap) → c ≡ some sub → IsOrdered sub)
        → IsOrdered (in_dir k f m c)
    step none g = o
    step (some sub) g = put-IsOrdered k (directory (f sub)) m (h sub (g sub refl)) o

module _ (tmp : Bytes) where
  path_loop-IsOrdered :
      (cs : List (Bytes × ℕ)) (m : FsNodeMap) → IsOrdered m → IsOrdered (path_loop tmp cs m)
  unfolding path_loop
  path_loop-IsOrdered [] m o =
      with_dir-IsOrdered (codes "bin") (inject tmp) m (inject-IsOrdered tmp) o
  path_loop-IsOrdered ((item, count) ∷ cs) m o =
      tried (inject_path tmp (normal_components item) m)
        (inject_path-IsOrdered tmp (normal_components item) m o) (λ s h. path_loop-IsOrdered cs s h)
    where
      tried :
          (r : Collected)
          → IsOrdered r.0
          → ((s : FsNodeMap) → IsOrdered s → IsOrdered (path_loop tmp cs s))
          → IsOrdered (otherwise r (λ s. path_loop tmp cs s))
      tried (s, true) h f = h
      tried (s, false) h f = f s h

module _ (exists : Bytes → Bool) (tmp : Bytes) where
  pub inject_zygisk_bins-IsOrdered :
      (is_64 : Bool) (name : Bytes) (m : FsNodeMap)
      → IsOrdered m
      → IsOrdered (inject_zygisk_bins exists tmp is_64 name m)
  unfolding inject_zygisk_bins
  inject_zygisk_bins-IsOrdered is_64 name m o =
      either (is_64 && exists (codes "/system/bin/linker64")) _ lib
        (with_dir-IsOrdered (codes "lib64")
          (λ c. put name (file (append_path tmp (codes "magisk"))) c) lib
          (λ sub h. put-IsOrdered name (file (append_path tmp (codes "magisk"))) sub tt h)
          lib-ordered)
        lib-ordered
    where
      either :
          (b : Bool) (x y : FsNodeMap) → IsOrdered x → IsOrdered y → IsOrdered (if b then x else y)
      either true x y h k = h
      either false x y h k = k

      bin_path : Bytes
      bin_path = append_path tmp (if is_64 then codes "magisk32" else codes "magisk")

      lib : FsNodeMap
      lib = zygisk_lib exists tmp is_64 name m

      lib-ordered : IsOrdered lib
      lib-ordered = either (is_64 && not (exists (codes "/system/bin/linker"))) m _ o (
          with_dir-IsOrdered (codes "lib")
            (λ c. if exists bin_path then put name (file bin_path) c else c) m
            (λ sub h.
              either (exists bin_path) _ sub (put-IsOrdered name (file bin_path) sub tt h) h)
            o)

module _ (exists : Bytes → Bool) (mode count_files : Bytes → Option ℕ) (tmp : Bytes) where
  pub inject_magisk_bins-IsOrdered :
      (path_env : Bytes) (is_emulator : Bool) (m : FsNodeMap)
      → IsOrdered m
      → IsOrdered (inject_magisk_bins exists mode count_files tmp path_env is_emulator m)
  unfolding inject_magisk_bins
  inject_magisk_bins-IsOrdered path_env is_emulator m o =
      path_loop-IsOrdered tmp
        (sort_candidates (candidates exists mode count_files is_emulator (split 58 path_env))) m o

  -- If the tree has no file, link or whiteout as `bin`, then after `inject_magisk_bins` some
  -- directory of it has `magisk` and `magiskpolicy` as files of Magisk's directory and `su`,
  -- `resetprop` and `supolicy` as links, whatever the paths of the environment are and wherever
  -- files of modules are in the way.
  pub inject_magisk_bins-HasBins :
      (path_env : Bytes) (is_emulator : Bool) (m : FsNodeMap)
      → sub_dir (child (codes "bin") m) ≢ none
      → (p : List Bytes) × HasBinsAt tmp p
          (inject_magisk_bins exists mode count_files tmp path_env is_emulator m)
  unfolding inject_magisk_bins
  inject_magisk_bins-HasBins path_env is_emulator m h =
      path_loop-HasBins tmp
        (sort_candidates (candidates exists mode count_files is_emulator (split 58 path_env))) m h
