-- ===== src/Core/Module/Inject.antt =====
-- `inject_magisk_bins` and `inject_zygisk_bins` of native/src/core/module.rs: the tree gets the
-- programs of Magisk itself.
pub mod Laws
use magisk.Prelude.{
  ℕ, zero, suc, ◌+◌, ◌-◌, ◌*◌, ◌/◌, ◌%◌, ◌^◌, ◌≤◌, ◌<◌, Ordering, compare, bit_and, bit_or, ◌≡◌,
  refl, sym, ap, ap₂, ◌∙◌, fun_ext, ◌≢◌, ◌↔◌, ◌⊎◌, inl, inr, Bool, true, false, not, ◌&&◌, ◌||◌,
  Option, none, some, List, [], ◌∷◌, ◌++◌, map, append-nil, append_assoc, arith, ltb, leb, ◌==◌,
  if◌then◌else◌, ltb→lt, lt→ltb, ltb→le, leb→le, le→leb, ==_iff, tests, Bool-cases, Option-cases,
  Bytes, All, length, take, drop, replicate, is_empty, all_of, length-append, length-replicate,
  take-append-drop, length-take, length-drop, take-append_left, drop-append_left, take_all,
  drop_all, set, set-append,
}
use magisk.Base.Text.{
  codes, equal, starts_with, strip_prefix, ends_with, find, push_head, split, non_empty, join,
  Lacks, IsPart, equal_refl, equal→eq, starts_with-append, starts_with_split, strip_prefix-append,
  ends_with-append, split_part, split_last, parts-IsPart, parts-join, find_front,
}
use magisk.Base.Map.{
  Map, After, IsSorted, same, same_refl, same→eq, ne→same, Below→same, Below→same_flip, get, insert,
  remove, keep, retain, extend, get-insert, get-insert_self, get-remove, get-After, get-After_eq,
  After-trans, After-insert, insert-IsSorted, After-retain, retain-IsSorted, After-remove,
  remove-IsSorted, extend-IsSorted, bind, get-retain, or_else, get-extend, map_ext,
}
use magisk.Core.Module.Tree.{
  FsNode, FsNodeMap, child, put, take_out, or_insert, sub_dir, child-put, child-or_insert,
  child-take_out, append_path, visible, directory, file, symlink, magisk_link, whiteout, empty,
  node,
}
use magisk.Core.Module.Collect.{Collected, stored_dir}

abbrev pub magisk_bin_inject_partitions : List Bytes
magisk_bin_inject_partitions =
    codes "/system/" ∷ codes "/vendor/" ∷ codes "/product/" ∷ codes "/system_ext/" ∷ []

abbrev any_prefix : Bytes → List Bytes → Bool
any_prefix item [] = false
any_prefix item (p ∷ ps) = starts_with item p || any_prefix item ps

unfoldable pub strip_system_prefix : Bytes → Bytes
strip_system_prefix orig_item = elim (strip_prefix orig_item (codes "/system/")) [
  | some rest ↦ codes "/" ++ rest
  | none ↦ orig_item
]

-- `Path::new(item).components()`, the normal ones.
unfoldable pub normal_components : Bytes → List Bytes
normal_components item = normal (non_empty (split 47 item))
  where
    normal : List Bytes → List Bytes
    normal [] = []
    normal (c ∷ cs) =
        let rest = normal cs in
        if equal c (codes ".") || equal c (codes "..") then rest else c ∷ rest

-- `candidates.sort_by_key(|&(_, count)| count)`, which is stable.
unfoldable pub insert_candidate : Bytes × ℕ → List (Bytes × ℕ) → List (Bytes × ℕ)
insert_candidate x [] = x ∷ []
insert_candidate x (y ∷ ys) =
    let rest = insert_candidate x ys in if leb x.1 y.1 then x ∷ y ∷ ys else y ∷ rest

unfoldable pub sort_candidates : List (Bytes × ℕ) → List (Bytes × ℕ)
sort_candidates [] = []
sort_candidates (x ∷ xs) = insert_candidate x (sort_candidates xs)

-- `exists` is that of a path; `mode` is the mode of a file, where it has one; `count_files` is the
-- number of files below a directory, where it can be opened and walked to the end.
module _ (exists : Bytes → Bool) (mode count_files : Bytes → Option ℕ) where
  unfoldable pub file_count : Bytes → Option ℕ
  file_count item = elim (mode item) [
    | none ↦ none
    | some m ↦ if bit_and m 1 == 0 then none else count_files item
  ]

  -- The first loop, over the paths of the environment.
  unfoldable pub candidates : Bool → List Bytes → List (Bytes × ℕ)
  candidates is_emulator [] = []
  candidates is_emulator (item ∷ items) =
      let rest = candidates is_emulator items in
      if not (any_prefix item magisk_bin_inject_partitions)
      then rest
      else if starts_with item (codes "/system/apex/")
      then rest
      else if is_emulator && starts_with item (codes "/system/xbin")
      then rest
      else if exists (item ++ codes "/su")
      then (strip_system_prefix item, 0) ∷ []
      else elim (file_count item) [
        | none ↦ rest
        | some count ↦ (strip_system_prefix item, count) ∷ rest
      ]

-- On to the next name of a path, where there is a directory, or nothing.
abbrev pub found_dir : Bytes → FsNodeMap → (FsNodeMap → Collected) → Option FsNodeMap → Collected
found_dir dir curr next none = (curr, false)
found_dir dir curr next (some sub) = stored_dir dir curr (next sub)

-- `continue 'path_loop`
abbrev pub otherwise : Collected → (FsNodeMap → FsNodeMap) → FsNodeMap
otherwise (system, true) next = system
otherwise (system, false) next = next system

-- A directory of the system, made where there is nothing.
abbrev pub in_dir : Bytes → (FsNodeMap → FsNodeMap) → FsNodeMap → Option FsNodeMap → FsNodeMap
in_dir dir f system none = system
in_dir dir f system (some sub) = put dir (directory (f sub)) system

abbrev pub with_dir : Bytes → (FsNodeMap → FsNodeMap) → FsNodeMap → FsNodeMap
with_dir dir f system = in_dir dir f system (sub_dir (child dir system))

-- `tmp` is `get_magisk_tmp()`.
module _ (tmp : Bytes) where
  unfoldable pub inject : FsNodeMap → FsNodeMap
  inject children = put (codes "supolicy") magisk_link (
      put (codes "resetprop") magisk_link (
        put (codes "su") magisk_link (
          put (codes "magiskpolicy") (file (append_path tmp (codes "magiskpolicy")))
            (put (codes "magisk") (file (append_path tmp (codes "magisk"))) children))))

  -- The body of `'path_loop`: whether the directory was found_dir or made.
  unfoldable pub inject_path : List Bytes → FsNodeMap → Collected
  unfolding child put
  inject_path [] curr = (inject curr, true)
  inject_path (dir ∷ dirs) curr =
      found_dir dir curr (λ sub. inject_path dirs sub) (sub_dir (child dir curr))

  unfoldable pub path_loop : List (Bytes × ℕ) → FsNodeMap → FsNodeMap
  unfolding inject_path normal_components
  path_loop [] system = with_dir (codes "bin") inject system
  path_loop ((item, count) ∷ rest) system =
      otherwise (inject_path (normal_components item) system) (λ s. path_loop rest s)

module _ (exists : Bytes → Bool) (mode count_files : Bytes → Option ℕ) (tmp : Bytes) where
  unfoldable pub inject_magisk_bins :
      (path_env : Bytes) → (is_emulator : Bool) → FsNodeMap → FsNodeMap
  inject_magisk_bins path_env is_emulator system =
      path_loop tmp
        (sort_candidates (candidates exists mode count_files is_emulator (split 58 path_env)))
        system

module _ (exists : Bytes → Bool) (tmp : Bytes) where
  -- What is completed for 32 bits. `is_64` says that pointers have 64 bits.
  abbrev pub zygisk_lib : (is_64 : Bool) → (name : Bytes) → FsNodeMap → FsNodeMap
  zygisk_lib is_64 name system =
      let bin_path = append_path tmp (if is_64 then codes "magisk32" else codes "magisk") in
      if is_64 && not (exists (codes "/system/bin/linker"))
      then system
      else with_dir (codes "lib") (λ c. if exists bin_path then put name (file bin_path) c else c)
          system

  unfoldable pub inject_zygisk_bins : (is_64 : Bool) → (name : Bytes) → FsNodeMap → FsNodeMap
  unfolding child put
  inject_zygisk_bins is_64 name system =
      if is_64 && exists (codes "/system/bin/linker64")
      then with_dir (codes "lib64") (λ c. put name (file (append_path tmp (codes "magisk"))) c)
          (zygisk_lib is_64 name system)
      else zygisk_lib is_64 name system
