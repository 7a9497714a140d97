-- ===== src/Core/Module/Listing/Laws.antt =====
-- Which modules `collect_modules` of native/src/core/module.rs lists.
use magisk.Prelude.{
  ap₂, ◌||◌, arith, ℕ, ◌≡◌, refl, sym, ap, ◌∙◌, Bool, true, false, not, ◌&&◌, Option, none, List,
  [], ◌∷◌, if◌then◌else◌, Bytes, All,
}
use magisk.Core.Module.Listing.{
  codes, equal, ended_early, ModuleDir, ModuleInfo, Listing, is_ignored, is_module, info_of,
  cleared, without_update, keep_dir, list_module, run_script, list_loop, convert_all,
  collect_modules,
}

-- The folder clashes with zygisk, or with its absence.
abbrev pub clashes : Bool → ModuleDir → Bool
clashes true m = equal m.name (codes "riru-core") || m.has_riru
clashes false m = m.has_zygisk

-- A module that is to be listed.
abbrev pub counts : Bool → ModuleDir → Bool
counts zygisk_enabled m =
    m.is_folder
    && not (equal m.name (codes ".core"))
    && not m.has_remove
    && not m.has_disable
    && not (clashes zygisk_enabled m)

unfoldable pub counting_names : Bool → List ModuleDir → List Bytes
counting_names zygisk_enabled [] = []
counting_names zygisk_enabled (m ∷ ms) =
    let rest = counting_names zygisk_enabled ms in
    if counts zygisk_enabled m then m.name ∷ rest else rest

unfoldable pub listed_names : List ModuleInfo → List Bytes
listed_names [] = []
listed_names (m ∷ ms) = m.name ∷ listed_names ms

-- The modules can be opened, and those that are to be removed can be removed.
abbrev pub IsFine : ModuleDir → Type 0
IsFine m = (m.opens ≡ true) × (m.removes ≡ true)

counts_lem :
    (ze : Bool) (m : ModuleDir)
    → counts ze m ≡ (is_module m && not m.has_remove && not m.has_disable && not (is_ignored ze m))
counts_lem true m = ground arith
counts_lem false m = ground arith

-- A turn of the loop, by what the module is.
turn-names :
    (left m : ModuleDir) (rest : Listing) (ms : List ModuleDir) (opened : Bool) (names : List Bytes)
    (is_mod opens remove uninstall removes disable ignored : Bool)
    → opens ≡ true
    → removes ≡ true
    → listed_names rest.modules ≡ names
    → listed_names
        (if◌then◌else◌ {A = Listing} (not is_mod) (keep_dir m rest) (
          if◌then◌else◌ {A = Listing} (not opens) (ended_early (m ∷ ms)) (
            if◌then◌else◌ {A = Listing} remove
              (run_script uninstall m.name (if removes then rest else ended_early (left ∷ ms)))
              (if◌then◌else◌ {A = Listing} disable (keep_dir (without_update m) rest) (
                if◌then◌else◌ {A = Listing} ignored
                  (keep_dir (without_update m) rest)
                  (list_module (info_of opened m) (keep_dir (cleared opened m) rest))))))).modules
      ≡ (if◌then◌else◌ {A = List Bytes}
          (is_mod && not remove && not disable && not ignored)
          (m.name ∷ names)
          names)
unfolding listed_names
turn-names left m rest ms opened names false o r u x d i eo ex h = h
turn-names left m rest ms opened names true false r u x d i eo ex h = cc
turn-names left m rest ms opened names true true true u false d i eo ex h = cc
turn-names left m rest ms opened names true true true true true d i eo ex h = h
turn-names left m rest ms opened names true true true false true d i eo ex h = h
turn-names left m rest ms opened names true true false u x true i eo ex h = h
turn-names left m rest ms opened names true true false u x false true eo ex h = h
turn-names left m rest ms opened names true true false u x false false eo ex h =
    listed (opened && m.has_zygisk)
  where
    listed :
        (b : Bool)
        → (if◌then◌else◌ {A = ModuleInfo} b
              (record { name = m.name; z32 = m.lib_32; z64 = m.lib_64 })
              (record { name = m.name; z32 = none; z64 = none })).name
            ∷ listed_names rest.modules
          ≡ m.name ∷ names
    listed true = ap (◌∷◌ m.name) h
    listed false = ap (◌∷◌ m.name) h

module _ (left : ModuleDir → ModuleDir) (ze oz : Bool) where
  list_loop-names :
      (ms : List ModuleDir)
      → All IsFine ms
      → listed_names (list_loop left ze oz ms).modules ≡ counting_names ze ms
  unfolding list_loop listed_names counting_names
  list_loop-names [] h = refl
  list_loop-names (m ∷ ms) h =
      turn-names (left m) m (list_loop left ze oz ms) ms (ze && oz) (counting_names ze ms)
        (is_module m) m.opens m.has_remove m.has_uninstall m.removes m.has_disable (is_ignored ze m)
        h.0.0 h.0.1 (list_loop-names ms h.1)
      ∙ ap
          (λ c.
            if◌then◌else◌ {A = List Bytes} c (m.name ∷ counting_names ze ms) (counting_names ze ms))
          (sym (counts_lem ze m))

  -- Copying the libraries to memory changes no name.
  convert_all-names :
      (memfd : ℕ → Option ℕ) (use_memfd : Bool) (ms : List ModuleInfo)
      → listed_names (convert_all memfd use_memfd ms) ≡ listed_names ms
  unfolding convert_all listed_names
  convert_all-names memfd use_memfd [] = refl
  convert_all-names memfd use_memfd (m ∷ ms) = ap (◌∷◌ m.name) (convert_all-names memfd _ ms)

  -- If every module can be opened and removed, `collect_modules` lists, in their order, the
  -- folders that are not named `.core`, have neither `remove` nor `disable`, and do not clash
  -- with zygisk: with zygisk no riru module, without it no module for zygisk.
  pub collect_modules-names :
      (memfd : ℕ → Option ℕ) (ms : List ModuleDir)
      → All IsFine ms
      → listed_names (collect_modules memfd left ze oz ms).modules ≡ counting_names ze ms
  unfolding collect_modules
  collect_modules-names memfd ms h = either (ze && oz)
    where
      either :
          (b : Bool)
          → listed_names
              (if◌then◌else◌ {A = Listing} b
                (record (list_loop left ze oz ms) {
                  modules = convert_all memfd true (list_loop left ze oz ms).modules;
                })
                (list_loop left ze oz ms)).modules
            ≡ counting_names ze ms
      either true =
          convert_all-names memfd true (list_loop left ze oz ms).modules ∙ list_loop-names ms h
      either false = list_loop-names ms h

counts-without_update : (ze : Bool) (m : ModuleDir) → counts ze (without_update m) ≡ counts ze m
counts-without_update true m = refl
counts-without_update false m = refl

counts-cleared : (ze opened : Bool) (m : ModuleDir) → counts ze (cleared opened m) ≡ counts ze m
counts-cleared true opened m = refl
counts-cleared false opened m = refl

counted :
    (ze : Bool) (m : ModuleDir) (c : Bool) (ms : List ModuleDir) (names : List Bytes)
    → counts ze m ≡ c
    → counting_names ze ms ≡ names
    → counting_names ze (m ∷ ms) ≡ (if c then m.name ∷ names else names)
unfolding counting_names
counted ze m c ms names e h = ap₂ (λ b ns. if◌then◌else◌ {A = List Bytes} b (m.name ∷ ns) ns) e h

-- What is kept counts as before.
turn-folder :
    (ze : Bool) (left m : ModuleDir) (rest : Listing) (ms : List ModuleDir) (opened : Bool)
    (names : List Bytes) (is_mod opens remove uninstall removes disable ignored : Bool)
    → opens ≡ true
    → removes ≡ true
    → counts ze m ≡ (is_mod && not remove && not disable && not ignored)
    → counting_names ze rest.folder ≡ names
    → counting_names ze
        (if◌then◌else◌ {A = Listing} (not is_mod) (keep_dir m rest) (
          if◌then◌else◌ {A = Listing} (not opens) (ended_early (m ∷ ms)) (
            if◌then◌else◌ {A = Listing} remove
              (run_script uninstall m.name (if removes then rest else ended_early (left ∷ ms)))
              (if◌then◌else◌ {A = Listing} disable (keep_dir (without_update m) rest) (
                if◌then◌else◌ {A = Listing} ignored
                  (keep_dir (without_update m) rest)
                  (list_module (info_of opened m) (keep_dir (cleared opened m) rest))))))).folder
      ≡ (if◌then◌else◌ {A = List Bytes}
          (is_mod && not remove && not disable && not ignored)
          (m.name ∷ names)
          names)
unfolding counting_names
turn-folder ze left m rest ms opened names false o r u x d i eo ex e h =
    counted ze m false rest.folder names e h
turn-folder ze left m rest ms opened names true false r u x d i eo ex e h = cc
turn-folder ze left m rest ms opened names true true true u false d i eo ex e h = cc
turn-folder ze left m rest ms opened names true true true true true d i eo ex e h = h
turn-folder ze left m rest ms opened names true true true false true d i eo ex e h = h
turn-folder ze left m rest ms opened names true true false u x true i eo ex e h =
    counted ze (without_update m) false rest.folder names (counts-without_update ze m ∙ e) h
turn-folder ze left m rest ms opened names true true false u x false true eo ex e h =
    counted ze (without_update m) false rest.folder names (counts-without_update ze m ∙ e) h
turn-folder ze left m rest ms opened names true true false u x false false eo ex e h =
    counted ze (cleared opened m) true rest.folder names (counts-cleared ze opened m ∙ e) h

turn-IsFine :
    (left m : ModuleDir) (rest : Listing) (ms : List ModuleDir) (opened : Bool)
    (is_mod opens remove uninstall removes disable ignored : Bool)
    → opens ≡ true
    → removes ≡ true
    → IsFine m
    → All IsFine rest.folder
    → All IsFine
        (if◌then◌else◌ {A = Listing} (not is_mod) (keep_dir m rest) (
          if◌then◌else◌ {A = Listing} (not opens) (ended_early (m ∷ ms)) (
            if◌then◌else◌ {A = Listing} remove
              (run_script uninstall m.name (if removes then rest else ended_early (left ∷ ms)))
              (if◌then◌else◌ {A = Listing} disable (keep_dir (without_update m) rest) (
                if◌then◌else◌ {A = Listing} ignored
                  (keep_dir (without_update m) rest)
                  (list_module (info_of opened m) (keep_dir (cleared opened m) rest))))))).folder
turn-IsFine left m rest ms opened false o r u x d i eo ex f h = (f, h)
turn-IsFine left m rest ms opened true false r u x d i eo ex f h = cc
turn-IsFine left m rest ms opened true true true u false d i eo ex f h = cc
turn-IsFine left m rest ms opened true true true true true d i eo ex f h = h
turn-IsFine left m rest ms opened true true true false true d i eo ex f h = h
turn-IsFine left m rest ms opened true true false u x true i eo ex f h = (f, h)
turn-IsFine left m rest ms opened true true false u x false true eo ex f h = (f, h)
turn-IsFine left m rest ms opened true true false u x false false eo ex f h = (f, h)

module _ (left : ModuleDir → ModuleDir) (ze oz : Bool) where
  list_loop-IsFine :
      (ms : List ModuleDir) → All IsFine ms → All IsFine (list_loop left ze oz ms).folder
  unfolding list_loop
  list_loop-IsFine [] h = tt
  list_loop-IsFine (m ∷ ms) h =
      turn-IsFine (left m) m (list_loop left ze oz ms) ms (ze && oz) (is_module m) m.opens
        m.has_remove m.has_uninstall m.removes m.has_disable (is_ignored ze m) h.0.0 h.0.1 h.0
        (list_loop-IsFine ms h.1)

  list_loop-folder :
      (ms : List ModuleDir)
      → All IsFine ms
      → counting_names ze (list_loop left ze oz ms).folder ≡ counting_names ze ms
  unfolding list_loop counting_names
  list_loop-folder [] h = refl
  list_loop-folder (m ∷ ms) h =
      turn-folder ze (left m) m (list_loop left ze oz ms) ms (ze && oz) (counting_names ze ms)
        (is_module m) m.opens m.has_remove m.has_uninstall m.removes m.has_disable (is_ignored ze m)
        h.0.0 h.0.1 (counts_lem ze m) (list_loop-folder ms h.1)
      ∙ ap
          (λ c.
            if◌then◌else◌ {A = List Bytes} c (m.name ∷ counting_names ze ms) (counting_names ze ms))
          (sym (counts_lem ze m))

collect_modules-folder :
    (memfd : ℕ → Option ℕ) (left : ModuleDir → ModuleDir) (ze oz : Bool) (ms : List ModuleDir)
    → (collect_modules memfd left ze oz ms).folder ≡ (list_loop left ze oz ms).folder
unfolding collect_modules
collect_modules-folder memfd left true true ms = refl
collect_modules-folder memfd left true false ms = refl
collect_modules-folder memfd left false oz ms = refl

-- If every module can be opened and removed, `collect_modules` lists the same names when it is
-- called again on the folder that it leaves, whether the libraries are opened or not.
pub collect_modules-again :
    (memfd : ℕ → Option ℕ) (left : ModuleDir → ModuleDir) (ze oz oz2 : Bool) (ms : List ModuleDir)
    → All IsFine ms
    → listed_names
        (collect_modules memfd left ze oz2 (collect_modules memfd left ze oz ms).folder).modules
      ≡ listed_names (collect_modules memfd left ze oz ms).modules
collect_modules-again memfd left ze oz oz2 ms h = rw (collect_modules-folder memfd left ze oz ms) (
    collect_modules-names left ze oz2 memfd (list_loop left ze oz ms).folder
      (list_loop-IsFine left ze oz ms h)
    ∙ (list_loop-folder left ze oz ms h ∙ sym (collect_modules-names left ze oz memfd ms h)))
