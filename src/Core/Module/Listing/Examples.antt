-- ===== src/Core/Module/Listing/Examples.antt =====
-- Runs of `collect_modules` of native/src/core/module.rs.
use magisk.Prelude.{ℕ, ◌≡◌, refl, true, false, Option, none, some, List, [], ◌∷◌, Bytes, All}
use magisk.Base.Text.{codes, equal}
use magisk.Core.Module.Listing.{ModuleDir, list_loop, collect_modules}
use magisk.Core.Module.Listing.Laws.{
  counting_names, listed_names, IsFine, collect_modules-names, collect_modules-again,
}

abbrev plain_module : Bytes → ModuleDir
plain_module name = record {
  name = name;
  is_folder = true;
  opens = true;
  removes = true;
  has_remove = false;
  has_uninstall = false;
  has_update = true;
  has_disable = false;
  has_zygisk = false;
  has_riru = false;
  has_unloaded = false;
  lib_32 = none;
  lib_64 = some 9;
}

-- One module with a zygisk library, one to be removed, one that is disabled and one plain.
abbrev folder : List ModuleDir
folder =
    record (plain_module (codes "z")) { has_zygisk = true }
    ∷ record (plain_module (codes "gone")) { has_remove = true; has_uninstall = true }
    ∷ record (plain_module (codes "off")) { has_disable = true }
    ∷ plain_module (codes "a")
    ∷ []

abbrev no_memfd : ℕ → Option ℕ
no_memfd fd = none

abbrev same_dir : ModuleDir → ModuleDir
same_dir m = m

abbrev folder-IsFine : All IsFine folder
folder-IsFine = ((refl, refl), ((refl, refl), ((refl, refl), ((refl, refl), tt))))

collect_modules_scripts :
    (collect_modules no_memfd same_dir true true folder).scripts ≡ codes "gone" ∷ []
unfolding collect_modules list_loop equal
collect_modules_scripts = refl

collect_modules-names_example :
    listed_names (collect_modules no_memfd same_dir true true folder).modules
    ≡ counting_names true folder
collect_modules-names_example =
    collect_modules-names same_dir true true no_memfd folder folder-IsFine

collect_modules-again_example :
    listed_names
      (collect_modules no_memfd same_dir true true
        (collect_modules no_memfd same_dir true false folder).folder).modules
    ≡ listed_names (collect_modules no_memfd same_dir true false folder).modules
collect_modules-again_example =
    collect_modules-again no_memfd same_dir true false true folder folder-IsFine
