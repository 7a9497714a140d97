-- ===== src/Core/Su/Examples.antt =====
-- The theorems about native/src/core/su at concrete inputs.
use magisk.Prelude.{◌≡◌, refl, true, false, none, some, [], ◌∷◌, arith, ◌==◌, if◌then◌else◌}
use magisk.Core.Su.{RootSettings, Db, uid_granted_root, build_su_info, allow, apps_only, owner_only}
use magisk.Core.Su.Access.{build_su_info-granted, manager_asks, build_su_info-allow}
use magisk.Core.Su.Prune.{prune_su_access, rows_where, prune_su_access_lem, is_kept}

abbrev allowed : RootSettings
allowed = record { policy = allow; log = true; notify = true }

-- A database in which one app is allowed, without a manager app.
abbrev db : Db
db = record {
  get_db_settings = some (record { root_access = apps_only; multiuser_mode = owner_only });
  select_policy = λ uid. some (if uid == 10123 then some allowed else none);
  get_manager = λ user_id. none;
}

granted_10123 : uid_granted_root db 10123 ≡ true
unfolding uid_granted_root
granted_10123 = refl

build_su_info-granted_example : (build_su_info db 0 10123).settings.policy ≡ allow
build_su_info-granted_example = build_su_info-granted db 0 10123 granted_10123 (ground arith)

allowed_10123 : (build_su_info db 0 10123).settings.policy ≡ allow
unfolding build_su_info
allowed_10123 = refl

no_manager : manager_asks db 10123 ≡ false
unfolding manager_asks
no_manager = refl

build_su_info-allow_example : uid_granted_root db 10123 ≡ true
build_su_info-allow_example = build_su_info-allow db 0 10123 allowed_10123 no_manager

-- A database that cannot be read.
abbrev broken_db : Db
broken_db = record {
  get_db_settings = none;
  select_policy = λ uid. none;
  get_manager = λ user_id. none;
}

prune_su_access_lem_example :
    prune_su_access true (λ n. n == 123) ((10123, allowed) ∷ (10124, allowed) ∷ [])
    ≡ rows_where (is_kept (λ n. n == 123)) ((10123, allowed) ∷ (10124, allowed) ∷ [])
prune_su_access_lem_example =
    prune_su_access_lem true (λ n. n == 123) ((10123, allowed) ∷ (10124, allowed) ∷ [])
