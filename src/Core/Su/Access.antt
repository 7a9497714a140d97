-- ===== src/Core/Su/Access.antt =====
-- What the access decisions of native/src/core/su promise.
use magisk.Prelude.{
  ℕ, ◌≡◌, refl, ◌≢◌, inl, inr, Bool, true, false, Option, none, some, arith, Option-cases,
}
use magisk.Core.Su.{
  SuPolicy, RootSettings, RootAccess, Manager, Db, aid_root, default_settings, get_root_settings,
  access_allows, eval_user, is_allow, policy_allows, uid_granted_root, find_manager, is_manager,
  decide, build_su_info, query, deny, allow, restrict, unknown,
}

is_allow→eq : (p : SuPolicy) → is_allow p ≡ true → p ≡ allow
is_allow→eq allow h = refl
is_allow→eq query h = cc
is_allow→eq deny h = cc
is_allow→eq restrict h = cc
is_allow→eq unknown h = cc

allowed_settings :
    (now uid eval_uid : ℕ) (access : RootAccess) (row : RootSettings) (manager : Option Manager)
    → access_allows access uid ≡ true
    → is_allow row.policy ≡ true
    → (decide now uid eval_uid access row manager).settings.policy ≡ allow
unfolding decide
allowed_settings now uid eval_uid access row manager a p = ground (arith, is_allow→eq row.policy)

-- A user other than root that `uid_granted_root` lets through is allowed by `build_su_info`,
-- whatever manager app there is.
pub build_su_info-granted :
    (db : Db) (now uid : ℕ)
    → uid_granted_root db uid ≡ true
    → uid ≢ aid_root
    → (build_su_info db now uid).settings.policy ≡ allow
unfolding uid_granted_root build_su_info policy_allows get_root_settings
build_su_info-granted db now uid h n = elim (Option-cases db.get_db_settings) [
  | inl e ↦ ground arith
  | inr (cfg, e) ↦ elim (Option-cases (eval_user cfg.multiuser_mode uid)) [
    | inl e' ↦ ground arith
    | inr (ev, e') ↦ elim (Option-cases (db.select_policy ev)) [
      | inl e'' ↦ ground arith
      | inr (none, e'') ↦ ground arith
      | inr (some row, e'') ↦
          ground (arith, allowed_settings now uid ev cfg.root_access row (find_manager db ev row))
    ]
  ]
]

allowed_by :
    (now uid eval_uid : ℕ) (access : RootAccess) (row : RootSettings) (manager : Option Manager)
    → (decide now uid eval_uid access row manager).settings.policy ≡ allow
    → is_manager uid manager ≡ false
    → (access_allows access uid ≡ true) × (is_allow row.policy ≡ true)
unfolding decide
allowed_by now uid eval_uid access row manager h m = ground arith

-- Whether `build_su_info` takes the user for the manager app: it has the app id of the manager of
-- the user whose policy counts, and the manager was looked up.
unfoldable pub manager_asks : Db → ℕ → Bool
unfolding is_manager find_manager get_root_settings eval_user
manager_asks db uid = elim db.get_db_settings [
  | none ↦ false
  | some cfg ↦ elim (eval_user cfg.multiuser_mode uid) [
    | none ↦ false
    | some eval_uid ↦ elim (get_root_settings db eval_uid) [
      | none ↦ false
      | some access ↦ is_manager uid (find_manager db eval_uid access)
    ]
  ]
]

-- If `build_su_info` allows a user that it does not take for the manager app, then
-- `uid_granted_root` lets the user through.
pub build_su_info-allow :
    (db : Db) (now uid : ℕ)
    → (build_su_info db now uid).settings.policy ≡ allow
    → manager_asks db uid ≡ false
    → uid_granted_root db uid ≡ true
unfolding uid_granted_root build_su_info policy_allows get_root_settings manager_asks
build_su_info-allow db now uid h m = elim (Option-cases db.get_db_settings) [
  | inl e ↦ ground arith
  | inr (cfg, e) ↦ elim (Option-cases (eval_user cfg.multiuser_mode uid)) [
    | inl e' ↦ ground arith
    | inr (ev, e') ↦ elim (Option-cases (db.select_policy ev)) [
      | inl e'' ↦ ground arith
      | inr (none, e'') ↦ ground (
        arith,
        allowed_by now uid ev cfg.root_access default_settings
            (find_manager db ev default_settings),
      )
      | inr (some row, e'') ↦
          ground (arith, allowed_by now uid ev cfg.root_access row (find_manager db ev row))
    ]
  ]
]
