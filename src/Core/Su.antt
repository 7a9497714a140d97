-- ===== src/Core/Su.antt =====
-- Who gets root: native/src/core/su/daemon.rs, native/src/core/su/db.rs and the settings of
-- native/src/core/db.rs. An `i32` user id is a natural number, since the system gives none above
-- 2^31; -1 stands for none in the sources, and is `none` here. The database, the lookup of the
-- manager app and its answer are parameters.
pub mod Access
pub mod Prune
mod Examples
use magisk.Prelude.{
  ℕ, zero, suc, ◌+◌, ◌-◌, ◌*◌, ◌/◌, ◌%◌, ◌^◌, ◌≤◌, ◌<◌, Ordering, compare, bit_and, bit_or, ◌≡◌,
  refl, sym, ap, ap₂, ◌∙◌, fun_ext, ◌≢◌, ◌↔◌, ◌⊎◌, inl, inr, Bool, true, false, not, ◌&&◌, ◌||◌,
  Option, none, some, List, [], ◌∷◌, ◌++◌, map, append-nil, append_assoc, arith, ltb, leb, ◌==◌,
  if◌then◌else◌, ltb→lt, lt→ltb, ltb→le, leb→le, le→leb, ==_iff, tests, Bool-cases, Option-cases,
  Bytes, All, length, take, drop, replicate, is_empty, all_of, length-append, length-replicate,
  take-append-drop, length-take, length-drop, take-append_left, drop-append_left, take_all,
  drop_all, set, set-append,
}

-- `unknown` is any other number that the database holds.
pub data SuPolicy : Type 0 where
  query : SuPolicy
  deny : SuPolicy
  allow : SuPolicy
  restrict : SuPolicy
  unknown : SuPolicy

pub record RootSettings : Type 0 where
  pub policy : SuPolicy
  pub log : Bool
  pub notify : Bool

pub data RootAccess : Type 0 where
  disabled : RootAccess
  apps_only : RootAccess
  adb_only : RootAccess
  apps_and_adb : RootAccess

pub data MultiuserMode : Type 0 where
  owner_only : MultiuserMode
  owner_managed : MultiuserMode
  user : MultiuserMode

-- The settings that decide about access; the others (`mnt_ns`, which goes to the shell, and those of
-- other parts) are left out.
pub record DbSettings : Type 0 where
  pub root_access : RootAccess
  pub multiuser_mode : MultiuserMode

pub record Manager : Type 0 where
  pub mgr_uid : ℕ
  pub mgr_pkg : Bytes

-- What the daemon asks: the settings; the policy row of a user that has not run out, `none` where
-- the query fails and `some none` where there is no row; and the manager app of a user.
pub record Db : Type 0 where
  pub get_db_settings : Option DbSettings
  pub select_policy : ℕ → Option (Option RootSettings)
  pub get_manager : ℕ → Option Manager

abbrev pub aid_root : ℕ
aid_root = 0

abbrev pub aid_shell : ℕ
aid_shell = 2000

unfoldable pub to_app_id : ℕ → ℕ
to_app_id uid = uid % 100000

unfoldable pub to_user_id : ℕ → ℕ
to_user_id uid = uid / 100000

-- `RootSettings::default()`
abbrev pub default_settings : RootSettings
default_settings = record { policy = query; log = false; notify = false }

-- `get_root_settings` on the default settings.
unfoldable pub get_root_settings : Db → ℕ → Option RootSettings
get_root_settings db uid = elim (db.select_policy uid) [
  | none ↦ none
  | some none ↦ some default_settings
  | some (some row) ↦ some row
]

-- `match cfg.root_access`: whether the user passes.
unfoldable pub access_allows : RootAccess → ℕ → Bool
access_allows disabled uid = false
access_allows apps_only uid = not (uid == aid_shell)
access_allows adb_only uid = uid == aid_shell
access_allows apps_and_adb uid = true

-- `match cfg.multiuser_mode`: the user whose policy counts, or `none` for a refusal.
unfoldable pub eval_user : MultiuserMode → ℕ → Option ℕ
unfolding to_user_id to_app_id
eval_user owner_only uid = if to_user_id uid == 0 then some uid else none
eval_user owner_managed uid = some (to_app_id uid)
eval_user user uid = some uid

abbrev pub is_allow : SuPolicy → Bool
is_allow allow = true
is_allow _ = false

abbrev pub is_query : SuPolicy → Bool
is_query query = true
is_query _ = false

-- The last query of `uid_granted_root`, whose errors are not looked at.
unfoldable pub policy_allows : Db → ℕ → Bool
policy_allows db uid = elim (db.select_policy uid) [
  | none ↦ false
  | some none ↦ false
  | some (some row) ↦ is_allow row.policy
]

unfoldable pub uid_granted_root : Db → ℕ → Bool
unfolding access_allows eval_user policy_allows
uid_granted_root db uid = if uid == aid_root then true else elim db.get_db_settings [
  | none ↦ false
  | some cfg ↦ elim (access_allows cfg.root_access uid) [
    | false ↦ false
    | true ↦ elim (eval_user cfg.multiuser_mode uid) [
      | none ↦ false
      | some uid' ↦ policy_allows db uid'
    ]
  ]
]

-- `SuInfo` with its `AccessInfo`, without `cfg`; `manager` is `mgr_uid` and `mgr_pkg`.
pub record SuInfo : Type 0 where
  pub uid : ℕ
  pub eval_uid : Option ℕ
  pub manager : Option Manager
  pub settings : RootSettings
  pub timestamp : ℕ

-- `SuInfo::allow` and `SuInfo::deny`, at a time.
abbrev pub silent : SuPolicy → ℕ → ℕ → SuInfo
silent policy now uid = record {
  uid = uid;
  eval_uid = none;
  manager = none;
  settings = record { policy = policy; log = false; notify = false };
  timestamp = now;
}

-- `if access.policy == SuPolicy::Query || access.log || access.notify`
unfoldable pub find_manager : Db → ℕ → RootSettings → Option Manager
unfolding to_user_id
find_manager db uid access =
    if is_query access.policy || (access.log || access.notify)
    then db.get_manager (to_user_id uid)
    else none

-- `if to_app_id(uid) == to_app_id(mgr_uid)`
unfoldable pub is_manager : ℕ → Option Manager → Bool
unfolding to_app_id
is_manager uid none = false
is_manager uid (some m) = to_app_id uid == to_app_id m.mgr_uid

-- `if access.policy == SuPolicy::Query && mgr_uid < 0`
abbrev pub undecided : RootSettings → Option Manager → Bool
undecided access none = is_query access.policy
undecided access (some m) = false

-- `build_su_info` behind the queries.
unfoldable pub decide : ℕ → ℕ → ℕ → RootAccess → RootSettings → Option Manager → SuInfo
unfolding is_manager access_allows
decide now uid eval_uid root_access access manager =
    if is_manager uid manager
    then silent allow now uid
    else if not (access_allows root_access uid)
    then silent deny now uid
    else if undecided access manager
    then silent deny now uid
    else record {
      uid = uid;
      eval_uid = some eval_uid;
      manager = manager;
      settings = access;
      timestamp = now;
    }

-- `build_su_info` with the feature `su-check-db`.
unfoldable pub build_su_info : Db → ℕ → ℕ → SuInfo
unfolding decide find_manager get_root_settings eval_user
build_su_info db now uid = elim db.get_db_settings [
  | none ↦ silent deny now uid
  | some cfg ↦ elim (eval_user cfg.multiuser_mode uid) [
    | none ↦ silent deny now uid
    | some eval_uid ↦ elim (get_root_settings db eval_uid) [
      | none ↦ silent deny now uid
      | some access ↦
          decide now uid eval_uid cfg.root_access access (find_manager db eval_uid access)
    ]
  ]
]

-- `is_fresh`; the time is in milliseconds.
unfoldable pub is_fresh : ℕ → SuInfo → Bool
is_fresh now info = ltb (now - info.timestamp) 3000

-- What `get_su_info` finds in `cached_su_info`; `none` is the default, which is of no user.
unfoldable pub cached_for : ℕ → ℕ → Option SuInfo → Option SuInfo
unfolding is_fresh
cached_for now uid none = none
cached_for now uid (some info) = if info.uid == uid && is_fresh now info then some info else none

-- `get_su_info`: the information, and whether it is the one in the cache.
unfoldable pub get_su_info : Db → ℕ → ℕ → Option SuInfo → SuInfo × Bool
unfolding build_su_info cached_for
get_su_info db now uid cache =
    if uid == aid_root
    then (silent allow now aid_root, false)
    else elim (cached_for now uid cache) [
      | some info ↦ (info, true)
      | none ↦ (build_su_info db now uid, true)
    ]

-- `connect_app` with what the app answers, and `refresh`.
unfoldable pub answered : (SuInfo → SuPolicy) → ℕ → SuInfo → SuInfo
answered app later info = record info {
  settings =
      if is_query info.settings.policy
      then record { policy = app info; log = info.settings.log; notify = info.settings.notify }
      else info.settings;
  timestamp = later;
}

-- What the client gets: a refusal, or a root shell, with capabilities dropped or not.
pub data Reply : Type 0 where
  rejected : Reply
  granted : (drop_cap : Bool) → Reply

abbrev pub reply : SuPolicy → Reply
reply deny = rejected
reply restrict = granted true
reply query = granted false
reply allow = granted false
reply unknown = granted false

-- `su_daemon_handler`, up to the fork: the reply and the cache afterwards. The information is shared
-- with the cache, so the answer is written there too.
unfoldable pub su_daemon_handler :
    Db → (SuInfo → SuPolicy) → (now later : ℕ) → ℕ → Option SuInfo → Reply × Option SuInfo
unfolding get_su_info answered
su_daemon_handler db app now later uid cache =
    let found = get_su_info db now uid cache in
    let info = answered app later found.0 in
    (reply info.settings.policy, if found.1 then some info else cache)
