-- ===== src/Core/Package/Manager/Lookup.antt =====
-- `get_manager` of native/src/core/package.rs: which app is the manager.
use magisk.Prelude.{
  ℕ, zero, suc, ◌+◌, ◌-◌, ◌*◌, Bool, true, not, ◌&&◌, Option, none, some, List, [], ◌∷◌, ◌++◌, ◌==◌,
  if◌then◌else◌, Bytes, is_empty,
}
use magisk.Base.Text.{equal, starts_with}
use magisk.Core.Package.Manager.{
  Status, TrackedFile, ManagerInfo, World, packages_xml, Effect, is_same, track, data_dir,
  check_dyn, check_stub, check_orig, installed, not_installed, cert_mismatch, install_stub,
  rm_su_manager,
}

-- What `get_manager` returns, the state afterwards and the calls that were made. The user is none
-- where it is -1.
pub record Answer : Type 0 where
  pub uid : Option ℕ
  pub pkg : Bytes
  pub info : ManagerInfo
  pub effects : List Effect

abbrev pub no_manager : ManagerInfo → List Effect → Answer
no_manager info effects = record { uid = none; pkg = []; info = info; effects = effects }

-- `user * AID_USER_OFFSET + self.repackaged_app_id`
unfoldable pub repackaged_uid : ℕ → Option ℕ → Option ℕ
repackaged_uid user (some app_id) = some (user * 100000 + app_id)
repackaged_uid zero none = none
repackaged_uid (suc user) none = some (suc user * 100000 - 1)

abbrev pub repackaged : ℕ → ManagerInfo → List Effect → Answer
repackaged user info effects = record {
  uid = repackaged_uid user info.repackaged_app_id;
  pkg = info.repackaged_pkg;
  info = info;
  effects = effects;
}

-- The app under its own name, with the owner of its directory.
unfoldable pub original : World → ℕ → ManagerInfo → List Effect → Answer
unfolding data_dir
original w user info effects = elim (w.owner (data_dir w user w.app_package_name)) [
  | none ↦ no_manager info effects
  | some uid ↦ record { uid = some uid; pkg = w.app_package_name; info = info; effects = effects }
]

-- After the check of the dynamic app.
abbrev pub after_dyn : ℕ → ManagerInfo × Status → List Effect → Answer
after_dyn user (info, installed) effects = repackaged user info effects
after_dyn user (info, not_installed) effects = no_manager info effects
after_dyn user (info, cert_mismatch) effects = no_manager info effects

-- `install_stub`, where it is asked for; copying the file is left out.
abbrev pub stub_if : World → Bool → ManagerInfo → List Effect
stub_if w install info =
    if install && not w.emulator && info.has_stub then install_stub ∷ [] else []

-- The tracked file is as it was.
unfoldable pub from_tracked : World → ℕ → Bool → TrackedFile → ManagerInfo → Answer
unfolding check_dyn original repackaged_uid
from_tracked w user install f info =
    if equal f.path packages_xml
    then no_manager info (stub_if w install info)
    else if starts_with f.path w.app_data_dir
    then repackaged user info []
    else if not (is_empty info.repackaged_pkg)
    then after_dyn user (check_dyn w user info.repackaged_pkg info) []
    else original w user info []

-- No manager was found.
abbrev pub track_packages : World → ℕ → Bool → ManagerInfo → List Effect → Answer
track_packages w user install info effects =
    no_manager (track w user packages_xml info) (effects ++ stub_if w install info)

-- What is left when there is no repackaged app.
abbrev pub after_orig : World → ℕ → Bool → List Effect → ManagerInfo × Status × List Effect → Answer
after_orig w user install effects (info, installed, calls) = original w user info (effects ++ calls)
after_orig w user install effects (info, not_installed, calls) =
    track_packages w user install info (effects ++ calls)
after_orig w user install effects (info, cert_mismatch, calls) =
    track_packages w user true info (effects ++ calls)

unfoldable pub from_original : World → ℕ → Bool → ManagerInfo → List Effect → Answer
unfolding check_orig original
from_original w user install old effects =
    after_orig w user install effects
      (check_orig w user (record old { repackaged_pkg = []; repackaged_cert = [] }))

-- The app that the database names.
abbrev pub after_stub : World → ℕ → Bool → ManagerInfo × Status × List Effect → Answer
after_stub w user install (info, installed, calls) =
    after_dyn user (check_dyn w user w.db_pkg info) calls
after_stub w user install (info, not_installed, calls) =
    from_original w user install info (calls ++ (rm_su_manager ∷ []))
after_stub w user install (info, cert_mismatch, calls) =
    from_original w user true info (calls ++ (rm_su_manager ∷ []))

unfoldable pub from_files : World → ℕ → Bool → ManagerInfo → Answer
unfolding check_stub check_dyn from_original
from_files w user install info =
    if is_empty w.db_pkg
    then from_original w user install info []
    else after_stub w user install (check_stub w user w.db_pkg info)

-- If the database changed, the file is not tracked any more.
unfoldable pub forget : World → ℕ → ManagerInfo → ManagerInfo
forget w user info =
    if equal w.db_pkg info.repackaged_pkg
    then info
    else record info { tracked_files = λ u. if u == user then none else info.tracked_files u }

abbrev pub by_file : World → ℕ → Bool → ManagerInfo → Option TrackedFile → Answer
by_file w user install info none = from_files w user install info
by_file w user install info (some f) =
    if is_same w f then from_tracked w user install f info else from_files w user install info

unfoldable pub get_manager : World → ℕ → (install : Bool) → ManagerInfo → Answer
unfolding forget is_same from_tracked from_files
get_manager w user install info =
    by_file w user install (forget w user info) ((forget w user info).tracked_files user)
