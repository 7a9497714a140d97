-- ===== src/Core/Package/Manager.antt =====
-- `ManagerInfo` of native/src/core/package.rs: its state, and the checks of the files of an app.
pub mod Lookup
pub mod Signed
pub mod Trusted
use magisk.Prelude.{
  ℕ, zero, suc, ◌+◌, ◌-◌, ◌*◌, ◌/◌, ◌%◌, ◌^◌, ◌≤◌, ◌<◌, Ordering, compare, bit_and, bit_or, ◌≡◌,
  refl, sym, ap, ap₂, ◌∙◌, fun_ext, ◌≢◌, ◌↔◌, ◌⊎◌, inl, inr, Bool, true, false, not, ◌&&◌, ◌||◌,
  Option, none, some, List, [], ◌∷◌, ◌++◌, map, append-nil, append_assoc, arith, ltb, leb, ◌==◌,
  if◌then◌else◌, ltb→lt, lt→ltb, ltb→le, leb→le, le→leb, ==_iff, tests, Bool-cases, Option-cases,
  Bytes, All, length, take, drop, replicate, is_empty, all_of, length-append, length-replicate,
  take-append-drop, length-take, length-drop, take-append_left, drop-append_left, take_all,
  drop_all, set, set-append,
}
use magisk.Base.Text.{
  codes, equal, starts_with, strip_prefix, ends_with, find, push_head, split, non_empty, join,
  Lacks, IsPart, equal_refl, equal→eq, starts_with-append, starts_with_split, strip_prefix-append,
  ends_with-append, split_part, split_last, parts-IsPart, parts-join, find_front,
}
use magisk.Base.Outcome.{Outcome, ◌>>=◌, ◌>>◌, >>=-eq-ok, ok, fail, panic, out_of_fuel}
use magisk.Core.Su.{to_app_id}
use magisk.Core.Package.{read_certificate}
use magisk.Core.Module.Tree.{append_path}

pub data Status : Type 0 where
  installed : Status
  not_installed : Status
  cert_mismatch : Status

pub record TrackedFile : Type 0 where
  pub path : Bytes
  pub timestamp : ℕ

-- The files are tracked by user. The id of the app is none where it is -1.
pub record ManagerInfo : Type 0 where
  pub has_stub : Bool
  pub trusted_cert : Bytes
  pub repackaged_app_id : Option ℕ
  pub repackaged_pkg : Bytes
  pub repackaged_cert : Bytes
  pub tracked_files : ℕ → Option TrackedFile

-- What is on the device. `ctime` is the time of a file, where it has attributes; `open_apk` gives
-- the owner and the bytes of a file that can be opened; `apk_path` is what `find_apk_path` gives;
-- `owner` is that of a file.
pub record World : Type 0 where
  pub ctime : Bytes → Option ℕ
  pub open_apk : Bytes → Option (Option ℕ × Bytes)
  pub apk_path : Bytes → Option Bytes
  pub app_data_dir : Bytes
  pub owner : Bytes → Option ℕ
  pub db_pkg : Bytes
  pub emulator : Bool
  pub check_signature : Bool
  pub ver_code : ℕ
  pub app_package_name : Bytes
  pub fuel : ℕ

abbrev pub packages_xml : Bytes
packages_xml = codes "/data/system/packages.xml"

-- The calls that change the device.
pub data Effect : Type 0 where
  uninstall_pkg : Bytes → Effect
  install_stub : Effect
  rm_su_manager : Effect

-- `res.log().unwrap_or(vec![])`, for a file on which the reading ends.
unfoldable pub certificate : World → Bytes → Option ℕ → Bytes
unfolding read_certificate
certificate w apk version = elim (read_certificate w.fuel apk version) [ ok cert ↦ cert | _ ↦ [] ]

unfoldable pub tracked : World → Bytes → TrackedFile
tracked w path = elim (w.ctime path) [
  | none ↦ record { path = []; timestamp = 0 }
  | some time ↦ record { path = path; timestamp = time }
]

unfoldable pub is_same : World → TrackedFile → Bool
is_same w f =
    if is_empty f.path
    then false
    else elim (w.ctime f.path) [ none ↦ false | some time ↦ time == f.timestamp ]

-- `self.tracked_files.insert(user, TrackedFile::new(path))`
abbrev pub track : World → ℕ → Bytes → ManagerInfo → ManagerInfo
track w user path info = record info {
  tracked_files = λ u. if u == user then some (tracked w path) else info.tracked_files u;
}

abbrev pub is_trusted : World → Bytes → ManagerInfo → Bool
is_trusted w cert info =
    not (w.check_signature && (is_empty cert || not (equal cert info.trusted_cert)))

-- The digits of a user; it has no more than ten.
unfoldable pub user_digits : (digits user : ℕ) → Bytes
user_digits zero user = []
user_digits (suc digits) user =
    let rest = user_digits digits (user / 10) in
    if ltb user 10 then (b'0' + user) ∷ [] else rest ++ ((b'0' + user % 10) ∷ [])

unfoldable pub data_dir : World → ℕ → Bytes → Bytes
unfolding append_path user_digits
data_dir w user pkg = append_path (append_path w.app_data_dir (user_digits 10 user)) pkg

-- The id of the app with a user, and the file that is tracked from now on.
abbrev pub with_dyn : World → ℕ → Bytes → Option ℕ → ManagerInfo → ManagerInfo
with_dyn w user apk uid info =
    track w user apk
      (record info { repackaged_app_id = elim uid [ none ↦ none | some u ↦ some (to_app_id u) ] })

-- What is done with the dynamic app, where it can be opened.
abbrev pub dyn_opened :
    World → ℕ → Bytes → ManagerInfo → Option (Option ℕ × Bytes) → ManagerInfo × Status
dyn_opened w user apk info none = (info, not_installed)
dyn_opened w user apk info (some (uid, bytes)) =
    if is_trusted w (certificate w bytes (some w.ver_code)) info
    then (with_dyn w user apk uid info, installed)
    else (info, cert_mismatch)

abbrev pub dyn_path : World → ℕ → Bytes → Bytes
dyn_path w user pkg =
    append_path (append_path (data_dir w user pkg) (codes "dyn")) (codes "current.apk")

unfoldable pub check_dyn : World → ℕ → Bytes → ManagerInfo → ManagerInfo × Status
unfolding certificate to_app_id data_dir append_path
check_dyn w user pkg info =
    dyn_opened w user (dyn_path w user pkg) info (w.open_apk (dyn_path w user pkg))

-- What is done with the repackaged app, where it is found and can be opened. The calls come with the
-- state.
abbrev pub stub_opened :
    World
    → ℕ
    → Bytes
    → Bytes
    → ManagerInfo
    → Option (Option ℕ × Bytes)
    → ManagerInfo × Status × List Effect
stub_opened w user pkg apk info none = (info, not_installed, [])
stub_opened w user pkg apk info (some (uid, bytes)) =
    let cert = certificate w bytes none in
    if is_empty cert || (equal pkg info.repackaged_pkg && not (equal cert info.repackaged_cert))
    then (info, cert_mismatch, uninstall_pkg apk ∷ [])
    else (
      track w user apk (record info { repackaged_pkg = pkg; repackaged_cert = cert }),
      installed,
      [],
    )

abbrev pub stub_found :
    World → ℕ → Bytes → ManagerInfo → Option Bytes → ManagerInfo × Status × List Effect
stub_found w user pkg info none = (info, not_installed, [])
stub_found w user pkg info (some apk) = stub_opened w user pkg apk info (w.open_apk apk)

unfoldable pub check_stub : World → ℕ → Bytes → ManagerInfo → ManagerInfo × Status × List Effect
unfolding certificate
check_stub w user pkg info = stub_found w user pkg info (w.apk_path pkg)

abbrev pub orig_opened :
    World → ℕ → Bytes → ManagerInfo → Option (Option ℕ × Bytes) → ManagerInfo × Status × List Effect
orig_opened w user apk info none = (info, not_installed, [])
orig_opened w user apk info (some (uid, bytes)) =
    if is_trusted w (certificate w bytes (some w.ver_code)) info
    then (track w user apk info, installed, [])
    else (info, cert_mismatch, uninstall_pkg w.app_package_name ∷ [])

abbrev pub orig_found : World → ℕ → ManagerInfo → Option Bytes → ManagerInfo × Status × List Effect
orig_found w user info none = (info, not_installed, [])
orig_found w user info (some apk) = orig_opened w user apk info (w.open_apk apk)

unfoldable pub check_orig : World → ℕ → ManagerInfo → ManagerInfo × Status × List Effect
unfolding certificate
check_orig w user info = orig_found w user info (w.apk_path w.app_package_name)
