-- ===== src/Core/Package/Manager/Trusted.antt =====
-- The manager that `get_manager` of native/src/core/package.rs finds is signed with the trusted
-- certificate.
use magisk.Prelude.{
  ℕ, ◌≡◌, refl, ◌⊎◌, inl, inr, Bool, true, false, Option, none, some, List, [], ◌∷◌, ◌++◌, ◌==◌,
  if◌then◌else◌, Bool-cases, Bytes, is_empty,
}
use mathlib.Core.Path.{subst}
use magisk.Base.Text.{equal}
use magisk.Core.Package.Manager.{
  Status, TrackedFile, ManagerInfo, World, Effect, is_same, check_dyn, check_stub, check_orig,
  installed, not_installed, cert_mismatch, rm_su_manager,
}
use magisk.Core.Package.Manager.Lookup.{
  Answer, after_dyn, from_tracked, after_orig, from_original, after_stub, from_files, forget,
  by_file, get_manager,
}
use magisk.Core.Package.Manager.Signed.{
  IsSigned, orig_found-IsSigned, check_dyn-IsSigned, stub_found-trusted_cert,
}

-- The answer has a user.
abbrev pub HasUid : Answer → Type 0
HasUid a = (u : ℕ) × (a.uid ≡ some u)

after_dyn-installed :
    (user : ℕ) (r : ManagerInfo × Status) (effects : List Effect)
    → HasUid (after_dyn user r effects)
    → r.1 ≡ installed
after_dyn-installed user (info, installed) effects h = refl
after_dyn-installed user (info, not_installed) effects (u, e) = cc
after_dyn-installed user (info, cert_mismatch) effects (u, e) = cc

after_orig-installed :
    (w : World) (user : ℕ) (install : Bool) (effects : List Effect)
    (r : ManagerInfo × Status × List Effect)
    → HasUid (after_orig w user install effects r)
    → r.1 ≡ installed
after_orig-installed w user install effects (info, installed, calls) h = refl
after_orig-installed w user install effects (info, not_installed, calls) (u, e) = cc
after_orig-installed w user install effects (info, cert_mismatch, calls) (u, e) = cc

from_original-IsSigned :
    (w : World) (user : ℕ) (install : Bool) (info : ManagerInfo) (effects : List Effect)
    → w.check_signature ≡ true
    → HasUid (from_original w user install info effects)
    → IsSigned w user info.trusted_cert
unfolding from_original check_orig
from_original-IsSigned w user install info effects c h =
    let cleared : ManagerInfo = record info { repackaged_pkg = []; repackaged_cert = [] } in
    orig_found-IsSigned w user cleared (w.apk_path w.app_package_name) c refl
      (after_orig-installed w user install effects (check_orig w user cleared) h)

after_stub-IsSigned :
    (w : World) (user : ℕ) (install : Bool) (cert : Bytes) (r : ManagerInfo × Status × List Effect)
    → w.check_signature ≡ true
    → r.0.trusted_cert ≡ cert
    → HasUid (after_stub w user install r)
    → IsSigned w user cert
after_stub-IsSigned w user install cert (info, installed, calls) c e h = subst (IsSigned w user) e (
    check_dyn-IsSigned w user info c
      (after_dyn-installed user (check_dyn w user w.db_pkg info) calls h))
after_stub-IsSigned w user install cert (info, not_installed, calls) c e h =
    subst (IsSigned w user) e
      (from_original-IsSigned w user install info (calls ++ (rm_su_manager ∷ [])) c h)
after_stub-IsSigned w user install cert (info, cert_mismatch, calls) c e h =
    subst (IsSigned w user) e
      (from_original-IsSigned w user true info (calls ++ (rm_su_manager ∷ [])) c h)

from_files-IsSigned :
    (w : World) (user : ℕ) (install : Bool) (info : ManagerInfo)
    → w.check_signature ≡ true
    → HasUid (from_files w user install info)
    → IsSigned w user info.trusted_cert
unfolding from_files check_stub
from_files-IsSigned w user install info c h = either (is_empty w.db_pkg) h
  where
    either :
        (b : Bool)
        → HasUid (
            if b
            then from_original w user install info []
            else after_stub w user install (check_stub w user w.db_pkg info))
        → IsSigned w user info.trusted_cert
    either true h = from_original-IsSigned w user install info [] c h
    either false h =
        after_stub-IsSigned w user install info.trusted_cert (check_stub w user w.db_pkg info) c
          (stub_found-trusted_cert w user w.db_pkg info (w.apk_path w.db_pkg)) h

-- A file of the user is tracked and as it was.
abbrev pub IsCached : World → ℕ → ManagerInfo → Type 0
IsCached w user info =
    (f : TrackedFile) × ((forget w user info).tracked_files user ≡ some f) × (is_same w f ≡ true)

forget-trusted_cert :
    (w : World) (user : ℕ) (info : ManagerInfo)
    → (forget w user info).trusted_cert ≡ info.trusted_cert
unfolding forget
forget-trusted_cert w user info = kept (equal w.db_pkg info.repackaged_pkg)
  where
    kept :
        (b : Bool)
        → (if◌then◌else◌ {A = ManagerInfo} b info (record info {
          tracked_files = λ u. if u == user then none else info.tracked_files u;
        })).trusted_cert
          ≡ info.trusted_cert
    kept true = refl
    kept false = refl

-- In a build that checks signatures, if `get_manager` returns the id of a manager app, then the
-- file that is tracked for the user is as it was when it was tracked, or there is an APK with the
-- trusted certificate, which is not empty: the dynamic one of the app that the database names, or
-- the one of the app under its own name.
pub get_manager-IsSigned :
    (w : World) (user : ℕ) (install : Bool) (info : ManagerInfo) (u : ℕ)
    → w.check_signature ≡ true
    → (get_manager w user install info).uid ≡ some u
    → IsCached w user info ⊎ IsSigned w user info.trusted_cert
unfolding get_manager
get_manager-IsSigned w user install info u c h =
    by_cases ((forget w user info).tracked_files user) refl h
  where
    same_cert : (forget w user info).trusted_cert ≡ info.trusted_cert
    same_cert = forget-trusted_cert w user info

    by_cases :
        (o : Option TrackedFile)
        → (forget w user info).tracked_files user ≡ o
        → (by_file w user install (forget w user info) o).uid ≡ some u
        → IsCached w user info ⊎ IsSigned w user info.trusted_cert
    by_cases none e h = inr (
        subst (IsSigned w user) same_cert
          (from_files-IsSigned w user install (forget w user info) c (u, h)))
    by_cases (some f) e h = elim (Bool-cases (is_same w f)) [
      | inl t ↦ inl (f, e, t)
      | inr d ↦ inr (
          subst (IsSigned w user) same_cert (
            from_files-IsSigned w user install (forget w user info) c (
              u,
              subst
                  (λ b.
                    (if◌then◌else◌ {A = Answer} b
                      (from_tracked w user install f (forget w user info))
                      (from_files w user install (forget w user info))).uid
                    ≡ some u)
                  d h,
            )))
    ]
