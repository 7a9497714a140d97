-- ===== src/Core/Package/Manager/Signed.antt =====
-- The checks of native/src/core/package.rs pass what is signed with the trusted certificate.
use magisk.Prelude.{
  ℕ, ◌≡◌, refl, ◌∙◌, ◌≢◌, ◌⊎◌, inl, inr, Bool, true, false, not, ◌&&◌, ◌||◌, Option, none, some,
  List, [], ◌∷◌, arith, if◌then◌else◌, Bytes, is_empty,
}
use magisk.Base.Text.{equal, equal→eq}
use magisk.Core.Package.Manager.{
  Status, ManagerInfo, World, Effect, certificate, track, is_trusted, with_dyn, dyn_opened,
  dyn_path, check_dyn, stub_opened, stub_found, orig_opened, orig_found, installed, cert_mismatch,
  uninstall_pkg,
}

-- The file is the dynamic APK of the app that the database names, or that of the app under its own
-- name.
abbrev pub IsManagerApk : World → ℕ → Bytes → Type 0
IsManagerApk w user path =
    (path ≡ dyn_path w user w.db_pkg) ⊎ (w.apk_path w.app_package_name ≡ some path)

-- There is such an APK that can be opened and has the certificate, which is not empty.
abbrev pub IsSigned : World → ℕ → Bytes → Type 0
IsSigned w user cert =
    (path : Bytes) × (bytes : Bytes) × (uid : Option ℕ) × IsManagerApk w user path
    × (w.open_apk path ≡ some (uid, bytes))
    × (cert ≢ [])
    × (certificate w bytes (some w.ver_code) ≡ cert)

is_trusted_lem :
    (w : World) (cert : Bytes) (info : ManagerInfo)
    → w.check_signature ≡ true
    → is_trusted w cert info ≡ true
    → (cert ≢ []) × (cert ≡ info.trusted_cert)
is_trusted_lem w [] info c h = ground arith
is_trusted_lem w (b ∷ cert) info c h =
    ((λ e. cc), equal→eq (b ∷ cert) info.trusted_cert (ground arith))

-- A file that can be opened and passes the check is signed.
opened-IsSigned :
    (w : World) (user : ℕ) (info : ManagerInfo) (path bytes : Bytes) (uid : Option ℕ)
    → w.check_signature ≡ true
    → IsManagerApk w user path
    → w.open_apk path ≡ some (uid, bytes)
    → is_trusted w (certificate w bytes (some w.ver_code)) info ≡ true
    → IsSigned w user info.trusted_cert
opened-IsSigned w user info path bytes uid c m e t =
    let (filled, same_cert) = is_trusted_lem w (certificate w bytes (some w.ver_code)) info c t in
    (path, bytes, uid, m, e, (λ x. filled (same_cert ∙ x)), same_cert)

-- A check that ends in `installed` was passed.
passed :
    {X : Type 0} (status : X → Status) (b : Bool) (good bad : X)
    → status bad ≡ cert_mismatch
    → status (if b then good else bad) ≡ installed
    → b ≡ true
passed status true good bad m h = refl
passed status false good bad m h = cc

dyn_opened-IsSigned :
    (w : World) (user : ℕ) (apk : Bytes) (info : ManagerInfo) (o : Option (Option ℕ × Bytes))
    → w.check_signature ≡ true
    → IsManagerApk w user apk
    → w.open_apk apk ≡ o
    → (dyn_opened w user apk info o).1 ≡ installed
    → IsSigned w user info.trusted_cert
dyn_opened-IsSigned w user apk info none c m e h = cc
dyn_opened-IsSigned w user apk info (some (uid, bytes)) c m e h =
    opened-IsSigned w user info apk bytes uid c m e (
      passed (λ (r : ManagerInfo × Status). r.1)
        (is_trusted w (certificate w bytes (some w.ver_code)) info)
        (with_dyn w user apk uid info, installed) (info, cert_mismatch) refl h)

orig_opened-IsSigned :
    (w : World) (user : ℕ) (apk : Bytes) (info : ManagerInfo) (o : Option (Option ℕ × Bytes))
    → w.check_signature ≡ true
    → IsManagerApk w user apk
    → w.open_apk apk ≡ o
    → (orig_opened w user apk info o).1 ≡ installed
    → IsSigned w user info.trusted_cert
orig_opened-IsSigned w user apk info none c m e h = cc
orig_opened-IsSigned w user apk info (some (uid, bytes)) c m e h =
    opened-IsSigned w user info apk bytes uid c m e (
      passed (λ (r : ManagerInfo × Status × List Effect). r.1)
        (is_trusted w (certificate w bytes (some w.ver_code)) info)
        (track w user apk info, installed, [])
        (info, cert_mismatch, uninstall_pkg w.app_package_name ∷ []) refl h)

pub orig_found-IsSigned :
    (w : World) (user : ℕ) (info : ManagerInfo) (o : Option Bytes)
    → w.check_signature ≡ true
    → w.apk_path w.app_package_name ≡ o
    → (orig_found w user info o).1 ≡ installed
    → IsSigned w user info.trusted_cert
orig_found-IsSigned w user info none c e h = cc
orig_found-IsSigned w user info (some apk) c e h =
    orig_opened-IsSigned w user apk info (w.open_apk apk) c (inr e) refl h

pub check_dyn-IsSigned :
    (w : World) (user : ℕ) (info : ManagerInfo)
    → w.check_signature ≡ true
    → (check_dyn w user w.db_pkg info).1 ≡ installed
    → IsSigned w user info.trusted_cert
unfolding check_dyn
check_dyn-IsSigned w user info c h =
    let apk = dyn_path w user w.db_pkg in
    dyn_opened-IsSigned w user apk info (w.open_apk apk) c (inl refl) refl h

pub stub_found-trusted_cert :
    (w : World) (user : ℕ) (pkg : Bytes) (info : ManagerInfo) (o : Option Bytes)
    → (stub_found w user pkg info o).0.trusted_cert ≡ info.trusted_cert
stub_found-trusted_cert w user pkg info none = refl
stub_found-trusted_cert w user pkg info (some apk) = opened (w.open_apk apk)
  where
    either :
        (b : Bool) (x y : ManagerInfo × Status × List Effect)
        → x.0.trusted_cert ≡ info.trusted_cert
        → y.0.trusted_cert ≡ info.trusted_cert
        → (if◌then◌else◌ {A = ManagerInfo × Status × List Effect} b x y).0.trusted_cert
          ≡ info.trusted_cert
    either true x y h k = h
    either false x y h k = k

    opened :
        (o : Option (Option ℕ × Bytes))
        → (stub_opened w user pkg apk info o).0.trusted_cert ≡ info.trusted_cert
    opened none = refl
    opened (some (uid, bytes)) =
        either
          (is_empty (certificate w bytes none)
            || (equal pkg info.repackaged_pkg
                && not (equal (certificate w bytes none) info.repackaged_cert)))
          _ _ refl refl
