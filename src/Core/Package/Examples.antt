-- ===== src/Core/Package/Examples.antt =====
-- Runs of the definitions for native/src/core/package.rs.
use magisk.Prelude.{
  ℕ, ◌≡◌, refl, ◌⊎◌, true, false, none, some, List, [], ◌∷◌, ◌++◌, arith, if◌then◌else◌, Bytes,
  replicate,
}
use magisk.Base.Text.{codes, equal, starts_with, ends_with, split}
use magisk.Base.Utf8.{is_utf8}
use magisk.Base.Outcome.{ok, out_of_fuel}
use magisk.Sepolicy.Lexer.{space_len, split_once}
use magisk.Core.Package.{
  seek_current, pairs_loop, seek_back, read_signing_block, check_version, little_endian, read_exact,
  read_pod, find_eocd, trim_start, trim_end, find_prop, digits, parse_version, apk_version,
  read_certificate,
}
use magisk.Core.Package.Parts.{to_bytes}
use magisk.Core.Package.Whole.{apk_of, signed_body, read_certificate-apk_of}
use magisk.Core.Package.Endless.{endless_pair, read_certificate-endless}
use magisk.Core.Module.Tree.{append_path}
use magisk.Core.Package.Manager.{
  ManagerInfo, World, certificate, tracked, user_digits, data_dir, check_orig,
}
use magisk.Core.Package.Manager.Lookup.{original, from_original, from_files, forget, get_manager}
use magisk.Core.Package.Manager.Signed.{IsSigned}
use magisk.Core.Package.Manager.Trusted.{IsCached, get_manager-IsSigned}

abbrev content : Bytes
content = codes "PK.."

abbrev central : Bytes
central = codes "dir"

abbrev skipped : Bytes
skipped = replicate 12 0

abbrev cert : Bytes
cert = codes "cert"

abbrev other_pairs : List (ℕ × Bytes)
other_pairs = (0x42726577, codes "pad") ∷ []

-- The version in a comment, with spaces and another property around.
apk_version_run : apk_version (codes "# c\n version=1\n versionCode = 30600 \n") ≡ some 30600
unfolding apk_version find_prop parse_version digits trim_end trim_start space_len split_once split
    starts_with equal is_utf8
apk_version_run = refl

read_certificate-apk_of_example :
    read_certificate 2
      (apk_of content (signed_body other_pairs 1 2 3 4 (codes "sha") cert []) central skipped [])
      (some 0)
    ≡ ok cert
unfolding to_bytes apk_version find_prop split is_utf8 trim_end trim_start starts_with split_once
read_certificate-apk_of_example =
    read_certificate-apk_of content central skipped [] other_pairs 1 2 3 4 (codes "sha") cert []
      (some 0) 2 (omega arith) refl (omega arith) (λ j h. absurd (omega (arith, h)))
      (((omega arith), (omega arith), (omega arith)), tt) (0, refl, (omega arith)) (omega arith)

read_certificate-endless_example :
    read_certificate 1000 (apk_of content (endless_pair 5 ++ []) central skipped []) none
    ≡ out_of_fuel
unfolding to_bytes
read_certificate-endless_example =
    read_certificate-endless content [] central skipped [] 5 none 1000 (omega arith) refl
      (omega arith) (λ j h. absurd (omega (arith, h))) (omega arith) (omega arith) tt

abbrev signed_apk : Bytes
signed_apk =
    apk_of content (signed_body other_pairs 1 2 3 4 (codes "sha") cert []) central skipped []

-- A device with the app under its own name.
abbrev world : World
world = record {
  ctime = λ path. some 7;
  open_apk = λ path.
      if equal path (codes "/data/app/m/base.apk") then some (some 1000, signed_apk) else none;
  apk_path = λ pkg. some (codes "/data/app/m/base.apk");
  app_data_dir = codes "/data/user";
  owner = λ path. if equal path (codes "/data/user/10/com.m") then some 1010050 else none;
  db_pkg = [];
  emulator = false;
  check_signature = true;
  ver_code = 0;
  app_package_name = codes "com.m";
  fuel = 5;
}

abbrev manager_info : ManagerInfo
manager_info = record {
  has_stub = true;
  trusted_cert = cert;
  repackaged_app_id = none;
  repackaged_pkg = [];
  repackaged_cert = [];
  tracked_files = λ user. none;
}

get_manager-IsSigned_example : IsCached world 10 manager_info ⊎ IsSigned world 10 cert
unfolding get_manager forget from_files from_original check_orig original certificate
    read_certificate find_eocd read_pod read_exact little_endian to_bytes check_version
    read_signing_block seek_back pairs_loop seek_current apk_version find_prop split is_utf8
    trim_end trim_start space_len starts_with split_once equal data_dir user_digits append_path
    ends_with tracked parse_version
get_manager-IsSigned_example = get_manager-IsSigned world 10 false manager_info 1010050 refl refl
