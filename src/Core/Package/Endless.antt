-- ===== src/Core/Package/Endless.antt =====
-- A pair whose length leads back to itself: `read_certificate` of native/src/core/package.rs does not
-- end.
use magisk.Prelude.{
  ℕ, zero, suc, ◌+◌, ◌-◌, ◌^◌, ◌<◌, ◌≡◌, refl, ◌∙◌, ◌≢◌, Option, ◌++◌, append_assoc, arith, Bytes,
  length, length-append,
}
use magisk.Base.Outcome.{ok, out_of_fuel}
use magisk.Core.Package.{
  apk_signing_block_magic, signature_scheme_v2_magic, seek_current, pairs_loop, read_certificate,
}
use magisk.Core.Package.Parts.{to_bytes, length-to_bytes, read_pod_mid}
use magisk.Core.Package.Found.{unequal}
use magisk.Core.Package.Whole.{eocd, apk_of, IsNoEnd, HasVersion, read_certificate-signed}

-- A length that is -8 as an `i64`, and an id.
abbrev pub endless_pair : ℕ → Bytes
endless_pair id = to_bytes 8 (2 ^ 64 - 8) ++ to_bytes 4 id

back_to_pair : (pos : ℕ) → seek_current (pos + 12) (2 ^ 64 - 8) 4 ≡ ok pos
unfolding seek_current
back_to_pair pos = ground arith

pairs_loop-endless :
    (fuel : ℕ) (apk before after : Bytes) (id sz pos : ℕ)
    → apk ≡ before ++ (endless_pair id ++ after)
    → pos ≡ length before
    → id < 2 ^ 32
    → id ≢ signature_scheme_v2_magic
    → sz < 2 ^ 63
    → pairs_loop fuel apk sz pos ≡ out_of_fuel
unfolding pairs_loop
pairs_loop-endless zero apk before after id sz pos e p small n big = refl
pairs_loop-endless (suc fuel) apk before after id sz pos e p small n big =
    rw
      (
        read_pod_mid apk before (to_bytes 4 id ++ after) (2 ^ 64 - 8) pos 8 (simp (e, append_assoc))
            p (omega arith),
        unequal (2 ^ 64 - 8) sz (omega arith),
        read_pod_mid apk (before ++ to_bytes 8 (2 ^ 64 - 8)) after id (pos + 8) 4
            (simp (e, append_assoc)) (simp (length-append, length-to_bytes) (omega arith)) small,
        unequal id signature_scheme_v2_magic n,
        back_to_pair pos,
      )
      (pairs_loop-endless fuel apk before after id sz pos e p small n big)

-- Take an APK of less than 4 GB up to its central directory, with a comment of less than 64 KB in
-- which nothing looks like the end of a central directory, and with a version that is not lower,
-- if one is asked for. If the first pair of its signing block has an id other than that of the v2
-- scheme and the length 2^64 - 8, no number of rounds is enough for `read_certificate`: it never
-- returns.
pub read_certificate-endless :
    (content more central skipped comment : Bytes) (id : ℕ) (version : Option ℕ) (fuel : ℕ)
    → length content + length (endless_pair id ++ more) + 32 < 2 ^ 32
    → length skipped ≡ 12
    → length comment < 0x10000
    → ((j : ℕ)
        → j < length comment
        → IsNoEnd (apk_of content (endless_pair id ++ more) central skipped comment) j)
    → id < 2 ^ 32
    → id ≢ signature_scheme_v2_magic
    → HasVersion comment version
    → read_certificate fuel
        (apk_of content (endless_pair id ++ more) central skipped comment)
        version
      ≡ out_of_fuel
read_certificate-endless content more central skipped comment id version fuel small s k h i n v =
    let body = endless_pair id ++ more in
    let apk = apk_of content body central skipped comment in
    read_certificate-signed content body central skipped comment version fuel small s k h v
    ∙ pairs_loop-endless fuel apk (content ++ to_bytes 8 (length body + 24))
        (more
          ++ (to_bytes 8 (length body + 24)
              ++ (apk_signing_block_magic
                  ++ (central ++ eocd skipped (length content + length body + 32) comment))))
        id (length body + 24) (length content + 8) (simp (append_assoc))
        (simp (length-append, length-to_bytes)) i n (omega arith)
