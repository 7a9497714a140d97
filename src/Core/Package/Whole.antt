-- ===== src/Core/Package/Whole.antt =====
-- The certificate of a whole APK is found (native/src/core/package.rs).
use magisk.Prelude.{
  ℕ, zero, suc, ◌+◌, ◌-◌, ◌^◌, ◌≤◌, ◌<◌, ◌≡◌, refl, ap, ◌∙◌, ◌≢◌, ◌⊎◌, inl, inr, Option, none, some,
  List, [], ◌++◌, append-nil, append_assoc, arith, Bytes, All, length, take, drop, length-append,
}
use magisk.Base.Outcome.{ok}
use magisk.Core.Package.{
  eocd_magic, apk_signing_block_magic, signature_scheme_v2_magic, little_endian, read_exact,
  read_pod, find_eocd, apk_version, check_version, pairs_loop, read_certificate,
}
use magisk.Core.Package.Parts.{to_bytes, length-to_bytes, read_exact_mid, read_pod_mid}
use magisk.Core.Package.Found.{
  pair, pairs, v2_value, IsOtherPair, length-pair, pairs_loop_found, signing_block,
  read_signing_block_lem,
}

-- The end of the central directory, with the offset of its start and a comment; twelve bytes are
-- not looked at.
abbrev pub eocd : (skipped : Bytes) → (central_dir_off : ℕ) → (comment : Bytes) → Bytes
eocd skipped central_dir_off comment =
    to_bytes 4 eocd_magic
    ++ (skipped ++ (to_bytes 4 central_dir_off ++ (to_bytes 2 (length comment) ++ comment)))

-- A signed APK.
abbrev pub apk_of : (content body central skipped comment : Bytes) → Bytes
apk_of content body central skipped comment =
    content
    ++ (signing_block body ++ (central ++ eocd skipped (length content + length body + 32) comment))

-- At this distance from the end there is no size and magic number that look like the end of a
-- central directory.
abbrev pub IsNoEnd : Bytes → ℕ → Type 0
IsNoEnd apk i =
    (read_pod apk (length apk - (2 + i)) 2 ≢ ok i)
    ⊎ (read_pod apk (length apk - (i + 22)) 4 ≢ ok eocd_magic)

in_range :
    (apk : Bytes) (pos len : ℕ) → pos + len ≤ length apk → (n : ℕ) × (read_pod apk pos len ≡ ok n)
unfolding read_pod read_exact
in_range apk pos len h = (little_endian (take len (drop pos apk)), ground arith)

-- A round of the search that finds nothing goes on.
find_eocd_next :
    (rounds i : ℕ) (apk : Bytes)
    → i + 22 ≤ length apk
    → IsNoEnd apk i
    → find_eocd (suc rounds) i apk ≡ find_eocd rounds (i + 1) apk
unfolding find_eocd
find_eocd_next rounds i apk h none_here =
    let (n, en) = in_range apk (length apk - (2 + i)) 2 (omega arith) in
    let (m, em) = in_range apk (length apk - (i + 22)) 4 (omega arith) in
    let apart : (n ≢ i) ⊎ (m ≢ eocd_magic) = elim none_here [
      | inl f ↦ inl (λ e. f (en ∙ ap ok e))
      | inr f ↦ inr (λ e. f (em ∙ ap ok e))
    ] in
    rw (en, em) (ground arith)

-- The search comes to the end of the central directory.
pub find_eocd-eocd :
    (before skipped comment apk : Bytes) (off left i rounds : ℕ)
    → apk ≡ before ++ eocd skipped off comment
    → length skipped ≡ 12
    → i + left ≡ length comment
    → left < rounds
    → length comment < 0x10000
    → ((j : ℕ) → j < length comment → IsNoEnd apk j)
    → find_eocd rounds i apk ≡ ok (length before + 4)
unfolding find_eocd
find_eocd-eocd before skipped comment apk off left i zero e s k r c h = absurd (omega (arith, r))
find_eocd-eocd before skipped comment apk off zero i (suc rounds) e s k r c h =
    let size : length apk ≡ length before + 22 + length comment =
      rw e (simp (length-append, length-to_bytes) (omega arith)) in
    rw
      (
        read_pod_mid apk (before ++ (to_bytes 4 eocd_magic ++ (skipped ++ to_bytes 4 off))) comment
            (length comment) (length apk - (2 + i)) 2 (simp (e, append_assoc))
            (simp (length-append, length-to_bytes) (omega arith)) (omega arith),
        read_pod_mid apk before
            (skipped ++ (to_bytes 4 off ++ (to_bytes 2 (length comment) ++ comment))) eocd_magic
            (length apk - (i + 22)) 4 e (omega arith) (omega arith),
      )
      (ground arith)
find_eocd-eocd before skipped comment apk off (suc left) i (suc rounds) e s k r c h =
    let size : length apk ≡ length before + 22 + length comment =
      rw e (simp (length-append, length-to_bytes) (omega arith)) in
    find_eocd_next rounds i apk (omega arith) (h i (omega arith))
    ∙ find_eocd-eocd before skipped comment apk off left (i + 1) rounds e s (omega arith)
        (omega arith) c h

-- The version is not asked for, or the comment has one that is not lower.
abbrev pub HasVersion : Bytes → Option ℕ → Type 0
HasVersion comment none = Unit
HasVersion comment (some version) = (n : ℕ) × (apk_version comment ≡ some n) × version ≤ n

pub check_version-eocd :
    (before skipped comment apk : Bytes) (off pos : ℕ) (version : Option ℕ)
    → apk ≡ before ++ eocd skipped off comment
    → length skipped ≡ 12
    → pos ≡ length before + 20
    → length comment < 0x10000
    → HasVersion comment version
    → check_version apk pos version ≡ ok tt
unfolding check_version
check_version-eocd before skipped comment apk off pos none e s p c v = refl
check_version-eocd before skipped comment apk off pos (some version) e s p c (n, v, le) =
    let head = before ++ (to_bytes 4 eocd_magic ++ (skipped ++ to_bytes 4 off)) in
    rw
      (
        read_pod_mid apk head comment (length comment) pos 2 (simp (e, append_assoc))
            (simp (length-append, length-to_bytes) (omega arith)) (omega arith),
        read_exact_mid apk (head ++ to_bytes 2 (length comment)) comment [] (pos + 2)
            (length comment) (simp (e, append_assoc, append-nil))
            (simp (length-append, length-to_bytes) (omega arith)) refl,
      )
      (ground arith)

-- In a signed APK, everything leads to the loop over the pairs.
pub read_certificate-signed :
    (content body central skipped comment : Bytes) (version : Option ℕ) (fuel : ℕ)
    → length content + length body + 32 < 2 ^ 32
    → length skipped ≡ 12
    → length comment < 0x10000
    → ((j : ℕ) → j < length comment → IsNoEnd (apk_of content body central skipped comment) j)
    → HasVersion comment version
    → read_certificate fuel (apk_of content body central skipped comment) version
      ≡ pairs_loop fuel
          (apk_of content body central skipped comment)
          (length body + 24)
          (length content + 8)
unfolding read_certificate
read_certificate-signed content body central skipped comment version fuel small s k h v =
    let off = length content + length body + 32 in
    let apk = apk_of content body central skipped comment in
    let before = content ++ (signing_block body ++ central) in
    let whole : apk ≡ before ++ eocd skipped off comment = simp (append_assoc) in
    rw
      (
        find_eocd-eocd before skipped comment apk off (length comment) 0 0x10000 whole s
            (omega arith) (omega arith) k h,
        read_pod_mid apk (before ++ (to_bytes 4 eocd_magic ++ skipped))
            (to_bytes 2 (length comment) ++ comment) off (length before + 4 + 12) 4
            (whole ∙ simp (append_assoc)) (simp (length-append, length-to_bytes) (omega arith))
            small,
        check_version-eocd before skipped comment apk off (length before + 4 + 16) version whole s
            (omega arith) k v,
        read_signing_block_lem fuel apk content body (central ++ eocd skipped off comment) refl
            (omega arith) small,
      )
      refl

-- The bytes of the pairs, with that of the v2 scheme behind the others.
abbrev pub signed_body : (ps : List (ℕ × Bytes)) (a b c d : ℕ) (digests cert rest : Bytes) → Bytes
signed_body ps a b c d digests cert rest =
    pairs ps ++ pair signature_scheme_v2_magic (v2_value a b c d digests cert rest)

length-v2_value :
    (a b c d : ℕ) (digests cert rest : Bytes)
    → length (v2_value a b c d digests cert rest) ≡ 24 + length digests + length cert + length rest
length-v2_value a b c d digests cert rest = simp (length-append, length-to_bytes) (omega arith)

-- Take an APK of less than 4 GB up to its central directory, with a signing block of pairs of
-- other ids than that of the v2 scheme and then a pair of the v2 scheme, and with a comment of
-- less than 64 KB in which nothing looks like the end of a central directory. If no version is
-- asked for or the comment has one that is not lower, `read_certificate` gives the certificate of
-- the first signer, in as many rounds as there are pairs.
pub read_certificate-apk_of :
    (content central skipped comment : Bytes) (ps : List (ℕ × Bytes)) (a b c d : ℕ)
    (digests cert rest : Bytes) (version : Option ℕ) (fuel : ℕ)
    → length content + length (signed_body ps a b c d digests cert rest) + 32 < 2 ^ 32
    → length skipped ≡ 12
    → length comment < 0x10000
    → ((j : ℕ)
        → j < length comment
        → IsNoEnd
            (apk_of content (signed_body ps a b c d digests cert rest) central skipped comment)
            j)
    → All IsOtherPair ps
    → HasVersion comment version
    → length ps < fuel
    → read_certificate fuel
        (apk_of content (signed_body ps a b c d digests cert rest) central skipped comment)
        version
      ≡ ok cert
read_certificate-apk_of content central skipped comment ps a b c d digests cert rest version fuel
      small s k h o v f =
    let body = signed_body ps a b c d digests cert rest in
    let apk = apk_of content body central skipped comment in
    let v2 = pair signature_scheme_v2_magic (v2_value a b c d digests cert rest) in
    let tail = to_bytes 8 (length body + 24) ++ apk_signing_block_magic in
    let size : length body
        ≡ length (pairs ps) + 12 + (24 + length digests + length cert + length rest) =
      ground (
        arith,
        length-append (pairs ps) v2,
        length-pair signature_scheme_v2_magic (v2_value a b c d digests cert rest),
        length-v2_value a b c d digests cert rest,
      ) in
    read_certificate-signed content body central skipped comment version fuel small s k h v
    ∙ pairs_loop_found ps fuel apk (content ++ to_bytes 8 (length body + 24))
        (tail ++ (central ++ eocd skipped (length content + length body + 32) comment)) digests cert
        rest a b c d (length body + 24) (length content + 8) (simp (append_assoc))
        (simp (length-append, length-to_bytes)) f o
        (omega (arith, size, length-v2_value a b c d digests cert rest)) (omega arith)
        (omega (arith, size)) (omega (arith, size))
