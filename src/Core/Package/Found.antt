-- ===== src/Core/Package/Found.antt =====
-- A certificate that is in an APK is found (native/src/core/package.rs).
use magisk.Prelude.{
  ℕ, zero, suc, ◌+◌, ◌-◌, ◌%◌, ◌^◌, ◌≤◌, ◌<◌, ◌≡◌, refl, sym, ap, ◌∙◌, ◌≢◌, false, List, [], ◌∷◌,
  ◌++◌, append_assoc, arith, ◌==◌, Bytes, All, length, length-append,
}
use magisk.Base.Outcome.{ok}
use magisk.Core.Package.{
  equal_refl, apk_signing_block_magic, signature_scheme_v2_magic, seek_current, seek_back,
  pairs_loop, read_signing_block,
}
use magisk.Core.Package.Parts.{to_bytes, length-to_bytes, read_exact_mid, read_pod_mid}

-- An id and a value, as they stand in the signing block.
abbrev pub pair : ℕ → Bytes → Bytes
pair id value = to_bytes 8 (4 + length value) ++ (to_bytes 4 id ++ value)

abbrev pub pairs : List (ℕ × Bytes) → Bytes
pairs [] = []
pairs ((id, value) ∷ ps) = pair id value ++ pairs ps

-- The value under the id of the v2 scheme, up to the first certificate of the first signer: three
-- lengths in front, the digests, the length of the certificates, the certificate and the rest.
abbrev pub v2_value : (a b c d : ℕ) → (digests cert rest : Bytes) → Bytes
v2_value a b c d digests cert rest =
    to_bytes 4 a
    ++ (to_bytes 4 b
        ++ (to_bytes 4 c
            ++ (to_bytes 4 (length digests)
                ++ (digests ++ (to_bytes 4 d ++ (to_bytes 4 (length cert) ++ (cert ++ rest)))))))

-- Another pair than that of the v2 scheme, which fits into the numbers.
abbrev pub IsOtherPair : ℕ × Bytes → Type 0
IsOtherPair p = (p.0 ≢ signature_scheme_v2_magic) × (p.0 < 2 ^ 32) × (length p.1 + 4 < 2 ^ 63)

pub unequal : (a b : ℕ) → a ≢ b → (a == b) ≡ false
unequal a b h = ground arith

pub length-pair : (id : ℕ) (value : Bytes) → length (pair id value) ≡ 12 + length value
length-pair id value = ground (
  arith,
  length-append (to_bytes 8 (4 + length value)) (to_bytes 4 id ++ value),
  length-append (to_bytes 4 id) value,
  length-to_bytes 8 (4 + length value),
  length-to_bytes 4 id,
)

seek_forward : (pos len : ℕ) → len + 4 < 2 ^ 63 → seek_current pos (4 + len) 4 ≡ ok (pos + len)
unfolding seek_current
seek_forward pos len h = ground arith

pairs_loop_skip :
    (fuel : ℕ) (apk before after value : Bytes) (id sz pos : ℕ)
    → apk ≡ before ++ (pair id value ++ after)
    → pos ≡ length before
    → IsOtherPair (id, value)
    → 4 + length value < sz
    → pairs_loop (suc fuel) apk sz pos ≡ pairs_loop fuel apk sz (length (before ++ pair id value))
unfolding pairs_loop seek_current
pairs_loop_skip fuel apk before after value id sz pos e p (n, small, long) lt =
    rw
      (
        read_pod_mid apk before ((to_bytes 4 id ++ value) ++ after) (4 + length value) pos 8
            (simp (e, append_assoc)) p (omega arith),
        unequal (4 + length value) sz (omega arith),
        read_pod_mid apk (before ++ to_bytes 8 (4 + length value)) (value ++ after) id (pos + 8) 4
            (simp (e, append_assoc))
            (ground (
              arith,
              length-append before (to_bytes 8 (4 + length value)),
              length-to_bytes 8 (4 + length value),
            ))
            small,
        unequal id signature_scheme_v2_magic n,
        seek_forward (pos + 12) (length value) long,
      )
      (ap (pairs_loop fuel apk sz)
        (sym (ground (arith, length-append before (pair id value), length-pair id value))))

-- The pair of the v2 scheme gives the certificate.
pairs_loop_v2 :
    (fuel : ℕ) (apk before after digests cert rest : Bytes) (a b c d sz pos : ℕ)
    → apk ≡ before ++ (pair signature_scheme_v2_magic (v2_value a b c d digests cert rest) ++ after)
    → pos ≡ length before
    → 4 + length (v2_value a b c d digests cert rest) < sz
    → length (v2_value a b c d digests cert rest) + 4 < 2 ^ 63
    → length digests < 2 ^ 32
    → length cert < 2 ^ 32
    → pairs_loop (suc fuel) apk sz pos ≡ ok cert
unfolding pairs_loop
pairs_loop_v2 fuel apk before after digests cert rest a b c d sz pos e p lt long hd hc =
    let value = v2_value a b c d digests cert rest in
    let len = to_bytes 8 (4 + length value) in
    let id = to_bytes 4 signature_scheme_v2_magic in
    let head = before ++ (len ++ (id ++ (to_bytes 4 a ++ (to_bytes 4 b ++ to_bytes 4 c)))) in
    let digest_head = head ++ (to_bytes 4 (length digests) ++ (digests ++ to_bytes 4 d)) in
    rw
      (
        read_pod_mid apk before ((id ++ value) ++ after) (4 + length value) pos 8
            (simp (e, append_assoc)) p (omega arith),
        unequal (4 + length value) sz (omega arith),
        read_pod_mid apk (before ++ len) (value ++ after) signature_scheme_v2_magic (pos + 8) 4
            (simp (e, append_assoc)) (simp (length-append, length-to_bytes) (omega arith))
            (omega arith),
        read_pod_mid apk head
            ((digests ++ (to_bytes 4 d ++ (to_bytes 4 (length cert) ++ (cert ++ rest)))) ++ after)
            (length digests) (pos + 24) 4 (simp (e, append_assoc))
            (simp (length-append, length-to_bytes) (omega arith)) hd,
        read_pod_mid apk digest_head ((cert ++ rest) ++ after) (length cert)
            (pos + 28 + length digests + 4) 4 (simp (e, append_assoc))
            (simp (length-append, length-to_bytes) (omega arith)) hc,
      )
      (read_exact_mid apk (digest_head ++ to_bytes 4 (length cert)) cert (rest ++ after)
        (pos + 28 + length digests + 8) (length cert) (simp (e, append_assoc))
        (simp (length-append, length-to_bytes) (omega arith)) refl)

-- The loop passes the other pairs and comes to that of the v2 scheme.
pub pairs_loop_found :
    (ps : List (ℕ × Bytes)) (fuel : ℕ) (apk before after digests cert rest : Bytes)
    (a b c d sz pos : ℕ)
    → apk
      ≡ before
        ++ (pairs ps
            ++ (pair signature_scheme_v2_magic (v2_value a b c d digests cert rest) ++ after))
    → pos ≡ length before
    → length ps < fuel
    → All IsOtherPair ps
    → length (pairs ps) + length (v2_value a b c d digests cert rest) + 12 < sz
    → sz < 2 ^ 63
    → length digests < 2 ^ 32
    → length cert < 2 ^ 32
    → pairs_loop fuel apk sz pos ≡ ok cert
pairs_loop_found ps zero apk before after digests cert rest a b c d sz pos e p f o lt big hd hc =
    absurd (omega (arith, f))
pairs_loop_found [] (suc fuel) apk before after digests cert rest a b c d sz pos e p f o lt big hd
      hc =
    pairs_loop_v2 fuel apk before after digests cert rest a b c d sz pos e p (omega arith)
      (omega arith) hd hc
pairs_loop_found ((id, value) ∷ ps) (suc fuel) apk before after digests cert rest a b c d sz pos e p
      f o lt big hd hc =
    let v2 = pair signature_scheme_v2_magic (v2_value a b c d digests cert rest) in
    let shorter : length (pairs ps) + (12 + length value) ≡ length (pair id value ++ pairs ps) =
      ground (arith, length-append (pair id value) (pairs ps), length-pair id value) in
    pairs_loop_skip fuel apk before (pairs ps ++ (v2 ++ after)) value id sz pos
      (simp (e, append_assoc)) p o.0 (omega arith)
    ∙ pairs_loop_found ps fuel apk (before ++ pair id value) after digests cert rest a b c d sz
        (length (before ++ pair id value)) (simp (e, append_assoc)) refl (omega arith) o.1
        (omega arith) big hd hc

-- The signing block: its size, the pairs, the size again and the magic number.
abbrev pub signing_block : Bytes → Bytes
signing_block body =
    to_bytes 8 (length body + 24)
    ++ (body ++ (to_bytes 8 (length body + 24) ++ apk_signing_block_magic))

pub length-signing_block : (body : Bytes) → length (signing_block body) ≡ length body + 32
length-signing_block body = simp (length-append, length-to_bytes) (omega arith)

back_to_start :
    (content body : ℕ)
    → body + 24 < 2 ^ 63
    → seek_back (content + body + 8 + 24) (body + 24) 8 ≡ ok content
unfolding seek_back
back_to_start content body h = ground arith

wraps_back : (off : ℕ) → 24 ≤ off → off < 2 ^ 32 → (off + (2 ^ 32 - 24)) % 2 ^ 32 ≡ off - 24
wraps_back off h k = omega arith

-- The signing block in front of the central directory leads to the loop over its pairs.
pub read_signing_block_lem :
    (fuel : ℕ) (apk content body after : Bytes)
    → apk ≡ content ++ (signing_block body ++ after)
    → length body + 24 < 2 ^ 63
    → length content + length body + 32 < 2 ^ 32
    → read_signing_block fuel apk (length content + length body + 32)
      ≡ pairs_loop fuel apk (length body + 24) (length content + 8)
unfolding read_signing_block
read_signing_block_lem fuel apk content body after e h k =
    let sz = to_bytes 8 (length body + 24) in
    let footer : length content + length body + 32 - 24 ≡ length content + length body + 8 =
      omega arith in
    rw
      (
        wraps_back (length content + length body + 32) (omega arith) k,
        footer,
        read_pod_mid apk (content ++ (sz ++ body)) (apk_signing_block_magic ++ after)
            (length body + 24) (length content + length body + 8) 8 (simp (e, append_assoc))
            (simp (length-append, length-to_bytes) (omega arith)) (omega arith),
        read_exact_mid apk (content ++ (sz ++ (body ++ sz))) apk_signing_block_magic after
            (length content + length body + 8 + 8) 16 (simp (e, append_assoc))
            (simp (length-append, length-to_bytes) (omega arith)) refl,
        equal_refl apk_signing_block_magic,
        back_to_start (length content) (length body) h,
        read_pod_mid apk content ((body ++ (sz ++ apk_signing_block_magic)) ++ after)
            (length body + 24) (length content) 8 (simp (e, append_assoc)) refl (omega arith),
      )
      (ground arith)
