-- ===== src/Core/Package/Parts.antt =====
-- Reading from an APK whose bytes are known in parts (native/src/core/package.rs).
use magisk.Prelude.{
  ℕ, zero, suc, ◌+◌, ◌*◌, ◌/◌, ◌%◌, ◌^◌, ◌<◌, ◌≡◌, refl, sym, ap, [], ◌∷◌, ◌++◌, arith, Bytes,
  length, length-append, take-append_left, drop-append_left,
}
use native.Mathlib.Numerals.{unary_clauses}
use magisk.Base.Outcome.{ok}
use magisk.Core.Package.{little_endian, read_exact, read_pod}

-- A number of so many bytes, the low one first.
unfoldable pub to_bytes : ℕ → ℕ → Bytes
to_bytes zero n = []
to_bytes (suc len) n = (n % 256) ∷ to_bytes len (n / 256)

pub length-to_bytes : (len n : ℕ) → length (to_bytes len n) ≡ len
unfolding to_bytes
length-to_bytes zero n = refl
length-to_bytes (suc len) n = ground (arith, length-to_bytes len (n / 256))

split_digit : (n : ℕ) → n ≡ n % 256 + 256 * (n / 256)
split_digit n = omega arith

pub little_endian-to_bytes : (len n : ℕ) → n < 256 ^ len → little_endian (to_bytes len n) ≡ n
unfolding little_endian to_bytes
little_endian-to_bytes zero n h = omega arith
little_endian-to_bytes (suc len) n h =
    let smaller : n / 256 < 256 ^ len = shrink (256 ^ len) n (simp unary_clauses at h) in
    ground (arith, little_endian-to_bytes len (n / 256) smaller, split_digit n)
  where
    shrink : (q n : ℕ) → n < q * 256 → n / 256 < q
    shrink q n h = omega arith

pub read_exact_mid :
    (apk before mid after : Bytes) (pos len : ℕ)
    → apk ≡ before ++ (mid ++ after)
    → pos ≡ length before
    → len ≡ length mid
    → read_exact apk pos len ≡ ok mid
unfolding read_exact
read_exact_mid apk before mid after pos len e p l =
    rw (e, p, l)
      (ground (
        arith,
        drop-append_left before (mid ++ after),
        take-append_left mid after,
        length-append before (mid ++ after),
        length-append mid after,
      ))

pub read_pod_mid :
    (apk before after : Bytes) (n pos len : ℕ)
    → apk ≡ before ++ (to_bytes len n ++ after)
    → pos ≡ length before
    → n < 256 ^ len
    → read_pod apk pos len ≡ ok n
unfolding read_pod
read_pod_mid apk before after n pos len e p h =
    rw (read_exact_mid apk before (to_bytes len n) after pos len e p (sym (length-to_bytes len n)))
      (ap ok (little_endian-to_bytes len n h))
