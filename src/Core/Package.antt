-- ===== src/Core/Package.antt =====
-- `read_certificate` of native/src/core/package.rs: the certificate in the signing block of an APK.
pub mod Parts
pub mod Found
pub mod Whole
pub mod Endless
pub mod Manager
pub mod Examples
use magisk.Prelude.{
  ℕ, zero, suc, ◌+◌, ◌-◌, ◌*◌, ◌/◌, ◌%◌, ◌^◌, ◌≤◌, ◌<◌, Ordering, compare, bit_and, bit_or, ◌≡◌,
  refl, sym, ap, ap₂, ◌∙◌, fun_ext, ◌≢◌, ◌↔◌, ◌⊎◌, inl, inr, Bool, true, false, not, ◌&&◌, ◌||◌,
  Option, none, some, List, [], ◌∷◌, ◌++◌, map, append-nil, append_assoc, arith, ltb, leb, ◌==◌,
  if◌then◌else◌, ltb→lt, lt→ltb, ltb→le, leb→le, le→leb, ==_iff, tests, Bool-cases, Option-cases,
  Bytes, All, length, take, drop, replicate, is_empty, all_of, length-append, length-replicate,
  take-append-drop, length-take, length-drop, take-append_left, drop-append_left, take_all,
  drop_all, set, set-append,
}
use magisk.Base.Text.{
  codes, equal, starts_with, strip_prefix, ends_with, find, push_head, split, non_empty, join,
  Lacks, IsPart, equal_refl, equal→eq, starts_with-append, starts_with_split, strip_prefix-append,
  ends_with-append, split_part, split_last, parts-IsPart, parts-join, find_front,
}
use magisk.Base.Utf8.{is_utf8}
use magisk.Base.Outcome.{Outcome, ◌>>=◌, ◌>>◌, >>=-eq-ok, ok, fail, panic, out_of_fuel}
use magisk.Sepolicy.Lexer.{space_len, split_once}

abbrev pub eocd_magic : ℕ
eocd_magic = 0x06054B50

abbrev pub apk_signing_block_magic : Bytes
apk_signing_block_magic = codes "APK Sig Block 42"

abbrev pub signature_scheme_v2_magic : ℕ
signature_scheme_v2_magic = 0x7109871A

-- A number in the order of its bytes on the devices, the low one first.
unfoldable pub little_endian : Bytes → ℕ
little_endian [] = 0
little_endian (b ∷ bytes) = b + 256 * little_endian bytes

-- `read_exact` at a position.
unfoldable pub read_exact : Bytes → ℕ → ℕ → Outcome Bytes
read_exact apk pos len = if leb (pos + len) (length apk) then ok (take len (drop pos apk)) else fail

-- `read_pod` of a number of so many bytes.
unfoldable pub read_pod : Bytes → ℕ → ℕ → Outcome ℕ
unfolding read_exact little_endian
read_pod apk pos len = read_exact apk pos len >>= λ bytes. ok (little_endian bytes)

-- `seek(SeekFrom::Current(x as i64 - back))`, where `x` has 64 bits: the upper half is negative. A
-- position far behind the end may be refused at once; here the next read fails.
unfoldable pub seek_current : ℕ → ℕ → ℕ → Outcome ℕ
seek_current pos x back =
    if ltb x (2 ^ 63)
    then if ltb (pos + x) back then fail else ok (pos + x - back)
    else if ltb (pos + x) (2 ^ 64 + back)
    then fail
    else ok (pos + x - (2 ^ 64 + back))

-- `seek(SeekFrom::Current(-(x as i64) - back))`
unfoldable pub seek_back : ℕ → ℕ → ℕ → Outcome ℕ
seek_back pos x back =
    if ltb x (2 ^ 63)
    then if ltb pos (x + back) then fail else ok (pos - (x + back))
    else if ltb (pos + (2 ^ 64 - x)) back
    then fail
    else ok (pos + (2 ^ 64 - x) - back)

-- The search for the end of the central directory: `i` and the rounds that are left. It gives the
-- position behind the magic number.
unfoldable pub find_eocd : (rounds i : ℕ) → Bytes → Outcome ℕ
unfolding read_pod
find_eocd zero i apk = fail
find_eocd (suc rounds) i apk =
    let next = find_eocd rounds (i + 1) apk in
    if ltb (length apk) (2 + i)
    then fail
    else read_pod apk (length apk - (2 + i)) 2 >>= λ comment_sz.
        if comment_sz == i
        then if ltb (length apk) (i + 22)
          then fail
          else (read_pod apk (length apk - (i + 22)) 4 >>= λ magic.
              if magic == eocd_magic then ok (length apk - (i + 22) + 4) else next)
        else next

-- `line.trim()`
unfoldable pub trim_start : ℕ → Bytes → Bytes
unfolding space_len
trim_start skip [] = []
trim_start (suc skip) (c ∷ s) = trim_start skip s
trim_start zero (c ∷ s) = elim (space_len (c ∷ s)) [ zero ↦ c ∷ s | suc skip ↦ trim_start skip s ]

unfoldable pub trim_end : Bytes → Bytes
unfolding trim_start
trim_end [] = []
trim_end (c ∷ s) = let rest = trim_end s in if is_empty (trim_start 0 (c ∷ s)) then [] else c ∷ rest

abbrev pub trim : Bytes → Bytes
trim line = trim_end (trim_start 0 line)

-- `for_each_prop`, for a closure that looks for one key: its value. A line that is no UTF-8 ends it.
unfoldable pub find_prop : Bytes → List Bytes → Option Bytes
unfolding trim_end split_once
find_prop key [] = none
find_prop key (line ∷ lines) =
    let rest = find_prop key lines in
    if not (is_utf8 line)
    then none
    else if starts_with (trim line) (codes "#")
    then rest
    else elim (split_once b'=' (trim line)) [
      | none ↦ rest
      | some (k, v) ↦ if equal (trim k) key then some (trim v) else rest
    ]

-- The digits of an `i32`, up to a largest number.
unfoldable pub digits : (limit n : ℕ) → Bytes → Option ℕ
digits limit n [] = some n
digits limit n (c ∷ s) =
    let n' = n * 10 + (c - b'0') in
    let rest = digits limit n' s in if leb b'0' c && leb c b'9' && leb n' limit then rest else none

-- `v.parse::<i32>().unwrap_or(0)`, none where that is negative.
unfoldable pub parse_version : Bytes → Option ℕ
unfolding digits
parse_version [] = some 0
parse_version (c ∷ []) = if leb b'0' c && leb c b'9' then some (c - b'0') else some 0
parse_version (c ∷ d ∷ s) =
    if c == b'-'
    then elim (digits (2 ^ 31) 0 (d ∷ s)) [
      | none ↦ some 0
      | some zero ↦ some 0
      | some (suc n) ↦ none
    ]
    else elim (digits (2 ^ 31 - 1) 0 (if c == b'+' then d ∷ s else c ∷ d ∷ s)) [
      | none ↦ some 0
      | some n ↦ some n
    ]

unfoldable pub apk_version : Bytes → Option ℕ
unfolding find_prop parse_version
apk_version comment = elim (find_prop (codes "versionCode") (split 10 comment)) [
  | none ↦ some 0
  | some v ↦ parse_version v
]

-- The check of the version, at the size of the comment; `none` is a negative version, which is not
-- checked.
unfoldable pub check_version : Bytes → ℕ → Option ℕ → Outcome (Unit {0})
unfolding read_pod apk_version
check_version apk pos none = ok tt
check_version apk pos (some version) = read_pod apk pos 2 >>= λ comment_sz.
    read_exact apk (pos + 2) comment_sz >>= λ comment. elim (apk_version comment) [
      | none ↦ fail
      | some apk_ver ↦ if ltb apk_ver version then fail else ok tt
    ]

-- The loop over the pairs of an id and a value. Nothing keeps it from going back, so it is on fuel.
unfoldable pub pairs_loop : (fuel : ℕ) → Bytes → (signing_blk_sz pos : ℕ) → Outcome Bytes
unfolding read_pod seek_current
pairs_loop zero apk signing_blk_sz pos = out_of_fuel
pairs_loop (suc fuel) apk signing_blk_sz pos =
    let next : ℕ → Outcome Bytes = λ p. pairs_loop fuel apk signing_blk_sz p in
    read_pod apk pos 8 >>= λ len.
    if len == signing_blk_sz
    then fail
    else read_pod apk (pos + 8) 4 >>= λ id.
        if id == signature_scheme_v2_magic
        then (read_pod apk (pos + 24) 4 >>= λ digest_len.
            read_pod apk (pos + 28 + digest_len + 4) 4 >>= λ cert_len.
            read_exact apk (pos + 28 + digest_len + 8) cert_len)
        else seek_current (pos + 12) len 4 >>= next

-- What follows the search, with the offset of the central directory. The subtraction of 24 wraps
-- around in 32 bits, as in a release build.
unfoldable pub read_signing_block : (fuel : ℕ) → Bytes → (central_dir_off : ℕ) → Outcome Bytes
unfolding read_pod seek_back pairs_loop
read_signing_block fuel apk central_dir_off =
    let footer = (central_dir_off + (2 ^ 32 - 24)) % 2 ^ 32 in
    read_pod apk footer 8 >>= λ block_sz. read_exact apk (footer + 8) 16 >>= λ magic.
    if not (equal magic apk_signing_block_magic)
    then fail
    else seek_back (footer + 24) block_sz 8 >>= λ start. read_pod apk start 8 >>= λ signing_blk_sz.
        if signing_blk_sz == block_sz then pairs_loop fuel apk block_sz (start + 8) else fail

-- The certificate, before an error becomes an empty one.
unfoldable pub read_certificate : (fuel : ℕ) → Bytes → (version : Option ℕ) → Outcome Bytes
unfolding find_eocd check_version read_signing_block
read_certificate fuel apk version = find_eocd 0x10000 0 apk >>= λ pos.
    read_pod apk (pos + 12) 4 >>= λ central_dir_off.
    check_version apk (pos + 16) version >> read_signing_block fuel apk central_dir_off
