-- ===== src/Boot/Cpio/Archive/RoundTrip.antt =====
-- What `dump` of native/src/boot/cpio.rs writes, `load_from_data` reads back.
use magisk.Prelude.{
  ℕ, zero, suc, ◌+◌, ◌-◌, ◌^◌, ◌<◌, ◌≡◌, refl, ap, ◌∙◌, Option, none, some, [], ◌∷◌, ◌++◌,
  append_assoc, arith, Bytes, All, length, length-append, length-replicate,
}
use native.Mathlib.Nat.{add_assoc}
use magisk.Base.Map.{IsSorted, get, insert, extend, extend-IsSorted, or_else, get-extend, map_ext}
use magisk.Base.Outcome.{ok}
use magisk.Boot.Cpio.{CpioEntry, Cpio}
use magisk.Boot.Cpio.Paths.{align_4, align_4_lem}
use magisk.Boot.Cpio.Archive.{
  hdr_sz, trailer, load_round, load_loop, load_from_data, header, zeros, entry_header, dump_loop,
  dump, next, break,
}
use magisk.Boot.Cpio.Archive.Headers.{length-header}
use magisk.Boot.Cpio.Archive.Rounds.{
  Fits, body, past, length-entry_header, load_round_lem, load_round-trailer,
}

-- The bytes of one entry, with the positions of `load_round`.
dump_loop_cons :
    (pos inode : ℕ) (name : Bytes) (e : CpioEntry) (es : Cpio)
    → Fits name e
    → inode < 2 ^ 32
    → dump_loop pos inode ((name, e) ∷ es)
      ≡ entry_header inode name e
        ++ (name
            ++ (0
                ∷ (zeros (body pos name - (pos + hdr_sz + (length name + 1)))
                    ++ (e.content
                        ++ (zeros (past pos name e - (body pos name + length e.content))
                            ++ dump_loop (past pos name e) (inode + 1) es)))))
unfolding dump_loop
dump_loop_cons pos inode name e es f small =
    rw (length-entry_header inode name e f small, add_assoc (pos + hdr_sz) (length name) 1)

dump_loop_nil :
    (pos inode : ℕ)
    → inode < 2 ^ 32
    → dump_loop pos inode []
      ≡ header inode 0o755 0 0 1 0 0 0 11
        ++ (trailer ++ (0 ∷ zeros (align_4 (pos + hdr_sz + 11) - (pos + hdr_sz + 11))))
unfolding dump_loop
dump_loop_nil pos inode small = rw (
    length-header inode 0o755 0 0 1 0 0 0 11 small (omega arith) (omega arith) (omega arith)
      (omega arith) (omega arith) (omega arith) (omega arith) (omega arith))

load_loop_next :
    (fuel : ℕ) (text : Bytes) (pos : ℕ) (cpio : Cpio) {pos' : ℕ} {cpio' : Cpio}
    → pos < length text
    → load_round text pos cpio ≡ ok (next pos' cpio')
    → load_loop (suc fuel) text pos cpio ≡ load_loop fuel text pos' cpio'
unfolding load_loop
load_loop_next fuel text pos cpio h e = ground arith

load_loop_break :
    (fuel : ℕ) (text : Bytes) (pos : ℕ) (cpio : Cpio) {cpio' : Cpio}
    → pos < length text
    → load_round text pos cpio ≡ ok (break cpio')
    → load_loop (suc fuel) text pos cpio ≡ ok cpio'
unfolding load_loop
load_loop_break fuel text pos cpio h e = ground arith

-- What stands behind a non-empty text is behind its start.
starts_inside :
    (text pre a b : Bytes) (pos : ℕ)
    → text ≡ pre ++ (a ++ b)
    → pos ≡ length pre
    → 0 < length a
    → pos < length text
starts_inside text pre a b pos split at h =
    omega (arith, ap length split, length-append pre (a ++ b), length-append a b)

length-zeros : (n : ℕ) → length (zeros n) ≡ n
length-zeros n = length-replicate {A = ℕ} n 0

length-entry :
    (pre head name pad content pad' : Bytes)
    → length (pre ++ (head ++ (name ++ (0 ∷ (pad ++ (content ++ pad'))))))
      ≡ length pre + length head + (length name + 1) + length pad + length content + length pad'
length-entry pre head name pad content pad' = omega (
  arith,
  length-append pre (head ++ (name ++ (0 ∷ (pad ++ (content ++ pad'))))),
  length-append head (name ++ (0 ∷ (pad ++ (content ++ pad')))),
  length-append name (0 ∷ (pad ++ (content ++ pad'))),
  length-append pad (content ++ pad'),
  length-append content pad',
)

load_loop-dump_loop :
    (fuel : ℕ) (text pre : Bytes) (pos inode : ℕ) (es acc : Cpio)
    → text ≡ pre ++ dump_loop pos inode es
    → pos ≡ length pre
    → All (λ p. Fits p.0 p.1) es
    → inode + length es < 2 ^ 32
    → length es < fuel
    → load_loop fuel text pos acc ≡ ok (extend acc es)
unfolding load_loop extend
load_loop-dump_loop zero text pre pos inode es acc split at fits small h = absurd (omega arith)
load_loop-dump_loop (suc fuel) text pre pos inode [] acc split at fits small h =
    let head = header inode 0o755 0 0 1 0 0 0 11 in
    let n = align_4 (pos + hdr_sz + 11) - (pos + hdr_sz + 11) in
    let little : inode < 2 ^ 32 = omega arith in
    let split' : text ≡ pre ++ (head ++ (trailer ++ (0 ∷ zeros n))) =
      split ∙ ap (◌++◌ pre) (dump_loop_nil pos inode little) in
    let size =
      length-header inode 0o755 0 0 1 0 0 0 11 little (omega arith) (omega arith) (omega arith)
        (omega arith) (omega arith) (omega arith) (omega arith) (omega arith) in
    load_loop_break fuel text pos acc
      (starts_inside text pre head (trailer ++ (0 ∷ zeros n)) pos split' at (omega (arith, size)))
      (load_round-trailer text pre (zeros n) pos inode acc little split' at
        (omega (arith, length-zeros n, align_4_lem (pos + hdr_sz + 11))))
load_loop-dump_loop (suc fuel) text pre pos inode ((name, e) ∷ es) acc split at (f, fits) small h =
    let head = entry_header inode name e in
    let p1 = body pos name - (pos + hdr_sz + (length name + 1)) in
    let p2 = past pos name e - (body pos name + length e.content) in
    let rest = dump_loop (past pos name e) (inode + 1) es in
    let little : inode < 2 ^ 32 = omega arith in
    let size = length-entry_header inode name e f little in
    let low = align_4_lem (pos + hdr_sz + (length name + 1)) in
    let high = align_4_lem (body pos name + length e.content) in
    let split' : text
        ≡ pre ++ (head ++ (name ++ (0 ∷ (zeros p1 ++ (e.content ++ (zeros p2 ++ rest)))))) =
      split ∙ ap (◌++◌ pre) (dump_loop_cons pos inode name e es f little) in
    load_loop_next fuel text pos acc
      (starts_inside text pre head (name ++ (0 ∷ (zeros p1 ++ (e.content ++ (zeros p2 ++ rest)))))
        pos split' at (omega (arith, size)))
      (load_round_lem text pre (zeros p1) (zeros p2 ++ rest) pos inode name e acc f little split' at
        (omega (arith, length-zeros p1, low)))
    ∙ load_loop-dump_loop fuel text
        (pre ++ (head ++ (name ++ (0 ∷ (zeros p1 ++ (e.content ++ zeros p2)))))) (past pos name e)
        (inode + 1) es (insert name e acc) (split' ∙ simp append_assoc)
        (omega (
          arith,
          length-entry pre head name (zeros p1) e.content (zeros p2),
          length-zeros p1,
          length-zeros p2,
          size,
          low,
          high,
        ))
        fits (omega arith) (omega arith)

length-dump_loop :
    (pos inode : ℕ) (es : Cpio)
    → All (λ p. Fits p.0 p.1) es
    → inode + length es < 2 ^ 32
    → length es < length (dump_loop pos inode es)
length-dump_loop pos inode [] fits small = rw (dump_loop_nil pos inode (omega arith)) (
    let head = header inode 0o755 0 0 1 0 0 0 11 in
    let n = align_4 (pos + hdr_sz + 11) - (pos + hdr_sz + 11) in
    omega (arith, length-append head (trailer ++ (0 ∷ zeros n))))
length-dump_loop pos inode ((name, e) ∷ es) (f, fits) small =
    rw (dump_loop_cons pos inode name e es f (omega arith)) (
      let p1 = body pos name - (pos + hdr_sz + (length name + 1)) in
      let p2 = past pos name e - (body pos name + length e.content) in
      let rest = dump_loop (past pos name e) (inode + 1) es in
      omega (
        arith,
        length-entry [] (entry_header inode name e) name (zeros p1) e.content (zeros p2 ++ rest),
        length-append (zeros p2) rest,
        length-dump_loop (past pos name e) (inode + 1) es fits (omega arith),
      ))

load_from_data_loop : (text : Bytes) → load_from_data text ≡ load_loop (suc (length text)) text 0 []
unfolding load_from_data
load_from_data_loop text = refl

-- Inserting the entries of a sorted map one by one gives the map.
extend_nil : (es : Cpio) → IsSorted es → extend [] es ≡ es
extend_nil es sorted =
    map_ext (extend [] es) es (extend-IsSorted [] es tt) sorted
      (λ k. get-extend k [] es sorted ∙ unfold get in or_none (get k es))
  where
    or_none : (o : Option CpioEntry) → or_else o none ≡ o
    or_none none = refl
    or_none (some e) = refl

-- A sorted archive of less than 2^32 - 300000 entries that the format can hold (numbers of 32
-- bits, names that are UTF-8 without NUL and none of `.`, `..` and the trailer) is read back by
-- `load_from_data` from what `dump` writes, whole.
pub load_from_data-dump :
    (es : Cpio)
    → IsSorted es
    → All (λ p. Fits p.0 p.1) es
    → 300000 + length es < 2 ^ 32
    → load_from_data (dump es) ≡ ok es
load_from_data-dump es sorted fits small =
    load_from_data_loop (dump es)
    ∙ load_loop-dump_loop (suc (length (dump es))) (dump es) [] 0 300000 es [] (dump_start es) refl
        fits small (omega (arith, length-dump es fits small))
    ∙ ap ok (extend_nil es sorted)
  where
    dump_start : (es : Cpio) → dump es ≡ dump_loop 0 300000 es
    dump_start es = unfold dump in refl

    length-dump :
        (es : Cpio)
        → All (λ p. Fits p.0 p.1) es
        → 300000 + length es < 2 ^ 32
        → length es < suc (length (dump es))
    length-dump es fits small =
        unfold dump in omega (arith, length-dump_loop 0 300000 es fits small)
