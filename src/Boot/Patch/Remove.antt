-- ===== src/Boot/Patch/Remove.antt =====
-- remove_pattern of native/src/boot/patch.rs against `Strips`.
use magisk.Prelude.{
  ◌-◌, take-append_left, ℕ, zero, suc, ◌+◌, ◌≤◌, Bytes, [], ◌∷◌, ◌++◌, ◌≡◌, refl, sym, ap, ◌∙◌,
  Option, none, some, Option-cases, length, drop, take, set, arith, length-append, length-drop,
  drop-append_left, take-append-drop, length-take, set-append, append_assoc, append-nil, inl, inr,
}
use magisk.Boot.Patch.{replicate, fill_from, remove_pattern, Cursor, remove_loop}
use native.Mathlib.Nat.{zero-add}
use magisk.Boot.Patch.Strips.{Strips, done, cut, keep, IsBounded}

-- The cursors at the head of the loop: `kept` is written, `junk` is free, `rest` is not read yet.
abbrev cursor : Bytes → Bytes → Bytes → Cursor
cursor kept junk rest = record {
  buf = kept ++ (junk ++ rest);
  write = length kept;
  sz = length kept + length rest;
}

drop_read :
    (kept junk rest : Bytes) → drop (length kept + length junk) (kept ++ (junk ++ rest)) ≡ rest
drop_read kept junk rest =
    rw (← length-append kept junk, ← append_assoc kept junk rest)
      (drop-append_left (kept ++ junk) rest)

-- The free bytes after one byte is moved down over them.
abbrev moved : Bytes → ℕ → Bytes
moved [] c = []
moved (j ∷ junk) c = junk ++ (c ∷ [])

length-moved : (junk : Bytes) (c : ℕ) → length (moved junk c) ≡ length junk
length-moved [] c = refl
length-moved (j ∷ junk) c = omega (arith, length-append junk (c ∷ []))

set-moved :
    (kept junk : Bytes) (c : ℕ) (rest : Bytes)
    → set (kept ++ (junk ++ (c ∷ rest))) (length kept) c
      ≡ (kept ++ (c ∷ [])) ++ (moved junk c ++ rest)
set-moved kept [] c rest = rw (set-append, append_assoc)
set-moved kept (j ∷ junk) c rest = rw (set-append, append_assoc, append_assoc)

-- The bytes of a match become free.
same_buf :
    (kept junk rest : Bytes) (len : ℕ)
    → kept ++ (junk ++ rest) ≡ kept ++ ((junk ++ take len rest) ++ drop len rest)
same_buf kept junk rest len = ap (◌++◌ kept) (
    ap (◌++◌ junk) (sym (take-append-drop len rest))
    ∙ sym (append_assoc junk (take len rest) (drop len rest)))

module _ (matcher : Bytes → Option ℕ) where
  remove_loop_end :
      (fuel : ℕ) (kept junk : Bytes)
      → remove_loop fuel matcher (length kept + length junk) (cursor kept junk [])
        ≡ cursor (kept ++ []) junk []
  unfolding remove_loop
  remove_loop_end zero kept junk = rw (append-nil kept)
  remove_loop_end (suc fuel) kept junk = ground (arith, drop_read kept junk [], append-nil kept)

  remove_loop_cut :
      (fuel : ℕ) (kept junk : Bytes) (c : ℕ) (rest : Bytes) (len : ℕ)
      → matcher (c ∷ rest) ≡ some len
      → len ≤ length (c ∷ rest)
      → remove_loop (suc fuel) matcher (length kept + length junk) (cursor kept junk (c ∷ rest))
        ≡ remove_loop fuel matcher
            (length kept + length (junk ++ take len (c ∷ rest)))
            (cursor kept (junk ++ take len (c ∷ rest)) (drop len (c ∷ rest)))
  unfolding remove_loop
  remove_loop_cut fuel kept junk c rest len e h = ground (
    arith,
    drop_read kept junk (c ∷ rest),
    same_buf kept junk (c ∷ rest) len,
    length-append junk (take len (c ∷ rest)),
    length-take len (c ∷ rest),
    length-drop len (c ∷ rest),
  )

  remove_loop_keep :
      (fuel : ℕ) (kept junk : Bytes) (c : ℕ) (rest : Bytes)
      → matcher (c ∷ rest) ≡ none
      → remove_loop (suc fuel) matcher (length kept + length junk) (cursor kept junk (c ∷ rest))
        ≡ remove_loop fuel matcher
            (length (kept ++ c ∷ []) + length (moved junk c))
            (cursor (kept ++ c ∷ []) (moved junk c) rest)
  unfolding remove_loop
  remove_loop_keep fuel kept junk c rest e = ground (
    arith,
    drop_read kept junk (c ∷ rest),
    set-moved kept junk c rest,
    length-append kept (c ∷ []),
    length-moved junk c,
  )

module _ (matcher : Bytes → Option ℕ) (bounded : IsBounded matcher) where
  -- The loop keeps its promise from any of its states.
  record Looped (fuel : ℕ) (kept junk rest : Bytes) : Type 0 where
    out : Bytes
    free : Bytes
    strips : Strips matcher rest out
    runs :
        remove_loop fuel matcher (length kept + length junk) (cursor kept junk rest)
        ≡ cursor (kept ++ out) free []
    lengths : length out + length free ≡ length junk + length rest

  remove_loop-Looped :
      (fuel : ℕ) (kept junk rest : Bytes) → length rest ≤ fuel → Looped fuel kept junk rest
  remove_loop-Looped fuel kept junk [] h = record {
    out = [];
    free = junk;
    strips = done;
    runs = remove_loop_end matcher fuel kept junk;
    lengths = omega arith;
  }
  remove_loop-Looped zero kept junk (c ∷ rest) h = absurd (omega arith)
  remove_loop-Looped (suc fuel) kept junk (c ∷ rest) h = elim (Option-cases (matcher (c ∷ rest))) [
    | inl e ↦
        let l = remove_loop-Looped fuel (kept ++ (c ∷ [])) (moved junk c) rest (omega arith) in
        record {
          out = c ∷ l.out;
          free = l.free;
          strips = keep e l.strips;
          runs =
              remove_loop_keep matcher fuel kept junk c rest e
              ∙ l.runs
              ∙ ap (λ (k : Bytes). cursor k l.free []) (append_assoc kept (c ∷ []) l.out);
          lengths = omega (arith, l.lengths, length-moved junk c);
        }
    | inr (len, e) ↦
        let b = bounded (c ∷ rest) len e in
        let l =
          remove_loop-Looped fuel kept (junk ++ take len (c ∷ rest)) (drop len (c ∷ rest))
            (omega (arith, length-drop len (c ∷ rest), b.0)) in
        record {
          out = l.out;
          free = l.free;
          strips = cut len e l.strips;
          runs = remove_loop_cut matcher fuel kept junk c rest len e b.1 ∙ l.runs;
          lengths = omega (
            arith,
            l.lengths,
            b.1,
            length-append junk (take len (c ∷ rest)),
            length-take len (c ∷ rest),
            length-drop len (c ∷ rest),
          );
        }
  ]

fill_cursor :
    (out free : Bytes)
    → fill_from (cursor out free []).write (cursor out free []).buf
      ≡ out ++ replicate (length free) 0
unfolding fill_from
fill_cursor out free =
    ground (arith, append-nil free, take-append_left out free, length-append out free)

sized :
    (out free buf : Bytes)
    → length out + length free ≡ 0 + length buf
    → length free ≡ length buf - length out
sized out free buf e = omega arith

remove_pattern_end :
    (matcher : Bytes → Option ℕ) (buf out free : Bytes)
    → remove_loop (length buf) matcher 0 (cursor [] [] buf) ≡ cursor out free []
    → length out + length free ≡ 0 + length buf
    → remove_pattern matcher buf ≡ (out ++ replicate (length buf - length out) 0, length out)
unfolding remove_pattern
remove_pattern_end matcher buf out free e l =
    ap (λ (s : Cursor). (fill_from s.write s.buf, s.sz)) (rw zero-add at e)
    ∙ ground
        (arith, fill_cursor out free, ap (λ (n : ℕ). replicate {A = ℕ} n 0) (sized out free buf l))

-- For every matcher whose matches are not empty and within the text, `remove_pattern` leaves in
-- the buffer the text without what the matcher takes from left to right, with zeros behind it up
-- to the old length, and returns the length of what is kept.
pub remove_pattern_lem :
    (matcher : Bytes → Option ℕ) (buf : Bytes)
    → IsBounded matcher
    → (out : Bytes) × Strips matcher buf out
      × (remove_pattern matcher buf ≡ (out ++ replicate (length buf - length out) 0, length out))
unfolding remove_pattern
remove_pattern_lem matcher buf bounded =
    let l = remove_loop-Looped matcher bounded (length buf) [] [] buf (omega arith) in
    (l.out, l.strips, remove_pattern_end matcher buf l.out l.free l.runs l.lengths)
