-- ===== src/Boot/Cpio/Archive/Total.antt =====
-- The loop of `load_from_data` in native/src/boot/cpio.rs ends, and what it builds is in order.
use magisk.Prelude.{
  ℕ, zero, suc, ◌+◌, ◌-◌, ◌*◌, ◌%◌, ◌^◌, ◌≤◌, ◌<◌, inl, inr, Bool, true, false, ◌&&◌, ◌||◌, Option,
  none, some, [], ◌∷◌, arith, ltb, leb, if◌then◌else◌, ltb→lt, Bool-cases, Option-cases, Bytes,
  length, take, drop,
}
use magisk.Base.Text.{codes, equal, find}
use magisk.Base.Map.{IsSorted, insert-IsSorted}
use magisk.Base.Outcome.{Outcome, ◌>>=◌, ok, fail, panic, out_of_fuel}
use magisk.Boot.Cpio.{Cpio}
use magisk.Boot.Cpio.Paths.{align_4, align_4_lem}
use magisk.Boot.Cpio.Hex.{x8u_loop, to_digit, x8u}
use magisk.Boot.Cpio.Archive.{
  is_utf8, CpioHeader, hdr_sz, from_bytes, slice, slice_from, until_nul, utf8_cstr, Round, magic,
  trailer, skip_trailer, load_entry, load_named, load_round, load_loop, load_from_data, next, break,
}

-- A round goes on behind the position, and keeps the order of the archive.
abbrev Moves : ℕ → Outcome Round → Type 0
Moves pos (ok (next pos' cpio)) = (pos ≤ pos') × IsSorted cpio
Moves pos (ok (break cpio)) = IsSorted cpio
Moves pos fail = Unit
Moves pos panic = Unit
Moves pos out_of_fuel = ⊥

-- Code that does not run out of fuel.
abbrev Ends {ℓ} : {A : Type ℓ} → Outcome A → Type 0
Ends out_of_fuel = ⊥
Ends _ = Unit

>>=-Moves {ℓ} :
    {A : Type ℓ} (pos : ℕ) (m : Outcome A) (f : A → Outcome Round)
    → Ends m
    → ((a : A) → Moves pos (f a))
    → Moves pos (m >>= f)
>>=-Moves pos (ok a) f e h = h a
>>=-Moves pos fail f e h = tt
>>=-Moves pos panic f e h = tt
>>=-Moves pos out_of_fuel f e h = e

if-Moves :
    (pos : ℕ) (c : Bool) (a b : Outcome Round)
    → Moves pos a
    → Moves pos b
    → Moves pos (if c then a else b)
if-Moves pos true a b h k = h
if-Moves pos false a b h k = k

Moves-≤ : (pos pos' : ℕ) (m : Outcome Round) → pos ≤ pos' → Moves pos' m → Moves pos m
Moves-≤ pos pos' (ok (next p cpio)) h k = (omega (arith, k.0), k.1)
Moves-≤ pos pos' (ok (break cpio)) h k = k
Moves-≤ pos pos' fail h k = tt
Moves-≤ pos pos' panic h k = tt
Moves-≤ pos pos' out_of_fuel h k = k

x8u_loop-Ends : (n : ℕ) (b : Bytes) → Ends (x8u_loop n b)
unfolding x8u_loop
x8u_loop-Ends n [] = tt
x8u_loop-Ends n (c ∷ b) = after_digit (to_digit c) (λ d. x8u_loop-Ends ((n * 16 + d) % 2 ^ 32) b)
  where
    after_digit :
        (o : Option ℕ)
        → ((d : ℕ) → Ends (x8u_loop ((n * 16 + d) % 2 ^ 32) b))
        → Ends (elim o [ none ↦ fail | some d ↦ x8u_loop ((n * 16 + d) % 2 ^ 32) b ])
    after_digit none h = tt
    after_digit (some d) h = h d

x8u-Ends : (b : Bytes) → Ends (x8u b)
unfolding x8u
x8u-Ends b = x8u_loop-Ends 0 b

test-Ends {ℓ} :
    {A : Type ℓ} (c : Bool) (a b : Outcome A) → Ends a → Ends b → Ends (if c then a else b)
test-Ends true a b h k = h
test-Ends false a b h k = k

slice-Ends : (text : Bytes) (a b : ℕ) → Ends (slice text a b)
unfolding slice
slice-Ends text a b =
    test-Ends (leb a b && leb b (length text)) (ok (take (b - a) (drop a text))) panic tt tt

slice_from-Ends : (text : Bytes) (a : ℕ) → Ends (slice_from text a)
unfolding slice_from
slice_from-Ends text a = test-Ends (leb a (length text)) (ok (drop a text)) panic tt tt

utf8_cstr-Ends : (b : Bytes) → Ends (utf8_cstr b)
unfolding utf8_cstr
utf8_cstr-Ends b = checked (until_nul b)
  where
    checked :
        (o : Option Bytes)
        → Ends (elim o [ none ↦ fail | some s ↦ if is_utf8 s then ok s else fail ])
    checked none = tt
    checked (some s) = test-Ends (is_utf8 s) (ok s) fail tt tt

skip_trailer-Moves :
    (text : Bytes) (pos : ℕ) (cpio : Cpio) → IsSorted cpio → Moves pos (skip_trailer text pos cpio)
unfolding skip_trailer
skip_trailer-Moves text pos cpio s =
    >>=-Moves pos (slice_from text pos) _ (slice_from-Ends text pos) found
  where
    found :
        (rest : Bytes)
        → Moves pos
            (elim (find rest magic) [ some x ↦ ok (next (pos + x) cpio) | none ↦ ok (break cpio) ])
    found rest = elim (Option-cases (find rest magic)) [
      | inl e ↦ rw e s
      | inr (x, e) ↦ rw e (omega arith, s)
    ]

load_entry-Moves :
    (text : Bytes) (pos : ℕ) (hdr : CpioHeader) (name : Bytes) (cpio : Cpio)
    → IsSorted cpio
    → Moves pos (load_entry text pos hdr name cpio)
unfolding load_entry
load_entry-Moves text pos hdr name cpio s =
    >>=-Moves pos (x8u hdr.filesize) _ (x8u-Ends hdr.filesize) (λ file_sz.
      >>=-Moves pos (x8u hdr.mode) _ (x8u-Ends hdr.mode) (λ mode.
        >>=-Moves pos (x8u hdr.uid) _ (x8u-Ends hdr.uid) (λ uid.
          >>=-Moves pos (x8u hdr.gid) _ (x8u-Ends hdr.gid) (λ gid.
            >>=-Moves pos (x8u hdr.rdevmajor) _ (x8u-Ends hdr.rdevmajor) (λ rdevmajor.
              >>=-Moves pos (x8u hdr.rdevminor) _ (x8u-Ends hdr.rdevminor) (λ rdevminor.
                >>=-Moves pos (slice text pos (pos + file_sz)) _
                  (slice-Ends text pos (pos + file_sz))
                  (λ content. (
                    omega (arith, align_4_lem (pos + file_sz)),
                    insert-IsSorted name _ cpio s,
                  ))))))))

load_named-Moves :
    (text : Bytes) (pos : ℕ) (hdr : CpioHeader) (cpio : Cpio)
    → IsSorted cpio
    → Moves pos (load_named text pos hdr cpio)
unfolding load_named
load_named-Moves text pos hdr cpio s =
    >>=-Moves pos (x8u hdr.namesize) _ (x8u-Ends hdr.namesize) (λ name_sz.
      >>=-Moves pos (slice text pos (pos + name_sz)) _ (slice-Ends text pos (pos + name_sz))
        (λ bytes. >>=-Moves pos (utf8_cstr bytes) _ (utf8_cstr-Ends bytes) (λ name.
          let pos' = align_4 (pos + name_sz) in
          let on : pos ≤ pos' = omega (arith, align_4_lem (pos + name_sz)) in
          if-Moves pos (equal name (codes ".") || equal name (codes "..")) _ _ (on, s)
            (if-Moves pos (equal name trailer) _ _
              (Moves-≤ pos pos' (skip_trailer text pos' cpio) on
                (skip_trailer-Moves text pos' cpio s))
              (Moves-≤ pos pos' (load_entry text pos' hdr name cpio) on
                (load_entry-Moves text pos' hdr name cpio s))))))

load_round-Moves :
    (text : Bytes) (pos : ℕ) (cpio : Cpio)
    → IsSorted cpio
    → Moves (pos + hdr_sz) (load_round text pos cpio)
unfolding load_round
load_round-Moves text pos cpio s =
    >>=-Moves (pos + hdr_sz) (slice text pos (pos + hdr_sz)) _ (slice-Ends text pos (pos + hdr_sz))
      (λ bytes.
        if-Moves (pos + hdr_sz) (equal (from_bytes bytes).magic magic) _ _
          (load_named-Moves text (pos + hdr_sz) (from_bytes bytes) cpio s) tt)

-- What the loop returns is in order, and it does return.
abbrev pub Loaded : Outcome Cpio → Type 0
Loaded (ok cpio) = IsSorted cpio
Loaded fail = Unit
Loaded panic = Unit
Loaded out_of_fuel = ⊥

-- The fuel is more than the bytes that are left.
load_loop-Loaded :
    (fuel : ℕ) (text : Bytes) (pos : ℕ) (cpio : Cpio)
    → length text - pos < fuel
    → IsSorted cpio
    → Loaded (load_loop fuel text pos cpio)
unfolding load_loop
load_loop-Loaded zero text pos cpio h s = absurd (omega arith)
load_loop-Loaded (suc fuel) text pos cpio h s = elim (Bool-cases (ltb pos (length text))) [
  | inl inside ↦
      rw (Loaded, inside)
        (after_round (ltb→lt pos (length text) inside) (load_round text pos cpio)
          (load_round-Moves text pos cpio s)
          (λ pos' cpio' g t. load_loop-Loaded fuel text pos' cpio' g t))
  | inr past ↦ rw (Loaded, past) s
]
  where
    after_round :
        pos < length text
        → (r : Outcome Round) → Moves (pos + hdr_sz) r
        → ((pos' : ℕ) (cpio' : Cpio)
            → length text - pos' < fuel
            → IsSorted cpio'
            → Loaded (load_loop fuel text pos' cpio'))
        → Loaded (elim r [
          | ok (next pos' cpio') ↦ load_loop fuel text pos' cpio'
          | ok (break cpio') ↦ ok cpio'
          | fail ↦ fail
          | panic ↦ panic
          | out_of_fuel ↦ out_of_fuel
        ])
    after_round lt (ok (next pos' cpio')) m k = k pos' cpio' (omega (arith, m.0, h)) m.1
    after_round lt (ok (break cpio')) m k = m
    after_round lt fail m k = tt
    after_round lt panic m k = tt
    after_round lt out_of_fuel m k = m

-- On every byte string `load_from_data` returns an archive whose names are in order and all
-- different, or an error, or panics: the loop never runs out of its fuel.
pub load_from_data-Loaded : (text : Bytes) → Loaded (load_from_data text)
unfolding load_from_data
load_from_data-Loaded text = load_loop-Loaded (suc (length text)) text 0 [] (omega arith) tt
