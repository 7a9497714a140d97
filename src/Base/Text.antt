-- ===== src/Base/Text.antt =====
-- What the sources use of `str` and `[u8]`: prefixes, suffixes, splitting at a byte, joining, and
-- `BytesExt::find` of native/src/base/misc.rs. Every separator in the sources is ASCII, so a split
-- at a character is a split at its byte.
use Prim.Native.Char.{code}
use Prim.Native.String.{String}
use magisk.Prelude.{
  ℕ, suc, Bytes, List, [], ◌∷◌, ◌++◌, Option, none, some, Bool, true, false, ◌&&◌, ◌≡◌, ◌≢◌, refl,
  ap, arith, All, ◌==◌, if◌then◌else◌, is_empty,
}

-- The bytes of an ASCII literal.
abbrev pub codes : String → Bytes
codes String.[] = []
codes (String.◌∷◌ c s) = code c ∷ codes s

-- `a == b`
unfoldable pub equal : Bytes → Bytes → Bool
equal [] [] = true
equal (x ∷ xs) (y ∷ ys) = x == y && equal xs ys
equal _ _ = false

-- `s.starts_with(p)`
unfoldable pub starts_with : Bytes → Bytes → Bool
starts_with s [] = true
starts_with [] (c ∷ p) = false
starts_with (b ∷ s) (c ∷ p) = b == c && starts_with s p

-- `s.strip_prefix(p)`
unfoldable pub strip_prefix : Bytes → Bytes → Option Bytes
strip_prefix s [] = some s
strip_prefix [] (c ∷ p) = none
strip_prefix (b ∷ s) (c ∷ p) = let rest = strip_prefix s p in if b == c then rest else none

-- `s.ends_with(p)`
unfoldable pub ends_with : Bytes → Bytes → Bool
ends_with [] p = is_empty p
ends_with (b ∷ s) p = let rest = ends_with s p in if equal (b ∷ s) p then true else rest

-- The index of the first occurrence of `needle`, as of `memmem`.
unfoldable pub find : Bytes → Bytes → Option ℕ
find [] needle = if is_empty needle then some 0 else none
find (b ∷ s) needle =
    let rest = find s needle in
    if starts_with (b ∷ s) needle then some 0 else elim rest [ none ↦ none | some i ↦ some (suc i) ]

abbrev pub push_head : ℕ → List Bytes → List Bytes
push_head c [] = (c ∷ []) ∷ []
push_head c (p ∷ ps) = (c ∷ p) ∷ ps

-- `s.split(sep)`
unfoldable pub split : ℕ → Bytes → List Bytes
split sep [] = [] ∷ []
split sep (c ∷ s) = let rest = split sep s in if c == sep then [] ∷ rest else push_head c rest

-- `.filter(|x| !x.is_empty())`
unfoldable pub non_empty : List Bytes → List Bytes
non_empty [] = []
non_empty ([] ∷ ps) = non_empty ps
non_empty ((c ∷ p) ∷ ps) = (c ∷ p) ∷ non_empty ps

-- `.intersperse(sep).collect()`
unfoldable pub join : ℕ → List Bytes → Bytes
join sep [] = []
join sep (p ∷ []) = p
join sep (p ∷ q ∷ ps) = p ++ (sep ∷ join sep (q ∷ ps))

-- The byte `sep` does not stand in the string.
abbrev pub Lacks : ℕ → Bytes → Type 0
Lacks sep = All (λ c. c ≢ sep)

-- A part between separators that is not empty.
abbrev pub IsPart : ℕ → Bytes → Type 0
IsPart sep p = (p ≢ []) × Lacks sep p

pub equal_refl : (a : Bytes) → equal a a ≡ true
unfolding equal
equal_refl [] = refl
equal_refl (x ∷ xs) = ground (arith, equal_refl xs)

pub equal→eq : (a b : Bytes) → equal a b ≡ true → a ≡ b
unfolding equal
equal→eq (x ∷ xs) (y ∷ ys) h = ground (arith, equal→eq xs ys)
equal→eq _ _ h = ground arith

pub starts_with-append : (p s : Bytes) → starts_with (p ++ s) p ≡ true
unfolding starts_with
starts_with-append [] s = refl
starts_with-append (c ∷ p) s = ground (arith, starts_with-append p s)

-- What starts with `p` is `p` and a rest.
pub starts_with_split : (s p : Bytes) → starts_with s p ≡ true → (rest : Bytes) × (s ≡ p ++ rest)
unfolding starts_with
starts_with_split s [] h = (s, refl)
starts_with_split [] (c ∷ p) h = cc
starts_with_split (b ∷ s) (c ∷ p) h =
    let (rest, e) = starts_with_split s p (ground arith) in (rest, ground arith)

pub strip_prefix-append : (p s : Bytes) → strip_prefix (p ++ s) p ≡ some s
unfolding strip_prefix
strip_prefix-append [] s = refl
strip_prefix-append (c ∷ p) s = ground (arith, strip_prefix-append p s)

pub ends_with-append : (s p : Bytes) → ends_with (s ++ p) p ≡ true
unfolding ends_with
ends_with-append [] [] = refl
ends_with-append [] (c ∷ p) = ground (arith, equal_refl (c ∷ p))
ends_with-append (b ∷ s) p = ground (arith, ends_with-append s p)

module _ (sep : ℕ) where
  pub split_part :
      (p rest : Bytes) → Lacks sep p → split sep (p ++ (sep ∷ rest)) ≡ p ∷ split sep rest
  unfolding split
  split_part [] rest h = ground arith
  split_part (c ∷ p) rest h = ground (arith, split_part p rest h.1)

  pub split_last : (p : Bytes) → Lacks sep p → split sep p ≡ p ∷ []
  unfolding split
  split_last [] h = refl
  split_last (c ∷ p) h = ground (arith, split_last p h.1)

  push_head-Lacks :
      (c : ℕ) (ps : List Bytes) → c ≢ sep → All (Lacks sep) ps → All (Lacks sep) (push_head c ps)
  push_head-Lacks c [] h k = ((h, tt), tt)
  push_head-Lacks c (p ∷ ps) h k = ((h, k.0), k.1)

  split-Lacks : (s : Bytes) → All (Lacks sep) (split sep s)
  unfolding split
  split-Lacks [] = (tt, tt)
  split-Lacks (c ∷ s) = ground (arith, split-Lacks s, push_head-Lacks c (split sep s))

  non_empty-IsPart : (ps : List Bytes) → All (Lacks sep) ps → All (IsPart sep) (non_empty ps)
  unfolding non_empty
  non_empty-IsPart [] h = tt
  non_empty-IsPart ([] ∷ ps) h = non_empty-IsPart ps h.1
  non_empty-IsPart ((c ∷ p) ∷ ps) h = (((λ e. cc), h.0), non_empty-IsPart ps h.1)

  -- The parts of a string are not empty and hold no separator.
  pub parts-IsPart : (s : Bytes) → All (IsPart sep) (non_empty (split sep s))
  parts-IsPart s = non_empty-IsPart (split sep s) (split-Lacks s)

  -- Joining parts and taking the parts of the result gives them back.
  pub parts-join :
      (ps : List Bytes) → All (IsPart sep) ps → non_empty (split sep (join sep ps)) ≡ ps
  unfolding join non_empty
  parts-join [] h = unfold split in refl
  parts-join ([] ∷ ps) h = absurd (h.0.0 refl)
  parts-join ((c ∷ p) ∷ []) h = rw (split_last (c ∷ p) h.0.1)
  parts-join ((c ∷ p) ∷ q ∷ ps) h =
      rw (split_part (c ∷ p) (join sep (q ∷ ps)) h.0.1) (ap (◌∷◌ (c ∷ p)) (parts-join (q ∷ ps) h.1))

-- A needle at the front is found there.
pub find_front : (needle rest : Bytes) → find (needle ++ rest) needle ≡ some 0
unfolding find
find_front [] [] = refl
find_front [] (b ∷ rest) = unfold starts_with in refl
find_front (c ∷ p) rest = rw (starts_with-append (c ∷ p) rest)
