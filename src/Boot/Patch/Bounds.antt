-- ===== src/Boot/Patch/Bounds.antt =====
-- The matches of `match_patterns!` in native/src/boot/patch.rs are within the buffer.
use magisk.Prelude.{
  ◌+◌, ℕ, ◌≤◌, ◌<◌, ◌≡◌, inl, inr, true, some, List, [], ◌∷◌, arith, Option-cases, Bytes, All,
  length, drop, length-drop,
}
use magisk.Base.Text.{starts_with}
use magisk.Boot.Patch.{match_text, value_len, until_end, comma_len, first_match, match_patterns}
use magisk.Boot.Patch.Strips.{IsBounded}

starts_with-length : (b p : Bytes) → starts_with b p ≡ true → length p ≤ length b
unfolding starts_with
starts_with-length b [] h = omega arith
starts_with-length [] (c ∷ p) h = cc
starts_with-length (x ∷ b) (c ∷ p) h = omega (arith, starts_with-length b p (ground arith))

first_match-le :
    (ps : List Bytes) (b : Bytes) (n : ℕ)
    → All (λ p. 0 < length p) ps
    → first_match ps b ≡ some n
    → (0 < n) × (n ≤ length b)
unfolding first_match
first_match-le [] b n h e = cc
first_match-le (p ∷ ps) b n h e = ground (arith, starts_with-length b p, first_match-le ps b n h.1)

match_text-le :
    (ps : List Bytes) (b : Bytes) (n : ℕ)
    → All (λ p. 0 < length p) ps
    → match_text ps b ≡ some n
    → (0 < n) × (n ≤ length b)
unfolding match_text
match_text-le ps [] n h e = cc
match_text-le ps (c ∷ b) n h e = first_match-le ps (c ∷ b) n h e

until_end-le : (b : Bytes) → until_end b ≤ length b
unfolding until_end
until_end-le [] = omega arith
until_end-le (c ∷ b) = ground (arith, until_end-le b)

value_len-le : (b : Bytes) → value_len b ≤ length b
unfolding value_len
value_len-le [] = omega arith
value_len-le (c ∷ b) = ground (arith, until_end-le b)

comma_len-le : (b : Bytes) → comma_len b ≤ length b
unfolding comma_len
comma_len-le [] = omega arith
comma_len-le (c ∷ b) = ground arith

pub match_patterns-IsBounded :
    (ps : List Bytes) → All (λ p. 0 < length p) ps → IsBounded (match_patterns ps)
unfolding match_patterns
match_patterns-IsBounded ps h text len e =
    elim (Option-cases (match_text ps (drop (comma_len text) text))) [
      | inl a ↦ ground arith
      | inr (n, a) ↦ ground (
        arith,
        match_text-le ps (drop (comma_len text) text) n h a,
        value_len-le (drop n (drop (comma_len text) text)),
        comma_len-le text,
        length-drop (comma_len text) text,
        length-drop n (drop (comma_len text) text),
      )
    ]

-- Take patterns that are not empty and a buffer that is not empty. If `match_patterns` finds a
-- match, then the unchecked reads are in range: the text behind the comma starts in the buffer or
-- at its end, and so does the value behind the pattern that was found; and the length that is
-- returned is at least 1 and not more than that of the buffer.
pub match_patterns-in_range :
    (ps : List Bytes) (c : ℕ) (b : Bytes) (len : ℕ)
    → All (λ p. 0 < length p) ps
    → match_patterns ps (c ∷ b) ≡ some len
    → (comma_len (c ∷ b) ≤ length (c ∷ b))
      × ((n : ℕ) × (match_text ps (drop (comma_len (c ∷ b)) (c ∷ b)) ≡ some n)
          × (comma_len (c ∷ b) + n ≤ length (c ∷ b)))
      × (0 < len)
      × (len ≤ length (c ∷ b))
unfolding match_patterns
match_patterns-in_range ps c b len h e =
    elim (Option-cases (match_text ps (drop (comma_len (c ∷ b)) (c ∷ b)))) [
      | inl a ↦ ground arith
      | inr (n, a) ↦ (
        comma_len-le (c ∷ b),
        (
          n,
          a,
          omega (
            arith,
            match_text-le ps (drop (comma_len (c ∷ b)) (c ∷ b)) n h a,
            comma_len-le (c ∷ b),
            length-drop (comma_len (c ∷ b)) (c ∷ b),
          ),
        ),
        (match_patterns-IsBounded ps h (c ∷ b) len e).0,
        (match_patterns-IsBounded ps h (c ∷ b) len e).1,
      )
    ]
