-- ===== src/Base/Utf8.antt =====
-- `str::from_utf8`: the byte strings that are well-formed UTF-8 (the Unicode standard's table of
-- well-formed byte sequences, which Rust documents as its `str`).
use magisk.Prelude.{
  ℕ, zero, suc, Bytes, [], ◌∷◌, ◌++◌, Option, none, some, Bool, true, false, ◌&&◌, ◌≡◌, refl, arith,
  ltb, leb, if◌then◌else◌, ◌<◌,
}

-- How many continuation bytes are due, and the range of the next one.
abbrev Due : Type 0
Due = ℕ × ℕ × ℕ

-- What a leading byte announces.
abbrev lead : ℕ → Option Due
lead c =
    if ltb c 0x80
    then some (0, 0x80, 0xBF)
    else if ltb c 0xC2
    then none
    else if ltb c 0xE0
    then some (1, 0x80, 0xBF)
    else if ltb c 0xE1
    then some (2, 0xA0, 0xBF)
    else if ltb c 0xED
    then some (2, 0x80, 0xBF)
    else if ltb c 0xEE
    then some (2, 0x80, 0x9F)
    else if ltb c 0xF0
    then some (2, 0x80, 0xBF)
    else if ltb c 0xF1
    then some (3, 0x90, 0xBF)
    else if ltb c 0xF4
    then some (3, 0x80, 0xBF)
    else if ltb c 0xF5
    then some (3, 0x80, 0x8F)
    else none

scan : ℕ → ℕ → ℕ → Bytes → Bool
scan zero lo hi [] = true
scan zero lo hi (c ∷ s) = elim (lead c) [ none ↦ false | some (n, l, h) ↦ scan n l h s ]
scan (suc n) lo hi [] = false
scan (suc n) lo hi (c ∷ s) = leb lo c && leb c hi && scan n 0x80 0xBF s

unfoldable pub is_utf8 : Bytes → Bool
unfolding scan
is_utf8 = scan 0 0x80 0xBF

-- The step behind a leading byte, given the claim for each state that the byte may lead to.
scan_lead :
    (o : Option Due) (xs ys : Bytes)
    → elim o [ none ↦ false | some (n, l, h) ↦ scan n l h xs ] ≡ true
    → ((n l h : ℕ) → scan n l h xs ≡ true → scan n l h (xs ++ ys) ≡ true)
    → elim o [ none ↦ false | some (n, l, h) ↦ scan n l h (xs ++ ys) ] ≡ true
scan_lead none xs ys h k = h
scan_lead (some (n, l, u)) xs ys h k = k n l u h

last_test :
    (a b : Bool) {c d : Bool} → (a && b && c) ≡ true → (c ≡ true → d ≡ true) → (a && b && d) ≡ true
last_test true true h k = k h
last_test true false h k = h
last_test false b h k = h

scan-append :
    (n lo hi : ℕ) (xs ys : Bytes)
    → scan n lo hi xs ≡ true
    → is_utf8 ys ≡ true
    → scan n lo hi (xs ++ ys) ≡ true
unfolding is_utf8
scan-append zero lo hi [] [] h k = refl
scan-append zero lo hi [] (y ∷ ys) h k = k
scan-append (suc n) lo hi [] ys h k = cc
scan-append zero lo hi (c ∷ xs) ys h k =
    scan_lead (lead c) xs ys h (λ n l u e. scan-append n l u xs ys e k)
scan-append (suc n) lo hi (c ∷ xs) ys h k =
    last_test (leb lo c) (leb c hi) h (λ e. scan-append n 0x80 0xBF xs ys e k)

pub is_utf8-append :
    (xs ys : Bytes) → is_utf8 xs ≡ true → is_utf8 ys ≡ true → is_utf8 (xs ++ ys) ≡ true
unfolding is_utf8
is_utf8-append xs ys h k = scan-append 0 0x80 0xBF xs ys h k

-- A single ASCII byte.
pub is_utf8_ascii : (c : ℕ) → c < 0x80 → is_utf8 (c ∷ []) ≡ true
unfolding is_utf8
is_utf8_ascii c h = ground arith
