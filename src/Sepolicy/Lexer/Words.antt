-- ===== src/Sepolicy/Lexer/Words.antt =====
-- What the lexer of native/src/sepolicy/statement.rs makes of the words of a statement.
use magisk.Prelude.{
  ◌-◌, ◌%◌, ltb, if◌then◌else◌, ◌/◌, ℕ, zero, suc, ◌+◌, ◌≤◌, ◌<◌, ◌≡◌, refl, ap, ap₂, ◌∙◌, ◌≢◌, inl,
  inr, none, some, List, [], ◌∷◌, ◌++◌, arith, ◌==◌, Bool-cases, Option-cases, Bytes, All, length,
}
use magisk.Base.Text.{codes, equal, strip_prefix}
use magisk.Sepolicy.Statement.{
  Token, al, dn, aa, da, ax, ay, dx, pm, ef, ta, ty, at, tx, tc, tm, gf, lb, rb, cm, st, tl, hp, hx,
  id,
}
use magisk.Sepolicy.Lexer.{
  keywords, keyword, split_once, last_token, split_token, word_tokens, extract_token,
}

split_once-length :
    (sep : ℕ) (s a b : Bytes) → split_once sep s ≡ some (a, b) → length a + length b + 1 ≡ length s
unfolding split_once
split_once-length sep [] a b e = cc
split_once-length sep (c ∷ s) a b e = elim (Bool-cases (c == sep)) [
  | inl here ↦ ground arith
  | inr later ↦ elim (Option-cases (split_once sep s)) [
    | inl missing ↦ ground arith
    | inr ((a', b'), found) ↦ ground (arith, split_once-length sep s a' b' found)
  ]
]

strip_prefix-length :
    (s p rest : Bytes) → strip_prefix s p ≡ some rest → length s ≡ length p + length rest
unfolding strip_prefix
strip_prefix-length s [] rest e = ground arith
strip_prefix-length [] (c ∷ p) rest e = cc
strip_prefix-length (b ∷ s) (c ∷ p) rest e = ground (arith, strip_prefix-length s p rest)

-- Two lexers that agree on every shorter text.
abbrev AgreeBelow : Bytes → (Bytes → List Token) → (Bytes → List Token) → Type 0
AgreeBelow s f g = (r : Bytes) → length r < length s → f r ≡ g r

split_token-agree :
    (sep : ℕ) (t : Token) (f g next next' : Bytes → List Token) (s : Bytes)
    → AgreeBelow s f g
    → next s ≡ next' s
    → split_token sep t f next s ≡ split_token sep t g next' s
unfolding split_token
split_token-agree sep t f g next next' s below same = elim (Option-cases (split_once sep s)) [
  | inl missing ↦ rw (split_token, missing) same
  | inr ((a, b), found) ↦
      let sizes = split_once-length sep s a b found in
      rw (split_token, found)
        (ap₂ ◌++◌ (below a (omega (arith, sizes))) (ap (◌∷◌ t) (below b (omega (arith, sizes)))))
]

last_token-agree :
    (f g : Bytes → List Token) (s : Bytes) → AgreeBelow s f g → last_token f s ≡ last_token g s
unfolding last_token
last_token-agree f g s below = elim (Option-cases (strip_prefix s (codes "~"))) [
  | inl missing ↦ rw (last_token, missing)
  | inr (rest, found) ↦
      rw (last_token, found)
        (ap (◌∷◌ tl) (below rest (omega (arith, strip_prefix-length s (codes "~") rest found))))
]

word_tokens-agree :
    (f g : Bytes → List Token) (s : Bytes) → AgreeBelow s f g → word_tokens f s ≡ word_tokens g s
unfolding word_tokens
word_tokens-agree f g s below =
    split_token-agree b'{' lb f g
      (split_token b'}' rb f (split_token b',' cm f (split_token b'-' hp f (last_token f))))
      (split_token b'}' rb g (split_token b',' cm g (split_token b'-' hp g (last_token g)))) s below
      (split_token-agree b'}' rb f g (split_token b',' cm f (split_token b'-' hp f (last_token f)))
        (split_token b',' cm g (split_token b'-' hp g (last_token g))) s below
        (split_token-agree b',' cm f g (split_token b'-' hp f (last_token f))
          (split_token b'-' hp g (last_token g)) s below
          (split_token-agree b'-' hp f g (last_token f) (last_token g) s below
            (last_token-agree f g s below))))

-- The recursion of `extract_token` ends: with fuel for the bytes of the word, more fuel changes
-- nothing.
pub extract_token-fuel :
    (f g : ℕ) (s : Bytes) → length s ≤ f → length s ≤ g → extract_token f s ≡ extract_token g s
unfolding extract_token
extract_token-fuel f g [] h k = refl
extract_token-fuel zero g (c ∷ s) h k = absurd (omega arith)
extract_token-fuel (suc f) zero (c ∷ s) h k = absurd (omega arith)
extract_token-fuel (suc f) (suc g) (c ∷ s) h k = elim (Option-cases (keyword keywords (c ∷ s))) [
  | inl missing ↦
      rw (extract_token, missing)
        (word_tokens-agree (extract_token f) (extract_token g) (c ∷ s)
          (λ r lt. extract_token-fuel f g r (omega arith) (omega arith)))
  | inr (t, found) ↦ rw (extract_token, found)
]

-- A name that the lexer leaves whole.
pub record Plain (s : Bytes) : Type 0 where
  pub visible : All (λ c. (0x20 < c) × (c < 0x7F)) s
  pub not_empty : s ≢ []
  pub no_keyword : keyword keywords s ≡ none
  pub no_lb : split_once b'{' s ≡ none
  pub no_rb : split_once b'}' s ≡ none
  pub no_cm : split_once b',' s ≡ none
  pub no_hp : split_once b'-' s ≡ none
  pub no_tl : strip_prefix s (codes "~") ≡ none
  pub no_hx : strip_prefix s (codes "0x") ≡ none

split_token-none :
    (sep : ℕ) (t : Token) (f next : Bytes → List Token) (s : Bytes)
    → split_once sep s ≡ none
    → split_token sep t f next s ≡ next s
unfolding split_token
split_token-none sep t f next s e = rw (split_token, e)

word_tokens-Plain : (f : Bytes → List Token) (s : Bytes) → Plain s → word_tokens f s ≡ id s ∷ []
unfolding word_tokens split_token last_token
word_tokens-Plain f s p =
    split_token-none b'{' lb f
      (split_token b'}' rb f (split_token b',' cm f (split_token b'-' hp f (last_token f)))) s
      p.no_lb
    ∙ split_token-none b'}' rb f (split_token b',' cm f (split_token b'-' hp f (last_token f))) s
        p.no_rb
    ∙ split_token-none b',' cm f (split_token b'-' hp f (last_token f)) s p.no_cm
    ∙ split_token-none b'-' hp f (last_token f) s p.no_hp
    ∙ rw (last_token, p.no_tl, p.no_hx)

no_keyword_step :
    (fuel c : ℕ) (s : Bytes)
    → keyword keywords (c ∷ s) ≡ none
    → extract_token (suc fuel) (c ∷ s) ≡ word_tokens (extract_token fuel) (c ∷ s)
unfolding extract_token
no_keyword_step fuel c s e = rw (extract_token, e)

extract_token-Plain : (s : Bytes) → Plain s → extract_token (length s) s ≡ id s ∷ []
unfolding extract_token
extract_token-Plain [] p = absurd (p.not_empty refl)
extract_token-Plain (c ∷ s) p =
    no_keyword_step (length s) c s p.no_keyword
    ∙ word_tokens-Plain (extract_token (length s)) (c ∷ s) p

-- A digit of `{:X}`.
upper_digit : ℕ → ℕ
upper_digit d = if ltb d 10 then b'0' + d else b'A' + (d - 10)

-- `{n:06X}` of a 16-bit number.
pub format_06x : ℕ → Bytes
unfolding upper_digit
format_06x n =
    b'0'
    ∷ b'0'
    ∷ upper_digit (n / 4096 % 16)
    ∷ upper_digit (n / 256 % 16)
    ∷ upper_digit (n / 16 % 16)
    ∷ upper_digit (n % 16)
    ∷ []

-- The text of a token, as `Display` writes it. A number has no prefix there, so it is not read back.
unfoldable pub display : Token → Bytes
display al = codes "allow"
display dn = codes "deny"
display aa = codes "auditallow"
display da = codes "dontaudit"
display ax = codes "allowxperm"
display ay = codes "auditallowxperm"
display dx = codes "dontauditxperm"
display pm = codes "permissive"
display ef = codes "enforce"
display ta = codes "typeattribute"
display ty = codes "type"
display at = codes "attribute"
display tx = codes "type_transition"
display tc = codes "type_change"
display tm = codes "type_member"
display gf = codes "genfscon"
display lb = codes "{"
display rb = codes "}"
display cm = codes ","
display st = codes "*"
display tl = codes "~"
display hp = codes "-"
display (hx n) = format_06x n
display (id s) = s

-- The tokens that a text can give back.
abbrev pub Shown : Token → Type 0
Shown (hx n) = ⊥
Shown (id s) = Plain s
Shown _ = Unit

pub extract_token-display :
    (t : Token) → Shown t → extract_token (length (display t)) (display t) ≡ t ∷ []
unfolding extract_token keyword equal word_tokens split_token split_once last_token strip_prefix
    display
extract_token-display al h = refl
extract_token-display dn h = refl
extract_token-display aa h = refl
extract_token-display da h = refl
extract_token-display ax h = refl
extract_token-display ay h = refl
extract_token-display dx h = refl
extract_token-display pm h = refl
extract_token-display ef h = refl
extract_token-display ta h = refl
extract_token-display ty h = refl
extract_token-display at h = refl
extract_token-display tx h = refl
extract_token-display tc h = refl
extract_token-display tm h = refl
extract_token-display gf h = refl
extract_token-display lb h = refl
extract_token-display rb h = refl
extract_token-display cm h = refl
extract_token-display st h = refl
extract_token-display tl h = refl
extract_token-display hp h = refl
extract_token-display (hx n) h = absurd h
extract_token-display (id s) h = extract_token-Plain s h
