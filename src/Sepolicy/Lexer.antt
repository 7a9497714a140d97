-- ===== src/Sepolicy/Lexer.antt =====
-- The lexer of native/src/sepolicy/statement.rs: from the text of a statement to its tokens.
pub mod Words
pub mod Text
use magisk.Prelude.{
  ℕ, zero, suc, ◌+◌, ◌-◌, ◌*◌, ◌/◌, ◌%◌, ◌^◌, ◌≤◌, ◌<◌, Ordering, compare, bit_and, bit_or, ◌≡◌,
  refl, sym, ap, ap₂, ◌∙◌, fun_ext, ◌≢◌, ◌↔◌, ◌⊎◌, inl, inr, Bool, true, false, not, ◌&&◌, ◌||◌,
  Option, none, some, List, [], ◌∷◌, ◌++◌, map, append-nil, append_assoc, arith, ltb, leb, ◌==◌,
  if◌then◌else◌, ltb→lt, lt→ltb, ltb→le, leb→le, le→leb, ==_iff, tests, Bool-cases, Option-cases,
  Bytes, All, length, take, drop, replicate, is_empty, all_of, length-append, length-replicate,
  take-append-drop, length-take, length-drop, take-append_left, drop-append_left, take_all,
  drop_all, set, set-append,
}
use magisk.Base.Text.{codes, equal, starts_with, strip_prefix, non_empty}
use magisk.Sepolicy.Statement.{
  Token, ParseError, Xperm, Call, Parser, and_then, finish, parse_id, push_name, parse_names,
  parse_term, pushed, unwrap_or_nil, parse_sterm_names, parse_sterm, xperm, parse_xperm, push_xperm,
  or_close, parse_xperm_list, parse_xperms, match_string, exec_av, exec_xperms, exec_state,
  exec_attribute, or_missing, exec_new_type, exec_new_attribute, exec_type, exec_transition,
  exec_genfscon, or_error, exec_statement, al, dn, aa, da, ax, ay, dx, pm, ef, ta, ty, at, tx, tc,
  tm, gf, lb, rb, cm, st, tl, hp, hx, id, avtab_av, avtab_xperms, avtab_type, type_state, type_attr,
  type_trans, new_type, new_attr, genfs_con, show_help, unknown_action, allow, deny, auditallow,
  dontaudit, allowxperm, auditallowxperm, dontauditxperm, permissive, enforce, typeattribute, type_,
  attribute, type_transition, type_change, type_member, genfscon,
}

-- The words of `extract_token` that are one token.
abbrev pub keywords : List (Bytes × Token)
keywords =
    (codes "allow", al)
    ∷ (codes "deny", dn)
    ∷ (codes "auditallow", aa)
    ∷ (codes "dontaudit", da)
    ∷ (codes "allowxperm", ax)
    ∷ (codes "auditallowxperm", ay)
    ∷ (codes "dontauditxperm", dx)
    ∷ (codes "permissive", pm)
    ∷ (codes "enforce", ef)
    ∷ (codes "typeattribute", ta)
    ∷ (codes "type", ty)
    ∷ (codes "attribute", at)
    ∷ (codes "type_transition", tx)
    ∷ (codes "type_change", tc)
    ∷ (codes "type_member", tm)
    ∷ (codes "genfscon", gf)
    ∷ (codes "*", st)
    ∷ []

-- The `match` on such a word.
unfoldable pub keyword : List (Bytes × Token) → Bytes → Option Token
keyword [] s = none
keyword ((word, t) ∷ table) s = let rest = keyword table s in if equal s word then some t else rest

abbrev pub in_front : ℕ → Option (Bytes × Bytes) → Option (Bytes × Bytes)
in_front c none = none
in_front c (some (a, b)) = some (c ∷ a, b)

-- `s.find(c)`, `split_at` and `&b[1..]`: what stands in front of the first such character and behind.
unfoldable pub split_once : ℕ → Bytes → Option (Bytes × Bytes)
split_once sep [] = none
split_once sep (c ∷ s) =
    let rest = split_once sep s in if c == sep then some ([], s) else in_front c rest

-- The digits of a decimal 16-bit number; `none` where it has another character or is too large.
unfoldable pub decimal : ℕ → Bytes → Option ℕ
decimal n [] = some n
decimal n (c ∷ s) =
    let n' = n * 10 + (c - b'0') in
    let rest = decimal n' s in if leb b'0' c && leb c b'9' && ltb n' 0x10000 then rest else none

-- `s.parse::<u16>()`, which takes a plus sign in front.
unfoldable pub parse_u16 : Bytes → Option ℕ
unfolding decimal
parse_u16 [] = none
parse_u16 (c ∷ []) = decimal 0 (c ∷ [])
parse_u16 (c ∷ d ∷ s) = if c == b'+' then decimal 0 (d ∷ s) else decimal 0 (c ∷ d ∷ s)

-- `unwrap_or(0)`
abbrev pub or_zero : Option ℕ → ℕ
or_zero none = 0
or_zero (some n) = n

-- The branches behind the four `find`s.
unfoldable pub last_token : (Bytes → List Token) → Bytes → List Token
unfolding parse_u16
last_token extract s = elim (strip_prefix s (codes "~")) [
  | some rest ↦ tl ∷ extract rest
  | none ↦ elim (strip_prefix s (codes "0x")) [
    | some digits ↦ hx (or_zero (parse_u16 digits)) ∷ []
    | none ↦ id s ∷ []
  ]
]

-- One of the branches with `find`, and the next one.
unfoldable pub split_token :
    ℕ → Token → (Bytes → List Token) → (Bytes → List Token) → Bytes → List Token
unfolding split_once
split_token sep t extract next s = elim (split_once sep s) [
  | some (a, b) ↦ extract a ++ (t ∷ extract b)
  | none ↦ next s
]

-- The four branches with `find`, in the order of the source.
unfoldable pub word_tokens : (Bytes → List Token) → Bytes → List Token
unfolding split_token last_token
word_tokens extract = split_token b'{' lb extract (
    split_token b'}' rb extract
      (split_token b',' cm extract (split_token b'-' hp extract (last_token extract))))

-- `extract_token`, on fuel: every call is on a shorter text.
unfoldable pub extract_token : ℕ → Bytes → List Token
unfolding keyword word_tokens
extract_token fuel [] = []
extract_token zero (c ∷ s) = []
extract_token (suc fuel) (c ∷ s) = elim (keyword keywords (c ∷ s)) [
  | some t ↦ t ∷ []
  | none ↦ word_tokens (extract_token fuel) (c ∷ s)
]

-- How many bytes of the text are a white space character at its start, in UTF-8 (`White_Space` of
-- Unicode).
unfoldable pub space_len : Bytes → ℕ
space_len [] = 0
space_len (c ∷ s) =
    if c == 0x20 || (leb 9 c && leb c 13)
    then 1
    else if starts_with (c ∷ s) (0xC2 ∷ 0x85 ∷ []) || starts_with (c ∷ s) (0xC2 ∷ 0xA0 ∷ [])
    then 2
    else if starts_with (c ∷ s) (0xE1 ∷ 0x9A ∷ 0x80 ∷ [])
        || starts_with (c ∷ s) (0xE2 ∷ 0x81 ∷ 0x9F ∷ [])
        || starts_with (c ∷ s) (0xE3 ∷ 0x80 ∷ 0x80 ∷ [])
        || (starts_with (c ∷ s) (0xE2 ∷ 0x80 ∷ []) && general_space (drop 2 s))
    then 3
    else 0
  where
    general_space : Bytes → Bool
    general_space [] = false
    general_space (d ∷ _) = (leb 0x80 d && leb d 0x8A) || d == 0xA8 || d == 0xA9 || d == 0xAF

-- A byte in front of the first word.
abbrev pub push_byte : ℕ → List Bytes → List Bytes
push_byte c [] = (c ∷ []) ∷ []
push_byte c (w ∷ ws) = (c ∷ w) ∷ ws

-- The texts between white space; the first argument counts the bytes of a character to skip.
unfoldable pub split_space : ℕ → Bytes → List Bytes
unfolding space_len
split_space skip [] = [] ∷ []
split_space (suc skip) (c ∷ s) = split_space skip s
split_space zero (c ∷ s) = elim (space_len (c ∷ s)) [
  | zero ↦ push_byte c (split_space zero s)
  | suc skip ↦ [] ∷ split_space skip s
]

unfoldable pub split_whitespace : Bytes → List Bytes
unfolding split_space
split_whitespace text = non_empty (split_space 0 text)

abbrev pub word_list_tokens : List Bytes → List Token
word_list_tokens [] = []
word_list_tokens (w ∷ ws) = extract_token (length w) w ++ word_list_tokens ws

unfoldable pub tokenize_statement : Bytes → List Token
unfolding extract_token split_whitespace
tokenize_statement statement = word_list_tokens (split_whitespace statement)

-- `parse_statement`: nothing to do, or what `exec_statement` gives. The text has only white space
-- around what `trim` leaves, so that is empty where there are no words, and starts with `#` where
-- the first word does.
unfoldable pub parse_statement : Bytes → Option (ParseError ⊎ Call)
unfolding tokenize_statement exec_statement
parse_statement statement = elim (split_whitespace statement) [
  | [] ↦ none
  | w ∷ ws ↦
      if starts_with w (codes "#")
      then none
      else some (exec_statement (tokenize_statement statement))
]
