-- ===== src/Sepolicy/Lexer/Text.antt =====
-- The text of a statement, and what native/src/sepolicy/statement.rs reads from it.
use magisk.Prelude.{
  ℕ, ◌<◌, ◌≡◌, refl, ap, ap₂, ◌∙◌, inr, false, some, List, [], ◌∷◌, ◌++◌, map, arith, Bytes, All,
}
use magisk.Base.Text.{codes, starts_with, non_empty}
use magisk.Sepolicy.Statement.{
  Token, Call, exec_statement, al, dn, aa, da, ax, ay, dx, pm, ef, ta, ty, at, tx, tc, tm, gf, lb,
  rb, cm, st, tl, hp, hx, id, allow, deny, auditallow, dontaudit, allowxperm, auditallowxperm,
  dontauditxperm, permissive, enforce, typeattribute, type_, attribute, type_transition,
  type_change, type_member, genfscon,
}
use magisk.Sepolicy.Statement.Print.{print_call, Sayable, exec_statement-print_call}
use magisk.Sepolicy.Lexer.{
  space_len, push_byte, split_space, split_whitespace, word_list_tokens, tokenize_statement,
  parse_statement,
}
use magisk.Sepolicy.Lexer.Words.{extract_token-display, display, Shown}

abbrev Visible : Bytes → Type 0
Visible = All (λ c. (0x20 < c) × (c < 0x7F))

space_len-visible : (c : ℕ) (s : Bytes) → 0x20 < c → c < 0x7F → space_len (c ∷ s) ≡ 0
unfolding space_len starts_with
space_len-visible c s h k = ground arith

byte_of_word :
    (c : ℕ) (s : Bytes)
    → space_len (c ∷ s) ≡ 0
    → split_space 0 (c ∷ s) ≡ push_byte c (split_space 0 s)
unfolding split_space
byte_of_word c s e = rw (split_space, e)

split_space-word : (w s : Bytes) → Visible w → split_space 0 (w ++ (b' ' ∷ s)) ≡ w ∷ split_space 0 s
unfolding split_space
split_space-word [] s h = unfold space_len in refl
split_space-word (c ∷ w) s h =
    byte_of_word c (w ++ (b' ' ∷ s)) (space_len-visible c (w ++ (b' ' ∷ s)) h.0.0 h.0.1)
    ∙ ap (push_byte c) (split_space-word w s h.1)

split_space-last : (w : Bytes) → Visible w → split_space 0 w ≡ w ∷ []
unfolding split_space
split_space-last [] h = refl
split_space-last (c ∷ w) h =
    byte_of_word c w (space_len-visible c w h.0.0 h.0.1) ∙ ap (push_byte c) (split_space-last w h.1)

display-Visible : (t : Token) → Shown t → Visible (display t)
unfolding display
display-Visible (id s) h = h.visible
display-Visible (hx n) h = absurd h
display-Visible al h = omega arith
display-Visible dn h = omega arith
display-Visible aa h = omega arith
display-Visible da h = omega arith
display-Visible ax h = omega arith
display-Visible ay h = omega arith
display-Visible dx h = omega arith
display-Visible pm h = omega arith
display-Visible ef h = omega arith
display-Visible ta h = omega arith
display-Visible ty h = omega arith
display-Visible at h = omega arith
display-Visible tx h = omega arith
display-Visible tc h = omega arith
display-Visible tm h = omega arith
display-Visible gf h = omega arith
display-Visible lb h = omega arith
display-Visible rb h = omega arith
display-Visible cm h = omega arith
display-Visible st h = omega arith
display-Visible tl h = omega arith
display-Visible hp h = omega arith

non_empty-display :
    (t : Token) (ws : List Bytes) → Shown t → non_empty (display t ∷ ws) ≡ display t ∷ non_empty ws
unfolding display non_empty
non_empty-display (id []) ws h = absurd (h.not_empty refl)
non_empty-display (id (c ∷ s)) ws h = refl
non_empty-display (hx n) ws h = absurd h
non_empty-display al ws h = refl
non_empty-display dn ws h = refl
non_empty-display aa ws h = refl
non_empty-display da ws h = refl
non_empty-display ax ws h = refl
non_empty-display ay ws h = refl
non_empty-display dx ws h = refl
non_empty-display pm ws h = refl
non_empty-display ef ws h = refl
non_empty-display ta ws h = refl
non_empty-display ty ws h = refl
non_empty-display at ws h = refl
non_empty-display tx ws h = refl
non_empty-display tc ws h = refl
non_empty-display tm ws h = refl
non_empty-display gf ws h = refl
non_empty-display lb ws h = refl
non_empty-display rb ws h = refl
non_empty-display cm ws h = refl
non_empty-display st ws h = refl
non_empty-display tl ws h = refl
non_empty-display hp ws h = refl

-- The tokens with a space between them.
abbrev pub display_all : List Token → Bytes
display_all [] = []
display_all (t ∷ []) = display t
display_all (t ∷ u ∷ ts) = display t ++ (b' ' ∷ display_all (u ∷ ts))

split_whitespace-display :
    (ts : List Token) → All Shown ts → split_whitespace (display_all ts) ≡ map display ts
unfolding split_whitespace
split_whitespace-display [] h = unfold split_space non_empty in refl
split_whitespace-display (t ∷ []) h =
    ap non_empty (split_space-last (display t) (display-Visible t h.0))
    ∙ non_empty-display t [] h.0
    ∙ unfold non_empty in refl
split_whitespace-display (t ∷ u ∷ ts) h =
    ap non_empty (split_space-word (display t) (display_all (u ∷ ts)) (display-Visible t h.0))
    ∙ non_empty-display t (split_space 0 (display_all (u ∷ ts))) h.0
    ∙ ap (◌∷◌ (display t)) (split_whitespace-display (u ∷ ts) h.1)

word_list_tokens-display : (ts : List Token) → All Shown ts → word_list_tokens (map display ts) ≡ ts
word_list_tokens-display [] h = refl
word_list_tokens-display (t ∷ ts) h =
    ap₂ ◌++◌ (extract_token-display t h.0) (word_list_tokens-display ts h.1)

-- Tokens that can be displayed are what `tokenize_statement` reads from their texts with spaces
-- between them.
pub tokenize_statement-display :
    (ts : List Token) → All Shown ts → tokenize_statement (display_all ts) ≡ ts
unfolding tokenize_statement
tokenize_statement-display ts h =
    ap word_list_tokens (split_whitespace-display ts h) ∙ word_list_tokens-display ts h

-- A statement starts with its action, which is no comment.
print_call-action :
    (call : Call)
    → (t : Token) × (ts : List Token) × (print_call call ≡ t ∷ ts)
      × (starts_with (display t) (codes "#") ≡ false)
unfolding display starts_with
print_call-action (allow s t c p) = (_, _, refl, refl)
print_call-action (deny s t c p) = (_, _, refl, refl)
print_call-action (auditallow s t c p) = (_, _, refl, refl)
print_call-action (dontaudit s t c p) = (_, _, refl, refl)
print_call-action (allowxperm s t c p) = (_, _, refl, refl)
print_call-action (auditallowxperm s t c p) = (_, _, refl, refl)
print_call-action (dontauditxperm s t c p) = (_, _, refl, refl)
print_call-action (permissive t) = (_, _, refl, refl)
print_call-action (enforce t) = (_, _, refl, refl)
print_call-action (typeattribute t a) = (_, _, refl, refl)
print_call-action (type_ t a) = (_, _, refl, refl)
print_call-action (attribute t) = (_, _, refl, refl)
print_call-action (type_transition s t c d []) = (_, _, refl, refl)
print_call-action (type_transition s t c d (x ∷ o)) = (_, _, refl, refl)
print_call-action (type_change s t c d) = (_, _, refl, refl)
print_call-action (type_member s t c d) = (_, _, refl, refl)
print_call-action (genfscon s t c) = (_, _, refl, refl)

statement_runs :
    (text w : Bytes) (ws : List Bytes)
    → split_whitespace text ≡ w ∷ ws
    → starts_with w (codes "#") ≡ false
    → parse_statement text ≡ some (exec_statement (tokenize_statement text))
unfolding parse_statement tokenize_statement
statement_runs text w ws e h =
    rw (parse_statement, e, h) (ap (λ l. some (exec_statement (word_list_tokens l))) e)

-- If the tokens of a call can be displayed (no numbers, and every name visible ASCII, no keyword,
-- and without the characters that the lexer splits at), `parse_statement` makes the call from the
-- text of its tokens with spaces between them. This includes the calls with an empty list where
-- the grammar wants names: their text has `{ }` there, and the parser takes it.
pub parse_statement-display :
    (call : Call)
    → Sayable call
    → All Shown (print_call call)
    → parse_statement (display_all (print_call call)) ≡ some (inr call)
parse_statement-display call u h =
    let text = display_all (print_call call) in
    let (t, ts, e, plain) = print_call-action call in
    statement_runs text (display t) (map display ts)
      (split_whitespace-display (print_call call) h ∙ ap (map display) e) plain
    ∙ ap (λ tokens. some (exec_statement tokens)) (tokenize_statement-display (print_call call) h)
    ∙ ap (λ r. some r) (exec_statement-print_call call u)
