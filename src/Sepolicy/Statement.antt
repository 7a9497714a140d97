-- ===== src/Sepolicy/Statement.antt =====
-- The parser of native/src/sepolicy/statement.rs: from tokens to the call of the policy database,
-- which is C++ code and stands here as the call that is made.
pub mod Print
pub mod Sound
use magisk.Prelude.{
  ℕ, zero, suc, ◌+◌, ◌-◌, ◌*◌, ◌/◌, ◌%◌, ◌^◌, ◌≤◌, ◌<◌, Ordering, compare, bit_and, bit_or, ◌≡◌,
  refl, sym, ap, ap₂, ◌∙◌, fun_ext, ◌≢◌, ◌↔◌, ◌⊎◌, inl, inr, Bool, true, false, not, ◌&&◌, ◌||◌,
  Option, none, some, List, [], ◌∷◌, ◌++◌, map, append-nil, append_assoc, arith, ltb, leb, ◌==◌,
  if◌then◌else◌, ltb→lt, lt→ltb, ltb→le, leb→le, le→leb, ==_iff, tests, Bool-cases, Option-cases,
  Bytes, All, length, take, drop, replicate, is_empty, all_of, length-append, length-replicate,
  take-append-drop, length-take, length-drop, take-append_left, drop-append_left, take_all,
  drop_all, set, set-append,
}
use magisk.Base.Text.{codes, equal}

-- `Token`; `TT` is `tx`.
pub data Token : Type 0 where
  al : Token
  dn : Token
  aa : Token
  da : Token
  ax : Token
  ay : Token
  dx : Token
  pm : Token
  ef : Token
  ta : Token
  ty : Token
  at : Token
  tx : Token
  tc : Token
  tm : Token
  gf : Token
  lb : Token
  rb : Token
  cm : Token
  st : Token
  tl : Token
  hp : Token
  hx : ℕ → Token
  id : Bytes → Token

pub data ParseError : Type 0 where
  avtab_av : Token → ParseError
  avtab_xperms : Token → ParseError
  avtab_type : Token → ParseError
  type_state : Token → ParseError
  type_attr : ParseError
  type_trans : ParseError
  new_type : ParseError
  new_attr : ParseError
  genfs_con : ParseError
  show_help : ParseError
  unknown_action : Token → ParseError

-- `ffi::Xperm`: two 16-bit numbers and a flag.
pub record Xperm : Type 0 where
  pub low : ℕ
  pub high : ℕ
  pub reset : Bool

-- The methods of the policy database.
pub data Call : Type 0 where
  allow : (s t c p : List Bytes) → Call
  deny : (s t c p : List Bytes) → Call
  auditallow : (s t c p : List Bytes) → Call
  dontaudit : (s t c p : List Bytes) → Call
  allowxperm : (s t c : List Bytes) (p : List Xperm) → Call
  auditallowxperm : (s t c : List Bytes) (p : List Xperm) → Call
  dontauditxperm : (s t c : List Bytes) (p : List Xperm) → Call
  permissive : (t : List Bytes) → Call
  enforce : (t : List Bytes) → Call
  typeattribute : (t a : List Bytes) → Call
  type_ : (t : Bytes) (a : List Bytes) → Call
  attribute : (t : Bytes) → Call
  type_transition : (s t c d o : Bytes) → Call
  type_change : (s t c d : Bytes) → Call
  type_member : (s t c d : Bytes) → Call
  genfscon : (s t c : Bytes) → Call

-- What a parser reads and what it leaves; `none` is `ParseError::General`.
abbrev pub Parser {ℓ} : Type ℓ → Type ℓ
Parser A = List Token → Option (A × List Token)

abbrev pub and_then {ℓ κ} :
    {A : Type ℓ} {B : Type κ} → Option (A × List Token) → (A → Parser B) → Option (B × List Token)
and_then none f = none
and_then (some (a, ts)) f = f a ts

infixl 5 ◌>>=◌
abbrev pub ◌>>=◌ {ℓ κ} : {A : Type ℓ} {B : Type κ} → Parser A → (A → Parser B) → Parser B
p >>= f = λ ts. and_then (p ts) f

-- `check_additional_args`, and the call behind it.
abbrev pub finish {ℓ} : {A : Type ℓ} → A → Parser A
finish a [] = some (a, [])
finish a (t ∷ ts) = none

unfoldable pub parse_id : Parser Bytes
parse_id (id name ∷ ts) = some (name, ts)
parse_id _ = none

-- `names.push(name)`, in front of the names that follow.
abbrev pub push_name : Bytes → Option (List Bytes × List Token) → Option (List Bytes × List Token)
push_name name none = none
push_name name (some (names, ts)) = some (name ∷ names, ts)

-- The loop of `parse_term` behind a brace.
unfoldable pub parse_names : Parser (List Bytes)
parse_names (id name ∷ ts) = push_name name (parse_names ts)
parse_names (rb ∷ ts) = some ([], ts)
parse_names _ = none

unfoldable pub parse_term : Parser (List Bytes)
unfolding parse_names
parse_term (id name ∷ ts) = some (name ∷ [], ts)
parse_term (lb ∷ ts) = parse_names ts
parse_term _ = none

-- `if let Some(ref mut names) = names { names.push(name) }`
abbrev pub pushed : Option (List Bytes) → Bytes → Option (List Bytes)
pushed none name = none
pushed (some names) name = some (names ++ (name ∷ []))

abbrev pub unwrap_or_nil : Option (List Bytes) → List Bytes
unwrap_or_nil none = []
unwrap_or_nil (some names) = names

-- The loop of `parse_sterm` behind a brace.
unfoldable pub parse_sterm_names : Option (List Bytes) → Parser (List Bytes)
parse_sterm_names names (id name ∷ ts) = parse_sterm_names (pushed names name) ts
parse_sterm_names names (st ∷ ts) = parse_sterm_names none ts
parse_sterm_names names (rb ∷ ts) = some (unwrap_or_nil names, ts)
parse_sterm_names names _ = none

unfoldable pub parse_sterm : Parser (List Bytes)
unfolding parse_sterm_names
parse_sterm (id name ∷ ts) = some (name ∷ [], ts)
parse_sterm (st ∷ ts) = some ([], ts)
parse_sterm (lb ∷ ts) = parse_sterm_names (some []) ts
parse_sterm _ = none

abbrev pub xperm : ℕ → ℕ → Bool → Xperm
xperm low high reset = record { low = low; high = high; reset = reset }

-- `parse_xperm`, with the flag that its caller sets.
unfoldable pub parse_xperm : Bool → Parser Xperm
parse_xperm reset (hx low ∷ hp ∷ hx high ∷ ts) = some (xperm low high reset, ts)
parse_xperm reset (hx low ∷ hp ∷ ts) = none
parse_xperm reset (hx low ∷ ts) = some (xperm low low reset, ts)
parse_xperm reset _ = none

abbrev pub push_xperm : Xperm → Option (List Xperm × List Token) → Option (List Xperm × List Token)
push_xperm x none = none
push_xperm x (some (xs, ts)) = some (x ∷ xs, ts)

-- The end of the loop's body: a closing brace ends it.
abbrev pub or_close : Parser (List Xperm) → Parser (List Xperm)
or_close more (rb ∷ ts) = some ([], ts)
or_close more ts = more ts

-- The loop of `parse_xperms`, on fuel: without fuel there are no tokens, and the next round fails.
unfoldable pub parse_xperm_list : ℕ → Bool → Parser (List Xperm)
unfolding parse_xperm
parse_xperm_list zero reset ts = none
parse_xperm_list (suc fuel) reset ts = elim (parse_xperm reset ts) [
  | none ↦ none
  | some (x, rest) ↦ push_xperm x (or_close (parse_xperm_list fuel reset) rest)
]

unfoldable pub parse_xperms : Parser (List Xperm)
unfolding parse_xperm_list
parse_xperms (tl ∷ lb ∷ ts) = parse_xperm_list (length ts) true ts
parse_xperms (lb ∷ ts) = parse_xperm_list (length ts) false ts
parse_xperms (st ∷ ts) = some (xperm 0 0xFFFF false ∷ [], ts)
parse_xperms (hx low ∷ ts) =
    some ((if ltb 0 low then xperm low low false else xperm 0 0xFFFF false) ∷ [], ts)
parse_xperms _ = none

unfoldable pub match_string : Bytes → Parser (Unit {0})
match_string pattern (id s ∷ ts) = if equal s pattern then some (tt, ts) else none
match_string pattern _ = none

-- `allow`, `deny`, `auditallow` and `dontaudit`
unfoldable pub exec_av : (List Bytes → List Bytes → List Bytes → List Bytes → Call) → Parser Call
unfolding parse_sterm
exec_av call = do
  s ← parse_sterm
  t ← parse_sterm
  c ← parse_sterm
  p ← parse_sterm
  finish (call s t c p)

-- `allowxperm`, `auditallowxperm` and `dontauditxperm`
unfoldable pub exec_xperms :
    (List Bytes → List Bytes → List Bytes → List Xperm → Call) → Parser Call
unfolding parse_sterm match_string parse_xperms
exec_xperms call = do
  s ← parse_sterm
  t ← parse_sterm
  c ← parse_sterm
  matched ← match_string (codes "ioctl")
  p ← parse_xperms
  finish (call s t c p)

-- `permissive` and `enforce`
unfoldable pub exec_state : (List Bytes → Call) → Parser Call
unfolding parse_sterm
exec_state call = do t ← parse_sterm; finish (call t)

unfoldable pub exec_attribute : Parser Call
unfolding parse_term
exec_attribute = do t ← parse_term; a ← parse_term; finish (typeattribute t a)

-- A last part that may be missing.
abbrev pub or_missing {ℓ} : {A : Type ℓ} → A → Parser A → Parser A
or_missing a p [] = some (a, [])
or_missing a p (t ∷ ts) = p (t ∷ ts)

unfoldable pub exec_new_type : Parser Call
unfolding parse_term parse_id
exec_new_type = do t ← parse_id; a ← or_missing [] parse_term; finish (type_ t a)

unfoldable pub exec_new_attribute : Parser Call
unfolding parse_id
exec_new_attribute = do t ← parse_id; finish (attribute t)

-- `type_change` and `type_member`
unfoldable pub exec_type : (Bytes → Bytes → Bytes → Bytes → Call) → Parser Call
unfolding parse_id
exec_type call = do s ← parse_id; t ← parse_id; c ← parse_id; d ← parse_id; finish (call s t c d)

unfoldable pub exec_transition : Parser Call
unfolding parse_id
exec_transition = do
  s ← parse_id
  t ← parse_id
  c ← parse_id
  d ← parse_id
  o ← or_missing [] parse_id
  finish (type_transition s t c d o)

unfoldable pub exec_genfscon : Parser Call
unfolding parse_id
exec_genfscon = do s ← parse_id; t ← parse_id; c ← parse_id; finish (genfscon s t c)

-- `if result.is_err()`
abbrev pub or_error : ParseError → Option (Call × List Token) → ParseError ⊎ Call
or_error error none = inl error
or_error error (some (call, ts)) = inr call

-- `exec_statement`: the call that is made, or the error, and then no call is made.
unfoldable pub exec_statement : List Token → ParseError ⊎ Call
unfolding exec_av exec_xperms exec_state exec_attribute exec_new_type exec_new_attribute exec_type
    exec_transition exec_genfscon
exec_statement [] = inl show_help
exec_statement (al ∷ ts) = or_error (avtab_av al) (exec_av allow ts)
exec_statement (dn ∷ ts) = or_error (avtab_av dn) (exec_av deny ts)
exec_statement (aa ∷ ts) = or_error (avtab_av aa) (exec_av auditallow ts)
exec_statement (da ∷ ts) = or_error (avtab_av da) (exec_av dontaudit ts)
exec_statement (ax ∷ ts) = or_error (avtab_xperms ax) (exec_xperms allowxperm ts)
exec_statement (ay ∷ ts) = or_error (avtab_xperms ay) (exec_xperms auditallowxperm ts)
exec_statement (dx ∷ ts) = or_error (avtab_xperms dx) (exec_xperms dontauditxperm ts)
exec_statement (pm ∷ ts) = or_error (type_state pm) (exec_state permissive ts)
exec_statement (ef ∷ ts) = or_error (type_state ef) (exec_state enforce ts)
exec_statement (ta ∷ ts) = or_error type_attr (exec_attribute ts)
exec_statement (ty ∷ ts) = or_error new_type (exec_new_type ts)
exec_statement (at ∷ ts) = or_error new_attr (exec_new_attribute ts)
exec_statement (tc ∷ ts) = or_error (avtab_type tc) (exec_type type_change ts)
exec_statement (tm ∷ ts) = or_error (avtab_type tm) (exec_type type_member ts)
exec_statement (tx ∷ ts) = or_error type_trans (exec_transition ts)
exec_statement (gf ∷ ts) = or_error genfs_con (exec_genfscon ts)
exec_statement (t ∷ ts) = inl (unknown_action t)
