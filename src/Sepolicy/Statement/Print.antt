-- ===== src/Sepolicy/Statement/Print.antt =====
-- Every statement that native/src/sepolicy/statement.rs can call for is read from its tokens.
use mathlib.Core.Path.{subst}
use magisk.Prelude.{
  ℕ, zero, suc, ◌≤◌, ◌<◌, ◌≡◌, refl, sym, ap, ◌∙◌, inl, inr, Bool, true, false, some, List, [], ◌∷◌,
  ◌++◌, append-nil, append_assoc, arith, ◌==◌, if◌then◌else◌, ==_iff, Bool-cases, Bytes, All,
  length,
}
use magisk.Base.Text.{codes, equal_refl}
use magisk.Sepolicy.Statement.{
  Token, Xperm, Call, Parser, and_then, finish, parse_id, push_name, parse_names, parse_term,
  parse_sterm_names, parse_sterm, xperm, parse_xperm, push_xperm, or_close, parse_xperm_list,
  parse_xperms, match_string, exec_av, exec_xperms, exec_state, exec_attribute, exec_new_attribute,
  exec_type, exec_transition, exec_genfscon, or_error, exec_statement, al, dn, aa, da, ax, ay, dx,
  pm, ef, ta, ty, at, tx, tc, tm, gf, lb, rb, st, tl, hp, hx, id, new_type, allow, deny, auditallow,
  dontaudit, allowxperm, auditallowxperm, dontauditxperm, permissive, enforce, typeattribute, type_,
  attribute, type_transition, type_change, type_member, genfscon,
}

-- A list in braces, with what follows.
abbrev pub in_braces : List Bytes → List Token → List Token
in_braces [] ts = rb ∷ ts
in_braces (n ∷ ns) ts = id n ∷ in_braces ns ts

-- A term, with what follows: one name, or a list in braces.
abbrev pub print_term : List Bytes → List Token → List Token
print_term (n ∷ []) ts = id n ∷ ts
print_term ns ts = lb ∷ in_braces ns ts

-- A term for which the star stands for all.
abbrev pub print_sterm : List Bytes → List Token → List Token
print_sterm [] ts = st ∷ ts
print_sterm (n ∷ ns) ts = print_term (n ∷ ns) ts

-- A range, or one number.
abbrev pub print_xperm : Xperm → List Token → List Token
print_xperm x ts = if x.low == x.high then hx x.low ∷ ts else hx x.low ∷ hp ∷ hx x.high ∷ ts

abbrev pub xperms_in_braces : List Xperm → List Token → List Token
xperms_in_braces [] ts = rb ∷ ts
xperms_in_braces (x ∷ xs) ts = print_xperm x (xperms_in_braces xs ts)

abbrev pub print_xperms : Bool → List Xperm → List Token
print_xperms true xs = tl ∷ lb ∷ xperms_in_braces xs []
print_xperms false xs = lb ∷ xperms_in_braces xs []

parse_names-in_braces :
    (ns : List Bytes) (ts : List Token) → parse_names (in_braces ns ts) ≡ some (ns, ts)
unfolding parse_names
parse_names-in_braces [] ts = refl
parse_names-in_braces (n ∷ ns) ts = ap (push_name n) (parse_names-in_braces ns ts)

parse_term-print :
    (ns : List Bytes) (ts : List Token) → parse_term (print_term ns ts) ≡ some (ns, ts)
unfolding parse_term
parse_term-print [] ts = parse_names-in_braces [] ts
parse_term-print (n ∷ []) ts = refl
parse_term-print (n ∷ m ∷ ns) ts = parse_names-in_braces (n ∷ m ∷ ns) ts

parse_sterm_names-in_braces :
    (before ns : List Bytes) (ts : List Token)
    → parse_sterm_names (some before) (in_braces ns ts) ≡ some (before ++ ns, ts)
unfolding parse_sterm_names
parse_sterm_names-in_braces before [] ts = cc (append-nil before)
parse_sterm_names-in_braces before (n ∷ ns) ts =
    parse_sterm_names-in_braces (before ++ (n ∷ [])) ns ts
    ∙ ap (λ l. some (l, ts)) (append_assoc before (n ∷ []) ns)

parse_sterm-print :
    (ns : List Bytes) (ts : List Token) → parse_sterm (print_sterm ns ts) ≡ some (ns, ts)
unfolding parse_sterm
parse_sterm-print [] ts = refl
parse_sterm-print (n ∷ []) ts = refl
parse_sterm-print (n ∷ m ∷ ns) ts = parse_sterm_names-in_braces [] (n ∷ m ∷ ns) ts

one_number :
    (low : ℕ) (r : Bool) (xs : List Xperm) (ts : List Token)
    → parse_xperm r (hx low ∷ xperms_in_braces xs ts)
      ≡ some (xperm low low r, xperms_in_braces xs ts)
unfolding parse_xperm
one_number low r [] ts = refl
one_number low r (x ∷ xs) ts = elim (Bool-cases (x.low == x.high)) [
  | inl same ↦ rw same
  | inr range ↦ rw range
]

parse_xperm-print :
    (x : Xperm) (xs : List Xperm) (ts : List Token)
    → parse_xperm x.reset (print_xperm x (xperms_in_braces xs ts))
      ≡ some (x, xperms_in_braces xs ts)
unfolding parse_xperm
parse_xperm-print x xs ts = elim (Bool-cases (x.low == x.high)) [
  | inl same ↦ rw same (
      one_number x.low x.reset xs ts
      ∙ ap (λ high. some (xperm x.low high x.reset, xperms_in_braces xs ts))
          ((==_iff x.low x.high).0 same))
  | inr range ↦ rw range
]

or_close-more :
    (more : Parser (List Xperm)) (x : Xperm) (xs : List Xperm) (ts : List Token)
    → or_close more (xperms_in_braces (x ∷ xs) ts) ≡ more (xperms_in_braces (x ∷ xs) ts)
or_close-more more x xs ts = elim (Bool-cases (x.low == x.high)) [
  | inl same ↦ rw same
  | inr range ↦ rw range
]

shorter : (x : Xperm) (ts : List Token) → length ts < length (print_xperm x ts)
shorter x ts = elim (Bool-cases (x.low == x.high)) [
  | inl same ↦ rw same (omega arith)
  | inr range ↦ rw range (omega arith)
]

first_xperm :
    (r : Bool) (x : Xperm) (xs : List Xperm) (ts : List Token)
    → x.reset ≡ r
    → parse_xperm r (xperms_in_braces (x ∷ xs) ts) ≡ some (x, xperms_in_braces xs ts)
first_xperm r x xs ts e =
    ap (λ q. parse_xperm q (xperms_in_braces (x ∷ xs) ts)) (sym e) ∙ parse_xperm-print x xs ts

next_xperm :
    (fuel : ℕ) (r : Bool) (ts : List Token) {x : Xperm} {rest : List Token}
    → parse_xperm r ts ≡ some (x, rest)
    → parse_xperm_list (suc fuel) r ts ≡ push_xperm x (or_close (parse_xperm_list fuel r) rest)
unfolding parse_xperm_list
next_xperm fuel r ts e = rw (parse_xperm_list, e)

parse_xperm_list-in_braces :
    (fuel : ℕ) (r : Bool) (x : Xperm) (xs : List Xperm) (ts : List Token)
    → All (λ y. y.reset ≡ r) (x ∷ xs)
    → length (xperms_in_braces (x ∷ xs) ts) ≤ fuel
    → parse_xperm_list fuel r (xperms_in_braces (x ∷ xs) ts) ≡ some (x ∷ xs, ts)
unfolding parse_xperm_list
parse_xperm_list-in_braces zero r x xs ts h le =
    absurd (omega (arith, shorter x (xperms_in_braces xs ts)))
parse_xperm_list-in_braces (suc fuel) r x [] ts h le =
    next_xperm fuel r _ (first_xperm r x [] ts h.0)
parse_xperm_list-in_braces (suc fuel) r x (y ∷ xs) ts h le =
    next_xperm fuel r _ (first_xperm r x (y ∷ xs) ts h.0)
    ∙ ap (push_xperm x) (
        or_close-more (parse_xperm_list fuel r) y xs ts
        ∙ parse_xperm_list-in_braces fuel r y xs ts h.1
            (omega (arith, shorter x (xperms_in_braces (y ∷ xs) ts))))

-- The permissions that a statement can list: at least one, all with the same flag.
abbrev pub Uniform : List Xperm → Type 0
Uniform [] = ⊥
Uniform (x ∷ xs) = All (λ y. y.reset ≡ x.reset) xs

abbrev pub print_perms : List Xperm → List Token
print_perms [] = []
print_perms (x ∷ xs) = print_xperms x.reset (x ∷ xs)

parse_xperms-print : (xs : List Xperm) → Uniform xs → parse_xperms (print_perms xs) ≡ some (xs, [])
unfolding parse_xperms
parse_xperms-print [] h = absurd h
parse_xperms-print (x ∷ xs) h = with_flag x.reset refl
  where
    with_flag :
        (r : Bool) → x.reset ≡ r → parse_xperms (print_xperms r (x ∷ xs)) ≡ some (x ∷ xs, [])
    with_flag true e =
        parse_xperm_list-in_braces (length (xperms_in_braces (x ∷ xs) [])) true x xs []
          (e, subst (λ q. All (λ y. y.reset ≡ q) xs) e h) (omega arith)
    with_flag false e =
        parse_xperm_list-in_braces (length (xperms_in_braces (x ∷ xs) [])) false x xs []
          (e, subst (λ q. All (λ y. y.reset ≡ q) xs) e h) (omega arith)

-- The tokens of a statement.
abbrev pub print_call : Call → List Token
print_call (allow s t c p) = al ∷ print_sterm s (print_sterm t (print_sterm c (print_sterm p [])))
print_call (deny s t c p) = dn ∷ print_sterm s (print_sterm t (print_sterm c (print_sterm p [])))
print_call (auditallow s t c p) =
    aa ∷ print_sterm s (print_sterm t (print_sterm c (print_sterm p [])))
print_call (dontaudit s t c p) =
    da ∷ print_sterm s (print_sterm t (print_sterm c (print_sterm p [])))
print_call (allowxperm s t c p) =
    ax ∷ print_sterm s (print_sterm t (print_sterm c (id (codes "ioctl") ∷ print_perms p)))
print_call (auditallowxperm s t c p) =
    ay ∷ print_sterm s (print_sterm t (print_sterm c (id (codes "ioctl") ∷ print_perms p)))
print_call (dontauditxperm s t c p) =
    dx ∷ print_sterm s (print_sterm t (print_sterm c (id (codes "ioctl") ∷ print_perms p)))
print_call (permissive t) = pm ∷ print_sterm t []
print_call (enforce t) = ef ∷ print_sterm t []
print_call (typeattribute t a) = ta ∷ print_term t (print_term a [])
print_call (type_ t a) = ty ∷ id t ∷ print_term a []
print_call (attribute t) = at ∷ id t ∷ []
print_call (type_transition s t c d []) = tx ∷ id s ∷ id t ∷ id c ∷ id d ∷ []
print_call (type_transition s t c d (x ∷ o)) = tx ∷ id s ∷ id t ∷ id c ∷ id d ∷ id (x ∷ o) ∷ []
print_call (type_change s t c d) = tc ∷ id s ∷ id t ∷ id c ∷ id d ∷ []
print_call (type_member s t c d) = tm ∷ id s ∷ id t ∷ id c ∷ id d ∷ []
print_call (genfscon s t c) = gf ∷ id s ∷ id t ∷ id c ∷ []

-- The calls that a statement can ask for.
abbrev pub Sayable : Call → Type 0
Sayable (allowxperm s t c p) = Uniform p
Sayable (auditallowxperm s t c p) = Uniform p
Sayable (dontauditxperm s t c p) = Uniform p
Sayable _ = Unit

exec_av-print :
    (call : List Bytes → List Bytes → List Bytes → List Bytes → Call) (s t c p : List Bytes)
    → exec_av call (print_sterm s (print_sterm t (print_sterm c (print_sterm p []))))
      ≡ some (call s t c p, [])
unfolding exec_av
exec_av-print call s t c p = rw (
  parse_sterm-print s (print_sterm t (print_sterm c (print_sterm p []))),
  parse_sterm-print t (print_sterm c (print_sterm p [])),
  parse_sterm-print c (print_sterm p []),
  parse_sterm-print p [],
)

exec_xperms-print :
    (call : List Bytes → List Bytes → List Bytes → List Xperm → Call) (s t c : List Bytes)
    (p : List Xperm)
    → Uniform p
    → exec_xperms call
        (print_sterm s (print_sterm t (print_sterm c (id (codes "ioctl") ∷ print_perms p))))
      ≡ some (call s t c p, [])
unfolding exec_xperms match_string
exec_xperms-print call s t c p u = rw (
  parse_sterm-print s (print_sterm t (print_sterm c (id (codes "ioctl") ∷ print_perms p))),
  parse_sterm-print t (print_sterm c (id (codes "ioctl") ∷ print_perms p)),
  parse_sterm-print c (id (codes "ioctl") ∷ print_perms p),
  equal_refl (codes "ioctl"),
  parse_xperms-print p u,
)

-- `exec_statement` makes every call from the tokens that are printed of it, if its list of
-- extended permissions, where it has one, is not empty and has the same flag in all entries. Every
-- other list may be empty: a list of names is printed as `{ }` then, which the grammar does not
-- have and the parser takes.
pub exec_statement-print_call :
    (call : Call) → Sayable call → exec_statement (print_call call) ≡ inr call
unfolding exec_statement
exec_statement-print_call (allow s t c p) u = rw (exec_av-print allow s t c p)
exec_statement-print_call (deny s t c p) u = rw (exec_av-print deny s t c p)
exec_statement-print_call (auditallow s t c p) u = rw (exec_av-print auditallow s t c p)
exec_statement-print_call (dontaudit s t c p) u = rw (exec_av-print dontaudit s t c p)
exec_statement-print_call (allowxperm s t c p) u = rw (exec_xperms-print allowxperm s t c p u)
exec_statement-print_call (auditallowxperm s t c p) u =
    rw (exec_xperms-print auditallowxperm s t c p u)
exec_statement-print_call (dontauditxperm s t c p) u =
    rw (exec_xperms-print dontauditxperm s t c p u)
exec_statement-print_call (permissive t) u =
    unfold exec_state in rw (exec_state, parse_sterm-print t [])
exec_statement-print_call (enforce t) u =
    unfold exec_state in rw (exec_state, parse_sterm-print t [])
exec_statement-print_call (typeattribute t a) u =
    unfold exec_attribute in
    rw (exec_attribute, parse_term-print t (print_term a []), parse_term-print a [])
exec_statement-print_call (type_ t []) u = refl
exec_statement-print_call (type_ t (a ∷ [])) u = refl
exec_statement-print_call (type_ t (a ∷ b ∷ ns)) u =
    ap (λ r. or_error new_type (and_then r (λ n. finish (type_ t n))))
      (parse_term-print (a ∷ b ∷ ns) [])
exec_statement-print_call (attribute t) u = unfold exec_new_attribute parse_id in refl
exec_statement-print_call (type_transition s t c d []) u = unfold exec_transition parse_id in refl
exec_statement-print_call (type_transition s t c d (x ∷ o)) u =
    unfold exec_transition parse_id in refl
exec_statement-print_call (type_change s t c d) u = unfold exec_type parse_id in refl
exec_statement-print_call (type_member s t c d) u = unfold exec_type parse_id in refl
exec_statement-print_call (genfscon s t c) u = unfold exec_genfscon parse_id in refl
