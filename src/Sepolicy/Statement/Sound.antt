-- ===== src/Sepolicy/Statement/Sound.antt =====
-- What the parser of native/src/sepolicy/statement.rs never lets through.
use mathlib.Core.Path.{subst}
use magisk.Prelude.{
  ℕ, zero, suc, ◌≡◌, refl, sym, ap, ◌∙◌, inl, inr, Bool, true, false, Option, none, some, List, [],
  ◌∷◌, arith, Option-cases, Bytes, All, length,
}
use magisk.Base.Text.{codes}
use magisk.Sepolicy.Statement.{
  deny, allow, Token, ParseError, Xperm, Call, Parser, and_then, finish, parse_id, parse_term,
  parse_sterm, parse_xperm, push_xperm, or_close, parse_xperm_list, parse_xperms, match_string,
  exec_av, exec_xperms, exec_state, exec_attribute, or_missing, exec_new_type, exec_new_attribute,
  exec_type, exec_transition, exec_genfscon, or_error, exec_statement, al, dn, aa, da, ax, ay, dx,
  pm, ef, ta, ty, at, tx, tc, tm, gf, lb, rb, st, tl, hp, hx, avtab_av, avtab_xperms, avtab_type,
  type_state, type_attr, type_trans, new_type, new_attr, genfs_con, auditallow, dontaudit,
  allowxperm, auditallowxperm, dontauditxperm, permissive, enforce, typeattribute, type_, attribute,
  type_transition, type_change, type_member, genfscon,
}
use magisk.Sepolicy.Statement.Print.{Uniform, Sayable}

and_then-some {ℓ κ} :
    {A : Type ℓ} {B : Type κ} (o : Option (A × List Token)) (f : A → Parser B) {r : B × List Token}
    → and_then o f ≡ some r
    → (a : A) × (ts : List Token) × (f a ts ≡ some r) × (o ≡ some (a, ts))
and_then-some none f e = cc
and_then-some (some (a, ts)) f e = (a, ts, e, refl)

parse_xperm-reset :
    (r : Bool) (ts : List Token) {x : Xperm} {rest : List Token}
    → parse_xperm r ts ≡ some (x, rest)
    → x.reset ≡ r
unfolding parse_xperm
parse_xperm-reset r (hx low ∷ hp ∷ hx high ∷ ts) e = ground arith
parse_xperm-reset r (hx low ∷ hp ∷ ts) e = ground arith
parse_xperm-reset r (hx low ∷ ts) e = ground arith
parse_xperm-reset r _ e = ground arith

abbrev Flagged : Bool → List Xperm → Type 0
Flagged r xs = All (λ y. y.reset ≡ r) xs

-- At least one permission, all with the flag.
abbrev Listed : Bool → List Xperm → Type 0
Listed r [] = ⊥
Listed r (x ∷ xs) = Flagged r (x ∷ xs)

Listed-Flagged : (r : Bool) (xs : List Xperm) → Listed r xs → Flagged r xs
Listed-Flagged r [] h = tt
Listed-Flagged r (x ∷ xs) h = h

Listed-Uniform : (r : Bool) (xs : List Xperm) → Listed r xs → Uniform xs
Listed-Uniform r [] h = h
Listed-Uniform r (x ∷ xs) h = subst (λ q. All (λ y. y.reset ≡ q) xs) (sym h.0) h.1

or_close-Flagged :
    (r : Bool) (more : Parser (List Xperm)) (ts : List Token) {xs : List Xperm} {rest : List Token}
    → ((us : List Token) (ys : List Xperm) (end : List Token)
        → more us ≡ some (ys, end)
        → Listed r ys)
    → or_close more ts ≡ some (xs, rest)
    → Flagged r xs
or_close-Flagged r more (rb ∷ ts) {xs} h e = subst (Flagged r) (closed e) tt
  where
    list_of : Option (List Xperm × List Token) → List Xperm
    list_of none = []
    list_of (some (ys, end)) = ys

    closed :
        {rest : List Token}
        → ◌≡◌ {A = Option (List Xperm × List Token)} (some ([], ts)) (some (xs, rest))
        → [] ≡ xs
    closed e = ap list_of e
or_close-Flagged r more ts {xs} {rest} h e = Listed-Flagged r xs (h ts xs rest e)

pushed-Listed :
    (r : Bool) (x : Xperm) (o : Option (List Xperm × List Token)) {xs : List Xperm}
    {rest : List Token}
    → x.reset ≡ r
    → ((ys : List Xperm) (end : List Token) → o ≡ some (ys, end) → Flagged r ys)
    → push_xperm x o ≡ some (xs, rest)
    → Listed r xs
pushed-Listed r x none h k e = cc
pushed-Listed r x (some (ys, end)) {xs} h k e = subst (Listed r) (ap list_of e) (h, k ys end refl)
  where
    list_of : Option (List Xperm × List Token) → List Xperm
    list_of none = []
    list_of (some (zs, end)) = zs

parse_xperm_list-Listed :
    (fuel : ℕ) (r : Bool) (ts : List Token) (xs : List Xperm) (rest : List Token)
    → parse_xperm_list fuel r ts ≡ some (xs, rest)
    → Listed r xs
unfolding parse_xperm_list
parse_xperm_list-Listed zero r ts xs rest e = cc
parse_xperm_list-Listed (suc fuel) r ts xs rest e = elim (Option-cases (parse_xperm r ts)) [
  | inl none_read ↦ ground arith
  | inr ((x, us), read) ↦
      pushed-Listed r x (or_close (parse_xperm_list fuel r) us) (parse_xperm-reset r ts read)
        (λ ys end q.
          or_close-Flagged r (parse_xperm_list fuel r) us
            (λ vs zs fin p. parse_xperm_list-Listed fuel r vs zs fin p) q)
        (read_list x us read)
]
  where
    read_list :
        (x : Xperm) (us : List Token)
        → parse_xperm r ts ≡ some (x, us)
        → push_xperm x (or_close (parse_xperm_list fuel r) us) ≡ some (xs, rest)
    read_list x us read = ground arith

parse_xperms-Uniform :
    (ts : List Token) (xs : List Xperm) (rest : List Token)
    → parse_xperms ts ≡ some (xs, rest)
    → Uniform xs
unfolding parse_xperms
parse_xperms-Uniform (tl ∷ lb ∷ ts) xs rest e =
    Listed-Uniform true xs (parse_xperm_list-Listed (length ts) true ts xs rest e)
parse_xperms-Uniform (lb ∷ ts) xs rest e =
    Listed-Uniform false xs (parse_xperm_list-Listed (length ts) false ts xs rest e)
parse_xperms-Uniform (st ∷ ts) xs rest e = ground arith
parse_xperms-Uniform (hx low ∷ ts) xs rest e = ground arith
parse_xperms-Uniform _ xs rest e = cc

called :
    (error : ParseError) (o : Option (Call × List Token)) {c : Call}
    → or_error error o ≡ inr c
    → (c' : Call) × (ts' : List Token) × (o ≡ some (c', ts')) × (c' ≡ c)
called error none e = cc
called error (some (c', ts')) e = (c', ts', refl, ground arith)

finished :
    (a : Call) (ts : List Token) {c : Call} {ts' : List Token} → finish a ts ≡ some (c, ts') → a ≡ c
finished a [] e = ground arith
finished a (t ∷ ts) e = cc

-- What a statement on extended permissions calls for.
exec_xperms-Sayable :
    (call : List Bytes → List Bytes → List Bytes → List Xperm → Call) (ts : List Token)
    (error : ParseError) (c : Call)
    → ((s t k : List Bytes) (p : List Xperm) → Uniform p → Sayable (call s t k p))
    → or_error error (exec_xperms call ts) ≡ inr c
    → Sayable c
unfolding exec_xperms
exec_xperms-Sayable call ts error c sayable e =
    let (c', ts', e0, ec) = called error (exec_xperms call ts) e in
    let (s, ts1, e1, _) = and_then-some (parse_sterm ts) _ e0 in
    let (t, ts2, e2, _) = and_then-some (parse_sterm ts1) _ e1 in
    let (k, ts3, e3, _) = and_then-some (parse_sterm ts2) _ e2 in
    let (u, ts4, e4, _) = and_then-some (match_string (codes "ioctl") ts3) _ e3 in
    let (p, ts5, e5, q) = and_then-some (parse_xperms ts4) _ e4 in
    subst Sayable (finished (call s t k p) ts5 e5 ∙ ec)
      (sayable s t k p (parse_xperms-Uniform ts4 p ts5 q))

exec_av-Sayable :
    (call : List Bytes → List Bytes → List Bytes → List Bytes → Call) (ts : List Token)
    (error : ParseError) (c : Call)
    → ((s t k p : List Bytes) → Sayable (call s t k p))
    → or_error error (exec_av call ts) ≡ inr c
    → Sayable c
unfolding exec_av
exec_av-Sayable call ts error c sayable e =
    let (c', ts', e0, ec) = called error (exec_av call ts) e in
    let (s, ts1, e1, _) = and_then-some (parse_sterm ts) _ e0 in
    let (t, ts2, e2, _) = and_then-some (parse_sterm ts1) _ e1 in
    let (k, ts3, e3, _) = and_then-some (parse_sterm ts2) _ e2 in
    let (p, ts4, e4, _) = and_then-some (parse_sterm ts3) _ e3 in
    subst Sayable (finished (call s t k p) ts4 e4 ∙ ec) (sayable s t k p)

exec_state-Sayable :
    (call : List Bytes → Call) (ts : List Token) (error : ParseError) (c : Call)
    → ((t : List Bytes) → Sayable (call t))
    → or_error error (exec_state call ts) ≡ inr c
    → Sayable c
unfolding exec_state
exec_state-Sayable call ts error c sayable e =
    let (c', ts', e0, ec) = called error (exec_state call ts) e in
    let (t, ts1, e1, _) = and_then-some (parse_sterm ts) _ e0 in
    subst Sayable (finished (call t) ts1 e1 ∙ ec) (sayable t)

exec_type-Sayable :
    (call : Bytes → Bytes → Bytes → Bytes → Call) (ts : List Token) (error : ParseError) (c : Call)
    → ((s t k d : Bytes) → Sayable (call s t k d))
    → or_error error (exec_type call ts) ≡ inr c
    → Sayable c
unfolding exec_type
exec_type-Sayable call ts error c sayable e =
    let (c', ts', e0, ec) = called error (exec_type call ts) e in
    let (s, ts1, e1, _) = and_then-some (parse_id ts) _ e0 in
    let (t, ts2, e2, _) = and_then-some (parse_id ts1) _ e1 in
    let (k, ts3, e3, _) = and_then-some (parse_id ts2) _ e2 in
    let (d, ts4, e4, _) = and_then-some (parse_id ts3) _ e3 in
    subst Sayable (finished (call s t k d) ts4 e4 ∙ ec) (sayable s t k d)

exec_attribute-Sayable :
    (ts : List Token) (error : ParseError) (c : Call)
    → or_error error (exec_attribute ts) ≡ inr c
    → Sayable c
unfolding exec_attribute
exec_attribute-Sayable ts error c e =
    let (c', ts', e0, ec) = called error (exec_attribute ts) e in
    let (t, ts1, e1, _) = and_then-some (parse_term ts) _ e0 in
    let (a, ts2, e2, _) = and_then-some (parse_term ts1) _ e1 in
    subst Sayable (finished (typeattribute t a) ts2 e2 ∙ ec) tt

exec_new_type-Sayable :
    (ts : List Token) (error : ParseError) (c : Call)
    → or_error error (exec_new_type ts) ≡ inr c
    → Sayable c
unfolding exec_new_type
exec_new_type-Sayable ts error c e =
    let (c', ts', e0, ec) = called error (exec_new_type ts) e in
    let (t, ts1, e1, _) = and_then-some (parse_id ts) _ e0 in
    let (a, ts2, e2, _) = and_then-some (or_missing [] parse_term ts1) _ e1 in
    subst Sayable (finished (type_ t a) ts2 e2 ∙ ec) tt

exec_new_attribute-Sayable :
    (ts : List Token) (error : ParseError) (c : Call)
    → or_error error (exec_new_attribute ts) ≡ inr c
    → Sayable c
unfolding exec_new_attribute
exec_new_attribute-Sayable ts error c e =
    let (c', ts', e0, ec) = called error (exec_new_attribute ts) e in
    let (t, ts1, e1, _) = and_then-some (parse_id ts) _ e0 in
    subst Sayable (finished (attribute t) ts1 e1 ∙ ec) tt

exec_transition-Sayable :
    (ts : List Token) (error : ParseError) (c : Call)
    → or_error error (exec_transition ts) ≡ inr c
    → Sayable c
unfolding exec_transition
exec_transition-Sayable ts error c e =
    let (c', ts', e0, ec) = called error (exec_transition ts) e in
    let (s, ts1, e1, _) = and_then-some (parse_id ts) _ e0 in
    let (t, ts2, e2, _) = and_then-some (parse_id ts1) _ e1 in
    let (k, ts3, e3, _) = and_then-some (parse_id ts2) _ e2 in
    let (d, ts4, e4, _) = and_then-some (parse_id ts3) _ e3 in
    let (o, ts5, e5, _) = and_then-some (or_missing [] parse_id ts4) _ e4 in
    subst Sayable (finished (type_transition s t k d o) ts5 e5 ∙ ec) tt

exec_genfscon-Sayable :
    (ts : List Token) (error : ParseError) (c : Call)
    → or_error error (exec_genfscon ts) ≡ inr c
    → Sayable c
unfolding exec_genfscon
exec_genfscon-Sayable ts error c e =
    let (c', ts', e0, ec) = called error (exec_genfscon ts) e in
    let (s, ts1, e1, _) = and_then-some (parse_id ts) _ e0 in
    let (t, ts2, e2, _) = and_then-some (parse_id ts1) _ e1 in
    let (k, ts3, e3, _) = and_then-some (parse_id ts2) _ e2 in
    subst Sayable (finished (genfscon s t k) ts3 e3 ∙ ec) tt

-- Every call that `exec_statement` makes has a list of extended permissions, where it has one, that is
-- not empty and has the same flag in all entries.
pub exec_statement-Sayable :
    (ts : List Token) (call : Call) → exec_statement ts ≡ inr call → Sayable call
unfolding exec_statement
exec_statement-Sayable (al ∷ ts) call e =
    exec_av-Sayable allow ts (avtab_av al) call (λ s t k p. tt) e
exec_statement-Sayable (dn ∷ ts) call e =
    exec_av-Sayable deny ts (avtab_av dn) call (λ s t k p. tt) e
exec_statement-Sayable (aa ∷ ts) call e =
    exec_av-Sayable auditallow ts (avtab_av aa) call (λ s t k p. tt) e
exec_statement-Sayable (da ∷ ts) call e =
    exec_av-Sayable dontaudit ts (avtab_av da) call (λ s t k p. tt) e
exec_statement-Sayable (ax ∷ ts) call e =
    exec_xperms-Sayable allowxperm ts (avtab_xperms ax) call (λ s t k p u. u) e
exec_statement-Sayable (ay ∷ ts) call e =
    exec_xperms-Sayable auditallowxperm ts (avtab_xperms ay) call (λ s t k p u. u) e
exec_statement-Sayable (dx ∷ ts) call e =
    exec_xperms-Sayable dontauditxperm ts (avtab_xperms dx) call (λ s t k p u. u) e
exec_statement-Sayable (pm ∷ ts) call e =
    exec_state-Sayable permissive ts (type_state pm) call (λ t. tt) e
exec_statement-Sayable (ef ∷ ts) call e =
    exec_state-Sayable enforce ts (type_state ef) call (λ t. tt) e
exec_statement-Sayable (ta ∷ ts) call e = exec_attribute-Sayable ts type_attr call e
exec_statement-Sayable (ty ∷ ts) call e = exec_new_type-Sayable ts new_type call e
exec_statement-Sayable (at ∷ ts) call e = exec_new_attribute-Sayable ts new_attr call e
exec_statement-Sayable (tc ∷ ts) call e =
    exec_type-Sayable type_change ts (avtab_type tc) call (λ s t k d. tt) e
exec_statement-Sayable (tm ∷ ts) call e =
    exec_type-Sayable type_member ts (avtab_type tm) call (λ s t k d. tt) e
exec_statement-Sayable (tx ∷ ts) call e = exec_transition-Sayable ts type_trans call e
exec_statement-Sayable (gf ∷ ts) call e = exec_genfscon-Sayable ts genfs_con call e
exec_statement-Sayable _ call e = cc
