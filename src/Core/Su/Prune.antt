-- ===== src/Core/Su/Prune.antt =====
-- `prune_su_access` of native/src/core/su/db.rs: the policies of apps that are not installed go.
use mathlib.Core.Path.{subst}
use magisk.Prelude.{
  ◌%◌, ltb, ℕ, ◌-◌, ◌≡◌, refl, sym, ap, ◌∙◌, fun_ext, inl, inr, Bool, true, false, not, ◌&&◌, ◌||◌,
  List, [], ◌∷◌, ◌++◌, append_assoc, arith, leb, ◌==◌, if◌then◌else◌, ==_iff, Bool-cases, All,
}
use magisk.Core.Su.{RootSettings, to_app_id}

-- The table `policies`: a row for each user.
abbrev pub Policies : Type 0
Policies = List (ℕ × RootSettings)

-- Whether the loop collects the user; `installed` is what `get_app_no_list` contains.
unfoldable pub stale : (ℕ → Bool) → ℕ → Bool
unfolding to_app_id
stale installed uid =
    let app_id = to_app_id uid in
    leb 10000 app_id && leb app_id 19999 && not (installed (app_id - 10000))

-- `rm_uids`
unfoldable pub collect_stale : (ℕ → Bool) → List ℕ → List ℕ
unfolding stale
collect_stale installed [] = []
collect_stale installed (uid ∷ uids) =
    let rest = collect_stale installed uids in if stale installed uid then uid ∷ rest else rest

-- `SELECT uid FROM policies`
abbrev pub uids_of : Policies → List ℕ
uids_of [] = []
uids_of ((uid, row) ∷ rows) = uid ∷ uids_of rows

-- `DELETE FROM policies WHERE uid=?`
unfoldable pub delete_uid : ℕ → Policies → Policies
delete_uid u [] = []
delete_uid u ((uid, row) ∷ rows) =
    let rest = delete_uid u rows in if uid == u then rest else (uid, row) ∷ rest

-- The second loop.
unfoldable pub delete_uids : List ℕ → Policies → Policies
unfolding delete_uid
delete_uids [] rows = rows
delete_uids (u ∷ us) rows = delete_uids us (delete_uid u rows)

-- `prune_su_access`; `query_ok` is whether the first query succeeds.
unfoldable pub prune_su_access : Bool → (ℕ → Bool) → Policies → Policies
unfolding collect_stale delete_uids
prune_su_access query_ok installed rows =
    if query_ok then delete_uids (collect_stale installed (uids_of rows)) rows else rows

-- The rows whose users pass a test.
abbrev pub rows_where : (ℕ → Bool) → Policies → Policies
rows_where keep [] = []
rows_where keep ((uid, row) ∷ rows) =
    if keep uid then (uid, row) ∷ rows_where keep rows else rows_where keep rows

abbrev contains : ℕ → List ℕ → Bool
contains u [] = false
contains u (v ∷ vs) = u == v || contains u vs

delete_uid-rows_where :
    (keep : ℕ → Bool) (u : ℕ) (rows : Policies)
    → rows_where keep (delete_uid u rows) ≡ rows_where (λ v. not (v == u) && keep v) rows
unfolding delete_uid
delete_uid-rows_where keep u [] = refl
delete_uid-rows_where keep u ((uid, row) ∷ rows) = ground (arith, delete_uid-rows_where keep u rows)

rows_where-all : (rows : Policies) → rows_where (λ v. true) rows ≡ rows
rows_where-all [] = refl
rows_where-all ((uid, row) ∷ rows) = ap (◌∷◌ (uid, row)) (rows_where-all rows)

rows_where-agree :
    (p q : ℕ → Bool) (rows : Policies)
    → All (λ v. p v ≡ q v) (uids_of rows)
    → rows_where p rows ≡ rows_where q rows
rows_where-agree p q [] h = refl
rows_where-agree p q ((uid, row) ∷ rows) h = ground (arith, rows_where-agree p q rows h.1, h.0)

delete_uids_lem :
    (us : List ℕ) (rows : Policies)
    → delete_uids us rows ≡ rows_where (λ v. not (contains v us)) rows
unfolding delete_uids
delete_uids_lem [] rows = sym (rows_where-all rows)
delete_uids_lem (u ∷ us) rows =
    delete_uids_lem us (delete_uid u rows)
    ∙ delete_uid-rows_where (λ v. not (contains v us)) u rows
    ∙ ap (λ p. rows_where p rows) (fun_ext (λ v. one_more v))
  where
    one_more : (v : ℕ) → (not (v == u) && not (contains v us)) ≡ not (v == u || contains v us)
    one_more v = ground arith

contains-collect_stale :
    (installed : ℕ → Bool) (v : ℕ) (uids : List ℕ)
    → contains v (collect_stale installed uids) ≡ (contains v uids && stale installed v)
unfolding collect_stale
contains-collect_stale installed v [] = refl
contains-collect_stale installed v (u ∷ uids) = elim (Bool-cases (v == u)) [
  | inl same ↦
      ground
        (arith, contains-collect_stale installed v uids, ap (stale installed) ((==_iff v u).0 same))
  | inr other ↦ ground (arith, contains-collect_stale installed v uids)
]

-- Every user of a list is in it.
contained : (before uids : List ℕ) → All (λ v. contains v (before ++ uids) ≡ true) uids
contained before [] = tt
contained before (u ∷ uids) = (
  contains_mid before,
  subst (λ l. All (λ v. contains v l ≡ true) uids) (append_assoc before (u ∷ []) uids)
      (contained (before ++ (u ∷ [])) uids),
)
  where
    contains_mid : (before : List ℕ) → contains u (before ++ (u ∷ uids)) ≡ true
    contains_mid [] = ground arith
    contains_mid (b ∷ before) = ground (arith, contains_mid before)

stale_collected :
    (installed : ℕ → Bool) (uids some_uids : List ℕ)
    → All (λ v. contains v uids ≡ true) some_uids
    → All (λ v. not (contains v (collect_stale installed uids)) ≡ not (stale installed v)) some_uids
stale_collected installed uids [] h = tt
stale_collected installed uids (u ∷ us) h = (
  ground (arith, h.0, contains-collect_stale installed u uids),
  stale_collected installed uids us h.1,
)

-- The app id of the user is not one of an app, or its app is installed.
abbrev pub is_kept : (ℕ → Bool) → ℕ → Bool
is_kept installed uid =
    ltb (uid % 100000) 10000 || ltb 19999 (uid % 100000) || installed (uid % 100000 - 10000)

not-stale : (installed : ℕ → Bool) (v : ℕ) → not (stale installed v) ≡ is_kept installed v
unfolding stale to_app_id
not-stale installed v = ground arith

all_kept :
    (installed : ℕ → Bool) (uids : List ℕ)
    → All (λ v. not (stale installed v) ≡ is_kept installed v) uids
all_kept installed [] = tt
all_kept installed (u ∷ uids) = (not-stale installed u, all_kept installed uids)

-- `prune_su_access` keeps the rows, in their order, of the users whose app number is installed
-- and of those with an app id outside the range of apps; where the query fails, it keeps all
-- rows.
pub prune_su_access_lem :
    (query_ok : Bool) (installed : ℕ → Bool) (rows : Policies)
    → prune_su_access query_ok installed rows
      ≡ (if query_ok then rows_where (is_kept installed) rows else rows)
unfolding prune_su_access
prune_su_access_lem false installed rows = refl
prune_su_access_lem true installed rows =
    delete_uids_lem (collect_stale installed (uids_of rows)) rows
    ∙ rows_where-agree (λ v. not (contains v (collect_stale installed (uids_of rows))))
        (λ v. not (stale installed v)) rows
        (stale_collected installed (uids_of rows) (uids_of rows) (contained [] (uids_of rows)))
    ∙ rows_where-agree (λ v. not (stale installed v)) (is_kept installed) rows
        (all_kept installed (uids_of rows))
