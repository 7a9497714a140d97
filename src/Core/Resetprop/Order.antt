-- ===== src/Core/Resetprop/Order.antt =====
-- Sorting puts the persistent properties in order, and setting one keeps them so
-- (native/src/core/resetprop/persist.rs).
use magisk.Prelude.{Ordering, ◌≡◌, refl, ◌≢◌, Option, none, some, List, [], ◌∷◌, arith, Bytes}
use magisk.Base.Order.{
  compare_bytes, compare_bytes_refl, compare_bytes_eq, compare_bytes_gt, Below-flip, Below-trans,
  Ordering-cases,
}
use magisk.Core.Resetprop.{Record, compare_names, insert_record, sort_records}
use magisk.Core.Resetprop.Laws.{IsSorted, NoneBefore, put_in_order}

le_trans :
    (a b c : Option Bytes)
    → compare_names b a ≢ Ordering.lt
    → compare_names c b ≢ Ordering.lt
    → compare_names c a ≢ Ordering.lt
le_trans none b none h k = λ e. cc
le_trans none b (some c) h k = λ e. cc
le_trans (some a) none c h k = λ e. h refl
le_trans (some a) (some b) none h k = λ e. k refl
le_trans (some a) (some b) (some c) h k = λ e. ground (
  arith,
  Below-trans c a b,
  compare_bytes_eq a b,
  compare_bytes_gt a b,
  Ordering-cases (compare_bytes a b),
  Below-flip a b,
  compare_bytes_gt b a,
  compare_bytes_eq b a,
  Ordering-cases (compare_bytes b a),
)

lt_flip : (a b : Option Bytes) → compare_names a b ≡ Ordering.lt → compare_names b a ≢ Ordering.lt
lt_flip none none h = cc
lt_flip none (some b) h = λ e. cc
lt_flip (some a) none h = cc
lt_flip (some a) (some b) h = λ e. ground (arith, Below-flip a b h)

eq_flip : (a b : Option Bytes) → compare_names a b ≡ Ordering.eq → compare_names b a ≢ Ordering.lt
eq_flip none none h = λ e. cc
eq_flip none (some b) h = cc
eq_flip (some a) none h = cc
eq_flip (some a) (some b) h = λ e. ground (arith, compare_bytes_eq a b h, compare_bytes_refl a)

NoneBefore-trans :
    (a b : Option Bytes) (props : List Record)
    → compare_names b a ≢ Ordering.lt
    → NoneBefore b props
    → NoneBefore a props
NoneBefore-trans a b [] h k = tt
NoneBefore-trans a b (r ∷ props) h k = (le_trans a b r.0 h k.0, NoneBefore-trans a b props h k.1)

NoneBefore-insert_record :
    (a : Option Bytes) (r : Record) (props : List Record)
    → compare_names r.0 a ≢ Ordering.lt
    → NoneBefore a props
    → NoneBefore a (insert_record r props)
unfolding insert_record
NoneBefore-insert_record a r [] h k = (h, tt)
NoneBefore-insert_record a r (s ∷ props) h k =
    by_order (compare_names r.0 s.0) (NoneBefore-insert_record a r props h k.1)
  where
    by_order :
        (o : Ordering)
        → NoneBefore a (insert_record r props)
        → NoneBefore a (elim o as (λ x. List Record) [
          | Ordering.gt ↦ s ∷ insert_record r props
          | _ ↦ r ∷ s ∷ props
        ])
    by_order Ordering.gt i = (k.0, i)
    by_order Ordering.lt i = (h, k)
    by_order Ordering.eq i = (h, k)

insert_record-IsSorted :
    (r : Record) (props : List Record) → IsSorted props → IsSorted (insert_record r props)
unfolding insert_record
insert_record-IsSorted r [] s = (tt, tt)
insert_record-IsSorted r (q ∷ props) s =
    by_order (compare_names r.0 q.0) refl (insert_record-IsSorted r props s.1)
  where
    in_front : compare_names q.0 r.0 ≢ Ordering.lt → IsSorted (r ∷ q ∷ props)
    in_front h = ((h, NoneBefore-trans r.0 q.0 props h s.0), s)

    by_order :
        (o : Ordering)
        → compare_names r.0 q.0 ≡ o
        → IsSorted (insert_record r props)
        → IsSorted (elim o as (λ x. List Record) [
          | Ordering.gt ↦ q ∷ insert_record r props
          | _ ↦ r ∷ q ∷ props
        ])
    by_order Ordering.gt e i = (NoneBefore-insert_record q.0 r props (λ x. cc) s.0, i)
    by_order Ordering.lt e i = in_front (lt_flip r.0 q.0 e)
    by_order Ordering.eq e i = in_front (eq_flip r.0 q.0 e)

pub sort_records-IsSorted : (props : List Record) → IsSorted (sort_records props)
unfolding sort_records
sort_records-IsSorted [] = tt
sort_records-IsSorted (r ∷ props) =
    insert_record-IsSorted r (sort_records props) (sort_records-IsSorted props)

NoneBefore-put :
    (a : Option Bytes) (key val : Bytes) (props : List Record)
    → compare_names (some key) a ≢ Ordering.lt
    → NoneBefore a props
    → NoneBefore a (put_in_order key val props)
unfolding put_in_order
NoneBefore-put a key val [] h k = (h, tt)
NoneBefore-put a key val (r ∷ props) h k =
    by_order (compare_names r.0 (some key)) (NoneBefore-put a key val props h k.1)
  where
    by_order :
        (o : Ordering)
        → NoneBefore a (put_in_order key val props)
        → NoneBefore a (elim o as (λ x. List Record) [
          | Ordering.lt ↦ r ∷ put_in_order key val props
          | Ordering.eq ↦ (r.0, some val) ∷ props
          | Ordering.gt ↦ (some key, some val) ∷ r ∷ props
        ])
    by_order Ordering.lt i = (k.0, i)
    by_order Ordering.eq i = k
    by_order Ordering.gt i = (h, k)

pub put-IsSorted :
    (key val : Bytes) (props : List Record) → IsSorted props → IsSorted (put_in_order key val props)
unfolding put_in_order
put-IsSorted key val [] s = (tt, tt)
put-IsSorted key val (r ∷ props) s =
    by_order (compare_names r.0 (some key)) refl (put-IsSorted key val props s.1)
  where
    by_order :
        (o : Ordering)
        → compare_names r.0 (some key) ≡ o
        → IsSorted (put_in_order key val props)
        → IsSorted (elim o as (λ x. List Record) [
          | Ordering.lt ↦ r ∷ put_in_order key val props
          | Ordering.eq ↦ (r.0, some val) ∷ props
          | Ordering.gt ↦ (some key, some val) ∷ r ∷ props
        ])
    by_order Ordering.lt e i = (NoneBefore-put r.0 key val props (lt_flip r.0 (some key) e) s.0, i)
    by_order Ordering.eq e i = s
    by_order Ordering.gt e i =
        let h : compare_names r.0 (some key) ≢ Ordering.lt = λ x. cc in
        ((h, NoneBefore-trans (some key) r.0 props h s.0), s)
