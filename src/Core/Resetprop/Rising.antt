-- ===== src/Core/Resetprop/Rising.antt =====
-- The names of the persistent properties rise after sorting, if they are all different
-- (native/src/core/resetprop/persist.rs).
use magisk.Core.Resetprop.Order.{sort_records-IsSorted}
use magisk.Prelude.{Ordering, ◌≡◌, refl, ◌≢◌, Option, none, some, List, [], ◌∷◌, arith, Bytes}
use magisk.Base.Order.{compare_bytes_refl, compare_bytes_eq, Below-flip}
use magisk.Core.Resetprop.Search.{AllAfter, IsRising, AllAfter-trans}
use magisk.Core.Resetprop.{Record, compare_names, insert_record, sort_records}
use magisk.Core.Resetprop.Laws.{IsSorted, NoneBefore, put_in_order}

-- The name is none of the list's.
abbrev pub IsNew : Option Bytes → List Record → Type 0
IsNew name [] = Unit
IsNew name (r ∷ props) = (compare_names r.0 name ≢ Ordering.eq) × IsNew name props

-- No two records have the same name.
abbrev pub IsDistinct : List Record → Type 0
IsDistinct [] = Unit
IsDistinct (r ∷ props) = IsNew r.0 props × IsDistinct props

gt_flip : (a b : Option Bytes) → compare_names a b ≡ Ordering.lt → compare_names b a ≡ Ordering.gt
gt_flip none none h = cc
gt_flip none (some b) h = refl
gt_flip (some a) none h = cc
gt_flip (some a) (some b) h = Below-flip a b h

eq_sym : (a b : Option Bytes) → compare_names a b ≢ Ordering.eq → compare_names b a ≢ Ordering.eq
eq_sym none none h = h
eq_sym none (some b) h = λ e. cc
eq_sym (some a) none h = λ e. cc
eq_sym (some a) (some b) h = λ e. ground (arith, compare_bytes_eq b a e, compare_bytes_refl a)

IsNew-insert_record :
    (a : Option Bytes) (r : Record) (props : List Record)
    → compare_names r.0 a ≢ Ordering.eq
    → IsNew a props
    → IsNew a (insert_record r props)
unfolding insert_record
IsNew-insert_record a r [] h k = (h, tt)
IsNew-insert_record a r (s ∷ props) h k =
    by_order (compare_names r.0 s.0) (IsNew-insert_record a r props h k.1)
  where
    by_order :
        (o : Ordering)
        → IsNew a (insert_record r props)
        → IsNew a (elim o as (λ x. List Record) [
          | Ordering.gt ↦ s ∷ insert_record r props
          | _ ↦ r ∷ s ∷ props
        ])
    by_order Ordering.gt i = (k.0, i)
    by_order Ordering.lt i = (h, k)
    by_order Ordering.eq i = (h, k)

insert_record-IsDistinct :
    (r : Record) (props : List Record)
    → IsNew r.0 props
    → IsDistinct props
    → IsDistinct (insert_record r props)
unfolding insert_record
insert_record-IsDistinct r [] n d = (tt, tt)
insert_record-IsDistinct r (s ∷ props) n d =
    by_order (compare_names r.0 s.0) (insert_record-IsDistinct r props n.1 d.1)
  where
    by_order :
        (o : Ordering)
        → IsDistinct (insert_record r props)
        → IsDistinct (elim o as (λ x. List Record) [
          | Ordering.gt ↦ s ∷ insert_record r props
          | _ ↦ r ∷ s ∷ props
        ])
    by_order Ordering.gt i = (IsNew-insert_record s.0 r props (eq_sym s.0 r.0 n.0) d.0, i)
    by_order Ordering.lt i = (n, d)
    by_order Ordering.eq i = (n, d)

IsNew-sort_records :
    (a : Option Bytes) (props : List Record) → IsNew a props → IsNew a (sort_records props)
unfolding sort_records
IsNew-sort_records a [] n = tt
IsNew-sort_records a (r ∷ props) n =
    IsNew-insert_record a r (sort_records props) n.0 (IsNew-sort_records a props n.1)

sort_records-IsDistinct : (props : List Record) → IsDistinct props → IsDistinct (sort_records props)
unfolding sort_records
sort_records-IsDistinct [] d = tt
sort_records-IsDistinct (r ∷ props) d =
    insert_record-IsDistinct r (sort_records props) (IsNew-sort_records r.0 props d.0)
      (sort_records-IsDistinct props d.1)

rising : (props : List Record) → IsSorted props → IsDistinct props → IsRising props
rising [] s d = tt
rising (r ∷ props) s d = (all_after r.0 props s.0 d.0, rising props s.1 d.1)
  where
    all_after : (a : Option Bytes) (ps : List Record) → NoneBefore a ps → IsNew a ps → AllAfter a ps
    all_after a [] h n = tt
    all_after a (p ∷ ps) h n = (third (compare_names p.0 a) h.0 n.0, all_after a ps h.1 n.1)
      where
        third : (o : Ordering) → o ≢ Ordering.lt → o ≢ Ordering.eq → o ≡ Ordering.gt
        third Ordering.lt h n = absurd (h refl)
        third Ordering.eq h n = absurd (n refl)
        third Ordering.gt h n = refl

-- Sorting makes the names of a list rise that are all different.
pub sort_records-IsRising : (props : List Record) → IsDistinct props → IsRising (sort_records props)
sort_records-IsRising props d =
    rising (sort_records props) (sort_records-IsSorted props) (sort_records-IsDistinct props d)

pub distinct : (props : List Record) → IsRising props → IsDistinct props
distinct [] s = tt
distinct (r ∷ props) s = (all_new r.0 props s.0, distinct props s.1)
  where
    all_new : (a : Option Bytes) (ps : List Record) → AllAfter a ps → IsNew a ps
    all_new a [] h = tt
    all_new a (p ∷ ps) h = ((λ e. cc), all_new a ps h.1)

AllAfter-put :
    (a : Option Bytes) (key val : Bytes) (props : List Record)
    → compare_names (some key) a ≡ Ordering.gt
    → AllAfter a props
    → AllAfter a (put_in_order key val props)
unfolding put_in_order
AllAfter-put a key val [] h k = (h, tt)
AllAfter-put a key val (r ∷ props) h k =
    by_order (compare_names r.0 (some key)) (AllAfter-put a key val props h k.1)
  where
    by_order :
        (o : Ordering)
        → AllAfter a (put_in_order key val props)
        → AllAfter a (elim o as (λ x. List Record) [
          | Ordering.lt ↦ r ∷ put_in_order key val props
          | Ordering.eq ↦ (r.0, some val) ∷ props
          | Ordering.gt ↦ (some key, some val) ∷ r ∷ props
        ])
    by_order Ordering.lt i = (k.0, i)
    by_order Ordering.eq i = k
    by_order Ordering.gt i = (h, k)

pub put-IsRising :
    (key val : Bytes) (props : List Record) → IsRising props → IsRising (put_in_order key val props)
unfolding put_in_order
put-IsRising key val [] s = (tt, tt)
put-IsRising key val (r ∷ props) s =
    by_order (compare_names r.0 (some key)) refl (put-IsRising key val props s.1)
  where
    by_order :
        (o : Ordering)
        → compare_names r.0 (some key) ≡ o
        → IsRising (put_in_order key val props)
        → IsRising (elim o as (λ x. List Record) [
          | Ordering.lt ↦ r ∷ put_in_order key val props
          | Ordering.eq ↦ (r.0, some val) ∷ props
          | Ordering.gt ↦ (some key, some val) ∷ r ∷ props
        ])
    by_order Ordering.lt e i = (AllAfter-put r.0 key val props (gt_flip r.0 (some key) e) s.0, i)
    by_order Ordering.eq e i = s
    by_order Ordering.gt e i = ((e, AllAfter-trans (some key) r.0 props e s.0), s)

pub IsRising-IsSorted : (props : List Record) → IsRising props → IsSorted props
IsRising-IsSorted [] s = tt
IsRising-IsSorted (r ∷ props) s = (none_before r.0 props s.0, IsRising-IsSorted props s.1)
  where
    none_before : (a : Option Bytes) (ps : List Record) → AllAfter a ps → NoneBefore a ps
    none_before a [] h = tt
    none_before a (p ∷ ps) h = ((λ e. cc), none_before a ps h.1)
