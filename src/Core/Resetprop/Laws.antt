-- ===== src/Core/Resetprop/Laws.antt =====
-- Laws of the persistent properties (native/src/core/resetprop/persist.rs).
use magisk.Prelude.{
  Ordering, ◌≡◌, refl, ap, ◌∙◌, ◌≢◌, Option, none, some, List, [], ◌∷◌, arith, Bytes,
}
use magisk.Base.Order.{
  compare_bytes, compare_bytes_refl, compare_bytes_eq, compare_bytes_gt, Below-flip, Below-trans,
}
use magisk.Core.Resetprop.Search.{shift, scan}
use magisk.Core.Resetprop.{
  Record, compare_names, insert_record, sort_records, Index, nth, insert_at, set_value_at, value_of,
  at_index, set_at_index, hit, miss,
}

-- Every name of the list is at or after the name.
abbrev pub NoneBefore : Option Bytes → List Record → Type 0
NoneBefore name [] = Unit
NoneBefore name (r ∷ props) = (compare_names r.0 name ≢ Ordering.lt) × NoneBefore name props

abbrev pub IsSorted : List Record → Type 0
IsSorted [] = Unit
IsSorted (r ∷ props) = NoneBefore r.0 props × IsSorted props

-- What a search from the front finds in a sorted list.
abbrev pub lookup : Bytes → List Record → Option Bytes
lookup key props = value_of (at_index props (scan key props))

abbrev pub with_value : Bytes → Bytes → List Record → List Record
with_value key val props = set_at_index key val props (scan key props)

compare_names_refl : (a : Option Bytes) → compare_names a a ≡ Ordering.eq
compare_names_refl none = refl
compare_names_refl (some a) = compare_bytes_refl a

compare_names_eq : (a b : Option Bytes) → compare_names a b ≡ Ordering.eq → a ≡ b
compare_names_eq none none h = refl
compare_names_eq none (some b) h = cc
compare_names_eq (some a) none h = cc
compare_names_eq (some a) (some b) h = ap some (compare_bytes_eq a b h)

insert_record-sorted :
    (r : Record) (props : List Record) → NoneBefore r.0 props → insert_record r props ≡ r ∷ props
unfolding insert_record
insert_record-sorted r [] h = refl
insert_record-sorted r (s ∷ props) h = not_after (compare_names r.0 s.0) refl
  where
    flip : (a b : Option Bytes) → compare_names a b ≡ Ordering.gt → compare_names b a ≡ Ordering.lt
    flip none none e = cc
    flip none (some b) e = cc
    flip (some a) none e = refl
    flip (some a) (some b) e = compare_bytes_gt a b e

    not_after :
        (o : Ordering)
        → compare_names r.0 s.0 ≡ o
        → (elim o as (λ x. List Record) [
          | Ordering.gt ↦ s ∷ insert_record r props
          | _ ↦ r ∷ s ∷ props
        ])
          ≡ r ∷ s ∷ props
    not_after Ordering.lt e = refl
    not_after Ordering.eq e = refl
    not_after Ordering.gt e = absurd (h.0 (flip r.0 s.0 e))

pub sort_records-IsSorted_lem : (props : List Record) → IsSorted props → sort_records props ≡ props
unfolding sort_records
sort_records-IsSorted_lem [] s = refl
sort_records-IsSorted_lem (r ∷ props) s =
    ap (insert_record r) (sort_records-IsSorted_lem props s.1) ∙ insert_record-sorted r props s.0

-- The search and what is done where it ends, in one go.
unfoldable pub lookup_in_order : Bytes → List Record → Option Bytes
lookup_in_order key [] = none
lookup_in_order key (r ∷ props) =
    let rest = lookup_in_order key props in
    elim (compare_names r.0 (some key)) [
      | Ordering.lt ↦ rest
      | Ordering.eq ↦ value_of (some r)
      | Ordering.gt ↦ none
    ]

unfoldable pub put_in_order : Bytes → Bytes → List Record → List Record
put_in_order key val [] = (some key, some val) ∷ []
put_in_order key val (r ∷ props) =
    let rest = put_in_order key val props in
    elim (compare_names r.0 (some key)) [
      | Ordering.lt ↦ r ∷ rest
      | Ordering.eq ↦ (r.0, some val) ∷ props
      | Ordering.gt ↦ (some key, some val) ∷ r ∷ props
    ]

pub lookup_lem : (key : Bytes) (props : List Record) → lookup key props ≡ lookup_in_order key props
unfolding scan nth lookup_in_order
lookup_lem key [] = refl
lookup_lem key (r ∷ props) = by_order (compare_names r.0 (some key)) (lookup_lem key props)
  where
    shifted : (i : Index) → value_of (at_index (r ∷ props) (shift i)) ≡ value_of (at_index props i)
    shifted (hit i) = refl
    shifted (miss i) = refl

    by_order :
        (o : Ordering)
        → lookup key props ≡ lookup_in_order key props
        → value_of (
            at_index (r ∷ props) (elim o as (λ x. Index) [
              | Ordering.lt ↦ shift (scan key props)
              | Ordering.eq ↦ hit 0
              | Ordering.gt ↦ miss 0
            ]))
          ≡ (elim o as (λ x. Option Bytes) [
            | Ordering.lt ↦ lookup_in_order key props
            | Ordering.eq ↦ value_of (some r)
            | Ordering.gt ↦ none
          ])
    by_order Ordering.lt h = shifted (scan key props) ∙ h
    by_order Ordering.eq h = refl
    by_order Ordering.gt h = refl

pub with_value_lem :
    (key val : Bytes) (props : List Record) → with_value key val props ≡ put_in_order key val props
unfolding scan set_value_at insert_at put_in_order
with_value_lem key val [] = refl
with_value_lem key val (r ∷ props) =
    by_order (compare_names r.0 (some key)) (with_value_lem key val props)
  where
    shifted :
        (i : Index) → set_at_index key val (r ∷ props) (shift i) ≡ r ∷ set_at_index key val props i
    shifted (hit i) = refl
    shifted (miss i) = refl

    by_order :
        (o : Ordering)
        → with_value key val props ≡ put_in_order key val props
        → set_at_index key val (r ∷ props) (elim o as (λ x. Index) [
          | Ordering.lt ↦ shift (scan key props)
          | Ordering.eq ↦ hit 0
          | Ordering.gt ↦ miss 0
        ])
          ≡ (elim o as (λ x. List Record) [
            | Ordering.lt ↦ r ∷ put_in_order key val props
            | Ordering.eq ↦ (r.0, some val) ∷ props
            | Ordering.gt ↦ (some key, some val) ∷ r ∷ props
          ])
    by_order Ordering.lt h = shifted (scan key props) ∙ ap (◌∷◌ r) h
    by_order Ordering.eq h = refl
    by_order Ordering.gt h = refl

pub lookup-put :
    (j k v : Bytes) (props : List Record)
    → lookup_in_order j (put_in_order k v props)
      ≡ (elim (compare_bytes j k) as (λ x. Option Bytes) [
        | Ordering.eq ↦ some v
        | _ ↦ lookup_in_order j props
      ])
unfolding lookup_in_order put_in_order
lookup-put j k v [] =
    ground (arith, compare_bytes_eq j k, compare_bytes_eq k j, compare_bytes_refl j)
lookup-put j k v ((none, w) ∷ props) = lookup-put j k v props
lookup-put j k v ((some a, w) ∷ props) = ground (
  arith,
  lookup-put j k v props,
  compare_bytes_refl j,
  compare_bytes_eq j k,
  compare_bytes_eq k j,
  compare_bytes_eq a k,
  compare_bytes_eq a j,
  compare_bytes_gt a k,
  compare_bytes_gt k j,
  Below-trans j k a,
  Below-flip j a,
)
