-- ===== src/Core/Resetprop/Deleted.antt =====
-- What `persist_delete_prop` of native/src/core/resetprop/persist.rs takes away.
use mathlib.Core.Path.{subst}
use magisk.Base.Order.{compare_bytes, compare_bytes_refl, compare_bytes_eq}
use magisk.Prelude.{
  Ordering, ◌≡◌, refl, sym, ap, ◌∙◌, Option, none, some, List, [], ◌∷◌, arith, Bytes,
}
use magisk.Core.Resetprop.{
  Record, compare_names, sort_records, Index, hit, miss, remove_at, delete_at_index,
  proto_read_props, persist_get_prop, persist_delete_prop,
}
use magisk.Core.Resetprop.Search.{shift, scan, AllAfter, IsRising, AllAfter-trans, find_index_lem}
use magisk.Core.Resetprop.Laws.{lookup_in_order, sort_records-IsSorted_lem}
use magisk.Core.Resetprop.Rising.{IsDistinct, sort_records-IsRising, distinct, IsRising-IsSorted}
use magisk.Core.Resetprop.RoundTrip.{get_lem}

abbrev behind : Record → Option (List Record) → Option (List Record)
behind r none = none
behind r (some rest) = some (r ∷ rest)

-- The search and the removal in one go.
unfoldable delete_in_order : Bytes → List Record → Option (List Record)
delete_in_order key [] = none
delete_in_order key (r ∷ props) =
    let rest = delete_in_order key props in
    elim (compare_names r.0 (some key)) [
      | Ordering.lt ↦ behind r rest
      | Ordering.eq ↦ some props
      | Ordering.gt ↦ none
    ]

delete_lem :
    (key : Bytes) (props : List Record)
    → delete_at_index props (scan key props) ≡ delete_in_order key props
unfolding scan remove_at delete_in_order
delete_lem key [] = refl
delete_lem key (r ∷ props) = by_order (compare_names r.0 (some key)) (delete_lem key props)
  where
    shifted :
        (i : Index) → delete_at_index (r ∷ props) (shift i) ≡ behind r (delete_at_index props i)
    shifted (hit i) = refl
    shifted (miss i) = refl

    by_order :
        (o : Ordering)
        → delete_at_index props (scan key props) ≡ delete_in_order key props
        → delete_at_index (r ∷ props) (elim o as (λ x. Index) [
          | Ordering.lt ↦ shift (scan key props)
          | Ordering.eq ↦ hit 0
          | Ordering.gt ↦ miss 0
        ])
          ≡ (elim o as (λ x. Option (List Record)) [
            | Ordering.lt ↦ behind r (delete_in_order key props)
            | Ordering.eq ↦ some props
            | Ordering.gt ↦ none
          ])
    by_order Ordering.lt h = shifted (scan key props) ∙ ap (behind r) h
    by_order Ordering.eq h = refl
    by_order Ordering.gt h = refl

-- What is left of a list after the name.
data Left : Bytes → List Record → List Record → Type 0 where
  gone :
      {key : Bytes} {r : Record} {props : List Record}
      → compare_names r.0 (some key) ≡ Ordering.eq
      → Left key (r ∷ props) props
  later :
      {key : Bytes} {r : Record} {props rest : List Record}
      → compare_names r.0 (some key) ≡ Ordering.lt
      → Left key props rest
      → Left key (r ∷ props) (r ∷ rest)

delete_in_order-Left :
    (key : Bytes) (props rest : List Record)
    → delete_in_order key props ≡ some rest
    → Left key props rest
unfolding delete_in_order
delete_in_order-Left key [] rest h = cc
delete_in_order-Left key (r ∷ props) rest h =
    by_order (compare_names r.0 (some key)) refl (delete_in_order key props) refl
      (λ ps d. delete_in_order-Left key props ps d) h
  where
    inner : {a b : List Record} → some a ≡ some b → a ≡ b
    inner e = cc

    by_order :
        (o : Ordering)
        → compare_names r.0 (some key) ≡ o
        → (deleted : Option (List Record)) → delete_in_order key props ≡ deleted
        → ((ps : List Record) → delete_in_order key props ≡ some ps → Left key props ps)
        → (elim o as (λ x. Option (List Record)) [
          | Ordering.lt ↦ behind r deleted
          | Ordering.eq ↦ some props
          | Ordering.gt ↦ none
        ])
          ≡ some rest
        → Left key (r ∷ props) rest
    by_order Ordering.lt e none d k h = cc
    by_order Ordering.lt e (some ps) d k h =
        subst (Left key (r ∷ props)) (inner h) (later e (k ps d))
    by_order Ordering.eq e deleted d k h = subst (Left key (r ∷ props)) (inner h) (gone e)
    by_order Ordering.gt e deleted d k h = cc

AllAfter-Left :
    (a : Option Bytes) (key : Bytes) (props rest : List Record)
    → Left key props rest
    → AllAfter a props
    → AllAfter a rest
AllAfter-Left a key _ _ (gone e) h = h.1
AllAfter-Left a key _ _ (later {props = ps} {rest = rs} e l) h =
    (h.0, AllAfter-Left a key ps rs l h.1)

Left-IsRising :
    (key : Bytes) (props rest : List Record) → Left key props rest → IsRising props → IsRising rest
Left-IsRising key _ _ (gone e) s = s.1
Left-IsRising key _ _ (later {r = r} {props = ps} {rest = rs} e l) s =
    (AllAfter-Left r.0 key ps rs l s.0, Left-IsRising key ps rs l s.1)

lookup-AllAfter :
    (j : Bytes) (props : List Record) → AllAfter (some j) props → lookup_in_order j props ≡ none
unfolding lookup_in_order
lookup-AllAfter j [] h = refl
lookup-AllAfter j (r ∷ props) h = rw (lookup_in_order, h.0) refl

lookup-Left :
    (j key : Bytes) (props rest : List Record)
    → Left key props rest
    → IsRising props
    → lookup_in_order j rest ≡ (elim (compare_bytes j key) as (λ x. Option Bytes) [
      | Ordering.eq ↦ none
      | _ ↦ lookup_in_order j props
    ])
unfolding lookup_in_order
lookup-Left j key _ _ (gone {r = (none, w)} {props = ps} e) s = cc
lookup-Left j key _ _ (gone {r = (some a, w)} {props = ps} e) s = ground (
  arith,
  compare_bytes_eq a key e,
  compare_bytes_eq j key,
  compare_bytes_eq a j,
  compare_bytes_refl j,
  lookup-AllAfter j ps,
  AllAfter-trans (some j) (some a) ps,
  s.0,
)
lookup-Left j key _ _ (later {r = (none, w)} {props = ps} {rest = rs} e l) s =
    lookup-Left j key ps rs l s.1
lookup-Left j key _ _ (later {r = (some a, w)} {props = ps} {rest = rs} e l) s = ground (
  arith,
  lookup-Left j key ps rs l s.1,
  e,
  compare_bytes_eq j key,
  compare_bytes_eq a j,
  compare_bytes_refl j,
)

module _ (decode : Bytes → Option (List Record)) (encode : List Record → Bytes) where
  some_inj : {a b : Bytes} → some a ≡ some b → a ≡ b
  some_inj e = cc

  deleted :
      (key file written : Bytes) (props : List Record)
      → IsDistinct props
      → decode file ≡ some props
      → persist_delete_prop decode encode key file ≡ some written
      → (rest : List Record) × Left key (sort_records props) rest × (encode rest ≡ written)
  unfolding persist_delete_prop proto_read_props
  deleted key file written props d reads h =
      found (delete_in_order key (sort_records props)) refl (sym same_result ∙ h)
    where
      same_result :
          persist_delete_prop decode encode key file
          ≡ (elim (delete_in_order key (sort_records props)) as (λ x. Option Bytes) [
            | none ↦ none
            | some rest ↦ some (encode rest)
          ])
      same_result =
          rw
            (
              persist_delete_prop,
              proto_read_props,
              reads,
              find_index_lem key (sort_records props) (sort_records-IsRising props d),
              delete_lem key (sort_records props),
            )
            refl

      found :
          (o : Option (List Record))
          → delete_in_order key (sort_records props) ≡ o
          → (elim o as (λ x. Option Bytes) [ none ↦ none | some rest ↦ some (encode rest) ])
            ≡ some written
          → (rest : List Record) × Left key (sort_records props) rest × (encode rest ≡ written)
      found none e h = cc
      found (some rest) e h =
          (rest, delete_in_order-Left key (sort_records props) rest e, some_inj h)

  -- If the coding of the file loses nothing, the file of the properties can be read, no two of its
  -- records have the same name and `persist_delete_prop` writes a file, then `persist_get_prop`
  -- finds in that one nothing for the key that was deleted, and for every other key what it found
  -- before.
  pub persist_get_prop-persist_delete_prop :
      (j key file : Bytes) (props : List Record) (written : Bytes)
      → ((ps : List Record) → decode (encode ps) ≡ some ps)
      → decode file ≡ some props
      → IsDistinct props
      → persist_delete_prop decode encode key file ≡ some written
      → persist_get_prop decode encode j written
        ≡ (elim (compare_bytes j key) as (λ x. Option Bytes) [
          | Ordering.eq ↦ none
          | _ ↦ persist_get_prop decode encode j file
        ])
  persist_get_prop-persist_delete_prop j key file props written lossless reads d writes =
      let (rest, l, e) = deleted key file written props d reads writes in
      let sorted_rising = sort_records-IsRising props d in
      let rest_rising = Left-IsRising key (sort_records props) rest l sorted_rising in
      get_lem decode encode j written rest (distinct rest rest_rising)
        (ap decode (sym e) ∙ lossless rest)
      ∙ ap (lookup_in_order j) (sort_records-IsSorted_lem rest (IsRising-IsSorted rest rest_rising))
      ∙ lookup-Left j key (sort_records props) rest l sorted_rising
      ∙ ap (λ o. elim (compare_bytes j key) as (λ x. Option Bytes) [ Ordering.eq ↦ none | _ ↦ o ])
          (sym (get_lem decode encode j file props d reads))
