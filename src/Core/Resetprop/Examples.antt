-- ===== src/Core/Resetprop/Examples.antt =====
-- Runs of the persistent properties (native/src/core/resetprop/persist.rs).
use magisk.Prelude.{
  ℕ, zero, suc, ◌≤◌, ◌≡◌, refl, ap, ap₂, ◌∙◌, Option, none, some, List, [], ◌∷◌, ◌++◌, arith, Bytes,
  length, take, drop, length-append, take-append_left, drop-append_left,
}
use magisk.Base.Text.{codes}
use magisk.Base.Order.{compare_bytes}
use magisk.Core.Resetprop.Search.{find_index_lem, scan}
use magisk.Core.Resetprop.Deleted.{persist_get_prop-persist_delete_prop}
use magisk.Core.Resetprop.{
  persist_delete_prop, remove_at, Record, sort_records, find_index, set_value_at, proto_read_props,
  persist_get_prop, persist_set_prop,
}
use magisk.Core.Resetprop.{binary_search_by, search_loop, nth, insert_record}
use magisk.Core.Resetprop.Rising.{IsDistinct}
use magisk.Core.Resetprop.RoundTrip.{persist_get_prop-persist_set_prop}

-- A coding of lists of records: in front of a string stands one more than its length, and 0 where
-- there is none.
abbrev encode_field : Option Bytes → Bytes
encode_field none = 0 ∷ []
encode_field (some s) = suc (length s) ∷ s

abbrev encode : List Record → Bytes
encode [] = []
encode ((name, value) ∷ ps) = encode_field name ++ (encode_field value ++ encode ps)

abbrev decode_field : Bytes → Option (Option Bytes × Bytes)
decode_field [] = none
decode_field (zero ∷ s) = some (none, s)
decode_field (suc n ∷ s) = some (some (take n s), drop n s)

abbrev with_record :
    Option Bytes
    → Option (Option Bytes × Bytes)
    → (Bytes → Option (List Record))
    → Option (List Record)
with_record name none rest = none
with_record name (some (value, s)) rest = elim (rest s) [
  | none ↦ none
  | some ps ↦ some ((name, value) ∷ ps)
]

abbrev with_name :
    Option (Option Bytes × Bytes) → (Bytes → Option (List Record)) → Option (List Record)
with_name none rest = none
with_name (some (name, s)) rest = with_record name (decode_field s) rest

abbrev decode_loop : ℕ → Bytes → Option (List Record)
decode_loop fuel [] = some []
decode_loop zero (c ∷ s) = none
decode_loop (suc fuel) (c ∷ s) = with_name (decode_field (c ∷ s)) (λ t. decode_loop fuel t)

abbrev decode : Bytes → Option (List Record)
decode s = decode_loop (length s) s

decode-encode_field :
    (f : Option Bytes) (s : Bytes) → decode_field (encode_field f ++ s) ≡ some (f, s)
decode-encode_field none s = refl
decode-encode_field (some b) s =
    ap₂ (λ x y. some (some x, y)) (take-append_left b s) (drop-append_left b s)

decoded_fields :
    (name value : Option Bytes) (ps : List Record) (rest : Bytes → Option (List Record))
    → rest (encode ps) ≡ some ps
    → with_name (decode_field (encode_field name ++ (encode_field value ++ encode ps))) rest
      ≡ some ((name, value) ∷ ps)
decoded_fields name value ps rest h =
    ap (λ x. with_name x rest) (decode-encode_field name (encode_field value ++ encode ps))
    ∙ (ap (λ x. with_record name x rest) (decode-encode_field value (encode ps))
        ∙ ap
            (λ o. elim o as (λ x. Option (List Record)) [
              | none ↦ none
              | some ps ↦ some ((name, value) ∷ ps)
            ])
            h)

field_filled : (f : Option Bytes) → 1 ≤ length (encode_field f)
field_filled none = omega arith
field_filled (some b) = omega arith

decode_loop-encode :
    (fuel : ℕ) (ps : List Record) → length ps ≤ fuel → decode_loop fuel (encode ps) ≡ some ps
decode_loop-encode fuel [] h = refl
decode_loop-encode zero (p ∷ ps) h = absurd (omega (arith, h))
decode_loop-encode (suc fuel) ((none, value) ∷ ps) h =
    decoded_fields none value ps (λ t. decode_loop fuel t)
      (decode_loop-encode fuel ps (omega (arith, h)))
decode_loop-encode (suc fuel) ((some b, value) ∷ ps) h =
    decoded_fields (some b) value ps (λ t. decode_loop fuel t)
      (decode_loop-encode fuel ps (omega (arith, h)))

decode-encode : (ps : List Record) → decode (encode ps) ≡ some ps
decode-encode ps = decode_loop-encode (length (encode ps)) ps (long ps)
  where
    long : (ps : List Record) → length ps ≤ length (encode ps)
    long [] = omega arith
    long ((name, value) ∷ ps) = omega (
      arith,
      length-append (encode_field name) (encode_field value ++ encode ps),
      length-append (encode_field value) (encode ps),
      field_filled name,
      long ps,
    )

-- Two properties, out of order.
abbrev two_props : List Record
two_props =
    (some (codes "persist.b"), some (codes "1")) ∷ (some (codes "persist.a"), some (codes "2")) ∷ []

abbrev written_props : List Record
written_props =
    (some (codes "persist.a"), some (codes "3")) ∷ (some (codes "persist.b"), some (codes "1")) ∷ []

two_props-IsDistinct : IsDistinct two_props
unfolding compare_bytes
two_props-IsDistinct = (((λ e. cc), tt), (tt, tt))

persist_get_prop-persist_set_prop_example :
    persist_get_prop decode encode (codes "persist.a") (encode written_props) ≡ some (codes "3")
unfolding persist_set_prop proto_read_props sort_records find_index binary_search_by search_loop nth
    set_value_at insert_record compare_bytes
persist_get_prop-persist_set_prop_example =
    persist_get_prop-persist_set_prop decode encode (codes "persist.a") (codes "persist.a")
      (codes "3") (encode two_props) two_props (encode written_props) decode-encode refl
      two_props-IsDistinct refl

-- The same two, in order.
abbrev sorted_props : List Record
sorted_props =
    (some (codes "persist.a"), some (codes "2")) ∷ (some (codes "persist.b"), some (codes "1")) ∷ []

find_index_lem_example :
    find_index (codes "persist.b") sorted_props ≡ scan (codes "persist.b") sorted_props
unfolding compare_bytes
find_index_lem_example = find_index_lem (codes "persist.b") sorted_props ((refl, tt), (tt, tt))

persist_get_prop-persist_delete_prop_example :
    persist_get_prop decode encode
      (codes "persist.b")
      (encode ((some (codes "persist.b"), some (codes "1")) ∷ []))
    ≡ some (codes "1")
unfolding persist_delete_prop proto_read_props sort_records find_index binary_search_by search_loop
    nth remove_at insert_record persist_get_prop compare_bytes
persist_get_prop-persist_delete_prop_example =
    persist_get_prop-persist_delete_prop decode encode (codes "persist.b") (codes "persist.a")
      (encode two_props) two_props (encode ((some (codes "persist.b"), some (codes "1")) ∷ []))
      decode-encode refl two_props-IsDistinct refl
