-- ===== src/Core/Resetprop/RoundTrip.antt =====
-- What is set in the persistent properties is what is read back
-- (native/src/core/resetprop/persist.rs).
use magisk.Core.Resetprop.Order.{sort_records-IsSorted, put-IsSorted}
use magisk.Core.Resetprop.Rising.{IsDistinct, sort_records-IsRising, put-IsRising, distinct}
use magisk.Prelude.{Ordering, ◌≡◌, sym, ap, ◌∙◌, Option, some, List, Bytes}
use magisk.Base.Order.{compare_bytes}
use magisk.Core.Resetprop.Search.{IsRising, find_index_lem}
use magisk.Core.Resetprop.{
  Record, sort_records, proto_read_props, persist_get_prop, persist_set_prop,
}
use magisk.Core.Resetprop.Laws.{
  sort_records-IsSorted_lem, lookup_in_order, put_in_order, lookup_lem, with_value_lem, lookup-put,
}

module _ (decode : Bytes → Option (List Record)) (encode : List Record → Bytes) where
  pub get_lem :
      (j file : Bytes) (props : List Record)
      → IsDistinct props
      → decode file ≡ some props
      → persist_get_prop decode encode j file ≡ lookup_in_order j (sort_records props)
  unfolding persist_get_prop proto_read_props
  get_lem j file props d reads =
      rw
        (
          persist_get_prop,
          proto_read_props,
          reads,
          find_index_lem j (sort_records props) (sort_records-IsRising props d),
        )
        (lookup_lem j (sort_records props))

  set_lem :
      (key val file : Bytes) (props : List Record)
      → IsDistinct props
      → decode file ≡ some props
      → persist_set_prop decode encode key val file
        ≡ some (encode (put_in_order key val (sort_records props)))
  unfolding persist_set_prop proto_read_props
  set_lem key val file props d reads =
      rw
        (
          persist_set_prop,
          proto_read_props,
          reads,
          find_index_lem key (sort_records props) (sort_records-IsRising props d),
        )
        (ap (λ ps. some (encode ps)) (with_value_lem key val (sort_records props)))

  some_inj : {a b : Bytes} → some a ≡ some b → a ≡ b
  some_inj e = cc

  -- If the coding of the file loses nothing, the file of the properties can be read, no two of its
  -- records have the same name and `persist_set_prop` writes a file, then `persist_get_prop` finds
  -- in that one the new value for the key that was set, and for every other key what it found
  -- before.
  pub persist_get_prop-persist_set_prop :
      (j key val file : Bytes) (props : List Record) (written : Bytes)
      → ((ps : List Record) → decode (encode ps) ≡ some ps)
      → decode file ≡ some props
      → IsDistinct props
      → persist_set_prop decode encode key val file ≡ some written
      → persist_get_prop decode encode j written
        ≡ (elim (compare_bytes j key) as (λ x. Option Bytes) [
          | Ordering.eq ↦ some val
          | _ ↦ persist_get_prop decode encode j file
        ])
  persist_get_prop-persist_set_prop j key val file props written lossless reads d writes =
      let sorted = sort_records props in
      let now = put_in_order key val sorted in
      let now_rising : IsRising now = put-IsRising key val sorted (sort_records-IsRising props d) in
      let rereads : decode written ≡ some now =
        ap decode (sym (some_inj (sym (set_lem key val file props d reads) ∙ writes)))
        ∙ lossless now in
      get_lem j written now (distinct now now_rising) rereads
      ∙ (ap (lookup_in_order j) (
            sort_records-IsSorted_lem now
              (put-IsSorted key val sorted (sort_records-IsSorted props)))
          ∙ (lookup-put j key val sorted
              ∙ ap
                  (λ o. elim (compare_bytes j key) as (λ x. Option Bytes) [
                    | Ordering.eq ↦ some val
                    | _ ↦ o
                  ])
                  (sym (get_lem j file props d reads))))
