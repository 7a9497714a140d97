-- ===== src/Core/Resetprop.antt =====
-- native/src/core/resetprop/persist.rs: the file of the persistent properties.
pub mod Search
pub mod Laws
pub mod Order
pub mod Rising
pub mod RoundTrip
pub mod Deleted
pub mod Examples
use magisk.Prelude.{
  ℕ, zero, suc, ◌+◌, ◌-◌, ◌*◌, ◌/◌, ◌%◌, ◌^◌, ◌≤◌, ◌<◌, Ordering, compare, bit_and, bit_or, ◌≡◌,
  refl, sym, ap, ap₂, ◌∙◌, fun_ext, ◌≢◌, ◌↔◌, ◌⊎◌, inl, inr, Bool, true, false, not, ◌&&◌, ◌||◌,
  Option, none, some, List, [], ◌∷◌, ◌++◌, map, append-nil, append_assoc, arith, ltb, leb, ◌==◌,
  if◌then◌else◌, ltb→lt, lt→ltb, ltb→le, leb→le, le→leb, ==_iff, tests, Bool-cases, Option-cases,
  Bytes, All, length, take, drop, replicate, is_empty, all_of, length-append, length-replicate,
  take-append-drop, length-take, length-drop, take-append_left, drop-append_left, take_all,
  drop_all, set, set-append,
}
use magisk.Base.Order.{compare_bytes}

-- `PersistentPropertyRecord`: a name and a value, each of which may be missing.
abbrev pub Record : Type 0
Record = Option Bytes × Option Bytes

-- `a.name.cmp(&b.name)`: no name comes first.
abbrev pub compare_names : Option Bytes → Option Bytes → Ordering
compare_names none none = Ordering.eq
compare_names none (some b) = Ordering.lt
compare_names (some a) none = Ordering.gt
compare_names (some a) (some b) = compare_bytes a b

-- `sort_unstable_by`, which may put equal names in any order; here they keep it.
unfoldable pub insert_record : Record → List Record → List Record
insert_record r [] = r ∷ []
insert_record r (s ∷ props) =
    let rest = insert_record r props in
    elim (compare_names r.0 s.0) [ Ordering.gt ↦ s ∷ rest | _ ↦ r ∷ s ∷ props ]

unfoldable pub sort_records : List Record → List Record
unfolding insert_record
sort_records [] = []
sort_records (r ∷ props) = insert_record r (sort_records props)

-- Where a name is, or where it would be inserted.
pub data Index : Type 0 where
  hit : ℕ → Index
  miss : ℕ → Index

unfoldable pub nth : ℕ → List Record → Option Record
nth i [] = none
nth zero (r ∷ props) = some r
nth (suc i) (r ∷ props) = nth i props

-- The loop of `binary_search_by` of the standard library, on fuel: each round with more than one
-- element left halves them.
unfoldable pub search_loop : ℕ → (ℕ → Ordering) → ℕ → ℕ → ℕ
search_loop zero order base size = base
search_loop (suc fuel) order base size =
    let half = size / 2 in
    let next = elim (order (base + half)) as (λ o. ℕ) [ Ordering.gt ↦ base | _ ↦ base + half ] in
    let rest = search_loop fuel order next (size - half) in if ltb 1 size then rest else base

abbrev pub index_of : Ordering → ℕ → Index
index_of Ordering.lt base = miss (suc base)
index_of Ordering.eq base = hit base
index_of Ordering.gt base = miss base

-- `order i` is how the element at `i` compares with what is searched; as many rounds as elements
-- are enough.
unfoldable pub binary_search_by : (ℕ → Ordering) → ℕ → Index
unfolding search_loop
binary_search_by order size =
    if size == 0
    then miss 0
    else let base = search_loop size order 0 size in index_of (order base) base

-- `p.name.as_deref().cmp(&Some(name.as_str()))` of the record at an index, which is in range.
abbrev pub order_at : Bytes → List Record → ℕ → Ordering
order_at name props i = elim (nth i props) [
  | none ↦ Ordering.gt
  | some r ↦ compare_names r.0 (some name)
]

unfoldable pub find_index : Bytes → List Record → Index
unfolding binary_search_by nth
find_index name props = binary_search_by (order_at name props) (length props)

unfoldable pub remove_at : ℕ → List Record → List Record
remove_at i [] = []
remove_at zero (r ∷ props) = props
remove_at (suc i) (r ∷ props) = r ∷ remove_at i props

-- `Vec::insert`; the search never gives an index behind the end.
unfoldable pub insert_at : ℕ → Record → List Record → List Record
insert_at zero s props = s ∷ props
insert_at (suc i) s [] = s ∷ []
insert_at (suc i) s (r ∷ props) = r ∷ insert_at i s props

-- `props.properties[idx].value = Some(val)`
unfoldable pub set_value_at : ℕ → Bytes → List Record → List Record
set_value_at i val [] = []
set_value_at zero val ((name, old) ∷ props) = (name, some val) ∷ props
set_value_at (suc i) val (r ∷ props) = r ∷ set_value_at i val props

-- A record with a name and a value.
abbrev pub value_of : Option Record → Option Bytes
value_of none = none
value_of (some (none, v)) = none
value_of (some (some name, v)) = v

abbrev pub at_index : List Record → Index → Option Record
at_index props (hit i) = nth i props
at_index props (miss i) = none

abbrev pub set_at_index : Bytes → Bytes → List Record → Index → List Record
set_at_index key val props (hit i) = set_value_at i val props
set_at_index key val props (miss i) = insert_at i (some key, some val) props

abbrev pub delete_at_index : List Record → Index → Option (List Record)
delete_at_index props (hit i) = some (remove_at i props)
delete_at_index props (miss i) = none

-- `decode` and `encode` are those of the protobuf library.
module _ (decode : Bytes → Option (List Record)) (encode : List Record → Bytes) where
  unfoldable pub proto_read_props : Bytes → Option (List Record)
  unfolding sort_records
  proto_read_props file = elim (decode file) [
    | none ↦ none
    | some props ↦ some (sort_records props)
  ]

  unfoldable pub persist_get_prop : Bytes → (file : Bytes) → Option Bytes
  unfolding proto_read_props find_index nth
  persist_get_prop key file = elim (proto_read_props file) [
    | none ↦ none
    | some props ↦ value_of (at_index props (find_index key props))
  ]

  -- The file that is written, if any.
  unfoldable pub persist_set_prop : (key val : Bytes) → (file : Bytes) → Option Bytes
  unfolding proto_read_props find_index set_value_at insert_at
  persist_set_prop key val file = elim (proto_read_props file) [
    | none ↦ none
    | some props ↦ some (encode (set_at_index key val props (find_index key props)))
  ]

  unfoldable pub persist_delete_prop : Bytes → (file : Bytes) → Option Bytes
  unfolding proto_read_props find_index remove_at
  persist_delete_prop key file = elim (proto_read_props file) [
    | none ↦ none
    | some props ↦ elim (delete_at_index props (find_index key props)) [
      | none ↦ none
      | some rest ↦ some (encode rest)
    ]
  ]
