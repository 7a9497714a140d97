-- ===== src/Core/Resetprop/Search.antt =====
-- The binary search of native/src/core/resetprop/persist.rs, on a list whose names rise.
use mathlib.Core.Path.{subst}
use magisk.Prelude.{inl, inr}
use magisk.Base.Order.{compare_bytes_eq, compare_bytes_gt, Below-flip, Below-trans, Ordering-cases}
use magisk.Prelude.{
  ℕ, zero, suc, ◌+◌, ◌-◌, ◌/◌, ◌≤◌, ◌<◌, Ordering, ◌≡◌, refl, ap, false, ◌==◌, Option, none, some,
  List, [], ◌∷◌, arith, Bytes, length,
}
use magisk.Core.Resetprop.{
  Record, compare_names, Index, hit, miss, nth, search_loop, index_of, binary_search_by, order_at,
  find_index,
}

abbrev pub shift : Index → Index
shift (hit i) = hit (suc i)
shift (miss i) = miss (suc i)

-- The search from the front of a list in order.
unfoldable pub scan : Bytes → List Record → Index
scan name [] = miss 0
scan name (r ∷ props) =
    let rest = scan name props in
    elim (compare_names r.0 (some name)) [
      | Ordering.lt ↦ shift rest
      | Ordering.eq ↦ hit 0
      | Ordering.gt ↦ miss 0
    ]

-- The index is that of the only match, or the first that is after.
abbrev pub Finds : (ℕ → Ordering) → ℕ → Index → Type 0
Finds order n (hit i) =
    (i < n)
    × ((j : ℕ) → j < i → order j ≡ Ordering.lt)
    × (order i ≡ Ordering.eq)
    × ((j : ℕ) → i < j → j < n → order j ≡ Ordering.gt)
Finds order n (miss i) =
    (i ≤ n)
    × ((j : ℕ) → j < i → order j ≡ Ordering.lt)
    × ((j : ℕ) → i ≤ j → j < n → order j ≡ Ordering.gt)

-- The part that is left of the search holds the match.
search_loop-hit :
    (fuel : ℕ) (order : ℕ → Ordering) (base size n i : ℕ)
    → Finds order n (hit i)
    → base ≤ i
    → i < base + size
    → base + size ≤ n
    → size ≤ fuel
    → search_loop fuel order base size ≡ i
unfolding search_loop
search_loop-hit zero order base size n i f p q r s = absurd (omega arith)
search_loop-hit (suc fuel) order base size n i f p q r s = ground (
  arith,
  f.1 (base + size / 2),
  f.2,
  f.3 (base + size / 2),
  Ordering-cases (order (base + size / 2)),
  search_loop-hit fuel order base (size - size / 2) n i f,
  search_loop-hit fuel order (base + size / 2) (size - size / 2) n i f,
)

-- The search ends next to the place where nothing matches.
search_loop-miss :
    (fuel : ℕ) (order : ℕ → Ordering) (base size n i : ℕ)
    → Finds order n (miss i)
    → base ≤ i
    → i ≤ base + size
    → base + size ≤ n
    → 0 < size
    → size ≤ fuel
    → (search_loop fuel order base size < n)
      × (search_loop fuel order base size ≤ i)
      × (i ≤ search_loop fuel order base size + 1)
unfolding search_loop
search_loop-miss zero order base size n i f p q r z s = absurd (omega arith)
search_loop-miss (suc fuel) order base size n i f p q r z s = ground (
  arith,
  f.1 (base + size / 2),
  f.2 (base + size / 2),
  Ordering-cases (order (base + size / 2)),
  search_loop-miss fuel order base (size - size / 2) n i f,
  search_loop-miss fuel order (base + size / 2) (size - size / 2) n i f,
)

binary_search_by-Finds :
    (order : ℕ → Ordering) (n : ℕ) (x : Index) → Finds order n x → binary_search_by order n ≡ x
unfolding binary_search_by
binary_search_by-Finds order n (hit i) f =
    let here : search_loop n order 0 n ≡ i =
      search_loop-hit n order 0 n n i f (omega arith) (omega (arith, f.0)) (omega arith)
        (omega arith) in
    let filled : (n == 0) ≡ false = ground (arith, f.0) in rw (filled, here, f.2) refl
binary_search_by-Finds order zero (miss i) f = ground (arith, f.0)
binary_search_by-Finds order (suc n) (miss i) f =
    let base = search_loop (suc n) order 0 (suc n) in
    let near =
      search_loop-miss (suc n) order 0 (suc n) (suc n) i f (omega arith) (omega (arith, f.0))
        (omega arith) (omega arith) (omega arith) in
    let filled : (suc n == 0) ≡ false = ground arith in rw filled (beside base near.0 near.1 near.2)
  where
    beside :
        (base : ℕ) → base < suc n → base ≤ i → i ≤ base + 1 → index_of (order base) base ≡ miss i
    beside base p q r = elim (Ordering-cases (order base)) [
      | inl lt ↦ rw lt (ap miss (ground (arith, f.2 base)))
      | inr (inl eq) ↦ ground (arith, f.1 base, f.2 base)
      | inr (inr gt) ↦ rw gt (ap miss (ground (arith, f.1 base)))
    ]

-- Every name of the list is after the name.
abbrev pub AllAfter : Option Bytes → List Record → Type 0
AllAfter name [] = Unit
AllAfter name (r ∷ props) = (compare_names r.0 name ≡ Ordering.gt) × AllAfter name props

abbrev pub IsRising : List Record → Type 0
IsRising [] = Unit
IsRising (r ∷ props) = AllAfter r.0 props × IsRising props

pub names_gt_trans :
    (a b c : Option Bytes)
    → compare_names b a ≡ Ordering.gt
    → compare_names c b ≡ Ordering.gt
    → compare_names c a ≡ Ordering.gt
names_gt_trans none none c h k = cc
names_gt_trans none (some b) none h k = cc
names_gt_trans none (some b) (some c) h k = refl
names_gt_trans (some a) none c h k = cc
names_gt_trans (some a) (some b) none h k = cc
names_gt_trans (some a) (some b) (some c) h k =
    Below-flip a c (Below-trans a b c (compare_bytes_gt b a h) (compare_bytes_gt c b k))

pub AllAfter-trans :
    (a b : Option Bytes) (props : List Record)
    → compare_names b a ≡ Ordering.gt
    → AllAfter b props
    → AllAfter a props
AllAfter-trans a b [] h k = tt
AllAfter-trans a b (r ∷ props) h k = (names_gt_trans a b r.0 h k.0, AllAfter-trans a b props h k.1)

order_at-gt :
    (name : Bytes) (props : List Record) (j : ℕ)
    → AllAfter (some name) props
    → j < length props
    → order_at name props j ≡ Ordering.gt
unfolding nth
order_at-gt name [] j h p = absurd (omega arith)
order_at-gt name (r ∷ props) zero h p = h.0
order_at-gt name (r ∷ props) (suc j) h p = order_at-gt name props j h.1 (omega arith)

names_eq : (a b : Option Bytes) → compare_names a b ≡ Ordering.eq → a ≡ b
names_eq none none h = refl
names_eq none (some b) h = cc
names_eq (some a) none h = cc
names_eq (some a) (some b) h = ap some (compare_bytes_eq a b h)

scan-Finds :
    (name : Bytes) (props : List Record)
    → IsRising props
    → Finds (order_at name props) (length props) (scan name props)
unfolding scan nth
scan-Finds name [] s = (omega arith, (λ j p. absurd (omega arith)), (λ j p q. absurd (omega arith)))
scan-Finds name (r ∷ props) s =
    by_order (compare_names r.0 (some name)) refl (scan name props) (scan-Finds name props s.1)
  where
    before :
        (i : ℕ)
        → compare_names r.0 (some name) ≡ Ordering.lt
        → ((j : ℕ) → j < i → order_at name props j ≡ Ordering.lt)
        → (j : ℕ) → j < suc i
        → order_at name (r ∷ props) j ≡ Ordering.lt
    before i e f zero p = e
    before i e f (suc j) p = f j (omega arith)

    behind :
        AllAfter (some name) props
        → (j : ℕ) → 0 < j
        → j < length (r ∷ props)
        → order_at name (r ∷ props) j ≡ Ordering.gt
    behind h zero p q = absurd (omega arith)
    behind h (suc j) p q = order_at-gt name props j h (omega arith)

    by_order :
        (o : Ordering)
        → compare_names r.0 (some name) ≡ o
        → (x : Index) → Finds (order_at name props) (length props) x
        → Finds (order_at name (r ∷ props)) (length (r ∷ props)) (elim o as (λ y. Index) [
          | Ordering.lt ↦ shift x
          | Ordering.eq ↦ hit 0
          | Ordering.gt ↦ miss 0
        ])
    by_order Ordering.lt e (hit i) f = (omega (arith, f.0), before i e f.1, f.2, after_all)
      where
        after_all :
            (j : ℕ) → suc i < j → j < length (r ∷ props) → order_at name (r ∷ props) j ≡ Ordering.gt
        after_all zero p q = absurd (omega arith)
        after_all (suc j) p q = f.3 j (omega arith) (omega arith)
    by_order Ordering.lt e (miss i) f = (omega (arith, f.0), before i e f.1, after_all)
      where
        after_all :
            (j : ℕ) → suc i ≤ j → j < length (r ∷ props) → order_at name (r ∷ props) j ≡ Ordering.gt
        after_all zero p q = absurd (omega arith)
        after_all (suc j) p q = f.2 j (omega arith) (omega arith)
    by_order Ordering.eq e x f = (
      omega arith,
      (λ j p. absurd (omega arith)),
      e,
      behind (subst (λ n. AllAfter n props) (names_eq r.0 (some name) e) s.0),
    )
    by_order Ordering.gt e x f = (omega arith, (λ j p. absurd (omega arith)), after_all)
      where
        after_all :
            (j : ℕ) → 0 ≤ j → j < length (r ∷ props) → order_at name (r ∷ props) j ≡ Ordering.gt
        after_all zero p q = e
        after_all (suc j) p q =
            behind (AllAfter-trans (some name) r.0 props e s.0) (suc j) (omega arith) q

-- In a list whose names rise, each after the one before it, the binary search finds what a search
-- from the front does: the index of the name, or the one where it belongs.
pub find_index_lem :
    (name : Bytes) (props : List Record) → IsRising props → find_index name props ≡ scan name props
unfolding find_index
find_index_lem name props s =
    binary_search_by-Finds (order_at name props) (length props) (scan name props)
      (scan-Finds name props s)
