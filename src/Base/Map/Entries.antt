-- ===== src/Base/Map/Entries.antt =====
-- Predicates over the entries of a map, and which keys it has.
use magisk.Prelude.{
  Ordering, ◌≡◌, sym, inl, inr, Bool, true, false, Option, none, some, [], ◌∷◌, arith, Bool-cases,
  Bytes, All,
}
use mathlib.Core.Path.{subst₂}
use magisk.Base.Order.{compare_bytes}
use magisk.Base.Map.{
  compare_bytes_refl, get-After_eq, IsSorted, Map, same, same→eq, get, insert, extend, get-insert,
}

-- The predicate holds of every entry.
abbrev pub Entries {ℓ κ} : {V : Type ℓ} → (Bytes → V → Type κ) → Map V → Type κ
Entries P m = All (λ p. P p.0 p.1) m

abbrev pub is_some {ℓ} : {A : Type ℓ} → Option A → Bool
is_some none = false
is_some (some a) = true

module _ {ℓ κ} {V : Type ℓ} (P : Bytes → V → Type κ) where
  pub Entries-insert :
      (k : Bytes) (v : V) (m : Map V) → P k v → Entries P m → Entries P (insert k v m)
  unfolding insert
  Entries-insert k v [] p h = (p, tt)
  Entries-insert k v ((j, w) ∷ m) p h =
      insert_case k v j w m p h (Entries-insert k v m p h.1) (compare_bytes k j)
    where
      insert_case :
          (k : Bytes) (v : V) (j : Bytes) (w : V) (m : Map V)
          → P k v
          → Entries P ((j, w) ∷ m)
          → Entries P (insert k v m)
          → (o : Ordering)
          → Entries P (elim o [
            | Ordering.lt ↦ (k, v) ∷ (j, w) ∷ m
            | Ordering.eq ↦ (k, v) ∷ m
            | Ordering.gt ↦ (j, w) ∷ insert k v m
          ])
      insert_case k v j w m p h r Ordering.lt = (p, h)
      insert_case k v j w m p h r Ordering.eq = (p, h.1)
      insert_case k v j w m p h r Ordering.gt = (h.0, r)

  pub Entries-extend :
      (m other : Map V) → Entries P m → Entries P other → Entries P (extend m other)
  unfolding extend
  Entries-extend m [] h k = h
  Entries-extend m ((j, w) ∷ other) h k =
      Entries-extend (insert j w m) other (Entries-insert j w m k.0 h) k.1

  -- What a lookup finds is an entry.
  pub Entries-get : (k : Bytes) (v : V) (m : Map V) → Entries P m → get k m ≡ some v → P k v
  unfolding get
  Entries-get k v [] h e = cc
  Entries-get k v ((j, w) ∷ m) h e = elim (Bool-cases (same k j)) [
    | inl s ↦ let ev : w ≡ v = ground arith in subst₂ P (sym (same→eq k j s)) ev h.0
    | inr d ↦ Entries-get k v m h.1 (ground arith)
  ]

module _ {ℓ} {V : Type ℓ} where
  pub present-insert :
      (k j : Bytes) (v : V) (m : Map V)
      → is_some (get j m) ≡ true
      → is_some (get j (insert k v m)) ≡ true
  present-insert k j v m h = ground (arith, get-insert k j v m)

  pub not_none : (o : Option V) {v : V} → o ≡ some v → is_some o ≡ true
  not_none o e = ground arith

-- What holds of every answer holds of every entry.
pub Entries-of_get {ℓ κ} :
    {V : Type ℓ} (P : Bytes → V → Type κ) (m : Map V)
    → IsSorted m
    → ((k : Bytes) (v : V) → get k m ≡ some v → P k v)
    → Entries P m
unfolding get
Entries-of_get P [] s h = tt
Entries-of_get P ((j, w) ∷ m) s h = (
  h j w (ground (arith, compare_bytes_refl j)),
  Entries-of_get P m s.1 (λ k v e. h k v (later k v e)),
)
  where
    later : (k : Bytes) (v : _) → get k m ≡ some v → get k ((j, w) ∷ m) ≡ some v
    later k v e = ground (arith, get-After_eq k j m)
