-- ===== src/Base/Map.antt =====
-- An ordered map with byte strings as keys: what the sources use of `BTreeMap<String, V>`. The
-- entries stand in the order in which the map is walked. (`restore` and `backup` of `boot/cpio.rs`
-- also use a `HashMap`, whose order they never see.)
pub mod Entries
use magisk.Prelude.{
  Bytes, List, [], ◌∷◌, Option, none, some, Bool, true, false, ◌≡◌, refl, ◌≢◌, arith, Ordering,
  if◌then◌else◌,
}
use magisk.Base.Order.{
  compare_bytes, Below, compare_bytes_refl, compare_bytes_eq, compare_bytes_gt, Below-flip,
  Below-trans,
}

abbrev pub Map {ℓ} : Type ℓ → Type ℓ
Map V = List (Bytes × V)

-- Every key of the map comes after `k`.
abbrev pub After {ℓ} : {V : Type ℓ} → Bytes → Map V → Type 0
After k [] = Unit
After k ((j, v) ∷ m) = Below k j × After k m

-- The entries stand in the order of their keys, and no key stands twice.
abbrev pub IsSorted {ℓ} : {V : Type ℓ} → Map V → Type 0
IsSorted [] = Unit
IsSorted ((k, v) ∷ m) = After k m × IsSorted m

-- `a == b`
abbrev pub same : Bytes → Bytes → Bool
same a b = elim (compare_bytes a b) [ Ordering.eq ↦ true | _ ↦ false ]

pub same_refl : (a : Bytes) → same a a ≡ true
same_refl a = ground (arith, compare_bytes_refl a)

pub same→eq : (a b : Bytes) → same a b ≡ true → a ≡ b
same→eq a b h = ground (arith, compare_bytes_eq a b)

pub ne→same : (a b : Bytes) → a ≢ b → same a b ≡ false
ne→same a b h = ground (arith, compare_bytes_eq a b)

pub Below→same : (a b : Bytes) → Below a b → same a b ≡ false
Below→same a b h = ground arith

pub Below→same_flip : (a b : Bytes) → Below a b → same b a ≡ false
Below→same_flip a b h = ground (arith, Below-flip a b)

module _ {ℓ} {V : Type ℓ} where
  -- `map.get(k)`
  unfoldable pub get : Bytes → Map V → Option V
  get k [] = none
  get k ((j, v) ∷ m) =
      let rest = get k m in elim (compare_bytes k j) [ Ordering.eq ↦ some v | _ ↦ rest ]

  -- `map.insert(k, v)`
  unfoldable pub insert : Bytes → V → Map V → Map V
  insert k v [] = (k, v) ∷ []
  insert k v ((j, w) ∷ m) =
      let rest = insert k v m in
      elim (compare_bytes k j) [
        | Ordering.lt ↦ (k, v) ∷ (j, w) ∷ m
        | Ordering.eq ↦ (k, v) ∷ m
        | Ordering.gt ↦ (j, w) ∷ rest
      ]

  -- `map.remove(k)`, without the value that it returns
  unfoldable pub remove : Bytes → Map V → Map V
  remove k [] = []
  remove k ((j, w) ∷ m) =
      let rest = remove k m in elim (compare_bytes k j) [ Ordering.eq ↦ rest | _ ↦ (j, w) ∷ rest ]

  -- The entry that `retain` keeps, if any, in front of the rest.
  abbrev pub keep : Bytes → Option V → Map V → Map V
  keep k none m = m
  keep k (some v) m = (k, v) ∷ m

  -- `map.retain(f)`: `f` may change the value, and gives `none` where the closure gives `false`.
  unfoldable pub retain : (Bytes → V → Option V) → Map V → Map V
  retain f [] = []
  retain f ((k, v) ∷ m) = keep k (f k v) (retain f m)

  -- `map.extend(other)`
  unfoldable pub extend : Map V → Map V → Map V
  extend m [] = m
  extend m ((k, v) ∷ other) = extend (insert k v m) other

module _ {ℓ} {V : Type ℓ} where
  pub get-insert :
      (k j : Bytes) (v : V) (m : Map V)
      → get j (insert k v m) ≡ (if same j k then some v else get j m)
  unfolding get insert
  get-insert k j v [] = ground arith
  get-insert k j v ((i, w) ∷ m) = ground (
    arith,
    get-insert k j v m,
    compare_bytes_eq k i,
    compare_bytes_eq j k,
    compare_bytes_eq j i,
    compare_bytes_refl j,
  )

  pub get-insert_self : (k : Bytes) (v : V) (m : Map V) → get k (insert k v m) ≡ some v
  get-insert_self k v m = ground (arith, get-insert k k v m, same_refl k)

  pub get-remove :
      (k j : Bytes) (m : Map V) → get j (remove k m) ≡ (if same j k then none else get j m)
  unfolding get remove
  get-remove k j [] = ground arith
  get-remove k j ((i, w) ∷ m) = ground (
    arith,
    get-remove k j m,
    compare_bytes_eq k i,
    compare_bytes_eq j k,
    compare_bytes_eq j i,
    compare_bytes_refl j,
  )

  -- A key in front of all others is not in the map.
  pub get-After : (k : Bytes) (m : Map V) → After k m → get k m ≡ none
  unfolding get
  get-After k [] h = refl
  get-After k ((j, w) ∷ m) h = ground (arith, get-After k m)

  pub get-After_eq :
      (j k : Bytes) (m : Map V) → compare_bytes j k ≡ Ordering.eq → After k m → get j m ≡ none
  get-After_eq j k m e h = get-After j m (rw (compare_bytes_eq j k e) h)

  pub After-trans : (j k : Bytes) (m : Map V) → Below j k → After k m → After j m
  After-trans j k [] b h = tt
  After-trans j k ((i, w) ∷ m) b h = (Below-trans j k i b h.0, After-trans j k m b h.1)

  After-eq : (j k : Bytes) (m : Map V) → compare_bytes j k ≡ Ordering.eq → After k m → After j m
  After-eq j k m e h = rw (compare_bytes_eq j k e) h

  pub After-insert :
      (j k : Bytes) (v : V) (m : Map V) → Below j k → After j m → After j (insert k v m)
  unfolding insert
  After-insert j k v [] b h = (b, tt)
  After-insert j k v ((i, w) ∷ m) b h = ground (arith, After-insert j k v m b h.1)

  pub insert-IsSorted : (k : Bytes) (v : V) (m : Map V) → IsSorted m → IsSorted (insert k v m)
  unfolding insert
  insert-IsSorted k v [] s = (tt, tt)
  insert-IsSorted k v ((j, w) ∷ m) s = ground (
    arith,
    insert-IsSorted k v m s.1,
    After-trans k j m,
    After-insert j k v m,
    After-eq k j m,
    compare_bytes_gt k j,
  )

  pub After-retain :
      (j : Bytes) (f : Bytes → V → Option V) (m : Map V) → After j m → After j (retain f m)
  unfolding retain
  After-retain j f [] h = tt
  After-retain j f ((k, v) ∷ m) h = ground (arith, After-retain j f m h.1)

  pub retain-IsSorted : (f : Bytes → V → Option V) (m : Map V) → IsSorted m → IsSorted (retain f m)
  unfolding retain
  retain-IsSorted f [] s = tt
  retain-IsSorted f ((k, v) ∷ m) s = ground (arith, After-retain k f m s.0, retain-IsSorted f m s.1)

  pub After-remove : (j k : Bytes) (m : Map V) → After j m → After j (remove k m)
  unfolding remove
  After-remove j k [] h = tt
  After-remove j k ((i, w) ∷ m) h = ground (arith, After-remove j k m h.1)

  pub remove-IsSorted : (k : Bytes) (m : Map V) → IsSorted m → IsSorted (remove k m)
  unfolding remove
  remove-IsSorted k [] s = tt
  remove-IsSorted k ((j, w) ∷ m) s = ground (arith, After-remove j k m s.0, remove-IsSorted k m s.1)

  pub extend-IsSorted : (m other : Map V) → IsSorted m → IsSorted (extend m other)
  unfolding extend
  extend-IsSorted m [] s = s
  extend-IsSorted m ((k, v) ∷ other) s =
      extend-IsSorted (insert k v m) other (insert-IsSorted k v m s)

  abbrev pub bind : Option V → (V → Option V) → Option V
  bind none f = none
  bind (some v) f = f v

module _ {ℓ} {V : Type ℓ} where
  pub get-retain :
      (f : Bytes → V → Option V) (j : Bytes) (m : Map V)
      → IsSorted m
      → get j (retain f m) ≡ bind (get j m) (f j)
  unfolding get retain
  get-retain f j [] s = refl
  get-retain f j ((k, v) ∷ m) s =
      ground (
        arith,
        get-retain f j m s.1,
        compare_bytes_eq j k,
        compare_bytes_refl k,
        get-After_eq j k m,
      )

  abbrev pub or_else : Option V → Option V → Option V
  or_else (some v) o = some v
  or_else none o = o

  -- The entries of `other` win.
  pub get-extend :
      (j : Bytes) (m other : Map V)
      → IsSorted other
      → get j (extend m other) ≡ or_else (get j other) (get j m)
  unfolding extend get
  get-extend j m [] s = refl
  get-extend j m ((k, v) ∷ other) s =
      ground
        (arith, get-extend j (insert k v m) other s.1, get-insert k j v m, get-After_eq j k other)

  -- The heads of two sorted maps with the same answers are the same entry.
  same_head :
      (k : Bytes) (v : V) (a : Map V) (j : Bytes) (w : V) (b : Map V)
      → After k a
      → After j b
      → get k ((k, v) ∷ a) ≡ get k ((j, w) ∷ b)
      → get j ((k, v) ∷ a) ≡ get j ((j, w) ∷ b)
      → (k ≡ j) × (v ≡ w)
  unfolding get
  same_head k v a j w b s t hk hj = ground (
    arith,
    compare_bytes_refl k,
    compare_bytes_refl j,
    compare_bytes_eq k j,
    compare_bytes_gt k j,
    get-After k b,
    After-trans k j b,
    Below-flip k j,
    get-After j a,
    After-trans j k a,
  )

  tail_answers :
      (i k j : Bytes) (v w : V) (a b : Map V)
      → k ≡ j
      → After k a
      → After j b
      → get i ((k, v) ∷ a) ≡ get i ((j, w) ∷ b)
      → get i a ≡ get i b
  unfolding get
  tail_answers i k j v w a b e s t h = ground (arith, get-After_eq i k a, get-After_eq i j b)

  -- Two sorted maps with the same answers are the same list.
  pub map_ext : (a b : Map V) → IsSorted a → IsSorted b → ((k : Bytes) → get k a ≡ get k b) → a ≡ b
  unfolding get
  map_ext [] [] s t h = refl
  map_ext [] ((j, w) ∷ b) s t h = ground (arith, h j, compare_bytes_refl j)
  map_ext ((k, v) ∷ a) [] s t h = ground (arith, h k, compare_bytes_refl k)
  map_ext ((k, v) ∷ a) ((j, w) ∷ b) s t h =
      let (ek, ev) = same_head k v a j w b s.0 t.0 (h k) (h j) in
      cc (ek, ev, map_ext a b s.1 t.1 (λ i. tail_answers i k j v w a b ek s.0 t.0 (h i)))
