-- ===== src/Boot/Cpio/Backup/Merge.antt =====
-- What the loop of `backup` in native/src/boot/cpio.rs finds: the entries of the original that are
-- not in the archive with the same data, and the entries of the archive that the original lacks.
use magisk.Prelude.{
  Ordering, ◌≡◌, refl, Bool, Option, none, some, [], ◌∷◌, ◌++◌, append-nil, append_assoc, arith,
  if◌then◌else◌, Bytes,
}
use magisk.Base.Text.{equal}
use magisk.Base.Order.{compare_bytes, compare_bytes_refl, compare_bytes_eq, compare_bytes_gt}
use magisk.Base.Map.{After, IsSorted, get, get-After, get-After_eq, After-trans}
use magisk.Boot.Cpio.{CpioEntry, Cpio}
use magisk.Boot.Cpio.Backup.{Codec, store, backup_loop}

-- The entries that are backed up.
unfoldable pub changed : Cpio → Cpio → Cpio
changed [] right = []
changed ((ln, le) ∷ left) [] = (ln, le) ∷ left
changed ((ln, le) ∷ left) ((rn, re) ∷ right) = elim (compare_bytes ln rn) [
  | Ordering.lt ↦ (ln, le) ∷ changed left ((rn, re) ∷ right)
  | Ordering.gt ↦ changed ((ln, le) ∷ left) right
  | Ordering.eq ↦
      if equal re.content le.content then changed left right else (ln, le) ∷ changed left right
]

-- The entries whose names are recorded.
unfoldable pub recorded : Cpio → Cpio → Cpio
recorded left [] = []
recorded [] ((rn, re) ∷ right) = (rn, re) ∷ right
recorded ((ln, le) ∷ left) ((rn, re) ∷ right) = elim (compare_bytes ln rn) [
  | Ordering.lt ↦ recorded left ((rn, re) ∷ right)
  | Ordering.gt ↦ (rn, re) ∷ recorded ((ln, le) ∷ left) right
  | Ordering.eq ↦ recorded left right
]

-- The text that the names make.
abbrev pub name_list : Cpio → Bytes
name_list [] = []
name_list ((n, e) ∷ m) = n ++ (0 ∷ name_list m)

changed_nil : (left : Cpio) → changed left [] ≡ left
unfolding changed
changed_nil [] = refl
changed_nil (l ∷ left) = refl

recorded_nil : (left : Cpio) → recorded left [] ≡ []
unfolding recorded
recorded_nil [] = refl
recorded_nil (l ∷ left) = refl

recorded_all : (right : Cpio) → recorded [] right ≡ right
unfolding recorded
recorded_all [] = refl
recorded_all (r ∷ right) = refl

one_more :
    (rm_list name rest : Bytes)
    → (rm_list ++ (name ++ (0 ∷ []))) ++ rest ≡ rm_list ++ (name ++ (0 ∷ rest))
one_more rm_list name rest = simp append_assoc

module _ (codec : Codec) (skip_compress : Bool) where
  abbrev pub store_all : Cpio → Cpio → Cpio
  store_all [] backups = backups
  store_all ((n, e) ∷ m) backups = store_all m (store codec skip_compress n e backups)

  -- The loop stores the changed entries and records the new ones.
  pub backup_loop_lem :
      (left right backups : Cpio) (rm_list : Bytes)
      → backup_loop codec skip_compress left right backups rm_list
        ≡ (store_all (changed left right) backups, rm_list ++ name_list (recorded left right))
  unfolding backup_loop changed recorded
  backup_loop_lem [] [] backups rm_list = cc (append-nil rm_list)
  backup_loop_lem ((ln, le) ∷ left) [] backups rm_list = ground (
    arith,
    backup_loop_lem left [] (store codec skip_compress ln le backups) rm_list,
    changed_nil left,
    recorded_nil left,
  )
  backup_loop_lem [] ((rn, re) ∷ right) backups rm_list = ground (
    arith,
    backup_loop_lem [] right backups (rm_list ++ (rn ++ (0 ∷ []))),
    recorded_all right,
    one_more rm_list rn (name_list right),
  )
  backup_loop_lem ((ln, le) ∷ left) ((rn, re) ∷ right) backups rm_list = ground (
    arith,
    backup_loop_lem left ((rn, re) ∷ right) (store codec skip_compress ln le backups) rm_list,
    backup_loop_lem ((ln, le) ∷ left) right backups (rm_list ++ (rn ++ (0 ∷ []))),
    backup_loop_lem left right backups rm_list,
    backup_loop_lem left right (store codec skip_compress ln le backups) rm_list,
    one_more rm_list rn (name_list (recorded ((ln, le) ∷ left) right)),
  )

abbrev pub changed_at : Option CpioEntry → Option CpioEntry → Option CpioEntry
changed_at none o = none
changed_at (some e) none = some e
changed_at (some e) (some e') = if equal e'.content e.content then none else some e

abbrev pub recorded_at : Option CpioEntry → Option CpioEntry → Option CpioEntry
recorded_at none o = o
recorded_at (some e) o = none

After-changed : (k : Bytes) (left right : Cpio) → After k left → After k (changed left right)
unfolding changed
After-changed k [] right h = tt
After-changed k ((ln, le) ∷ left) [] h = h
After-changed k ((ln, le) ∷ left) ((rn, re) ∷ right) h = ground (
  arith,
  After-changed k left ((rn, re) ∷ right) h.1,
  After-changed k left right h.1,
  After-changed k ((ln, le) ∷ left) right h,
)

pub changed-IsSorted : (left right : Cpio) → IsSorted left → IsSorted (changed left right)
unfolding changed
changed-IsSorted [] right s = tt
changed-IsSorted ((ln, le) ∷ left) [] s = s
changed-IsSorted ((ln, le) ∷ left) ((rn, re) ∷ right) s = ground (
  arith,
  After-changed ln left ((rn, re) ∷ right) s.0,
  After-changed ln left right s.0,
  changed-IsSorted left ((rn, re) ∷ right) s.1,
  changed-IsSorted left right s.1,
  changed-IsSorted ((ln, le) ∷ left) right s,
)

-- An entry of the original is backed up exactly if the archive has no entry of its name with the
-- same data.
pub get-changed :
    (left right : Cpio) (k : Bytes)
    → IsSorted left
    → IsSorted right
    → get k (changed left right) ≡ changed_at (get k left) (get k right)
unfolding changed get
get-changed [] right k s t = refl
get-changed ((ln, le) ∷ left) [] k s t = ground arith
get-changed ((ln, le) ∷ left) ((rn, re) ∷ right) k s t = ground (
  arith,
  get-changed left ((rn, re) ∷ right) k s.1 t,
  get-changed ((ln, le) ∷ left) right k s t.1,
  get-changed left right k s.1 t.1,
  compare_bytes_eq ln rn,
  compare_bytes_eq k ln,
  compare_bytes_eq k rn,
  compare_bytes_refl k,
  compare_bytes_gt ln rn,
  get-After_eq k ln left,
  get-After_eq k rn right,
  get-After ln right,
  get-After rn left,
  After-trans ln rn right,
  After-trans rn ln left,
)

After-recorded : (k : Bytes) (left right : Cpio) → After k right → After k (recorded left right)
unfolding recorded
After-recorded k [] [] h = tt
After-recorded k (l ∷ left) [] h = tt
After-recorded k [] ((rn, re) ∷ right) h = h
After-recorded k ((ln, le) ∷ left) ((rn, re) ∷ right) h = ground (
  arith,
  After-recorded k left ((rn, re) ∷ right) h,
  After-recorded k left right h.1,
  After-recorded k ((ln, le) ∷ left) right h.1,
)

pub recorded-IsSorted : (left right : Cpio) → IsSorted right → IsSorted (recorded left right)
unfolding recorded
recorded-IsSorted [] [] s = tt
recorded-IsSorted (l ∷ left) [] s = tt
recorded-IsSorted [] ((rn, re) ∷ right) s = s
recorded-IsSorted ((ln, le) ∷ left) ((rn, re) ∷ right) s = ground (
  arith,
  After-recorded rn ((ln, le) ∷ left) right s.0,
  recorded-IsSorted left ((rn, re) ∷ right) s,
  recorded-IsSorted left right s.1,
  recorded-IsSorted ((ln, le) ∷ left) right s.1,
)

-- A name is recorded exactly if the archive has it and the original has not.
pub get-recorded :
    (left right : Cpio) (k : Bytes)
    → IsSorted left
    → IsSorted right
    → get k (recorded left right) ≡ recorded_at (get k left) (get k right)
unfolding recorded get
get-recorded left [] k s t = ground (arith, recorded_nil left)
get-recorded [] ((rn, re) ∷ right) k s t = ground arith
get-recorded ((ln, le) ∷ left) ((rn, re) ∷ right) k s t = ground (
  arith,
  get-recorded left ((rn, re) ∷ right) k s.1 t,
  get-recorded ((ln, le) ∷ left) right k s t.1,
  get-recorded left right k s.1 t.1,
  compare_bytes_eq ln rn,
  compare_bytes_eq k ln,
  compare_bytes_eq k rn,
  compare_bytes_refl k,
  compare_bytes_gt ln rn,
  get-After_eq k ln left,
  get-After_eq k rn right,
  get-After ln right,
  get-After rn left,
  After-trans ln rn right,
  After-trans rn ln left,
)
