-- ===== src/Boot/Cpio/Backup/Removed.antt =====
-- The list of removed names (".backup/.rmlist") of native/src/boot/cpio.rs: what `backup` writes is
-- well-formed text, and `restore` removes exactly the names that were written.
use magisk.Boot.Cpio.Edit.Laws.{rm-IsSorted}
use magisk.Prelude.{
  ◌≡◌, refl, ap, ◌∙◌, ◌≢◌, true, false, none, List, [], ◌∷◌, arith, if◌then◌else◌, Bytes,
}
use magisk.Base.Text.{split, Lacks, split_part}
use magisk.Base.Utf8.{is_utf8, is_utf8-append, is_utf8_ascii}
use magisk.Base.Map.{IsSorted, get, remove, get-remove}
use magisk.Base.Map.Entries.{Entries, is_some}
use magisk.Boot.Cpio.{CpioEntry, Cpio}
use magisk.Boot.Cpio.Paths.{IsNormal}
use magisk.Boot.Cpio.Edit.{rm}
use magisk.Boot.Cpio.Backup.{rm_names}
use magisk.Boot.Cpio.Backup.Merge.{name_list}

-- A name that survives the list: it is a normal path, not empty, well-formed UTF-8 without NUL.
pub record Listable (name : Bytes) (e : CpioEntry) : Type 0 where
  pub normal : IsNormal name
  pub not_empty : name ≢ []
  pub no_nul : Lacks 0 name
  pub utf8 : is_utf8 name ≡ true

-- The names, and the empty text behind the last NUL.
abbrev names : Cpio → List Bytes
names [] = [] ∷ []
names ((n, e) ∷ m) = n ∷ names m

pub is_utf8-name_list : (m : Cpio) → Entries Listable m → is_utf8 (name_list m) ≡ true
is_utf8-name_list [] h = unfold is_utf8 in refl
is_utf8-name_list ((n, e) ∷ m) h = is_utf8-append n (0 ∷ name_list m) h.0.utf8 (
    is_utf8-append (0 ∷ []) (name_list m) (is_utf8_ascii 0 (omega arith)) (is_utf8-name_list m h.1))

split-name_list : (m : Cpio) → Entries Listable m → split 0 (name_list m) ≡ names m
split-name_list [] h = unfold split in refl
split-name_list ((n, e) ∷ m) h =
    split_part 0 n (name_list m) h.0.no_nul ∙ ap (◌∷◌ n) (split-name_list m h.1)

rm_plain :
    (entries : Cpio) (name : Bytes) → IsNormal name → rm entries name false ≡ remove name entries
unfolding rm
rm_plain entries name h = rw h

get-rm_names-names :
    (entries m : Cpio) (k : Bytes)
    → Entries Listable m
    → get k (rm_names entries (names m)) ≡ (if is_some (get k m) then none else get k entries)
unfolding rm_names get
get-rm_names-names entries [] k h = refl
get-rm_names-names entries (([], e) ∷ m) k h = absurd (h.0.not_empty refl)
get-rm_names-names entries ((c ∷ n, e) ∷ m) k h = ground (
  arith,
  get-rm_names-names (rm entries (c ∷ n) false) m k h.1,
  ap (get k) (rm_plain entries (c ∷ n) h.0.normal),
  get-remove (c ∷ n) k entries,
)

-- The names that were recorded are removed, and no other.
pub get-rm_names :
    (entries m : Cpio) (k : Bytes)
    → Entries Listable m
    → get k (rm_names entries (split 0 (name_list m)))
      ≡ (if is_some (get k m) then none else get k entries)
get-rm_names entries m k h = rw (split-name_list m h) (get-rm_names-names entries m k h)

pub rm_names-IsSorted :
    (entries : Cpio) (ns : List Bytes) → IsSorted entries → IsSorted (rm_names entries ns)
unfolding rm_names
rm_names-IsSorted entries [] s = s
rm_names-IsSorted entries ([] ∷ ns) s = rm_names-IsSorted entries ns s
rm_names-IsSorted entries ((c ∷ n) ∷ ns) s =
    rm_names-IsSorted (rm entries (c ∷ n) false) ns (rm-IsSorted entries (c ∷ n) false s)
