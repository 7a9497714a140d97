-- ===== src/Boot/Cpio/Archive.antt =====
-- load_from_data and dump of native/src/boot/cpio.rs: the "newc" archive as bytes. A write to the
-- output file is taken to write all that it is given, so the file is the concatenation of the writes.
pub mod Slices
pub mod Headers
pub mod Rounds
pub mod RoundTrip
pub mod Total
use magisk.Prelude.{
  ℕ, zero, suc, ◌+◌, ◌-◌, ◌*◌, ◌/◌, ◌%◌, ◌^◌, ◌≤◌, ◌<◌, Ordering, compare, bit_and, bit_or, ◌≡◌,
  refl, sym, ap, ap₂, ◌∙◌, fun_ext, ◌≢◌, ◌↔◌, ◌⊎◌, inl, inr, Bool, true, false, not, ◌&&◌, ◌||◌,
  Option, none, some, List, [], ◌∷◌, ◌++◌, map, append-nil, append_assoc, arith, ltb, leb, ◌==◌,
  if◌then◌else◌, ltb→lt, lt→ltb, ltb→le, leb→le, le→leb, ==_iff, tests, Bool-cases, Option-cases,
  Bytes, All, length, take, drop, replicate, is_empty, all_of, length-append, length-replicate,
  take-append-drop, length-take, length-drop, take-append_left, drop-append_left, take_all,
  drop_all, set, set-append,
}
use magisk.Base.Text.{codes, equal, find}
use magisk.Base.Utf8.{is_utf8}
use magisk.Base.Map.{insert}
use magisk.Base.Outcome.{Outcome, ok, fail, panic, out_of_fuel, ◌>>=◌}
use magisk.Boot.Cpio.{CpioEntry, Cpio}
use magisk.Boot.Cpio.Paths.{align_4}
use magisk.Boot.Cpio.Hex.{x8u, format_08x}

-- The fields of the header that are read.
pub record CpioHeader : Type 0 where
  pub magic : Bytes
  pub mode : Bytes
  pub uid : Bytes
  pub gid : Bytes
  pub filesize : Bytes
  pub rdevmajor : Bytes
  pub rdevminor : Bytes
  pub namesize : Bytes

-- `size_of::<CpioHeader>()`: a magic of 6 bytes and 13 fields of 8.
abbrev pub hdr_sz : ℕ
hdr_sz = 110

-- `from_bytes::<CpioHeader>`
unfoldable pub from_bytes : Bytes → CpioHeader
from_bytes b = record {
  magic = take 6 b;
  mode = take 8 (drop 14 b);
  uid = take 8 (drop 22 b);
  gid = take 8 (drop 30 b);
  filesize = take 8 (drop 54 b);
  rdevmajor = take 8 (drop 78 b);
  rdevminor = take 8 (drop 86 b);
  namesize = take 8 (drop 94 b);
}

-- `&data[from..to]`
unfoldable pub slice : Bytes → ℕ → ℕ → Outcome Bytes
slice text from to =
    if leb from to && leb to (length text) then ok (take (to - from) (drop from text)) else panic

-- `&data[from..]`
unfoldable pub slice_from : Bytes → ℕ → Outcome Bytes
slice_from text from = if leb from (length text) then ok (drop from text) else panic

-- `CStr::from_bytes_with_nul`: the one NUL is the last byte.
unfoldable pub until_nul : Bytes → Option Bytes
until_nul [] = none
until_nul (c ∷ b) =
    let rest = until_nul b in
    if c == 0
    then (if is_empty b then some [] else none)
    else elim rest [ none ↦ none | some s ↦ some (c ∷ s) ]

-- `Utf8CStr::from_bytes(bytes)?.to_string()`
unfoldable pub utf8_cstr : Bytes → Outcome Bytes
unfolding until_nul
utf8_cstr b = elim (until_nul b) [ none ↦ fail | some s ↦ if is_utf8 s then ok s else fail ]

-- How a round of the loop ends.
pub data Round : Type 0 where
  next : ℕ → Cpio → Round
  break : Cpio → Round

abbrev pub magic : Bytes
magic = codes "070701"

abbrev pub trailer : Bytes
trailer = codes "TRAILER!!!"

-- At a trailer: another archive may follow.
unfoldable pub skip_trailer : Bytes → ℕ → Cpio → Outcome Round
skip_trailer text pos cpio = do
  rest ← slice_from text pos
  elim (find rest magic) [ some x ↦ ok (next (pos + x) cpio) | none ↦ ok (break cpio) ]

-- The body of an entry, from its data on.
unfoldable pub load_entry : Bytes → ℕ → CpioHeader → Bytes → Cpio → Outcome Round
load_entry text pos hdr name cpio = do
  file_sz ← x8u hdr.filesize
  mode ← x8u hdr.mode
  uid ← x8u hdr.uid
  gid ← x8u hdr.gid
  rdevmajor ← x8u hdr.rdevmajor
  rdevminor ← x8u hdr.rdevminor
  content ← slice text pos (pos + file_sz)
  let entry : CpioEntry = record {
    mode = mode;
    uid = uid;
    gid = gid;
    rdevmajor = rdevmajor;
    rdevminor = rdevminor;
    content = content;
  }
  ok (next (align_4 (pos + file_sz)) (insert name entry cpio))

-- The round behind the header's magic.
unfoldable pub load_named : Bytes → ℕ → CpioHeader → Cpio → Outcome Round
load_named text pos hdr cpio = do
  name_sz ← x8u hdr.namesize
  bytes ← slice text pos (pos + name_sz)
  name ← utf8_cstr bytes
  let pos' = align_4 (pos + name_sz)
  if equal name (codes ".") || equal name (codes "..")
      then ok (next pos' cpio)
      else if equal name trailer
      then skip_trailer text pos' cpio
      else load_entry text pos' hdr name cpio

-- One round of `while pos < data.len()`.
unfoldable pub load_round : Bytes → ℕ → Cpio → Outcome Round
load_round text pos cpio = do
  bytes ← slice text pos (pos + hdr_sz)
  let hdr = from_bytes bytes
  if equal hdr.magic magic then load_named text (pos + hdr_sz) hdr cpio else fail

-- The loop, on fuel.
unfoldable pub load_loop : ℕ → Bytes → ℕ → Cpio → Outcome Cpio
load_loop zero text pos cpio = out_of_fuel
load_loop (suc fuel) text pos cpio = elim (ltb pos (length text)) [
  | false ↦ ok cpio
  | true ↦ elim (load_round text pos cpio) [
    | ok (next pos' cpio') ↦ load_loop fuel text pos' cpio'
    | ok (break cpio') ↦ ok cpio'
    | fail ↦ fail
    | panic ↦ panic
    | out_of_fuel ↦ out_of_fuel
  ]
]

-- Every round moves on by a header at least, so this fuel is enough.
unfoldable pub load_from_data : Bytes → Outcome Cpio
unfolding load_loop load_round load_named load_entry skip_trailer slice slice_from from_bytes
    utf8_cstr
load_from_data text = load_loop (suc (length text)) text 0 []

-- The formatted header: the fields in the order of the format string.
unfoldable pub header : ℕ → ℕ → ℕ → ℕ → ℕ → ℕ → ℕ → ℕ → ℕ → Bytes
unfolding format_08x
header inode mode uid gid nlink filesize rdevmajor rdevminor namesize =
    magic
    ++ (format_08x inode
        ++ (format_08x mode
            ++ (format_08x uid
                ++ (format_08x gid
                    ++ (format_08x nlink
                        ++ (format_08x 0
                            ++ (format_08x filesize
                                ++ (format_08x 0
                                    ++ (format_08x 0
                                        ++ (format_08x rdevmajor
                                            ++ (format_08x rdevminor
                                                ++ (format_08x namesize ++ format_08x 0))))))))))))

abbrev pub zeros : ℕ → Bytes
zeros n = replicate n 0

abbrev pub entry_header : ℕ → Bytes → CpioEntry → Bytes
entry_header inode name e =
    header inode e.mode e.uid e.gid 1 (length e.content) e.rdevmajor e.rdevminor (length name + 1)

-- What the loop of `dump` writes for the entries, and the trailer behind them. `pos` is the number
-- of bytes written before, and `inode` the number of the next entry.
unfoldable pub dump_loop : ℕ → ℕ → Cpio → Bytes
dump_loop pos inode [] =
    let head = header inode 0o755 0 0 1 0 0 0 11 in
    let pos1 = pos + length head + 11 in head ++ (trailer ++ (0 ∷ zeros (align_4 pos1 - pos1)))
dump_loop pos inode ((name, e) ∷ entries) =
    let head = entry_header inode name e in
    let pos1 = pos + length head + length name + 1 in
    let pos2 = align_4 pos1 + length e.content in
    head
    ++ (name
        ++ (0
            ∷ (zeros (align_4 pos1 - pos1)
                ++ (e.content
                    ++ (zeros (align_4 pos2 - pos2)
                        ++ dump_loop (align_4 pos2) (inode + 1) entries)))))

-- `let mut pos = 0usize; let mut inode = 300000i64;`
unfoldable pub dump : Cpio → Bytes
unfolding dump_loop
dump = dump_loop 0 300000
