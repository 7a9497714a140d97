-- ===== src/Boot/Cpio/Archive/Rounds.antt =====
-- One round of `load_from_data` of native/src/boot/cpio.rs on what `dump` wrote.
use magisk.Prelude.{
  ℕ, ◌+◌, ◌^◌, ◌<◌, ◌≡◌, refl, ap, ◌∙◌, true, false, ◌||◌, [], ◌∷◌, ◌++◌, append_assoc, arith,
  if◌then◌else◌, Bytes, length, length-append,
}
use magisk.Base.Text.{equal_refl, codes, equal, find, Lacks}
use magisk.Base.Utf8.{is_utf8}
use magisk.Base.Map.{insert}
use magisk.Base.Outcome.{ok}
use magisk.Boot.Cpio.{CpioEntry, Cpio}
use magisk.Boot.Cpio.Paths.{align_4}
use magisk.Boot.Cpio.Hex.{x8u-format_08x}
use magisk.Boot.Cpio.Archive.{
  utf8_cstr, CpioHeader, from_bytes, header, entry_header, magic, trailer, hdr_sz, next, break,
  skip_trailer, load_entry, load_named, load_round,
}
use magisk.Boot.Cpio.Archive.Slices.{slice_mid, slice_from_end, utf8_cstr-append}
use magisk.Boot.Cpio.Archive.Headers.{written, length-header, from_bytes-header}

-- The entries that the format can hold: the numbers have eight digits, the name is a C string that
-- is well-formed UTF-8, and it is none of the three that the loader takes for something else.
pub record Fits (name : Bytes) (e : CpioEntry) : Type 0 where
  pub mode : e.mode < 2 ^ 32
  pub uid : e.uid < 2 ^ 32
  pub gid : e.gid < 2 ^ 32
  pub rdevmajor : e.rdevmajor < 2 ^ 32
  pub rdevminor : e.rdevminor < 2 ^ 32
  pub filesize : length e.content < 2 ^ 32
  pub namesize : length name + 1 < 2 ^ 32
  pub no_nul : Lacks 0 name
  pub utf8 : is_utf8 name ≡ true
  pub no_dot : equal name (codes ".") ≡ false
  pub no_dots : equal name (codes "..") ≡ false
  pub no_trailer : equal name trailer ≡ false

-- The length of what stands in front of the content: a multiple of 4.
abbrev pub body : ℕ → Bytes → ℕ
body pos name = align_4 (pos + hdr_sz + (length name + 1))

abbrev pub past : ℕ → Bytes → CpioEntry → ℕ
past pos name e = align_4 (body pos name + length e.content)

abbrev entry_fields : Bytes → CpioEntry → CpioHeader
entry_fields name e =
    written e.mode e.uid e.gid (length e.content) e.rdevmajor e.rdevminor (length name + 1)

pub length-entry_header :
    (inode : ℕ) (name : Bytes) (e : CpioEntry)
    → Fits name e
    → inode < 2 ^ 32
    → length (entry_header inode name e) ≡ hdr_sz
length-entry_header inode name e f small =
    length-header inode e.mode e.uid e.gid 1 (length e.content) e.rdevmajor e.rdevminor
      (length name + 1) small f.mode f.uid f.gid (omega arith) f.filesize f.rdevmajor f.rdevminor
      f.namesize

from_bytes-entry_header :
    (inode : ℕ) (name : Bytes) (e : CpioEntry)
    → Fits name e
    → inode < 2 ^ 32
    → from_bytes (entry_header inode name e) ≡ entry_fields name e
from_bytes-entry_header inode name e f small =
    from_bytes-header inode e.mode e.uid e.gid 1 (length e.content) e.rdevmajor e.rdevminor
      (length name + 1) small f.mode f.uid f.gid (omega arith) f.filesize f.rdevmajor f.rdevminor
      f.namesize

load_entry_lem :
    (text pre post : Bytes) (pos : ℕ) (name : Bytes) (e : CpioEntry) (cpio : Cpio)
    → Fits name e
    → text ≡ pre ++ (e.content ++ post)
    → pos ≡ length pre
    → load_entry text pos (entry_fields name e) name cpio
      ≡ ok (next (align_4 (pos + length e.content)) (insert name e cpio))
unfolding load_entry
load_entry_lem text pre post pos name e cpio f split at = rw (
  x8u-format_08x (length e.content) f.filesize,
  x8u-format_08x e.mode f.mode,
  x8u-format_08x e.uid f.uid,
  x8u-format_08x e.gid f.gid,
  x8u-format_08x e.rdevmajor f.rdevmajor,
  x8u-format_08x e.rdevminor f.rdevminor,
  slice_mid text pre e.content post pos (pos + length e.content) split at refl,
)

load_named_lem :
    (text pre pad post : Bytes) (pos : ℕ) (name : Bytes) (e : CpioEntry) (cpio : Cpio)
    → Fits name e
    → text ≡ pre ++ (name ++ (0 ∷ (pad ++ (e.content ++ post))))
    → pos ≡ length pre
    → align_4 (pos + (length name + 1)) ≡ pos + (length name + 1) + length pad
    → load_named text pos (entry_fields name e) cpio
      ≡ ok (
          next
            (align_4 (align_4 (pos + (length name + 1)) + length e.content))
            (insert name e cpio))
unfolding load_named
load_named_lem text pre pad post pos name e cpio f split at padded =
    let read =
      slice_mid text pre (name ++ (0 ∷ [])) (pad ++ (e.content ++ post)) pos
        (pos + (length name + 1)) (split ∙ simp append_assoc) at
        (omega (arith, length-append name (0 ∷ []))) in
    rw
      (
        x8u-format_08x (length name + 1) f.namesize,
        read,
        utf8_cstr-append name f.no_nul f.utf8,
        f.no_dot,
        f.no_dots,
        f.no_trailer,
      )
      (load_entry_lem text (pre ++ (name ++ (0 ∷ pad))) post _ name e cpio f
        (split ∙ simp append_assoc)
        (omega
          (arith, padded, length-append pre (name ++ (0 ∷ pad)), length-append name (0 ∷ pad))))

pub load_round_lem :
    (text pre pad post : Bytes) (pos inode : ℕ) (name : Bytes) (e : CpioEntry) (cpio : Cpio)
    → Fits name e
    → inode < 2 ^ 32
    → text ≡ pre ++ (entry_header inode name e ++ (name ++ (0 ∷ (pad ++ (e.content ++ post)))))
    → pos ≡ length pre
    → body pos name ≡ pos + hdr_sz + (length name + 1) + length pad
    → load_round text pos cpio ≡ ok (next (past pos name e) (insert name e cpio))
unfolding load_round
load_round_lem text pre pad post pos inode name e cpio f small split at padded =
    let head = entry_header inode name e in
    let size : length head ≡ hdr_sz = length-entry_header inode name e f small in
    let read =
      slice_mid text pre head (name ++ (0 ∷ (pad ++ (e.content ++ post)))) pos (pos + hdr_sz) split
        at (omega arith) in
    rw (read, from_bytes-entry_header inode name e f small, equal_refl magic)
      (load_named_lem text (pre ++ head) pad post (pos + hdr_sz) name e cpio f
        (split ∙ simp append_assoc) (omega (arith, length-append pre head)) padded)

trailer_read : utf8_cstr (trailer ++ (0 ∷ [])) ≡ ok trailer
unfolding utf8_cstr is_utf8
trailer_read = refl

trailer_round :
    (text : Bytes) (pos : ℕ) (hdr : CpioHeader) (cpio : Cpio)
    → pos ≡ length text
    → (if equal trailer (codes ".") || equal trailer (codes "..")
        then ok (next pos cpio)
        else if equal trailer trailer
        then skip_trailer text pos cpio
        else load_entry text pos hdr trailer cpio)
      ≡ ok (break cpio)
unfolding equal skip_trailer find
trailer_round text pos hdr cpio e = rw (slice_from_end text pos e)

-- At the trailer, with nothing behind it, the loop stops.
pub load_round-trailer :
    (text pre pad : Bytes) (pos inode : ℕ) (cpio : Cpio)
    → inode < 2 ^ 32
    → text ≡ pre ++ (header inode 0o755 0 0 1 0 0 0 11 ++ (trailer ++ (0 ∷ pad)))
    → pos ≡ length pre
    → align_4 (pos + hdr_sz + 11) ≡ pos + hdr_sz + 11 + length pad
    → load_round text pos cpio ≡ ok (break cpio)
unfolding load_round load_named
load_round-trailer text pre pad pos inode cpio small split at padded =
    let head = header inode 0o755 0 0 1 0 0 0 11 in
    let size : length head ≡ hdr_sz =
      length-header inode 0o755 0 0 1 0 0 0 11 small (omega arith) (omega arith) (omega arith)
        (omega arith) (omega arith) (omega arith) (omega arith) (omega arith) in
    let fields =
      from_bytes-header inode 0o755 0 0 1 0 0 0 11 small (omega arith) (omega arith) (omega arith)
        (omega arith) (omega arith) (omega arith) (omega arith) (omega arith) in
    let read =
      slice_mid text pre head (trailer ++ (0 ∷ pad)) pos (pos + hdr_sz) split at (omega arith) in
    let name =
      slice_mid text (pre ++ head) (trailer ++ (0 ∷ [])) pad (pos + hdr_sz) (pos + hdr_sz + 11)
        (split ∙ simp append_assoc) (omega (arith, length-append pre head)) refl in
    rw (read, fields, equal_refl magic, x8u-format_08x 11 (omega arith), name, trailer_read)
      (trailer_round text _ _ cpio (
        omega (
          arith,
          padded,
          ap length split,
          length-append pre (head ++ (trailer ++ (0 ∷ pad))),
          length-append head (trailer ++ (0 ∷ pad)),
        )))
