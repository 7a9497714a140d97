-- ===== src/Boot/Cpio/Archive/Slices.antt =====
-- Slices of an archive's bytes (native/src/boot/cpio.rs), where the bytes are known in parts.
use magisk.Prelude.{
  ℕ, ◌+◌, ◌-◌, ◌≡◌, refl, true, some, [], ◌∷◌, ◌++◌, arith, Bytes, length, length-append,
  take-append_left, drop-append_left, drop_all,
}
use magisk.Base.Text.{Lacks}
use magisk.Base.Utf8.{is_utf8}
use magisk.Base.Outcome.{ok}
use magisk.Boot.Cpio.Archive.{slice, slice_from, until_nul, utf8_cstr}

pub slice_mid :
    (text pre mid post : Bytes) (from to : ℕ)
    → text ≡ pre ++ (mid ++ post)
    → from ≡ length pre
    → to ≡ from + length mid
    → slice text from to ≡ ok mid
unfolding slice
slice_mid text pre mid post from to e f t =
    rw (e, t, f)
      (ground (
        arith,
        drop-append_left pre (mid ++ post),
        take-append_left mid post,
        length-append pre (mid ++ post),
        length-append mid post,
        cut_length (length pre) (length mid),
      ))
  where
    cut_length : (a b : ℕ) → a + b - a ≡ b
    cut_length a b = omega arith

-- At the end nothing is left, and one step further is out of range.
pub slice_from_end : (text : Bytes) (from : ℕ) → from ≡ length text → slice_from text from ≡ ok []
unfolding slice_from
slice_from_end text from e = rw e (ground (arith, drop_all text))

pub until_nul-append : (name : Bytes) → Lacks 0 name → until_nul (name ++ (0 ∷ [])) ≡ some name
unfolding until_nul
until_nul-append [] h = refl
until_nul-append (c ∷ name) h = ground (arith, until_nul-append name h.1)

pub utf8_cstr-append :
    (name : Bytes) → Lacks 0 name → is_utf8 name ≡ true → utf8_cstr (name ++ (0 ∷ [])) ≡ ok name
unfolding utf8_cstr
utf8_cstr-append name h u = ground (arith, until_nul-append name h)
