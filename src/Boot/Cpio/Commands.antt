-- ===== src/Boot/Cpio/Commands.antt =====
-- The loop over the commands in native/src/boot/cpio.rs, and `extract`. The parser of the arguments
-- (argh) and the file system are parameters.
pub mod Run
use magisk.Base.Utf8.{is_utf8}
use magisk.Prelude.{
  ℕ, zero, suc, ◌+◌, ◌-◌, ◌*◌, ◌/◌, ◌%◌, ◌^◌, ◌≤◌, ◌<◌, Ordering, compare, bit_and, bit_or, ◌≡◌,
  refl, sym, ap, ap₂, ◌∙◌, fun_ext, ◌≢◌, ◌↔◌, ◌⊎◌, inl, inr, Bool, true, false, not, ◌&&◌, ◌||◌,
  Option, none, some, List, [], ◌∷◌, ◌++◌, map, append-nil, append_assoc, arith, ltb, leb, ◌==◌,
  if◌then◌else◌, ltb→lt, lt→ltb, ltb→le, leb→le, le→leb, ==_iff, tests, Bool-cases, Option-cases,
  Bytes, All, length, take, drop, replicate, is_empty, all_of, length-append, length-replicate,
  take-append-drop, length-take, length-drop, take-append_left, drop-append_left, take_all,
  drop_all, set, set-append,
}
use magisk.Base.Text.{codes, equal, starts_with, split, non_empty}
use magisk.Base.Map.{get}
use magisk.Base.Outcome.{Outcome, ok, fail, panic, out_of_fuel, ◌>>=◌, ◌>>◌}
use magisk.Boot.Cpio.{CpioEntry, Cpio, s_ifmt, s_ifdir, s_ifreg, s_iflnk, s_ifblk, s_ifchr}
use magisk.Boot.Cpio.Paths.{norm_path}
use magisk.Boot.Cpio.Archive.{load_from_data, dump}
use magisk.Boot.Cpio.Edit.{
  outside, rm, exists, mkdir, ln, ok_or_fail, mv, InFile, add_entry, add, lists, ls,
}
use magisk.Boot.Cpio.Backup.{Codec, backup, restore}
use magisk.Boot.Cpio.Ramdisk.{patch, test}

pub data CpioAction : Type 0 where
  run_test : CpioAction
  run_restore : CpioAction
  run_patch : CpioAction
  run_exists : (path : Bytes) → CpioAction
  run_backup : (origin : Bytes) (skip_compress : Bool) → CpioAction
  run_remove : (path : Bytes) (recursive : Bool) → CpioAction
  run_move : (from to : Bytes) → CpioAction
  run_make_dir : (mode : ℕ) (dir : Bytes) → CpioAction
  run_link : (src dst : Bytes) → CpioAction
  run_add : (mode : ℕ) (path file : Bytes) → CpioAction
  run_extract : (paths : List Bytes) → CpioAction
  run_list : (path : Bytes) (recursive : Bool) → CpioAction

-- What the loop works with: the coder, the two flags in the environment, the files that `backup` and
-- `add` read, the file that `extract` writes (`false` where a call fails), and `from_args`, with the
-- exit code where it exits. The files are taken not to change during a run: no command reads again what
-- `extract` has written.
pub record System : Type 0 where
  pub codec : Codec
  pub keep_verity : Bool
  pub keep_force_encrypt : Bool
  pub read_archive : Bytes → Option Bytes
  pub read_file : Bytes → Option InFile
  pub write_entry : Bytes → CpioEntry → Bool
  pub from_args : List Bytes → ℕ ⊎ CpioAction

-- How a command ends the run: the program exits with a code, returns, or prints the entries of `ls`
-- and returns.
pub data Stop : Type 0 where
  exited : ℕ → Stop
  returned : Stop
  listed : Cpio → Stop

pub data Step : Type 0 where
  go : Cpio → Step
  stop : Stop → Step

-- How the run ends: at a command, or behind the last one, where the archive is written.
pub data Finish : Type 0 where
  stopped : Stop → Finish
  dumped : Bytes → Finish

-- What the `match` in `extract_entry` takes: a known type of file, and a link's target that is
-- well-formed UTF-8.
unfoldable pub writable : CpioEntry → Bool
writable e =
    let type = bit_and e.mode s_ifmt in
    type == s_ifdir
    || type == s_ifreg
    || (type == s_iflnk && is_utf8 e.content)
    || type == s_ifblk
    || type == s_ifchr

module _ (system : System) where
  unfoldable pub extract_entry : Cpio → Bytes → Bytes → Outcome (Unit {0})
  unfolding writable
  extract_entry entries path out = do
    entry ← ok_or_fail (get path entries)
    if writable entry && system.write_entry out entry then ok tt else fail

  -- The loop over the keys of `entries`; `all` is the whole map.
  unfoldable pub extract_all : Cpio → Cpio → Outcome (Unit {0})
  unfolding extract_entry
  extract_all all [] = ok tt
  extract_all all ((path, e) ∷ entries) = elim (equal path (codes ".") || equal path (codes "..")) [
    | true ↦ extract_all all entries
    | false ↦ extract_entry all path path >> extract_all all entries
  ]

  -- `extract`, behind the test that there are no paths or two.
  unfoldable pub extract : Cpio → List Bytes → Outcome (Unit {0})
  unfolding extract_all
  extract entries [] = extract_all entries entries
  extract entries (path ∷ out ∷ []) = extract_entry entries (norm_path path) out
  extract entries (path ∷ []) = fail
  extract entries (path ∷ out ∷ more ∷ paths) = fail

  -- `Cpio::load_from_file`
  unfoldable pub load_from_file : Bytes → Outcome Cpio
  load_from_file file = do bytes ← ok_or_fail (system.read_archive file); load_from_data bytes

  -- The `match` on the action.
  unfoldable pub run_action : Cpio → CpioAction → Outcome Step
  unfolding extract load_from_file
  run_action cpio run_test = ok (stop (exited (test cpio)))
  run_action cpio run_restore = ok (go (restore system.codec cpio))
  run_action cpio run_patch = ok (go (patch system.keep_verity system.keep_force_encrypt cpio))
  run_action cpio (run_exists path) = if exists cpio path then ok (stop returned) else fail
  run_action cpio (run_backup origin skip_compress) = do
    cpio' ← backup system.codec skip_compress cpio (load_from_file origin)
    ok (go cpio')
  run_action cpio (run_remove path recursive) = ok (go (rm cpio path recursive))
  run_action cpio (run_move from to) = do cpio' ← mv cpio from to; ok (go cpio')
  run_action cpio (run_make_dir mode dir) = ok (go (mkdir cpio mode dir))
  run_action cpio (run_link src dst) = ok (go (ln cpio src dst))
  run_action cpio (run_add mode path file) = do
    cpio' ← add cpio mode path (system.read_file file)
    ok (go cpio')
  run_action cpio (run_extract paths) = do done ← extract cpio paths; ok (go cpio)
  run_action cpio (run_list path recursive) = ok (stop (listed (ls cpio path recursive)))

  -- One round of the loop: a comment is skipped, and arguments that are not understood end the
  -- program.
  unfoldable pub run_command : Cpio → Bytes → Outcome Step
  unfolding run_action
  run_command cpio cmd =
      if starts_with cmd (codes "#")
      then ok (go cpio)
      else elim (system.from_args (non_empty (split b' ' cmd))) [
        | inl code ↦ ok (stop (exited code))
        | inr action ↦ run_action cpio action
      ]

  -- The loop, and the `dump` behind it.
  unfoldable pub run_commands : Cpio → List Bytes → Outcome Finish
  unfolding run_command
  run_commands cpio [] = ok (dumped (dump cpio))
  run_commands cpio (cmd ∷ cmds) = elim (run_command cpio cmd) [
    | ok (go cpio') ↦ run_commands cpio' cmds
    | ok (stop s) ↦ ok (stopped s)
    | fail ↦ fail
    | panic ↦ panic
    | out_of_fuel ↦ out_of_fuel
  ]

  -- `cpio_commands`; `exists` of the file is that it can be read.
  unfoldable pub cpio_commands : Bool → Bytes → List Bytes → Outcome Finish
  unfolding run_commands load_from_file
  cpio_commands file_exists file cmds = do
    cpio ← if file_exists then load_from_file file else ok []
    run_commands cpio cmds
