-- ===== src/Boot/Cpio/Commands/Run.antt =====
-- What a run of the commands of native/src/boot/cpio.rs does.
use mathlib.Core.Path.{subst}
use magisk.Prelude.{
  All, ℕ, ◌≡◌, refl, sym, ap, ◌⊎◌, inl, inr, Bool, true, false, Option, none, some, List, [], ◌∷◌,
  if◌then◌else◌, Bytes,
}
use magisk.Base.Text.{codes, starts_with, ends_with, split, non_empty}
use magisk.Base.Map.{
  IsSorted, get, insert, remove, retain, extend, insert-IsSorted, retain-IsSorted, remove-IsSorted,
  extend-IsSorted,
}
use magisk.Base.Outcome.{Outcome, ◌>>=◌, >>=-eq-ok, ok, fail, panic, out_of_fuel}
use magisk.Boot.Cpio.{Cpio}
use magisk.Boot.Cpio.Archive.{dump}
use magisk.Boot.Cpio.Archive.Total.{Loaded, load_from_data-Loaded}
use magisk.Boot.Cpio.Edit.{rm, exists, mkdir, ln, ok_or_fail, mv, InFile, add_entry, add}
use magisk.Boot.Cpio.Edit.Laws.{rm-IsSorted}
use magisk.Boot.Cpio.Backup.{
  Codec, backup_dir, backup_from, backup, restore_entries, not_backup, rm_names, restore_with,
  restore,
}
use magisk.Boot.Cpio.Backup.Removed.{rm_names-IsSorted}
use magisk.Boot.Cpio.Ramdisk.{patch}
use magisk.Boot.Cpio.Commands.{
  stopped, norm_path, CpioAction, System, Finish, Step, extract, load_from_file, run_action,
  run_command, run_commands, cpio_commands, run_test, run_restore, run_patch, run_exists,
  run_backup, run_remove, run_move, run_make_dir, run_link, run_add, run_extract, run_list, exited,
  returned, dumped, go, stop,
}

-- Every action but these three lets the next command run.
abbrev pub GoesOn : CpioAction → Type 0
GoesOn run_test = ⊥
GoesOn (run_exists path) = ⊥
GoesOn (run_list path recursive) = ⊥
GoesOn _ = Unit

-- What a step leaves behind is in order, if it goes on.
abbrev Keeps : Outcome Step → Type 0
Keeps (ok (go cpio)) = IsSorted cpio
Keeps _ = Unit

restore_with-IsSorted :
    (entries : Cpio) (s : Cpio × Bytes) → IsSorted entries → IsSorted (restore_with entries s)
unfolding extend
restore_with-IsSorted entries ([], []) h = tt
restore_with-IsSorted entries (p ∷ b, []) h =
    extend-IsSorted (rm_names entries (split 0 [])) (p ∷ b)
      (rm_names-IsSorted entries (split 0 []) h)
restore_with-IsSorted entries ([], c ∷ r) h = rm_names-IsSorted entries (split 0 (c ∷ r)) h
restore_with-IsSorted entries (p ∷ b, c ∷ r) h =
    extend-IsSorted (rm_names entries (split 0 (c ∷ r))) (p ∷ b)
      (rm_names-IsSorted entries (split 0 (c ∷ r)) h)

restore-IsSorted :
    (codec : Codec) (entries : Cpio) → IsSorted entries → IsSorted (restore codec entries)
unfolding restore
restore-IsSorted codec entries h =
    restore_with-IsSorted (rm (retain not_backup entries) backup_dir false)
      (restore_entries codec entries ([], []))
      (rm-IsSorted (retain not_backup entries) backup_dir false
        (retain-IsSorted not_backup entries h))

backup_from-IsSorted :
    (codec : Codec) (skip : Bool) (entries o : Cpio)
    → IsSorted entries
    → IsSorted (backup_from codec skip entries o)
unfolding backup_from
backup_from-IsSorted codec skip entries o h =
    extend-IsSorted (rm entries backup_dir true) _ (rm-IsSorted entries backup_dir true h)

bind-Keeps {ℓ} :
    {A : Type ℓ} (m : Outcome A) (f : A → Cpio)
    → ((a : A) → IsSorted (f a))
    → Keeps (m >>= λ a. ok (go (f a)))
bind-Keeps (ok a) f h = h a
bind-Keeps fail f h = tt
bind-Keeps panic f h = tt
bind-Keeps out_of_fuel f h = tt

bind_bind-Keeps {ℓ} :
    {A : Type ℓ} (m : Outcome A) (f : A → Cpio)
    → ((a : A) → IsSorted (f a))
    → Keeps ((m >>= λ a. ok (f a)) >>= λ c. ok (go c))
bind_bind-Keeps (ok a) f h = h a
bind_bind-Keeps fail f h = tt
bind_bind-Keeps panic f h = tt
bind_bind-Keeps out_of_fuel f h = tt

module _ (system : System) where
  add-Keeps :
      (cpio : Cpio) (mode : ℕ) (path : Bytes) (file : Option InFile)
      → IsSorted cpio
      → Keeps (add cpio mode path file >>= λ c. ok (go c))
  unfolding add
  add-Keeps cpio mode path file s = after_test (ends_with path (codes "/")) file
    where
      after_test :
          (refused : Bool) (file : Option InFile)
          → Keeps (
              (if refused then fail else do
                attr ← ok_or_fail file
                entry ← add_entry mode attr
                ok (insert (norm_path path) entry cpio))
              >>= λ c. ok (go c))
      after_test true file = tt
      after_test false none = tt
      after_test false (some attr) =
          bind_bind-Keeps (add_entry mode attr) (λ e. insert (norm_path path) e cpio)
            (λ e. insert-IsSorted (norm_path path) e cpio s)

  run_action-Keeps :
      (cpio : Cpio) (action : CpioAction) → IsSorted cpio → Keeps (run_action system cpio action)
  unfolding run_action backup mv mkdir ln patch
  run_action-Keeps cpio run_test s = tt
  run_action-Keeps cpio run_restore s = restore-IsSorted system.codec cpio s
  run_action-Keeps cpio run_patch s = retain-IsSorted _ cpio s
  run_action-Keeps cpio (run_exists path) s = if_Keeps (exists cpio path)
    where
      if_Keeps : (c : Bool) → Keeps (if c then ok (stop returned) else fail)
      if_Keeps true = tt
      if_Keeps false = tt
  run_action-Keeps cpio (run_backup origin skip_compress) s =
      bind_bind-Keeps (load_from_file system origin) (backup_from system.codec skip_compress cpio)
        (λ o. backup_from-IsSorted system.codec skip_compress cpio o s)
  run_action-Keeps cpio (run_remove path recursive) s = rm-IsSorted cpio path recursive s
  run_action-Keeps cpio (run_move from to) s =
      bind_bind-Keeps (ok_or_fail (get (norm_path from) cpio))
        (λ e. insert (norm_path to) e (remove (norm_path from) cpio))
        (λ e.
          insert-IsSorted (norm_path to) e (remove (norm_path from) cpio)
            (remove-IsSorted (norm_path from) cpio s))
  run_action-Keeps cpio (run_make_dir mode dir) s = insert-IsSorted (norm_path dir) _ cpio s
  run_action-Keeps cpio (run_link src dst) s = insert-IsSorted (norm_path dst) _ cpio s
  run_action-Keeps cpio (run_add mode path file) s =
      add-Keeps cpio mode path (system.read_file file) s
  run_action-Keeps cpio (run_extract paths) s =
      bind-Keeps (extract system cpio paths) (λ u. cpio) (λ u. s)
  run_action-Keeps cpio (run_list path recursive) s = tt

  run_command-Keeps :
      (cpio : Cpio) (cmd : Bytes) → IsSorted cpio → Keeps (run_command system cpio cmd)
  unfolding run_command
  run_command-Keeps cpio cmd s =
      understood (starts_with cmd (codes "#")) (system.from_args (non_empty (split b' ' cmd)))
    where
      understood :
          (comment : Bool) (parsed : ℕ ⊎ CpioAction)
          → Keeps (
              if comment then ok (go cpio) else elim parsed [
                | inl code ↦ ok (stop (exited code))
                | inr action ↦ run_action system cpio action
              ])
      understood true parsed = s
      understood false (inl code) = tt
      understood false (inr action) = run_action-Keeps cpio action s

  -- The commands are run one after the other, and every one of them goes on.
  pub data Runs : Cpio → List Bytes → Cpio → Type 0 where
    at_end : {cpio : Cpio} → Runs cpio [] cpio
    after :
        {cpio cpio' last : Cpio} {cmd : Bytes} {cmds : List Bytes}
        → run_command system cpio cmd ≡ ok (go cpio')
        → Runs cpio' cmds last
        → Runs cpio (cmd ∷ cmds) last

  Runs-IsSorted :
      (cpio last : Cpio) (cmds : List Bytes) → Runs cpio cmds last → IsSorted cpio → IsSorted last
  Runs-IsSorted cpio _ _ at_end s = s
  Runs-IsSorted cpio last _ (after {cpio' = c} {cmd} {cmds} e r) s =
      Runs-IsSorted c last cmds r (subst Keeps e (run_command-Keeps cpio cmd s))

  dumps :
      (cpio : Cpio) (cmds : List Bytes) (bytes : Bytes)
      → run_commands system cpio cmds ≡ ok (dumped bytes)
      → (last : Cpio) × Runs cpio cmds last × (bytes ≡ dump last)
  unfolding run_commands
  dumps cpio [] bytes h = (cpio, at_end, sym (dumped_bytes h))
    where
      written : Outcome Finish → Bytes
      written (ok (dumped b)) = b
      written _ = bytes

      dumped_bytes : {b : Bytes} → ok (dumped b) ≡ ok (dumped bytes) → b ≡ bytes
      dumped_bytes e = ap written e
  dumps cpio (cmd ∷ cmds) bytes h =
      after_step (run_command system cpio cmd) refl h (λ c e. dumps c cmds bytes e)
    where
      after_step :
          (r : Outcome Step)
          → run_command system cpio cmd ≡ r
          → elim r [
            | ok (go cpio') ↦ run_commands system cpio' cmds
            | ok (stop s) ↦ ok (stopped s)
            | fail ↦ fail
            | panic ↦ panic
            | out_of_fuel ↦ out_of_fuel
          ]
            ≡ ok (dumped bytes)
          → ((c : Cpio)
              → run_commands system c cmds ≡ ok (dumped bytes)
              → (last : Cpio) × Runs c cmds last × (bytes ≡ dump last))
          → (last : Cpio) × Runs cpio (cmd ∷ cmds) last × (bytes ≡ dump last)
      after_step (ok (go c)) e h k = let (last, r, q) = k c h in (last, after e r, q)
      after_step (ok (stop s)) e h k = cc
      after_step fail e h k = cc
      after_step panic e h k = cc
      after_step out_of_fuel e h k = cc

  run_commands-Runs :
      (cpio last : Cpio) (cmds : List Bytes)
      → Runs cpio cmds last
      → run_commands system cpio cmds ≡ ok (dumped (dump last))
  unfolding run_commands
  run_commands-Runs cpio _ _ at_end = refl
  run_commands-Runs cpio last _ (after {cpio' = c} {cmd} {cmds} e r) =
      rw (run_commands, e) (run_commands-Runs c last cmds r)

  -- The command is a comment, or its arguments are understood and it is not `test`, `exists` or `ls`.
  abbrev pub Continues : Bytes → Type 0
  Continues cmd =
      (starts_with cmd (codes "#") ≡ true)
      ⊎ ((action : CpioAction) × (system.from_args (non_empty (split b' ' cmd)) ≡ inr action)
          × GoesOn action)

  run_action-GoesOn :
      (cpio c : Cpio) (action : CpioAction)
      → run_action system cpio action ≡ ok (go c)
      → GoesOn action
  unfolding run_action
  run_action-GoesOn cpio c run_test e = cc
  run_action-GoesOn cpio c run_restore e = tt
  run_action-GoesOn cpio c run_patch e = tt
  run_action-GoesOn cpio c (run_exists path) e = ended (exists cpio path) e
    where
      ended : (b : Bool) → (if b then ok (stop returned) else fail) ≡ ok (go c) → ⊥
      ended true e = cc
      ended false e = cc
  run_action-GoesOn cpio c (run_backup origin skip_compress) e = tt
  run_action-GoesOn cpio c (run_remove path recursive) e = tt
  run_action-GoesOn cpio c (run_move from to) e = tt
  run_action-GoesOn cpio c (run_make_dir mode dir) e = tt
  run_action-GoesOn cpio c (run_link src dst) e = tt
  run_action-GoesOn cpio c (run_add mode path file) e = tt
  run_action-GoesOn cpio c (run_extract paths) e = tt
  run_action-GoesOn cpio c (run_list path recursive) e = cc

  run_command-Continues :
      (cpio c : Cpio) (cmd : Bytes) → run_command system cpio cmd ≡ ok (go c) → Continues cmd
  unfolding run_command
  run_command-Continues cpio c cmd e =
      understood (starts_with cmd (codes "#")) (system.from_args (non_empty (split b' ' cmd))) e
    where
      understood :
          (comment : Bool) (parsed : ℕ ⊎ CpioAction)
          → (if comment then ok (go cpio) else elim parsed as (λ x. Outcome Step) [
            | inl code ↦ ok (stop (exited code))
            | inr action ↦ run_action system cpio action
          ])
            ≡ ok (go c)
          → (comment ≡ true) ⊎ ((action : CpioAction) × (parsed ≡ inr action) × GoesOn action)
      understood true parsed e = inl refl
      understood false (inl code) e = cc
      understood false (inr action) e = inr (action, refl, run_action-GoesOn cpio c action e)

  Runs-Continues : (cpio last : Cpio) (cmds : List Bytes) → Runs cpio cmds last → All Continues cmds
  Runs-Continues cpio _ _ at_end = tt
  Runs-Continues cpio last _ (after {cpio' = c} {cmd} {cmds} e r) =
      (run_command-Continues cpio c cmd e, Runs-Continues c last cmds r)

  -- The archive that the commands start from: the file's, or an empty one where there is no file.
  abbrev pub start : Bool → Bytes → Outcome Cpio
  start file_exists file = if file_exists then load_from_file system file else ok []

  load_from_file-IsSorted :
      (file : Bytes) (cpio : Cpio) → load_from_file system file ≡ ok cpio → IsSorted cpio
  unfolding load_from_file
  load_from_file-IsSorted file cpio h =
      let (bytes, e, l) = >>=-eq-ok (ok_or_fail (system.read_archive file)) _ h in
      subst Loaded l (load_from_data-Loaded bytes)

  start-IsSorted :
      (file_exists : Bool) (file : Bytes) (cpio : Cpio)
      → start file_exists file ≡ ok cpio
      → IsSorted cpio
  start-IsSorted true file cpio h = load_from_file-IsSorted file cpio h
  start-IsSorted false file cpio h = subst Loaded h tt

  -- If `cpio_commands` writes an archive, then the archive it started from was loaded, every
  -- command ran on what the one before left and went on, and the archive written is the one the
  -- last of them left, sorted. Each of the commands is a comment, or its arguments were understood
  -- and it is not `test`, `exists` or `ls`.
  pub cpio_commands-dumped :
      (file_exists : Bool) (file bytes : Bytes) (cmds : List Bytes)
      → cpio_commands system file_exists file cmds ≡ ok (dumped bytes)
      → (first last : Cpio) × (start file_exists file ≡ ok first)
        × Runs first cmds last
        × All Continues cmds
        × IsSorted last
        × (bytes ≡ dump last)
  unfolding cpio_commands
  cpio_commands-dumped file_exists file bytes cmds h =
      let (first, e, r) = >>=-eq-ok (start file_exists file) _ h in
      let (last, runs, q) = dumps first cmds bytes r in
      (
        first,
        last,
        e,
        runs,
        Runs-Continues first last cmds runs,
        Runs-IsSorted first last cmds runs (start-IsSorted file_exists file first e),
        q,
      )

  -- If the archive is loaded and every command goes on, `cpio_commands` writes what the last of
  -- them leaves.
  pub cpio_commands-Runs :
      (file_exists : Bool) (file : Bytes) (cmds : List Bytes) (first last : Cpio)
      → start file_exists file ≡ ok first
      → Runs first cmds last
      → cpio_commands system file_exists file cmds ≡ ok (dumped (dump last))
  unfolding cpio_commands
  cpio_commands-Runs file_exists file cmds first last e r =
      rw e (run_commands-Runs first last cmds r)
