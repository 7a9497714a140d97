-- ===== src/Core/Module/Examples.antt =====
-- Runs of the definitions for native/src/core/module.rs.
use magisk.Base.Order.{compare_bytes}
use magisk.Prelude.{
  ◌≡◌, refl, if◌then◌else◌, Bool, true, false, Option, none, some, List, [], ◌∷◌, ◌++◌, Bytes, All,
}
use magisk.Base.Text.{codes, equal, starts_with, ends_with}
use magisk.Base.Map.{same, get}
use magisk.Core.Module.Tree.{
  FsNodeMap, child, put, take_out, or_insert, append_path, visible, directory, file, whiteout,
  empty, node,
}
use magisk.Core.Module.Collect.{
  ModuleEntries, collect_file, collect, dir, link, char_device, other, end, entry,
}
use magisk.Core.Module.Collect.Added.{brought_at, IsOpenUnder, IsOpen}
use magisk.Core.Module.Worker.{
  Real, real_at, Op, mount_dummy, worker_dir, worker_link, mirror, commit_tmpfs, real_directory,
  real_link, real_other, nothing, real_entry,
}
use magisk.Core.Module.Worker.Names.{Any, Makes, Avoids, is_listed}
use magisk.Core.Module.Worker.Shown.{is_kept, commit_tmpfs-made}
use magisk.Core.Module.Worker.LeftOut.{commit_tmpfs-left_out}
use magisk.Core.Module.Commit.{commit}
use magisk.Core.Module.Commit.Within.{IsBelow, IsHandled, written, commit_root-IsSafe}
use magisk.Core.Module.Inject.{inject_magisk_bins}
use magisk.Core.Module.Inject.Laws.{HasBinsAt, inject_magisk_bins-HasBins}
use magisk.Core.Module.Apply.{Module, load_modules, roots_of, Device, commit_partitions}
use magisk.Core.Module.Apply.Laws.{load_modules-first}
use magisk.Core.Module.Apply.Roots.{
  has_root, roots_of-whole, OnPartition, commit_partitions-OnPartition,
}

-- A module with a new program, one that is taken away, and a file that is replaced.
abbrev program : Bytes
program = codes "/m/a/system/bin/foo"

abbrev bin_entries : ModuleEntries
bin_entries = entry (codes "foo") other (entry (codes "sh") (char_device (some true)) end)

abbrev system_entries : ModuleEntries
system_entries =
    entry (codes "bin") (dir bin_entries)
      (entry (codes "etc") (dir (entry (codes "hosts") other end)) end)

abbrev first_module : Module
first_module = record {
  name = codes "a";
  system_prop = false;
  skip_mount = false;
  system = some system_entries;
}

-- It has the same program, but comes later.
abbrev second_module : Module
second_module = record {
  name = codes "b";
  system_prop = true;
  skip_mount = false;
  system = some (entry (codes "bin") (dir (entry (codes "foo") (link (some (codes "x"))) end)) end);
}

abbrev bin_nodes : FsNodeMap
bin_nodes = node (codes "foo") (file program) (node (codes "sh") whiteout empty)

abbrev nodes : FsNodeMap
nodes = node (codes "bin") (directory bin_nodes) empty

abbrev bin_on_device : Real
bin_on_device = real_directory (
    real_entry (codes "ls") (real_link (codes "toybox") nothing)
      (real_entry (codes "sh") real_other nothing))

abbrev system_on_device : Real
system_on_device = real_directory (real_entry (codes "bin") bin_on_device nothing)

abbrev yes : Op → Bool
yes op = true

abbrev nowhere : Bytes → Option Bytes
nowhere path = none

abbrev device : Device
device = record {
  path_exists = λ path. false;
  clone_attr = λ path. true;
  mode = λ path. none;
  count_files = λ path. none;
  succeeds = yes;
  parent_dir = nowhere;
  is_dir = λ name. equal name (codes "vendor");
  root_dir = real_entry (codes "system") system_on_device nothing;
  magisk_tmp = codes "/debug_ramdisk";
  module_mnt = codes "/m";
  path_env = codes "/product/bin:/system/bin";
  is_emulator = false;
  is_64 = true;
  zygisk = none;
}

load_modules_run :
    load_modules (λ p. false) (λ p. true) (codes "/m") (first_module ∷ second_module ∷ []) empty
    ≡ node (codes "bin") (directory bin_nodes) (
        node
          (codes "etc")
          (directory (node (codes "hosts") (file (codes "/m/a/system/etc/hosts")) empty))
          empty)
unfolding load_modules collect collect_file or_insert put child compare_bytes append_path
    starts_with ends_with equal
load_modules_run = refl

load_modules-first_example :
    visible (codes "bin" ∷ codes "foo" ∷ []) (
      load_modules
        (λ p. false)
        (λ p. true)
        (codes "/m")
        ([] ++ (first_module ∷ second_module ∷ []))
        empty)
    ≡ some (file program)
unfolding load_modules IsOpen IsOpenUnder child collect collect_file or_insert put compare_bytes
    append_path starts_with ends_with equal brought_at
load_modules-first_example =
    load_modules-first (λ p. false) (λ p. true) (codes "/m") [] (second_module ∷ []) first_module
      system_entries (codes "bin" ∷ codes "foo" ∷ []) (file program) empty refl refl tt refl refl

commit_tmpfs-made_example :
    Any
      (Makes (codes "ls" ∷ codes "bin" ∷ []))
      (commit_tmpfs yes nowhere (codes "bin" ∷ []) (directory bin_nodes) (some bin_on_device)).0
unfolding commit_tmpfs mirror mount_dummy worker_dir worker_link real_at child take_out
    compare_bytes is_kept is_listed
commit_tmpfs-made_example =
    commit_tmpfs-made yes nowhere (codes "bin" ∷ []) bin_nodes (some bin_on_device) (codes "ls")
      refl refl

commit_tmpfs-left_out_example :
    All
      (Avoids (codes "sh" ∷ codes "bin" ∷ []))
      (commit_tmpfs yes nowhere (codes "bin" ∷ []) (directory bin_nodes) (some bin_on_device)).0
unfolding child take_out compare_bytes is_kept is_listed
commit_tmpfs-left_out_example =
    commit_tmpfs-left_out yes nowhere (codes "bin" ∷ []) bin_nodes (some bin_on_device) (codes "sh")
      ((refl, tt), (tt, (tt, (tt, tt)))) refl

commit_root-IsSafe_example :
    All
      (λ op. All (IsBelow (codes "system")) (written op) × IsHandled op)
      (commit yes nowhere (codes "system" ∷ []) (directory nodes) (some system_on_device) true).0
commit_root-IsSafe_example =
    commit_root-IsSafe yes nowhere (codes "system") nodes (some system_on_device)

inject_magisk_bins-HasBins_example :
    (p : List Bytes) × HasBinsAt (codes "/t") p (
      inject_magisk_bins
        (λ p. false)
        (λ p. none)
        (λ p. none)
        (codes "/t")
        (codes "/system/bin")
        false
        nodes)
unfolding child compare_bytes
inject_magisk_bins-HasBins_example =
    inject_magisk_bins-HasBins (λ p. false) (λ p. none) (λ p. none) (codes "/t")
      (codes "/system/bin") false nodes (λ e. cc)

commit_partitions-OnPartition_example :
    All OnPartition (commit_partitions device (first_module ∷ second_module ∷ []))
commit_partitions-OnPartition_example =
    commit_partitions-OnPartition device (first_module ∷ second_module ∷ [])

roots_of-whole_example :
    (rest : FsNodeMap) × (get (codes "system") (roots_of device.is_dir nodes)
      ≡ some (directory rest))
    × ((k : Bytes) → child k rest ≡ (if has_root device.is_dir k then none else child k nodes))
    × ((k : Bytes)
        → same k (codes "system") ≡ false
        → get k (roots_of device.is_dir nodes)
          ≡ (if has_root device.is_dir k then child k nodes else none))
roots_of-whole_example = roots_of-whole device.is_dir nodes
