-- ===== src/Lib.antt =====
-- Magisk: the parts of its native Rust code that decide what is written where.
--
-- The program. `magiskboot` (native/src/boot) rewrites boot images. Its `cpio` command keeps a ramdisk
-- as an ordered map of entries (boot/cpio.rs): it loads an archive, runs editing commands on it,
-- patches it with the pattern removal of boot/patch.rs, backs up what differs from the stock ramdisk and
-- restores it, and writes the archive back.
--
-- `magiskpolicy` (native/src/sepolicy) reads policy statements (sepolicy/statement.rs): a lexer makes
-- tokens of a line, and a parser the call of the policy database that the statement asks for.
--
-- The daemon (native/src/core) decides who gets root (core/su/daemon.rs, core/su/db.rs): it evaluates the
-- settings and the policy of a user, keeps the answer for three seconds, and removes the policies of
-- apps that are gone. It also mounts the files of the modules (core/module.rs): the folders `system` of
-- all modules become one tree, the programs of Magisk are added to it, the trees of the partitions are
-- split off, and each is compared with the device: a file is mounted over the real one, and a directory
-- in which names appear or vanish is built anew in the worker directory and moved over the real one.
--
-- The files.
--   Prelude, Base: lists, tests and options; byte strings (Base/Text), the order and the ordered map that
--     stand for `String` and `BTreeMap` (Base/Order, Base/Map), well-formed UTF-8 (Base/Utf8), and
--     what a fallible function does (Base/Outcome): it returns, returns an error, or panics.
--   Boot/Patch: native/src/boot/patch.rs. `remove_pattern` works on one buffer with two cursors; the
--     relation `Strips` says without cursors what is cut out.
--   Boot/Cpio: native/src/boot/cpio.rs. Paths (`norm_path`, `align_4`, `parse_mode`), Hex (`x8u`),
--     Archive (`load_from_data`, `dump`), Edit (`rm`, `mkdir`, `ln`, `mv`, `add`, `ls`, `exists`),
--     Backup (`backup`, `restore`), Ramdisk (`patch`, `test`) and Commands (`extract`,
--     `cpio_commands`).
--   Sepolicy: native/src/sepolicy/statement.rs. Statement (`exec_statement` and the parsers it calls;
--     a `Call` is a method of the policy database) and Lexer (`extract_token`, `tokenize_statement`,
--     `parse_statement`).
--   Core/Su: native/src/core/su and the settings of native/src/core/db.rs. `uid_granted_root`,
--     `build_su_info`, `get_su_info`, `su_daemon_handler`, and in Prune `prune_su_access`.
--   Core/Module: native/src/core/module.rs. Tree (`FsNode`), Collect (`FsNode::collect`), Worker
--     (`FsNode::commit_tmpfs`), Commit (`FsNode::commit`), Inject (`inject_magisk_bins`,
--     `inject_zygisk_bins`), Apply (the steps of `apply_modules`; the calls are those of the
--     last two, after the attributes that `collect` copies to files of the modules) and Listing (`collect_modules`). The device
--     is a tree (`Real`); what the code does to it is the list of its calls (`Op`) and whether it
--     came to its end.
--   Core/Package: `read_certificate` of native/src/core/package.rs on the bytes of an APK. Parts and
--     Found build an APK of its parts, Whole is about those, and Endless about one that is crafted.
--     Manager is `ManagerInfo` (the checks and, in Lookup, `get_manager`).
--   Core/Resetprop: the persistent properties of native/src/core/resetprop/persist.rs. Search is
--     about the binary search, Laws about what is found and put, Order and Rising about the order of
--     the list, RoundTrip about setting and Deleted about deleting.
--
-- Bounds and fuel. `usize` is a natural number: no sum of positions in a file overflows 64 bits. The
-- numbers of a header are 32 bits, with the wrap-around written out in `x8u`. `load_loop` has as fuel
-- one more than the bytes of the file, and every round reads a header of 110 bytes; `remove_loop` has
-- the length of the buffer, and every round moves the read cursor; `extract_token` has the length of
-- the word, and calls itself on shorter ones; the loop over the pairs of a signing block has any fuel,
-- since it need not end; the list of extended permissions has the number of tokens; the binary search
-- has the number of elements, of which every round leaves fewer.
--
-- Not modelled. The coding of the persistent properties is a parameter with a law; the file system,
-- the argument parser and the XZ coder are parameters too. The upgrade of the modules and the start
-- of their scripts; what `extract` of the cpio command writes and a later command of the same run reads;
-- printed messages; the policy database and `hexpatch`, which are or call C++
-- code; the SQLite database, the manager app and the shell that is started; the other crates of
-- native/src, and the app.
pub mod Prelude
pub mod Base
pub mod Boot
pub mod Core
pub mod Sepolicy
