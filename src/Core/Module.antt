-- ===== src/Core/Module.antt =====
-- native/src/core/module.rs: the files of the modules become a tree, and the tree becomes mounts.
pub mod Tree
pub mod Collect
pub mod Worker
pub mod Commit
pub mod Inject
pub mod Apply
pub mod Listing
pub mod Examples
