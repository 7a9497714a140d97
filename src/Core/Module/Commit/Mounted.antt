-- ===== src/Core/Module/Commit/Mounted.antt =====
-- Every file of the modules is mounted by `commit` of native/src/core/module.rs.
