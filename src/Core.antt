-- ===== src/Core.antt =====
-- native/src/core: the daemon.
pub mod Su
pub mod Module
pub mod Package
pub mod Resetprop
