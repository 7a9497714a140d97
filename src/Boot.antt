-- ===== src/Boot.antt =====
-- magiskboot (native/src/boot): the parts that rewrite boot images.
pub mod Patch
pub mod Cpio
