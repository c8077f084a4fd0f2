-- ===== src/Cmdline.antt =====
-- src/cmdline.c: Windows command lines from argument lists.
pub mod Buffer
pub mod Escape
pub mod Writes
pub mod Convention
pub mod Batch
pub mod Shell
mod Examples
