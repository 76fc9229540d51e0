-- ===== src/Svndiff.antt =====
-- src/svndiff.c and src/mrksvnup/svndiff.h: svndiff documents and the target views they describe.
pub mod Number
pub mod Insn
pub mod Section
pub mod Doc
pub mod Parse
pub mod Tview
mod Runs
