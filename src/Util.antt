-- ===== src/Util.antt =====
-- The utilities of src/svnc_util.c: the kinds of nodes, URLs, and bytes in hexadecimal.
pub mod Kinds
pub mod Url
pub mod Hex
pub mod Runs
