-- ===== src/Proto.antt =====
-- The ra_svn protocol: src/svnproto_unpack.c and src/svnproto_pack.c.
pub mod Stream
pub mod Tokenizer
pub mod Reader
pub mod Unpack
pub mod Requests
pub mod Client
pub mod Editor
pub mod Pack
pub mod Runs
