-- ===== src/Svnedit.antt =====
-- The editor of src/svnedit.c, which changes the working directory as the server's commands say.
pub mod System
pub mod Checksum
pub mod Entries
pub mod Links
pub mod Files
pub mod Close
pub mod Complete
pub mod Shadow
pub mod FileStore
pub mod Contents
pub mod Verified
pub mod Paths
pub mod PathsKept
pub mod Saved
pub mod Described
pub mod Stages
pub mod Rewrites
pub mod OneFile
pub mod Runs
