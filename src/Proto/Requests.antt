-- ===== src/Proto/Requests.antt =====
-- The requests of ra_svn: the callbacks with which src/svnproto_*.c and src/svnproto.c pack the
-- requests, in two files, and what they append to the output stream as a row of tokens.
pub mod Commands
pub mod Reads
pub mod Rows
pub mod Grammar
pub mod Packed
pub mod Runs
use mrksvnup.Base.{ℕ, ◌+◌, ◌/◌, ◌%◌, ◌==◌, Bool, true, false, Bytes, codes}

-- `svn_depth_t`
pub data Depth : Type 0 where
  none unknown exclude empty files immediates infinity : Depth

-- `SVN_DEPTH_STR`
abbrev pub svn_depth_str : Depth → Bytes
svn_depth_str Depth.unknown = codes "unknown"
svn_depth_str Depth.exclude = codes "exclude"
svn_depth_str Depth.empty = codes "empty"
svn_depth_str Depth.files = codes "files"
svn_depth_str Depth.immediates = codes "immediates"
svn_depth_str Depth.infinity = codes "infinity"
svn_depth_str Depth.none = codes "unknown"

-- A flag of one bit, `b`, in a mask.
unfoldable pub has_flag : ℕ → ℕ → Bool
has_flag flags b = flags / b % 2 == 1

abbrev pub bool_str : Bool → Bytes
bool_str false = codes "false"
bool_str true = codes "true"
