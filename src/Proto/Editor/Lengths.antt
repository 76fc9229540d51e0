-- ===== src/Proto/Editor/Lengths.antt =====
-- The lengths of rows of commands.
use mrksvnup.Base.{◌+◌, ◌≤◌, List, [], ◌∷◌, none, some, length, arith}
use mrksvnup.Proto.Unpack.Tokens.{Token, close_list}
use mrksvnup.Proto.Editor.Edits.{
  EditCommand, to_target_rev, to_open_root, to_delete_entry, to_add_dir, to_open_dir,
  to_change_dir_prop, to_close_dir, to_absent_dir, to_add_file, to_open_file, to_apply_textdelta,
  to_textdelta_chunk, to_textdelta_end, to_change_file_prop, to_close_file, to_absent_file,
  to_abort_edit, to_finish_replay, parameters, edit_rows,
}

-- Parameters do not shorten a row.
pub parameters-length : (c : EditCommand) (ts : List Token) → length ts ≤ length (parameters c ts)
unfolding parameters
parameters-length (to_target_rev n) ts = omega arith
parameters-length (to_open_root none token) ts = omega arith
parameters-length (to_open_root (some v) token) ts = omega arith
parameters-length (to_delete_entry path none token) ts = omega arith
parameters-length (to_delete_entry path (some v) token) ts = omega arith
parameters-length (to_add_dir path parent child none) ts = omega arith
parameters-length (to_add_dir path parent child (some (v, n))) ts = omega arith
parameters-length (to_open_dir p q c n) ts = omega arith
parameters-length (to_change_dir_prop token name none) ts = omega arith
parameters-length (to_change_dir_prop token name (some v)) ts = omega arith
parameters-length (to_close_dir t) ts = omega arith
parameters-length (to_absent_dir p q) ts = omega arith
parameters-length (to_add_file path dir token none) ts = omega arith
parameters-length (to_add_file path dir token (some (v, n))) ts = omega arith
parameters-length (to_open_file p q c n) ts = omega arith
parameters-length (to_apply_textdelta token none) ts = omega arith
parameters-length (to_apply_textdelta token (some v)) ts = omega arith
parameters-length (to_textdelta_chunk t c) ts = omega arith
parameters-length (to_textdelta_end t) ts = omega arith
parameters-length (to_change_file_prop token name none) ts = omega arith
parameters-length (to_change_file_prop token name (some v)) ts = omega arith
parameters-length (to_close_file token none) ts = omega arith
parameters-length (to_close_file token (some v)) ts = omega arith
parameters-length (to_absent_file p q) ts = omega arith
parameters-length to_abort_edit ts = omega arith
parameters-length to_finish_replay ts = omega arith

pub length-edit_rows :
    (cs : List EditCommand) (ts : List Token) → length cs + length ts ≤ length (edit_rows cs ts)
unfolding edit_rows
length-edit_rows [] ts = omega arith
length-edit_rows (c ∷ cs) ts =
    let ih = length-edit_rows cs ts in
    let grown = parameters-length c (close_list ∷ edit_rows cs ts) in omega arith
