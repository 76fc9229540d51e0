-- ===== src/Proto/Editor/Edits.antt =====
-- The commands of an edit as data, and their tokens.
use mrksvnup.Base.{ℕ, List, [], ◌∷◌, Bytes, codes, Option, none, some}
use mrksvnup.Proto.Unpack.Tokens.{Token, number, word, string, open_list, close_list}

-- The commands behind which the edit goes on. What may be absent is an option; a copy is a path and a
-- revision.
pub data EditCommand : Type 0 where
  to_target_rev : ℕ → EditCommand
  to_open_root : Option ℕ → Bytes → EditCommand
  to_delete_entry : Bytes → Option ℕ → Bytes → EditCommand
  to_add_dir : Bytes → Bytes → Bytes → Option (Bytes × ℕ) → EditCommand
  to_open_dir : Bytes → Bytes → Bytes → ℕ → EditCommand
  to_change_dir_prop : Bytes → Bytes → Option Bytes → EditCommand
  to_close_dir : Bytes → EditCommand
  to_absent_dir : Bytes → Bytes → EditCommand
  to_add_file : Bytes → Bytes → Bytes → Option (Bytes × ℕ) → EditCommand
  to_open_file : Bytes → Bytes → Bytes → ℕ → EditCommand
  to_apply_textdelta : Bytes → Option Bytes → EditCommand
  to_textdelta_chunk : Bytes → Bytes → EditCommand
  to_textdelta_end : Bytes → EditCommand
  to_change_file_prop : Bytes → Bytes → Option Bytes → EditCommand
  to_close_file : Bytes → Option Bytes → EditCommand
  to_absent_file : Bytes → Bytes → EditCommand
  to_abort_edit to_finish_replay : EditCommand

abbrev pub name_of : EditCommand → Bytes
name_of (to_target_rev n) = codes "target-rev"
name_of (to_open_root rev token) = codes "open-root"
name_of (to_delete_entry path rev token) = codes "delete-entry"
name_of (to_add_dir path parent child copy) = codes "add-dir"
name_of (to_open_dir path parent child rev) = codes "open-dir"
name_of (to_change_dir_prop token name value) = codes "change-dir-prop"
name_of (to_close_dir token) = codes "close-dir"
name_of (to_absent_dir path parent) = codes "absent-dir"
name_of (to_add_file path dir token copy) = codes "add-file"
name_of (to_open_file path dir token rev) = codes "open-file"
name_of (to_apply_textdelta token base) = codes "apply-textdelta"
name_of (to_textdelta_chunk token chunk) = codes "textdelta-chunk"
name_of (to_textdelta_end token) = codes "textdelta-end"
name_of (to_change_file_prop token name value) = codes "change-file-prop"
name_of (to_close_file token checksum) = codes "close-file"
name_of (to_absent_file path parent) = codes "absent-file"
name_of to_abort_edit = codes "abort-edit"
name_of to_finish_replay = codes "finish-replay"

-- A number, a string and a copy that may be absent.
abbrev pub maybe_number : Option ℕ → List Token → List Token
maybe_number none ts = ts
maybe_number (some n) ts = number n ∷ ts

abbrev pub maybe_string : Option Bytes → List Token → List Token
maybe_string none ts = ts
maybe_string (some s) ts = string s ∷ ts

abbrev pub maybe_copy : Option (Bytes × ℕ) → List Token → List Token
maybe_copy none ts = ts
maybe_copy (some (path, rev)) ts = string path ∷ number rev ∷ ts

-- The parameters, in front of `ts`.
unfoldable pub parameters : EditCommand → List Token → List Token
parameters (to_target_rev n) ts = open_list ∷ number n ∷ close_list ∷ ts
parameters (to_open_root rev token) ts =
    open_list ∷ open_list ∷ maybe_number rev (close_list ∷ string token ∷ close_list ∷ ts)
parameters (to_delete_entry path rev token) ts =
    open_list
    ∷ string path
    ∷ open_list
    ∷ maybe_number rev (close_list ∷ string token ∷ close_list ∷ ts)
parameters (to_add_dir path parent child copy) ts =
    open_list
    ∷ string path
    ∷ string parent
    ∷ string child
    ∷ open_list
    ∷ maybe_copy copy (close_list ∷ close_list ∷ ts)
parameters (to_open_dir path parent child rev) ts =
    open_list
    ∷ string path
    ∷ string parent
    ∷ string child
    ∷ open_list
    ∷ number rev
    ∷ close_list
    ∷ close_list
    ∷ ts
parameters (to_change_dir_prop token name value) ts =
    open_list
    ∷ string token
    ∷ string name
    ∷ open_list
    ∷ maybe_string value (close_list ∷ close_list ∷ ts)
parameters (to_close_dir token) ts = open_list ∷ string token ∷ close_list ∷ ts
parameters (to_absent_dir path parent) ts =
    open_list ∷ string path ∷ string parent ∷ close_list ∷ ts
parameters (to_add_file path dir token copy) ts =
    open_list
    ∷ string path
    ∷ string dir
    ∷ string token
    ∷ open_list
    ∷ maybe_copy copy (close_list ∷ close_list ∷ ts)
parameters (to_open_file path dir token rev) ts =
    open_list
    ∷ string path
    ∷ string dir
    ∷ string token
    ∷ open_list
    ∷ number rev
    ∷ close_list
    ∷ close_list
    ∷ ts
parameters (to_apply_textdelta token base) ts =
    open_list ∷ string token ∷ open_list ∷ maybe_string base (close_list ∷ close_list ∷ ts)
parameters (to_textdelta_chunk token chunk) ts =
    open_list ∷ string token ∷ string chunk ∷ close_list ∷ ts
parameters (to_textdelta_end token) ts = open_list ∷ string token ∷ close_list ∷ ts
parameters (to_change_file_prop token name value) ts =
    open_list
    ∷ string token
    ∷ string name
    ∷ open_list
    ∷ maybe_string value (close_list ∷ close_list ∷ ts)
parameters (to_close_file token checksum) ts =
    open_list ∷ string token ∷ open_list ∷ maybe_string checksum (close_list ∷ close_list ∷ ts)
parameters (to_absent_file path parent) ts =
    open_list ∷ string path ∷ string parent ∷ close_list ∷ ts
parameters to_abort_edit ts = open_list ∷ close_list ∷ ts
parameters to_finish_replay ts = open_list ∷ close_list ∷ ts

-- A command, the commands of an edit, and its end.
abbrev pub command_row : EditCommand → List Token → List Token
command_row c ts = open_list ∷ word (name_of c) ∷ parameters c (close_list ∷ ts)

unfoldable pub edit_rows : List EditCommand → List Token → List Token
edit_rows [] ts = ts
edit_rows (c ∷ cs) ts = command_row c (edit_rows cs ts)

abbrev pub close_edit_row : List Token → List Token
close_edit_row ts = open_list ∷ word (codes "close-edit") ∷ open_list ∷ close_list ∷ close_list ∷ ts

-- The number by which the error of a command is told.
abbrev pub number_of : EditCommand → ℕ
number_of (to_target_rev n) = 3
number_of (to_open_root rev token) = 4
number_of (to_delete_entry path rev token) = 5
number_of (to_add_dir path parent child copy) = 6
number_of (to_open_dir path parent child rev) = 7
number_of (to_change_dir_prop token name value) = 8
number_of (to_close_dir token) = 9
number_of (to_absent_dir path parent) = 10
number_of (to_add_file path dir token copy) = 11
number_of (to_open_file path dir token rev) = 12
number_of (to_apply_textdelta token base) = 13
number_of (to_textdelta_chunk token chunk) = 14
number_of (to_textdelta_end token) = 15
number_of (to_change_file_prop token name value) = 16
number_of (to_close_file token checksum) = 17
number_of (to_absent_file path parent) = 18
number_of to_abort_edit = 20
number_of to_finish_replay = 21
