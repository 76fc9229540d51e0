-- ===== src/Proto/Editor/Runs.antt =====
-- Edits at concrete inputs, from a server whose text stands in a buffer that
-- `read_one_value` reads.
use mrksvnup.Base.{
  ℕ, ◌≡◌, ◌⊎◌, refl, Bool, true, false, List, [], ◌∷◌, Bytes, codes, equal, some, none, pos, arith,
}
use mrksvnup.Svndiff.Doc.{svndiff_doc_init}
use mrksvnup.Svnedit.System.{Edit}
use mrksvnup.Svnedit.Entries.{svnedit_open_root, svnedit_add_dir}
use mrksvnup.Svnedit.Files.{svnedit_add_file, svndiff_doc_fini}
use mrksvnup.Svnedit.Close.{other_token}
use mrksvnup.Svnedit.Complete.{svnedit_close_file}
use mrksvnup.Svnedit.Shadow.{shadow_made, svnedit_init_shadow_ctx, svnedit_close_shadow_ctx}
use mrksvnup.Svnedit.OneFile.{World, one_file}
use mrksvnup.Svnedit.Runs.{settings}
use mrksvnup.Proto.Unpack.{other}
use mrksvnup.Proto.Unpack.Tokens.{close_list}
use mrksvnup.Proto.Tokenizer.{is_word}
use mrksvnup.Proto.Reader.Texts.{
  all_fit, AheadBuffer, AtBuffer, buffer_reader-IsReader, from_tokens-Ahead,
}
use mrksvnup.Proto.Requests.Runs.{endless-IsOutput}
use mrksvnup.Proto.Client.{Ctx, lost, returned}
use mrksvnup.Proto.Client.Endings.{Ended}
use mrksvnup.Proto.Client.Offers.{word_row, challenges}
use mrksvnup.Proto.Client.Runs.{server, client, mechanisms, login}
use mrksvnup.Proto.Editor.{Host, Editing}
use mrksvnup.Proto.Editor.Dispatch.{svnproto_editor}
use mrksvnup.Proto.Editor.Edits.{
  EditCommand, to_target_rev, to_open_root, to_add_dir, to_change_dir_prop, to_close_dir,
  to_add_file, to_close_file, parameters, edit_rows, close_edit_row, command_row,
}
use mrksvnup.Proto.Editor.Meaning.{Effect, Edits, no_edits, edit_then}
use mrksvnup.Proto.Editor.Conversation.{svnproto_editor-Edits, svnproto_editor-fails}
use mrksvnup.Proto.Editor.BrokenOff.{svnproto_editor-broken_off}

abbrev host : Host
host = record {
  peer = server;
  behind = λ r. [];
  uncompress = λ b n. none;
  system = one_file;
  settings = settings;
}

-- The working directory, as the calls on it are logged.
abbrev directory : List Bytes → World
directory made = record { data_bytes = []; at_pos = 0; cached = made }

abbrev edit_of : Bool → List Bytes → Edit World
edit_of shadow made = record {
  doc = svndiff_doc_init;
  target_rev = pos 7;
  has_shadow = shadow;
  world = directory made;
}

abbrev before : Editing World
before = record { edit = edit_of false []; cmd = none; is_closing = false }

-- A directory `d` with a property, at revision 7.
abbrev commands : List EditCommand
commands =
    to_target_rev 7
    ∷ to_open_root none (codes "t0")
    ∷ to_add_dir (codes "d") (codes "t0") (codes "t1") (some (codes "old", 3))
    ∷ to_change_dir_prop (codes "t1") (codes "svn:ignore") (some (codes "*.o"))
    ∷ to_close_dir (codes "t1")
    ∷ []

abbrev made : List Bytes
made = codes "d" ∷ codes "/w" ∷ []

commands-Edits : Edits host commands (edit_of true []) (edit_of true made)
unfolding Effect svnedit_open_root svnedit_add_dir
commands-Edits =
    edit_then (refl, refl)
      (edit_then {x' = edit_of true (codes "/w" ∷ [])} refl (
        edit_then {x' = edit_of true made} refl
          (edit_then (refl, refl) (edit_then (refl, refl) no_edits))))

svnproto_editor-Edits_example :
    Ended server
      (svnproto_editor host (client (login (edit_rows commands (close_edit_row [])))) before)
      (λ c' a'. (a'.edit ≡ edit_of false made) × (a'.is_closing ≡ true) × AheadBuffer c'.inp [])
unfolding word_row challenges equal edit_rows parameters svnedit_init_shadow_ctx shadow_made
    svnedit_close_shadow_ctx all_fit is_word
svnproto_editor-Edits_example =
    svnproto_editor-Edits host (λ out. out) endless-IsOutput AheadBuffer AtBuffer
      buffer_reader-IsReader mechanisms (codes "svn") commands []
      (client (login (edit_rows commands (close_edit_row [])))) before (edit_of true [])
      (edit_of true made) refl refl commands-Edits
      (from_tokens-Ahead (login (edit_rows commands (close_edit_row []))) refl) (omega arith)

svnproto_editor-broken_off_example :
    Ended server
      (svnproto_editor host (client (login (edit_rows commands (close_list ∷ [])))) before)
      (λ c' a'.
        (a'.edit ≡ edit_of false made)
        × (a'.is_closing ≡ false)
        × AheadBuffer c'.inp (close_list ∷ []))
unfolding word_row challenges equal edit_rows parameters svnedit_init_shadow_ctx shadow_made
    svnedit_close_shadow_ctx all_fit is_word
svnproto_editor-broken_off_example =
    svnproto_editor-broken_off host (λ out. out) endless-IsOutput AheadBuffer AtBuffer
      buffer_reader-IsReader mechanisms (codes "svn") commands close_list []
      (client (login (edit_rows commands (close_list ∷ [])))) before (edit_of true [])
      (edit_of true made) refl refl refl refl commands-Edits
      (from_tokens-Ahead (login (edit_rows commands (close_list ∷ []))) refl) (omega arith)

-- A file that is closed by another token.
abbrev new_file : EditCommand
new_file = to_add_file (codes "a") (codes "t0") (codes "f1") none

abbrev wrong_close : EditCommand
wrong_close = to_close_file (codes "f2") none

abbrev with_file : Edit World
with_file = record (edit_of true []) {
  doc = record svndiff_doc_init {
    rp = some (codes "a");
    ft = some (codes "f1");
    lp = some (codes "a");
  };
}

new_file-Edits : Edits host (new_file ∷ []) (edit_of true []) with_file
unfolding Effect svnedit_add_file
new_file-Edits = edit_then {x' = with_file} refl no_edits

svnproto_editor-fails_example :
    ((j : ℕ) × (svnproto_editor host
          (client (login (edit_rows (new_file ∷ []) (command_row wrong_close []))))
          before
        ≡ lost (other j)))
    ⊎ ((c' : Ctx server) × (a' : Editing World) × (svnproto_editor host
            (client (login (edit_rows (new_file ∷ []) (command_row wrong_close []))))
            before
          ≡ returned (other 17) c' a')
        × (a'.edit ≡ edit_of false [])
        × AheadBuffer c'.inp (close_list ∷ []))
unfolding word_row challenges equal edit_rows parameters svnedit_init_shadow_ctx shadow_made
    svnedit_close_shadow_ctx Effect svnedit_close_file other_token svndiff_doc_fini all_fit is_word
svnproto_editor-fails_example =
    svnproto_editor-fails host (λ out. out) endless-IsOutput AheadBuffer AtBuffer
      buffer_reader-IsReader mechanisms (codes "svn") (new_file ∷ []) wrong_close [] 0
      (client (login (edit_rows (new_file ∷ []) (command_row wrong_close [])))) before
      (edit_of true []) with_file (edit_of true []) refl refl new_file-Edits refl
      (from_tokens-Ahead (login (edit_rows (new_file ∷ []) (command_row wrong_close []))) refl)
      (omega arith)
