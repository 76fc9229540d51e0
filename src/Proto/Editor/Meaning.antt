-- ===== src/Proto/Editor/Meaning.antt =====
-- The effect of the commands of an edit on the editor.
use mrksvnup.Base.{
  ℕ, zero, suc, ◌≡◌, true, List, [], ◌∷◌, ◌++◌, Bytes, Option, none, some, ℤ, pos, ok, length,
}
use mrksvnup.Svndiff.Doc.{Doc, svndiff_doc_init}
use mrksvnup.Svndiff.Parse.{svndiff_parse_doc}
use mrksvnup.Svnedit.System.{Edit}
use mrksvnup.Svnedit.Entries.{
  svnedit_open_root, svnedit_delete_entry, svnedit_add_dir, svnedit_open_dir,
}
use mrksvnup.Svnedit.Files.{svnedit_add_file, svnedit_open_file, svnedit_change_file_prop}
use mrksvnup.Svnedit.Complete.{svnedit_close_file}
use mrksvnup.Proto.Unpack.{Code, success, other}
use mrksvnup.Proto.Client.{Held}
use mrksvnup.Proto.Editor.{Host, Editing, W}
use mrksvnup.Proto.Editor.Edits.{
  EditCommand, to_target_rev, to_open_root, to_delete_entry, to_add_dir, to_open_dir, to_add_file,
  to_open_file, to_apply_textdelta, to_textdelta_chunk, to_change_file_prop, to_close_file,
}

-- A revision that is absent is 0.
abbrev pub revision_of : Option ℕ → ℤ
revision_of none = pos 0
revision_of (some n) = pos n

-- The document of a new file.
abbrev pub file_doc : Bytes → Bytes → Doc
file_doc path token = record svndiff_doc_init { rp = some path; ft = some token }

module _ (h : Host) where
  open h use {uncompress, system, settings}

  -- `Effect c x k x'`: from `x`, the editor does what the command `c` says, with the result `k`, 0 or
  -- an error, and `x'` behind it. A chunk is one that is parsed, alike whatever stands behind it.
  unfoldable pub Effect : EditCommand → Edit (W h) → ℕ → Edit (W h) → Type 0
  Effect (to_target_rev n) x k x' = (k ≡ 0) × (x' ≡ record x { target_rev = pos n })
  Effect (to_open_root rev token) x k x' =
      svnedit_open_root system settings (revision_of rev) (some token) x ≡ ok (k, x')
  Effect (to_delete_entry path rev token) x k x' =
      svnedit_delete_entry system settings (some path) (revision_of rev) (some token) x ≡ ok (k, x')
  Effect (to_add_dir path parent child copy) x k x' =
      svnedit_add_dir system settings (some path) x ≡ ok (k, x')
  Effect (to_open_dir path parent child rev) x k x' =
      svnedit_open_dir system settings (some path) x ≡ ok (k, x')
  Effect (to_add_file path dir token copy) x k x' =
      svnedit_add_file system settings (record x { doc = file_doc path token }) ≡ ok (k, x')
  Effect (to_open_file path dir token rev) x k x' =
      svnedit_open_file system settings
        (record x { doc = record (file_doc path token) { rev = pos rev } })
      ≡ ok (k, x')
  Effect (to_apply_textdelta token base) x k x' =
      (k ≡ 0) × (x' ≡ record x { doc = record x.doc { base_checksum = base } })
  Effect (to_textdelta_chunk token chunk) x k x' =
      (doc : Doc) × ((behind : Bytes)
        → svndiff_parse_doc uncompress (chunk ++ behind, length chunk) x.doc ≡ ok doc)
      × (k ≡ 0)
      × (x' ≡ record x { doc = doc })
  Effect (to_change_file_prop token name value) x k x' =
      svnedit_change_file_prop (some name) value x ≡ ok (k, x')
  Effect (to_close_file token checksum) x k x' =
      svnedit_close_file system settings (some token) checksum x ≡ ok (k, x')
  Effect _ x k x' = (k ≡ 0) × (x' ≡ x)

  -- The commands one after the other, each with the result 0.
  pub data Edits : List EditCommand → Edit (W h) → Edit (W h) → Type 0 where
    no_edits : {x : Edit (W h)} → Edits [] x x
    edit_then :
        {c : EditCommand} {cs : List EditCommand} {x x' x'' : Edit (W h)}
        → Effect c x 0 x'
        → Edits cs x' x''
        → Edits (c ∷ cs) x x''

  -- The memory behind a command, and behind the end of the edit.
  abbrev pub edited_to : Edit (W h) → Held (Editing (W h)) → Held (Editing (W h))
  edited_to x s = record s { mine = record s.mine { edit = x; cmd = none } }

  abbrev pub closed_with : Edit (W h) → Held (Editing (W h)) → Held (Editing (W h))
  closed_with x s = record s { mine = record s.mine { edit = x; cmd = none; is_closing = true } }

  -- The variables as the loop finds them, with the editor `x`.
  abbrev pub started : Editing (W h) → Edit (W h) → Editing (W h)
  started a x = record a { edit = x; cmd = none }

-- A result as a code.
abbrev pub code_of : ℕ → ℕ → Code
code_of n zero = success
code_of n (suc k) = other n
