-- ===== src/Proto/Editor/Commands.antt =====
-- The functions of src/svnproto_editor.c that take the parameters of a command.
use mrksvnup.Base.{[], ◌∷◌, ◌++◌, codes, Option, none, some, Outcome, ok, fail, length}
use mrksvnup.Svndiff.Parse.{svndiff_parse_doc}
use mrksvnup.Svnedit.Entries.{
  svnedit_open_root, svnedit_delete_entry, svnedit_add_dir, svnedit_open_dir,
}
use mrksvnup.Svnedit.Files.{
  svnedit_clear_doc, svnedit_add_file, svnedit_open_file, svnedit_change_file_prop,
}
use mrksvnup.Svnedit.Complete.{svnedit_close_file}
use mrksvnup.Proto.Unpack.{Code, success, other, callback, unpacked}
use mrksvnup.Proto.Client.{long_of, text_of, Held}
use mrksvnup.Proto.Editor.{
  Host, Editing, Frame, W, Reply, with_edit, into, into_doc, unpacked_vars, edited,
}

module _ (h : Host) where
  open h use {peer, behind, uncompress, system, settings}
  open peer use {reader}

  abbrev pub Handler : Type 0
  Handler = reader.R → Held (Editing (W h)) → Reply h

  unfoldable pub open_root : Handler
  open_root r s =
      unpacked_vars h 1 (codes "((n?)s)")
        (into h (λ v x. record x { rev = long_of v })
          ∷ into h (λ v x. record x { token = text_of v })
          ∷ [])
        r s (λ x r s. edited h 2 (svnedit_open_root system settings x.rev x.token s.mine.edit) r s)

  unfoldable pub delete_entry : Handler
  delete_entry r s =
      unpacked_vars h 1 (codes "(s(n?)s)")
        (into h (λ v x. record x { path = text_of v })
          ∷ into h (λ v x. record x { rev = long_of v })
          ∷ into h (λ v x. record x { token = text_of v })
          ∷ [])
        r s
        (λ x r s.
          edited h 2 (svnedit_delete_entry system settings x.path x.rev x.token s.mine.edit) r s)

  unfoldable pub add_dir : Handler
  add_dir r s =
      unpacked_vars h 1 (codes "(sss(s?n?))")
        (into h (λ v x. record x { path = text_of v })
          ∷ into h (λ v x. record x { parent_token = text_of v })
          ∷ into h (λ v x. record x { child_token = text_of v })
          ∷ into h (λ v x. record x { copy_path = text_of v })
          ∷ into h (λ v x. record x { copy_rev = long_of v })
          ∷ [])
        r s (λ x r s. edited h 2 (svnedit_add_dir system settings x.path s.mine.edit) r s)

  unfoldable pub open_dir : Handler
  open_dir r s =
      unpacked_vars h 1 (codes "(sss(n))")
        (into h (λ v x. record x { path = text_of v })
          ∷ into h (λ v x. record x { parent_token = text_of v })
          ∷ into h (λ v x. record x { child_token = text_of v })
          ∷ into h (λ v x. record x { rev = long_of v })
          ∷ [])
        r s (λ x r s. edited h 2 (svnedit_open_dir system settings x.path s.mine.edit) r s)

  unfoldable pub change_dir_prop : Handler
  change_dir_prop r s =
      unpacked_vars h 1 (codes "(ss(s?))")
        (into h (λ v x. record x { token = text_of v })
          ∷ into h (λ v x. record x { name = text_of v })
          ∷ into h (λ v x. record x { value = text_of v })
          ∷ [])
        r s (λ x r s. unpacked success r s)

  unfoldable pub close_dir : Handler
  close_dir r s =
      unpacked_vars h 1 (codes "(s)") (into h (λ v x. record x { token = text_of v }) ∷ []) r s
        (λ x r s. unpacked success r s)

  unfoldable pub absent_dir : Handler
  absent_dir r s =
      unpacked_vars h 1 (codes "(ss)")
        (into h (λ v x. record x { path = text_of v })
          ∷ into h (λ v x. record x { parent_token = text_of v })
          ∷ [])
        r s (λ x r s. unpacked success r s)

  -- `token` is `dir_token`. The document is cleared first, which does not fail.
  unfoldable pub add_file : Handler
  add_file r s =
      unpacked_vars h 2 (codes "(sss(s?n?))")
        (into_doc h (λ v d. record d { rp = text_of v })
          ∷ into h (λ v x. record x { token = text_of v })
          ∷ into_doc h (λ v d. record d { ft = text_of v })
          ∷ into h (λ v x. record x { copy_path = text_of v })
          ∷ into h (λ v x. record x { copy_rev = long_of v })
          ∷ [])
        r (with_edit h (svnedit_clear_doc s.mine.edit) s)
        (λ x r s. edited h 3 (svnedit_add_file system settings s.mine.edit) r s)

  unfoldable pub open_file : Handler
  open_file r s =
      unpacked_vars h 2 (codes "(sss(n))")
        (into_doc h (λ v d. record d { rp = text_of v })
          ∷ into h (λ v x. record x { token = text_of v })
          ∷ into_doc h (λ v d. record d { ft = text_of v })
          ∷ into_doc h (λ v d. record d { rev = long_of v })
          ∷ [])
        r (with_edit h (svnedit_clear_doc s.mine.edit) s)
        (λ x r s. edited h 3 (svnedit_open_file system settings s.mine.edit) r s)

  -- `token` is `file_token` here and below. `svnedit_get_doc` does not fail.
  unfoldable pub apply_textdelta : Handler
  apply_textdelta r s =
      unpacked_vars h 2 (codes "(s(s?))")
        (into h (λ v x. record x { token = text_of v })
          ∷ into_doc h (λ v d. record d { base_checksum = text_of v })
          ∷ [])
        r s (λ x r s. unpacked success r s)

  -- A chunk of the document, in its place in the buffer of the stream. What a failed parse has
  -- changed in the document is left out.
  unfoldable pub chunk_cb : reader.R → Frame (W h) → Option (Code × reader.R × Frame (W h))
  chunk_cb r f =
      let chunk = reader.chunk r in
      let x = f.held.mine.edit in
      elim (svndiff_parse_doc uncompress (chunk ++ behind r, length chunk) x.doc) [
        | ok doc ↦
            some (success, r, record f { held = with_edit h (record x { doc = doc }) f.held })
        | fail k ↦ some (other 1, r, f)
        | Outcome.fault ↦ none
        | Outcome.stuck ↦ none
      ]

  unfoldable pub textdelta_chunk : Handler
  textdelta_chunk r s =
      unpacked_vars h 2 (codes "(sS)")
        (into h (λ v x. record x { token = text_of v }) ∷ callback (some chunk_cb) ∷ []) r s
        (λ x r s. unpacked success r s)

  unfoldable pub textdelta_end : Handler
  textdelta_end r s =
      unpacked_vars h 1 (codes "(s)") (into h (λ v x. record x { token = text_of v }) ∷ []) r s
        (λ x r s. unpacked success r s)

  unfoldable pub change_file_prop : Handler
  change_file_prop r s =
      unpacked_vars h 1 (codes "(ss(s?))")
        (into h (λ v x. record x { token = text_of v })
          ∷ into h (λ v x. record x { name = text_of v })
          ∷ into h (λ v x. record x { value = text_of v })
          ∷ [])
        r s (λ x r s. edited h 2 (svnedit_change_file_prop x.name x.value s.mine.edit) r s)

  unfoldable pub close_file : Handler
  close_file r s =
      unpacked_vars h 1 (codes "(s(s?))")
        (into h (λ v x. record x { token = text_of v })
          ∷ into h (λ v x. record x { text_checksum = text_of v })
          ∷ [])
        r s
        (λ x r s.
          edited h 2 (svnedit_close_file system settings x.token x.text_checksum s.mine.edit) r s)

  unfoldable pub absent_file : Handler
  absent_file r s =
      unpacked_vars h 1 (codes "(ss)")
        (into h (λ v x. record x { path = text_of v })
          ∷ into h (λ v x. record x { parent_token = text_of v })
          ∷ [])
        r s (λ x r s. unpacked success r s)
