-- ===== src/Proto/Editor/FileEffects.antt =====
-- Each command on files, read and done.
use mrksvnup.Base.{ℕ, refl, ◌∙◌, List, [], ◌∷◌, Bytes, Option}
use mrksvnup.Svnedit.Files.{
  svnedit_clear_doc, svnedit_add_file, svnedit_open_file, svnedit_change_file_prop,
}
use mrksvnup.Proto.Unpack.{long, text}
use mrksvnup.Proto.Unpack.Tokens.{Token, IsReader}
use mrksvnup.Proto.Unpack.Formats.{
  open_item, close_item, one, maybe, numbers, strings, spec_text, finished, opened, closed, taken,
}
use mrksvnup.Proto.Unpack.Stores.{written, stores}
use mrksvnup.Proto.Client.{long_of, text_of}
use mrksvnup.Proto.Editor.{Host, with_edit}
use mrksvnup.Proto.Editor.Commands.{
  Handler, add_file, open_file, apply_textdelta, textdelta_end, change_file_prop, close_file,
  absent_file,
}
use mrksvnup.Proto.Editor.Edits.{
  EditCommand, to_add_file, to_open_file, to_apply_textdelta, to_textdelta_end, to_change_file_prop,
  to_close_file, to_absent_file, parameters,
}
use mrksvnup.Proto.Editor.Meaning.{Effect}
use mrksvnup.Proto.Editor.Handled.{put_var, put_doc, handled, passed}
use mrksvnup.Svnedit.Complete.{svnedit_close_file}
use mrksvnup.Proto.Editor.DirEffects
use mrksvnup.Proto.Editor.Absent.{
  string_value, copy_path_value, copy_rev_value, string_or_end, copy_or_end, text_of-string_value,
}

module _ (h : Host) (Ahead : h.peer.reader.R → List Token → Type 0)
    (At : h.peer.reader.R → Token → List Token → Type 0)
    (laws : IsReader h.peer.reader Ahead At) where
  open h use {peer, uncompress, system, settings, behind}
  open peer use {reader, fuel}

  abbrev Handles : EditCommand → Handler h → ℕ → Type 0
  Handles = DirEffects.Handles h Ahead At laws

  pub add_file-Effect :
      (path : Bytes) (dir : Bytes) (token : Bytes) (copy : Option (Bytes × ℕ))
      → Handles (to_add_file path dir token copy) (add_file h) 11
  unfolding add_file Effect parameters spec_text stores written svnedit_clear_doc
  add_file-Effect path dir token copy ts k x' r s does ahead enough =
      handled h Ahead At laws
        (open_item
          ∷ one strings
          ∷ one strings
          ∷ one strings
          ∷ open_item
          ∷ maybe strings
          ∷ maybe numbers
          ∷ close_item
          ∷ close_item
          ∷ [])
        (put_doc h (λ v d. record d { rp = text_of v })
          ∷ put_var (λ v x. record x { token = text_of v })
          ∷ put_doc h (λ v d. record d { ft = text_of v })
          ∷ put_var (λ v x. record x { copy_path = text_of v })
          ∷ put_var (λ v x. record x { copy_rev = long_of v })
          ∷ [])
        _
        ((text path ∷ [])
          ∷ (text dir ∷ [])
          ∷ (text token ∷ [])
          ∷ (copy_path_value copy ∷ [])
          ∷ (copy_rev_value copy ∷ [])
          ∷ [])
        ts 2 3 11 k r (with_edit h (svnedit_clear_doc s.mine.edit) s)
        (λ v x. svnedit_add_file system settings x) x'
        (opened (
          taken refl
            (taken refl (taken refl (opened (copy_or_end copy (closed (closed (finished)))))))))
        ahead enough does

  pub open_file-Effect :
      (path : Bytes) (dir : Bytes) (token : Bytes) (rev : ℕ)
      → Handles (to_open_file path dir token rev) (open_file h) 12
  unfolding open_file Effect parameters spec_text stores written svnedit_clear_doc
  open_file-Effect path dir token rev ts k x' r s does ahead enough =
      handled h Ahead At laws
        (open_item
          ∷ one strings
          ∷ one strings
          ∷ one strings
          ∷ open_item
          ∷ one numbers
          ∷ close_item
          ∷ close_item
          ∷ [])
        (put_doc h (λ v d. record d { rp = text_of v })
          ∷ put_var (λ v x. record x { token = text_of v })
          ∷ put_doc h (λ v d. record d { ft = text_of v })
          ∷ put_doc h (λ v d. record d { rev = long_of v })
          ∷ [])
        _ ((text path ∷ []) ∷ (text dir ∷ []) ∷ (text token ∷ []) ∷ (long rev ∷ []) ∷ []) ts 2 3 12
        k r (with_edit h (svnedit_clear_doc s.mine.edit) s)
        (λ v x. svnedit_open_file system settings x) x'
        (opened
          (taken refl (taken refl (taken refl (opened (taken refl (closed (closed (finished)))))))))
        ahead enough does

  pub apply_textdelta-Effect :
      (token : Bytes) (base : Option Bytes)
      → Handles (to_apply_textdelta token base) (apply_textdelta h) 13
  unfolding apply_textdelta Effect parameters spec_text stores written
  apply_textdelta-Effect token base ts k x' r s does ahead enough =
      let (r', e, ahead') =
        passed h Ahead At laws
          (open_item ∷ one strings ∷ open_item ∷ maybe strings ∷ close_item ∷ close_item ∷ [])
          (put_var (λ v x. record x { token = text_of v })
            ∷ put_doc h (λ v d. record d { base_checksum = text_of v })
            ∷ [])
          _ ((text token ∷ []) ∷ (string_value base ∷ []) ∷ []) ts 2 13 r s
          (opened (taken refl (opened (string_or_end base (closed (closed (finished))))))) ahead
          enough in
      (r', rw (does.0, does.1) (e ∙ rw (text_of-string_value base)), ahead')

  pub textdelta_end-Effect : (token : Bytes) → Handles (to_textdelta_end token) (textdelta_end h) 15
  unfolding textdelta_end Effect parameters spec_text stores written
  textdelta_end-Effect token ts k x' r s does ahead enough =
      let (r', e, ahead') =
        passed h Ahead At laws (open_item ∷ one strings ∷ close_item ∷ [])
          (put_var (λ v x. record x { token = text_of v }) ∷ []) _ ((text token ∷ []) ∷ []) ts 1 15
          r s (opened (taken refl (closed (finished)))) ahead enough in
      (r', rw (does.0, does.1) e, ahead')

  pub change_file_prop-Effect :
      (token : Bytes) (name : Bytes) (value : Option Bytes)
      → Handles (to_change_file_prop token name value) (change_file_prop h) 16
  unfolding change_file_prop Effect parameters spec_text stores written
  change_file_prop-Effect token name value ts k x' r s does ahead enough =
      handled h Ahead At laws
        (open_item
          ∷ one strings
          ∷ one strings
          ∷ open_item
          ∷ maybe strings
          ∷ close_item
          ∷ close_item
          ∷ [])
        (put_var (λ v x. record x { token = text_of v })
          ∷ put_var (λ v x. record x { name = text_of v })
          ∷ put_var (λ v x. record x { value = text_of v })
          ∷ [])
        _ ((text token ∷ []) ∷ (text name ∷ []) ∷ (string_value value ∷ []) ∷ []) ts 1 2 16 k r s
        (λ v x. svnedit_change_file_prop v.name v.value x) x'
        (opened
          (taken refl (taken refl (opened (string_or_end value (closed (closed (finished))))))))
        ahead enough (rw (text_of-string_value value) does)

  pub close_file-Effect :
      (token : Bytes) (checksum : Option Bytes)
      → Handles (to_close_file token checksum) (close_file h) 17
  unfolding close_file Effect parameters spec_text stores written
  close_file-Effect token checksum ts k x' r s does ahead enough =
      handled h Ahead At laws
        (open_item ∷ one strings ∷ open_item ∷ maybe strings ∷ close_item ∷ close_item ∷ [])
        (put_var (λ v x. record x { token = text_of v })
          ∷ put_var (λ v x. record x { text_checksum = text_of v })
          ∷ [])
        _ ((text token ∷ []) ∷ (string_value checksum ∷ []) ∷ []) ts 1 2 17 k r s
        (λ v x. svnedit_close_file system settings v.token v.text_checksum x) x'
        (opened (taken refl (opened (string_or_end checksum (closed (closed (finished))))))) ahead
        enough (rw (text_of-string_value checksum) does)

  pub absent_file-Effect :
      (path : Bytes) (parent : Bytes) → Handles (to_absent_file path parent) (absent_file h) 18
  unfolding absent_file Effect parameters spec_text stores written
  absent_file-Effect path parent ts k x' r s does ahead enough =
      let (r', e, ahead') =
        passed h Ahead At laws (open_item ∷ one strings ∷ one strings ∷ close_item ∷ [])
          (put_var (λ v x. record x { path = text_of v })
            ∷ put_var (λ v x. record x { parent_token = text_of v })
            ∷ [])
          _ ((text path ∷ []) ∷ (text parent ∷ []) ∷ []) ts 1 18 r s
          (opened (taken refl (taken refl (closed (finished))))) ahead enough in
      (r', rw (does.0, does.1) e, ahead')
