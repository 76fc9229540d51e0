-- ===== src/Proto/Editor/DirEffects.antt =====
-- Each command on directories, read and done.
use mrksvnup.Base.{ℕ, ◌≤◌, ◌≡◌, refl, List, [], ◌∷◌, Bytes, Option, length}
use mrksvnup.Svnedit.System.{Edit}
use mrksvnup.Svnedit.Entries.{
  svnedit_open_root, svnedit_delete_entry, svnedit_add_dir, svnedit_open_dir,
}
use mrksvnup.Proto.Unpack.{long, text, unpacked}
use mrksvnup.Proto.Unpack.Tokens.{Token, IsReader}
use mrksvnup.Proto.Unpack.Formats.{
  open_item, close_item, one, maybe, numbers, strings, spec_text, finished, opened, closed, taken,
}
use mrksvnup.Proto.Unpack.Stores.{written, stores}
use mrksvnup.Proto.Client.{long_of, text_of, Held}
use mrksvnup.Proto.Editor.{Host, Editing, W, with_edit}
use mrksvnup.Proto.Editor.Commands.{
  Handler, open_root, delete_entry, add_dir, open_dir, change_dir_prop, close_dir, absent_dir,
}
use mrksvnup.Proto.Editor.Dispatch.{failing_as}
use mrksvnup.Proto.Editor.Edits.{
  EditCommand, to_open_root, to_delete_entry, to_add_dir, to_open_dir, to_change_dir_prop,
  to_close_dir, to_absent_dir, parameters,
}
use mrksvnup.Proto.Editor.Meaning.{Effect, code_of}
use mrksvnup.Proto.Editor.Handled.{put_var, handled, passed}
use mrksvnup.Proto.Editor.Absent.{
  number_value, string_value, copy_path_value, copy_rev_value, number_or_end, string_or_end,
  copy_or_end, long_of-number_value,
}

module _ (h : Host) (Ahead : h.peer.reader.R → List Token → Type 0)
    (At : h.peer.reader.R → Token → List Token → Type 0)
    (laws : IsReader h.peer.reader Ahead At) where
  open h use {peer, system, settings}
  open peer use {reader, fuel}

  -- The function `run` takes the parameters of the command `c` and does it, with the number `n` for an
  -- error.
  abbrev pub Handles : EditCommand → Handler h → ℕ → Type 0
  Handles c run n =
      (ts : List Token) (k : ℕ) (x' : Edit (W h)) (r : reader.R) (s : Held (Editing (W h)))
      → Effect h c s.mine.edit k x'
      → Ahead r (parameters c ts)
      → length (parameters c ts) ≤ fuel
      → (r' : reader.R) × (failing_as h n (run r s) ≡ unpacked (code_of n k) r' (with_edit h x' s))
        × Ahead r' ts

  pub open_root-Effect :
      (rev : Option ℕ) (token : Bytes) → Handles (to_open_root rev token) (open_root h) 4
  unfolding open_root Effect parameters spec_text stores written
  open_root-Effect rev token ts k x' r s does ahead enough =
      handled h Ahead At laws
        (open_item ∷ open_item ∷ maybe numbers ∷ close_item ∷ one strings ∷ close_item ∷ [])
        (put_var (λ v x. record x { rev = long_of v })
          ∷ put_var (λ v x. record x { token = text_of v })
          ∷ [])
        _ ((number_value rev ∷ []) ∷ (text token ∷ []) ∷ []) ts 1 2 4 k r s
        (λ v x. svnedit_open_root system settings v.rev v.token x) x'
        (opened (opened (number_or_end rev (closed (taken refl (closed (finished))))))) ahead enough
        (rw (long_of-number_value rev) does)

  pub delete_entry-Effect :
      (path : Bytes) (rev : Option ℕ) (token : Bytes)
      → Handles (to_delete_entry path rev token) (delete_entry h) 5
  unfolding delete_entry Effect parameters spec_text stores written
  delete_entry-Effect path rev token ts k x' r s does ahead enough =
      handled h Ahead At laws
        (open_item
          ∷ one strings
          ∷ open_item
          ∷ maybe numbers
          ∷ close_item
          ∷ one strings
          ∷ close_item
          ∷ [])
        (put_var (λ v x. record x { path = text_of v })
          ∷ put_var (λ v x. record x { rev = long_of v })
          ∷ put_var (λ v x. record x { token = text_of v })
          ∷ [])
        _ ((text path ∷ []) ∷ (number_value rev ∷ []) ∷ (text token ∷ []) ∷ []) ts 1 2 5 k r s
        (λ v x. svnedit_delete_entry system settings v.path v.rev v.token x) x'
        (opened (taken refl (opened (number_or_end rev (closed (taken refl (closed (finished))))))))
        ahead enough (rw (long_of-number_value rev) does)

  pub add_dir-Effect :
      (path : Bytes) (parent : Bytes) (child : Bytes) (copy : Option (Bytes × ℕ))
      → Handles (to_add_dir path parent child copy) (add_dir h) 6
  unfolding add_dir Effect parameters spec_text stores written
  add_dir-Effect path parent child copy ts k x' r s does ahead enough =
      handled h Ahead At laws
        (open_item
          ∷ one strings
          ∷ one strings
          ∷ one strings
          ∷ open_item
          ∷ maybe strings
          ∷ maybe numbers
          ∷ close_item
          ∷ close_item
          ∷ [])
        (put_var (λ v x. record x { path = text_of v })
          ∷ put_var (λ v x. record x { parent_token = text_of v })
          ∷ put_var (λ v x. record x { child_token = text_of v })
          ∷ put_var (λ v x. record x { copy_path = text_of v })
          ∷ put_var (λ v x. record x { copy_rev = long_of v })
          ∷ [])
        _
        ((text path ∷ [])
          ∷ (text parent ∷ [])
          ∷ (text child ∷ [])
          ∷ (copy_path_value copy ∷ [])
          ∷ (copy_rev_value copy ∷ [])
          ∷ [])
        ts 1 2 6 k r s (λ v x. svnedit_add_dir system settings v.path x) x'
        (opened (
          taken refl
            (taken refl (taken refl (opened (copy_or_end copy (closed (closed (finished)))))))))
        ahead enough does

  pub open_dir-Effect :
      (path : Bytes) (parent : Bytes) (child : Bytes) (rev : ℕ)
      → Handles (to_open_dir path parent child rev) (open_dir h) 7
  unfolding open_dir Effect parameters spec_text stores written
  open_dir-Effect path parent child rev ts k x' r s does ahead enough =
      handled h Ahead At laws
        (open_item
          ∷ one strings
          ∷ one strings
          ∷ one strings
          ∷ open_item
          ∷ one numbers
          ∷ close_item
          ∷ close_item
          ∷ [])
        (put_var (λ v x. record x { path = text_of v })
          ∷ put_var (λ v x. record x { parent_token = text_of v })
          ∷ put_var (λ v x. record x { child_token = text_of v })
          ∷ put_var (λ v x. record x { rev = long_of v })
          ∷ [])
        _ ((text path ∷ []) ∷ (text parent ∷ []) ∷ (text child ∷ []) ∷ (long rev ∷ []) ∷ []) ts 1 2
        7 k r s (λ v x. svnedit_open_dir system settings v.path x) x'
        (opened
          (taken refl (taken refl (taken refl (opened (taken refl (closed (closed (finished)))))))))
        ahead enough does

  pub change_dir_prop-Effect :
      (token : Bytes) (name : Bytes) (value : Option Bytes)
      → Handles (to_change_dir_prop token name value) (change_dir_prop h) 8
  unfolding change_dir_prop Effect parameters spec_text stores written
  change_dir_prop-Effect token name value ts k x' r s does ahead enough =
      let (r', e, ahead') =
        passed h Ahead At laws
          (open_item
            ∷ one strings
            ∷ one strings
            ∷ open_item
            ∷ maybe strings
            ∷ close_item
            ∷ close_item
            ∷ [])
          (put_var (λ v x. record x { token = text_of v })
            ∷ put_var (λ v x. record x { name = text_of v })
            ∷ put_var (λ v x. record x { value = text_of v })
            ∷ [])
          _ ((text token ∷ []) ∷ (text name ∷ []) ∷ (string_value value ∷ []) ∷ []) ts 1 8 r s
          (opened
            (taken refl (taken refl (opened (string_or_end value (closed (closed (finished))))))))
          ahead enough in
      (r', rw (does.0, does.1) e, ahead')

  pub close_dir-Effect : (token : Bytes) → Handles (to_close_dir token) (close_dir h) 9
  unfolding close_dir Effect parameters spec_text stores written
  close_dir-Effect token ts k x' r s does ahead enough =
      let (r', e, ahead') =
        passed h Ahead At laws (open_item ∷ one strings ∷ close_item ∷ [])
          (put_var (λ v x. record x { token = text_of v }) ∷ []) _ ((text token ∷ []) ∷ []) ts 1 9 r
          s (opened (taken refl (closed (finished)))) ahead enough in
      (r', rw (does.0, does.1) e, ahead')

  pub absent_dir-Effect :
      (path : Bytes) (parent : Bytes) → Handles (to_absent_dir path parent) (absent_dir h) 10
  unfolding absent_dir Effect parameters spec_text stores written
  absent_dir-Effect path parent ts k x' r s does ahead enough =
      let (r', e, ahead') =
        passed h Ahead At laws (open_item ∷ one strings ∷ one strings ∷ close_item ∷ [])
          (put_var (λ v x. record x { path = text_of v })
            ∷ put_var (λ v x. record x { parent_token = text_of v })
            ∷ [])
          _ ((text path ∷ []) ∷ (text parent ∷ []) ∷ []) ts 1 10 r s
          (opened (taken refl (taken refl (closed (finished))))) ahead enough in
      (r', rw (does.0, does.1) e, ahead')
