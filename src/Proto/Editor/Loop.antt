-- ===== src/Proto/Editor/Loop.antt =====
-- The loop over the commands of an edit.
use mrksvnup.Base.{ℕ, suc, ◌+◌, ◌≤◌, ◌≡◌, false, List, ◌∷◌, codes, equal, some, length, arith}
use mrksvnup.Svnedit.System.{Edit}
use mrksvnup.Proto.Unpack.{success, nomatch, other}
use mrksvnup.Proto.Unpack.Tokens.{Token, open_list, close_list, IsReader}
use mrksvnup.Proto.Unpack.Nested.{word_call, word_call-other}
use mrksvnup.Proto.Client.{text_of}
use mrksvnup.Proto.Editor.{Host, W}
use mrksvnup.Proto.Editor.Dispatch.{
  Memory, run_command, file_command, other_command, closing_flagged, editor_unpack2,
  closing_checked, editor_unpack1,
}
use mrksvnup.Proto.Editor.Edits.{
  EditCommand, parameters, name_of, number_of, command_row, close_edit_row,
}
use mrksvnup.Proto.Editor.Meaning.{code_of, Effect, edited_to, closed_with}
use mrksvnup.Proto.Editor.Effects.{bare_command-Effect, command-Effect}

module _ (h : Host) (Ahead : h.peer.reader.R → List Token → Type 0)
    (At : h.peer.reader.R → Token → List Token → Type 0)
    (laws : IsReader h.peer.reader Ahead At) where
  open h use {peer}
  open peer use {reader, fuel}

  unpack2-Effect :
      (c : EditCommand) (ts : List Token) (k : ℕ) (x' : Edit (W h)) (r : reader.R) (s : Memory h)
      → Effect h c s.mine.edit k x'
      → Ahead r (parameters c ts)
      → length (parameters c ts) ≤ fuel
      → (r' : reader.R) × (editor_unpack2 h r
            (record s { mine = record s.mine { cmd = some (name_of c) } })
          ≡ some (code_of (number_of c) k, r', edited_to h x' s))
        × Ahead r' ts
  unfolding editor_unpack2
  unpack2-Effect c ts k x' r s does ahead enough =
      let named : Memory h = record s { mine = record s.mine { cmd = some (name_of c) } } in
      let (r', e, ahead') = command-Effect h Ahead At laws c ts k x' r named does ahead enough in
      (r', rw (e), ahead')

  pub unpack1-Effect :
      (c : EditCommand) (ts : List Token) (x' : Edit (W h)) (r : reader.R) (s : Memory h)
      → s.mine.is_closing ≡ false
      → Effect h c s.mine.edit 0 x'
      → Ahead r (command_row c ts)
      → length (command_row c ts) ≤ fuel
      → (r' : reader.R) × (editor_unpack1 h r s ≡ some (success, r', edited_to h x' s))
        × Ahead r' ts
  unfolding editor_unpack1 closing_checked
  unpack1-Effect c ts x' r s opens does ahead enough =
      let (r', e, ahead') =
        word_call reader Ahead At laws (Memory h)
          (λ v s. record s { mine = record s.mine { cmd = text_of v } }) (editor_unpack2 h)
          (name_of c) (parameters c (close_list ∷ ts)) ts fuel r s (edited_to h x' s) ahead
          (λ r1 ahead1. unpack2-Effect c (close_list ∷ ts) 0 x' r1 s does ahead1 (omega arith)) in
      (r', rw (e, opens), ahead')

  pub unpack1-fails :
      (c : EditCommand) (ts : List Token) (k : ℕ) (x' : Edit (W h)) (r : reader.R) (s : Memory h)
      → Effect h c s.mine.edit (suc k) x'
      → Ahead r (command_row c ts)
      → length (command_row c ts) ≤ fuel
      → (r' : reader.R) × (editor_unpack1 h r s ≡ some (other (number_of c), r', edited_to h x' s))
        × Ahead r' (close_list ∷ ts)
  unfolding editor_unpack1 closing_checked
  unpack1-fails c ts k x' r s does ahead enough =
      let (r', e, ahead') =
        word_call-other reader Ahead At laws (Memory h)
          (λ v s. record s { mine = record s.mine { cmd = text_of v } }) (editor_unpack2 h)
          (name_of c) (parameters c (close_list ∷ ts)) (close_list ∷ ts) fuel (number_of c) r s
          (edited_to h x' s) ahead
          (λ r1 ahead1.
            unpack2-Effect c (close_list ∷ ts) (suc k) x' r1 s does ahead1 (omega arith)) in
      (r', rw (e), ahead')

  -- The end of the edit.
  unpack2-close :
      (ts : List Token) (r : reader.R) (s : Memory h)
      → Ahead r (open_list ∷ close_list ∷ ts)
      → length ts + 2 ≤ fuel
      → (r' : reader.R) × (editor_unpack2 h r
            (record s { mine = record s.mine { cmd = some (codes "close-edit") } })
          ≡ some (success, r', closed_with h s.mine.edit s))
        × Ahead r' ts
  unfolding editor_unpack2 run_command file_command other_command equal closing_flagged
  unpack2-close ts r s ahead enough =
      let named : Memory h = record s {
        mine = record s.mine { cmd = some (codes "close-edit") };
      } in
      let (r', e, ahead') = bare_command-Effect h Ahead At laws 19 ts r named ahead enough in
      (r', rw (e), ahead')

  pub unpack1-close :
      (ts : List Token) (r : reader.R) (s : Memory h)
      → Ahead r (close_edit_row ts)
      → length ts + 5 ≤ fuel
      → (r' : reader.R) × (editor_unpack1 h r s
          ≡ some (nomatch 101, r', closed_with h s.mine.edit s))
        × Ahead r' ts
  unfolding editor_unpack1 closing_checked
  unpack1-close ts r s ahead enough =
      let (r', e, ahead') =
        word_call reader Ahead At laws (Memory h)
          (λ v s. record s { mine = record s.mine { cmd = text_of v } }) (editor_unpack2 h)
          (codes "close-edit") (open_list ∷ close_list ∷ close_list ∷ ts) ts fuel r s
          (closed_with h s.mine.edit s) ahead
          (λ r1 ahead1. unpack2-close (close_list ∷ ts) r1 s ahead1 (omega arith)) in
      (r', rw (e), ahead')
