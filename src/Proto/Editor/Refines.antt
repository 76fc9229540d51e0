-- ===== src/Proto/Editor/Refines.antt =====
-- `svnproto_editor` on the commands of an edit.
use mrksvnup.Base.{
  ℕ, zero, suc, ◌-◌, ◌≤◌, ◌<◌, ◌≡◌, refl, ap, ◌∙◌, false, List, [], ◌∷◌, none, some, length, arith,
}
use mrksvnup.Svnedit.System.{Edit}
use mrksvnup.Proto.Unpack.{success, nomatch, other, next, stop, unpacked, modifier, suppressed}
use mrksvnup.Proto.Unpack.Calls.{called, calls_loop, calls_item}
use mrksvnup.Proto.Unpack.Format.{item, items_loop, proceed, ended, svnproto_vunpack}
use mrksvnup.Proto.Unpack.Tokens.{Token, close_list, IsReader}
use mrksvnup.Proto.Editor.{Host, W}
use mrksvnup.Proto.Editor.Dispatch.{Memory, editor_unpack1, commands_unpacked}
use mrksvnup.Proto.Editor.Edits.{EditCommand, number_of, command_row, edit_rows, close_edit_row}
use mrksvnup.Proto.Editor.Meaning.{Effect, Edits, no_edits, edit_then, edited_to, closed_with}
use mrksvnup.Proto.Editor.Loop.{unpack1-Effect, unpack1-fails, unpack1-close}
use mrksvnup.Proto.Editor.Lengths.{parameters-length, length-edit_rows}

module _ (h : Host) (Ahead : h.peer.reader.R → List Token → Type 0)
    (At : h.peer.reader.R → Token → List Token → Type 0)
    (laws : IsReader h.peer.reader Ahead At) where
  open h use {peer}
  open peer use {reader, fuel}

  idle :
      (left : ℕ) (r : reader.R) (s : Memory h)
      → s.mine.cmd ≡ none
      → calls_loop reader (Memory h) (editor_unpack1 h) [] left r s
        ≡ calls_loop reader
            (Memory h)
            (editor_unpack1 h)
            []
            (left - 0)
            r
            (edited_to h s.mine.edit s)
  idle left r s freed =
      let same : left ≡ left - 0 = omega arith in
      ap (λ n. calls_loop reader (Memory h) (editor_unpack1 h) [] n r s) same
      ∙ ap (calls_loop reader (Memory h) (editor_unpack1 h) [] (left - 0) r)
          (λ i. record s { mine = record s.mine { cmd = freed i } })

  round-again :
      (left : ℕ) (r r' : reader.R) (s s' : Memory h)
      → editor_unpack1 h r s ≡ some (success, r', s')
      → calls_loop reader (Memory h) (editor_unpack1 h) [] (suc left) r s
        ≡ calls_loop reader (Memory h) (editor_unpack1 h) [] left r' s'
  unfolding calls_loop called
  round-again left r r' s s' e = rw (e)

  -- The loop goes through commands that succeed.
  pub commands_loop :
      (cs : List EditCommand) (ts : List Token) (x' : Edit (W h)) (left : ℕ) (r : reader.R)
      (s : Memory h)
      → s.mine.is_closing ≡ false
      → s.mine.cmd ≡ none
      → Edits h cs s.mine.edit x'
      → Ahead r (edit_rows cs ts)
      → length (edit_rows cs ts) ≤ fuel
      → length cs ≤ left
      → (r' : reader.R) × (calls_loop reader (Memory h) (editor_unpack1 h) [] left r s
          ≡ calls_loop reader
              (Memory h)
              (editor_unpack1 h)
              []
              (left - length cs)
              r'
              (edited_to h x' s))
        × Ahead r' ts
  unfolding edit_rows
  commands_loop cs ts x' left r s opens freed no_edits ahead enough short =
      (r, idle left r s freed, ahead)
  commands_loop cs ts x' zero r s opens freed (edit_then does edits) ahead enough short =
      absurd (omega arith)
  commands_loop cs ts x' (suc left) r s opens freed
        (edit_then {c = c} {cs = cs'} {x' = x1} does edits) ahead enough short =
      let (r1, e1, ahead1) =
        unpack1-Effect h Ahead At laws c (edit_rows cs' ts) x1 r s opens does ahead enough in
      let grown = parameters-length c (close_list ∷ edit_rows cs' ts) in
      let (r2, e2, ahead2) =
        commands_loop cs' ts x' left r1 (edited_to h x1 s) opens refl edits ahead1 (omega arith)
          (omega arith) in
      let same : left - length cs' ≡ suc left - length (c ∷ cs') = omega arith in
      (
        r2,
        round-again left r r1 s (edited_to h x1 s) e1
            ∙ e2
            ∙ ap (λ n. calls_loop reader (Memory h) (editor_unpack1 h) [] n r2 (edited_to h x' s))
                same,
        ahead2,
      )

  -- The whole format.
  commands-end :
      (r r' : reader.R) (s s' : Memory h)
      → calls_loop reader (Memory h) (editor_unpack1 h) [] fuel r s ≡ next (nomatch 101) [] r' s'
      → commands_unpacked h r s ≡ unpacked success r' s'
  unfolding commands_unpacked svnproto_vunpack items_loop modifier item calls_item proceed ended
      suppressed
  commands-end r r' s s' e = rw (e)

  commands-stop :
      (k : ℕ) (r r' : reader.R) (s s' : Memory h)
      → calls_loop reader (Memory h) (editor_unpack1 h) [] fuel r s ≡ stop (other k) r' s'
      → commands_unpacked h r s ≡ unpacked (other k) r' s'
  unfolding commands_unpacked svnproto_vunpack items_loop modifier item calls_item proceed ended
      suppressed
  commands-stop k r r' s s' e = rw (e)

  -- A round of the loop that ends it.
  pub round-end :
      (k left : ℕ) (r r' : reader.R) (s s' : Memory h)
      → editor_unpack1 h r s ≡ some (nomatch k, r', s')
      → 0 < left
      → calls_loop reader (Memory h) (editor_unpack1 h) [] left r s
        ≡ next (nomatch k) [] (reader.recycle r') s'
  unfolding calls_loop called
  round-end k zero r r' s s' e some_left = absurd (omega arith)
  round-end k (suc left) r r' s s' e some_left = rw (e)

  round-stop :
      (k left : ℕ) (r r' : reader.R) (s s' : Memory h)
      → editor_unpack1 h r s ≡ some (other k, r', s')
      → 0 < left
      → calls_loop reader (Memory h) (editor_unpack1 h) [] left r s ≡ stop (other k) r' s'
  unfolding calls_loop called
  round-stop k zero r r' s s' e some_left = absurd (omega arith)
  round-stop k (suc left) r r' s s' e some_left = rw (e)

  -- Where the tokens that come next are the commands of an edit and its end, and the editor does the
  -- commands one after the other, each with the result 0: the loop ends with 0, the editor is as the
  -- commands leave it, the flag COMMAND_CLOSING is set, and what follows the end comes next.
  pub commands_unpacked-Edits :
      (cs : List EditCommand) (ts : List Token) (x' : Edit (W h)) (r : reader.R) (s : Memory h)
      → s.mine.is_closing ≡ false
      → s.mine.cmd ≡ none
      → Edits h cs s.mine.edit x'
      → Ahead r (edit_rows cs (close_edit_row ts))
      → length (edit_rows cs (close_edit_row ts)) ≤ fuel
      → (r' : reader.R) × (commands_unpacked h r s ≡ unpacked success r' (closed_with h x' s))
        × Ahead r' ts
  commands_unpacked-Edits cs ts x' r s opens freed edits ahead enough =
      let long = length-edit_rows cs (close_edit_row ts) in
      let (r1, e1, ahead1) =
        commands_loop cs (close_edit_row ts) x' fuel r s opens freed edits ahead enough
          (omega arith) in
      let (r2, e2, ahead2) =
        unpack1-close h Ahead At laws ts r1 (edited_to h x' s) ahead1 (omega arith) in
      (
        reader.recycle r2,
        commands-end r (reader.recycle r2) s (closed_with h x' s) (
            e1
            ∙ round-end 101 (fuel - length cs) r1 r2 (edited_to h x' s) (closed_with h x' s) e2
                (omega arith)),
        laws.recycle_lem r2 ts ahead2,
      )

  -- Where a command behind commands that succeed fails: the loop ends with the error of that command,
  -- and the editor is as the command leaves it, so that no later command is done.
  pub commands_unpacked-fails :
      (cs : List EditCommand) (c : EditCommand) (ts : List Token) (k : ℕ) (x x' : Edit (W h))
      (r : reader.R) (s : Memory h)
      → s.mine.is_closing ≡ false
      → s.mine.cmd ≡ none
      → Edits h cs s.mine.edit x
      → Effect h c x (suc k) x'
      → Ahead r (edit_rows cs (command_row c ts))
      → length (edit_rows cs (command_row c ts)) ≤ fuel
      → (r' : reader.R) × (commands_unpacked h r s
          ≡ unpacked (other (number_of c)) r' (edited_to h x' s))
        × Ahead r' (close_list ∷ ts)
  commands_unpacked-fails cs c ts k x x' r s opens freed edits fails ahead enough =
      let long = length-edit_rows cs (command_row c ts) in
      let (r1, e1, ahead1) =
        commands_loop cs (command_row c ts) x fuel r s opens freed edits ahead enough
          (omega arith) in
      let (r2, e2, ahead2) =
        unpack1-fails h Ahead At laws c ts k x' r1 (edited_to h x s) fails ahead1 (omega arith) in
      (
        r2,
        commands-stop (number_of c) r r2 s (edited_to h x' s) (
            e1
            ∙ round-stop (number_of c) (fuel - length cs) r1 r2 (edited_to h x s) (edited_to h x' s)
                e2 (omega arith)),
        ahead2,
      )
