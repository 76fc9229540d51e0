-- ===== src/Proto/Editor/BrokenOff.antt =====
-- `svnproto_editor` where the commands break off.
use mrksvnup.Base.{
  ◌-◌, ◌≤◌, ◌≡◌, inl, inr, refl, ◌∙◌, true, false, List, [], ◌∷◌, Bytes, codes, some, length, ok,
  arith,
}
use mrksvnup.Svnedit.System.{Edit}
use mrksvnup.Svnedit.Shadow.{svnedit_init_shadow_ctx, svnedit_close_shadow_ctx}
use mrksvnup.Proto.Pack.{IsOutput}
use mrksvnup.Proto.Unpack.{
  nomatch, is_list_start, once, modifier, store, callback, next, unpacked, suppressed,
}
use mrksvnup.Proto.Unpack.Calls.{calls_loop, calls_item}
use mrksvnup.Proto.Unpack.Format.{item, items_loop, proceed, ended, svnproto_vunpack}
use mrksvnup.Proto.Unpack.Tokens.{Token, is_steady, IsReader}
use mrksvnup.Proto.Unpack.Formats.{opens}
use mrksvnup.Proto.Unpack.Steps.{round-stop, paren_left, opens-state_of}
use mrksvnup.Proto.Client.{Ctx, text_of}
use mrksvnup.Proto.Client.Endings.{Ended}
use mrksvnup.Proto.Client.Offers.{exchange, length-exchange}
use mrksvnup.Proto.Editor.{Host, Editing, W}
use mrksvnup.Proto.Editor.Dispatch.{
  Memory, closing_checked, editor_unpack1, editor_unpack2, commands_unpacked, loop_ended,
  shadow_opened, svnproto_editor,
}
use mrksvnup.Proto.Editor.Edits.{EditCommand, edit_rows}
use mrksvnup.Proto.Editor.Meaning.{Edits, edited_to, started}
use mrksvnup.Proto.Editor.Refines.{commands_loop, round-end}
use mrksvnup.Proto.Editor.Lengths.{length-edit_rows}
use mrksvnup.Proto.Editor.Conversation.{behind_auth}

module _ (h : Host) (text_in : h.peer.output.Out → Bytes) (lawful : IsOutput h.peer.output text_in)
    (Ahead : h.peer.reader.R → List Token → Type 0)
    (At : h.peer.reader.R → Token → List Token → Type 0)
    (laws : IsReader h.peer.reader Ahead At) where
  open h use {peer, system}
  open peer use {reader, fuel}

  -- No command begins here.
  unpack1-left :
      (t : Token) (ts : List Token) (r : reader.R) (s : Memory h)
      → opens t ≡ false
      → is_steady t ≡ true
      → Ahead r (t ∷ ts)
      → (r' : reader.R) × (editor_unpack1 h r s ≡ some (nomatch 1, r', s)) × Ahead r' (t ∷ ts)
  unfolding editor_unpack1 closing_checked svnproto_vunpack modifier item
  unpack1-left t ts r s bare steady ahead =
      let (r1, read, at) = laws.read_lem r t ts ahead in
      let args =
        store (some λ v s. record s { mine = record s.mine { cmd = text_of v } })
        ∷ callback (some (editor_unpack2 h))
        ∷ [] in
      let (r2, e, ahead2) =
        round-stop reader Ahead At laws (Memory h) 4 fuel b'(' 1 (codes "wr)") (codes "wr)") once
          args r (reader.step_back r1) s (t ∷ ts) (omega arith) refl
          (paren_left reader Ahead At laws (Memory h) is_list_start 1 args r r1 t ts s
            (opens-state_of t ∙ bare) read at)
          (laws.step_back_lem r1 t ts steady at) in
      (r2, rw (e), ahead2)

  commands-broken_off :
      (r r' : reader.R) (s s' : Memory h)
      → calls_loop reader (Memory h) (editor_unpack1 h) [] fuel r s ≡ next (nomatch 1) [] r' s'
      → commands_unpacked h r s ≡ unpacked (nomatch 1) r' s'
  unfolding commands_unpacked svnproto_vunpack items_loop modifier item calls_item proceed ended
      suppressed
  commands-broken_off r r' s s' e = rw (e)

  -- Where the flag COMMAND_CLOSING is not set, the tokens that come next are an authentication,
  -- with an empty challenge for each ANONYMOUS, then commands and behind them the end of a list, a
  -- word or a number, where another command or the end of the edit would be, no more tokens than
  -- the fuel, the shadow connection is made, and from there the editor does the commands one after
  -- the other, each with the result 0: `svnproto_editor` ends with an error of the output side, or
  -- it returns 0, as at the end of an edit, with the editor as the commands leave it and the shadow
  -- connection closed, the flag not set, and that token comes next.
  pub svnproto_editor-broken_off :
      (mechs : List Bytes) (realm : Bytes) (cs : List EditCommand) (t : Token) (ts : List Token)
      (c : Ctx peer) (a : Editing (W h)) (x x' : Edit (W h))
      → a.is_closing ≡ false
      → opens t ≡ false
      → is_steady t ≡ true
      → svnedit_init_shadow_ctx system a.edit ≡ ok (0, x)
      → Edits h cs x x'
      → Ahead c.inp (exchange mechs realm (edit_rows cs (t ∷ ts)))
      → length (exchange mechs realm (edit_rows cs (t ∷ ts))) ≤ fuel
      → Ended peer (svnproto_editor h c a) (λ c' a'.
        (a'.edit ≡ svnedit_close_shadow_ctx system x')
        × (a'.is_closing ≡ false)
        × Ahead c'.inp (t ∷ ts))
  unfolding shadow_opened loop_ended
  svnproto_editor-broken_off mechs realm cs t ts c a x x' opening bare steady shadow edits ahead
        enough =
      let rows = edit_rows cs (t ∷ ts) in
      let room = length-exchange mechs realm rows in
      behind_auth h text_in lawful Ahead At laws
        (λ m. Ended peer m (λ c' a'.
          (a'.edit ≡ svnedit_close_shadow_ctx system x')
          × (a'.is_closing ≡ false)
          × Ahead c'.inp (t ∷ ts)))
        mechs realm rows c a x shadow ahead enough (λ k. inl (k, refl))
        (λ c' left.
          let s : Memory h = record { last_error = c'.last_error; mine = started h a x } in
          let long = length-edit_rows cs (t ∷ ts) in
          let (r1, e1, ahead1) =
            commands_loop h Ahead At laws cs (t ∷ ts) x' fuel c'.inp s opening refl edits left
              (omega arith) (omega arith) in
          let (r2, e2, ahead2) = unpack1-left t ts r1 (edited_to h x' s) bare steady ahead1 in
          let r3 = reader.recycle r2 in
          let looped = commands-broken_off c'.inp r3 s (edited_to h x' s) (
            e1
            ∙ round-end h Ahead At laws 1 (fuel - length cs) r1 r2 (edited_to h x' s)
                (edited_to h x' s) e2 (omega arith)) in
          inr (
            record c' { inp = r3 },
            started h a (svnedit_close_shadow_ctx system x'),
            rw (looped) refl,
            (refl, opening, laws.recycle_lem r2 (t ∷ ts) ahead2),
          ))
