-- ===== src/Proto/Editor/Conversation.antt =====
-- `svnproto_editor` as a whole: the authentication, the shadow connection and the commands.
use mrksvnup.Base.{
  ℕ, suc, ◌≤◌, ◌≡◌, ◌⊎◌, inl, inr, refl, true, false, List, ◌∷◌, Bytes, none, length, ok, arith,
}
use mrksvnup.Svnedit.System.{Edit}
use mrksvnup.Svnedit.Shadow.{svnedit_init_shadow_ctx, svnedit_close_shadow_ctx}
use mrksvnup.Proto.Pack.{IsOutput}
use mrksvnup.Proto.Unpack.{other}
use mrksvnup.Proto.Unpack.Tokens.{Token, close_list, IsReader}
use mrksvnup.Proto.Client.{Ctx, Result, returned, lost, checked_call}
use mrksvnup.Proto.Client.Endings.{Ended}
use mrksvnup.Proto.Client.Offers.{exchange, length-exchange}
use mrksvnup.Proto.Client.Login.{svnproto_check_auth-Ended}
use mrksvnup.Proto.Editor.{Host, Editing, W}
use mrksvnup.Proto.Editor.Dispatch.{Memory, loop_ended, shadow_opened, svnproto_editor}
use mrksvnup.Proto.Editor.Edits.{EditCommand, number_of, command_row, edit_rows, close_edit_row}
use mrksvnup.Proto.Editor.Meaning.{Effect, Edits, started}
use mrksvnup.Proto.Editor.Refines.{commands_unpacked-Edits, commands_unpacked-fails}

module _ (h : Host) (text_in : h.peer.output.Out → Bytes) (lawful : IsOutput h.peer.output text_in)
    (Ahead : h.peer.reader.R → List Token → Type 0)
    (At : h.peer.reader.R → Token → List Token → Type 0)
    (laws : IsReader h.peer.reader Ahead At) where
  open h use {peer, system}
  open peer use {fuel}

  -- What holds of an output error, and of all that follows the authentication, holds of the function.
  pub behind_auth :
      (P : Result peer (Editing (W h)) → Type 0) (mechs : List Bytes) (realm : Bytes)
      (ts : List Token) (c : Ctx peer) (a : Editing (W h)) (x : Edit (W h))
      → svnedit_init_shadow_ctx system a.edit ≡ ok (0, x)
      → Ahead c.inp (exchange mechs realm ts)
      → length (exchange mechs realm ts) ≤ fuel
      → ((k : ℕ) → P (lost (other k)))
      → ((c' : Ctx peer)
          → Ahead c'.inp ts
          → P (shadow_opened h c' (started h a a.edit) (ok (0, x))))
      → P (svnproto_editor h c a)
  unfolding svnproto_editor checked_call
  behind_auth P mechs realm ts c a x shadow ahead enough lost_ then_ =
      elim (svnproto_check_auth-Ended peer text_in lawful Ahead At laws mechs realm ts c a ahead
        enough) [
          | inl (k, e) ↦ rw (e) (lost_ 24)
          | inr (c', a', e, (same, left, flag)) ↦ rw (e, same, shadow) (then_ c' left)
        ]

  -- Where the flag COMMAND_CLOSING is not set, the tokens that come next are an authentication, with
  -- an empty challenge for each ANONYMOUS, then the commands of an edit and its end, no more tokens
  -- than the fuel, the shadow connection is made, and from there the editor does the commands one after
  -- the other, each with the result 0: `svnproto_editor` ends with an error of the output side, or it
  -- returns 0, with the editor as the commands leave it and the shadow connection closed, the flag
  -- set, and what follows the end comes next.
  pub svnproto_editor-Edits :
      (mechs : List Bytes) (realm : Bytes) (cs : List EditCommand) (ts : List Token) (c : Ctx peer)
      (a : Editing (W h)) (x x' : Edit (W h))
      → a.is_closing ≡ false
      → svnedit_init_shadow_ctx system a.edit ≡ ok (0, x)
      → Edits h cs x x'
      → Ahead c.inp (exchange mechs realm (edit_rows cs (close_edit_row ts)))
      → length (exchange mechs realm (edit_rows cs (close_edit_row ts))) ≤ fuel
      → Ended peer (svnproto_editor h c a) (λ c' a'.
        (a'.edit ≡ svnedit_close_shadow_ctx system x') × (a'.is_closing ≡ true) × Ahead c'.inp ts)
  unfolding shadow_opened loop_ended
  svnproto_editor-Edits mechs realm cs ts c a x x' opens shadow edits ahead enough =
      let rows = edit_rows cs (close_edit_row ts) in
      let room = length-exchange mechs realm rows in
      behind_auth
        (λ m. Ended peer m (λ c' a'.
          (a'.edit ≡ svnedit_close_shadow_ctx system x')
          × (a'.is_closing ≡ true)
          × Ahead c'.inp ts))
        mechs realm rows c a x shadow ahead enough (λ k. inl (k, refl))
        (λ c' left.
          let s : Memory h = record { last_error = c'.last_error; mine = started h a x } in
          let (r', e, left') =
            commands_unpacked-Edits h Ahead At laws cs ts x' c'.inp s opens refl edits left
              (omega arith) in
          let closed = svnedit_close_shadow_ctx system x' in
          inr (
            record c' { inp = r' },
            record a { edit = closed; cmd = none; is_closing = true },
            rw (e) refl,
            (refl, refl, left'),
          ))

  -- Where the flag COMMAND_CLOSING is not set, the tokens that come next are an authentication, with
  -- an empty challenge for each ANONYMOUS, then commands, no more tokens than the fuel, the shadow
  -- connection is made, and from there the editor does the commands one after the other with the
  -- result 0, up to one that it does with a result above 0: `svnproto_editor` ends with an error of
  -- the output side, or it returns the error of that command, with the editor as the command leaves
  -- it and the shadow connection closed; the tokens behind the command's parameters are left.
  pub svnproto_editor-fails :
      (mechs : List Bytes) (realm : Bytes) (cs : List EditCommand) (e : EditCommand)
      (ts : List Token) (k : ℕ) (c : Ctx peer) (a : Editing (W h)) (x x' x'' : Edit (W h))
      → a.is_closing ≡ false
      → svnedit_init_shadow_ctx system a.edit ≡ ok (0, x)
      → Edits h cs x x'
      → Effect h e x' (suc k) x''
      → Ahead c.inp (exchange mechs realm (edit_rows cs (command_row e ts)))
      → length (exchange mechs realm (edit_rows cs (command_row e ts))) ≤ fuel
      → ((j : ℕ) × (svnproto_editor h c a ≡ lost (other j)))
        ⊎ ((c' : Ctx peer) × (a' : Editing (W h)) × (svnproto_editor h c a
              ≡ returned (other (number_of e)) c' a')
            × (a'.edit ≡ svnedit_close_shadow_ctx system x'')
            × Ahead c'.inp (close_list ∷ ts))
  unfolding shadow_opened loop_ended
  svnproto_editor-fails mechs realm cs e ts k c a x x' x'' opens shadow edits fails ahead enough =
      let rows = edit_rows cs (command_row e ts) in
      let room = length-exchange mechs realm rows in
      behind_auth
        (λ m.
          ((j : ℕ) × (m ≡ lost (other j)))
          ⊎ ((c' : Ctx peer) × (a' : Editing (W h)) × (m ≡ returned (other (number_of e)) c' a')
              × (a'.edit ≡ svnedit_close_shadow_ctx system x'')
              × Ahead c'.inp (close_list ∷ ts)))
        mechs realm rows c a x shadow ahead enough (λ k. inl (k, refl))
        (λ c' left.
          let s : Memory h = record { last_error = c'.last_error; mine = started h a x } in
          let (r', eq, left') =
            commands_unpacked-fails h Ahead At laws cs e ts k x' x'' c'.inp s opens refl edits fails
              left (omega arith) in
          let closed = svnedit_close_shadow_ctx system x'' in
          inr (record c' { inp = r' }, started h a closed, rw (eq) refl, refl, left'))
