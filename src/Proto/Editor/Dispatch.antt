-- ===== src/Proto/Editor/Dispatch.antt =====
-- The dispatch of commands and the loop over them in src/svnproto_editor.c.
use mrksvnup.Base.{
  ℕ, zero, suc, true, if◌then◌else◌, [], ◌∷◌, Bytes, codes, equal, Option, none, some, Outcome, ok,
  fail,
}
use mrksvnup.Svnedit.System.{Edit, Edited}
use mrksvnup.Svnedit.Entries.{svnedit_target_rev}
use mrksvnup.Svnedit.Shadow.{svnedit_init_shadow_ctx, svnedit_close_shadow_ctx}
use mrksvnup.Proto.Unpack.{Code, success, nomatch, other, store, callback, unpacked, fault, stuck}
use mrksvnup.Proto.Unpack.Format.{svnproto_vunpack}
use mrksvnup.Proto.Client.{
  cleared, long_of, text_of, Held, Ctx, Result, returned, undefined, endless, checked_call,
}
use mrksvnup.Proto.Client.Response.{error_arguments, as_callback}
use mrksvnup.Proto.Client.Auth.{svnproto_check_auth}
use mrksvnup.Proto.Editor.{Host, Editing, W, Reply, into, unpacked_vars, edited}
use mrksvnup.Proto.Editor.Commands.{
  Handler, open_root, delete_entry, add_dir, open_dir, change_dir_prop, close_dir, absent_dir,
  add_file, open_file, apply_textdelta, textdelta_chunk, textdelta_end, change_file_prop,
  close_file, absent_file,
}

module _ (h : Host) where
  open h use {peer}
  open peer use {reader, fuel}

  -- The editor's memory, with the last error of the client.
  abbrev pub Memory : Type 0
  Memory = Held (Editing (W h))

  -- A function's error is `k`.
  unfoldable pub failing_as : ℕ → Reply h → Reply h
  failing_as k (unpacked success r s) = unpacked success r s
  failing_as k (unpacked (nomatch j) r s) = unpacked (other k) r s
  failing_as k (unpacked (other j) r s) = unpacked (other k) r s
  failing_as k fault = fault
  failing_as k stuck = stuck

  unfoldable pub target_revision : Handler h
  target_revision r s =
      unpacked_vars h 2 (codes "(n)") (into h (λ v x. record x { rev = long_of v }) ∷ []) r s
        (λ x r s. edited h 3 (svnedit_target_rev x.rev s.mine.edit) r s)

  -- A command without parameters.
  unfoldable pub bare_command : ℕ → Handler h
  bare_command k r s = failing_as k (svnproto_vunpack reader Memory fuel (codes "()") [] r s)

  -- `flags |= COMMAND_CLOSING`
  unfoldable pub closing_flagged : Reply h → Reply h
  closing_flagged (unpacked success r s) =
      unpacked success r (record s { mine = record s.mine { is_closing = true } })
  closing_flagged reply = reply

  unfoldable pub server_failure : Handler h
  server_failure r s = failing_as 22 (
      svnproto_vunpack reader Memory fuel (codes "((nssn))")
        (error_arguments reader fuel (Editing (W h))) r (record s { last_error = cleared }))

  -- The commands behind `absent-file`.
  unfoldable pub other_command : Bytes → Handler h
  other_command cmd r s =
      if equal cmd (codes "close-edit")
      then closing_flagged (bare_command 19 r s)
      else if equal cmd (codes "abort-edit")
      then bare_command 20 r s
      else if equal cmd (codes "finish-replay")
      then bare_command 21 r s
      else if equal cmd (codes "failure")
      then server_failure r s
      else unpacked (other 23) r s

  -- The commands on files.
  unfoldable pub file_command : Bytes → Handler h
  file_command cmd r s =
      if equal cmd (codes "add-file")
      then failing_as 11 (add_file h r s)
      else if equal cmd (codes "open-file")
      then failing_as 12 (open_file h r s)
      else if equal cmd (codes "apply-textdelta")
      then failing_as 13 (apply_textdelta h r s)
      else if equal cmd (codes "textdelta-chunk")
      then failing_as 14 (textdelta_chunk h r s)
      else if equal cmd (codes "textdelta-end")
      then failing_as 15 (textdelta_end h r s)
      else if equal cmd (codes "change-file-prop")
      then failing_as 16 (change_file_prop h r s)
      else if equal cmd (codes "close-file")
      then failing_as 17 (close_file h r s)
      else if equal cmd (codes "absent-file")
      then failing_as 18 (absent_file h r s)
      else other_command cmd r s

  -- The chain of tests of `unpack2`.
  unfoldable pub run_command : Bytes → Handler h
  run_command cmd r s =
      if equal cmd (codes "target-rev")
      then target_revision r s
      else if equal cmd (codes "open-root")
      then failing_as 4 (open_root h r s)
      else if equal cmd (codes "delete-entry")
      then failing_as 5 (delete_entry h r s)
      else if equal cmd (codes "add-dir")
      then failing_as 6 (add_dir h r s)
      else if equal cmd (codes "open-dir")
      then failing_as 7 (open_dir h r s)
      else if equal cmd (codes "change-dir-prop")
      then failing_as 8 (change_dir_prop h r s)
      else if equal cmd (codes "close-dir")
      then failing_as 9 (close_dir h r s)
      else if equal cmd (codes "absent-dir")
      then failing_as 10 (absent_dir h r s)
      else file_command cmd r s

  -- `END`: the name of the command is freed.
  abbrev pub cmd_freed : Memory → Memory
  cmd_freed s = record s { mine = record s.mine { cmd = none } }

  abbrev pub freed : Reply h → Reply h
  freed (unpacked code r s) = unpacked code r (cmd_freed s)
  freed fault = fault
  freed stuck = stuck

  -- A name that is NULL is not compared.
  unfoldable pub editor_unpack2 : reader.R → Memory → Option (Code × reader.R × Memory)
  editor_unpack2 r s = elim s.mine.cmd [
    | none ↦ none
    | some cmd ↦ as_callback reader fuel (Editing (W h)) (freed (run_command cmd r s))
  ]

  -- The result 0 of a command is the end of the loop once the edit is closed.
  unfoldable pub closing_checked : Reply h → Reply h
  closing_checked (unpacked success r s) =
      unpacked (if s.mine.is_closing then nomatch 101 else success) r s
  closing_checked reply = reply

  unfoldable pub editor_unpack1 : reader.R → Memory → Option (Code × reader.R × Memory)
  editor_unpack1 r s = as_callback reader fuel (Editing (W h)) (
      closing_checked (
        svnproto_vunpack reader Memory fuel (codes "(wr)")
          (store (some λ v s. record s { mine = record s.mine { cmd = text_of v } })
            ∷ callback (some editor_unpack2)
            ∷ [])
          r s))

  -- `SVNPROTO_IGNORE_VUNPACK`
  abbrev pub ignore_vunpack : Code → Code
  ignore_vunpack (nomatch k) = success
  ignore_vunpack code = code

  -- The loop over the commands.
  unfoldable pub commands_unpacked : reader.R → Memory → Reply h
  commands_unpacked r s =
      svnproto_vunpack reader Memory fuel (codes "r*") (callback (some editor_unpack1) ∷ []) r s

  abbrev pub shadow_closed : Editing (W h) → Editing (W h)
  shadow_closed a = record a { edit = svnedit_close_shadow_ctx h.system a.edit; cmd = none }

  -- What follows the loop.
  unfoldable pub loop_ended : Ctx peer → Reply h → Result peer (Editing (W h))
  loop_ended c (unpacked code r s) =
      returned (ignore_vunpack code) (record c { inp = r; last_error = s.last_error })
        (shadow_closed s.mine)
  loop_ended c fault = undefined
  loop_ended c stuck = endless

  -- What follows the shadow connection.
  unfoldable pub shadow_opened :
      Ctx peer → Editing (W h) → Edited (Edit (W h)) → Result peer (Editing (W h))
  shadow_opened c a (ok (zero, x)) =
      loop_ended c (
        commands_unpacked c.inp
          (record { last_error = c.last_error; mine = record a { edit = x } }))
  shadow_opened c a (ok (suc k, x)) = returned (other 25) c (record a { edit = x })
  shadow_opened c a (fail k) = undefined
  shadow_opened c a Outcome.fault = undefined
  shadow_opened c a Outcome.stuck = endless

  unfoldable pub svnproto_editor : Ctx peer → Editing (W h) → Result peer (Editing (W h))
  svnproto_editor c a =
      checked_call peer 24 (λ a. a) (svnproto_check_auth peer c a)
        λ c a.
          let a' = record a { cmd = none } in
          shadow_opened c a' (svnedit_init_shadow_ctx h.system a'.edit)
