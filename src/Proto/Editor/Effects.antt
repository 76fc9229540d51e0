-- ===== src/Proto/Editor/Effects.antt =====
-- Every command, read and done.
use mrksvnup.Base.{
  ℕ, ◌+◌, ◌++◌, ok, ◌≤◌, ◌≡◌, refl, ap, List, [], ◌∷◌, Bytes, some, length, equal, pos, arith,
}
use mrksvnup.Svndiff.Doc.{Doc}
use mrksvnup.Svndiff.Parse.{svndiff_parse_doc}
use mrksvnup.Svnedit.System.{Edit}
use mrksvnup.Svnedit.Entries.{svnedit_target_rev}
use mrksvnup.Proto.Unpack.{long, success, unpacked}
use mrksvnup.Proto.Unpack.Tokens.{Token, string, open_list, close_list, IsReader}
use mrksvnup.Proto.Unpack.Formats.{
  open_item, close_item, one, numbers, spec_text, finished, opened, closed, taken,
}
use mrksvnup.Proto.Unpack.Stores.{written, stores}
use mrksvnup.Proto.Unpack.Matches.{svnproto_vunpack-Reads}
use mrksvnup.Proto.Unpack.Nested.{string_call}
use mrksvnup.Proto.Client.{long_of, text_of}
use mrksvnup.Proto.Editor.{Host, no_vars, Frame, W, with_edit, framed, unpacked_vars, edited}
use mrksvnup.Proto.Editor.Commands.{chunk_cb, textdelta_chunk}
use mrksvnup.Proto.Editor.Dispatch.{
  Memory, failing_as, target_revision, bare_command, other_command, file_command, run_command,
}
use mrksvnup.Proto.Editor.Edits.{
  EditCommand, to_target_rev, to_open_root, to_delete_entry, to_add_dir, to_open_dir,
  to_change_dir_prop, to_close_dir, to_absent_dir, to_add_file, to_open_file, to_apply_textdelta,
  to_textdelta_chunk, to_textdelta_end, to_change_file_prop, to_close_file, to_absent_file,
  to_abort_edit, to_finish_replay, name_of, parameters, number_of,
}
use mrksvnup.Proto.Editor.Meaning.{Effect, code_of}
use mrksvnup.Proto.Editor.Handled.{put_var, vars_read}
use mrksvnup.Proto.Editor.DirEffects
use mrksvnup.Proto.Editor.FileEffects

module _ (h : Host) (Ahead : h.peer.reader.R → List Token → Type 0)
    (At : h.peer.reader.R → Token → List Token → Type 0)
    (laws : IsReader h.peer.reader Ahead At) where
  open h use {peer, behind, uncompress}
  open peer use {reader, fuel}

  target_rev-Effect :
      (n : ℕ) (ts : List Token) (r : reader.R) (s : Memory h)
      → Ahead r (parameters (to_target_rev n) ts)
      → length (parameters (to_target_rev n) ts) ≤ fuel
      → (r' : reader.R) × (target_revision h r s
          ≡ unpacked success r' (with_edit h (record s.mine.edit { target_rev = pos n }) s))
        × Ahead r' ts
  unfolding target_revision parameters spec_text stores written edited svnedit_target_rev
  target_rev-Effect n ts r s ahead enough =
      vars_read h Ahead At laws (open_item ∷ one numbers ∷ close_item ∷ [])
        (put_var (λ v x. record x { rev = long_of v }) ∷ []) _ ((long n ∷ []) ∷ []) ts 2 r s _
        (opened (taken refl (closed finished))) ahead enough

  pub bare_command-Effect :
      (n : ℕ) (ts : List Token) (r : reader.R) (s : Memory h)
      → Ahead r (open_list ∷ close_list ∷ ts)
      → length ts + 2 ≤ fuel
      → (r' : reader.R) × (bare_command h n r s ≡ unpacked success r' s) × Ahead r' ts
  unfolding bare_command failing_as spec_text stores
  bare_command-Effect n ts r s ahead enough =
      let (r', e, ahead') =
        svnproto_vunpack-Reads reader Ahead At laws (Memory h) (open_item ∷ close_item ∷ [])
          (λ i v s. s) (open_list ∷ close_list ∷ ts) [] success ts fuel r s
          (opened (closed finished)) ahead (omega arith) in
      (r', ap (failing_as h n) e, ahead')

  -- The string of a chunk is parsed into the document.
  chunk_cb-parses :
      (token chunk : Bytes) (ts : List Token) (doc : Doc) (r : reader.R) (f : Frame (W h))
      → ((rest : Bytes)
          → svndiff_parse_doc uncompress (chunk ++ rest, length chunk) f.held.mine.edit.doc
            ≡ ok doc)
      → At r (string chunk) ts
      → chunk_cb h r f
        ≡ some (
          success,
          r,
          record f { held = with_edit h (record f.held.mine.edit { doc = doc }) f.held },
        )
  unfolding chunk_cb
  chunk_cb-parses token chunk ts doc r f parsed at =
      rw (laws.chunk_lem r chunk ts at, parsed (behind r), chunk_cb)

  textdelta_chunk-Effect :
      (token chunk : Bytes) (ts : List Token) (doc : Doc) (r : reader.R) (s : Memory h)
      → ((rest : Bytes)
          → svndiff_parse_doc uncompress (chunk ++ rest, length chunk) s.mine.edit.doc ≡ ok doc)
      → Ahead r (parameters (to_textdelta_chunk token chunk) ts)
      → (r' : reader.R) × (failing_as h 14 (textdelta_chunk h r s)
          ≡ unpacked success r' (with_edit h (record s.mine.edit { doc = doc }) s))
        × Ahead r' ts
  unfolding textdelta_chunk parameters unpacked_vars framed failing_as
  textdelta_chunk-Effect token chunk ts doc r s parsed ahead =
      let start : Frame (W h) = record { vars = no_vars; held = s } in
      let read : Frame (W h) = record start { vars = record no_vars { token = some token } } in
      let (r', e, ahead') =
        string_call reader Ahead At laws (Frame (W h))
          (put_var (λ v x. record x { token = text_of v })) (chunk_cb h) token chunk ts fuel r start
          (record read { held = with_edit h (record s.mine.edit { doc = doc }) s }) ahead
          (λ r1 at. chunk_cb-parses token chunk (close_list ∷ ts) doc r1 read parsed at) in
      (r', rw (e), ahead')

  -- Where the parameters of a command come next: the command is done, and its result told, and what
  -- follows them comes next.
  pub command-Effect :
      (c : EditCommand) (ts : List Token) (k : ℕ) (x' : Edit (W h)) (r : reader.R) (s : Memory h)
      → Effect h c s.mine.edit k x'
      → Ahead r (parameters c ts)
      → length (parameters c ts) ≤ fuel
      → (r' : reader.R) × (run_command h (name_of c) r s
          ≡ unpacked (code_of (number_of c) k) r' (with_edit h x' s))
        × Ahead r' ts
  unfolding run_command file_command other_command equal Effect parameters
  command-Effect (to_target_rev n) ts k x' r s does ahead enough =
      let (r', e, ahead') = target_rev-Effect n ts r s ahead enough in
      (r', rw (does.0, does.1) e, ahead')
  command-Effect (to_textdelta_chunk token chunk) ts k x' r s does ahead enough =
      let (doc, parsed, succeeds, same) = does in
      let (r', e, ahead') = textdelta_chunk-Effect token chunk ts doc r s parsed ahead in
      (r', rw (succeeds, same) e, ahead')
  command-Effect to_abort_edit ts k x' r s does ahead enough =
      let (r', e, ahead') = bare_command-Effect 20 ts r s ahead (omega arith) in
      (r', rw (does.0, does.1) e, ahead')
  command-Effect to_finish_replay ts k x' r s does ahead enough =
      let (r', e, ahead') = bare_command-Effect 21 ts r s ahead (omega arith) in
      (r', rw (does.0, does.1) e, ahead')
  command-Effect (to_open_root rev token) ts k x' r s does ahead enough =
      DirEffects.open_root-Effect h Ahead At laws rev token ts k x' r s does ahead enough
  command-Effect (to_delete_entry path rev token) ts k x' r s does ahead enough =
      DirEffects.delete_entry-Effect h Ahead At laws path rev token ts k x' r s does ahead enough
  command-Effect (to_add_dir path parent child copy) ts k x' r s does ahead enough =
      DirEffects.add_dir-Effect h Ahead At laws path parent child copy ts k x' r s does ahead enough
  command-Effect (to_open_dir path parent child rev) ts k x' r s does ahead enough =
      DirEffects.open_dir-Effect h Ahead At laws path parent child rev ts k x' r s does ahead enough
  command-Effect (to_change_dir_prop token name value) ts k x' r s does ahead enough =
      DirEffects.change_dir_prop-Effect h Ahead At laws token name value ts k x' r s does ahead
        enough
  command-Effect (to_close_dir token) ts k x' r s does ahead enough =
      DirEffects.close_dir-Effect h Ahead At laws token ts k x' r s does ahead enough
  command-Effect (to_absent_dir path parent) ts k x' r s does ahead enough =
      DirEffects.absent_dir-Effect h Ahead At laws path parent ts k x' r s does ahead enough
  command-Effect (to_add_file path dir token copy) ts k x' r s does ahead enough =
      FileEffects.add_file-Effect h Ahead At laws path dir token copy ts k x' r s does ahead enough
  command-Effect (to_open_file path dir token rev) ts k x' r s does ahead enough =
      FileEffects.open_file-Effect h Ahead At laws path dir token rev ts k x' r s does ahead enough
  command-Effect (to_apply_textdelta token base) ts k x' r s does ahead enough =
      FileEffects.apply_textdelta-Effect h Ahead At laws token base ts k x' r s does ahead enough
  command-Effect (to_textdelta_end token) ts k x' r s does ahead enough =
      FileEffects.textdelta_end-Effect h Ahead At laws token ts k x' r s does ahead enough
  command-Effect (to_change_file_prop token name value) ts k x' r s does ahead enough =
      FileEffects.change_file_prop-Effect h Ahead At laws token name value ts k x' r s does ahead
        enough
  command-Effect (to_close_file token checksum) ts k x' r s does ahead enough =
      FileEffects.close_file-Effect h Ahead At laws token checksum ts k x' r s does ahead enough
  command-Effect (to_absent_file path parent) ts k x' r s does ahead enough =
      FileEffects.absent_file-Effect h Ahead At laws path parent ts k x' r s does ahead enough
