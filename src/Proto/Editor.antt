-- ===== src/Proto/Editor.antt =====
-- The editor commands that a server sends: src/svnproto_editor.c.
pub mod Commands
pub mod Dispatch
pub mod Edits
pub mod Meaning
pub mod Lengths
pub mod Handled
pub mod Absent
pub mod DirEffects
pub mod FileEffects
pub mod Effects
pub mod Loop
pub mod Refines
pub mod Conversation
pub mod BrokenOff
pub mod Runs
use mrksvnup.Base.{
  ℕ, zero, suc, Bool, List, [], ◌∷◌, Bytes, Option, none, some, ℤ, pos, negsuc, Outcome, ok, fail,
}
use mrksvnup.Base
use mrksvnup.Svndiff.Section.{Uncompress}
use mrksvnup.Svndiff.Doc.{Doc}
use mrksvnup.Svnedit.System.{System, Settings, Edit, Edited}
use mrksvnup.Proto.Unpack.{
  Code, success, nomatch, other, Value, Argument, store, Unpacked, unpacked, fault, stuck,
}
use mrksvnup.Proto.Unpack.Format.{svnproto_vunpack}
use mrksvnup.Proto.Client.{Held, Peer}

-- What the commands work with: the client's side of the stream, the bytes that stand behind a range in its buffer, the
-- world of the editor, and the settings.
pub record Host : Type 1 where
  pub peer : Peer
  pub behind : peer.reader.R → Bytes
  pub uncompress : Uncompress
  pub system : System
  pub settings : Settings

-- The static variables: those of the editor, `cmd`, and the bit COMMAND_CLOSING of `flags`.
pub record Editing (W : Type 0) : Type 0 where
  pub edit : Edit W
  pub cmd : Option Bytes
  pub is_closing : Bool

-- The variables of a command's function, each with those that it declares.
pub record Vars : Type 0 where
  pub path : Option Bytes
  pub token : Option Bytes
  pub parent_token : Option Bytes
  pub child_token : Option Bytes
  pub copy_path : Option Bytes
  pub name : Option Bytes
  pub value : Option Bytes
  pub text_checksum : Option Bytes
  pub rev : ℤ
  pub copy_rev : ℤ

abbrev pub no_vars : Vars
no_vars = record {
  path = none;
  token = none;
  parent_token = none;
  child_token = none;
  copy_path = none;
  name = none;
  value = none;
  text_checksum = none;
  rev = negsuc 0;
  copy_rev = negsuc 0;
}

-- The memory that the format of a run_command writes.
pub record Frame (W : Type 0) : Type 0 where
  pub vars : Vars
  pub held : Held (Editing W)

module _ (h : Host) where
  open h use {peer, system}
  open peer use {reader, fuel}

  abbrev pub W : Type 0
  W = system.W

  -- How a function of the file ends.
  abbrev pub Reply : Type 0
  Reply = Unpacked reader (Held (Editing W))

  abbrev pub with_edit : Edit W → Held (Editing W) → Held (Editing W)
  with_edit x s = record s { mine = record s.mine { edit = x } }

  -- A store into a variable, and one into a field of the document.
  abbrev pub into : (Value → Vars → Vars) → Argument reader (Frame W)
  into put = store (some λ v f. record f { vars = put v f.vars })

  abbrev pub into_doc : (Value → Doc → Doc) → Argument reader (Frame W)
  into_doc put = store (
      some λ v f. record f {
        held = with_edit (record f.held.mine.edit { doc = put v f.held.mine.edit.doc }) f.held;
      })

  -- `if (res != 0) { res = K + k; goto END; }`
  unfoldable pub framed :
      ℕ → Unpacked reader (Frame W) → (Vars → reader.R → Held (Editing W) → Reply) → Reply
  framed k (unpacked success r f) next = next f.vars r f.held
  framed k (unpacked (nomatch j) r f) next = unpacked (other k) r f.held
  framed k (unpacked (other j) r f) next = unpacked (other k) r f.held
  framed k fault next = fault
  framed k stuck next = stuck

  -- `svnproto_unpack` into the variables of a function.
  unfoldable pub unpacked_vars :
      ℕ
      → Bytes
      → List (Argument reader (Frame W))
      → reader.R
      → Held (Editing W)
      → (Vars → reader.R → Held (Editing W) → Reply)
      → Reply
  unpacked_vars k spec args r s next =
      framed k
        (svnproto_vunpack reader (Frame W) fuel spec args r (record { vars = no_vars; held = s }))
        next

  -- `if (svnedit_...(...) != 0) { res = K + k; goto END; }`
  unfoldable pub edited : ℕ → Edited (Edit W) → reader.R → Held (Editing W) → Reply
  edited k (ok (zero, x)) r s = unpacked success r (with_edit x s)
  edited k (ok (suc n, x)) r s = unpacked (other k) r (with_edit x s)
  edited k (fail n) r s = fault
  edited k Outcome.fault r s = fault
  edited k Outcome.stuck r s = stuck
