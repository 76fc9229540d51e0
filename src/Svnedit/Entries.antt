-- ===== src/Svnedit/Entries.antt =====
-- The functions of src/svnedit.c on the entries of directories.
use mrksvnup.Base.{
  ℕ, zero, suc, Bool, if◌then◌else◌, Bytes, Option, none, some, ℤ, ok, fail, fault, stuck,
}
use mrksvnup.Svnedit.System.{
  FileKind, regular, directory, symbolic_link, System, Settings, Edit, Edited, ending, or_result,
}
use mrksvnup.Svnedit.Checksum.{svnc_delete_checksum}

-- `S_ISDIR`, `S_ISREG` and `S_ISLNK` of what `lstat` has found.
abbrev pub dir_or : {A : Type 0} → A → A → FileKind → A
dir_or then_ else_ directory = then_
dir_or then_ else_ _ = else_

abbrev pub file_or_link : {A : Type 0} → A → A → FileKind → A
file_or_link then_ else_ regular = then_
file_or_link then_ else_ symbolic_link = then_
file_or_link then_ else_ _ = else_

unfoldable pub svnedit_target_rev : {W : Type 0} → ℤ → Edit W → Edited (Edit W)
svnedit_target_rev rev x = ok (0, record x { target_rev = rev })

module _ (sys : System) (c : Settings) where
  open sys use {W}

  -- A function of the world, on the editor.
  abbrev pub on_world : Edit W → Edited W → Edited (Edit W)
  on_world x (ok (k, w)) = ok (k, record x { world = w })
  on_world x (fail k) = fail k
  on_world x fault = fault
  on_world x stuck = stuck

  unfoldable pub svnedit_open_root : ℤ → Option Bytes → Edit W → Edited (Edit W)
  svnedit_open_root rev token x = on_world x (elim (sys.lstat c.localroot x.world) [
    | none ↦ or_result 1 (sys.mkdir c.localroot 0o755 x.world) λ w. ok (0, w)
    | some kind ↦ dir_or (ok (0, x.world)) (ok (2, x.world)) kind
  ])

  -- The call's error is `k`.
  abbrev pub result_or : ℕ → Bool × W → ℕ × W
  result_or k (b, w) = (if b then 0 else k, w)

  -- `path_join` may fail, in the callback with the result 1.
  unfoldable pub delete_entry_cb : Bytes → Option Bytes → W → ℕ × W
  delete_entry_cb path (some name) w = elim (sys.path_join path (some name)) [
    | none ↦ (1, w)
    | some fname ↦ result_or 1 (sys.unlink (some fname) w)
  ]
  delete_entry_cb path none w = result_or 2 (sys.rmdir (some path) w)

  -- What follows a walk that did not delete all: the path may be a file.
  unfoldable pub delete_file : Bytes → W → Edited W
  delete_file localpath w = elim (sys.lstat localpath w) [
    | none ↦ ok (0, w)
    | some kind ↦
        file_or_link (or_result 2 (sys.unlink (some localpath) w) λ w'. ok (0, w')) (ok (0, w)) kind
  ]

  unfoldable pub entry_deleted : Bytes → ℕ × W → Edited W
  entry_deleted localpath (zero, w) = ok (0, w)
  entry_deleted localpath (suc n, w) = delete_file localpath w

  -- The checksum goes too, where the file has; a failure of that is ignored.
  unfoldable pub checksum_deleted : Option Bytes → Edited W → Edited W
  checksum_deleted path (ok (zero, w)) = elim (svnc_delete_checksum sys path w) [
    | ok (k, w') ↦ ok (0, w')
    | fail k ↦ fail k
    | fault ↦ fault
    | stuck ↦ stuck
  ]
  checksum_deleted path (ok (suc k, w)) = ok (suc k, w)
  checksum_deleted path (fail k) = fail k
  checksum_deleted path fault = fault
  checksum_deleted path stuck = stuck

  unfoldable pub svnedit_delete_entry : Option Bytes → ℤ → Option Bytes → Edit W → Edited (Edit W)
  svnedit_delete_entry path rev token x = on_world x (elim (sys.path_join c.localroot path) [
    | none ↦ ok (1, x.world)
    | some localpath ↦
        checksum_deleted path
          (ending (sys.traverse_dir localpath delete_entry_cb x.world) (entry_deleted localpath))
  ])

  unfoldable pub svnedit_add_dir : Option Bytes → Edit W → Edited (Edit W)
  svnedit_add_dir path x = on_world x (elim (sys.path_join c.localroot path) [
    | none ↦ ok (1, x.world)
    | some localpath ↦ elim (sys.lstat localpath x.world) [
      | none ↦ or_result 2 (sys.mkdir localpath 0o755 x.world) λ w. ok (0, w)
      | some kind ↦ dir_or (ok (0, x.world)) (ok (3, x.world)) kind
    ]
  ])

  -- A link is opened where it leads to a directory.
  unfoldable pub opened_as : Bytes → FileKind → W → Edited W
  opened_as localpath directory w = ok (0, w)
  opened_as localpath symbolic_link w = elim (sys.stat localpath w) [
    | none ↦ ok (3, w)
    | some kind ↦ dir_or (ok (0, w)) (ok (4, w)) kind
  ]
  opened_as localpath _ w = ok (5, w)

  unfoldable pub svnedit_open_dir : Option Bytes → Edit W → Edited (Edit W)
  svnedit_open_dir path x = on_world x (elim (sys.path_join c.localroot path) [
    | none ↦ ok (1, x.world)
    | some localpath ↦ elim (sys.lstat localpath x.world) [
      | none ↦ or_result 2 (sys.mkdir localpath 0o755 x.world) λ w. ok (0, w)
      | some kind ↦ opened_as localpath kind x.world
    ]
  ])
