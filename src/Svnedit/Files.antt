-- ===== src/Svnedit/Files.antt =====
-- The functions of src/svnedit.c on the file that is edited, but for the closing.
use mrksvnup.Base.{
  ℕ, zero, suc, ◌+◌, true, if◌then◌else◌, List, [], ◌∷◌, ◌++◌, Bytes, codes, equal, Option, none,
  some, ℤ, pos, negsuc, ltb_ℤ, ok, fault, length,
}
use mrksvnup.Proto.Client.Files.{Prop, Fileent}
use mrksvnup.Svndiff.Doc.{ParseState, Doc, wnds, svndiff_doc_init, no_flags}
use mrksvnup.Svnedit.System.{
  truncate, System, Settings, Edit, Edited, ending, or_result, or_abort, checked_result,
}
use mrksvnup.Svnedit.Links.{link_target}
use mrksvnup.Svnedit.Entries.{file_or_link, on_world}

unfoldable pub svnedit_clear_doc : {W : Type 0} → Edit W → Edit W
svnedit_clear_doc x = record x { doc = svndiff_doc_init }

-- The descriptor is closed, the fields have their initial values again, and the arrays have what
-- `array_fini` leaves in them. `current_wnd` is not written in C, where it points into the array that is
-- gone: it is the last window of no array, and nothing reads it before `array_incr` sets it.
unfoldable pub svndiff_doc_fini : (sys : System) → Edit sys.W → Edit sys.W
svndiff_doc_fini sys x = record x {
  doc = record x.doc {
    version = negsuc 0;
    parse_state = ParseState.version;
    current_wnd = none;
    base_checksum = none;
    rp = none;
    lp = none;
    rev = negsuc 0;
    ft = none;
    fd = negsuc 0;
    mode = 0o644;
    finished = sys.fini_wnds (wnds x.doc);
    txdelta = sys.fini_chars x.doc.txdelta;
    flags = no_flags;
  };
  world = elim x.doc.fd [
    | pos n ↦ sys.close (pos n) x.world
    | negsuc zero ↦ x.world
    | negsuc (suc n) ↦ sys.close (negsuc (suc n)) x.world
  ];
}

-- `mod` and `flags` by the property for executable files.
abbrev pub with_mode : Option Bytes → Doc → Doc
with_mode value d = record d {
  mode = elim value [ none ↦ 0o644 | some v ↦ 0o755 ];
  flags = record d.flags { mod_set = true };
}

abbrev pub with_link : Doc → Doc
with_link d = record d { flags = record d.flags { symlink_set = true } }

unfoldable pub svnedit_change_file_prop :
    {W : Type 0} → Option Bytes → Option Bytes → Edit W → Edited (Edit W)
svnedit_change_file_prop none value x = fault
svnedit_change_file_prop (some name) value x =
    let d = if equal name (codes "svn:executable") then with_mode value x.doc else x.doc in
    ok (0, record x { doc = if equal name (codes "svn:special") then with_link d else d })

-- The chunks in a row.
abbrev pub joined_chunks : List Bytes → Bytes
joined_chunks [] = []
joined_chunks (s ∷ ss) = s ++ joined_chunks ss

module _ (sys : System) (c : Settings) where
  open sys use {W}

  unfoldable pub svnedit_add_file : Edit W → Edited (Edit W)
  svnedit_add_file x = elim (sys.path_join c.localroot x.doc.rp) [
    | none ↦ ok (1, record x { doc = record x.doc { lp = none } })
    | some lp ↦
        let d = record x.doc { lp = some lp } in
        elim (sys.lstat lp x.world) [
          | none ↦ ok (0, record x { doc = d })
          | some kind ↦
              file_or_link
                (ok (
                  0,
                  record x { doc = record d { flags = record d.flags { maybe_dirty = true } } },
                ))
                (ok (2, record x { doc = d })) kind
        ]
  ]

  -- The chunks in a row, and their length.
  unfoldable pub write_loop : ℤ → List Bytes → ℕ → W → (ℕ → W → Edited W) → Edited W
  write_loop fd [] total w next = next total w
  write_loop fd (s ∷ ss) total w next =
      or_abort (sys.write fd s w) λ w'. write_loop fd ss (total + length s) w' next

  unfoldable pub create_file : Doc → Fileent → W → Edited W
  create_file doc fe w =
      let (fd, w') = sys.open_path doc.lp truncate doc.mode w in
      if ltb_ℤ fd (pos 0)
      then ok (1, w')
      else or_abort (sys.rewind fd w') λ w1. write_loop fd fe.contents 0 w1 λ total w2.
        or_abort (sys.ftruncate fd total w2) λ w3.
          or_abort (sys.rewind fd w3)
            λ w4. or_abort (sys.fchmod fd doc.mode w4) λ w5. ok (0, sys.close fd w5)

  -- The element that `array_incr` adds stands in front of the zero byte, which is written behind the
  -- last element, where the array is taken to have room.
  unfoldable pub create_symlink : Doc → Fileent → W → Edited W
  create_symlink doc fe w = elim (link_target (joined_chunks fe.contents ++ sys.fresh ∷ 0 ∷ [])) [
    | none ↦ ok (1, w)
    | some target ↦ or_result 2 (sys.symlink target doc.lp w) λ w'. ok (0, w')
  ]

  -- The properties of a file that is checked out. A name that is NULL is not compared.
  unfoldable pub props_loop : List Prop → Doc → Option Doc
  props_loop [] d = some d
  props_loop (p ∷ ps) d = elim p.name [
    | none ↦ none
    | some name ↦
        let d1 = if equal name c.executable_prop_name then with_mode p.value d else d in
        props_loop ps (if equal name c.special_prop_name then with_link d1 else d1)
  ]

  -- The file is made, as the flags say.
  unfoldable pub created : Fileent → Edit W → Edited (Edit W)
  created fe x =
      if x.doc.flags.symlink_set
      then on_world sys c x
          (checked_result 2 (λ w. w) (create_symlink x.doc fe x.world) λ w. ok (0, w))
      else on_world sys c x
          (checked_result 3 (λ w. w) (create_file x.doc fe x.world) λ w. ok (0, w))

  unfoldable pub checkout_file : ℤ → Edit W → Edited (Edit W)
  checkout_file rev x = ending (sys.get_file x.doc.rp rev x.world) λ got.
      let (success, fe, w) = got in
      if success
      then (elim (props_loop fe.props (record x.doc { flags = no_flags })) [
        | none ↦ fault
        | some d ↦ created fe (record x { doc = d; world = w })
      ])
      else ok (1, record x { world = w })

  unfoldable pub svnedit_open_file : Edit W → Edited (Edit W)
  svnedit_open_file x = elim (sys.path_join c.localroot x.doc.rp) [
    | none ↦ ok (1, record x { doc = record x.doc { lp = none } })
    | some lp ↦
        let x' = record x { doc = record x.doc { lp = some lp } } in
        elim (sys.lstat lp x.world) [
          | none ↦ checked_result 3 (λ x. x) (checkout_file x'.doc.rev x') λ x''. ok (0, x'')
          | some kind ↦ file_or_link (ok (0, x')) (ok (2, x')) kind
        ]
  ]
