-- ===== src/Svnedit/Close.antt =====
-- `svnedit_close_file` of src/svnedit.c: its steps, from the opening of the file to `EDIT_COMPLETE`.
use mrksvnup.Base.{
  ℕ, zero, suc, ◌==◌, Bool, true, false, if◌then◌else◌, List, [], ◌∷◌, Bytes, equal, Option, none,
  some, ℤ, pos, negsuc, Outcome, ok, fail, fault, stuck, length,
}
use mrksvnup.Svndiff.Doc.{Wnd, wnds}
use mrksvnup.Svndiff.Tview.{svndiff_build_tview}
use mrksvnup.Svnedit.System.{existing, System, Settings, Edit, Edited, or_abort}
use mrksvnup.Svnedit.Checksum.{svnedit_verify_checksum}
use mrksvnup.Svnedit.Files.{checkout_file}

-- The descriptor is -1.
abbrev pub is_closed : ℤ → Bool
is_closed (negsuc zero) = true
is_closed _ = false

-- The tokens of the command and of the document are there and differ.
unfoldable pub other_token : Option Bytes → Option Bytes → Bool
other_token (some token) (some ft) = if equal token ft then false else true
other_token _ _ = false

-- The bytes that a window's view has; one that was not filled is indeterminate.
unfoldable pub view_bytes : Wnd → Option Bytes
view_bytes w = elim w.tview [
  | none ↦ none
  | some b ↦ elim w.tview_len [ pos n ↦ if length b == n then some b else none | negsuc n ↦ none ]
]

unfoldable pub views_bytes : List Wnd → Option (List Bytes)
views_bytes [] = some []
views_bytes (w ∷ ws) =
    let rest = views_bytes ws in
    elim (view_bytes w) [
      | none ↦ none
      | some b ↦ elim rest [ none ↦ none | some bs ↦ some (b ∷ bs) ]
    ]

module _ (sys : System) (c : Settings) where
  open sys use {W, md5}

  -- `close(doc.fd); doc.fd = -1;`
  unfoldable pub descriptor_closed : Edit W → Edit W
  descriptor_closed x = record x {
    doc = record x.doc { fd = negsuc 0 };
    world = sys.close x.doc.fd x.world;
  }

  abbrev pub with_dirty : Bool → Edit W → Edit W
  with_dirty b x = record x {
    doc = record x.doc { flags = record x.doc.flags { maybe_dirty = b } };
  }

  -- How the parts of the function end: at `EDIT_COMPLETE`, with the next part, or at `END` with a
  -- result.
  pub data Part : Type 0 where
    complete next_part : Edit W → Part
    end_with : ℕ → Edit W → Part

  -- A copy of the target revision takes the place of the file.
  unfoldable pub clean_copy : ℕ → Bool → Edit W → Outcome Part
  clean_copy k clear x = elim (checkout_file sys c x.target_rev x) [
    | ok (zero, x') ↦ ok (complete (if clear then with_dirty false x' else x'))
    | ok (suc n, x') ↦ ok (end_with k x')
    | fail n ↦ fail n
    | fault ↦ fault
    | stuck ↦ stuck
  ]

  -- The base does not match, and the file is not the target.
  unfoldable pub replaced : Edit W → Outcome Part
  replaced x =
      let closed = descriptor_closed x in
      if c.tolerant then ok (complete (with_dirty true closed)) else clean_copy 2 true closed

  -- The file has the checksum, or it has not.
  unfoldable pub verified_as :
      Edit W → (Edit W → Outcome Part) → (Edit W → Outcome Part) → Edited W → Outcome Part
  verified_as x then_ else_ (ok (zero, w)) = then_ (record x { world = w })
  verified_as x then_ else_ (ok (suc n, w)) = else_ (record x { world = w })
  verified_as x then_ else_ (fail n) = fail n
  verified_as x then_ else_ fault = fault
  verified_as x then_ else_ stuck = stuck

  abbrev pub verified :
      Bytes → Edit W → (Edit W → Outcome Part) → (Edit W → Outcome Part) → Outcome Part
  verified cs x then_ else_ =
      verified_as x then_ else_ (svnedit_verify_checksum sys x.doc.fd cs x.world)

  -- Neither the base nor, where there is one, the checksum of the target matches.
  unfoldable pub base_differs : Option Bytes → Edit W → Outcome Part
  base_differs none x = replaced x
  base_differs (some text) x = verified text x (λ x. ok (complete x)) replaced

  -- An add-file in the place of a file, which goes unless it is the target.
  unfoldable pub place_taken : Option Bytes → Edit W → Outcome Part
  place_taken none x = ok (next_part x)
  place_taken (some text) x =
      verified text x (λ x. ok (complete x))
        λ x.
          let closed = descriptor_closed x in
          or_abort (sys.unlink closed.doc.lp closed.world)
            λ w. ok (next_part (record closed { world = w }))

  -- The file is there: an open-file, which has the checksum of the base, or an add-file.
  unfoldable pub source_verified : Option Bytes → Edit W → Option Bytes → Outcome Part
  source_verified text_checksum x (some base) =
      verified base x (λ x. ok (next_part x)) (base_differs text_checksum)
  source_verified text_checksum x none = place_taken text_checksum x

  unfoldable pub source_found : Option Bytes → Edit W → ℤ × W → Outcome Part
  source_found text_checksum x (pos n, w) =
      source_verified text_checksum (record x { doc = record x.doc { fd = pos n }; world = w })
        x.doc.base_checksum
  source_found text_checksum x (negsuc n, w) =
      ok (next_part (record x { doc = record x.doc { fd = negsuc n }; world = w }))

  unfoldable pub source_opened : Option Bytes → Edit W → Outcome Part
  source_opened text_checksum x =
      source_found text_checksum x (sys.open_path x.doc.lp existing 0 x.world)

  -- The windows with their views, up to one that fails: `true` where none does.
  unfoldable pub views_loop : W → ℤ → List Wnd → Outcome (Bool × List Wnd)
  views_loop w fd [] = ok (true, [])
  views_loop w fd (wnd ∷ ws) =
      let rest = views_loop w fd ws in
      elim (svndiff_build_tview (sys.pread w fd) wnd) [
        | ok wnd' ↦ elim rest [
          | ok (b, ws') ↦ ok (b, wnd' ∷ ws')
          | fail k ↦ fail k
          | fault ↦ fault
          | stuck ↦ stuck
        ]
        | fail k ↦ ok (false, wnd ∷ ws)
        | fault ↦ fault
        | stuck ↦ stuck
      ]

  -- The windows of the array change, and the last one is the current one of the parser no more.
  abbrev pub with_views : List Wnd → Edit W → Edit W
  with_views ws x = record x { doc = record x.doc { finished = ws; current_wnd = none } }

  unfoldable pub views_told : Edit W → Outcome (Bool × List Wnd) → Outcome Part
  views_told x (ok (true, ws)) = ok (next_part (with_views ws x))
  views_told x (ok (false, ws)) = ok (end_with 3 (with_views ws x))
  views_told x (fail k) = fail k
  views_told x fault = fault
  views_told x stuck = stuck

  unfoldable pub views_built : Edit W → Outcome Part
  views_built x = views_told x (views_loop x.world x.doc.fd (wnds x.doc))
