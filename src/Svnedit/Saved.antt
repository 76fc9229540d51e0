-- ===== src/Svnedit/Saved.antt =====
-- How `svnedit_close_file` ends.
use mrksvnup.Base.{
  ℕ, zero, suc, ◌≡◌, ◌≢◌, refl, sym, ap, ◌∙◌, Bool, true, false, if◌then◌else◌, Bytes, Option, none,
  some, Outcome, ok, fail, fault, stuck, arith,
}
use mrksvnup.Svnedit.System.{System, Settings, Edit, Edited, or_result}
use mrksvnup.Svnedit.Checksum.{svnc_save_checksum}
use mrksvnup.Svnedit.Files.{svndiff_doc_fini}
use mrksvnup.Svnedit.Close.{
  is_closed, other_token, Part, complete, next_part, end_with, clean_copy, replaced, verified_as,
  base_differs, place_taken, source_verified, source_found, source_opened, views_told, views_built,
}
use mrksvnup.Svnedit.Paths.{path_of}
use mrksvnup.Svnedit.PathsKept.{parts-path}
use mrksvnup.Svnedit.Complete.{
  and_then, matching, views_compared, views_digested, target_verified, link_made, link_replaced,
  file_written, file_made, completed_as, completed, save_ended, edit_ended, svnedit_close_file,
}

module _ (sys : System) (c : Settings) where
  -- A part that ends the function does so with an error.
  abbrev Errs : Outcome (Part sys c) → Type 0
  Errs m = (x : Edit sys.W) → m ≢ ok (end_with 0 x)

  clean_copy-Errs : (k : ℕ) (b : Bool) (x : Edit sys.W) → Errs (clean_copy sys c (suc k) b x)
  unfolding clean_copy
  clean_copy-Errs k b x x' e = ground arith

  replaced-Errs : (x : Edit sys.W) → Errs (replaced sys c x)
  unfolding replaced clean_copy
  replaced-Errs x x' e = ground arith

  source_opened-Errs : (text : Option Bytes) (x : Edit sys.W) → Errs (source_opened sys c text x)
  unfolding source_opened source_found source_verified base_differs place_taken verified_as replaced
      clean_copy
  source_opened-Errs text x x' e = ground arith

  views_built-Errs : (x : Edit sys.W) → Errs (views_built sys c x)
  unfolding views_built views_told
  views_built-Errs x x' e = ground arith

  target_verified-Errs :
      (text : Option Bytes) (x : Edit sys.W) → Errs (target_verified sys c text x)
  unfolding target_verified views_digested views_compared matching clean_copy
  target_verified-Errs text x x' e = ground arith

  completed-Errs : (x : Edit sys.W) → Errs (completed sys c x)
  unfolding completed completed_as file_made link_made link_replaced file_written
  completed-Errs x x' e = ground arith

  and_then-Errs :
      (m : Outcome (Part sys c)) (next : Edit sys.W → Outcome (Part sys c))
      → Errs m
      → ((x : Edit sys.W) → Errs (next x))
      → Errs (and_then sys c m next)
  and_then-Errs (ok (next_part x)) next errs then_ x' e = then_ x x' e
  and_then-Errs (ok (complete x)) next errs then_ x' e = cc
  and_then-Errs (ok (end_with k x)) next errs then_ x' e = errs x' e
  and_then-Errs (fail k) next errs then_ x' e = cc
  and_then-Errs fault next errs then_ x' e = cc
  and_then-Errs stuck next errs then_ x' e = cc

  -- The editor `x` has a file with a path, and the checksum `text` of it has been put into the cache,
  -- from the editor `y`, which was the last step but the closing: `x'` is what the closing leaves.
  abbrev pub IsSaved : Option Bytes → Edit sys.W → Edit sys.W → Type 0
  IsSaved text x x' =
      (y : Edit sys.W) × (path : Bytes) × (checksum : Bytes) × (w : sys.W) × (x.doc.rp ≡ some path)
      × (text ≡ some checksum)
      × (sys.put path checksum y.world ≡ (true, w))
      × (svndiff_doc_fini sys (record y { world = w }) ≡ x')

  -- What a result has, and the world behind `put`.
  abbrev result_of : {A : Type 0} → A → Edited A → A
  result_of a (ok (k, b)) = b
  result_of a _ = a

  put-success :
      (w w' : sys.W) (put : Bool × sys.W)
      → or_result 1 put (λ w1. ok (0, w1)) ≡ ok (0, w')
      → put ≡ (true, w')
  put-success w w' (false, w1) e = cc
  put-success w w' (true, w1) e = ap (λ w. (true, w)) (ap (result_of w) e)

  svnc_save_checksum-success :
      (path text : Option Bytes) (w w' : sys.W)
      → svnc_save_checksum sys path text w ≡ ok (0, w')
      → (p : Bytes) × (t : Bytes) × (path ≡ some p) × (text ≡ some t) × (sys.put p t w ≡ (true, w'))
  unfolding svnc_save_checksum
  svnc_save_checksum-success (some path) (some checksum) w w' e =
      (path, checksum, refl, refl, put-success w w' (sys.put path checksum w) e)
  svnc_save_checksum-success none text w w' e = cc
  svnc_save_checksum-success (some path) none w w' e = cc

  save_ended-IsSaved :
      (text : Option Bytes) (x y x' : Edit sys.W) (o : Edited sys.W)
      → y.doc.rp ≡ x.doc.rp
      → svnc_save_checksum sys y.doc.rp text y.world ≡ o
      → save_ended sys c y o ≡ ok (0, x')
      → IsSaved text x x'
  unfolding save_ended
  save_ended-IsSaved text x y x' (ok (zero, w)) same saves e =
      let (path, checksum, named, given, put) =
        svnc_save_checksum-success y.doc.rp text y.world w saves in
      (y, path, checksum, w, sym same ∙ named, given, put, ap (result_of x') e)
  save_ended-IsSaved text x y x' (ok (suc k, w)) same saves e = cc
  save_ended-IsSaved text x y x' (fail k) same saves e = cc
  save_ended-IsSaved text x y x' fault same saves e = cc
  save_ended-IsSaved text x y x' stuck same saves e = cc

  edit_ended-IsSaved :
      (text : Option Bytes) (m : Outcome (Part sys c)) (x x' : Edit sys.W)
      → Errs m
      → path_of sys c x.doc.rp m ≡ x.doc.rp
      → edit_ended sys c text m ≡ ok (0, x')
      → IsSaved text x x'
  unfolding edit_ended
  edit_ended-IsSaved text (ok (complete y)) x x' errs same e =
      save_ended-IsSaved text x y x' _ same refl e
  edit_ended-IsSaved text (ok (next_part y)) x x' errs same e = cc
  edit_ended-IsSaved text (ok (end_with zero y)) x x' errs same e = absurd (errs y refl)
  edit_ended-IsSaved text (ok (end_with (suc k) y)) x x' errs same e = cc
  edit_ended-IsSaved text (fail k) x x' errs same e = cc
  edit_ended-IsSaved text fault x x' errs same e = cc
  edit_ended-IsSaved text stuck x x' errs same e = cc

  closes-IsSaved :
      (other closed : Bool) (text : Option Bytes) (m : Outcome (Part sys c)) (x x' : Edit sys.W)
      → Errs m
      → path_of sys c x.doc.rp m ≡ x.doc.rp
      → (if other
          then ok (1, svndiff_doc_fini sys x)
          else if closed
          then edit_ended sys c text m
          else fault)
        ≡ ok (0, x')
      → IsSaved text x x'
  closes-IsSaved true closed text m x x' errs same e = cc
  closes-IsSaved false true text m x x' errs same e = edit_ended-IsSaved text m x x' errs same e
  closes-IsSaved false false text m x x' errs same e = cc

  -- `svnedit_close_file` returns 0 only where the editor has a path for the file and the command a
  -- checksum, which it has put into the cache for that path, just before the file is closed; so it
  -- never returns 0 on a command without a checksum.
  pub svnedit_close_file-IsSaved :
      (token text : Option Bytes) (x x' : Edit sys.W)
      → svnedit_close_file sys c token text x ≡ ok (0, x')
      → IsSaved text x x'
  unfolding svnedit_close_file
  svnedit_close_file-IsSaved token text x x' e =
      closes-IsSaved (other_token token x.doc.ft) (is_closed x.doc.fd) text _ x x'
        (and_then-Errs _ _
          (and_then-Errs _ _ (and_then-Errs _ _ (source_opened-Errs text x) views_built-Errs)
            (target_verified-Errs text))
          completed-Errs)
        (parts-path sys c text x) e
