-- ===== src/Svnedit/Paths.antt =====
-- The parts of `svnedit_close_file` keep the path of the file, `doc.rp`.
use mrksvnup.Base.{
  ℕ, zero, suc, ◌≡◌, refl, sym, ap, ◌∙◌, Bool, true, false, if◌then◌else◌, List, [], ◌∷◌, Bytes,
  equal, Option, none, some, ℤ, pos, negsuc, Outcome, ok, fail, fault, stuck,
}
use mrksvnup.Proto.Client.Files.{Prop, Fileent}
use mrksvnup.Svndiff.Doc.{Doc, no_flags}
use mrksvnup.Svnedit.System.{System, Settings, Edit, Edited, ending, or_abort}
use mrksvnup.Svnedit.Entries.{on_world}
use mrksvnup.Svnedit.Files.{with_mode, with_link, props_loop, created, checkout_file}
use mrksvnup.Svnedit.Close.{
  Part, complete, next_part, end_with, with_dirty, descriptor_closed, clean_copy, replaced,
  verified_as, base_differs, place_taken, source_verified, source_found,
}

module _ (sys : System) (c : Settings) where
  -- The path in what a part goes on with; `r` where it ends.
  abbrev pub path_of : Option Bytes → Outcome (Part sys c) → Option Bytes
  path_of r (ok (complete y)) = y.doc.rp
  path_of r (ok (next_part y)) = y.doc.rp
  path_of r _ = r

  abbrev pub Keeps : Option Bytes → Outcome (Part sys c) → Type 0
  Keeps r m = path_of r m ≡ r

  abbrev edit_path : Option Bytes → Edited (Edit sys.W) → Option Bytes
  edit_path r (ok (k, y)) = y.doc.rp
  edit_path r _ = r

  abbrev doc_path : Option Bytes → Option Doc → Option Bytes
  doc_path r none = r
  doc_path r (some d) = d.rp

  prop-path :
      (p q : Bool) (v : Option Bytes) (d : Doc)
      → (if q
          then with_link (if p then with_mode v d else d)
          else (if p then with_mode v d else d)).rp
        ≡ d.rp
  prop-path true true v d = refl
  prop-path true false v d = refl
  prop-path false true v d = refl
  prop-path false false v d = refl

  named-path :
      (ps : List Prop) (r : Option Bytes) (n v : Option Bytes) (d : Doc)
      → d.rp ≡ r
      → ((d : Doc) → d.rp ≡ r → doc_path r (props_loop sys c ps d) ≡ r)
      → doc_path r (elim n [
        | none ↦ none
        | some name ↦
            let d1 = if equal name c.executable_prop_name then with_mode v d else d in
            props_loop sys c ps (if equal name c.special_prop_name then with_link d1 else d1)
      ])
        ≡ r
  named-path ps r none v d e loop = refl
  named-path ps r (some name) v d e loop =
      loop _
        (prop-path (equal name c.executable_prop_name) (equal name c.special_prop_name) v d ∙ e)

  props_loop-path :
      (ps : List Prop) (r : Option Bytes) (d : Doc)
      → d.rp ≡ r
      → doc_path r (props_loop sys c ps d) ≡ r
  unfolding props_loop
  props_loop-path [] r d e = e
  props_loop-path (p ∷ ps) r d e =
      named-path ps r p.name p.value d e (λ d e. props_loop-path ps r d e)

  on_world-path :
      (x : Edit sys.W) (m : Edited sys.W) → edit_path x.doc.rp (on_world sys c x m) ≡ x.doc.rp
  on_world-path x (ok (k, w)) = refl
  on_world-path x (fail k) = refl
  on_world-path x fault = refl
  on_world-path x stuck = refl

  either-path :
      (r : Option Bytes) (b : Bool) (m m' : Edited (Edit sys.W))
      → edit_path r m ≡ r
      → edit_path r m' ≡ r
      → edit_path r (if b then m else m') ≡ r
  either-path r true m m' p q = p
  either-path r false m m' p q = q

  created-path :
      (fe : Fileent) (x : Edit sys.W) → edit_path x.doc.rp (created sys c fe x) ≡ x.doc.rp
  unfolding created
  created-path fe x =
      either-path x.doc.rp x.doc.flags.symlink_set _ _ (on_world-path x _) (on_world-path x _)

  got-path :
      (fe : Fileent) (x : Edit sys.W) (w : sys.W) (d : Option Doc)
      → doc_path x.doc.rp d ≡ x.doc.rp
      → edit_path x.doc.rp
          (elim d [ none ↦ fault | some d ↦ created sys c fe (record x { doc = d; world = w }) ])
        ≡ x.doc.rp
  got-path fe x w none e = refl
  got-path fe x w (some d) e =
      ap (λ r. edit_path r (created sys c fe (record x { doc = d; world = w }))) (sym e)
      ∙ created-path fe (record x { doc = d; world = w })
      ∙ e

  file_got-path :
      (x : Edit sys.W) (got : Option (Bool × Fileent × sys.W))
      → edit_path x.doc.rp (
          ending got λ got.
            let (success, fe, w) = got in
            if success
            then (elim (props_loop sys c fe.props (record x.doc { flags = no_flags })) [
              | none ↦ fault
              | some d ↦ created sys c fe (record x { doc = d; world = w })
            ])
            else ok (1, record x { world = w }))
        ≡ x.doc.rp
  file_got-path x none = refl
  file_got-path x (some (false, fe, w)) = refl
  file_got-path x (some (true, fe, w)) =
      got-path fe x w (props_loop sys c fe.props (record x.doc { flags = no_flags }))
        (props_loop-path fe.props x.doc.rp (record x.doc { flags = no_flags }) refl)

  checkout_file-path :
      (rev : ℤ) (x : Edit sys.W) → edit_path x.doc.rp (checkout_file sys c rev x) ≡ x.doc.rp
  unfolding checkout_file
  checkout_file-path rev x = file_got-path x (sys.get_file x.doc.rp rev x.world)

  clean-path :
      (r : Option Bytes) (k : ℕ) (b : Bool) (m : Edited (Edit sys.W))
      → edit_path r m ≡ r
      → Keeps r (elim m [
        | ok (zero, x') ↦ ok (complete (if b then with_dirty sys c false x' else x'))
        | ok (suc n, x') ↦ ok (end_with k x')
        | fail n ↦ fail n
        | fault ↦ fault
        | stuck ↦ stuck
      ])
  clean-path r k true (ok (zero, x)) e = e
  clean-path r k false (ok (zero, x)) e = e
  clean-path r k b (ok (suc n, x)) e = refl
  clean-path r k b (fail n) e = refl
  clean-path r k b fault e = refl
  clean-path r k b stuck e = refl

  pub clean_copy-path :
      (k : ℕ) (b : Bool) (x : Edit sys.W) → Keeps x.doc.rp (clean_copy sys c k b x)
  unfolding clean_copy
  clean_copy-path k b x = clean-path x.doc.rp k b _ (checkout_file-path x.target_rev x)

  pub if-Keeps :
      (r : Option Bytes) (b : Bool) (m m' : Outcome (Part sys c))
      → Keeps r m
      → Keeps r m'
      → Keeps r (if b then m else m')
  if-Keeps r true m m' p q = p
  if-Keeps r false m m' p q = q

  replaced-path : (x : Edit sys.W) → Keeps x.doc.rp (replaced sys c x)
  unfolding replaced descriptor_closed
  replaced-path x =
      if-Keeps x.doc.rp c.tolerant
        (ok (complete (with_dirty sys c true (descriptor_closed sys c x))))
        (clean_copy sys c 2 true (descriptor_closed sys c x)) refl
        (clean_copy-path 2 true (descriptor_closed sys c x))

  verified_as-path :
      (x : Edit sys.W) (then_ else_ : Edit sys.W → Outcome (Part sys c)) (m : Edited sys.W)
      → ((x : Edit sys.W) → Keeps x.doc.rp (then_ x))
      → ((x : Edit sys.W) → Keeps x.doc.rp (else_ x))
      → Keeps x.doc.rp (verified_as sys c x then_ else_ m)
  unfolding verified_as
  verified_as-path x then_ else_ (ok (zero, w)) p q = p (record x { world = w })
  verified_as-path x then_ else_ (ok (suc n, w)) p q = q (record x { world = w })
  verified_as-path x then_ else_ (fail n) p q = refl
  verified_as-path x then_ else_ fault p q = refl
  verified_as-path x then_ else_ stuck p q = refl

  unlinked-path :
      (x : Edit sys.W) (gone : Bool × sys.W)
      → Keeps x.doc.rp (or_abort gone λ w. ok (next_part (record x { world = w })))
  unlinked-path x (true, w) = refl
  unlinked-path x (false, w) = refl

  base_differs-path : (t : Option Bytes) (x : Edit sys.W) → Keeps x.doc.rp (base_differs sys c t x)
  unfolding base_differs
  base_differs-path none x = replaced-path x
  base_differs-path (some t) x = verified_as-path x _ _ _ (λ x. refl) replaced-path

  place_taken-path : (t : Option Bytes) (x : Edit sys.W) → Keeps x.doc.rp (place_taken sys c t x)
  unfolding place_taken descriptor_closed
  place_taken-path none x = refl
  place_taken-path (some t) x =
      verified_as-path x _ _ _ (λ x. refl) (λ x. unlinked-path (descriptor_closed sys c x) _)

  source_verified-path :
      (t : Option Bytes) (x : Edit sys.W) (base : Option Bytes)
      → Keeps x.doc.rp (source_verified sys c t x base)
  unfolding source_verified
  source_verified-path t x (some base) = verified_as-path x _ _ _ (λ x. refl) (base_differs-path t)
  source_verified-path t x none = place_taken-path t x

  pub source_found-path :
      (t : Option Bytes) (x : Edit sys.W) (opened : ℤ × sys.W)
      → Keeps x.doc.rp (source_found sys c t x opened)
  unfolding source_found
  source_found-path t x (pos n, w) =
      source_verified-path t (record x { doc = record x.doc { fd = pos n }; world = w })
        x.doc.base_checksum
  source_found-path t x (negsuc n, w) = refl
