-- ===== src/Svnedit/PathsKept.antt =====
-- The rest of the parts, and the parts in a row, keep the path of the file.
use mrksvnup.Base.{
  ℕ, zero, suc, refl, sym, ap, ◌∙◌, Bool, true, false, if◌then◌else◌, List, [], ◌∷◌, Bytes, Option,
  none, some, ℤ, pos, negsuc, Outcome, ok, fail, fault, stuck, ltb, length,
}
use mrksvnup.Svndiff.Doc.{Wnd, wnds}
use mrksvnup.Svnedit.System.{create, System, Settings, Edit, Edited}
use mrksvnup.Svnedit.Links.{link_target}
use mrksvnup.Svnedit.Close.{
  view_bytes, Part, complete, next_part, end_with, descriptor_closed, source_opened, views_told,
  views_built,
}
use mrksvnup.Svnedit.Complete.{
  and_then, if_parsed, matching, views_compared, views_digested, target_verified, link_made,
  link_replaced, file_written, file_made, completed_as, completed,
}
use mrksvnup.Svnedit.Paths.{path_of, Keeps, if-Keeps, clean_copy-path, source_found-path}

module _ (sys : System) (c : Settings) where
  views_told-path :
      (x : Edit sys.W) (m : Outcome (Bool × List Wnd)) → Keeps sys c x.doc.rp (views_told sys c x m)
  unfolding views_told
  views_told-path x (ok (true, ws)) = refl
  views_told-path x (ok (false, ws)) = refl
  views_told-path x (fail k) = refl
  views_told-path x fault = refl
  views_told-path x stuck = refl

  views_built-path : (x : Edit sys.W) → Keeps sys c x.doc.rp (views_built sys c x)
  unfolding views_built
  views_built-path x = views_told-path x _

  matching-path :
      (x : Edit sys.W) (same : Option Bool) → Keeps sys c x.doc.rp (matching sys c x same)
  unfolding matching descriptor_closed
  matching-path x none = refl
  matching-path x (some true) = refl
  matching-path x (some false) = clean_copy-path sys c 5 false (descriptor_closed sys c x)

  views_compared-path :
      (text : Bytes) (x : Edit sys.W) (md : Option Bytes)
      → Keeps sys c x.doc.rp (views_compared sys c text x md)
  unfolding views_compared
  views_compared-path text x none = refl
  views_compared-path text x (some md) = matching-path x _

  views_digested-path :
      (text : Bytes) (x : Edit sys.W) (bs : Option (List Bytes)) (m : Option sys.md5.Context)
      → Keeps sys c x.doc.rp (views_digested sys c text x bs m)
  unfolding views_digested
  views_digested-path text x none none = refl
  views_digested-path text x (some bs) none = refl
  views_digested-path text x none (some m) = refl
  views_digested-path text x (some bs) (some m) = views_compared-path text x _

  if_parsed-path :
      (v : ℤ) (r : Option Bytes) (m m' : Outcome (Part sys c))
      → Keeps sys c r m
      → Keeps sys c r m'
      → Keeps sys c r (if_parsed sys c v m m')
  if_parsed-path (negsuc zero) r m m' p q = q
  if_parsed-path (negsuc (suc n)) r m m' p q = p
  if_parsed-path (pos n) r m m' p q = p

  target_verified-path :
      (t : Option Bytes) (x : Edit sys.W) → Keeps sys c x.doc.rp (target_verified sys c t x)
  unfolding target_verified
  target_verified-path none x = refl
  target_verified-path (some t) x =
      if_parsed-path x.doc.version x.doc.rp _ _ (views_digested-path t x _ _) refl

  made-path :
      (x : Edit sys.W) (k : ℕ) (made : Bool × sys.W)
      → Keeps sys c x.doc.rp (
          let (b, w) = made in
          let x' = record x { world = w } in if b then ok (complete x') else ok (end_with k x'))
  made-path x k (true, w) = refl
  made-path x k (false, w) = refl

  target-path :
      (x : Edit sys.W) (k : ℕ) (target : Option Bytes) (f : Bytes → Outcome (Part sys c))
      → ((t : Bytes) → Keeps sys c x.doc.rp (f t))
      → Keeps sys c x.doc.rp (elim target [ none ↦ ok (end_with k x) | some t ↦ f t ])
  target-path x k none f keeps = refl
  target-path x k (some t) f keeps = keeps t

  view-path :
      (r b : Option Bytes) (f : Bytes → Outcome (Part sys c))
      → ((t : Bytes) → Keeps sys c r (f t))
      → Keeps sys c r (elim b [ none ↦ fault | some t ↦ f t ])
  view-path r none f keeps = refl
  view-path r (some t) f keeps = keeps t

  link_made-path : (ws : List Wnd) (x : Edit sys.W) → Keeps sys c x.doc.rp (link_made sys c ws x)
  unfolding link_made
  link_made-path [] x = refl
  link_made-path (wnd ∷ ws) x =
      view-path x.doc.rp (view_bytes wnd) _
        λ b. target-path x 6 (link_target b) _ λ t. made-path x 7 (sys.symlink t x.doc.lp x.world)

  room-path :
      (r : Option Bytes) (b : Bool) (m : Outcome (Part sys c))
      → Keeps sys c r m
      → Keeps sys c r (if b then m else fault)
  room-path r true m keeps = keeps
  room-path r false m keeps = refl

  link_replaced-path :
      (ws : List Wnd) (x : Edit sys.W) → Keeps sys c x.doc.rp (link_replaced sys c ws x)
  unfolding link_replaced
  link_replaced-path [] x = refl
  link_replaced-path (wnd ∷ ws) x = view-path x.doc.rp (sys.readlink x.doc.lp x.world) _ λ olddata.
      room-path x.doc.rp (ltb (length olddata) 1024) _ (
        view-path x.doc.rp (view_bytes wnd) _ λ b.
          target-path x 8 (link_target b) _
            λ t. made-path x 9 (sys.symlink t x.doc.lp (sys.unlink x.doc.lp x.world).1))

  file_written-path :
      (x : Edit sys.W) (m : Edited sys.W) → Keeps sys c x.doc.rp (file_written sys c x m)
  unfolding file_written
  file_written-path x (ok (k, w)) = refl
  file_written-path x (fail k) = refl
  file_written-path x fault = refl
  file_written-path x stuck = refl

  file_made-path :
      (x : Edit sys.W) (opened : ℤ × sys.W) → Keeps sys c x.doc.rp (file_made sys c x opened)
  unfolding file_made
  file_made-path x (pos n, w) =
      file_written-path (record x { doc = record x.doc { fd = pos n }; world = w }) _
  file_made-path x (negsuc n, w) =
      link_replaced-path (wnds x.doc) (record x { doc = record x.doc { fd = negsuc n }; world = w })

  completed_as-path : (x : Edit sys.W) (fd : ℤ) → Keeps sys c x.doc.rp (completed_as sys c x fd)
  unfolding completed_as
  completed_as-path x (negsuc zero) =
      if-Keeps sys c x.doc.rp x.doc.flags.symlink_set (link_made sys c (wnds x.doc) x)
        (file_made sys c x (sys.open_path x.doc.lp create x.doc.mode x.world))
        (link_made-path (wnds x.doc) x)
        (file_made-path x (sys.open_path x.doc.lp create x.doc.mode x.world))
  completed_as-path x (negsuc (suc n)) = file_written-path x _
  completed_as-path x (pos n) = file_written-path x _

  completed-path : (x : Edit sys.W) → Keeps sys c x.doc.rp (completed sys c x)
  unfolding completed
  completed-path x = completed_as-path x x.doc.fd

  source_opened-path :
      (t : Option Bytes) (x : Edit sys.W) → Keeps sys c x.doc.rp (source_opened sys c t x)
  unfolding source_opened
  source_opened-path t x = source_found-path sys c t x (sys.open_path x.doc.lp _ 0 x.world)

  and_then-path :
      (r : Option Bytes) (m : Outcome (Part sys c)) (next : Edit sys.W → Outcome (Part sys c))
      → Keeps sys c r m
      → ((x : Edit sys.W) → Keeps sys c x.doc.rp (next x))
      → Keeps sys c r (and_then sys c m next)
  and_then-path r (ok (next_part x)) next e keeps =
      ap (λ r. path_of sys c r (next x)) (sym e) ∙ keeps x ∙ e
  and_then-path r (ok (complete x)) next e keeps = e
  and_then-path r (ok (end_with k x)) next e keeps = refl
  and_then-path r (fail k) next e keeps = refl
  and_then-path r fault next e keeps = refl
  and_then-path r stuck next e keeps = refl

  -- The whole.
  pub parts-path :
      (t : Option Bytes) (x : Edit sys.W)
      → Keeps sys c x.doc.rp (
          and_then sys c
            (and_then sys c
              (and_then sys c (source_opened sys c t x) (views_built sys c))
              (target_verified sys c t))
            (completed sys c))
  parts-path t x =
      let opened = source_opened sys c t x in
      let viewed = and_then sys c opened (views_built sys c) in
      let verified = and_then sys c viewed (target_verified sys c t) in
      and_then-path x.doc.rp verified (completed sys c)
        (and_then-path x.doc.rp viewed (target_verified sys c t)
          (and_then-path x.doc.rp opened (views_built sys c) (source_opened-path t x)
            views_built-path)
          (target_verified-path t))
        completed-path
