-- ===== src/Proto/Editor/Handled.antt =====
-- A command whose parameters are read.
use mrksvnup.Base.{ℕ, zero, suc, ◌≤◌, ◌≡◌, refl, ap, ◌∙◌, List, [], ◌∷◌, ok, length}
use mrksvnup.Svndiff.Doc.{Doc}
use mrksvnup.Svnedit.System.{Edit, Edited}
use mrksvnup.Proto.Unpack.{success, Value, unpacked}
use mrksvnup.Proto.Unpack.Tokens.{Token, IsReader}
use mrksvnup.Proto.Unpack.Formats.{Item, spec_text, Reads}
use mrksvnup.Proto.Unpack.Stores.{stores, arguments}
use mrksvnup.Proto.Unpack.Matches.{svnproto_vunpack-Reads}
use mrksvnup.Proto.Client.{Held}
use mrksvnup.Proto.Editor.{
  Host, Editing, Vars, no_vars, Frame, W, Reply, with_edit, framed, unpacked_vars, edited,
}
use mrksvnup.Proto.Editor.Dispatch.{failing_as}
use mrksvnup.Proto.Editor.Meaning.{code_of}

-- The stores of a list, each by its place.
abbrev pub puts_of : {U : Type 0} → List (Value → U → U) → ℕ → Value → U → U
puts_of [] i v u = u
puts_of (p ∷ ps) zero v u = p v u
puts_of (p ∷ ps) (suc i) v u = puts_of ps i v u

abbrev pub put_var : {W : Type 0} → (Value → Vars → Vars) → Value → Frame W → Frame W
put_var put v f = record f { vars = put v f.vars }

module _ (h : Host) where
  open h use {peer}
  open peer use {reader, fuel}

  abbrev pub put_doc : (Value → Doc → Doc) → Value → Frame (W h) → Frame (W h)
  put_doc put v f = record f {
    held = with_edit h (record f.held.mine.edit { doc = put v f.held.mine.edit.doc }) f.held;
  }

  edited-code_of :
      (j n k : ℕ) (x : Edit (W h)) (r : reader.R) (s : Held (Editing (W h)))
      → failing_as h n (edited h j (ok (k, x)) r s) ≡ unpacked (code_of n k) r (with_edit h x s)
  unfolding failing_as edited
  edited-code_of j n zero x r s = refl
  edited-code_of j n (suc k) x r s = refl

  module _ (Ahead : reader.R → List Token → Type 0) (At : reader.R → Token → List Token → Type 0)
      (laws : IsReader reader Ahead At) where
    -- The variables of a function, read by a format of values.
    abbrev pub read_frame :
        List (Value → Frame (W h) → Frame (W h))
        → List (List Value)
        → Held (Editing (W h))
        → Frame (W h)
    read_frame puts vs s = stores (puts_of puts) vs (record { vars = no_vars; held = s })

    pub vars_read :
        (is : List Item) (puts : List (Value → Frame (W h) → Frame (W h))) (ts : List Token)
        (vs : List (List Value)) (rest : List Token) (e : ℕ) (r : reader.R)
        (s : Held (Editing (W h))) (next : Vars → reader.R → Held (Editing (W h)) → Reply h)
        → Reads is ts vs success rest
        → Ahead r ts
        → length ts ≤ fuel
        → (r' : reader.R) × (unpacked_vars h e
              (spec_text is)
              (arguments reader (Frame (W h)) is (puts_of puts))
              r
              s
              next
            ≡ next (read_frame puts vs s).vars r' (read_frame puts vs s).held)
          × Ahead r' rest
    unfolding unpacked_vars framed
    vars_read is puts ts vs rest e r s next reads ahead enough =
        let (r', eq, ahead') =
          svnproto_vunpack-Reads reader Ahead At laws (Frame (W h)) is (puts_of puts) ts vs success
            rest fuel r (record { vars = no_vars; held = s }) reads ahead enough in
        (r', rw (eq), ahead')

    -- A function of the editor is called behind the reading.
    pub handled :
        (is : List Item) (puts : List (Value → Frame (W h) → Frame (W h))) (ts : List Token)
        (vs : List (List Value)) (rest : List Token) (e j n k : ℕ) (r : reader.R)
        (s : Held (Editing (W h))) (op : Vars → Edit (W h) → Edited (Edit (W h))) (x' : Edit (W h))
        → Reads is ts vs success rest
        → Ahead r ts
        → length ts ≤ fuel
        → op (read_frame puts vs s).vars (read_frame puts vs s).held.mine.edit ≡ ok (k, x')
        → (r' : reader.R) × (failing_as h n (
              unpacked_vars h e
                (spec_text is)
                (arguments reader (Frame (W h)) is (puts_of puts))
                r
                s
                λ v r s. edited h j (op v s.mine.edit) r s)
            ≡ unpacked (code_of n k) r' (with_edit h x' (read_frame puts vs s).held))
          × Ahead r' rest
    handled is puts ts vs rest e j n k r s op x' reads ahead enough does =
        let (r', eq, ahead') =
          vars_read is puts ts vs rest e r s (λ v r s. edited h j (op v s.mine.edit) r s) reads
            ahead enough in
        let held = (read_frame puts vs s).held in
        (
          r',
          ap (failing_as h n) (eq ∙ ap (λ o. edited h j o r' held) does)
              ∙ edited-code_of j n k x' r' held,
          ahead',
        )

    -- Nothing else is done.
    pub passed :
        (is : List Item) (puts : List (Value → Frame (W h) → Frame (W h))) (ts : List Token)
        (vs : List (List Value)) (rest : List Token) (e n : ℕ) (r : reader.R)
        (s : Held (Editing (W h)))
        → Reads is ts vs success rest
        → Ahead r ts
        → length ts ≤ fuel
        → (r' : reader.R) × (failing_as h n (
              unpacked_vars h e
                (spec_text is)
                (arguments reader (Frame (W h)) is (puts_of puts))
                r
                s
                λ v r s. unpacked success r s)
            ≡ unpacked success r' (read_frame puts vs s).held)
          × Ahead r' rest
    unfolding failing_as
    passed is puts ts vs rest e n r s reads ahead enough =
        let (r', eq, ahead') =
          vars_read is puts ts vs rest e r s (λ v r s. unpacked success r s) reads ahead enough in
        (r', ap (failing_as h n) eq, ahead')
