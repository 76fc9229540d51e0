-- ===== src/Proto/Unpack/Calls.antt =====
-- The items of a format with callbacks: S and r.
use mrksvnup.Base.{ℕ, zero, suc, true, false, if◌then◌else◌, List, ◌∷◌, Option, none, some}
use mrksvnup.Proto.Unpack.{
  Code, success, nomatch, other, Reader, is_string_out, Times, once, optional, many, Argument,
  callback, Step, next, stop, fault, stuck, reading,
}

module _ (d : Reader) (U : Type 0) where
  open d use {R, read, tok, step_back, recycle}

  -- What a callback has returned: an error ends the call, and `then_` is for 0 and for a code of the
  -- class of `SVNPROTO_VUNPACK`.
  unfoldable pub called : Option (Code × R × U) → (Code → R → U → Step d U) → Step d U
  called none then_ = stuck
  called (some (success, r, u)) then_ = then_ success r u
  called (some (nomatch k, r, u)) then_ = then_ (nomatch k) r u
  called (some (other k, r, u)) then_ = stop (other k) r u

  -- The loop of `S*`. Without a callback the strings are passed over.
  unfoldable pub strings_loop :
      Option (R → U → Option (Code × R × U)) → List (Argument d U) → ℕ → R → U → Step d U
  strings_loop cb args zero r u = stuck
  strings_loop cb args (suc fuel) r u = elim (is_string_out (tok r)) [
    | false ↦ next success args (step_back r) u
    | true ↦ elim cb [
      | none ↦ reading d U r u λ r'. strings_loop none args fuel r' u
      | some f ↦ called (f r u) λ code r' u'. elim code [
        | success ↦ reading d U r' u' λ r''. strings_loop (some f) args fuel r'' u'
        | nomatch k ↦ next (nomatch k) args r' u'
        | other k ↦ stop (other k) r' u'
      ]
    ]
  ]

  -- A string that `S?` or `S` has read, for the callback.
  unfoldable pub string_called :
      Times → Option (R → U → Option (Code × R × U)) → List (Argument d U) → R → U → Step d U
  string_called times none args r u = next success args r u
  string_called once (some f) args r u = called (f r u) λ code r' u'. elim code [
    | success ↦ next success args r' u'
    | nomatch k ↦ stop (nomatch 6) r' u'
    | other k ↦ stop (other k) r' u'
  ]
  string_called times (some f) args r u = called (f r u) λ code r' u'. next code args r' u'

  unfoldable pub strings_read :
      ℕ → Times → Option (R → U → Option (Code × R × U)) → List (Argument d U) → R → U → Step d U
  strings_read fuel many cb args r u = strings_loop cb args fuel r u
  strings_read fuel optional cb args r u =
      if is_string_out (tok r)
      then string_called optional cb args r u
      else next success args (step_back r) u
  strings_read fuel once cb args r u =
      if is_string_out (tok r)
      then string_called once cb args r u
      else stop (nomatch 7) (step_back r) u

  -- An item S.
  unfoldable pub strings_item : ℕ → Times → List (Argument d U) → R → U → Step d U
  strings_item fuel times (callback cb ∷ args) r u =
      reading d U r u λ r'. strings_read fuel times cb args r' u
  strings_item fuel times _ r u = fault

  -- The loop of `r*`: the callback is called until its result is not 0.
  unfoldable pub calls_loop :
      (R → U → Option (Code × R × U)) → List (Argument d U) → ℕ → R → U → Step d U
  calls_loop f args zero r u = stuck
  calls_loop f args (suc fuel) r u = called (f r u) λ code r' u'. elim code [
    | success ↦ calls_loop f args fuel r' u'
    | nomatch k ↦ next (nomatch k) args (recycle r') u'
    | other k ↦ stop (other k) r' u'
  ]

  -- An item r. Without a callback the result so far stands.
  unfoldable pub calls_item : Code → ℕ → Times → List (Argument d U) → R → U → Step d U
  calls_item res fuel times (callback none ∷ args) r u = next res args (recycle r) u
  calls_item res fuel many (callback (some f) ∷ args) r u = calls_loop f args fuel r u
  calls_item res fuel times (callback (some f) ∷ args) r u =
      called (f r u) λ code r' u'. next code args (recycle r') u'
  calls_item res fuel times _ r u = fault
