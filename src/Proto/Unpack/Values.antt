-- ===== src/Proto/Unpack/Values.antt =====
-- The items of a format that store values, and the parentheses: n, w, s, ( and ).
use mrksvnup.Base.{ℕ, zero, suc, Bool, true, false, if◌then◌else◌, List, ◌∷◌, Option, none, some}
use mrksvnup.Proto.Tokenizer.{TokState}
use mrksvnup.Proto.Unpack.{
  success, nomatch, Value, long, null, text, Reader, is_num_out, is_tok_out, is_string_out, Times,
  once, optional, many, Argument, store, Step, next, stop, fault, stuck, reading,
}

module _ (d : Reader) (U : Type 0) where
  open d use {R, read, tok, step_back, recycle}

  -- `if (pv != NULL) { *pv = v; }`
  unfoldable pub stored : Option (Value → U → U) → Value → U → U
  stored none v u = u
  stored (some set) v u = set v u

  -- The loop of `n*`, `w*` and `s*`: values are stored as long as they are of the item's kind, and the
  -- first of another kind is left for the next item.
  unfoldable pub values_loop :
      (TokState → Bool)
      → (R → Value)
      → Option (Value → U → U)
      → List (Argument d U)
      → ℕ
      → R
      → U
      → Step d U
  values_loop kind value pv args zero r u = stuck
  values_loop kind value pv args (suc fuel) r u = elim (kind (tok r)) [
    | true ↦
        reading d U r (stored pv (value r) u)
          λ r'. values_loop kind value pv args fuel r' (stored pv (value r) u)
    | false ↦ next success args (step_back r) u
  ]

  -- A value that has been read, for the item with error number `k`; `none_value` is stored where an
  -- optional value is not there.
  unfoldable pub value_read :
      (TokState → Bool)
      → (R → Value)
      → Value
      → ℕ
      → ℕ
      → Times
      → Option (Value → U → U)
      → List (Argument d U)
      → R
      → U
      → Step d U
  value_read kind value none_value k fuel many pv args r u = values_loop kind value pv args fuel r u
  value_read kind value none_value k fuel optional pv args r u =
      if kind (tok r)
      then next success args r (stored pv (value r) u)
      else next success args (step_back r) (stored pv none_value u)
  value_read kind value none_value k fuel once pv args r u =
      if kind (tok r)
      then next success args r (stored pv (value r) u)
      else stop (nomatch k) (step_back r) u

  -- An item n, w or s.
  unfoldable pub value_item :
      (TokState → Bool)
      → (R → Value)
      → Value
      → ℕ
      → ℕ
      → Times
      → List (Argument d U)
      → R
      → U
      → Step d U
  value_item kind value none_value k fuel times (store pv ∷ args) r u =
      reading d U r u λ r'. value_read kind value none_value k fuel times pv args r' u
  value_item kind value none_value k fuel times _ r u = fault

  unfoldable pub number_item : ℕ → Times → List (Argument d U) → R → U → Step d U
  number_item = value_item is_num_out (λ r. long (d.number r)) (long 0) 3

  unfoldable pub word_item : ℕ → Times → List (Argument d U) → R → U → Step d U
  word_item = value_item is_tok_out (λ r. text (d.word r)) null 4

  unfoldable pub string_item : ℕ → Times → List (Argument d U) → R → U → Step d U
  string_item = value_item is_string_out (λ r. text (d.chunk r)) null 5

  -- A parenthesis.
  unfoldable pub list_item : (TokState → Bool) → ℕ → List (Argument d U) → R → U → Step d U
  list_item kind k args r u =
      reading d U r u
        λ r'. if kind (tok r') then next success args r' u else stop (nomatch k) (step_back r') u
