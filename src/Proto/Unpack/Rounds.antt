-- ===== src/Proto/Unpack/Rounds.antt =====
-- The rounds of the formats that end with a callback in a list.
use mrksvnup.Base.{ℕ, suc, ◌≡◌, refl, ◌∙◌, true, List, [], ◌∷◌, Bytes, codes, Option, some, length}
use mrksvnup.Proto.Unpack.{
  Code, success, other, Value, Reader, is_list_start, is_list_end, once, modifier, suppressed,
  Argument, store, callback, next, stop, unpacked,
}
use mrksvnup.Proto.Unpack.Calls.{called, calls_item, strings_item, strings_read, string_called}
use mrksvnup.Proto.Unpack.Format.{item, proceed, ended, items_loop, svnproto_vunpack}
use mrksvnup.Proto.Unpack.Tokens.{Token, string, open_list, close_list, IsReader}
use mrksvnup.Proto.Unpack.Formats.{Kind, strings, letter, fits, value_of}
use mrksvnup.Proto.Unpack.Steps.{
  Ends, reading-success, kind_read, item_read, once_taken, round_lem, round-next, paren_taken,
}

module _ (d : Reader) (Ahead : d.R → List Token → Type 0) (At : d.R → Token → List Token → Type 0)
    (laws : IsReader d Ahead At) (U : Type 0) where
  -- A round whose item ends the call with an error of another class.
  pub round-error :
      (left fuel c k : ℕ) (spec : Bytes) (args : List (Argument d U)) (r r' : d.R) (u u' : U)
      → modifier spec ≡ (once, spec)
      → item d U c success fuel once args r u ≡ stop (other k) r' u'
      → items_loop d U (suc left) fuel success (c ∷ spec) args r u ≡ unpacked (other k) r' u'
  unfolding proceed ended suppressed
  round-error left fuel c k spec args r r' u u' e step =
      round_lem d Ahead At laws U left fuel c spec spec once args r u _ e step

  -- The end of the list.
  pub list_closed :
      (left fuel : ℕ) (rest : List Token) (r : d.R) (u : U)
      → Ahead r (close_list ∷ rest)
      → Ends d Ahead At laws U
          (items_loop d U (suc (suc left)) fuel success (codes ")") [] r u)
          u
          success
          rest
  unfolding item modifier items_loop ended suppressed
  list_closed left fuel rest r u ahead =
      let (r', read, at) = laws.read_lem r close_list rest ahead in
      round-next d Ahead At laws U (suc left) fuel b')' [] [] once [] [] r r' u u u success rest
        refl (paren_taken d Ahead At laws U is_list_end 2 [] r r' close_list rest u refl read at)
        (r', refl, laws.go_on r' close_list rest at)

  -- An item that goes on to the next one.
  pub round-goes :
      (left fuel c : ℕ) (spec : Bytes) (args args' : List (Argument d U)) (r r' : d.R) (u u' : U)
      → modifier spec ≡ (once, spec)
      → item d U c success fuel once args r u ≡ next success args' r' u'
      → items_loop d U (suc left) fuel success (c ∷ spec) args r u
        ≡ items_loop d U left fuel success spec args' r' u'
  unfolding proceed
  round-goes left fuel c spec args args' r r' u u' e step =
      round_lem d Ahead At laws U left fuel c spec spec once args r u _ e step

  -- The first value of a list.
  pub list_headed :
      (put : Value → U → U) (k : Kind) (t : Token) (ts : List Token) (spec : Bytes)
      (args : List (Argument d U)) (fuel : ℕ) (r : d.R) (u : U)
      → fits k t ≡ true
      → modifier spec ≡ (once, spec)
      → modifier (letter k ∷ spec) ≡ (once, letter k ∷ spec)
      → Ahead r (open_list ∷ t ∷ ts)
      → (r' : d.R) × (svnproto_vunpack d U fuel
            (b'(' ∷ letter k ∷ spec)
            (store (some put) ∷ args)
            r
            u
          ≡ items_loop d U (suc (length spec)) fuel success spec args r' (put (value_of t) u))
        × Ahead r' ts
  unfolding svnproto_vunpack item
  list_headed put k t ts spec args fuel r u fit plain plain' ahead =
      let (r1, read1, at1) = laws.read_lem r open_list (t ∷ ts) ahead in
      let (r2, read2, at2) = laws.read_lem r1 t ts (laws.go_on r1 open_list (t ∷ ts) at1) in
      let whole = store (some put) ∷ args in
      (
        r2,
        round-goes (suc (suc (length spec))) fuel b'(' (letter k ∷ spec) whole whole r r1 u u plain'
              (paren_taken d Ahead At laws U is_list_start 1 whole r r1 open_list (t ∷ ts) u refl
                read1 at1)
            ∙ round-goes (suc (length spec)) fuel (letter k) spec whole args r1 r2 u
                (put (value_of t) u) plain
                (item_read d Ahead At laws U put k fuel once args r1 r2 u read2
                  ∙ once_taken d Ahead At laws U put k fuel args r2 t ts u fit at2),
        laws.go_on r2 t ts at2,
      )

  -- The callback of an item r behind it.
  pub call_item :
      (f : d.R → U → Option (Code × d.R × U)) (fuel : ℕ) (r r' : d.R) (u u' : U)
      → f r u ≡ some (success, r', u')
      → item d U b'r' success fuel once (callback (some f) ∷ []) r u
        ≡ next success [] (d.recycle r') u'
  unfolding item calls_item called
  call_item f fuel r r' u u' e = rw (e)

  pub call_item-other :
      (f : d.R → U → Option (Code × d.R × U)) (fuel k : ℕ) (r r' : d.R) (u u' : U)
      → f r u ≡ some (other k, r', u')
      → item d U b'r' success fuel once (callback (some f) ∷ []) r u ≡ stop (other k) r' u'
  unfolding item calls_item called
  call_item-other f fuel k r r' u u' e = rw (e)

  -- The callback of an item S, on the string that is read.
  pub string_item_lem :
      (f : d.R → U → Option (Code × d.R × U)) (fuel : ℕ) (s : Bytes) (ts : List Token)
      (r r1 r' : d.R) (u u' : U)
      → d.read r ≡ some (success, r1)
      → At r1 (string s) ts
      → f r1 u ≡ some (success, r', u')
      → item d U b'S' success fuel once (callback (some f) ∷ []) r u ≡ next success [] r' u'
  unfolding item strings_item strings_read string_called called
  string_item_lem f fuel s ts r r1 r' u u' read at e =
      reading-success d Ahead At laws U r r1 u _ read
      ∙ rw (kind_read d Ahead At laws U strings r1 (string s) ts at, e)

  pub string_item_lem-other :
      (f : d.R → U → Option (Code × d.R × U)) (fuel k : ℕ) (s : Bytes) (ts : List Token)
      (r r1 r' : d.R) (u u' : U)
      → d.read r ≡ some (success, r1)
      → At r1 (string s) ts
      → f r1 u ≡ some (other k, r', u')
      → item d U b'S' success fuel once (callback (some f) ∷ []) r u ≡ stop (other k) r' u'
  unfolding item strings_item strings_read string_called called
  string_item_lem-other f fuel k s ts r r1 r' u u' read at e =
      reading-success d Ahead At laws U r r1 u _ read
      ∙ rw (kind_read d Ahead At laws U strings r1 (string s) ts at, e)
