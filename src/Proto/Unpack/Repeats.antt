-- ===== src/Proto/Unpack/Repeats.antt =====
-- A repeated item of `svnproto_vunpack` on a row of tokens.
use mrksvnup.Base.{ℕ, zero, suc, ◌≤◌, ◌≡◌, refl, ◌∙◌, List, [], ◌∷◌, length, some, arith}
use mrksvnup.Proto.Unpack.{Code, success, Value, Reader, many, modifier, store, next, Argument}
use mrksvnup.Proto.Unpack.Values.{value_read, values_loop}
use mrksvnup.Proto.Unpack.Format.{items_loop}
use mrksvnup.Proto.Unpack.Tokens.{Token, IsReader}
use mrksvnup.Proto.Unpack.Formats.{
  Kind, Item, run, letter, spec_text, value_of, Reads, more, no_more,
}
use mrksvnup.Proto.Unpack.Stores.{test_of, getter, later, written, stores, arguments}
use mrksvnup.Proto.Unpack.Steps.{Ends, item_read, run_taken, run_left, round-next}

module _ (d : Reader) (Ahead : d.R → List Token → Type 0) (At : d.R → Token → List Token → Type 0)
    (laws : IsReader d Ahead At) (U : Type 0) where
  -- A run: its values, and the tokens that are left for the items behind.
  Runs :
      Kind
      → List Item
      → (Value → U → U)
      → List (Argument d U)
      → ℕ
      → d.R
      → U
      → List Value
      → List (List Value)
      → Code
      → List Token
      → Type 0
  Runs k is put args fuel r u g vs c rest =
      (r' : d.R) × (ts : List Token) × (values_loop d U (test_of k) (getter d U k) (some put) args
          fuel r u
        ≡ next success args r' (written put g u))
      × Ahead r' ts
      × Reads is ts vs c rest
      × (length ts ≤ fuel)

  loop-Runs :
      (k : Kind) (is : List Item) (put : Value → U → U) (args : List (Argument d U)) (t : Token)
      (ts : List Token) (g : List Value) (vs : List (List Value)) (c : Code) (rest : List Token)
      (fuel : ℕ) (r : d.R) (u : U)
      → Reads (run k ∷ is) (t ∷ ts) (g ∷ vs) c rest
      → length (t ∷ ts) ≤ fuel
      → At r t ts
      → Runs k is put args fuel r u g vs c rest
  unfolding Runs written
  loop-Runs k is put args t ts g vs c rest zero r u reads enough at = absurd (omega arith)
  loop-Runs k is put args t ts g vs c rest (suc fuel) r u (no_more fit steady reads) enough at = (
    d.step_back r,
    t ∷ ts,
    run_left d Ahead At laws U put k fuel args r t ts u fit at,
    laws.step_back_lem r t ts steady at,
    reads,
    enough,
  )
  loop-Runs k is put args t [] g vs c rest (suc fuel) r u (more fit reads) enough at =
      elim reads [ ]
  loop-Runs k is put args t (t2 ∷ ts) g vs c rest (suc fuel) r u (more {g = g'} fit reads) enough
        at =
      let (r', read, at') = laws.read_lem r t2 ts (laws.go_on r t (t2 ∷ ts) at) in
      let (last, left, ends, ahead, behind, short) =
        loop-Runs k is put args t2 ts g' vs c rest fuel r' (put (value_of t) u) reads (omega arith)
          at' in
      (
        last,
        left,
        run_taken d Ahead At laws U put k fuel args r r' t (t2 ∷ ts) u fit at read ∙ ends,
        ahead,
        behind,
        omega arith,
      )

  -- An item of a run, with the items behind it.
  pub run_case :
      (k : Kind) (is : List Item) (puts : ℕ → Value → U → U) (t : Token) (ts : List Token)
      (g : List Value) (vs : List (List Value)) (c : Code) (rest : List Token) (left fuel : ℕ)
      (r : d.R) (u : U)
      → Reads (run k ∷ is) (t ∷ ts) (g ∷ vs) c rest
      → Ahead r (t ∷ ts)
      → length (t ∷ ts) ≤ fuel
      → ((r' : d.R) (left_ts : List Token) (u' : U)
          → Reads is left_ts vs c rest
          → Ahead r' left_ts
          → length left_ts ≤ fuel
          → Ends d Ahead At laws U
              (items_loop d U left fuel success
                (spec_text is)
                (arguments d U is (later puts))
                r'
                u')
              (stores (later puts) vs u')
              c
              rest)
      → Ends d Ahead At laws U
          (items_loop d U
            (suc left)
            fuel
            success
            (letter k ∷ b'*' ∷ spec_text is)
            (arguments d U (run k ∷ is) puts)
            r
            u)
          (stores puts (g ∷ vs) u)
          c
          rest
  unfolding Runs modifier value_read stores
  run_case k is puts t ts g vs c rest left fuel r u reads ahead enough behind =
      let (r', read, at) = laws.read_lem r t ts ahead in
      let args = arguments d U is (later puts) in
      let (last, left_ts, ends, ahead', reads', short) =
        loop-Runs k is (puts 0) args t ts g vs c rest fuel r' u reads enough at in
      round-next d Ahead At laws U left fuel (letter k) (b'*' ∷ spec_text is) (spec_text is) many
        (store (some (puts 0)) ∷ args) args r last u (written (puts 0) g u) _ c rest refl
        (item_read d Ahead At laws U (puts 0) k fuel many args r r' u read ∙ ends)
        (behind last left_ts (written (puts 0) g u) reads' ahead' short)
