-- ===== src/Proto/Unpack/Matches.antt =====
-- `svnproto_vunpack` on a format and a row of tokens.
use mrksvnup.Base.{ℕ, zero, suc, ◌≤◌, ◌<◌, ◌≡◌, refl, ◌∙◌, List, [], ◌∷◌, length, some, arith}
use mrksvnup.Proto.Unpack.{
  Code, success, Value, Reader, is_list_start, is_list_end, once, optional, modifier, suppressed,
  store, unpacked,
}
use mrksvnup.Proto.Unpack.Format.{item, ended, items_loop, svnproto_vunpack}
use mrksvnup.Proto.Unpack.Tokens.{Token, open_list, close_list, IsReader}
use mrksvnup.Proto.Unpack.Formats.{
  Kind, numbers, words, strings, Item, letter, spec_text, value_of, absent_value, error_of, Reads,
  finished, opened, closed, not_opened, not_closed, taken, not_taken, present, absent, more,
  no_more, modifier-spec_text,
}
use mrksvnup.Proto.Unpack.Stores.{later, written, stores, arguments}
use mrksvnup.Proto.Unpack.Steps.{
  Ends, item_read, once_taken, optional_taken, once_left, optional_left, round-next, round-stop,
  paren_taken, paren_left, opens-state_of, closes-state_of,
}
use mrksvnup.Proto.Unpack.Repeats.{run_case}

error_of-lt : (k : Kind) → error_of k < 100
error_of-lt numbers = omega arith
error_of-lt words = omega arith
error_of-lt strings = omega arith

module _ (d : Reader) (Ahead : d.R → List Token → Type 0) (At : d.R → Token → List Token → Type 0)
    (laws : IsReader d Ahead At) (U : Type 0) where
  no_items :
      (left fuel : ℕ) (r : d.R) (u : U)
      → items_loop d U (suc left) fuel success [] [] r u ≡ unpacked success r u
  unfolding items_loop ended suppressed
  no_items left fuel r u = refl

  -- The loop over the format.
  items_loop-Reads :
      (is : List Item) (puts : ℕ → Value → U → U) (ts : List Token) (vs : List (List Value))
      (c : Code) (rest : List Token) (left fuel : ℕ) (r : d.R) (u : U)
      → Reads is ts vs c rest
      → Ahead r ts
      → length (spec_text is) < left
      → length ts ≤ fuel
      → Ends d Ahead At laws U
          (items_loop d U left fuel success (spec_text is) (arguments d U is puts) r u)
          (stores puts vs u)
          c
          rest
  unfolding spec_text modifier item stores written
  items_loop-Reads is puts ts vs c rest zero fuel r u reads ahead items enough =
      absurd (omega arith)
  items_loop-Reads is puts ts vs c rest (suc left) fuel r u finished ahead items enough =
      (r, no_items left fuel r u, ahead)
  items_loop-Reads is puts ts vs c rest (suc left) fuel r u (opened {is = is'} {ts = ts'} reads)
        ahead items enough =
      let args = arguments d U is' puts in
      let (r', read, at) = laws.read_lem r open_list ts' ahead in
      round-next d Ahead At laws U left fuel b'(' (spec_text is') (spec_text is') once (args) (args)
        r r' u u _ c rest (modifier-spec_text is')
        (paren_taken d Ahead At laws U is_list_start 1 args r r' open_list ts' u refl read at)
        (items_loop-Reads is' puts ts' vs c rest left fuel r' u reads
          (laws.go_on r' open_list ts' at) (omega arith) (omega arith))
  items_loop-Reads is puts ts vs c rest (suc left) fuel r u (closed {is = is'} {ts = ts'} reads)
        ahead items enough =
      let args = arguments d U is' puts in
      let (r', read, at) = laws.read_lem r close_list ts' ahead in
      round-next d Ahead At laws U left fuel b')' (spec_text is') (spec_text is') once (args) (args)
        r r' u u _ c rest (modifier-spec_text is')
        (paren_taken d Ahead At laws U is_list_end 2 args r r' close_list ts' u refl read at)
        (items_loop-Reads is' puts ts' vs c rest left fuel r' u reads
          (laws.go_on r' close_list ts' at) (omega arith) (omega arith))
  items_loop-Reads is puts ts vs c rest (suc left) fuel r u
        (not_opened {is = is'} {t = t} {ts = ts'} fit steady) ahead items enough =
      let args = arguments d U is' puts in
      let (r', read, at) = laws.read_lem r t ts' ahead in
      round-stop d Ahead At laws U left fuel b'(' 1 (spec_text is') (spec_text is') once args r
        (d.step_back r') u rest (omega arith) (modifier-spec_text is')
        (paren_left d Ahead At laws U is_list_start 1 args r r' t ts' u (opens-state_of t ∙ fit)
          read at)
        (laws.step_back_lem r' t ts' steady at)
  items_loop-Reads is puts ts vs c rest (suc left) fuel r u
        (not_closed {is = is'} {t = t} {ts = ts'} fit steady) ahead items enough =
      let args = arguments d U is' puts in
      let (r', read, at) = laws.read_lem r t ts' ahead in
      round-stop d Ahead At laws U left fuel b')' 2 (spec_text is') (spec_text is') once args r
        (d.step_back r') u rest (omega arith) (modifier-spec_text is')
        (paren_left d Ahead At laws U is_list_end 2 args r r' t ts' u (closes-state_of t ∙ fit) read
          at)
        (laws.step_back_lem r' t ts' steady at)
  items_loop-Reads is puts ts vs c rest (suc left) fuel r u
        (taken {k = k} {is = is'} {t = t} {ts = ts'} {vs = vs'} fit reads) ahead items enough =
      let args = arguments d U is' (later puts) in
      let (r', read, at) = laws.read_lem r t ts' ahead in
      let u' = puts 0 (value_of t) u in
      round-next d Ahead At laws U left fuel (letter k) (spec_text is') (spec_text is') once
        (store (some (puts 0)) ∷ args) (args) r r' u u' _ c rest (modifier-spec_text is')
        (item_read d Ahead At laws U (puts 0) k fuel once args r r' u read
          ∙ once_taken d Ahead At laws U (puts 0) k fuel args r' t ts' u fit at)
        (items_loop-Reads is' (later puts) ts' vs' c rest left fuel r' u' reads
          (laws.go_on r' t ts' at) (omega arith) (omega arith))
  items_loop-Reads is puts ts vs c rest (suc left) fuel r u
        (present {k = k} {is = is'} {t = t} {ts = ts'} {vs = vs'} fit reads) ahead items enough =
      let args = arguments d U is' (later puts) in
      let (r', read, at) = laws.read_lem r t ts' ahead in
      let u' = puts 0 (value_of t) u in
      round-next d Ahead At laws U left fuel (letter k) (b'?' ∷ spec_text is') (spec_text is')
        optional (store (some (puts 0)) ∷ args) (args) r r' u u' _ c rest refl
        (item_read d Ahead At laws U (puts 0) k fuel optional args r r' u read
          ∙ optional_taken d Ahead At laws U (puts 0) k fuel args r' t ts' u fit at)
        (items_loop-Reads is' (later puts) ts' vs' c rest left fuel r' u' reads
          (laws.go_on r' t ts' at) (omega arith) (omega arith))
  items_loop-Reads is puts ts vs c rest (suc left) fuel r u
        (not_taken {k = k} {is = is'} {t = t} {ts = ts'} fit steady) ahead items enough =
      let args = arguments d U is' (later puts) in
      let (r', read, at) = laws.read_lem r t ts' ahead in
      round-stop d Ahead At laws U left fuel (letter k) (error_of k) (spec_text is') (spec_text is')
        once (store (some (puts 0)) ∷ args) r (d.step_back r') u rest (error_of-lt k)
        (modifier-spec_text is')
        (item_read d Ahead At laws U (puts 0) k fuel once args r r' u read
          ∙ once_left d Ahead At laws U (puts 0) k fuel args r' t ts' u fit at)
        (laws.step_back_lem r' t ts' steady at)
  items_loop-Reads is puts ts vs c rest (suc left) fuel r u
        (absent {k = k} {is = is'} {t = t} {ts = ts'} {vs = vs'} fit steady reads) ahead items
        enough =
      let args = arguments d U is' (later puts) in
      let (r', read, at) = laws.read_lem r t ts' ahead in
      let u' = puts 0 (absent_value k) u in
      round-next d Ahead At laws U left fuel (letter k) (b'?' ∷ spec_text is') (spec_text is')
        optional (store (some (puts 0)) ∷ args) (args) r (d.step_back r') u u' _ c rest refl
        (item_read d Ahead At laws U (puts 0) k fuel optional args r r' u read
          ∙ optional_left d Ahead At laws U (puts 0) k fuel args r' t ts' u fit at)
        (items_loop-Reads is' (later puts) ts vs' c rest left fuel (d.step_back r') u' reads
          (laws.step_back_lem r' t ts' steady at) (omega arith) enough)
  items_loop-Reads is puts ts vs c rest (suc left) fuel r u
        (more {k = k} {is = is'} {t = t} {ts = ts'} {g = g} {vs = vs'} fit reads) ahead items
        enough =
      run_case d Ahead At laws U k is' puts t ts' (value_of t ∷ g) vs' c rest left fuel r u
        (more fit reads) ahead enough
        (λ r' left_ts u' behind ahead' short.
          items_loop-Reads is' (later puts) left_ts vs' c rest left fuel r' u' behind ahead'
            (omega arith) short)
  items_loop-Reads is puts ts vs c rest (suc left) fuel r u
        (no_more {k = k} {is = is'} {t = t} {ts = ts'} {vs = vs'} fit steady reads) ahead items
        enough =
      run_case d Ahead At laws U k is' puts t ts' [] vs' c rest left fuel r u
        (no_more fit steady reads) ahead enough
        (λ r' left_ts u' behind ahead' short.
          items_loop-Reads is' (later puts) left_ts vs' c rest left fuel r' u' behind ahead'
            (omega arith) short)

  -- Where a format of parentheses and of items n, w and s, plain, optional or repeated, reads a row of
  -- tokens, and the tokens come next: `svnproto_vunpack` ends with the result that the reading gives,
  -- 0 or the number of the item that does not match, each item that it has reached has stored the
  -- values of its group, in order, through its own argument, and the tokens behind come next, with
  -- the one that did not match.
  pub svnproto_vunpack-Reads :
      (is : List Item) (puts : ℕ → Value → U → U) (ts : List Token) (vs : List (List Value))
      (c : Code) (rest : List Token) (fuel : ℕ) (r : d.R) (u : U)
      → Reads is ts vs c rest
      → Ahead r ts
      → length ts ≤ fuel
      → (r' : d.R) × (svnproto_vunpack d U fuel (spec_text is) (arguments d U is puts) r u
          ≡ unpacked c r' (stores puts vs u))
        × Ahead r' rest
  unfolding svnproto_vunpack
  svnproto_vunpack-Reads is puts ts vs c rest fuel r u reads ahead enough =
      items_loop-Reads is puts ts vs c rest (suc (length (spec_text is))) fuel r u reads ahead
        (omega arith) enough
