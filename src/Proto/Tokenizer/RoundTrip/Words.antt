-- ===== src/Proto/Tokenizer/RoundTrip/Words.antt =====
-- Words, as `parse_one_value` reads them, and a call that starts at the space behind a parenthesis.
use mrksvnup.Base.{
  ℕ, zero, suc, ◌+◌, ◌-◌, ◌*◌, ◌≤◌, ◌<◌, ◌≡◌, refl, sym, subst, ap, ◌∙◌, Bool, true, false, [], ◌∷◌,
  Bytes, length, arith, All,
}
use mrksvnup.Base.Buffers.{Holds}
use mrksvnup.Proto.Stream.{View, views, advanced, written}
use mrksvnup.Proto.Tokenizer.{
  TokState, State, Round, again, return, done, stuck, is_out, is_space, is_digit, is_alpha, is_word,
  space_step, digit_step, word_step, char_step, tok_step, parse_loop, parse_one_value, after, round,
}
use mrksvnup.Proto.Tokenizer.RoundTrip.Tokens.{
  moved, moved-zero, moved-advanced, parse_loop-again, parse_loop-return, fuel-eq,
}

abbrev pub IsWordByte : ℕ → Type 0
IsWordByte c = is_word c ≡ true

-- A word begins with a letter or a dash, and goes on with letters, dashes and digits.
abbrev pub IsWord : Bytes → Type 0
IsWord [] = 0 < 0
IsWord (c ∷ cs) = IsWordByte c × (is_digit c ≡ false) × All IsWordByte cs

word-first :
    (t : TokState) (st : State) (v : View)
    → is_out t ≡ true
    → IsWordByte (v.bytes v.spos)
    → is_digit (v.bytes v.spos) ≡ false
    → tok_step views t st v
      ≡ again (record st { tokenizer_state = TokState.tok_in; r_start = v.spos }) (advanced v)
unfolding tok_step char_step word_step is_word is_alpha is_digit is_space
word-first _ st v out letter first = ground arith

word-again :
    (t : TokState) (st : State) (v : View)
    → t ≡ TokState.tok_in
    → IsWordByte (v.bytes v.spos)
    → tok_step views t st v ≡ again st (advanced v)
unfolding tok_step char_step word_step digit_step is_word is_alpha is_digit is_space
word-again TokState.tok_in st v e letter = ground arith
word-again _ st v e letter = ground arith

word-space :
    (t : TokState) (st : State) (v : View)
    → t ≡ TokState.tok_in
    → is_space (v.bytes v.spos) ≡ true
    → tok_step views t st v
      ≡ return done
          (record st { tokenizer_state = TokState.tok_out; r_end = v.spos })
          (advanced (written 0 v))
unfolding tok_step char_step space_step
word-space TokState.tok_in st v e space = ground arith
word-space _ st v e space = ground arith

word-run :
    (cs : Bytes) (total fuel : ℕ) (st : State) (v : View)
    → total ≡ length cs + fuel
    → st.tokenizer_state ≡ TokState.tok_in
    → All IsWordByte cs
    → Holds v.bytes v.spos cs
    → v.spos + length cs ≤ v.seod
    → parse_loop views total st v ≡ parse_loop views fuel st (moved (length cs) v)
unfolding Holds
word-run [] total fuel st v enough e all holds inside =
    fuel-eq total fuel st v (omega arith) ∙ ap (parse_loop views fuel st) (moved-zero v)
word-run (c ∷ cs) total fuel st v enough e (letter, letters) (here, there) inside =
    fuel-eq total (suc (length cs + fuel)) st v (omega arith)
    ∙ parse_loop-again (length cs + fuel) st st v (advanced v) (omega arith)
        (word-again st.tokenizer_state st v e (subst IsWordByte (sym here) letter))
    ∙ word-run cs (length cs + fuel) fuel st (advanced v) refl e letters there (omega arith)
    ∙ ap (parse_loop views fuel st) (moved-advanced (length cs) v)

-- The state behind a word of `m` bytes from place `a` on.
abbrev pub word_read : ℕ → ℕ → State → State
word_read a m st = record st { tokenizer_state = TokState.tok_out; r_start = a; r_end = a + m }

pub views-word :
    (w : Bytes) (st : State) (v : View)
    → IsWord w
    → is_out st.tokenizer_state ≡ true
    → Holds v.bytes v.spos w
    → is_space (v.bytes (v.spos + length w)) ≡ true
    → v.spos + length w < v.seod
    → parse_one_value views st v
      ≡ (done, word_read v.spos (length w) st, advanced (written 0 (moved (length w) v)))
unfolding parse_one_value Holds
views-word [] st v empty out holds space inside = absurd (omega arith)
views-word (c ∷ cs) st v (letter, first, letters) out (here, there) space inside =
    let fuel = 2 * (v.seod - v.spos) + 2 in
    let left = fuel - (length cs + 2) in
    let w = moved (length (c ∷ cs)) v in
    let opened : State = record st { tokenizer_state = TokState.tok_in; r_start = v.spos } in
    fuel-eq fuel (suc (length cs + suc left)) st v (omega arith)
    ∙ parse_loop-again (length cs + suc left) st opened v (advanced v) (omega arith) (
        word-first st.tokenizer_state st v out (subst IsWordByte (sym here) letter)
          (ap is_digit here ∙ first))
    ∙ word-run cs (length cs + suc left) (suc left) opened (advanced v) refl refl letters there
        (omega arith)
    ∙ ap (parse_loop views (suc left) opened) (moved-advanced (length cs) v)
    ∙ parse_loop-return left opened _ w _ done inside
        (word-space TokState.tok_in opened w refl space)

-- A call that ends has fuel enough with one unit more.
after-done :
    (f : ℕ) (o : Round views) (st' : State) (v' : View)
    → ((st : State) (v : View)
        → parse_loop views f st v ≡ (done, st', v')
        → parse_loop views (suc f) st v ≡ (done, st', v'))
    → after views (parse_loop views f) o ≡ (done, st', v')
    → after views (parse_loop views (suc f)) o ≡ (done, st', v')
unfolding after
after-done f (again st v) st' v' more h = more st v h
after-done f (return r st v) st' v' more h = h

round-done :
    (f : ℕ) (d : Bool) (st st' : State) (v v' : View)
    → ((st : State) (v : View)
        → parse_loop views f st v ≡ (done, st', v')
        → parse_loop views (suc f) st v ≡ (done, st', v'))
    → round views (parse_loop views f) d st v ≡ (done, st', v')
    → round views (parse_loop views (suc f)) d st v ≡ (done, st', v')
unfolding round
round-done f true st st' v v' more h = h
round-done f false st st' v v' more h =
    after-done f (tok_step views st.tokenizer_state st v) st' v' more h

parse_loop-done :
    (f : ℕ) (st st' : State) (v v' : View)
    → parse_loop views f st v ≡ (done, st', v')
    → parse_loop views (suc f) st v ≡ (done, st', v')
unfolding parse_loop
parse_loop-done zero st st' v v' h =
    let e : stuck ≡ done = ap (λ o. o.0) h in absurd (ground (arith, e))
parse_loop-done (suc f) st st' v v' h =
    round-done f (views.sneedmore v) st st' v v' (λ st v. parse_loop-done f st st' v v') h

abbrev pub is_list : TokState → Bool
is_list TokState.list_start = true
is_list TokState.list_end = true
is_list _ = false

list-space :
    (t : TokState) (st : State) (v : View)
    → is_list t ≡ true
    → is_space (v.bytes v.spos) ≡ true
    → tok_step views t st v ≡ again (record st { tokenizer_state = TokState.start }) (advanced v)
unfolding tok_step char_step space_step
list-space _ st v list space = ground arith

-- Behind a parenthesis, at the space, a call reads what a call behind the space reads.
pub views-behind_list :
    (st st' : State) (v v' : View)
    → is_list st.tokenizer_state ≡ true
    → is_space (v.bytes v.spos) ≡ true
    → v.spos < v.seod
    → parse_one_value views (record st { tokenizer_state = TokState.start }) (advanced v)
      ≡ (done, st', v')
    → parse_one_value views st v ≡ (done, st', v')
unfolding parse_one_value
views-behind_list st st' v v' list space inside h =
    let fuel = 2 * (v.seod - suc v.spos) + 2 in
    let open_ : State = record st { tokenizer_state = TokState.start } in
    fuel-eq (2 * (v.seod - v.spos) + 2) (suc (suc fuel)) st v (omega arith)
    ∙ parse_loop-again (suc fuel) st open_ v (advanced v) inside
        (list-space st.tokenizer_state st v list space)
    ∙ parse_loop-done fuel open_ st' (advanced v) v' h
