-- ===== src/Proto/Tokenizer/RoundTrip/Tokens.antt =====
-- Runs of the loop over the bytes of a token.
use mrksvnup.Base.{
  ◌*◌, ℕ, zero, suc, ◌+◌, ◌-◌, ◌≤◌, ◌<◌, ◌≡◌, refl, sym, subst, ap, ◌∙◌, true, false, leb, [], ◌∷◌,
  Bytes, length, arith, All,
}
use mrksvnup.Proto.Stream.{View, views, advanced, written}
use mrksvnup.Proto.Tokenizer.{
  TokState, State, Res, again, return, done, is_out, is_space, is_digit, strtol, string_step,
  space_step, digit_step, colon_step, char_step, tok_step, parse_loop, after, round, list_step,
  parse_one_value,
}
use mrksvnup.Proto.Tokenizer.RoundTrip.Digits.{IsDigit}
use mrksvnup.Base.Buffers.{Holds}

-- The view `n` bytes further on.
abbrev pub moved : ℕ → View → View
moved n v = record v { spos = v.spos + n }

behind : (v : View) → v.spos < v.seod → leb v.seod v.spos ≡ false
behind v more = ground arith

-- One round that goes on.
pub parse_loop-again :
    (fuel : ℕ) (st st' : State) (v v' : View)
    → v.spos < v.seod
    → tok_step views st.tokenizer_state st v ≡ again st' v'
    → parse_loop views (suc fuel) st v ≡ parse_loop views fuel st' v'
unfolding parse_loop round after
parse_loop-again fuel st st' v v' more step =
    ap (λ d. round views (parse_loop views fuel) d st v) (behind v more)
    ∙ ap (after views (parse_loop views fuel)) step

-- One round that returns.
pub parse_loop-return :
    (fuel : ℕ) (st st' : State) (v v' : View) (r : Res)
    → v.spos < v.seod
    → tok_step views st.tokenizer_state st v ≡ return r st' v'
    → parse_loop views (suc fuel) st v ≡ (r, st', v')
unfolding parse_loop round after
parse_loop-return fuel st st' v v' r more step =
    ap (λ d. round views (parse_loop views fuel) d st v) (behind v more)
    ∙ ap (after views (parse_loop views fuel)) step

-- A digit, inside a number.
digit-again :
    (t : TokState) (st : State) (v : View)
    → t ≡ TokState.num_in
    → IsDigit (v.bytes v.spos)
    → tok_step views t st v ≡ again st (advanced v)
unfolding tok_step char_step digit_step is_digit is_space
digit-again TokState.num_in st v e digit = ground arith
digit-again _ st v e digit = ground arith

-- The first digit.
pub digit-first :
    (t : TokState) (st : State) (v : View)
    → is_out t ≡ true
    → IsDigit (v.bytes v.spos)
    → tok_step views t st v
      ≡ again (record st { tokenizer_state = TokState.num_in; r_start = v.spos }) (advanced v)
unfolding tok_step char_step digit_step is_digit is_space
digit-first _ st v out digit = ground arith

pub colon-again :
    (t : TokState) (st : State) (v : View)
    → t ≡ TokState.num_in
    → v.bytes v.spos ≡ b':'
    → tok_step views t st v
      ≡ again
          (record st {
            tokenizer_state = TokState.string_in;
            r_end = v.spos;
            i = strtol (written 0 v).bytes (v.spos - st.r_start) st.r_start;
            r_start = suc v.spos;
          })
          (advanced (written 0 v))
unfolding tok_step char_step colon_step is_digit is_space
colon-again TokState.num_in st v e colon = ground arith
colon-again _ st v e colon = ground arith

pub string-again :
    (t : TokState) (st : State) (v : View)
    → t ≡ TokState.string_in
    → v.spos < st.r_start + st.i
    → tok_step views t st v ≡ again st (advanced v)
unfolding tok_step string_step
string-again TokState.string_in st v e inside = ground arith
string-again _ st v e inside = ground arith

pub string-last :
    (t : TokState) (st : State) (v : View)
    → t ≡ TokState.string_in
    → v.spos ≡ st.r_start + st.i
    → tok_step views t st v
      ≡ again (record st { tokenizer_state = TokState.string_check; r_end = v.spos }) v
unfolding tok_step string_step
string-last TokState.string_in st v e inside = ground arith
string-last _ st v e inside = ground arith

pub string-space :
    (t : TokState) (st : State) (v : View)
    → t ≡ TokState.string_check
    → v.bytes v.spos ≡ b' '
    → tok_step views t st v
      ≡ return done (record st { tokenizer_state = TokState.string_out }) (advanced (written 0 v))
unfolding tok_step char_step space_step is_space
string-space TokState.string_check st v e space = ground arith
string-space _ st v e space = ground arith

pub number-space :
    (t : TokState) (st : State) (v : View)
    → t ≡ TokState.num_in
    → is_space (v.bytes v.spos) ≡ true
    → tok_step views t st v
      ≡ return done
          (record st {
            tokenizer_state = TokState.num_out;
            r_end = v.spos;
            i = strtol (written 0 v).bytes (v.spos - st.r_start) st.r_start;
          })
          (advanced (written 0 v))
unfolding tok_step char_step space_step
number-space TokState.num_in st v e space = ground arith
number-space _ st v e space = ground arith

pub moved-zero : (v : View) → v ≡ moved 0 v
moved-zero v = ap (λ p. record v { spos = p }) (omega arith)

pub moved-advanced : (n : ℕ) (v : View) → moved n (advanced v) ≡ moved (suc n) v
moved-advanced n v = ap (λ p. record v { spos = p }) (omega arith)

pub fuel-eq :
    (m n : ℕ) (st : State) (v : View) → m ≡ n → parse_loop views m st v ≡ parse_loop views n st v
fuel-eq m n st v e = ap (λ k. parse_loop views k st v) e

pub digits-run :
    (ds : Bytes) (total fuel : ℕ) (st : State) (v : View)
    → total ≡ length ds + fuel
    → st.tokenizer_state ≡ TokState.num_in
    → All IsDigit ds
    → Holds v.bytes v.spos ds
    → v.spos + length ds ≤ v.seod
    → parse_loop views total st v ≡ parse_loop views fuel st (moved (length ds) v)
unfolding Holds
digits-run [] total fuel st v enough e all holds inside =
    fuel-eq total fuel st v (omega arith) ∙ ap (parse_loop views fuel st) (moved-zero v)
digits-run (d ∷ ds) total fuel st v enough e (digit, digits) (here, there) inside =
    fuel-eq total (suc (length ds + fuel)) st v (omega arith)
    ∙ parse_loop-again (length ds + fuel) st st v (advanced v) (omega arith)
        (digit-again st.tokenizer_state st v e (subst IsDigit (sym here) digit))
    ∙ digits-run ds (length ds + fuel) fuel st (advanced v) refl e digits there (omega arith)
    ∙ ap (parse_loop views fuel st) (moved-advanced (length ds) v)

pub string-run :
    (n total fuel : ℕ) (st : State) (v : View)
    → total ≡ n + fuel
    → st.tokenizer_state ≡ TokState.string_in
    → v.spos + n ≡ st.r_start + st.i
    → v.spos + n ≤ v.seod
    → parse_loop views total st v ≡ parse_loop views fuel st (moved n v)
string-run zero total fuel st v enough e ends inside =
    fuel-eq total fuel st v (omega arith) ∙ ap (parse_loop views fuel st) (moved-zero v)
string-run (suc n) total fuel st v enough e ends inside =
    fuel-eq total (suc (n + fuel)) st v (omega arith)
    ∙ parse_loop-again (n + fuel) st st v (advanced v) (omega arith)
        (string-again st.tokenizer_state st v e (omega arith))
    ∙ string-run n (n + fuel) fuel st (advanced v) refl e (omega arith) (omega arith)
    ∙ ap (parse_loop views fuel st) (moved-advanced n v)

list-parenthesis :
    (t : TokState) (st : State) (v : View)
    → is_out t ≡ true
    → ((v.bytes v.spos ≡ b'(')
        → tok_step views t st v
          ≡ return done
              (record st { tokenizer_state = TokState.list_start; r_start = v.spos })
              (advanced v))
      × ((v.bytes v.spos ≡ b')')
          → tok_step views t st v
            ≡ return done
                (record st { tokenizer_state = TokState.list_end; r_start = v.spos })
                (advanced v))
unfolding tok_step char_step list_step is_space
list-parenthesis _ st v out = ((λ here. ground arith), (λ here. ground arith))

parse_one_value-return :
    (st st' : State) (v v' : View)
    → v.spos < v.seod
    → tok_step views st.tokenizer_state st v ≡ return done st' v'
    → parse_one_value views st v ≡ (done, st', v')
unfolding parse_one_value
parse_one_value-return st st' v v' inside step =
    let left = 2 * (v.seod - v.spos) + 1 in
    fuel-eq (2 * (v.seod - v.spos) + 2) (suc left) st v (omega arith)
    ∙ parse_loop-return left st st' v v' done inside step

-- A left parenthesis, outside a token.
pub views-list_open :
    (st : State) (v : View)
    → is_out st.tokenizer_state ≡ true
    → v.bytes v.spos ≡ b'('
    → v.spos < v.seod
    → parse_one_value views st v
      ≡ (done, record st { tokenizer_state = TokState.list_start; r_start = v.spos }, advanced v)
views-list_open st v out here inside =
    parse_one_value-return st _ v _ inside ((list-parenthesis st.tokenizer_state st v out).0 here)

-- A right one.
pub views-list_close :
    (st : State) (v : View)
    → is_out st.tokenizer_state ≡ true
    → v.bytes v.spos ≡ b')'
    → v.spos < v.seod
    → parse_one_value views st v
      ≡ (done, record st { tokenizer_state = TokState.list_end; r_start = v.spos }, advanced v)
views-list_close st v out here inside =
    parse_one_value-return st _ v _ inside ((list-parenthesis st.tokenizer_state st v out).1 here)
