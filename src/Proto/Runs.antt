-- ===== src/Proto/Runs.antt =====
-- Concrete runs of the tokenizer, on a buffer that shows itself.
use mrksvnup.Base.{
  true, suc, false, Bool, ℕ, ◌≡◌, ◌≢◌, ◌⊎◌, refl, [], ◌∷◌, Bytes, length, get_elem?, none, some,
  arith,
}
use mrksvnup.Base.Buffers.{Holds}
use mrksvnup.Proto.Reader.{read_one_value}
use mrksvnup.Proto.Reader.Again.{at, read_one_value-number_again, read_one_value-string_again}
use mrksvnup.Proto.Stream.{View, views, views-IsBytestream}
use mrksvnup.Proto.Tokenizer.{
  TokState, svnproto_state_init, parse_one_value, done, stuck, need_more,
}
use mrksvnup.Proto.Tokenizer.Simulation.{outcome}
use mrksvnup.Proto.Tokenizer.Total.{IsForward, parse_one_value-Answers}
use mrksvnup.Proto.Tokenizer.RoundTrip.Digits.{decimal, decimal_text}
use mrksvnup.Proto.Tokenizer.RoundTrip.Strings.{
  string_start, string_read, string_view, parse_one_value-string_text,
}
use mrksvnup.Proto.Tokenizer.RoundTrip.Numbers.{
  number_read, number_view, parse_one_value-number_text,
}

abbrev held : Bytes → ℕ → ℕ
held xs i = elim (get_elem? xs i) [ none ↦ 0 | some c ↦ c ]

abbrev buffer : Bytes → View
buffer xs = record { bytes = held xs; spos = 0; seod = length xs }

-- "a (", a string that looks like the start of a list.
abbrev odd_string : Bytes
odd_string = b'a' ∷ b' ' ∷ b'(' ∷ []

-- "3:a ( 42 "
abbrev two_tokens : View
two_tokens = buffer (b'3' ∷ b':' ∷ b'a' ∷ b' ' ∷ b'(' ∷ b' ' ∷ b'4' ∷ b'2' ∷ b' ' ∷ [])

abbrev number_rest : Bytes
number_rest = b'4' ∷ b'2' ∷ b' ' ∷ []

parse_one_value-string_text_example :
    (outcome views
        (λ v. v)
        views-IsBytestream
        (parse_one_value views svnproto_state_init two_tokens)
      ≡ (
        done,
        string_read (string_start odd_string 0) 3 svnproto_state_init,
        string_view odd_string two_tokens,
      ))
    × Holds (string_view odd_string two_tokens).bytes (string_start odd_string 0) odd_string
    × Holds
        (string_view odd_string two_tokens).bytes
        (string_view odd_string two_tokens).spos
        number_rest
unfolding Holds decimal_text decimal
parse_one_value-string_text_example =
    parse_one_value-string_text views (λ v. v) views-IsBytestream odd_string number_rest
      svnproto_state_init two_tokens refl (omega arith)
      (refl, (refl, (refl, (refl, (refl, (refl, (refl, (refl, (refl, tt))))))))) (omega arith)

-- "42 )"
abbrev number_buffer : View
number_buffer = buffer (b'4' ∷ b'2' ∷ b' ' ∷ b')' ∷ [])

parse_one_value-number_text_example :
    (outcome views
        (λ v. v)
        views-IsBytestream
        (parse_one_value views svnproto_state_init number_buffer)
      ≡ (
        done,
        number_read 0 (length (decimal_text 42)) 42 svnproto_state_init,
        number_view 42 number_buffer,
      ))
    × Holds (number_view 42 number_buffer).bytes (number_view 42 number_buffer).spos (b')' ∷ [])
unfolding Holds decimal_text decimal
parse_one_value-number_text_example =
    parse_one_value-number_text views (λ v. v) views-IsBytestream 42 (b')' ∷ []) svnproto_state_init
      number_buffer refl (omega arith) (refl, (refl, (refl, (refl, tt)))) (omega arith)

parse_one_value-Answers_example :
    ((parse_one_value views svnproto_state_init number_buffer).0 ≢ stuck)
    × IsForward number_buffer (parse_one_value views svnproto_state_init number_buffer).2
    × (((parse_one_value views svnproto_state_init number_buffer).0 ≢ need_more)
        ⊎ ((parse_one_value views svnproto_state_init number_buffer).2.spos ≡ 4))
parse_one_value-Answers_example =
    parse_one_value-Answers views (λ v. v) views-IsBytestream svnproto_state_init number_buffer
      (omega arith)

-- A connection that has no more data.
abbrev closed : View → Bool × View
closed v = (false, v)

read_one_value-number_again_example :
    outcome views
      (λ v. v)
      views-IsBytestream
      (read_one_value views closed 1
        (record (parse_one_value views svnproto_state_init number_buffer).1 { backtrack = true })
        (parse_one_value views svnproto_state_init number_buffer).2)
    ≡ (
      done,
      number_read 0 (length (decimal_text 42)) 42 svnproto_state_init,
      number_view 42 (at 0 (number_view 42 number_buffer)),
    )
unfolding Holds decimal_text decimal
read_one_value-number_again_example =
    read_one_value-number_again views (λ v. v) views-IsBytestream closed 42 0 (b')' ∷ [])
      svnproto_state_init number_buffer refl (omega arith) (refl, (refl, (refl, (refl, tt))))
      (omega arith)

-- "( 4", a string whose contents look like a list.
abbrev list_string : Bytes
list_string = b'(' ∷ b' ' ∷ b'4' ∷ []

-- "3:( 4 )"
abbrev string_buffer : View
string_buffer = buffer (b'3' ∷ b':' ∷ b'(' ∷ b' ' ∷ b'4' ∷ b' ' ∷ b')' ∷ [])

read_one_value-string_again_example :
    outcome views
      (λ v. v)
      views-IsBytestream
      (read_one_value views closed 1
        (record (parse_one_value views svnproto_state_init string_buffer).1 { backtrack = true })
        (parse_one_value views svnproto_state_init string_buffer).2)
    ≡ (
      done,
      record (string_read (string_start list_string 0) 3 svnproto_state_init) {
        tokenizer_state = TokState.list_start;
        backtrack = false;
      },
      at (suc (string_start list_string 0)) (string_view list_string string_buffer),
    )
unfolding Holds decimal_text decimal
read_one_value-string_again_example =
    read_one_value-string_again views (λ v. v) views-IsBytestream closed (b' ' ∷ b'4' ∷ [])
      (b')' ∷ []) 0 svnproto_state_init string_buffer refl (omega arith)
      (refl, (refl, (refl, (refl, (refl, (refl, (refl, tt))))))) (omega arith)
