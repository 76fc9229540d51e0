-- ===== src/Proto/Pack/Runs.antt =====
-- Concrete runs of the packers, and of the tokenizer over what they have packed.
use mrksvnup.Base.{
  ℕ, ◌≡◌, inr, refl, [], ◌∷◌, ◌++◌, Bytes, length, get_elem?, none, some, ok, arith, Outcome,
}
use mrksvnup.Base.Buffers.{Holds}
use mrksvnup.Proto.Pack.{Output, IsOutput, pack_string, pack_list, pack_number, signed_text}
use mrksvnup.Proto.Pack.Text.{
  Appends, parse_one_value-pack_string, parse_one_value-pack_number, pack_list-Appends,
}
use mrksvnup.Proto.Stream.{View, views, views-IsBytestream}
use mrksvnup.Proto.Tokenizer.{svnproto_state_init, parse_one_value, done}
use mrksvnup.Proto.Tokenizer.Simulation.{outcome}
use mrksvnup.Proto.Tokenizer.RoundTrip.Digits.{decimal, decimal_text}
use mrksvnup.Proto.Tokenizer.RoundTrip.Strings.{string_start, string_read, string_view}
use mrksvnup.Proto.Tokenizer.RoundTrip.Numbers.{number_read, number_view}

abbrev held : Bytes → ℕ → ℕ
held xs i = elim (get_elem? xs i) [ none ↦ 0 | some c ↦ c ]

-- "( 4", a string whose contents look like a list.
abbrev list_string : Bytes
list_string = b'(' ∷ b' ' ∷ b'4' ∷ []

-- An output stream that never fails.
abbrev endless : Output
endless = record {
  Out = Bytes;
  nprintf = λ n s out. some (out ++ s);
  cat = λ s out. some (out ++ s);
}

endless-IsOutput : IsOutput endless (λ out. out)
endless-IsOutput = record {
  nprintf_lem = λ n s out h. inr (out ++ s, refl, refl);
  cat_lem = λ s out. inr (out ++ s, refl, refl);
}

-- "x " and then "3:( 4 ".
abbrev packed_before : Bytes
packed_before = b'x' ∷ b' ' ∷ []

abbrev packed_after : Bytes
packed_after = b'x' ∷ b' ' ∷ b'3' ∷ b':' ∷ b'(' ∷ b' ' ∷ b'4' ∷ b' ' ∷ []

abbrev received : View
received = record { bytes = held packed_after; spos = 2; seod = 8 }

parse_one_value-pack_string_example :
    (outcome views (λ v. v) views-IsBytestream (parse_one_value views svnproto_state_init received)
      ≡ (
        done,
        string_read (string_start list_string 2) 3 svnproto_state_init,
        string_view list_string received,
      ))
    × Holds (string_view list_string received).bytes (string_start list_string 2) list_string
unfolding Holds decimal_text decimal pack_string
parse_one_value-pack_string_example =
    parse_one_value-pack_string endless (λ out. out) endless-IsOutput views (λ v. v)
      views-IsBytestream list_string packed_before packed_after svnproto_state_init received refl
      (omega arith) (refl, (refl, (refl, (refl, (refl, (refl, (refl, (refl, tt)))))))) refl
      (omega arith) refl

-- "42 ".
abbrev packed_number : Bytes
packed_number = b'4' ∷ b'2' ∷ b' ' ∷ []

abbrev received_number : View
received_number = record { bytes = held packed_number; spos = 0; seod = 3 }

parse_one_value-pack_number_example :
    outcome views
      (λ v. v)
      views-IsBytestream
      (parse_one_value views svnproto_state_init received_number)
    ≡ (
      done,
      number_read 0 (length (decimal_text 42)) 42 svnproto_state_init,
      number_view 42 received_number,
    )
unfolding Holds decimal_text decimal pack_number signed_text
parse_one_value-pack_number_example =
    parse_one_value-pack_number endless (λ out. out) endless-IsOutput views (λ v. v)
      views-IsBytestream 42 [] packed_number svnproto_state_init received_number refl (omega arith)
      (refl, (refl, (refl, tt))) refl (omega arith) refl

-- A callback that packs "42 ".
abbrev forty_two : Bytes → Outcome Bytes
forty_two out = ok (out ++ packed_number)

pack_list-Appends_example :
    Appends endless
      (λ out. out)
      endless-IsOutput
      (pack_list endless (some forty_two) [])
      []
      ((b'(' ∷ b' ' ∷ []) ++ (packed_number ++ (b')' ∷ b' ' ∷ [])))
pack_list-Appends_example =
    pack_list-Appends endless (λ out. out) endless-IsOutput forty_two packed_number
      (λ out. inr (out ++ packed_number, refl, refl)) []
