-- ===== src/Proto/Reader/Runs.antt =====
-- A concrete run of `read_one_value`.
use mrksvnup.Base.{◌≡◌, refl, List, [], ◌∷◌, codes, some, arith}
use mrksvnup.Proto.Stream.{View, views, views-IsBytestream}
use mrksvnup.Proto.Tokenizer.{State, is_word}
use mrksvnup.Proto.Unpack.{success}
use mrksvnup.Proto.Unpack.Tokens.{Token, number, word, string, open_list, close_list, state_of}
use mrksvnup.Proto.Reader.{read_one_value}
use mrksvnup.Proto.Reader.Spelled.{read_code, Shows}
use mrksvnup.Proto.Reader.Texts.{
  all_fit, all_fit-All, no_data, moved_down, moved_down-Recycles, AheadBuffer, from_tokens,
  Holds-buffer, text_of, read_one_value-text_of,
}

-- "dir ( 7 2:a( ) "
abbrev rest : List Token
rest = open_list ∷ number 7 ∷ string (codes "a(") ∷ close_list ∷ []

read_one_value-text_of_example :
    (r : State × View) × (read_code (
        read_one_value views no_data 1
          (from_tokens (word (codes "dir") ∷ rest)).0
          (from_tokens (word (codes "dir") ∷ rest)).1)
      ≡ some (success, r))
    × (r.0.tokenizer_state ≡ state_of (word (codes "dir")))
    × Shows (word (codes "dir")) (r.0, r.1)
    × AheadBuffer r rest
unfolding all_fit is_word
read_one_value-text_of_example =
    read_one_value-text_of views (λ v. v) views-IsBytestream no_data moved_down moved_down-Recycles
      0 (word (codes "dir")) rest (from_tokens (word (codes "dir") ∷ rest)).0
      (from_tokens (word (codes "dir") ∷ rest)).1 refl refl (omega arith)
      (all_fit-All (word (codes "dir") ∷ rest) refl)
      (Holds-buffer (text_of (word (codes "dir") ∷ rest))) (omega arith)
