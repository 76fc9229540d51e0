-- ===== src/Proto/Unpack/Nested.antt =====
-- `svnproto_vunpack` on the two formats that end with a callback in a list: "(wr)" and "(sS)".
use mrksvnup.Base.{ℕ, ◌≡◌, refl, ◌∙◌, List, [], ◌∷◌, Bytes, codes, Option, some}
use mrksvnup.Proto.Unpack.{Code, success, other, Value, text, Reader, modifier, store, callback}
use mrksvnup.Proto.Unpack.Format.{svnproto_vunpack}
use mrksvnup.Proto.Unpack.Tokens.{Token, word, string, open_list, close_list, IsReader}
use mrksvnup.Proto.Unpack.Formats.{words, strings}
use mrksvnup.Proto.Unpack.Steps.{Ends}
use mrksvnup.Proto.Unpack.Rounds.{
  round-error, list_closed, round-goes, list_headed, call_item, call_item-other, string_item_lem,
  string_item_lem-other,
}

module _ (d : Reader) (Ahead : d.R → List Token → Type 0) (At : d.R → Token → List Token → Type 0)
    (laws : IsReader d Ahead At) (U : Type 0) where
  -- A word and a call, "(wr)".
  pub word_call :
      (put : Value → U → U) (f : d.R → U → Option (Code × d.R × U)) (w : Bytes)
      (ts rest : List Token) (fuel : ℕ) (r : d.R) (u u' : U)
      → Ahead r (open_list ∷ word w ∷ ts)
      → ((r1 : d.R)
          → Ahead r1 ts
          → (r2 : d.R) × (f r1 (put (text w) u) ≡ some (success, r2, u'))
            × Ahead r2 (close_list ∷ rest))
      → Ends d Ahead At laws U
          (svnproto_vunpack d U fuel (codes "(wr)") (store (some put) ∷ callback (some f) ∷ []) r u)
          u'
          success
          rest
  unfolding modifier
  word_call put f w ts rest fuel r u u' ahead calls =
      let (r1, e1, ahead1) =
        list_headed d Ahead At laws U put words (word w) ts (codes "r)") (callback (some f) ∷ [])
          fuel r u refl refl refl ahead in
      let (r2, e2, ahead2) = calls r1 ahead1 in
      let (r3, e3, ahead3) =
        list_closed d Ahead At laws U 0 fuel rest (d.recycle r2) u'
          (laws.recycle_lem r2 (close_list ∷ rest) ahead2) in
      (
        r3,
        e1
            ∙ round-goes d Ahead At laws U 2 fuel b'r' (codes ")") (callback (some f) ∷ []) [] r1
                (d.recycle r2) (put (text w) u) u' refl
                (call_item d Ahead At laws U f fuel r1 r2 (put (text w) u) u' e2)
            ∙ e3,
        ahead3,
      )

  pub word_call-other :
      (put : Value → U → U) (f : d.R → U → Option (Code × d.R × U)) (w : Bytes)
      (ts rest : List Token) (fuel k : ℕ) (r : d.R) (u u' : U)
      → Ahead r (open_list ∷ word w ∷ ts)
      → ((r1 : d.R)
          → Ahead r1 ts
          → (r2 : d.R) × (f r1 (put (text w) u) ≡ some (other k, r2, u')) × Ahead r2 rest)
      → Ends d Ahead At laws U
          (svnproto_vunpack d U fuel (codes "(wr)") (store (some put) ∷ callback (some f) ∷ []) r u)
          u'
          (other k)
          rest
  unfolding modifier
  word_call-other put f w ts rest fuel k r u u' ahead calls =
      let (r1, e1, ahead1) =
        list_headed d Ahead At laws U put words (word w) ts (codes "r)") (callback (some f) ∷ [])
          fuel r u refl refl refl ahead in
      let (r2, e2, ahead2) = calls r1 ahead1 in
      (
        r2,
        e1
            ∙ round-error d Ahead At laws U 2 fuel b'r' k (codes ")") (callback (some f) ∷ []) r1 r2
                (put (text w) u) u' refl
                (call_item-other d Ahead At laws U f fuel k r1 r2 (put (text w) u) u' e2),
        ahead2,
      )

  -- A string and a string for a callback, "(sS)".
  pub string_call :
      (put : Value → U → U) (f : d.R → U → Option (Code × d.R × U)) (s b : Bytes)
      (rest : List Token) (fuel : ℕ) (r : d.R) (u u' : U)
      → Ahead r (open_list ∷ string s ∷ string b ∷ close_list ∷ rest)
      → ((r1 : d.R)
          → At r1 (string b) (close_list ∷ rest)
          → f r1 (put (text s) u) ≡ some (success, r1, u'))
      → Ends d Ahead At laws U
          (svnproto_vunpack d U fuel (codes "(sS)") (store (some put) ∷ callback (some f) ∷ []) r u)
          u'
          success
          rest
  unfolding modifier
  string_call put f s b rest fuel r u u' ahead calls =
      let (r1, e1, ahead1) =
        list_headed d Ahead At laws U put strings (string s) (string b ∷ close_list ∷ rest)
          (codes "S)") (callback (some f) ∷ []) fuel r u refl refl refl ahead in
      let (r2, read, at) = laws.read_lem r1 (string b) (close_list ∷ rest) ahead1 in
      let (r3, e3, ahead3) =
        list_closed d Ahead At laws U 0 fuel rest r2 u'
          (laws.go_on r2 (string b) (close_list ∷ rest) at) in
      (
        r3,
        e1
            ∙ round-goes d Ahead At laws U 2 fuel b'S' (codes ")") (callback (some f) ∷ []) [] r1 r2
                (put (text s) u) u' refl
                (string_item_lem d Ahead At laws U f fuel b (close_list ∷ rest) r1 r2 r2
                  (put (text s) u) u' read at (calls r2 at))
            ∙ e3,
        ahead3,
      )

  pub string_call-other :
      (put : Value → U → U) (f : d.R → U → Option (Code × d.R × U)) (s b : Bytes)
      (rest : List Token) (fuel k : ℕ) (r : d.R) (u u' : U)
      → Ahead r (open_list ∷ string s ∷ string b ∷ close_list ∷ rest)
      → ((r1 : d.R)
          → At r1 (string b) (close_list ∷ rest)
          → f r1 (put (text s) u) ≡ some (other k, r1, u'))
      → Ends d Ahead At laws U
          (svnproto_vunpack d U fuel (codes "(sS)") (store (some put) ∷ callback (some f) ∷ []) r u)
          u'
          (other k)
          (close_list ∷ rest)
  unfolding modifier
  string_call-other put f s b rest fuel k r u u' ahead calls =
      let (r1, e1, ahead1) =
        list_headed d Ahead At laws U put strings (string s) (string b ∷ close_list ∷ rest)
          (codes "S)") (callback (some f) ∷ []) fuel r u refl refl refl ahead in
      let (r2, read, at) = laws.read_lem r1 (string b) (close_list ∷ rest) ahead1 in
      (
        r2,
        e1
            ∙ round-error d Ahead At laws U 2 fuel b'S' k (codes ")") (callback (some f) ∷ []) r1 r2
                (put (text s) u) u' refl
                (string_item_lem-other d Ahead At laws U f fuel k b (close_list ∷ rest) r1 r2 r2
                  (put (text s) u) u' read at (calls r2 at)),
        laws.go_on r2 (string b) (close_list ∷ rest) at,
      )
