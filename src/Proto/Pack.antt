-- ===== src/Proto/Pack.antt =====
-- `pack_word`, `pack_number`, `pack_string` and `pack_list` of src/svnproto_pack.c, over an interface
-- for the output side of the byte stream.
pub mod Text
pub mod Runs
use mrksvnup.Base.{
  ℕ, suc, ◌+◌, ◌<◌, ◌≡◌, ◌⊎◌, [], ◌∷◌, ◌++◌, Bytes, length, Option, none, some, Outcome, ok, fail,
  fault, stuck, ◌>>=◌, ℤ, pos, negsuc,
}
use mrksvnup.Proto.Tokenizer.RoundTrip.Digits.{decimal_text}

-- `bytestream_nprintf`, with its limit and the formatted text, and `bytestream_cat`; `none` is a
-- negative result.
pub record Output : Type 1 where
  pub Out : Type 0
  pub nprintf : ℕ → Bytes → Out → Option Out
  pub cat : Bytes → Out → Option Out

-- An operation that does not fail has appended its text, if that fits the limit with its NUL.
pub record IsOutput (o : Output) (text : o.Out → Bytes) : Type 0 where
  pub nprintf_lem :
      (n : ℕ) (s : Bytes) (out : o.Out)
      → length s < n
      → (o.nprintf n s out ≡ none)
        ⊎ ((out' : o.Out) × (o.nprintf n s out ≡ some out') × (text out' ≡ text out ++ s))
  pub cat_lem :
      (s : Bytes) (out : o.Out)
      → (o.cat s out ≡ none)
        ⊎ ((out' : o.Out) × (o.cat s out ≡ some out') × (text out' ≡ text out ++ s))

-- The error `k` where the operation has failed.
abbrev pub checked {ℓ} : {A : Type ℓ} → ℕ → Option A → Outcome A
checked k none = fail k
checked k (some a) = ok a

-- `%d`
unfoldable pub signed_text : ℤ → Bytes
signed_text (pos n) = decimal_text n
signed_text (negsuc n) = b'-' ∷ decimal_text (suc n)

module _ (o : Output) where
  open o use {Out, nprintf, cat}

  -- `%s` prints the word up to its NUL: all its `sz` bytes, where it is as long as its callers say.
  unfoldable pub pack_word : Bytes → Out → Outcome Out
  pack_word word out = checked 1 (nprintf (length word + 2) (word ++ b' ' ∷ []) out)

  unfoldable pub pack_number : ℤ → Out → Outcome Out
  unfolding signed_text
  pack_number n out = checked 1 (nprintf 32 (signed_text n ++ b' ' ∷ []) out)

  unfoldable pub pack_string : Bytes → Out → Outcome Out
  pack_string str out = do
    out ← checked 1 (nprintf 32 (decimal_text (length str) ++ b':' ∷ []) out)
    out ← checked 2 (cat str out)
    checked 3 (cat (b' ' ∷ []) out)

  -- What the callback packs; it may be absent.
  unfoldable pub packed : Option (Out → Outcome Out) → Out → Outcome Out
  packed none out = ok out
  packed (some f) out = elim (f out) [
    | ok out' ↦ ok out'
    | fail k ↦ fail 2
    | fault ↦ fault
    | stuck ↦ stuck
  ]

  unfoldable pub pack_list : Option (Out → Outcome Out) → Out → Outcome Out
  unfolding packed
  pack_list cb out = do
    out ← checked 1 (nprintf 3 (b'(' ∷ b' ' ∷ []) out)
    out ← packed cb out
    checked 3 (nprintf 3 (b')' ∷ b' ' ∷ []) out)
