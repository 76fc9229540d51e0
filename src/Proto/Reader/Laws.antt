-- ===== src/Proto/Reader/Laws.antt =====
-- `read_one_value` and what stands around it keep the laws of a reader of tokens, on a stream that has
-- the tokens in its buffer.
use mrksvnup.Base.{
  ℕ, suc, ◌+◌, ◌-◌, ◌≤◌, ◌≡◌, refl, sym, subst, ap, ◌∙◌, inl, inr, Bool, true, false, List, [], ◌∷◌,
  Bytes, length, some, arith,
}
use mrksvnup.Base.Buffers.{Holds}
use mrksvnup.Proto.Stream.{Bytestream, IsBytestream, View, views}
use mrksvnup.Proto.Tokenizer.{TokState, State, Res, done, need_more, eod, stuck, error, is_space}
use mrksvnup.Proto.Tokenizer.Simulation.{outcome}
use mrksvnup.Proto.Unpack.{success}
use mrksvnup.Proto.Unpack.Tokens.{Token, IsReader}
use mrksvnup.Proto.Reader.{step_back, read_loop, read_one_value}
use mrksvnup.Proto.Reader.Again.{read_round-full}
use mrksvnup.Proto.Reader.Spelled.{
  read_code, recycled, stream_reader, Recycles, body, Parts, Spells, Placed, Coming, Shows, Read,
}
use mrksvnup.Proto.Reader.Tokens.{Placed-Next, Placed-more}

Holds-moved :
    (bytes : ℕ → ℕ) (k p : ℕ) (xs : Bytes)
    → k ≤ p
    → Holds bytes p xs
    → Holds (λ i. bytes (k + i)) (p - k) xs
unfolding Holds
Holds-moved bytes k p [] low h = tt
Holds-moved bytes k p (x ∷ xs) low (here, there) =
    let next : suc p - k ≡ suc (p - k) = omega arith in
    (
      ap bytes (omega arith) ∙ here,
      subst (λ q. Holds (λ i. bytes (k + i)) q xs) next
          (Holds-moved bytes k (suc p) xs (omega arith) there),
    )

Spells-moved :
    (bytes : ℕ → ℕ) (k e p p' : ℕ) (ts : List Token)
    → k ≤ p
    → p' ≡ p - k
    → Spells bytes e p ts
    → Spells (λ i. bytes (k + i)) (e - k) p' ts
unfolding Spells
Spells-moved bytes k e p p' [] low at h = tt
Spells-moved bytes k e p p' (t ∷ ts) low at (fits, holds, parts, inside, rest) =
    let same : p + length (body t) ≡ k + (p' + length (body t)) = omega arith in
    (
      fits,
      subst (λ q. Holds (λ i. bytes (k + i)) q (body t)) (sym at)
          (Holds-moved bytes k p (body t) low holds),
      subst (λ q. Parts t (bytes q)) same parts,
      (omega arith),
      Spells-moved bytes k e (suc (p + length (body t))) (suc (p' + length (body t))) ts
          (omega arith) (omega arith) rest,
    )

Placed-moved :
    (t : TokState) (k : ℕ) (v : View) (ts : List Token)
    → k ≤ v.spos
    → Placed t v ts
    → Placed t (record { bytes = λ i. v.bytes (k + i); spos = v.spos - k; seod = v.seod - k }) ts
unfolding Placed
Placed-moved t k v ts low (inl (out, here)) =
    inl (out, Spells-moved v.bytes k v.seod v.spos (v.spos - k) ts low refl here)
Placed-moved t k v ts low (inr (list, space, inside, behind)) =
    let same : v.spos ≡ k + (v.spos - k) = omega arith in
    inr (
      list,
      subst (λ q. is_space (v.bytes q) ≡ true) same space,
      (omega arith),
      Spells-moved v.bytes k v.seod (suc v.spos) (suc (v.spos - k)) ts (omega arith) (omega arith)
          behind,
    )

step_back-true :
    (st : State) (v : View)
    → st.backtrack ≡ true
    → step_back views (λ v. (false, v)) st v ≡ (
      record st { tokenizer_state = TokState.start; backtrack = false },
      record v { spos = st.r_start },
    )
unfolding step_back
step_back-true st v e = rw (e) refl

step_back-false :
    (st : State) (v : View)
    → st.backtrack ≡ false
    → step_back views (λ v. (false, v)) st v ≡ (st, v)
unfolding step_back
step_back-false st v e = rw (e) refl

module _ (b : Bytestream) (view : b.Stream → View) (laws : IsBytestream b view)
    (consume : b.Stream → Bool × b.Stream) (bytestream_recycle : ℕ → b.Stream → ℕ × b.Stream)
    (moves : Recycles b view bytestream_recycle) where
  -- The tokens that come next, and the one that was read last, on the stream itself.
  abbrev pub Ahead : State × b.Stream → List Token → Type 0
  Ahead (st, s) ts = Coming (st, view s) ts

  abbrev pub At : State × b.Stream → Token → List Token → Type 0
  At (st, s) t ts = Read (st, view s) t ts

  read_code-done :
      (o : Res × State × b.Stream) (st : State) (v : View) (t : Token) (ts : List Token)
      → outcome b view laws o ≡ (done, st, v)
      → Read (st, v) t ts
      → (r : State × b.Stream) × (read_code o ≡ some (success, r)) × At r t ts
  unfolding read_code
  read_code-done (done, st', s') st v t ts e read =
      ((st', s'), refl, subst (λ o. Read (o.1, o.2) t ts) (sym e) read)
  read_code-done (need_more, st', s') st v t ts e read =
      let wrong : need_more ≡ done = ap (λ o. o.0) e in absurd (ground (arith, wrong))
  read_code-done (eod, st', s') st v t ts e read =
      let wrong : eod ≡ done = ap (λ o. o.0) e in absurd (ground (arith, wrong))
  read_code-done (stuck, st', s') st v t ts e read =
      let wrong : stuck ≡ done = ap (λ o. o.0) e in absurd (ground (arith, wrong))
  read_code-done (error k, st', s') st v t ts e read =
      let wrong : error k ≡ done = ap (λ o. o.0) e in absurd (ground (arith, wrong))

  -- From a place in the buffer where a token stands, the loop reads it, and asks for no data.
  read_loop-Placed :
      (fuel : ℕ) (t : Token) (ts : List Token) (st : State) (s : b.Stream)
      → st.r_start ≤ (view s).spos
      → st.backtrack ≡ false
      → Placed st.tokenizer_state (view s) (t ∷ ts)
      → (r : State × b.Stream) × (read_code (read_loop b consume (suc fuel) st s)
          ≡ some (success, r))
        × At r t ts
  unfolding read_loop
  read_loop-Placed fuel t ts st s start fresh placed =
      let more = Placed-more t ts st.tokenizer_state (view s) placed in
      let (st', v', e, read) = Placed-Next t ts st (view s) start fresh placed in
      read_code-done (read_loop b consume (suc fuel) st s) st' v' t ts
        (read_round-full b view laws consume (read_loop b consume fuel) (b.sneedmore s) st st' s v'
          (laws.sneedmore_lem s ∙ (ground arith)) e)
        read

  -- The step back, on the stream and on its view.
  step_back-view :
      (back : Bool) (st : State) (s : b.Stream)
      → st.backtrack ≡ back
      → st.r_start ≤ (view s).spos
      → ((step_back b consume st s).0, view (step_back b consume st s).1)
          ≡ step_back views (λ v. (false, v)) st (view s)
        × ((step_back b consume st s).0.backtrack ≡ false)
        × ((step_back b consume st s).0.r_start ≤ (view (step_back b consume st s).1).spos)
  unfolding step_back
  step_back-view true st s e start =
      let back : State = record st { tokenizer_state = TokState.start; backtrack = false } in
      rw (e) (
        ap (λ v. (back, v)) (laws.set_spos_lem st.r_start s),
        refl,
        rw (laws.set_spos_lem st.r_start s) (omega arith),
      )
  step_back-view false st s e start = rw (e) (refl, refl, start)

  pub read-Ahead :
      (fuel : ℕ) (t : Token) (ts : List Token) (st : State) (s : b.Stream)
      → Ahead (st, s) (t ∷ ts)
      → (r : State × b.Stream) × (read_code (read_one_value b consume (suc fuel) st s)
          ≡ some (success, r))
        × At r t ts
  unfolding read_one_value Coming
  read-Ahead fuel t ts st s (start, placed) =
      let (seen, fresh, start') = step_back-view st.backtrack st s refl start in
      let (st', s') = step_back b consume st s in
      read_loop-Placed fuel t ts st' s' start' fresh
        (subst (λ o. Placed o.0.tokenizer_state o.1 (t ∷ ts)) (sym seen) placed)

  Read-Coming :
      (st : State) (v : View) (ts : List Token)
      → (st.backtrack ≡ false)
      → (st.r_start ≤ v.spos)
      → Placed st.tokenizer_state v ts
      → Coming (st, v) ts
  unfolding Coming step_back
  Read-Coming st v ts fresh start placed = (start, rw (fresh) placed)

  recycled-Ahead :
      (back : Bool) (st : State) (s : b.Stream) (ts : List Token)
      → st.backtrack ≡ back
      → Ahead (st, s) ts
      → Ahead (recycled b consume bytestream_recycle (st, s)) ts
  unfolding recycled Coming step_back
  recycled-Ahead true st s ts e (start, placed) =
      let k = (bytestream_recycle st.r_start s).0 in
      let low = moves.dropped_le st.r_start s in
      rw (e, moves.view_lem st.r_start s start)
        (
          (omega arith),
          Placed-moved TokState.start k (record (view s) { spos = st.r_start }) ts low
              (subst (λ o. Placed o.0.tokenizer_state o.1 ts) (step_back-true st (view s) e)
                placed),
        )
  recycled-Ahead false st s ts e (start, placed) =
      let k = (bytestream_recycle st.r_start s).0 in
      let low = moves.dropped_le st.r_start s in
      rw (e, moves.view_lem st.r_start s start)
        (
          (omega arith),
          Placed-moved st.tokenizer_state k (view s) ts (omega arith) (
              subst (λ o. Placed o.0.tokenizer_state o.1 ts) (step_back-false st (view s) e)
                placed),
        )

  -- Where the tokens stand in the buffer of a lawful stream, each as the protocol writes it, with a
  -- space behind it, and no number or length reaches 2^63: `read_one_value`, with one round of its
  -- loop or more, `byte_chunk`, the string at `r.start`, the step back and the recycling of the
  -- buffer are a reader of these tokens. Each is read with the result 0, in the order of the buffer,
  -- with the state and the value of the token; a step back to a token that is not a string finds it
  -- again; and the recycling leaves the tokens to come.
  pub stream_reader-IsReader :
      (fuel : ℕ) → IsReader (stream_reader b consume bytestream_recycle (suc fuel)) Ahead At
  unfolding Read Shows Coming Placed step_back
  stream_reader-IsReader fuel = record {
    read_lem = λ r t ts h. read-Ahead fuel t ts r.0 r.1 h;
    go_on = λ r t ts h. Read-Coming r.0 (view r.1) ts h.0 h.1 h.2;
    step_back_lem = λ r t ts e h. (h.1, inl (refl, h.5 e));
    tok_lem = λ r t ts h. h.3;
    number_lem = λ r n ts h. h.4;
    word_lem = λ r w ts h. rw (laws.sdata_lem r.1, laws.seod_lem r.1) h.4;
    chunk_lem = λ r s ts h. rw (laws.sdata_lem r.1) h.4;
    recycle_lem = λ r ts h. recycled-Ahead r.0.backtrack r.0 r.1 ts refl h;
  }
