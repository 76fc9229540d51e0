-- ===== src/Proto/Stream.antt =====
-- The byte stream of the mrkcommon library, through which src/svnproto_unpack.c reads. Its macros
-- and functions are not part of the repository: they are the operations of an interface, and the
-- laws say what the code relies on, in terms of a view of the buffer.
use mrksvnup.Base.{ℕ, suc, ◌≡◌, refl, Bool, leb, ◌==◌, if◌then◌else◌}

-- What a stream shows: the byte at each place of the buffer, the position, and the end of data.
pub record View : Type 0 where
  pub bytes : ℕ → ℕ
  pub spos : ℕ
  pub seod : ℕ

abbrev pub advanced : View → View
advanced v = record v { spos = suc v.spos }

abbrev pub written : ℕ → View → View
written c v = record v { bytes = λ i. if i == v.spos then c else v.bytes i }

-- `SPOS`, `SEOD`, `SDATA(in, i)[0]`, `SNEEDMORE`, `SINCR`, an assignment to `SPOS`, and one to `SPCHR`.
pub record Bytestream : Type 1 where
  pub Stream : Type 0
  pub spos : Stream → ℕ
  pub seod : Stream → ℕ
  pub sdata : Stream → ℕ → ℕ
  pub sneedmore : Stream → Bool
  pub sincr : Stream → Stream
  pub set_spos : ℕ → Stream → Stream
  pub set_spchr : ℕ → Stream → Stream

-- What the operations do to the view.
pub record IsBytestream (b : Bytestream) (view : b.Stream → View) : Type 0 where
  pub spos_lem : (s : b.Stream) → b.spos s ≡ (view s).spos
  pub seod_lem : (s : b.Stream) → b.seod s ≡ (view s).seod
  pub sdata_lem : (s : b.Stream) → b.sdata s ≡ (view s).bytes
  pub sneedmore_lem : (s : b.Stream) → b.sneedmore s ≡ leb (view s).seod (view s).spos
  pub sincr_lem : (s : b.Stream) → view (b.sincr s) ≡ advanced (view s)
  pub set_spos_lem : (p : ℕ) (s : b.Stream) → view (b.set_spos p s) ≡ record (view s) { spos = p }
  pub set_spchr_lem : (c : ℕ) (s : b.Stream) → view (b.set_spchr c s) ≡ written c (view s)

-- The view itself is such a stream, the plainest one.
abbrev pub views : Bytestream
views = record {
  Stream = View;
  spos = λ v. v.spos;
  seod = λ v. v.seod;
  sdata = λ v. v.bytes;
  sneedmore = λ v. leb v.seod v.spos;
  sincr = advanced;
  set_spos = λ p v. record v { spos = p };
  set_spchr = written;
}

pub views-IsBytestream : IsBytestream views (λ v. v)
views-IsBytestream = record {
  spos_lem = λ s. refl;
  seod_lem = λ s. refl;
  sdata_lem = λ s. refl;
  sneedmore_lem = λ s. refl;
  sincr_lem = λ s. refl;
  set_spos_lem = λ p s. refl;
  set_spchr_lem = λ c s. refl;
}
