-- ===== src/Svnedit/Verified.antt =====
-- `svnedit_verify_checksum` on a file.
use mrksvnup.Base.{
  ℕ, zero, suc, ◌+◌, ◌*◌, ◌<◌, ◌≡◌, refl, ap, ◌∙◌, subst, sym, if◌then◌else◌, [], ◌∷◌, ◌++◌, Bytes,
  equal, some, ℤ, ok, length, take, length-append, take-length-append, arith,
}
use mathlib.Core.List.{append_assoc, append-nil}
use mrksvnup.Util.Hex.{bin2hex}
use mrksvnup.Svnedit.System.{System}
use mrksvnup.Svnedit.Checksum.{
  vcbufsz, memcmp_32, matched, Digest, digest, digest_updated, buffer_read, digest_finished,
  read_buffers, compared, file_digested, svnedit_verify_checksum,
}
use mrksvnup.Svnedit.FileStore.{IsFileStore, IsMd5}

pub length-bin2hex : (b : Bytes) → length (bin2hex b) ≡ 2 * length b
unfolding bin2hex
length-bin2hex [] = refl
length-bin2hex (c ∷ b) = let ih = length-bin2hex b in omega arith

-- Two strings of 32 digits are compared as a whole.
pub memcmp_32-equal :
    (s cs : Bytes) → length s ≡ 32 → length cs ≡ 32 → memcmp_32 s cs ≡ some (equal s cs)
unfolding memcmp_32
memcmp_32-equal s cs long long' =
    let first : take 32 s ≡ s =
      subst (λ n. take n s ≡ s) long
        (ap (take (length s)) (sym (append-nil s)) ∙ take-length-append s []) in
    let second : take 32 (cs ++ 0 ∷ []) ≡ cs =
      subst (λ n. take n (cs ++ 0 ∷ []) ≡ cs) long' (take-length-append cs (0 ∷ [])) in
    rw (long', first, second)

module _ (sys : System) (File : sys.W → ℤ → Bytes → ℕ → Type 0) (laws : IsFileStore sys File)
    (md5_of : Bytes → Bytes) (Absorbed : sys.md5.Context → Bytes → Type 0)
    (md5_laws : IsMd5 sys.md5 md5_of Absorbed) where
  -- The loop has read all of the file.
  abbrev Digested : Digest sys → ℤ → Bytes → Type 0
  Digested d fd all =
      (m' : sys.md5.Context) × (w' : sys.W) × (d ≡ digest m' w')
      × Absorbed m' all
      × File w' fd all (length all)

  -- A round, behind its read.
  round_read :
      (left : ℕ) (fd : ℤ) (before after all got rest : Bytes) (m : sys.md5.Context) (w w1 : sys.W)
      → before ++ after ≡ all
      → Absorbed m before
      → after ≡ got ++ rest
      → (got ≡ [] → after ≡ [])
      → sys.read fd vcbufsz w ≡ (some got, w1)
      → File w1 fd ((before ++ got) ++ rest) (length before + length got)
      → ((m' : sys.md5.Context)
          → length rest < length after
          → Absorbed m' (before ++ got)
          → Digested (read_buffers sys left fd m' w1) fd all)
      → Digested (read_buffers sys (suc left) fd m w) fd all
  unfolding read_buffers buffer_read digest_updated
  round_read left fd before after all [] rest m w w1 whole absorbed cut at_end reads file again =
      let again_ : sys.md5.Context → sys.W → Digest sys = λ m' w'. read_buffers sys left fd m' w' in
      let bare : before ≡ all =
        sym (append-nil before) ∙ ap (λ b. before ++ b) (sym (at_end refl)) ∙ whole in
      let end : (before ++ []) ++ rest ≡ all =
        append_assoc before [] rest ∙ ap (λ b. before ++ b) (sym cut) ∙ whole in
      let there : length before + 0 ≡ length all = omega (arith, ap length bare) in
      (
        m,
        w1,
        ap (buffer_read sys again_ m) reads,
        subst (Absorbed m) bare absorbed,
        subst (λ b. File w1 fd b (length all)) end
            (subst (λ n. File w1 fd ((before ++ []) ++ rest) n) there file),
      )
  round_read left fd before after all (b ∷ got) rest m w w1 whole absorbed cut at_end reads file
        again =
      let again_ : sys.md5.Context → sys.W → Digest sys = λ m' w'. read_buffers sys left fd m' w' in
      let (m', updated, absorbed') = md5_laws.update_lem m before (b ∷ got) absorbed in
      let shorter : length rest < length after =
        omega (arith, ap length cut, length-append (b ∷ got) rest) in
      let (m2, w2, e, absorbed2, file2) = again m' shorter absorbed' in
      (
        m2,
        w2,
        ap (buffer_read sys again_ m) reads ∙ ap (digest_updated sys again_ w1) updated ∙ e,
        absorbed2,
        file2,
      )

  -- The loop has read the bytes before the position.
  read_buffers-digest :
      (left : ℕ) (fd : ℤ) (before after all : Bytes) (m : sys.md5.Context) (w : sys.W)
      → before ++ after ≡ all
      → length after < left
      → Absorbed m before
      → File w fd (before ++ after) (length before)
      → Digested (read_buffers sys left fd m w) fd all
  read_buffers-digest zero fd before after all m w whole room absorbed file = absurd (omega arith)
  read_buffers-digest (suc left) fd before after all m w whole room absorbed file =
      let (got, rest, w1, cut, at_end, reads, file1) =
        laws.read_lem w fd vcbufsz before after (omega arith) file in
      round_read left fd before after all got rest m w w1 whole absorbed cut at_end reads file1
        (λ m' shorter absorbed'.
          read_buffers-digest left fd (before ++ got) rest all m' w1
            (append_assoc before got rest ∙ ap (λ b. before ++ b) (sym cut) ∙ whole) (omega arith)
            absorbed'
            (subst (File w1 fd ((before ++ got) ++ rest)) (sym (length-append before got)) file1))

  -- On an open file, and with a checksum of 32 characters: `svnedit_verify_checksum` ends, with 0
  -- exactly where the checksum is the digest of all the bytes of the file in hexadecimal digits, and
  -- with 6 where it is not, wherever the position was; the file is as before.
  pub svnedit_verify_checksum-equal :
      (fd : ℤ) (all cs : Bytes) (at_pos : ℕ) (w : sys.W)
      → length cs ≡ 32
      → length all < sys.fuel
      → File w fd all at_pos
      → (w' : sys.W) × (svnedit_verify_checksum sys fd cs w
          ≡ ok (if equal (bin2hex (md5_of all)) cs then 0 else 6, w'))
        × File w' fd all (length all)
  unfolding svnedit_verify_checksum file_digested compared digest_finished
  svnedit_verify_checksum-equal fd all cs at_pos w long room file =
      let (m, init, absorbed) = md5_laws.init_lem in
      let (w1, rewound, file1) = laws.rewind_lem w fd all at_pos file in
      let (m2, w2, loop, absorbed2, file2) =
        read_buffers-digest sys.fuel fd [] all all m w1 refl room absorbed file1 in
      let hex : length (bin2hex (md5_of all)) ≡ 32 =
        omega (arith, length-bin2hex (md5_of all), md5_laws.digest-length all) in
      (
        w2,
        ap (file_digested sys fd cs w) init
            ∙ rw (rewound, loop)
                (ap (digest_finished sys cs w2) (md5_laws.final_lem m2 all absorbed2)
                  ∙ ap (λ b. matched b w2) (memcmp_32-equal (bin2hex (md5_of all)) cs hex long)),
        file2,
      )
