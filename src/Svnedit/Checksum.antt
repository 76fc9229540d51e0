-- ===== src/Svnedit/Checksum.antt =====
-- `svnedit_verify_checksum` of src/svnedit.c, and `svnc_save_checksum` and `svnc_delete_checksum` of
-- src/svnc.c.
use mrksvnup.Base.{
  ℕ, zero, suc, ◌+◌, ltb, Bool, if◌then◌else◌, [], ◌∷◌, ◌++◌, Bytes, equal, Option, none, some, ℤ,
  ok, fault, stuck, length, take,
}
use mrksvnup.Util.Hex.{bin2hex}
use mrksvnup.Svnedit.System.{System, Edited, or_result}

-- `VCBUFSZ`, for pages of 4096 bytes.
abbrev pub vcbufsz : ℕ
vcbufsz = 2097152

-- The first 32 digits of a digest are those of a checksum, which ends with a zero byte; a shorter
-- one is read behind its end.
unfoldable pub memcmp_32 : Bytes → Bytes → Option Bool
memcmp_32 s cs =
    if ltb (length cs + 1) 32 then none else some (equal (take 32 s) (take 32 (cs ++ 0 ∷ [])))

-- The comparison's result as that of the function.
abbrev pub matched : {W : Type 0} → Option Bool → W → Edited W
matched none w = fault
matched (some same) w = ok (if same then 0 else 6, w)

module _ (sys : System) where
  open sys use {W, md5}

  -- How the loop over the buffers of a file ends: with an error, or with the digest's state.
  pub data Digest : Type 0 where
    digest : md5.Context → W → Digest
    broken : ℕ → W → Digest
    endless : Digest

  -- What follows `MD5_Update`.
  unfoldable pub digest_updated : (md5.Context → W → Digest) → W → Option md5.Context → Digest
  digest_updated again w none = broken 3 w
  digest_updated again w (some m) = again m w

  -- What follows a read.
  unfoldable pub buffer_read : (md5.Context → W → Digest) → md5.Context → Option Bytes × W → Digest
  buffer_read again m (none, w) = broken 4 w
  buffer_read again m (some [], w) = digest m w
  buffer_read again m (some (c ∷ buf), w) = digest_updated again w (md5.update (c ∷ buf) m)

  unfoldable pub read_buffers : ℕ → ℤ → md5.Context → W → Digest
  read_buffers zero fd m w = endless
  read_buffers (suc fuel) fd m w =
      buffer_read (λ m' w'. read_buffers fuel fd m' w') m (sys.read fd vcbufsz w)

  -- What follows `MD5_Final`, with the checksum `cs`.
  unfoldable pub digest_finished : Bytes → W → Option Bytes → Edited W
  digest_finished cs w none = ok (5, w)
  digest_finished cs w (some md) = matched (memcmp_32 (bin2hex md) cs) w

  -- What follows the loop.
  unfoldable pub compared : Bytes → Digest → Edited W
  compared cs (broken k w) = ok (k, w)
  compared cs endless = stuck
  compared cs (digest m w) = digest_finished cs w (md5.final m)

  -- What follows `MD5_Init`.
  unfoldable pub file_digested : ℤ → Bytes → W → Option md5.Context → Edited W
  file_digested fd cs w none = ok (1, w)
  file_digested fd cs w (some m) =
      or_result 2 (sys.rewind fd w) λ w'. compared cs (read_buffers sys.fuel fd m w')

  unfoldable pub svnedit_verify_checksum : ℤ → Bytes → W → Edited W
  svnedit_verify_checksum fd cs w = file_digested fd cs w md5.init

  -- The checksum of a path that is NULL, or a checksum that is, has no size.
  unfoldable pub svnc_save_checksum : Option Bytes → Option Bytes → W → Edited W
  svnc_save_checksum (some path) (some checksum) w =
      or_result 1 (sys.put path checksum w) λ w'. ok (0, w')
  svnc_save_checksum _ _ w = fault

  unfoldable pub svnc_delete_checksum : Option Bytes → W → Edited W
  svnc_delete_checksum none w = fault
  svnc_delete_checksum (some path) w = or_result 1 (sys.del path w) λ w'. ok (0, w')
