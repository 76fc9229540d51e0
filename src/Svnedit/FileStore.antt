-- ===== src/Svnedit/FileStore.antt =====
-- What the system promises of an open file, and MD5 of the bytes that it has been given.
use mrksvnup.Base.{ℕ, ◌+◌, ◌≤◌, ◌<◌, ◌≡◌, true, [], ◌++◌, Bytes, some, ℤ, pos, length, take, drop}
use mrksvnup.Svnedit.System.{Md5, System}

-- `File w fd data at_pos`: the open file `fd` has the bytes `data`, and its position is `at_pos`. A write
-- covers what stands at the position, and a read takes some bytes, or none at the end.
pub record IsFileStore (sys : System) (File : sys.W → ℤ → Bytes → ℕ → Type 0) : Type 0 where
  pub rewind_lem :
      (w : sys.W) (fd : ℤ) (data_bytes : Bytes) (at_pos : ℕ)
      → File w fd data_bytes at_pos
      → (w' : sys.W) × (sys.rewind fd w ≡ (true, w')) × File w' fd data_bytes 0
  -- A write takes all of the bytes, which `write` need not do; the source only tests for an error.
  pub write_lem :
      (w : sys.W) (fd : ℤ) (before s after : Bytes)
      → File w fd (before ++ after) (length before)
      → (w' : sys.W) × (sys.write fd s w ≡ (true, w'))
        × File w' fd ((before ++ s) ++ drop (length s) after) (length before + length s)
  pub ftruncate_lem :
      (w : sys.W) (fd : ℤ) (before after : Bytes) (at_pos : ℕ)
      → File w fd (before ++ after) at_pos
      → (w' : sys.W) × (sys.ftruncate fd (length before) w ≡ (true, w')) × File w' fd before at_pos
  pub fchmod_lem :
      (w : sys.W) (fd : ℤ) (mode : ℕ) (data_bytes : Bytes) (at_pos : ℕ)
      → File w fd data_bytes at_pos
      → (w' : sys.W) × (sys.fchmod fd mode w ≡ (true, w')) × File w' fd data_bytes at_pos
  pub read_lem :
      (w : sys.W) (fd : ℤ) (n : ℕ) (before after : Bytes)
      → 0 < n
      → File w fd (before ++ after) (length before)
      → (got : Bytes) × (rest : Bytes) × (w' : sys.W) × (after ≡ got ++ rest)
        × (got ≡ [] → after ≡ [])
        × (sys.read fd n w ≡ (some got, w'))
        × File w' fd ((before ++ got) ++ rest) (length before + length got)
  pub pread_lem :
      (w : sys.W) (fd : ℤ) (data_bytes : Bytes) (at_pos off len : ℕ)
      → File w fd data_bytes at_pos
      → off + len ≤ length data_bytes
      → sys.pread w fd (pos off) len ≡ some (take len (drop off data_bytes))

-- `Absorbed m b`: the state `m` has been given the bytes `b`.
pub record IsMd5 (m : Md5) (digest : Bytes → Bytes) (Absorbed : m.Context → Bytes → Type 0)
    : Type 0 where
  pub init_lem : (s : m.Context) × (m.init ≡ some s) × Absorbed s []
  pub update_lem :
      (s : m.Context) (b b' : Bytes)
      → Absorbed s b
      → (s' : m.Context) × (m.update b' s ≡ some s') × Absorbed s' (b ++ b')
  pub final_lem : (s : m.Context) (b : Bytes) → Absorbed s b → m.final s ≡ some (digest b)
  pub digest-length : (b : Bytes) → length (digest b) ≡ 16
