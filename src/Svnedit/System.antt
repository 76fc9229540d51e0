-- ===== src/Svnedit/System.antt =====
-- What src/svnedit.c calls: the system, MD5, the walk of a directory, the shadow connection and the
-- cache of checksums, as operations on a world; and the variables that the file keeps.
use mrksvnup.Base.{
  ℕ, zero, suc, true, false, Bool, List, Bytes, Option, none, some, ℤ, Outcome, ok, fail, fault,
  stuck,
}
use mrksvnup.Proto.Client.Files.{Fileent}
use mrksvnup.Svndiff.Doc.{Wnd, Doc}
use mrksvnup.Svndiff.Tview.{Pread}

-- What the mode of a file says of its kind.
pub data FileKind : Type 0 where
  regular directory symbolic_link other_file : FileKind

-- MD5 of OpenSSL; `none` is a result other than 1.
pub record Md5 : Type 1 where
  pub Context : Type 0
  pub init : Option Context
  pub update : Bytes → Context → Option Context
  pub final : Context → Option Bytes

-- Flags of `open` beside O_RDWR and O_NOFOLLOW.
pub data Creation : Type 0 where
  existing create truncate : Creation

-- The world `W` and the calls on it. A path may be NULL, a result `true` of a call is its 0, and a
-- descriptor of -1 is an error.
pub record System : Type 1 where
  pub W : Type 0
  pub lstat : Bytes → W → Option FileKind
  pub stat : Bytes → W → Option FileKind
  pub mkdir : Bytes → ℕ → W → Bool × W
  pub unlink : Option Bytes → W → Bool × W
  pub rmdir : Option Bytes → W → Bool × W
  pub symlink : Bytes → Option Bytes → W → Bool × W
  pub open_path : Option Bytes → Creation → ℕ → W → ℤ × W
  pub close : ℤ → W → W
  pub rewind : ℤ → W → Bool × W
  pub read : ℤ → ℕ → W → Option Bytes × W
  pub write : ℤ → Bytes → W → Bool × W
  pub ftruncate : ℤ → ℕ → W → Bool × W
  pub fchmod : ℤ → ℕ → W → Bool × W
  pub pread : W → ℤ → Pread
  pub readlink : Option Bytes → W → Option Bytes
  pub path_join : Bytes → Option Bytes → Option Bytes
  -- `traverse_dir` of mrkcommon: the callback gets the path of a directory, and the name of an entry
  -- or NULL for the directory itself; `none` is a walk that does not end.
  pub traverse_dir : Bytes → (Bytes → Option Bytes → W → ℕ × W) → W → Option (ℕ × W)
  -- `get_file` of the shadow connection, from an empty `svnc_fileent_t`.
  pub get_file : Option Bytes → ℤ → W → Option (Bool × Fileent × W)
  -- `svnc_new`, `svnc_connect`, and `svnc_close` with `svnc_destroy`, for the shadow connection.
  pub new_shadow : W → Bool × W
  pub connect_shadow : W → Bool × W
  pub close_shadow : W → W
  -- `put` and `del` of the cache's database.
  pub put : Bytes → Bytes → W → Bool × W
  pub del : Bytes → W → Bool × W
  pub md5 : Md5
  -- What `array_fini` of mrkcommon leaves in an array of windows and in one of characters.
  pub fini_wnds : List Wnd → List Wnd
  pub fini_chars : Bytes → Bytes
  -- The byte that `array_incr` of mrkcommon adds to an array of characters.
  pub fresh : ℕ
  -- The reads of a file that a loop of the model may do.
  pub fuel : ℕ

-- The parts of `svnc_ctx_t` that the editor reads.
pub record Settings : Type 0 where
  pub localroot : Bytes
  pub tolerant : Bool
  pub executable_prop_name : Bytes
  pub special_prop_name : Bytes

-- The variables of the file, and the world; `has_shadow` is `shadow_ctx != NULL`.
pub record Edit (W : Type 0) : Type 0 where
  pub doc : Doc
  pub target_rev : ℤ
  pub has_shadow : Bool
  pub world : W

-- How a function ends: `ok (k, x)` is a result, 0 or the class of the function plus `k`; `fault` is a
-- behaviour that C leaves open, or FAIL, which ends the program; `stuck` is a call without end.
abbrev pub Edited : Type 0 → Type 0
Edited A = Outcome (ℕ × A)

-- A call of the world that may not end.
abbrev pub ending : {A B : Type 0} → Option A → (A → Outcome B) → Outcome B
ending none next = stuck
ending (some a) next = next a

-- `if (call != 0) FAIL(...)`
abbrev pub or_abort : {W B : Type 0} → Bool × W → (W → Outcome B) → Outcome B
or_abort (b, w) next = elim b [ false ↦ fault | true ↦ next w ]

-- `if (call != 0) { res = K + k; goto END; }`
abbrev pub or_result : {W : Type 0} → ℕ → Bool × W → (W → Edited W) → Edited W
or_result k (b, w) next = elim b [ false ↦ ok (k, w) | true ↦ next w ]

-- The call's own result is not 0: `k`.
abbrev pub checked_result : {A B : Type 0} → ℕ → (A → B) → Edited A → (A → Edited B) → Edited B
checked_result k keep (ok (zero, a)) next = next a
checked_result k keep (ok (suc n, a)) next = ok (k, keep a)
checked_result k keep (fail n) next = fail n
checked_result k keep fault next = fault
checked_result k keep stuck next = stuck
