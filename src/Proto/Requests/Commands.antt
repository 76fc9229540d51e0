-- ===== src/Proto/Requests/Commands.antt =====
-- The commands check-path, get-latest-rev, reparent, set-path, finish-report, abort-report and update
-- (src/svnproto_check_path.c and so on), and the answers of src/svnproto_auth.c and src/svnproto.c.
-- A string of the source is its bytes up to the NUL, and a revision is a `long`, which
-- `pack_number` takes as an `int`. `pack_list` passes each callback its `udata`, here its arguments.
use mrksvnup.Base.{
  ℕ, if◌then◌else◌, [], ◌∷◌, List, Bytes, codes, Option, none, some, Outcome, ok, ◌>>=◌, on_fail, ℤ,
  pos, ltb_ℤ, to_int,
}
use mrksvnup.Proto.Pack.{Output, pack_word, pack_number, pack_string, pack_list}
use mrksvnup.Proto.Requests.{Depth, svn_depth_str, has_flag, bool_str}

abbrev pub caps : List Bytes
caps =
    codes "edit-pipeline"
    ∷ codes "svndiff1"
    ∷ codes "absent-entries"
    ∷ codes "depth"
    ∷ codes "mergeinfo"
    ∷ codes "log-revprops"
    ∷ []

module _ (o : Output) where
  open o use {Out}

  -- check-path
  unfoldable pub check_path_pack3 : ℤ → Out → Outcome Out
  check_path_pack3 rev out = on_fail 1 (pack_number o (to_int rev) out)

  unfoldable pub check_path_pack2 : Bytes → ℤ → Out → Outcome Out
  check_path_pack2 path rev out = do
    out ← on_fail 2 (pack_string o path out)
    on_fail 3 (pack_list o (some (check_path_pack3 rev)) out)

  unfoldable pub check_path_pack1 : Bytes → ℤ → Out → Outcome Out
  check_path_pack1 path rev out = do
    out ← on_fail 4 (pack_word o (codes "check-path") out)
    on_fail 5 (pack_list o (some (check_path_pack2 path rev)) out)

  -- get-latest-rev
  unfoldable pub get_latest_rev_pack1 : Out → Outcome Out
  get_latest_rev_pack1 out = do
    out ← on_fail 1 (pack_word o (codes "get-latest-rev") out)
    on_fail 2 (pack_list o none out)

  -- reparent
  unfoldable pub reparent_pack2 : Bytes → Out → Outcome Out
  reparent_pack2 path out = on_fail 1 (pack_string o path out)

  unfoldable pub reparent_pack1 : Bytes → Out → Outcome Out
  reparent_pack1 path out = do
    out ← on_fail 2 (pack_word o (codes "reparent") out)
    on_fail 3 (pack_list o (some (reparent_pack2 path)) out)

  -- set-path
  unfoldable pub set_path_pack3 : Option Bytes → Out → Outcome Out
  set_path_pack3 none out = ok out
  set_path_pack3 (some lock_token) out = on_fail 1 (pack_string o lock_token out)

  unfoldable pub set_path_pack2 : Bytes → ℤ → Option Bytes → Depth → ℕ → Out → Outcome Out
  set_path_pack2 path rev lock_token depth flags out = do
    out ← on_fail 2 (pack_string o path out)
    out ← on_fail 3 (pack_number o (to_int rev) out)
    out ← on_fail 4 (pack_word o (bool_str (has_flag flags 32)) out)
    out ← on_fail 5 (pack_list o (some (set_path_pack3 lock_token)) out)
    on_fail 6 (pack_word o (svn_depth_str depth) out)

  unfoldable pub set_path_pack1 : Bytes → ℤ → Option Bytes → Depth → ℕ → Out → Outcome Out
  set_path_pack1 path rev lock_token depth flags out = do
    out ← on_fail 7 (pack_word o (codes "set-path") out)
    on_fail 8 (pack_list o (some (set_path_pack2 path rev lock_token depth flags)) out)

  -- finish-report and abort-report
  unfoldable pub finish_report_pack1 : Out → Outcome Out
  finish_report_pack1 out = do
    out ← on_fail 1 (pack_word o (codes "finish-report") out)
    on_fail 2 (pack_list o none out)

  unfoldable pub abort_report_pack1 : Out → Outcome Out
  abort_report_pack1 out = do
    out ← on_fail 1 (pack_word o (codes "abort-report") out)
    on_fail 2 (pack_list o none out)

  -- update
  unfoldable pub update_pack4 : Out → Outcome Out
  update_pack4 out = do
    out ← on_fail 1 (pack_word o (codes "success") out)
    on_fail 2 (pack_list o none out)

  unfoldable pub update_pack3 : ℤ → Out → Outcome Out
  update_pack3 rev out =
      if ltb_ℤ (pos 0) rev then on_fail 3 (pack_number o (to_int rev) out) else ok out

  unfoldable pub update_pack2 : ℤ → Bytes → Depth → ℕ → Out → Outcome Out
  update_pack2 rev target depth flags out = do
    out ← on_fail 4 (pack_list o (some (update_pack3 rev)) out)
    out ← on_fail 5 (pack_string o target out)
    out ← on_fail 6 (pack_word o (bool_str (has_flag flags 8)) out)
    out ← on_fail 7 (pack_word o (svn_depth_str depth) out)
    on_fail 8 (pack_word o (bool_str (has_flag flags 16)) out)

  unfoldable pub update_pack1 : ℤ → Bytes → Depth → ℕ → Out → Outcome Out
  update_pack1 rev target depth flags out = do
    out ← on_fail 9 (pack_word o (codes "update") out)
    on_fail 10 (pack_list o (some (update_pack2 rev target depth flags)) out)

  -- The answer to the server's list of mechanisms.
  unfoldable pub auth_response : Out → Outcome Out
  auth_response out = do
    out ← on_fail 1 (pack_word o (codes "ANONYMOUS") out)
    on_fail 2 (pack_list o none out)

  -- The loop over the words of `caps`, or of another array, with the error number `k`.
  unfoldable pub words_loop : ℕ → List Bytes → Out → Outcome Out
  words_loop k [] out = ok out
  words_loop k (w ∷ ws) out = on_fail k (pack_word o w out) >>= λ out. words_loop k ws out

  unfoldable pub mycaps : Out → Outcome Out
  mycaps out = words_loop 1 caps out

  -- The answer to the greeting; `ra_client` is the name and version that the build gives.
  unfoldable pub greeting_response : Bytes → Bytes → Out → Outcome Out
  greeting_response url ra_client out = do
    out ← on_fail 1 (pack_number o (pos 2) out)
    out ← on_fail 2 (pack_list o (some mycaps) out)
    out ← on_fail 3 (pack_string o url out)
    out ← on_fail 4 (pack_string o ra_client out)
    on_fail 5 (pack_list o none out)
