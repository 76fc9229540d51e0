-- ===== src/Proto/Requests/Reads.antt =====
-- The commands get-file and get-dir (src/svnproto_get_file.c and src/svnproto_get_dir.c).
use mrksvnup.Base.{ℕ, [], ◌∷◌, List, Bytes, codes, none, some, Outcome, ◌>>=◌, on_fail, ℤ, to_int}
use mrksvnup.Proto.Pack.{Output, pack_word, pack_number, pack_string, pack_list}
use mrksvnup.Proto.Requests.{has_flag, bool_str}
use mrksvnup.Proto.Requests.Commands.{words_loop}

abbrev pub fields : List Bytes
fields = codes "kind" ∷ codes "size" ∷ []

module _ (o : Output) where
  open o use {Out}

  -- get-file
  unfoldable pub get_file_pack3 : ℤ → Out → Outcome Out
  get_file_pack3 rev out = on_fail 1 (pack_number o (to_int rev) out)

  unfoldable pub get_file_pack2 : Bytes → ℤ → ℕ → Out → Outcome Out
  get_file_pack2 path rev flags out = do
    out ← on_fail 2 (pack_string o path out)
    out ← on_fail 3 (pack_list o (some (get_file_pack3 rev)) out)
    out ← on_fail 4 (pack_word o (bool_str (has_flag flags 1)) out)
    out ← on_fail 5 (pack_word o (bool_str (has_flag flags 2)) out)
    on_fail 6 (pack_list o none out)

  unfoldable pub get_file_pack1 : Bytes → ℤ → ℕ → Out → Outcome Out
  get_file_pack1 path rev flags out = do
    out ← on_fail 7 (pack_word o (codes "get-file") out)
    on_fail 8 (pack_list o (some (get_file_pack2 path rev flags)) out)

  -- get-dir
  unfoldable pub get_dir_pack4 : Out → Outcome Out
  get_dir_pack4 out = words_loop o 1 fields out

  unfoldable pub get_dir_pack3 : ℤ → Out → Outcome Out
  get_dir_pack3 rev out = on_fail 2 (pack_number o (to_int rev) out)

  unfoldable pub get_dir_pack2 : Bytes → ℤ → Out → Outcome Out
  get_dir_pack2 path rev out = do
    out ← on_fail 3 (pack_string o path out)
    out ← on_fail 4 (pack_list o (some (get_dir_pack3 rev)) out)
    out ← on_fail 5 (pack_word o (codes "false") out)
    out ← on_fail 6 (pack_word o (codes "true") out)
    out ← on_fail 7 (pack_list o (some get_dir_pack4) out)
    on_fail 8 (pack_list o none out)

  unfoldable pub get_dir_pack1 : Bytes → ℤ → Out → Outcome Out
  get_dir_pack1 path rev out = do
    out ← on_fail 9 (pack_word o (codes "get-dir") out)
    on_fail 10 (pack_list o (some (get_dir_pack2 path rev)) out)
