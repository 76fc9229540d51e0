-- ===== src/Svnedit/Runs.antt =====
-- The editor at concrete inputs: a file of three bytes, of which two are kept and two are new.
use mrksvnup.Base.{
  ◌≡◌, refl, true, false, if◌then◌else◌, List, [], ◌∷◌, Bytes, codes, equal, some, pos, ok, arith,
}
use mrksvnup.Util.Hex.{bin2hex, half_digit}
use mrksvnup.Svndiff.Doc.{Wnd, init_wnd, Doc, svndiff_doc_init}
use mrksvnup.Svndiff.Tview.Builds.{source_insn, new_insn, source, insert, done}
use mrksvnup.Svnedit.System.{Settings, Edit}
use mrksvnup.Svnedit.Checksum.{svnedit_verify_checksum}
use mrksvnup.Svnedit.Files.{svndiff_doc_fini}
use mrksvnup.Svnedit.Close.{other_token, with_views}
use mrksvnup.Svnedit.Complete.{svnedit_close_file}
use mrksvnup.Svnedit.Described.{Describes, no_wnds, wnd_then}
use mrksvnup.Svnedit.Verified.{svnedit_verify_checksum-equal}
use mrksvnup.Svnedit.Saved.{IsSaved, svnedit_close_file-IsSaved}
use mrksvnup.Svnedit.Rewrites.{svnedit_close_file-rewrites}
use mrksvnup.Svnedit.OneFile.{
  World, first_bytes, prefix_md5-IsMd5, one_file, Holds, one_file-IsFileStore,
}

abbrev old : Bytes
old = 1 ∷ 2 ∷ 3 ∷ []

abbrev piece : Bytes
piece = 1 ∷ 2 ∷ 9 ∷ 8 ∷ []

abbrev checksum : Bytes → Bytes
checksum b = bin2hex (first_bytes b)

abbrev world : World
world = record { data_bytes = old; at_pos = 0; cached = [] }

abbrev pub settings : Settings
settings = record {
  localroot = codes "/w";
  tolerant = false;
  executable_prop_name = codes "svn:executable";
  special_prop_name = codes "svn:special";
}

abbrev window : Wnd
window = record init_wnd {
  tview_len = pos 4;
  insns = source_insn 0 2 ∷ new_insn 2 ∷ [];
  bytes = some (9 ∷ 8 ∷ []);
}

abbrev opened_doc : Doc
opened_doc = record svndiff_doc_init {
  version = pos 0;
  base_checksum = some (checksum old);
  rp = some (codes "a");
  ft = some (codes "f1");
  lp = some (codes "/w/a");
  finished = window ∷ [];
}

abbrev edit : Edit World
edit = record { doc = opened_doc; target_rev = pos 7; has_shadow = true; world = world }

window-Describes : Describes old window piece
window-Describes = record {
  before = [];
  sview = old;
  after = [];
  new = 9 ∷ 8 ∷ [];
  source_lem = refl;
  offset_lem = refl;
  size_lem = refl;
  data_lem = refl;
  builds = source 0 2 (omega arith) (insert (9 ∷ 8 ∷ []) done);
}

svnedit_verify_checksum-equal_example :
    (w' : World) × (svnedit_verify_checksum one_file (pos 3) (checksum piece) world
      ≡ ok (if equal (bin2hex (first_bytes old)) (checksum piece) then 0 else 6, w'))
    × Holds w' (pos 3) old 3
unfolding bin2hex
svnedit_verify_checksum-equal_example =
    svnedit_verify_checksum-equal one_file Holds one_file-IsFileStore first_bytes (λ m b. m ≡ b)
      prefix_md5-IsMd5 (pos 3) old (checksum piece) 0 world refl (omega arith) (refl, refl)

-- The editor behind the closing of the file.
abbrev closed_with : List Wnd → World → Edit World
closed_with ws w = svndiff_doc_fini one_file (
    with_views one_file settings ws
      (record edit { doc = record edit.doc { fd = pos 3 }; world = w }))

-- The run of the function, for what follows from its result.
rewritten :
    (w1 : World) × (w2 : World) × (ws : List Wnd) × Holds w1 (pos 3) piece 4
    × (one_file.put (codes "a") (checksum piece) w1 ≡ (true, w2))
    × (svnedit_close_file one_file settings (some (codes "f1")) (some (checksum piece)) edit
        ≡ ok (0, closed_with ws w2))
unfolding bin2hex half_digit equal other_token
rewritten =
    svnedit_close_file-rewrites one_file settings Holds one_file-IsFileStore first_bytes
      (λ m b. m ≡ b) prefix_md5-IsMd5 (some (codes "f1")) (codes "a") (checksum piece)
      (checksum old) old (piece ∷ []) 0 3 0 world edit refl refl refl refl refl refl (refl, refl)
      (omega arith) (refl, refl) (wnd_then window-Describes no_wnds) (refl, refl)
      (λ w. (record w { cached = checksum piece ∷ w.cached }, refl))

svnedit_close_file-IsSaved_example :
    IsSaved one_file settings (some (checksum piece)) edit (closed_with rewritten.2 rewritten.1)
svnedit_close_file-IsSaved_example =
    svnedit_close_file-IsSaved one_file settings (some (codes "f1")) (some (checksum piece)) edit
      (closed_with rewritten.2 rewritten.1) rewritten.5
