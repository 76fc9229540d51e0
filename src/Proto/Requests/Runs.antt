-- ===== src/Proto/Requests/Runs.antt =====
-- A request that is packed at concrete arguments.
use mrksvnup.Base.{[], ◌++◌, Bytes, codes, none, inr, refl, some, arith}
use mrksvnup.Proto.Pack.{Output, IsOutput, pack_list}
use mrksvnup.Proto.Pack.Text.{Appends}
use mrksvnup.Proto.Requests.{Depth}
use mrksvnup.Proto.Requests.Grammar.{set_path, row, packer}
use mrksvnup.Proto.Requests.Rows.{tokens_text}
use mrksvnup.Proto.Requests.Packed.{pack_request-Appends}

-- An output stream that never fails.
abbrev pub endless : Output
endless = record {
  Out = Bytes;
  nprintf = λ n s out. some (out ++ s);
  cat = λ s out. some (out ++ s);
}

pub endless-IsOutput : IsOutput endless (λ out. out)
endless-IsOutput = record {
  nprintf_lem = λ n s out h. inr (out ++ s, refl, refl);
  cat_lem = λ s out. inr (out ++ s, refl, refl);
}

pack_request-Appends_example :
    Appends endless
      (λ out. out)
      endless-IsOutput
      (pack_list endless
        (some (packer endless (set_path (codes "trunk") 42 none Depth.infinity 32)))
        [])
      []
      (tokens_text (row (set_path (codes "trunk") 42 none Depth.infinity 32)))
pack_request-Appends_example =
    pack_request-Appends endless (λ out. out) endless-IsOutput
      (set_path (codes "trunk") 42 none Depth.infinity 32) [] (omega arith)
