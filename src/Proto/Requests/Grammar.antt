-- ===== src/Proto/Requests/Grammar.antt =====
-- The requests of ra_svn as rows of tokens, and the callbacks that pack them.
use mrksvnup.Base.{
  ℕ, zero, suc, [], ◌∷◌, ◌++◌, List, Bytes, codes, Option, none, some, Outcome, pos,
}
use mrksvnup.Proto.Unpack.Tokens.{Token, number, word, string, open_list, close_list}
use mrksvnup.Proto.Pack.{Output}
use mrksvnup.Proto.Requests.{Depth, svn_depth_str, has_flag, bool_str}
use mrksvnup.Proto.Requests.Commands.{
  check_path_pack1, get_latest_rev_pack1, reparent_pack1, set_path_pack1, finish_report_pack1,
  abort_report_pack1, update_pack1, update_pack4, auth_response, caps, greeting_response,
}
use mrksvnup.Proto.Requests.Reads.{get_file_pack1, get_dir_pack1}

-- The requests with their arguments; revisions are not negative.
pub data Request : Type 0 where
  check_path : Bytes → ℕ → Request
  get_latest_rev finish_report abort_report : Request
  reparent : Bytes → Request
  set_path : Bytes → ℕ → Option Bytes → Depth → ℕ → Request
  update : ℕ → Bytes → Depth → ℕ → Request
  update_success : Request
  get_file : Bytes → ℕ → ℕ → Request
  get_dir : Bytes → ℕ → Request
  anonymous : Request
  greeting : Bytes → Bytes → Request

-- The list of tokens `ts`.
abbrev pub listed : List Token → List Token
listed ts = open_list ∷ (ts ++ close_list ∷ [])

-- A command with its parameters.
abbrev pub command : Bytes → List Token → List Token
command name params = listed (word name ∷ listed params)

abbrev pub optional_string : Option Bytes → List Token
optional_string none = []
optional_string (some s) = string s ∷ []

-- A revision that is left out when it is 0, for the newest one.
abbrev pub optional_rev : ℕ → List Token
optional_rev zero = []
optional_rev (suc rev) = number (suc rev) ∷ []

abbrev pub words : List Bytes → List Token
words [] = []
words (w ∷ ws) = word w ∷ words ws

abbrev pub flag : ℕ → ℕ → Token
flag flags b = word (bool_str (has_flag flags b))

-- The requests of the protocol, as its documents give them.
abbrev pub row : Request → List Token
row (check_path path rev) = command (codes "check-path") (string path ∷ listed (number rev ∷ []))
row get_latest_rev = command (codes "get-latest-rev") []
row finish_report = command (codes "finish-report") []
row abort_report = command (codes "abort-report") []
row (reparent path) = command (codes "reparent") (string path ∷ [])
row (set_path path rev lock_token depth flags) = command (codes "set-path") (
    string path
    ∷ number rev
    ∷ flag flags 32
    ∷ (listed (optional_string lock_token) ++ word (svn_depth_str depth) ∷ []))
row (update rev target depth flags) = command (codes "update") (
    listed (optional_rev rev)
    ++ string target ∷ flag flags 8 ∷ word (svn_depth_str depth) ∷ flag flags 16 ∷ [])
row update_success = command (codes "success") []
row (get_file path rev flags) =
    command (codes "get-file")
      (string path ∷ (listed (number rev ∷ []) ++ flag flags 1 ∷ flag flags 2 ∷ listed []))
row (get_dir path rev) = command (codes "get-dir") (
    string path
    ∷ (listed (number rev ∷ [])
        ++ word (codes "false")
          ∷ word (codes "true")
          ∷ (listed (words (codes "kind" ∷ codes "size" ∷ [])) ++ listed [])))
row anonymous = command (codes "ANONYMOUS") []
row (greeting url ra_client) =
    listed (number 2 ∷ (listed (words caps) ++ string url ∷ string ra_client ∷ listed []))

-- The revisions that `pack_number` does not cut off.
abbrev pub revision : Request → ℕ
revision (check_path path rev) = rev
revision (set_path path rev lock_token depth flags) = rev
revision (update rev target depth flags) = rev
revision (get_file path rev flags) = rev
revision (get_dir path rev) = rev
revision _ = 0

module _ (o : Output) where
  -- The callback that packs a request.
  abbrev pub packer : Request → o.Out → Outcome o.Out
  packer (check_path path rev) = check_path_pack1 o path (pos rev)
  packer get_latest_rev = get_latest_rev_pack1 o
  packer finish_report = finish_report_pack1 o
  packer abort_report = abort_report_pack1 o
  packer (reparent path) = reparent_pack1 o path
  packer (set_path path rev lock_token depth flags) =
      set_path_pack1 o path (pos rev) lock_token depth flags
  packer (update rev target depth flags) = update_pack1 o (pos rev) target depth flags
  packer update_success = update_pack4 o
  packer (get_file path rev flags) = get_file_pack1 o path (pos rev) flags
  packer (get_dir path rev) = get_dir_pack1 o path (pos rev)
  packer anonymous = auth_response o
  packer (greeting url ra_client) = greeting_response o url ra_client
