-- ===== src/Proto/Requests/Packed.antt =====
-- What the callbacks of the requests append.
use mrksvnup.Base.{
  ℕ, zero, suc, ◌<◌, ◌^◌, ◌≡◌, Bool, true, [], ◌∷◌, List, Bytes, codes, Option, none, some, Outcome,
  ok, pos, sym, subst, if◌then◌else◌, arith,
}
use mrksvnup.Proto.Unpack.Tokens.{Token}
use mrksvnup.Proto.Pack.{Output, IsOutput, pack_list}
use mrksvnup.Proto.Requests.{Depth, svn_depth_str, has_flag, bool_str}
use mrksvnup.Proto.Requests.Commands.{
  check_path_pack1, check_path_pack2, check_path_pack3, get_latest_rev_pack1, reparent_pack1,
  reparent_pack2, set_path_pack1, set_path_pack2, set_path_pack3, finish_report_pack1,
  abort_report_pack1, update_pack1, update_pack2, update_pack3, update_pack4, auth_response,
  words_loop, caps, mycaps, greeting_response,
}
use mrksvnup.Proto.Requests.Reads.{
  get_file_pack1, get_file_pack2, get_file_pack3, get_dir_pack1, get_dir_pack2, get_dir_pack3,
  get_dir_pack4, fields,
}
use mrksvnup.Proto.Requests.Grammar.{
  Request, check_path, get_latest_rev, finish_report, abort_report, reparent, set_path, update,
  update_success, get_file, get_dir, anonymous, greeting, optional_string, optional_rev, words, row,
  revision, packer,
}
use mrksvnup.Proto.Pack.Text.{Appends}
use mrksvnup.Proto.Requests.Rows.{
  tokens_text, Rows, last-Rows, before-Rows, ok-Rows, word-Rows, string-Rows, number-Rows, int-Rows,
  list-Rows, empty_list-Rows,
}

module _ (o : Output) (text : o.Out → Bytes) (laws : IsOutput o text) where
  abbrev Packs : Request → Type 0
  Packs q = Rows o text laws (pack_list o (some (packer o q))) (row q)

  words_loop-Rows : (k : ℕ) (ws : List Bytes) → Rows o text laws (words_loop o k ws) (words ws)
  unfolding words_loop
  words_loop-Rows k [] = ok-Rows
  words_loop-Rows k (w ∷ ws) = before-Rows k (word-Rows w) (words_loop-Rows k ws)

  check_path-Rows : (path : Bytes) (rev : ℕ) → rev < 2 ^ 31 → Packs (check_path path rev)
  unfolding check_path_pack1 check_path_pack2 check_path_pack3
  check_path-Rows path rev low =
      let pack3 = list-Rows (last-Rows 1 (int-Rows rev low)) in
      let pack2 = list-Rows (before-Rows 2 (string-Rows path) (last-Rows 3 pack3)) in
      list-Rows (before-Rows 4 (word-Rows (codes "check-path")) (last-Rows 5 pack2))

  get_latest_rev-Rows : Packs get_latest_rev
  unfolding get_latest_rev_pack1
  get_latest_rev-Rows =
      list-Rows (before-Rows 1 (word-Rows (codes "get-latest-rev")) (last-Rows 2 empty_list-Rows))

  finish_report-Rows : Packs finish_report
  unfolding finish_report_pack1
  finish_report-Rows =
      list-Rows (before-Rows 1 (word-Rows (codes "finish-report")) (last-Rows 2 empty_list-Rows))

  abort_report-Rows : Packs abort_report
  unfolding abort_report_pack1
  abort_report-Rows =
      list-Rows (before-Rows 1 (word-Rows (codes "abort-report")) (last-Rows 2 empty_list-Rows))

  update_success-Rows : Packs update_success
  unfolding update_pack4
  update_success-Rows =
      list-Rows (before-Rows 1 (word-Rows (codes "success")) (last-Rows 2 empty_list-Rows))

  anonymous-Rows : Packs anonymous
  unfolding auth_response
  anonymous-Rows =
      list-Rows (before-Rows 1 (word-Rows (codes "ANONYMOUS")) (last-Rows 2 empty_list-Rows))

  reparent-Rows : (path : Bytes) → Packs (reparent path)
  unfolding reparent_pack1 reparent_pack2
  reparent-Rows path =
      let pack2 = list-Rows (last-Rows 1 (string-Rows path)) in
      list-Rows (before-Rows 2 (word-Rows (codes "reparent")) (last-Rows 3 pack2))

  lock_token-Rows :
      (lock_token : Option Bytes)
      → Rows o text laws (set_path_pack3 o lock_token) (optional_string lock_token)
  unfolding set_path_pack3
  lock_token-Rows none = ok-Rows
  lock_token-Rows (some s) = last-Rows 1 (string-Rows s)

  set_path-Rows :
      (path : Bytes) (rev : ℕ) (lock_token : Option Bytes) (depth : Depth) (flags : ℕ)
      → rev < 2 ^ 31
      → Packs (set_path path rev lock_token depth flags)
  unfolding set_path_pack1 set_path_pack2
  set_path-Rows path rev lock_token depth flags low =
      let pack2 = list-Rows (
        before-Rows 2 (string-Rows path) (
          before-Rows 3 (int-Rows rev low) (
            before-Rows 4 (word-Rows (bool_str (has_flag flags 32))) (
              before-Rows 5 (list-Rows (lock_token-Rows lock_token))
                (last-Rows 6 (word-Rows (svn_depth_str depth))))))) in
      list-Rows (before-Rows 7 (word-Rows (codes "set-path")) (last-Rows 8 pack2))

  when-Rows :
      {f : o.Out → Outcome o.Out} {ts : List Token} {b : Bool}
      → b ≡ true
      → Rows o text laws f ts
      → Rows o text laws (λ out. if b then f out else ok out) ts
  when-Rows {f = f} {ts = ts} h rows =
      subst (λ b. Rows o text laws (λ out. if b then f out else ok out) ts) (sym h) rows

  update_pack3-Rows :
      (rev : ℕ) → rev < 2 ^ 31 → Rows o text laws (update_pack3 o (pos rev)) (optional_rev rev)
  unfolding update_pack3
  update_pack3-Rows zero low = ok-Rows
  update_pack3-Rows (suc rev) low = when-Rows (ground arith) (last-Rows 3 (int-Rows (suc rev) low))

  update-Rows :
      (rev : ℕ) (target : Bytes) (depth : Depth) (flags : ℕ)
      → rev < 2 ^ 31
      → Packs (update rev target depth flags)
  unfolding update_pack1 update_pack2
  update-Rows rev target depth flags low =
      let pack2 = list-Rows (
        before-Rows 4 (list-Rows (update_pack3-Rows rev low)) (
          before-Rows 5 (string-Rows target) (
            before-Rows 6 (word-Rows (bool_str (has_flag flags 8))) (
              before-Rows 7 (word-Rows (svn_depth_str depth))
                (last-Rows 8 (word-Rows (bool_str (has_flag flags 16)))))))) in
      list-Rows (before-Rows 9 (word-Rows (codes "update")) (last-Rows 10 pack2))

  get_file-Rows :
      (path : Bytes) (rev : ℕ) (flags : ℕ) → rev < 2 ^ 31 → Packs (get_file path rev flags)
  unfolding get_file_pack1 get_file_pack2 get_file_pack3
  get_file-Rows path rev flags low =
      let pack2 = list-Rows (
        before-Rows 2 (string-Rows path) (
          before-Rows 3 (list-Rows (last-Rows 1 (int-Rows rev low))) (
            before-Rows 4 (word-Rows (bool_str (has_flag flags 1))) (
              before-Rows 5 (word-Rows (bool_str (has_flag flags 2)))
                (last-Rows 6 empty_list-Rows))))) in
      list-Rows (before-Rows 7 (word-Rows (codes "get-file")) (last-Rows 8 pack2))

  get_dir-Rows : (path : Bytes) (rev : ℕ) → rev < 2 ^ 31 → Packs (get_dir path rev)
  unfolding get_dir_pack1 get_dir_pack2 get_dir_pack3 get_dir_pack4
  get_dir-Rows path rev low =
      let pack2 = list-Rows (
        before-Rows 3 (string-Rows path) (
          before-Rows 4 (list-Rows (last-Rows 2 (int-Rows rev low))) (
            before-Rows 5 (word-Rows (codes "false")) (
              before-Rows 6 (word-Rows (codes "true")) (
                before-Rows 7 (list-Rows (words_loop-Rows 1 fields))
                  (last-Rows 8 empty_list-Rows)))))) in
      list-Rows (before-Rows 9 (word-Rows (codes "get-dir")) (last-Rows 10 pack2))

  greeting-Rows : (url ra_client : Bytes) → Packs (greeting url ra_client)
  unfolding greeting_response mycaps
  greeting-Rows url ra_client = list-Rows (
      before-Rows 1 (number-Rows 2) (
        before-Rows 2 (list-Rows (words_loop-Rows 1 caps)) (
          before-Rows 3 (string-Rows url)
            (before-Rows 4 (string-Rows ra_client) (last-Rows 5 empty_list-Rows)))))

  pack_request-Rows : (q : Request) → revision q < 2 ^ 31 → Packs q
  pack_request-Rows (check_path path rev) low = check_path-Rows path rev low
  pack_request-Rows get_latest_rev low = get_latest_rev-Rows
  pack_request-Rows finish_report low = finish_report-Rows
  pack_request-Rows abort_report low = abort_report-Rows
  pack_request-Rows (reparent path) low = reparent-Rows path
  pack_request-Rows (set_path path rev lock_token depth flags) low =
      set_path-Rows path rev lock_token depth flags low
  pack_request-Rows (update rev target depth flags) low = update-Rows rev target depth flags low
  pack_request-Rows update_success low = update_success-Rows
  pack_request-Rows (get_file path rev flags) low = get_file-Rows path rev flags low
  pack_request-Rows (get_dir path rev) low = get_dir-Rows path rev low
  pack_request-Rows anonymous low = anonymous-Rows
  pack_request-Rows (greeting url ra_client) low = greeting-Rows url ra_client

  -- On an output stream that follows its laws, for each request of the client whose revision, if it
  -- has one, is below 2^31: packing the request's list fails, or it appends the text of the row of
  -- tokens that the protocol gives for the request, its command, strings, revisions, flags and
  -- nested lists in order.
  pub pack_request-Appends :
      (q : Request) (out : o.Out)
      → revision q < 2 ^ 31
      → Appends o text laws (pack_list o (some (packer o q)) out) out (tokens_text (row q))
  pack_request-Appends q out low = (pack_request-Rows q low).appends out
