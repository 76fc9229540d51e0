-- ===== src/Proto/Unpack/Format.antt =====
-- The loop of `svnproto_vunpack` over a format.
use mrksvnup.Base.{ℕ, zero, suc, ◌==◌, if◌then◌else◌, List, [], ◌∷◌, Bytes, length}
use mrksvnup.Proto.Unpack.{
  Code, success, nomatch, Reader, is_list_start, is_list_end, Times, modifier, suppressed, Argument,
  Step, next, stop, fault, stuck, Unpacked, unpacked,
}
use mrksvnup.Proto.Unpack.Values.{list_item, number_item, word_item, string_item}
use mrksvnup.Proto.Unpack.Calls.{strings_item, calls_item}

module _ (d : Reader) (U : Type 0) where
  open d use {R, read, tok, step_back, recycle}

  -- The item of letter `c`.
  unfoldable pub item : ℕ → Code → ℕ → Times → List (Argument d U) → R → U → Step d U
  item c res fuel times args r u =
      if c == b'('
      then list_item d U is_list_start 1 args r u
      else if c == b')'
      then list_item d U is_list_end 2 args r u
      else if c == b'n'
      then number_item d U fuel times args r u
      else if c == b'w'
      then word_item d U fuel times args r u
      else if c == b's'
      then string_item d U fuel times args r u
      else if c == b'S'
      then strings_item d U fuel times args r u
      else if c == b'r'
      then calls_item d U res fuel times args r u
      else stop (nomatch 8) r u

  unfoldable pub ended : Code → R → U → Unpacked d U
  ended res r u = unpacked (suppressed res) r u

  -- What follows an item: the next one, or `END`.
  unfoldable pub proceed :
      (Code → List (Argument d U) → R → U → Unpacked d U) → Step d U → Unpacked d U
  proceed loop (next res args r u) = loop res args r u
  proceed loop (stop res r u) = ended res r u
  proceed loop fault = fault
  proceed loop stuck = stuck

  -- `for (ps = spec; ps; ++ps)`, with `left` items at most, and with the fuel of each item's own loop.
  unfoldable pub items_loop : ℕ → ℕ → Code → Bytes → List (Argument d U) → R → U → Unpacked d U
  items_loop zero fuel res spec args r u = stuck
  items_loop (suc left) fuel res [] args r u = ended res r u
  items_loop (suc left) fuel res (c ∷ spec) args r u =
      let (times, spec') = modifier spec in
      proceed (λ res' args' r' u'. items_loop left fuel res' spec' args' r' u')
        (item c res fuel times args r u)

  -- An item takes at least one byte of the format, and a last round finds its end.
  unfoldable pub svnproto_vunpack : ℕ → Bytes → List (Argument d U) → R → U → Unpacked d U
  svnproto_vunpack fuel spec args r u = items_loop (suc (length spec)) fuel success spec args r u
