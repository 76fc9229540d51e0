-- ===== src/Svndiff/Insn.antt =====
-- `decode_insn` of src/svndiff.c and the instructions of a window.
pub mod RoundTrip
pub mod Bounds
use mrksvnup.Base.{
  ℕ, zero, suc, ◌+◌, ◌-◌, ◌*◌, ◌/◌, ◌%◌, List, [], ◌∷◌, ◌++◌, Option, none, some, ◌^◌, Bytes,
  if◌then◌else◌, ◌==◌, Outcome, ok, fail, fault, stuck, length, stuck, length, ◌>>=◌, on_fail, ℤ,
  pos, negsuc, to_long,
}
use mrksvnup.Svndiff.Number.{Cursor, read_number}

abbrev pub txdelta_source : ℕ
txdelta_source = 0

abbrev pub txdelta_target : ℕ
txdelta_target = 1

abbrev pub txdelta_new : ℕ
txdelta_new = 2

-- `svndiff_insn_t`. A code read from a document is 0 to 3; `offset` keeps the -1 of the probe in
-- a `txdelta_new` instruction.
pub record Insn : Type 0 where
  pub code : ℕ
  pub offset : ℤ
  pub len : ℤ

-- The length: `c & 0x3f`, or the number behind the first byte if that is 0.
decode_len : ℕ → Cursor → Outcome (Cursor × ℤ)
decode_len low from = if low == 0 then read_number 1 from else ok (from, pos low)

-- Only source and target instructions have an offset.
decode_offset : ℕ → Cursor → Outcome (Cursor × ℤ)
decode_offset code from = if code == txdelta_new then ok (from, negsuc 0) else read_number 2 from

-- The byte at `start` is read with no test, as in the source.
pub decode_insn : Cursor → Outcome (Cursor × Insn)
unfolding decode_len decode_offset
decode_insn ([], left) = fault
decode_insn (c ∷ s, left) = do
  let code = c / 2 ^ 6 % 2 ^ 2
  (s1, len) ← decode_len (c % 2 ^ 6) (s, left - 1)
  (s2, offset) ← decode_offset code s1
  ok (s2, record { code = code; offset = offset; len = len })

-- The loop over the instructions section, `while (instart < insend)`, on fuel. It ends without
-- an error where an instruction does not decode: `break` leaves what was read before it.
pub insn_loop : ℕ → Cursor → List Insn → Outcome (List Insn)
insn_loop zero from insns = stuck
insn_loop (suc fuel) (s, zero) insns = ok insns
insn_loop (suc fuel) (s, suc left) insns = elim (decode_insn (s, suc left)) [
  | ok (to, insn) ↦ insn_loop fuel to (insns ++ insn ∷ [])
  | fail k ↦ ok insns
  | fault ↦ fault
  | stuck ↦ stuck
]

-- The instructions of a section `b`; each takes a byte at least.
unfoldable pub section_insns : Bytes → Outcome (List Insn)
section_insns b = insn_loop (suc (length b)) (b, length b) []
