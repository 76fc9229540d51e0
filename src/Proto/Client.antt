-- ===== src/Proto/Client.antt =====
-- The client's side of a conversation: src/svnproto.c, src/svnproto_auth.c and the functions of
-- src/svnproto_*.c that send a request and take the reply.
pub mod Response
pub mod Auth
pub mod Commands
pub mod Listing
pub mod Files
pub mod Values
pub mod Errors
pub mod Endings
pub mod Offers
pub mod Login
pub mod Conversations
pub mod Unlisted
pub mod NoListing
pub mod Runs
use mrksvnup.Base.{
  ℕ, Bool, List, Bytes, Option, none, some, ℤ, negsuc, pos, Outcome, ok, fail, fault, stuck,
}
use mrksvnup.Proto.Pack.{Output, checked, pack_list}
use mrksvnup.Proto.Unpack.{Code, success, nomatch, other, Value, long, null, text, Reader}

-- `last_error` of `svnc_ctx_t`.
pub record LastError : Type 0 where
  pub apr_error : ℤ
  pub message : Option Bytes
  pub file : Option Bytes
  pub line : ℤ

-- What `svnc_clear_last_error` leaves.
abbrev pub cleared : LastError
cleared = record { apr_error = negsuc 0; message = none; file = none; line = negsuc 0 }

-- A value that a pointer receives: a `long`, and a string that may be NULL.
abbrev pub long_of : Value → ℤ
long_of (long n) = pos n
long_of _ = pos 0

abbrev pub text_of : Value → Option Bytes
text_of (text s) = some s
text_of _ = none

-- The memory that a response may write: the last error of the client, and the caller's variables.
pub record Held (A : Type 0) : Type 0 where
  pub last_error : LastError
  pub mine : A

-- The server at the other end: the two streams, `bytestream_produce_data`, which sends what the
-- output stream holds, and `bytestream_rewind`; and the fuel of the loops of a format.
pub record Peer : Type 1 where
  pub output : Output
  pub reader : Reader
  pub produce : output.Out → Option output.Out
  pub rewind : output.Out → output.Out
  pub fuel : ℕ

-- The parts of `svnc_ctx_t` that the conversation changes; `auth_mech_ok` is a flag of it.
pub record Ctx (p : Peer) : Type 0 where
  pub out : p.output.Out
  pub inp : p.reader.R
  pub auth_mech_ok : Bool
  pub last_error : LastError

-- How a function ends: with a code, the client and the caller's variables; `lost` is an error of the
-- output side, behind which the state of its stream is open; `undefined` is a behaviour that C leaves
-- open, and `endless` a loop of the model without fuel, or a read that does not end.
pub data Result (p : Peer) (A : Type 0) : Type 0 where
  returned : Code → Ctx p → A → Result p A
  lost : Code → Result p A
  undefined endless : Result p A

module _ (p : Peer) where
  -- `if (... != 0) { res = K + k; goto END; }` behind a call: 0 goes on, and any other code is `k`.
  unfoldable pub checked_call :
      {A B : Type 0} → ℕ → (A → B) → Result p A → (Ctx p → A → Result p B) → Result p B
  checked_call k keep (returned success c a) next = next c a
  checked_call k keep (returned (nomatch j) c a) next = returned (other k) c (keep a)
  checked_call k keep (returned (other j) c a) next = returned (other k) c (keep a)
  checked_call k keep (lost code) next = lost (other k)
  checked_call k keep undefined next = undefined
  checked_call k keep endless next = endless

  -- An error of `pack_list` is `k`, and one of `bytestream_produce_data` is `j`.
  abbrev pub or_lost : {A B : Type 0} → ℕ → Outcome B → (B → Result p A) → Result p A
  or_lost k (ok b) next = next b
  or_lost k (fail i) next = lost (other k)
  or_lost k fault next = undefined
  or_lost k stuck next = endless

  -- `pack_list` on the output stream, and then `bytestream_produce_data`.
  unfoldable pub sending :
      {A : Type 0}
      → ℕ
      → ℕ
      → (p.output.Out → Outcome p.output.Out)
      → Ctx p
      → (Ctx p → Result p A)
      → Result p A
  sending k j pack c next =
      or_lost k (pack_list p.output (some pack) c.out)
        λ out. or_lost j (checked 1 (p.produce out)) λ out. next (record c { out = out })

  abbrev pub rewound : Ctx p → Ctx p
  rewound c = record c { out = p.rewind c.out }
