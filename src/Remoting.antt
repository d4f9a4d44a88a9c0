-- ===== src/Remoting.antt =====
-- remoting/exchange.go: request numbers and the responses that are waited for.
pub mod Delivery
use incubator_dubbo_go.Prelude.{
  ℕ, zero, suc, ◌≡◌, ◌↔◌, Bool, true, false, List, [], ◌∷◌, ◌++◌, Option, none, some, if◌then◌else◌,
  Text, codes, KeyEq, lookup, insert, erase, arith,
}
use incubator_dubbo_go.Prelude.Int.{ℤ, pos, negsuc, ◌+ℤ◌, eqb_ℤ, wrap64}
use incubator_dubbo_go.Protocol.{Any, nil, Error}

pub eqb_ℤ_iff : (a b : ℤ) → (eqb_ℤ a b ≡ true) ↔ (a ≡ b)
eqb_ℤ_iff a b = ground arith

instance abbrev pub int_key : KeyEq ℤ
int_key = record { same = eqb_ℤ; same_iff = eqb_ℤ_iff }

pub record Request : Type 0 where
  pub id : ℤ
  pub version : Text
  pub payload : Any
  pub two_way : Bool
  pub event : Bool

pub record Response : Type 0 where
  pub id : ℤ
  pub version : Text
  pub status : ℕ
  pub event : Bool
  pub error : Option Error
  pub result : Any

-- PendingResponse. `callback` names the callback; `closed` says that Done is closed.
pub record PendingResponse : Type 0 where
  pub seq : ℤ
  pub err : Option Error
  pub callback : Option ℕ
  pub response : Response
  pub reply : Any
  pub closed : Bool

-- What a callback is called with: AsyncCallbackResponse without its times.
pub record CallResponse : Type 0 where
  pub cause : Option Error
  pub reply : Response

-- The package's variables, and what has been handed over so far: the pending responses whose Done
-- was closed, and the callbacks with their arguments.
pub record Exchange : Type 0 where
  pub sequence : ℤ
  pub pending : List (ℤ × PendingResponse)
  pub completed : List PendingResponse
  pub called : List (ℕ × CallResponse)

unfoldable pub sequence_id : Exchange → ℤ × Exchange
sequence_id e = let n = wrap64 (e.sequence +ℤ pos 2) in (n, record e { sequence = n })

unfoldable pub new_request : Text → Exchange → Request × Exchange
unfolding sequence_id
new_request version e =
    let (n, e') = sequence_id e in
    (record { id = n; version = version; payload = nil; two_way = false; event = false }, e')

unfoldable pub new_response : ℤ → Text → Response
new_response id version = record {
  id = id;
  version = version;
  status = 0;
  event = false;
  error = none;
  result = nil;
}

unfoldable pub is_heartbeat : Response → Bool
is_heartbeat r = elim r.result [ nil ↦ r.event | _ ↦ false ]

unfoldable pub new_pending_response : ℤ → PendingResponse
unfolding new_response
new_pending_response id = record {
  seq = id;
  err = none;
  callback = none;
  response = new_response (pos 0) [];
  reply = nil;
  closed = false;
}

unfoldable pub set_response : Response → PendingResponse → PendingResponse
set_response r p = record p { response = r }

unfoldable pub get_call_response : PendingResponse → CallResponse
get_call_response p = record { cause = p.err; reply = p.response }

unfoldable pub add_pending_response : PendingResponse → Exchange → Exchange
unfolding insert
add_pending_response p e = record e { pending = insert p.seq p e.pending }

unfoldable pub remove_pending_response : ℤ → Exchange → Option PendingResponse × Exchange
unfolding lookup erase
remove_pending_response seq e = elim (lookup seq e.pending) [
  | none ↦ (none, e)
  | some p ↦ (some p, record e { pending = erase seq e.pending })
]

unfoldable pub get_pending_response : ℤ → Exchange → Option PendingResponse
unfolding lookup
get_pending_response seq e = lookup seq e.pending

-- The two branches at the end of Handle.
unfoldable pub deliver : Option ℕ → Response → PendingResponse → Exchange → Exchange
unfolding get_call_response set_response
deliver none r p e = record e {
  completed = e.completed ++ record (set_response r p) { err = r.error; closed = true } ∷ [];
}
deliver (some c) r p e = record e {
  called = e.called ++ (c, get_call_response (set_response r p)) ∷ [];
}

unfoldable pub handled : Option PendingResponse → Response → Exchange → Exchange
unfolding deliver
handled none r e = e
handled (some p) r e = deliver p.callback r p e

-- Response.Handle.
unfoldable pub handle : Response → Exchange → Exchange
unfolding remove_pending_response handled
handle r e = let (p, e') = remove_pending_response r.id e in handled p r e'
