-- ===== src/Remoting/Delivery.antt =====
-- Response.Handle and the request numbers: each response is delivered once.
use incubator_dubbo_go.Prelude.{
  ℕ, zero, suc, ◌+◌, ◌*◌, ◌^◌, ◌<◌, ◌≡◌, refl, sym, ap, ◌∙◌, Bool, true, false, List, [], ◌∷◌,
  Option, none, some, Option-cases, Bool-cases, inl, inr, if◌then◌else◌, get_elem?, arith, lookup,
  lookup-erase, erase,
}
use incubator_dubbo_go.Prelude.Int.{ℤ, pos, ◌+ℤ◌, eqb_ℤ, wrap64}
use incubator_dubbo_go.Remoting.{
  Response, PendingResponse, CallResponse, Exchange, sequence_id, handle, handled, deliver,
  remove_pending_response, get_pending_response, int_key, eqb_ℤ_iff,
}

deliver-pending :
    (c : Option ℕ) (r : Response) (p : PendingResponse) (e : Exchange)
    → (deliver c r p e).pending ≡ e.pending
unfolding deliver
deliver-pending none r p e = refl
deliver-pending (some c) r p e = refl

remove_unknown :
    (k : ℤ) (e : Exchange) → lookup k e.pending ≡ none → remove_pending_response k e ≡ (none, e)
unfolding remove_pending_response
remove_unknown k e h = rw (h, remove_pending_response) refl

remove_known :
    (k : ℤ) (p : PendingResponse) (e : Exchange)
    → lookup k e.pending ≡ some p
    → remove_pending_response k e ≡ (some p, record e { pending = erase k e.pending })
unfolding remove_pending_response
remove_known k p e h = rw (h, remove_pending_response) refl

handle_unknown : (r : Response) (e : Exchange) → get_pending_response r.id e ≡ none → handle r e ≡ e
unfolding get_pending_response handle handled
handle_unknown r e h = rw (remove_unknown r.id e h) refl

handle_known :
    (r : Response) (p : PendingResponse) (e : Exchange)
    → get_pending_response r.id e ≡ some p
    → handle r e ≡ deliver p.callback r p (record e { pending = erase r.id e.pending })
unfolding get_pending_response handle handled
handle_known r p e h = rw (remove_known r.id p e h) refl

get_pending_response-erase :
    (k j : ℤ) (e : Exchange)
    → lookup j (erase k e.pending) ≡ (if eqb_ℤ k j then none else get_pending_response j e)
unfolding get_pending_response
get_pending_response-erase k j e = lookup-erase k j e.pending

unknown_same :
    (k j : ℤ) (e : Exchange)
    → get_pending_response j e ≡ none
    → get_pending_response k e ≡ (if eqb_ℤ j k then none else get_pending_response k e)
unknown_same k j e h = elim (Bool-cases (eqb_ℤ j k)) [
  | inl q ↦ rw q (ap (λ x. get_pending_response x e) (sym ((eqb_ℤ_iff j k).0 q)) ∙ h)
  | inr q ↦ rw q refl
]

get_pending_response-deliver :
    (k : ℤ) (c : Option ℕ) (r : Response) (p : PendingResponse) (e : Exchange)
    → get_pending_response k (deliver c r p e) ≡ lookup k e.pending
unfolding get_pending_response
get_pending_response-deliver k c r p e = rw (deliver-pending c r p e) refl

-- Behind Handle no request waits for the response's number, and the others wait as before.
pub get_pending_response-handle :
    (k : ℤ) (r : Response) (e : Exchange)
    → get_pending_response k (handle r e)
      ≡ (if eqb_ℤ r.id k then none else get_pending_response k e)
get_pending_response-handle k r e = elim (Option-cases (get_pending_response r.id e)) [
  | inl h ↦ rw (handle_unknown r e h) (unknown_same k r.id e h)
  | inr (p, h) ↦ rw (handle_known r p e h) (
      get_pending_response-deliver k p.callback r p (record e { pending = erase r.id e.pending })
      ∙ get_pending_response-erase r.id k e)
]

-- What is handed over: the requests that are answered and their responses, in order.
abbrev pub Answers : Type 0
Answers = List (PendingResponse × Response)

-- An independent account of a run of responses: who waits is a function, a response whose number
-- somebody waits for goes to that one, who then no longer waits, and any other is dropped.
abbrev pub Waiting : Type 0
Waiting = ℤ → Option PendingResponse

abbrev pub without : ℤ → Waiting → Waiting
without n w k = if eqb_ℤ n k then none else w k

abbrev pub answered_first : Response → Option PendingResponse → Answers → Answers
answered_first r none rest = rest
answered_first r (some p) rest = (p, r) ∷ rest

abbrev pub answered : List Response → Waiting → Answers
answered [] w = []
answered (r ∷ rs) w = answered_first r (w r.id) (answered rs (without r.id w))

abbrev pub still_waiting : List Response → Waiting → Waiting
still_waiting [] w = w
still_waiting (r ∷ rs) w = still_waiting rs (without r.id w)

-- Those that wait without a callback, released with their response and its error.
abbrev pub released_first : Option ℕ → PendingResponse → List PendingResponse → List PendingResponse
released_first none p rest = p ∷ rest
released_first (some c) p rest = rest

abbrev pub released : Answers → List PendingResponse
released [] = []
released ((p, r) ∷ ans) =
    released_first p.callback (record p { response = r; err = r.error; closed = true })
      (released ans)

-- The callbacks with what they are called with.
abbrev pub called_first :
    Option ℕ → CallResponse → List (ℕ × CallResponse) → List (ℕ × CallResponse)
called_first none r rest = rest
called_first (some c) r rest = (c, r) ∷ rest

abbrev pub called_back : Answers → List (ℕ × CallResponse)
called_back [] = []
called_back ((p, r) ∷ ans) =
    called_first p.callback (record { cause = p.err; reply = r }) (called_back ans)

-- Responses that come in one after the other.
unfoldable pub handle_all : List Response → Exchange → Exchange
handle_all [] e = e
handle_all (r ∷ rs) e = handle_all rs (handle r e)

abbrev pub waiting_for : Exchange → Waiting
waiting_for e k = get_pending_response k e

if_true : {A : Type 0} (b : Bool) (x y : A) → b ≡ true → (if b then x else y) ≡ x
if_true true x y h = refl
if_true false x y h = cc

-- A second response to a request is dropped.
pub handle_twice :
    (r r' : Response) (e : Exchange) → r'.id ≡ r.id → handle r' (handle r e) ≡ handle r e
handle_twice r r' e h = handle_unknown r' (handle r e) (
    get_pending_response-handle r'.id r e
    ∙ if_true (eqb_ℤ r.id r'.id) none _ ((eqb_ℤ_iff r.id r'.id).1 (sym h)))

-- The next `n` request numbers.
unfoldable pub sequence_ids : ℕ → Exchange → List ℤ
sequence_ids zero e = []
sequence_ids (suc n) e = let (i, e') = sequence_id e in i ∷ sequence_ids n e'

sequence_id-even :
    (s : ℕ) (e : Exchange)
    → e.sequence ≡ pos s
    → s + 2 < 2 ^ 63
    → sequence_id e ≡ (pos (s + 2), record e { sequence = pos (s + 2) })
unfolding sequence_id ◌+ℤ◌ wrap64
sequence_id-even s e h fits = rw h (ground arith)

-- The i-th of the next request numbers is 2 (i + 1) above the counter, as long as the counter does
-- not overflow an int64: no number is given twice, and all have the counter's parity.
pub get_elem?-sequence_ids :
    (n i s : ℕ) (e : Exchange)
    → e.sequence ≡ pos s
    → s + 2 * n < 2 ^ 63
    → i < n
    → get_elem? (sequence_ids n e) i ≡ some (pos (s + 2 * (i + 1)))
unfolding sequence_ids
get_elem?-sequence_ids zero i s e h fits l = absurd (omega arith)
get_elem?-sequence_ids (suc n) zero s e h fits l = rw (sequence_id-even s e h (omega arith)) refl
get_elem?-sequence_ids (suc n) (suc i) s e h fits l = rw (sequence_id-even s e h (omega arith)) (
    ground (
      arith,
      get_elem?-sequence_ids n i (s + 2) (record e { sequence = pos (s + 2) }) refl (omega arith)
          (omega arith),
    ))
