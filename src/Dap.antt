-- ===== src/Dap.antt =====
-- The client of src/dap.rs: its requests, their answers and its end. One call of a method runs at a
-- time; what another task does in the middle of `send` is a parameter. The channel on which a request
-- waits for its answer is a ticket, numbered in the order of creation.
pub mod Framing
pub mod Tickets
pub mod Once
pub mod Served
pub mod Waiting
pub mod Sequences
use kernmini.Prelude.{
  ℕ, zero, suc, ◌+◌, ◌%◌, ◌^◌, max, String, Bytes, Bool, true, false, List, [], ◌∷◌, ◌++◌, Option,
  none, some, ◌==◌, nat_eq, string_eq, unwrap_or, filter_option, ◌and_then◌, is_some, map_or,
  length, ltb, map, if◌then◌else◌,
}
use kernmini.Prelude.Text.{concat, codes, decimal}
use kernmini.Json.{Value, object, Fields, num, lookup, insert, get, as_u64, as_str}
use kernmini.Errors.{
  Error, Result, ok, err, new, invalid_input, closed_error, from_json, map_err, ◌>>=◌,
}

pub record Client : Type 0 where
  pub next_seq : ℕ
  pub pending : List (ℕ × ℕ)
  pub close : Option Error
  pub tickets : ℕ
  pub dropped : List ℕ
  pub outgoing : List Bytes
  pub results : List (ℕ × Result Error Value)
  pub events : List Value

-- `HashMap::get` and `HashMap::remove`
unfoldable pub find : ℕ → List (ℕ × ℕ) → Option ℕ
find seq [] = none
find seq ((k, t) ∷ l) = if k == seq then some t else find seq l

unfoldable pub remove : ℕ → List (ℕ × ℕ) → List (ℕ × ℕ)
remove seq [] = []
remove seq ((k, t) ∷ l) = if k == seq then l else (k, t) ∷ remove seq l

-- `fetch_add(1)`, which wraps.
unfoldable pub next_sequence : Client → Client × ℕ
next_sequence client =
    (record client { next_seq = (client.next_seq + 1) % 2 ^ 64 }, client.next_seq)

-- The sequence of a request: its own, or the next, which is then written into it.
unfoldable pub assign : Client → Fields → Option ℕ → Client × Fields × ℕ
unfolding next_sequence insert
assign client content (some seq) = (client, content, seq)
assign client content none =
    let (after, seq) = next_sequence client in (after, insert "seq" (num seq) content, seq)

-- `checked_add` and `fetch_max`
unfoldable pub advance : Client → ℕ → Client × Result Error ℕ
advance client seq =
    if ltb (seq + 1) (2 ^ 64)
    then (record client { next_seq = max client.next_seq (seq + 1) }, ok seq)
    else (client, err (new invalid_input "DAP request sequence is too large"))

-- The sequence that the request brings, which must be positive.
abbrev pub given_seq : Fields → Option ℕ
given_seq content = filter_option (λ seq. ltb 0 seq) (lookup "seq" content and_then as_u64)

-- The client, the request with its sequence, and the sequence.
unfoldable pub request_sequence : Client → Value → Client × Value × Result Error ℕ
unfolding assign advance lookup
request_sequence client (object content) =
    let (assigned, filled, seq) = assign client content (given_seq content) in
    let (after, result) = advance assigned seq in (after, object filled, result)
request_sequence client other =
    (client, other, err (new invalid_input "DAP request must be an object"))

unfoldable pub encode_message : (Value → Result String Bytes) → Value → Result Error Bytes
unfolding from_json decimal
encode_message to_vec message = do
  payload ← map_err from_json (to_vec message)
  ok (
      codes "Content-Length: "
      ++ (codes (decimal (length payload)) ++ (13 ∷ 10 ∷ 13 ∷ 10 ∷ payload)))

abbrev pub fail_all : Error → List (ℕ × ℕ) → List (ℕ × Result Error Value)
fail_all reason [] = []
fail_all reason ((seq, ticket) ∷ l) = (ticket, err reason) ∷ fail_all reason l

-- The first reason stays, and every open request fails with it.
unfoldable pub fail_pending : Client → Error → Client
fail_pending client failure =
    let reason = unwrap_or client.close failure in
    record client {
      close = some reason;
      pending = [];
      results = client.results ++ fail_all reason client.pending;
    }

abbrev pub is_dropped : Client → ℕ → Bool
is_dropped client ticket = is_in ticket client.dropped
  where
    is_in : ℕ → List ℕ → Bool
    is_in t [] = false
    is_in t (u ∷ l) = if u == t then true else is_in t l

-- `Drop for DapRequest`: the receiver closes, and the entry goes if its sender has no receiver.
unfoldable pub drop_request : Client → ℕ → ℕ → Client
unfolding find remove
drop_request client seq ticket =
    let closed = record client { dropped = ticket ∷ client.dropped } in
    if map_or false (is_dropped closed) (find seq client.pending)
    then record closed { pending = remove seq client.pending }
    else closed

-- The end of `send`: the frame goes to the writer if nothing has closed the client and the writer
-- still takes it; else the request is dropped.
unfoldable pub hand_over :
    Client → Option Error → ℕ → ℕ → Bytes → Bool → Client × Result Error (ℕ × ℕ)
unfolding drop_request
hand_over client (some reason) seq ticket frame connected =
    (drop_request client seq ticket, err reason)
hand_over client none seq ticket frame true =
    (record client { outgoing = client.outgoing ++ frame ∷ [] }, ok (seq, ticket))
hand_over client none seq ticket frame false =
    (drop_request client seq ticket, err (closed_error "DAP connection"))

-- What another task may do after the request is entered: close the client.
abbrev pub closing : Option Error → Client → Client
closing none client = client
closing (some reason) client = fail_pending client reason

unfoldable pub register : Client → ℕ → Bytes → Option Error → Bool → Client × Result Error (ℕ × ℕ)
unfolding hand_over find fail_pending decimal
register client seq frame meanwhile connected =
    if is_some (find seq client.pending)
    then (
      client,
      err (new invalid_input (concat "DAP request " (concat (decimal seq) " is already pending"))),
    )
    else (let entered = record client {
      pending = (seq, client.tickets) ∷ client.pending;
      tickets = client.tickets + 1;
    } in
        let after = closing meanwhile entered in
        hand_over after after.close seq client.tickets frame connected)

unfoldable pub send_framed :
    Client → ℕ → Result Error Bytes → Option Error → Bool → Client × Result Error (ℕ × ℕ)
unfolding register
send_framed client seq (err e) meanwhile connected = (client, err e)
send_framed client seq (ok frame) meanwhile connected =
    register client seq frame meanwhile connected

unfoldable pub send_sequenced :
    (Value → Result String Bytes)
    → Client
    → Value
    → Result Error ℕ
    → Option Error
    → Bool
    → Client × Result Error (ℕ × ℕ)
unfolding send_framed encode_message
send_sequenced to_vec client request (err e) meanwhile connected = (client, err e)
send_sequenced to_vec client request (ok seq) meanwhile connected =
    send_framed client seq (encode_message to_vec request) meanwhile connected

unfoldable pub send_unless :
    Option Error
    → (Value → Result String Bytes)
    → Client
    → Value
    → Option Error
    → Bool
    → Client × Result Error (ℕ × ℕ)
unfolding send_sequenced request_sequence
send_unless (some reason) to_vec client request meanwhile connected = (client, err reason)
send_unless none to_vec client request meanwhile connected =
    let (after, filled, seq) = request_sequence client request in
    send_sequenced to_vec after filled seq meanwhile connected

-- `send`: the client, and the sequence and the ticket of the request.
unfoldable pub send :
    (Value → Result String Bytes)
    → Client
    → Value
    → Option Error
    → Bool
    → Client × Result Error (ℕ × ℕ)
unfolding send_unless
send to_vec client request meanwhile connected =
    send_unless client.close to_vec client request meanwhile connected

-- A request waits for the answer: it takes the entry of its sequence.
unfoldable pub complete : Client → ℕ → Option ℕ → Value → Client
unfolding remove
complete client seq none message = client
complete client seq (some ticket) message = record client {
  pending = remove seq client.pending;
  results = client.results ++ (ticket, ok message) ∷ [];
}

unfoldable pub complete_numbered : Client → Option ℕ → Value → Client
unfolding complete find
complete_numbered client none message = client
complete_numbered client (some seq) message = complete client seq (find seq client.pending) message

-- A message that `read_messages` has read.
unfoldable pub receive : Client → Value → Client
unfolding complete_numbered get string_eq
receive client message =
    if map_or false (λ type. type == "event") (get "type" message and_then as_str)
    then record client { events = client.events ++ message ∷ [] }
    else complete_numbered client (get "request_seq" message and_then as_u64) message
