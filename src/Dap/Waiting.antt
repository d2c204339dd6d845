-- ===== src/Dap/Waiting.antt =====
-- `DapRequest::wait` of src/dap.rs, at its end, after any calls of the client.
use kernmini.Prelude.{
  ℕ, ◌+◌, ◌<◌, ◌≡◌, refl, String, Bytes, Bool, true, false, List, [], ◌∷◌, Option, none, some, ◌==◌,
  nat_eq, string_eq, arith, count_if, if◌then◌else◌, Bool-cases, Option-cases, ◌⊎◌, inl, inr,
  is_some,
}
use kernmini.Prelude.Text.{concat, decimal}
use kernmini.Json.{Value}
use kernmini.Errors.{Error, Result, ok, err, new, timed_out, caused_by, closed_error, foreign}
use kernmini.Dap.{
  Client, find, is_dropped, request_sequence, encode_message, drop_request, closing, register,
  send_framed, send_sequenced, send_unless, send,
}
use kernmini.Dap.Tickets.{
  IsOnce, answered, expected, is_result, is_entry, Fewer-IsOnce, Fewer-request_sequence,
}
use kernmini.Dap.Once.{
  Call, sending, receiving, failing, dropping, perform, perform_all, perform-IsOnce,
}
use kernmini.Dap.Served.{
  IsServed, Kept-IsServed, Kept-trans, Kept-closing, Kept-hand_over, Kept-request_sequence,
  Kept-receive, Kept-fail_pending, Kept-drop_request,
}

-- What a ticket's channel holds
unfoldable pub result_of : ℕ → List (ℕ × Result Error Value) → Option (Result Error Value)
result_of ticket [] = none
result_of ticket ((t, r) ∷ l) = if t == ticket then some r else result_of ticket l

-- Whether the channel's sender is there
unfoldable pub is_pending : ℕ → List (ℕ × ℕ) → Bool
is_pending ticket [] = false
is_pending ticket ((k, t) ∷ l) = if t == ticket then true else is_pending ticket l

abbrev pub sender_gone : Result Error Value
unfolding caused_by closed_error
sender_gone = err (caused_by (closed_error "DAP connection") (foreign "channel closed"))

abbrev pub waited_long : ℕ → Result Error Value
unfolding caused_by decimal
waited_long seq = err (
    caused_by (new timed_out (concat "waiting for DAP request " (decimal seq)))
      (foreign "deadline has elapsed"))

abbrev pub wait_outcome : ℕ → Option (Result Error Value) → Bool → Result Error Value
wait_outcome seq (some result) sender = result
wait_outcome seq none false = sender_gone
wait_outcome seq none true = waited_long seq

-- `wait`, on the client as it is when the wait ends: with an answer, with the end of the sender, or
-- when the time is up. The request is dropped then.
unfoldable pub wait : Client → ℕ → ℕ → Client × Result Error Value
unfolding result_of is_pending drop_request
wait client seq ticket = (
  drop_request client seq ticket,
  wait_outcome seq (result_of ticket client.results) (is_pending ticket client.pending),
)

entered-IsServed :
    (client : Client) (seq : ℕ)
    → IsOnce client
    → IsServed client
    → IsServed (record client {
      pending = (seq, client.tickets) ∷ client.pending;
      tickets = client.tickets + 1;
    })
entered-IsServed client seq o s t h d = elim (Bool-cases (client.tickets == t)) [
  | inl e ↦ ground (arith, (o t).1, e)
  | inr e ↦ ground (arith, s t, d, e)
]

register-IsServed :
    (client : Client) (seq : ℕ) (frame : Bytes) (meanwhile : Option Error) (connected : Bool)
    → IsOnce client
    → IsServed client
    → IsServed (register client seq frame meanwhile connected).0
unfolding register
register-IsServed client seq frame meanwhile connected o s =
    elim (Bool-cases (is_some (find seq client.pending))) [
      | inl e ↦ rw e s
      | inr e ↦
          let entered = record client {
            pending = (seq, client.tickets) ∷ client.pending;
            tickets = client.tickets + 1;
          } in
          let after = closing meanwhile entered in
          rw e (
            Kept-IsServed entered _
              (Kept-trans entered after _ (Kept-closing meanwhile entered)
                (Kept-hand_over after after.close seq client.tickets frame connected))
              (entered-IsServed client seq o s))
    ]

framed-IsServed :
    (client : Client) (seq : ℕ) (f : Result Error Bytes) (meanwhile : Option Error)
    (connected : Bool)
    → IsOnce client
    → IsServed client
    → IsServed (send_framed client seq f meanwhile connected).0
unfolding send_framed
framed-IsServed client seq (err e) meanwhile connected o s = s
framed-IsServed client seq (ok frame) meanwhile connected o s =
    register-IsServed client seq frame meanwhile connected o s

sequenced-IsServed :
    (to_vec : Value → Result String Bytes) (client : Client) (request : Value) (r : Result Error ℕ)
    (meanwhile : Option Error) (connected : Bool)
    → IsOnce client
    → IsServed client
    → IsServed (send_sequenced to_vec client request r meanwhile connected).0
unfolding send_sequenced
sequenced-IsServed to_vec client request (err e) meanwhile connected o s = s
sequenced-IsServed to_vec client request (ok seq) meanwhile connected o s =
    framed-IsServed client seq (encode_message to_vec request) meanwhile connected o s

request_sequence-IsOnce :
    (client : Client) (request : Value) → IsOnce client → IsOnce (request_sequence client request).0
request_sequence-IsOnce client request o =
    Fewer-IsOnce client _ (Fewer-request_sequence client request) o

unless-IsServed :
    (close : Option Error) (to_vec : Value → Result String Bytes) (client : Client)
    (request : Value) (meanwhile : Option Error) (connected : Bool)
    → IsOnce client
    → IsServed client
    → IsServed (send_unless close to_vec client request meanwhile connected).0
unfolding send_unless
unless-IsServed (some e) to_vec client request meanwhile connected o s = s
unless-IsServed none to_vec client request meanwhile connected o s =
    let (after, filled, r) = request_sequence client request in
    sequenced-IsServed to_vec after filled r meanwhile connected
      (request_sequence-IsOnce client request o)
      (Kept-IsServed client after (Kept-request_sequence client request) s)

perform-IsServed :
    (to_vec : Value → Result String Bytes) (c : Call) (client : Client)
    → IsOnce client
    → IsServed client
    → IsServed (perform to_vec c client)
unfolding send
perform-IsServed to_vec (sending request meanwhile connected) client o s =
    unless-IsServed client.close to_vec client request meanwhile connected o s
perform-IsServed to_vec (receiving m) client o s = Kept-IsServed client _ (Kept-receive client m) s
perform-IsServed to_vec (failing e) client o s =
    Kept-IsServed client _ (Kept-fail_pending client e) s
perform-IsServed to_vec (dropping seq ticket) client o s =
    Kept-IsServed client _ (Kept-drop_request client seq ticket) s

perform_all-IsServed :
    (to_vec : Value → Result String Bytes) (calls : List Call) (client : Client)
    → IsOnce client
    → IsServed client
    → IsServed (perform_all to_vec calls client)
perform_all-IsServed to_vec [] client o s = s
perform_all-IsServed to_vec (c ∷ calls) client o s =
    perform_all-IsServed to_vec calls (perform to_vec c client) (perform-IsOnce to_vec c client o)
      (perform-IsServed to_vec c client o s)

result_of-none :
    (t : ℕ) (l : List (ℕ × Result Error Value))
    → result_of t l ≡ none
    → count_if (is_result t) l ≡ 0
unfolding result_of
result_of-none t [] h = refl
result_of-none t ((u, r) ∷ l) h = ground (arith, result_of-none t l)

is_pending_lem : (t : ℕ) (l : List (ℕ × ℕ)) → count_if (is_entry t) l ≡ 1 → is_pending t l ≡ true
unfolding is_pending
is_pending_lem t [] h = absurd (omega arith)
is_pending_lem t ((k, u) ∷ l) h = ground (arith, is_pending_lem t l)

-- What a wait of the request `ticket` with the sequence `seq` gives
abbrev pub IsAnswered : Client → ℕ → ℕ → Type 0
IsAnswered client seq ticket =
    ((r : Result Error Value) × (result_of ticket client.results ≡ some r)
      × ((wait client seq ticket).1 ≡ r))
    ⊎ ((expected ticket client ≡ 1) × ((wait client seq ticket).1 ≡ waited_long seq))

served-IsAnswered :
    (client : Client) (seq ticket : ℕ)
    → answered ticket client + expected ticket client ≡ 1
    → IsAnswered client seq ticket
unfolding wait
served-IsAnswered client seq ticket s = elim (Option-cases (result_of ticket client.results)) [
  | inl e ↦
      let open_once : expected ticket client ≡ 1 =
        omega (arith, result_of-none ticket client.results e) in
      inr (open_once, rw (e, is_pending_lem ticket client.pending open_once) refl)
  | inr (r, e) ↦ inl (r, e, rw e refl)
]

-- Whatever calls, messages and failures came since the start, a request that has not been dropped
-- waits for an answer that it has got, or is still open and its time is up: it never finds its
-- channel without a sender. At the start, every ticket that was given out and is not dropped must be
-- open or answered, and none more than once.
pub wait-IsAnswered :
    (to_vec : Value → Result String Bytes) (calls : List Call) (client : Client) (seq ticket : ℕ)
    → IsOnce client
    → IsServed client
    → let after = perform_all to_vec calls client in
      ticket < after.tickets → is_dropped after ticket ≡ false → IsAnswered after seq ticket
wait-IsAnswered to_vec calls client seq ticket o s h d =
    served-IsAnswered (perform_all to_vec calls client) seq ticket
      (perform_all-IsServed to_vec calls client o s ticket h d)
