-- ===== src/Dap/Once.antt =====
-- Calls of the client of src/dap.rs in a row, and the answers that its requests get.
use kernmini.Prelude.{
  ℕ, ◌+◌, String, Bytes, Bool, List, [], ◌∷◌, Option, none, some, nat_eq, string_eq, arith, is_some,
  Bool-cases, inl, inr,
}
use kernmini.Json.{Value}
use kernmini.Errors.{Error, Result, ok, err}
use kernmini.Dap.Tickets.{
  IsOnce, Fewer-IsOnce, Fewer-trans, Fewer-closing, Fewer-hand_over, Fewer-request_sequence,
  Fewer-receive, Fewer-fail_pending, Fewer-drop_request,
}
use kernmini.Dap.{
  Client, find, request_sequence, encode_message, fail_pending, drop_request, closing, register,
  send_framed, send_sequenced, send_unless, send, receive,
}

-- A ticket that is new is given to one request.
entered-IsOnce :
    (client : Client) (seq : ℕ)
    → IsOnce client
    → IsOnce (record client {
      pending = (seq, client.tickets) ∷ client.pending;
      tickets = client.tickets + 1;
    })
entered-IsOnce client seq o t = (ground (arith, (o t).0, (o t).1), λ h. ground (arith, (o t).1))

register-IsOnce :
    (client : Client) (seq : ℕ) (frame : Bytes) (meanwhile : Option Error) (connected : Bool)
    → IsOnce client
    → IsOnce (register client seq frame meanwhile connected).0
unfolding register
register-IsOnce client seq frame meanwhile connected o =
    elim (Bool-cases (is_some (find seq client.pending))) [
      | inl e ↦ rw e o
      | inr e ↦
          let entered = record client {
            pending = (seq, client.tickets) ∷ client.pending;
            tickets = client.tickets + 1;
          } in
          let after = closing meanwhile entered in
          rw e (
            Fewer-IsOnce entered _
              (Fewer-trans entered after _ (Fewer-closing meanwhile entered)
                (Fewer-hand_over after after.close seq client.tickets frame connected))
              (entered-IsOnce client seq o))
    ]

framed-IsOnce :
    (client : Client) (seq : ℕ) (f : Result Error Bytes) (meanwhile : Option Error)
    (connected : Bool)
    → IsOnce client
    → IsOnce (send_framed client seq f meanwhile connected).0
unfolding send_framed
framed-IsOnce client seq (err e) meanwhile connected o = o
framed-IsOnce client seq (ok frame) meanwhile connected o =
    register-IsOnce client seq frame meanwhile connected o

sequenced-IsOnce :
    (to_vec : Value → Result String Bytes) (client : Client) (request : Value) (r : Result Error ℕ)
    (meanwhile : Option Error) (connected : Bool)
    → IsOnce client
    → IsOnce (send_sequenced to_vec client request r meanwhile connected).0
unfolding send_sequenced
sequenced-IsOnce to_vec client request (err e) meanwhile connected o = o
sequenced-IsOnce to_vec client request (ok seq) meanwhile connected o =
    framed-IsOnce client seq (encode_message to_vec request) meanwhile connected o

-- A call of the client, or a message for it.
pub data Call : Type 0 where
  sending : Value → Option Error → Bool → Call
  receiving : Value → Call
  failing : Error → Call
  dropping : ℕ → ℕ → Call

abbrev pub perform : (Value → Result String Bytes) → Call → Client → Client
perform to_vec (sending request meanwhile connected) client =
    (send to_vec client request meanwhile connected).0
perform to_vec (receiving message) client = receive client message
perform to_vec (failing e) client = fail_pending client e
perform to_vec (dropping seq ticket) client = drop_request client seq ticket

abbrev pub perform_all : (Value → Result String Bytes) → List Call → Client → Client
perform_all to_vec [] client = client
perform_all to_vec (c ∷ calls) client = perform_all to_vec calls (perform to_vec c client)

unless-IsOnce :
    (close : Option Error) (to_vec : Value → Result String Bytes) (client : Client)
    (request : Value) (meanwhile : Option Error) (connected : Bool)
    → IsOnce client
    → IsOnce (send_unless close to_vec client request meanwhile connected).0
unfolding send_unless
unless-IsOnce (some e) to_vec client request meanwhile connected o = o
unless-IsOnce none to_vec client request meanwhile connected o =
    let (after, filled, r) = request_sequence client request in
    sequenced-IsOnce to_vec after filled r meanwhile connected
      (Fewer-IsOnce client after (Fewer-request_sequence client request) o)

pub perform-IsOnce :
    (to_vec : Value → Result String Bytes) (c : Call) (client : Client)
    → IsOnce client
    → IsOnce (perform to_vec c client)
unfolding send
perform-IsOnce to_vec (sending request meanwhile connected) client o =
    unless-IsOnce client.close to_vec client request meanwhile connected o
perform-IsOnce to_vec (receiving m) client o = Fewer-IsOnce client _ (Fewer-receive client m) o
perform-IsOnce to_vec (failing e) client o = Fewer-IsOnce client _ (Fewer-fail_pending client e) o
perform-IsOnce to_vec (dropping seq ticket) client o =
    Fewer-IsOnce client _ (Fewer-drop_request client seq ticket) o

-- Through any calls, messages and failures, no DAP request gets a second answer, and one that is
-- answered is not open any more, if this holds at the start.
pub perform_all-IsOnce :
    (to_vec : Value → Result String Bytes) (calls : List Call) (client : Client)
    → IsOnce client
    → IsOnce (perform_all to_vec calls client)
perform_all-IsOnce to_vec [] client o = o
perform_all-IsOnce to_vec (c ∷ calls) client o =
    perform_all-IsOnce to_vec calls (perform to_vec c client) (perform-IsOnce to_vec c client o)
