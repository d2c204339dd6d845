-- ===== src/Tests/Clients.antt =====
-- The theorems on src/dap.rs, at concrete requests.
use kernmini.Prelude.{
  ◌++◌, ◌+◌, ◌-◌, ◌^◌, ◌<◌, ◌≡◌, ◌↔◌, ℕ, refl, Bytes, nat_eq, bytes_eq, string_eq, true, false,
  List, [], ◌∷◌, none, some, length, arith,
}
use kernmini.Json.{Value, num, object, Fields, empty, field, lookup, insert}
use kernmini.Errors.{ok, err, new, invalid_input, closed_error}
use kernmini.Dap.{
  receive, is_dropped, Client, given_seq, encode_message, request_sequence, send, fail_pending,
}
use kernmini.Prelude.Text.{codes}
use kernmini.Prelude.Decimal.{parse_usize}
use kernmini.Prelude.Utf8.{decode_utf8, trim}
use kernmini.Dap.Framing.{read_message, Reading, panicked, isize_max}
use kernmini.Dap.Framing.Stream.{
  read_messages, read_messages-encode, receive_all, IsWritten, messages, stream_of,
}
use kernmini.Dap.Framing.Total.{read_message-total, Announces}
use kernmini.Dap.Sequences.{IsBelow, send-IsBelow, send-fresh, request_sequence-wraps}
use kernmini.Dap.Tickets.{IsOnce}
use kernmini.Dap.Served.{IsServed}
use kernmini.Dap.Waiting.{IsAnswered, wait-IsAnswered}
use kernmini.Dap.Once.{Call, sending, receiving, failing, perform_all, perform_all-IsOnce}
use kernmini.Tests.{test_to_vec}

-- A client with one open request.
abbrev open_client : Client
open_client = record {
  next_seq = 2;
  pending = (1, 0) ∷ [];
  close = none;
  tickets = 1;
  dropped = [];
  outgoing = [];
  results = [];
  events = [];
}

open_client-IsBelow : IsBelow open_client
open_client-IsBelow = (omega arith, tt)

open_client-IsOnce : IsOnce open_client
open_client-IsOnce t = (ground arith, λ h. ground arith)

abbrev calls : List Call
calls =
    sending (object empty) none true
    ∷ receiving (object (field "request_seq" (num 1) empty))
    ∷ failing (closed_error "DAP client")
    ∷ []

perform_all-IsOnce_example : IsOnce (perform_all test_to_vec calls open_client)
perform_all-IsOnce_example = perform_all-IsOnce test_to_vec calls open_client open_client-IsOnce

small_counter : open_client.next_seq + 1 < 2 ^ 64
small_counter = omega arith

send-IsBelow_example : IsBelow (send test_to_vec open_client (object empty) none true).0
send-IsBelow_example =
    send-IsBelow test_to_vec open_client (object empty) none true small_counter open_client-IsBelow

no_seq : given_seq empty ≡ none
unfolding lookup
no_seq = refl

abbrev small_frame : Bytes
small_frame =
    67 ∷ 111 ∷ 110 ∷ 116 ∷ 101 ∷ 110 ∷ 116 ∷ 45 ∷ 76 ∷ 101 ∷ 110 ∷ 103 ∷ 116 ∷ 104 ∷ 58 ∷ 32 ∷ 49
    ∷ 13 ∷ 10 ∷ 13 ∷ 10 ∷ 2 ∷ []

framed :
    encode_message test_to_vec (object (insert "seq" (num open_client.next_seq) empty))
    ≡ ok small_frame
unfolding encode_message insert
framed = refl

send-fresh_example :
    let (after, r) = send test_to_vec open_client (object empty) none true in
    (r ≡ ok (2, 1))
    × (after.pending ≡ (2, 1) ∷ (1, 0) ∷ [])
    × (after.outgoing ≡ small_frame ∷ [])
    × (after.next_seq ≡ 3)
send-fresh_example =
    send-fresh test_to_vec open_client empty small_frame small_counter open_client-IsBelow refl
      no_seq framed

open_client-IsServed : IsServed open_client
open_client-IsServed t h d = ground arith

-- The one open request, after another is sent and only that one is answered
abbrev other_answered : List Call
other_answered =
    sending (object empty) none true ∷ receiving (object (field "request_seq" (num 2) empty)) ∷ []

still_open :
    let after = perform_all test_to_vec other_answered open_client in
    (0 < after.tickets) × (is_dropped after 0 ≡ false)
unfolding send receive encode_message insert string_eq nat_eq
still_open = (omega arith, refl)

wait-IsAnswered_example : IsAnswered (perform_all test_to_vec other_answered open_client) 1 0
wait-IsAnswered_example =
    wait-IsAnswered test_to_vec other_answered open_client 1 0 open_client-IsOnce
      open_client-IsServed still_open.0 still_open.1

abbrev last_seq : Fields
last_seq = field "seq" (num 18446744073709551614) empty

last_given : given_seq last_seq ≡ some (2 ^ 64 - 2)
unfolding lookup string_eq
last_given = refl

request_sequence-wraps_example :
    let (one, f, r) = request_sequence open_client (object last_seq) in
    let (two, g, s) = request_sequence one (object empty) in
    let (three, h, t) = request_sequence two (object empty) in
    (r ≡ ok (2 ^ 64 - 2))
    × (s ≡ err (new invalid_input "DAP request sequence is too large"))
    × (t ≡ ok 0)
request_sequence-wraps_example =
    request_sequence-wraps open_client last_seq empty empty (omega arith) last_given no_seq no_seq

-- An encoder and a decoder of one payload.
abbrev small_payload : Bytes
small_payload = 1 ∷ []

abbrev written_frame : Bytes
written_frame = codes "Content-Length: 1" ++ (13 ∷ 10 ∷ 13 ∷ 10 ∷ small_payload)

frame_written : encode_message (λ v. ok small_payload) (object empty) ≡ ok written_frame
unfolding encode_message
frame_written = refl

abbrev two_written : List (Value × Bytes)
two_written = (object empty, written_frame) ∷ (object empty, written_frame) ∷ []

is_written : IsWritten (λ v. ok small_payload) (λ b. ok (object empty)) (object empty) written_frame
is_written = record {
  payload = small_payload;
  written = refl;
  read = refl;
  short = omega arith;
  framed = frame_written;
}

read_messages-encode_example :
    read_messages
      (λ b. ok (object empty))
      (length (stream_of two_written) + 1)
      open_client
      (stream_of two_written)
    ≡ some (
        fail_pending
          (receive_all (messages two_written) open_client)
          (closed_error "DAP connection"))
read_messages-encode_example =
    read_messages-encode (λ v. ok small_payload) (λ b. ok (object empty)) two_written open_client
      (is_written, (is_written, tt)) refl

-- The headers announce 2^63 bytes.
abbrev large_header : Bytes
large_header = codes "Content-Length: 9223372036854775808" ++ (13 ∷ 10 ∷ 13 ∷ 10 ∷ [])

read_message-total_example :
    (r : Reading) × (read_message (λ b. ok (object empty)) large_header ≡ some r)
    × ((r ≡ panicked) ↔ ((n : ℕ) × Announces large_header n × (isize_max < n)))
read_message-total_example = read_message-total (λ b. ok (object empty)) large_header

large_panics : read_message (λ b. ok (object empty)) large_header ≡ some panicked
unfolding read_message decode_utf8 nat_eq bytes_eq parse_usize trim
large_panics = refl
