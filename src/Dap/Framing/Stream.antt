-- ===== src/Dap/Framing/Stream.antt =====
-- The loop of `read_messages` in src/dap.rs, on the bytes that the stream gives before it ends.
use kernmini.Prelude.{
  ℕ, zero, suc, ◌+◌, ◌^◌, ◌≤◌, ◌<◌, ◌≡◌, refl, ◌∙◌, String, string_eq, Bytes, List, [], ◌∷◌, ◌++◌,
  Option, none, some, length, length-append, All, arith,
}
use kernmini.Json.{Value}
use kernmini.Errors.{Error, Result, ok, closed_error}
use kernmini.Dap.{Client, encode_message, receive, complete_numbered, complete, fail_pending}
use kernmini.Dap.Framing.{
  take_line, read_headers, read_message, Reading, message, failure, panicked,
}
use kernmini.Dap.Framing.RoundTrip.{frame_of, read_message-encode}
use kernmini.Prelude.Utf8.{decode_utf8, decode_from}

module _ (from_slice : Bytes → Result String Value) where
  -- The client when the loop has ended; `none` without fuel. A panic ends the task, and nothing fails
  -- what waits. Once the client is closed nothing more is
  -- read, and its reason stays.
  abbrev pub after_read : Option Reading → Client → (Client → Bytes → Option Client) → Option Client
  after_read none client again = none
  after_read (some (failure e)) client again = some (fail_pending client e)
  after_read (some panicked) client again = some client
  after_read (some (message m rest)) client again = again (receive client m) rest

  abbrev pub unless_closed : Option Error → Client → Option Client → Option Client
  unless_closed (some reason) client open_one =
      some (fail_pending client (closed_error "DAP reader"))
  unless_closed none client open_one = open_one

  unfoldable pub read_messages : ℕ → Client → Bytes → Option Client
  unfolding read_message receive
  read_messages zero client bytes = none
  read_messages (suc fuel) client bytes =
      unless_closed client.close client
        (after_read (read_message from_slice bytes) client (read_messages fuel))

receive-close : (client : Client) (m : Value) → (receive client m).close ≡ client.close
unfolding receive complete_numbered complete
receive-close client m = ground arith

abbrev pub receive_all : List Value → Client → Client
receive_all [] client = client
receive_all (m ∷ ms) client = receive_all ms (receive client m)

-- A message and its frame, whose payload is read back.
pub record IsWritten (to_vec : Value → Result String Bytes)
    (from_slice : Bytes → Result String Value) (m : Value) (frame : Bytes) : Type 0 where
  pub payload : Bytes
  pub written : to_vec m ≡ ok payload
  pub read : from_slice payload ≡ ok m
  pub short : length payload < 2 ^ 63
  pub framed : encode_message to_vec m ≡ ok frame

abbrev pub messages : List (Value × Bytes) → List Value
messages [] = []
messages ((m, frame) ∷ l) = m ∷ messages l

abbrev pub stream_of : List (Value × Bytes) → Bytes
stream_of [] = []
stream_of ((m, frame) ∷ l) = frame ++ stream_of l

module _ (to_vec : Value → Result String Bytes) (from_slice : Bytes → Result String Value) where
  abbrev pub AllWritten : List (Value × Bytes) → Type 0
  AllWritten l = All (λ p. IsWritten to_vec from_slice p.0 p.1) l

  read_message-end : read_message from_slice [] ≡ some (failure (closed_error "DAP connection"))
  unfolding read_message read_headers take_line decode_utf8 decode_from
  read_message-end = refl

  read_messages-one :
      (fuel : ℕ) (client : Client) (m : Value) (bytes rest : Bytes)
      → client.close ≡ none
      → read_message from_slice bytes ≡ some (message m rest)
      → read_messages from_slice (suc fuel) client bytes
        ≡ read_messages from_slice fuel (receive client m) rest
  unfolding read_messages
  read_messages-one fuel client m bytes rest e r = rw (e, r) refl

  read_messages-end :
      (fuel : ℕ) (client : Client)
      → client.close ≡ none
      → read_messages from_slice (suc fuel) client []
        ≡ some (fail_pending client (closed_error "DAP connection"))
  unfolding read_messages
  read_messages-end fuel client e = rw (e, read_message-end) refl

  read_messages-stream :
      (l : List (Value × Bytes)) (fuel : ℕ) (client : Client)
      → AllWritten l
      → length l < fuel
      → client.close ≡ none
      → read_messages from_slice fuel client (stream_of l)
        ≡ some (fail_pending (receive_all (messages l) client) (closed_error "DAP connection"))
  read_messages-stream l zero client a h e = absurd (omega arith)
  read_messages-stream [] (suc fuel) client a h e = read_messages-end fuel client e
  read_messages-stream ((m, frame) ∷ l) (suc fuel) client a h e =
      let w = a.0 in
      read_messages-one fuel client m (frame ++ stream_of l) (stream_of l) e (
        read_message-encode from_slice to_vec m w.payload frame (stream_of l) w.written w.read
          w.short w.framed)
      ∙ read_messages-stream l fuel (receive client m) a.1 (omega arith)
          (receive-close client m ∙ e)

  frame_long : (m : Value) (frame : Bytes) → IsWritten to_vec from_slice m frame → 1 ≤ length frame
  frame_long m frame w =
      rw (frame_of from_slice to_vec m w.payload frame w.written w.framed) (omega arith)

  length-stream_of : (l : List (Value × Bytes)) → AllWritten l → length l ≤ length (stream_of l)
  length-stream_of [] a = omega arith
  length-stream_of ((m, frame) ∷ l) a =
      omega
        (arith, length-stream_of l a.1, frame_long m frame a.0, length-append frame (stream_of l))

  -- Messages that encode_message wrote one behind the other are received one by one, in their order, by
  -- a client that is not closed, and the end of the stream then fails what still waits: the loop takes
  -- no more rounds than the stream has bytes and one, if the JSON texts read back and are shorter than
  -- 2^63 bytes.
  pub read_messages-encode :
      (l : List (Value × Bytes)) (client : Client)
      → AllWritten l
      → client.close ≡ none
      → read_messages from_slice (length (stream_of l) + 1) client (stream_of l)
        ≡ some (fail_pending (receive_all (messages l) client) (closed_error "DAP connection"))
  read_messages-encode l client a e =
      read_messages-stream l (length (stream_of l) + 1) client a
        (omega (arith, length-stream_of l a)) e
