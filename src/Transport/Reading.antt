-- ===== src/Transport/Reading.antt =====
-- What the connections of src/transport.rs read and send: a ROUTER peer's loop, the end of a peer, the
-- sending of a reply, an IOPub peer, and the heartbeat. What arrives is a list of what `recv` answers.
use kernmini.Prelude.{
  ℕ, suc, ◌≡◌, refl, ◌≢◌, String, Bytes, bytes_eq, Bool, true, false, List, [], ◌∷◌, ◌++◌, Option,
  none, some, ◌==◌, if◌then◌else◌,
}
use kernmini.Prelude.Text.{concat}
use kernmini.Json.{string, obj}
use kernmini.Errors.{
  Error, ErrorKind, Result, ok, err, map_err, ◌>>=◌, new, protocol, closed, closed_error, kind,
  display, from_send, from_recv, from_zmtp, ZmtpError,
}
use kernmini.Wire.{
  Crates, Message, Session, decode, encode, from_wire, WireError, missing_delimiter, missing_parts,
  bad_signature, duplicate_signature, json,
}
use kernmini.Wire
use kernmini.Wire.Replay.{after, decode_twice}
use kernmini.Transport.Peers.{Table, remove_peer}

-- `zmtpmini::Incoming`
pub data Incoming : Type 0 where
  frames : List Bytes → Incoming
  subscribe cancel ping : Bytes → Incoming

-- `recv` answers or fails.
abbrev pub Received : Type 0
Received = Result ZmtpError Incoming

abbrev pub is_closed_kind : ErrorKind → Bool
is_closed_kind closed = true
is_closed_kind _ = false

-- `ReplySink::send`: a connection that has ended comes first; then whether the request is queued and
-- what the writer answers, which may be gone.
unfoldable pub send_frames :
    Option Error → Bool → Result String (Result Error (Unit {0})) → Result Error (Unit {0})
send_frames (some ended) queued done = err ended
send_frames none false done = err from_send
send_frames none true (err lost) = err (from_recv lost)
send_frames none true (ok answer) = answer

-- `peer_finished`: what it writes on stderr.
unfoldable pub peer_finished : String → Result Error (Unit {0}) → Option String
peer_finished channel (ok _) = none
peer_finished channel (err e) =
    if is_closed_kind (kind e)
    then none
    else some (concat channel (concat " peer ended: " (display e)))

-- What is sent to all waiting replies at the end of a connection, and the table after it.
unfoldable pub finish_peer : Bytes → ℕ → Result Error (Unit {0}) → Table → Error × Table
finish_peer id sink (ok _) table = (closed_error "router peer", remove_peer id sink table)
finish_peer id sink (err e) table = (e, remove_peer id sink table)

-- What a loop has read: the session, the messages passed on, and its error; `none` while it reads on.
abbrev pub Read : Type 0
Read = Session × List Message × Option Error

module _ (c : Crates) (accepting : ℕ → Bool) where
  abbrev pub passed_on : Message → Read → Read
  passed_on m (s, messages, ended) = (s, m ∷ messages, ended)

  -- `again` is the rest of the loop, after one more message and after none.
  abbrev pub read_decoded : ℕ → Session → Result WireError Message → Read → Read → Read
  read_decoded n s (ok m) more same =
      if accepting n then passed_on m more else (s, [], some from_send)
  read_decoded n s (err duplicate_signature) more same = same
  read_decoded n s (err missing_delimiter) more same = (s, [], some (from_wire missing_delimiter))
  read_decoded n s (err missing_parts) more same = (s, [], some (from_wire missing_parts))
  read_decoded n s (err bad_signature) more same = (s, [], some (from_wire bad_signature))
  read_decoded n s (err (json t)) more same = (s, [], some (from_wire (json t)))

  -- The loop of `router_peer`; `n` counts the messages passed on.
  unfoldable pub read_loop : ℕ → Session → List Received → Read
  read_loop n s [] = (s, [], none)
  read_loop n s (err e ∷ rest) = (s, [], some (from_zmtp e))
  read_loop n s (ok (frames f) ∷ rest) =
      let (decoded, t) = decode c s f in
      read_decoded n t decoded (read_loop (suc n) t rest) (read_loop n t rest)
  read_loop n s (ok _ ∷ rest) = (s, [], some (new protocol "unexpected command on ROUTER peer"))

  read_loop-duplicate :
      (n : ℕ) (t : Session) (f : List Bytes) (rest : List Received)
      → decode c t f ≡ (err duplicate_signature, t)
      → read_loop n t (ok (frames f) ∷ rest) ≡ read_loop n t rest
  unfolding read_loop
  read_loop-duplicate n t f rest e = rw e refl

  -- A connection skips frames that a keyed session has accepted before, here or on another connection,
  -- whatever was decoded in between: it passes on nothing for them, and reads on.
  pub read_loop-replayed :
      (n : ℕ) (s : Session) (f : List Bytes) (m : Message) (between : List (List Bytes))
      (rest : List Received)
      → s.key ≢ []
      → (decode c s f).0 ≡ ok m
      → let t = after c (decode c s f).1 between in
        read_loop n t (ok (frames f) ∷ rest) ≡ read_loop n t rest
  read_loop-replayed n s f m between rest keyed accepted =
      read_loop-duplicate n _ f rest (decode_twice c s f m between keyed accepted)

-- An IOPub peer's answer to one event: the frames sent, or the error that ends the connection.
module _ (c : Crates) (s : Session) where
  -- `from_utf8_lossy` is the text of a topic.
  unfoldable pub welcome : ℕ → (Bytes → String) → Bytes → Message
  welcome n lossy topic =
      let m =
        Wire.message c s n "iopub_welcome" (obj (("subscription", string (lossy topic)) ∷ []))
          none in
      if topic == [] then m else record m { identities = m.identities ++ topic ∷ [] }

  abbrev pub PeerAnswer : Type 0
  PeerAnswer = Result Error (List (List Bytes))

  -- A pong is one frame with the ping's context.
  unfoldable pub iopub_event : ℕ → (Bytes → String) → Incoming → PeerAnswer
  unfolding welcome
  iopub_event n lossy (subscribe topic) =
      map_err from_wire (encode c s (welcome n lossy topic)) >>= λ f. ok (f ∷ [])
  iopub_event n lossy (cancel topic) = ok []
  iopub_event n lossy (ping context) = ok ((context ∷ []) ∷ [])
  iopub_event n lossy (frames f) = err (new protocol "unexpected message on IOPub peer")

-- The heartbeat sends back what it gets.
unfoldable pub heartbeat_event : Incoming → Result Error (List (List Bytes))
heartbeat_event (frames f) = ok (f ∷ [])
heartbeat_event (ping context) = ok ((context ∷ []) ∷ [])
heartbeat_event (subscribe topic) = err (new protocol "subscription command on heartbeat peer")
heartbeat_event (cancel topic) = err (new protocol "subscription command on heartbeat peer")
