-- ===== src/Engine/Stdin.antt =====
-- The table of pending input requests of `Stdin` in src/engine.rs: a request waits under the id of its
-- message, and the replies complete it. What becomes of a request otherwise is in Engine/Pump.
pub mod Once
use kernmini.Prelude.{
  ℕ, suc, ◌+◌, String, string_eq, Bytes, bytes_eq, Bool, true, false, not, List, [], ◌∷◌, ◌++◌,
  Option, none, some, ◌==◌, if◌then◌else◌, is_some,
}
use kernmini.Wire.{msg_type, text_field}
use kernmini.Engine.Queue.{Inbound}
use kernmini.Engine.Replies.{str_or}
use kernmini.Engine.Router.{find, remove}

-- `PendingInput`: `ticket` stands for the channel on which the request waits.
pub record PendingInput : Type 0 where
  pub identity : Bytes
  pub ticket : ℕ

-- The map, the number of the next channel, and what was sent on the channels.
pub record Stdin : Type 0 where
  pub pending : List (String × PendingInput)
  pub tickets : ℕ
  pub answered : List (ℕ × String)

-- The first request of an identity, in the map's order.
unfoldable pub find_identity : Bytes → List (String × PendingInput) → Option String
find_identity identity [] = none
find_identity identity ((key, p) ∷ l) =
    let rest = find_identity identity l in if p.identity == identity then some key else rest

-- The table at the start of `Stdin::request`, and the channel of the request.
unfoldable pub begin_input : String → Bytes → Stdin → Stdin
begin_input msg_id identity s = record s {
  pending = (msg_id, record { identity = identity; ticket = s.tickets }) ∷ remove msg_id s.pending;
  tickets = suc s.tickets;
}

-- The table at the end of `Stdin::request`
unfoldable pub end_input : String → Stdin → Stdin
end_input msg_id s = record s { pending = remove msg_id s.pending }

abbrev pub send_value : Option PendingInput → String → String → Stdin → Stdin
send_value none key value s = s
send_value (some p) key value s = record s {
  pending = remove key s.pending;
  answered = s.answered ++ (p.ticket, value) ∷ [];
}

abbrev pub complete_key : Option String → String → Stdin → Stdin
complete_key none value s = s
complete_key (some key) value s = send_value (find key s.pending) key value s

-- The request that a reply of this identity to this parent is for.
unfoldable pub reply_key : String → Bytes → Stdin → Option String
unfolding find_identity
reply_key parent identity s =
    if is_some (find parent s.pending) then some parent else find_identity identity s.pending

-- A message on the stdin connection
unfoldable pub input_reply : Inbound → Stdin → Stdin
unfolding reply_key
input_reply inbound s =
    let parent = text_field "msg_id" inbound.message.parent_header in
    let value = str_or "" "value" inbound.message.content in
    if not (msg_type inbound.message == "input_reply")
    then s
    else complete_key (reply_key parent inbound.identity s) value s
