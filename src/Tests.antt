-- ===== src/Tests.antt =====
-- Concrete sessions, services and messages, on which the theorems are applied.
pub mod Frames
pub mod Shells
pub mod Clients
pub mod Routers
pub mod Adapters
pub mod Transports
pub mod Inputs
use kernmini.Prelude.{
  ℕ, String, Bytes, bytes_eq, Bool, true, false, List, [], ◌∷◌, ◌++◌, Option, none, some, ◌==◌,
  if◌then◌else◌,
}
use kernmini.Json.{Value, null, string, object, Fields, empty, field, obj}
use kernmini.Errors.{Error, Result, ok, err}
use kernmini.Wire.{Crates, Message, Session}
use kernmini.Language.{KernelInfo, default_outcome, LanguageSession}
use kernmini.Engine.Effects.{Interaction, cancelled, World, Services}
use kernmini.Engine.Queue.{Inbound, QueueItem}

-- The header of an execute request with the id "e1".
abbrev pub execute_header : Fields
execute_header = field "msg_type" (string "execute_request") (field "msg_id" (string "e1") empty)

-- An encoder of the values of these tests: 1 for an empty object, 2 for the header.
abbrev pub test_to_vec : Value → Result String Bytes
test_to_vec (object empty) = ok (1 ∷ [])
test_to_vec _ = ok (2 ∷ [])

abbrev pub test_crates : Crates
test_crates = record {
  Mac = Bytes;
  new_mac = λ key. key;
  update = λ mac b. mac ++ b;
  finalize = λ mac. mac;
  hex_encode = λ b. b;
  to_vec = test_to_vec;
  from_slice = λ b. if b == (1 ∷ []) then ok (object empty) else err "no JSON";
  map_from_slice = λ b.
      if b == (1 ∷ [])
      then ok empty
      else if b == (2 ∷ [])
      then ok execute_header
      else err "no JSON";
  uuid = λ n. "id";
  rfc3339 = λ n. "now";
}

abbrev pub test_session : Session
test_session = record { key = 7 ∷ []; seen = []; session = "s"; username = "u" }

abbrev pub test_language : LanguageSession
test_language = record {
  kernel_info = λ n. ok (record {
    implementation = "echo";
    implementation_version = "1";
    banner = "";
    language_info = obj [];
  });
  supports_debugger = λ n. false;
  supported_features = λ n. [];
  execute = λ n e c. ([], ok default_outcome);
  complete = λ n r. ok null;
  inspect = λ n r. ok null;
  is_complete = λ n r. ok null;
  history = λ n r. ok null;
  comm_info = λ n r. ok null;
  message = λ n r c. ([], ok tt);
  interrupt = λ n. ok tt;
  shutdown = λ n. ok tt;
}

abbrev pub test_services : Services
test_services = record {
  crates = test_crates;
  language = test_language;
  session = test_session;
  connection = null;
  supports_subshells = true;
  delivery = λ n. none;
  interaction = λ n. cancelled;
  now = λ n. 0;
  hold_timeout = 60000;
}

abbrev pub test_world : World
test_world = record { calls = 0; sent = []; failures = [] }

-- An execute request with its field "code", and a metadata.
abbrev pub execute_message : Fields → Message
execute_message metadata = record {
  identities = (5 ∷ []) ∷ [];
  header = execute_header;
  parent_header = empty;
  metadata = metadata;
  content = object (field "code" (string "1") empty);
  buffers = [];
}

-- A request from the connection 3.
abbrev pub inbound : Fields → Inbound
inbound metadata = record { message = execute_message metadata; reply = 3; identity = 5 ∷ [] }

-- Requests with the priorities 0 and 1, as floats of 64 bits.
abbrev pub plain_item : ℕ → QueueItem
plain_item order = record { priority = 0; order = order; inbound = inbound empty }

abbrev pub urgent_item : ℕ → QueueItem
urgent_item order = record {
  priority = 4607182418800017408;
  order = order;
  inbound = inbound empty;
}
