-- ===== src/Engine/Pump.antt =====
-- The output pump of `output_context` in src/engine.rs: what a language sends during an execution or a
-- comm message becomes IOPub messages.
pub mod Coalesce
use kernmini.Prelude.{
  ℕ, String, Bytes, Bool, true, false, not, ◌&&◌, List, [], ◌∷◌, ◌++◌, Option, none, some, ◌==◌,
  string_eq, unwrap_or, ◌and_then◌, is_some, map_option, if◌then◌else◌,
}
use kernmini.Prelude.Text.{concat}
use kernmini.Json.{
  Value, Fields, empty, string, bool, obj, arr, num, get, as_str, as_bool, as_object, object,
}
use kernmini.Errors.{Error, Result, ok, err, map_err, context, interrupted_error, new, unavailable}
use kernmini.Wire.{Message, msg_type, text_field, encode, from_wire}
use kernmini.Language.{
  LanguageEvent, stream, display, message, ContextMessage, event, flush, input, ExecutionContext,
}
use kernmini.Engine.Replies.{bool_or}
use kernmini.Engine.Effects.{
  Services, M, ◌>>=◌, ◌>>◌, pure, lift, call, attempt, when, emit, stdin, Interaction, cancelled,
  peer_closed, unsent, answered, fail_kernel, new_message, publish, send_iopub,
}

-- The inner loops over a batch. A stream message takes in the stream messages of its name behind it:
-- `gather` holds one with the text so far.
unfoldable mutual
  pub coalesce : List ContextMessage → List ContextMessage
  coalesce [] = []
  coalesce (event (stream name text) ∷ messages) = gather messages name text
  coalesce (m ∷ messages) = m ∷ coalesce messages

  pub gather : List ContextMessage → String → String → List ContextMessage
  gather [] name text = event (stream name text) ∷ []
  gather (event (stream next more) ∷ messages) name text =
      let longer = gather messages name (concat text more) in
      let other = gather messages next more in
      if next == name then longer else event (stream name text) ∷ other
  gather (m ∷ messages) name text = event (stream name text) ∷ m ∷ coalesce messages

abbrev value_or : Value → String → Value → Value
value_or d k content = unwrap_or (get k content) d

-- The type and the content of the message for a display.
unfoldable pub display_message : Value → String × Value
unfolding string_eq
display_message e =
    if is_some
      (get "type" e and_then as_str and_then λ t. if t == "clear_output" then some t else none)
    then ("clear_output", obj (("wait", bool (bool_or false "wait" e)) ∷ []))
    else (
      if bool_or false "update" e then "update_display_data" else "display_data",
      obj (
          ("data", value_or (obj []) "data" e)
          ∷ ("metadata", value_or (obj []) "metadata" e)
          ∷ ("transient", value_or (obj []) "transient" e)
          ∷ []),
    )

module _ (s : Services) where
  unfoldable pub publish_event : Message → Bool → LanguageEvent → M (Unit {0})
  unfolding display_message
  publish_event request true e = pure tt
  publish_event request false (stream name text) =
      send_iopub s request "stream" (obj (("name", string name) ∷ ("text", string text) ∷ []))
  publish_event request false (display e buffers) = do
    m ← new_message s (display_message e).0 (display_message e).1 (some request)
    publish s (record m { buffers = buffers })
  publish_event request false (message type content metadata identity buffers) = do
    m ← new_message s type content (some request)
    publish s (record m {
      metadata = unwrap_or (as_object metadata) empty;
      identities = elim identity [ none ↦ m.identities | some i ↦ m.identities ++ i ∷ [] ];
      buffers = buffers;
    })

  -- `Stdin::request`, without the table of pending requests: the answer, not yet `?`.
  unfoldable pub await_answer : Bytes → Message → Interaction → M (Result Error String)
  await_answer identity m cancelled = pure (err interrupted_error)
  await_answer identity m (peer_closed e) = pure (err (context e "waiting for stdin"))
  await_answer identity m (unsent e) = pure (err e)
  await_answer identity m (answered answer) = attempt do
    lift (map_err from_wire (encode s.crates s.session m))
    emit (stdin identity m)
    lift answer

  unfoldable pub request_input : Bytes → Message → String → Bool → M (Result Error String)
  unfolding await_answer
  request_input identity parent prompt password = do
    m ←
        new_message s "input_request"
          (obj (("prompt", string prompt) ∷ ("password", bool password) ∷ [])) (some parent)
    ended ← call s.interaction
    await_answer identity m ended

  unfoldable pub pump_message : Message → Option Bytes → Bool → ContextMessage → M (Unit {0})
  unfolding publish_event request_input
  pump_message request identity silent (event e) = publish_event request silent e
  pump_message request identity silent flush = pure tt
  pump_message request none silent (input prompt password) = pure tt
  pump_message request (some identity) silent (input prompt password) = do
    request_input identity request prompt password
    pure tt

  unfoldable pub pump_batch : Message → Option Bytes → Bool → List ContextMessage → M (Unit {0})
  unfolding pump_message
  pump_batch request identity silent [] = pure tt
  pump_batch request identity silent (m ∷ messages) = do
    pump_message request identity silent m
    pump_batch request identity silent messages

  unfoldable pub pump : Message → Option Bytes → Bool → List (List ContextMessage) → M (Unit {0})
  unfolding pump_batch coalesce
  pump request identity silent [] = pure tt
  pump request identity silent (batch ∷ batches) = do
    pump_batch request identity silent (coalesce batch)
    pump request identity silent batches

  -- The pump's task: its failure goes to the runner. The result says whether it is still there.
  unfoldable pub report_pump : Result Error (Unit {0}) → M Bool
  report_pump (ok _) = pure true
  report_pump (err e) = fail_kernel e >> pure false

  unfoldable pub run_pump : Message → Option Bytes → Bool → List (List ContextMessage) → M Bool
  unfolding pump report_pump
  run_pump request identity silent batches = do
    ended ← attempt (pump request identity silent batches)
    report_pump ended

-- What `output_context` puts into the context of an execution or a comm message.
unfoldable pub output_context : Message → Bool → Bool → ℕ → ExecutionContext
output_context request execution interrupted count = record {
  interrupted = interrupted;
  client_session = if execution then some (text_field "session" request.header) else none;
  parent = obj (
      ("header", object request.header)
      ∷ ("parent_header", object request.parent_header)
      ∷ ("metadata", object request.metadata)
      ∷ ("content", request.content)
      ∷ []);
  allow_stdin = execution && bool_or true "allow_stdin" request.content;
  execution_count = count;
}
