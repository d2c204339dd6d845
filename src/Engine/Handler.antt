-- ===== src/Engine/Handler.antt =====
-- `handle_shell` of src/engine.rs: the requests of the shell channel that are no executions.
use kernmini.Prelude.{
  ℕ, String, Bool, false, ◌||◌, List, [], ◌∷◌, ◌++◌, none, ◌==◌, string_eq, unwrap_or, ◌and_then◌,
  if◌then◌else◌,
}
use kernmini.Prelude.Text.{ends_with}
use kernmini.Json.{Value, string, bool, obj, arr, get, as_u64}
use kernmini.Errors.{Error, Result}
use kernmini.Wire.{Message, msg_type}
use kernmini.Language.{KernelInfo, LanguageMessage}
use kernmini.Engine.Queue.{Inbound}
use kernmini.Engine.Effects.{Services, M, ◌>>=◌, ◌>>◌, pure, lift, call, send_reply, status}
use kernmini.Engine.Replies.{bool_or, str_or, missing_fields, reply_missing, reply_type}
use kernmini.Engine.Pump.{output_context, run_pump}
use kernmini.Engine.Execute.{flushed}

pub data ShellOutcome : Type 0 where
  goes_on shutdown : ShellOutcome

-- What a request asks for, by its type.
pub data Request : Type 0 where
  shutdown_request kernel_info_request complete_request inspect_request : Request
  is_complete_request history_request comm_info_request connect_request : Request
  comm other_request other : Request

unfoldable pub request_of : String → Request
unfolding string_eq
request_of type =
    if type == "shutdown_request"
    then shutdown_request
    else if type == "kernel_info_request"
    then kernel_info_request
    else if type == "complete_request"
    then complete_request
    else if type == "inspect_request"
    then inspect_request
    else if type == "is_complete_request"
    then is_complete_request
    else if type == "history_request"
    then history_request
    else if type == "comm_info_request"
    then comm_info_request
    else if type == "connect_request"
    then connect_request
    else if type == "comm_open" || type == "comm_msg" || type == "comm_close"
    then comm
    else if ends_with type "_request"
    then other_request
    else other

abbrev pub message_of : Message → LanguageMessage
message_of request = record {
  msg_type = msg_type request;
  content = request.content;
  buffers = request.buffers;
}

abbrev texts : List String → List Value
texts [] = []
texts (t ∷ ts) = string t ∷ texts ts

abbrev u64_or : ℕ → String → Value → ℕ
u64_or d k content = unwrap_or (get k content and_then as_u64) d

-- An answer of the language, with `?`.
abbrev pub ask : (ℕ → Result Error Value) → M Value
ask f = do answer ← call f; lift answer

abbrev pub info_content : Bool → KernelInfo → Bool → List String → Value
info_content subshells info debugger features =
    let offered =
      features
      ++ ((if subshells then "kernel subshells" ∷ [] else [])
          ++ (if debugger then "debugger" ∷ [] else [])) in
    obj (
      ("status", string "ok")
      ∷ ("protocol_version", string "5.3")
      ∷ ("implementation", string info.implementation)
      ∷ ("implementation_version", string info.implementation_version)
      ∷ ("banner", string info.banner)
      ∷ ("language_info", info.language_info)
      ∷ ("help_links", arr [])
      ∷ ("debugger", bool debugger)
      ∷ ("supported_features", arr (texts offered))
      ∷ [])

module _ (s : Services) where
  -- The language's answer to a request that stands between busy and idle.
  unfoldable pub kernel_info_content : M Value
  kernel_info_content = do
    info ← (do answer ← call s.language.kernel_info; lift answer)
    debugger ← call s.language.supports_debugger
    features ← call s.language.supported_features
    pure (info_content s.supports_subshells info debugger features)

  unfoldable pub service_content : Request → Value → M Value
  unfolding kernel_info_content
  service_content complete_request content = ask λ n.
      s.language.complete n
        (record { code = str_or "" "code" content; cursor_pos = u64_or 0 "cursor_pos" content })
  service_content inspect_request content = ask λ n. s.language.inspect n (record {
    code = str_or "" "code" content;
    cursor_pos = u64_or 0 "cursor_pos" content;
    detail_level = u64_or 0 "detail_level" content;
  })
  service_content is_complete_request content =
      ask λ n. s.language.is_complete n (str_or "" "code" content)
  service_content history_request content = ask λ n. s.language.history n content
  service_content _ content = kernel_info_content

  abbrev pub service : Request → Inbound → M ShellOutcome
  service kind inbound = do
    let request = inbound.message
    status s request "busy"
    content ← service_content kind request.content
    send_reply s inbound.reply request (reply_type request) content
    status s request "idle"
    pure goes_on

  unfoldable pub dispatch : Request → Inbound → ℕ → M ShellOutcome
  unfolding service_content
  dispatch shutdown_request inbound count = do
    send_reply s inbound.reply inbound.message "shutdown_reply" (
        obj (
          ("status", string "ok")
          ∷ ("restart", bool (bool_or false "restart" inbound.message.content))
          ∷ []))
    pure shutdown
  dispatch comm_info_request inbound count = do
    content ← ask λ n. s.language.comm_info n inbound.message.content
    send_reply s inbound.reply inbound.message "comm_info_reply" content
    pure goes_on
  dispatch connect_request inbound count = do
    send_reply s inbound.reply inbound.message "connect_reply" s.connection
    pure goes_on
  dispatch comm inbound count = do
    let request = inbound.message
    (batches, answer) ←
        call
          λ n. s.language.message n (message_of request) (output_context request false false count)
    alive ← run_pump s request none false batches
    lift answer
    lift (flushed alive)
    pure goes_on
  dispatch other_request inbound count = do
    send_reply s inbound.reply inbound.message (reply_type inbound.message)
        (obj (("status", string "ok") ∷ []))
    pure goes_on
  dispatch other inbound count = pure goes_on
  dispatch kind inbound count = service kind inbound

  unfoldable pub handle_checked : List String → Inbound → ℕ → M ShellOutcome
  unfolding dispatch
  handle_checked [] inbound count = dispatch (request_of (msg_type inbound.message)) inbound count
  handle_checked (k ∷ ks) inbound count =
      reply_missing s count inbound.message inbound.reply (k ∷ ks) >> pure goes_on

  unfoldable pub handle_shell : Inbound → ℕ → M ShellOutcome
  unfolding handle_checked
  handle_shell inbound count = handle_checked (missing_fields inbound.message) inbound count
