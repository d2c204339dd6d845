-- ===== src/Engine/Replies.antt =====
-- The replies of src/engine.rs that need no language: missing fields, errors, aborted, interrupted
-- and held executions.
use kernmini.Prelude.{
  ℕ, String, Bool, true, false, not, ◌||◌, List, [], ◌∷◌, Option, none, some, ◌==◌, string_eq,
  unwrap_or, ◌and_then◌, is_some, if◌then◌else◌,
}
use kernmini.Prelude.Text.{concat, ends_with, replace}
use kernmini.Json.{Value, null, string, bool, obj, arr, num, get, set, index, as_str, as_bool}
use kernmini.Errors.{Error, ErrorKind, kind, display, interrupted}
use kernmini.Wire.{Message, msg_type}
use kernmini.Engine.Queue.{Inbound, QueueItem}
use kernmini.Engine.Effects.{
  Services, M, ◌>>=◌, ◌>>◌, pure, when, emit, stderr, send_iopub, send_reply, status,
}

-- The `get(k).and_then(as_…).unwrap_or(d)` of the protocol's optional fields.
abbrev pub bool_or : Bool → String → Value → Bool
bool_or d k content = unwrap_or (get k content and_then as_bool) d

abbrev pub str_or : String → String → Value → String
str_or d k content = unwrap_or (get k content and_then as_str) d

unfoldable pub required_fields : String → List String
unfolding string_eq
required_fields type =
    if type == "execute_request" || type == "is_complete_request"
    then "code" ∷ []
    else if type == "complete_request" || type == "inspect_request"
    then "code" ∷ "cursor_pos" ∷ []
    else if type == "history_request"
    then "hist_access_type" ∷ []
    else []

abbrev lacking : Value → List String → List String
lacking content [] = []
lacking content (k ∷ ks) =
    let rest = lacking content ks in if is_some (get k content) then rest else k ∷ rest

unfoldable pub missing_fields : Message → List String
unfolding required_fields
missing_fields request = lacking request.content (required_fields (msg_type request))

abbrev join : List String → String
join [] = ""
join (x ∷ []) = x
join (x ∷ y ∷ xs) = concat x (concat ", " (join (y ∷ xs)))

unfoldable pub error_content : Message → ℕ → String → String → Value
unfolding string_eq
error_content request count ename evalue =
    let content = obj (
      ("status", string "error")
      ∷ ("ename", string ename)
      ∷ ("evalue", string evalue)
      ∷ ("traceback", arr [])
      ∷ []) in
    let type = msg_type request in
    if type == "execute_request"
    then set "payload" (arr [])
        (set "user_expressions" (obj []) (set "execution_count" (num count) content))
    else if type == "complete_request"
    then set "metadata" (obj [])
        (set "cursor_end" (num 0) (set "cursor_start" (num 0) (set "matches" (arr []) content)))
    else if type == "inspect_request"
    then set "metadata" (obj []) (set "data" (obj []) (set "found" (bool false) content))
    else if type == "history_request"
    then set "history" (arr []) content
    else if type == "is_complete_request"
    then set "indent" (string "") content
    else content

unfoldable pub reply_type : Message → String
reply_type request = replace (msg_type request) "_request" "_reply"

abbrev pub is_execute_request : Message → Bool
is_execute_request request = msg_type request == "execute_request"

abbrev is_interrupted : ErrorKind → Bool
is_interrupted interrupted = true
is_interrupted _ = false

abbrev keyboard_interrupt : Value
keyboard_interrupt =
    obj (("ename", string "KeyboardInterrupt") ∷ ("evalue", string "") ∷ ("traceback", arr []) ∷ [])

-- The error with which a hold ends, if any.
unfoldable pub release_error : String → Option Value
unfolding string_eq
release_error status =
    if status == "error"
    then some (
        obj (
          ("ename", string "HoldError")
          ∷ ("evalue", string "released with status error")
          ∷ ("traceback", arr [])
          ∷ []))
    else if status == "interrupt"
    then some keyboard_interrupt
    else if status == "timeout"
    then some (
        obj (
          ("ename", string "HoldTimeout")
          ∷ ("evalue", string "held execution timed out")
          ∷ ("traceback", arr [])
          ∷ []))
    else none

module _ (s : Services) where
  unfoldable pub reply_error : Message → ℕ → Value → M (Unit {0})
  unfolding reply_type
  reply_error request sink content = do
    when (is_execute_request request)
        (do status s request "busy"; send_iopub s request "error" content)
    send_reply s sink request (reply_type request) content
    when (is_execute_request request) (status s request "idle")

  unfoldable pub reply_missing : ℕ → Message → ℕ → List String → M (Unit {0})
  unfolding reply_error
  reply_missing count request sink missing = reply_error request sink (
      error_content request count "MissingField"
        (concat "missing required fields: " (join missing)))

  unfoldable pub report_failure : Message → ℕ → Error → ℕ → M (Unit {0})
  unfolding reply_type
  report_failure request sink e count = do
    let ename = if is_interrupted (kind e) then "KeyboardInterrupt" else "KernelError"
    let content = error_content request count ename (display e)
    when (is_execute_request request) (send_iopub s request "error" content)
    if ends_with (msg_type request) "_request"
        then send_reply s sink request (reply_type request) content
        else emit (stderr (concat (msg_type request) (concat " failed: " (display e))))
    status s request "idle"

  unfoldable pub abort_execute : ℕ → Inbound → M (Unit {0})
  abort_execute count inbound = do
    status s inbound.message "busy"
    send_reply s inbound.reply inbound.message "execute_reply" (
        obj (
          ("status", string "aborted")
          ∷ ("execution_count", num count)
          ∷ ("user_expressions", obj [])
          ∷ ("payload", arr [])
          ∷ []))
    status s inbound.message "idle"

  unfoldable pub interrupt_execute : ℕ → Inbound → M (Unit {0})
  interrupt_execute count inbound = do
    status s inbound.message "busy"
    send_iopub s inbound.message "error" keyboard_interrupt
    send_reply s inbound.reply inbound.message "execute_reply" (
        obj (
          ("status", string "error")
          ∷ ("execution_count", num count)
          ∷ ("ename", string "KeyboardInterrupt")
          ∷ ("evalue", string "")
          ∷ ("traceback", arr [])
          ∷ ("user_expressions", obj [])
          ∷ ("payload", arr [])
          ∷ []))
    status s inbound.message "idle"

  unfoldable pub begin_hold : ℕ → QueueItem → M (Unit {0})
  begin_hold count item = do
    let request = item.inbound.message
    status s request "busy"
    when (not (bool_or false "silent" request.content)) (
        send_iopub s request "execute_input" (
          obj (
            ("code", string (str_or "" "code" request.content))
            ∷ ("execution_count", num count)
            ∷ [])))

  -- The error event, if the hold failed, and the content of the reply.
  abbrev pub hold_content : ℕ → Message → Option Value → M Value
  hold_content count request (some error) = do
    send_iopub s request "error" error
    pure (
        obj (
          ("status", string "error")
          ∷ ("execution_count", num count)
          ∷ ("ename", index "ename" error)
          ∷ ("evalue", index "evalue" error)
          ∷ ("traceback", index "traceback" error)
          ∷ ("user_expressions", obj [])
          ∷ ("payload", arr [])
          ∷ []))
  hold_content count request none = pure (
      obj (
        ("status", string "ok")
        ∷ ("execution_count", null)
        ∷ ("user_expressions", obj [])
        ∷ ("payload", arr [])
        ∷ []))

  unfoldable pub finish_hold : ℕ → QueueItem → String → M Bool
  unfolding release_error
  finish_hold count item release_status = do
    let request = item.inbound.message
    content ← hold_content count request (release_error release_status)
    send_reply s item.inbound.reply request "execute_reply" content
    status s request "idle"
    pure (is_some (release_error release_status))
