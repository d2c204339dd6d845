-- ===== src/Engine/Execute.antt =====
-- One execution in src/engine.rs, from the request to the reply. The language's answer and what it sent
-- come at once: the messages of an execution keep their order, and how they interleave with those of
-- other requests is left out.
use kernmini.Prelude.{
  ℕ, String, Bytes, Bool, true, false, not, List, [], ◌∷◌, Option, none, some, unwrap_or,
  if◌then◌else◌,
}
use kernmini.Json.{Value, string, obj, arr, num, get, index}
use kernmini.Errors.{Error, Result, ok, err, kind, from_send}
use kernmini.Wire.{Message}
use kernmini.Language.{ExecuteRequest, ExecuteOutcome, LanguageError}
use kernmini.Engine.Queue.{Inbound}
use kernmini.Engine.Effects.{
  Services, M, ◌>>=◌, ◌>>◌, pure, lift, call, attempt, when, is_closed, send_iopub, send_reply,
  status,
}
use kernmini.Engine.Replies.{bool_or, str_or, report_failure}
use kernmini.Engine.Pump.{output_context, run_pump}

-- The execute request in a content, with the protocol's defaults.
unfoldable pub execute_request : Value → ExecuteRequest
execute_request content = record {
  code = str_or "" "code" content;
  silent = bool_or false "silent" content;
  store_history = bool_or true "store_history" content;
  user_expressions = unwrap_or (get "user_expressions" content) (obj []);
  allow_stdin = bool_or true "allow_stdin" content;
}

pub record ExecutionDone : Type 0 where
  pub failed : Bool
  pub stop_on_error : Bool

abbrev texts : List String → List Value
texts [] = []
texts (t ∷ ts) = string t ∷ texts ts

-- `output.flush()`: the pump answers if it is still there.
abbrev pub flushed : Bool → Result Error (Unit {0})
flushed true = ok tt
flushed false = err from_send

module _ (s : Services) where
  unfoldable pub publish_result : Message → Bool → ℕ → Option Value → Value → M (Unit {0})
  publish_result request silent count none metadata = pure tt
  publish_result request silent count (some result) metadata = when (not silent) (
      send_iopub s request "execute_result"
        (obj (("execution_count", num count) ∷ ("data", result) ∷ ("metadata", metadata) ∷ [])))

  -- The content of the reply for what the language answered, and whether it failed.
  unfoldable pub finish_outcome :
      Message → Bool → ℕ → Option LanguageError → ExecuteOutcome → M (Value × Bool)
  unfolding publish_result
  finish_outcome request silent count (some e) outcome = do
    let error = obj (
        ("ename", string e.ename)
        ∷ ("evalue", string e.evalue)
        ∷ ("traceback", arr (texts e.traceback))
        ∷ [])
    send_iopub s request "error" error
    pure (
      obj (
          ("status", string "error")
          ∷ ("execution_count", num count)
          ∷ ("ename", index "ename" error)
          ∷ ("evalue", index "evalue" error)
          ∷ ("traceback", index "traceback" error)
          ∷ []),
      true,
    )
  finish_outcome request silent count none outcome = do
    publish_result request silent count outcome.result outcome.result_metadata
    pure (
      obj (
          ("status", string "ok")
          ∷ ("execution_count", num count)
          ∷ ("user_expressions", outcome.user_expressions)
          ∷ ("payload", outcome.payload)
          ∷ []),
      false,
    )

  unfoldable pub execute : Bytes → Message → ExecuteRequest → ℕ → Bool → M (Value × Bool)
  unfolding finish_outcome
  execute identity request execution count interrupted = do
    status s request "busy"
    when (not execution.silent) (
        send_iopub s request "execute_input"
          (obj (("code", string execution.code) ∷ ("execution_count", num count) ∷ [])))
    (batches, answer) ←
        call (λ n. s.language.execute n execution (output_context request true interrupted count))
    alive ← run_pump s request (some identity) execution.silent batches
    outcome ← lift answer
    lift (flushed alive)
    finish_outcome request execution.silent count outcome.error outcome

  unfoldable pub finish_run : Inbound → ℕ → Bool → Result Error (Value × Bool) → M ExecutionDone
  finish_run inbound count stop_on_error (err e) = do
    report_failure s inbound.message inbound.reply e count
    if is_closed (kind e)
        then lift (err e)
        else pure (record { failed = true; stop_on_error = stop_on_error })
  finish_run inbound count stop_on_error (ok (content, failed)) = do
    send_reply s inbound.reply inbound.message "execute_reply" content
    status s inbound.message "idle"
    pure (record { failed = failed; stop_on_error = stop_on_error })

  unfoldable pub run_execution : Inbound → ExecuteRequest → ℕ → Bool → M ExecutionDone
  unfolding execute finish_run
  run_execution inbound execution count interrupted = do
    let stop_on_error = bool_or true "stop_on_error" inbound.message.content
    ended ← attempt (execute inbound.identity inbound.message execution count interrupted)
    finish_run inbound count stop_on_error ended
