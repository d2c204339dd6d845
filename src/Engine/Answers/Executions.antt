-- ===== src/Engine/Answers/Executions.antt =====
-- How an execution, its output and the other shell requests of src/engine.rs count.
use kernmini.Prelude.{
  ℕ, refl, String, Bytes, string_eq, Bool, true, false, List, [], ◌∷◌, Option, none, some,
}
use kernmini.Json.{Value}
use kernmini.Errors.{Error, Result, ok, err, kind}
use kernmini.Wire.{Message}
use kernmini.Language.{
  ExecuteRequest, ExecuteOutcome, LanguageError, LanguageEvent, stream, display, message,
  ContextMessage, event, flush, input,
}
use kernmini.Engine.Queue.{Inbound}
use kernmini.Engine.Effects.{
  Output, Services, is_closed, Interaction, cancelled, peer_closed, unsent, answered,
}
use kernmini.Engine.Pump.{
  publish_event, await_answer, request_input, pump_message, pump_batch, pump, report_pump, run_pump,
  coalesce,
}
use kernmini.Engine.Execute.{
  publish_result, finish_outcome, flushed, execute, finish_run, run_execution,
}
use kernmini.Engine.Replies.{bool_or}
use kernmini.Engine.Answers.{
  asks, IsWritable, Adds, Sure, Sure-pure, Sure-call, Sure-rest, Adds-first, Adds-rest, Adds-lift,
  Adds-fail_or, Adds-pure, Sure-attempt, Adds-quiet,
}
use kernmini.Engine.Answers.Sending.{
  Sure-send_iopub, Sure-status, Sure-send_reply, Sure-when, Sure-fail_kernel, Sure-encode,
  Sure-emit,
}
use kernmini.Engine.Answers.Handlers.{sure_rules, Sure-report_failure}

module _ (s : Services) (writable : IsWritable s) {k : String} where
  Sure-publish_event :
      (request : Message) (silent : Bool) (e : LanguageEvent)
      → Sure k 0 (publish_event s request silent e)
  unfolding publish_event
  Sure-publish_event request true e = Sure-pure tt
  Sure-publish_event request false (stream name text) = search sure_rules
  Sure-publish_event request false (display e buffers) = search sure_rules
  Sure-publish_event request false (message type content metadata identity buffers) =
      search sure_rules

  Sure-await_answer :
      (identity : Bytes) (m : Message) (ended : Interaction)
      → Sure k 0 (await_answer s identity m ended)
  unfolding await_answer
  Sure-await_answer identity m cancelled = Sure-pure _
  Sure-await_answer identity m (peer_closed e) = Sure-pure _
  Sure-await_answer identity m (unsent e) = Sure-pure _
  Sure-await_answer identity m (answered answer) = Sure-attempt (
      Adds-rest _ _ (Sure-encode s writable m)
        λ _. Adds-rest _ _ (Sure-emit (Output.stdin identity m) refl) λ _. Adds-lift answer)

  Sure-pump_message :
      (request : Message) (identity : Option Bytes) (silent : Bool) (m : ContextMessage)
      → Sure k 0 (pump_message s request identity silent m)
  unfolding pump_message request_input
  Sure-pump_message request identity silent (event e) = Sure-publish_event request silent e
  Sure-pump_message request identity silent flush = Sure-pure tt
  Sure-pump_message request none silent (input prompt password) = Sure-pure tt
  Sure-pump_message request (some i) silent (input prompt password) =
      search (sure_rules, Sure-await_answer) depth 8

  Sure-pump_batch :
      (request : Message) (identity : Option Bytes) (silent : Bool) (l : List ContextMessage)
      → Sure k 0 (pump_batch s request identity silent l)
  unfolding pump_batch
  Sure-pump_batch request identity silent [] = Sure-pure tt
  Sure-pump_batch request identity silent (m ∷ l) =
      Sure-rest _ _ (Sure-pump_message request identity silent m)
        λ _. Sure-pump_batch request identity silent l

  Sure-pump :
      (request : Message) (identity : Option Bytes) (silent : Bool) (l : List (List ContextMessage))
      → Sure k 0 (pump s request identity silent l)
  unfolding pump
  Sure-pump request identity silent [] = Sure-pure tt
  Sure-pump request identity silent (b ∷ l) =
      Sure-rest _ _ (Sure-pump_batch request identity silent (coalesce b))
        λ _. Sure-pump request identity silent l

  Sure-report_pump : (r : Result Error (Unit {0})) → Sure k 0 (report_pump s r)
  unfolding report_pump
  Sure-report_pump (ok _) = Sure-pure true
  Sure-report_pump (err e) = Sure-rest _ _ (Sure-fail_kernel e) λ _. Sure-pure false

  -- No output of a language is an answer.
  pub Sure-run_pump :
      (request : Message) (identity : Option Bytes) (silent : Bool) (l : List (List ContextMessage))
      → Sure k 0 (run_pump s request identity silent l)
  unfolding run_pump
  Sure-run_pump request identity silent l =
      Sure-rest _ _ (Sure-attempt (Sure-pump request identity silent l).adds) Sure-report_pump

  Sure-publish_result :
      (request : Message) (silent : Bool) (count : ℕ) (o : Option Value) (metadata : Value)
      → Sure k 0 (publish_result s request silent count o metadata)
  unfolding publish_result
  Sure-publish_result request silent count none metadata = Sure-pure tt
  Sure-publish_result request silent count (some r) metadata = search sure_rules

  Sure-finish_outcome :
      (request : Message) (silent : Bool) (count : ℕ) (e : Option LanguageError)
      (o : ExecuteOutcome)
      → Sure k 0 (finish_outcome s request silent count e o)
  unfolding finish_outcome
  Sure-finish_outcome request silent count none o =
      Sure-rest _ _ (Sure-publish_result request silent count o.result o.result_metadata)
        λ _. Sure-pure _
  Sure-finish_outcome request silent count (some e) o = search sure_rules

  -- An execution itself answers nothing, whether it ends well or not.
  Adds-execute :
      (identity : Bytes) (request : Message) (e : ExecuteRequest) (count : ℕ) (interrupted : Bool)
      → Adds k 0 (execute s identity request e count interrupted)
  unfolding execute
  Adds-execute identity request e count interrupted =
      Adds-rest _ _ (Sure-status s writable request "busy") λ _.
        Adds-rest _ _ (Sure-when _ (Sure-send_iopub s writable request "execute_input" _)) λ _.
          Adds-rest _ _ (Sure-call _) λ (batches, answer).
            Adds-rest _ _ (Sure-run_pump request (some identity) e.silent batches) λ alive.
              Adds-quiet _ _ (Adds-lift answer) λ outcome.
                Adds-quiet _ _ (Adds-lift (flushed alive))
                  λ _. (Sure-finish_outcome request e.silent count outcome.error outcome).adds

  Adds-finish_run :
      (i : Inbound) (count : ℕ) (stop : Bool) (r : Result Error (Value × Bool))
      → Adds k (asks k i.message) (finish_run s i count stop r)
  unfolding finish_run
  Adds-finish_run i count stop (err e) =
      Adds-first _ _ (Sure-report_failure s writable i.message i.reply e count)
        λ _. Adds-fail_or (is_closed (kind e)) e _
  Adds-finish_run i count stop (ok (content, failed)) =
      Adds-first _ _ (Sure-send_reply s writable i.reply i.message "execute_reply" content)
        λ _. Adds-rest _ _ (Sure-status s writable i.message "idle") λ _. Adds-pure _

  -- It is answered once when it ends, also when it fails or takes the shell down.
  pub Adds-run_execution :
      (i : Inbound) (e : ExecuteRequest) (count : ℕ) (interrupted : Bool)
      → Adds k (asks k i.message) (run_execution s i e count interrupted)
  unfolding run_execution
  Adds-run_execution i e count interrupted =
      Adds-rest _ _ (Sure-attempt (Adds-execute i.identity i.message e count interrupted))
        λ r. Adds-finish_run i count (bool_or true "stop_on_error" i.message.content) r
