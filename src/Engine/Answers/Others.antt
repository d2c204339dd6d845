-- ===== src/Engine/Answers/Others.antt =====
-- How the shell requests of src/engine.rs that are no executions count.
use kernmini.Prelude.{ℕ, ◌≡◌, subst, String, string_eq, false, List, [], ◌∷◌, none, arith}
use kernmini.Json.{Value}
use kernmini.Errors.{Error, Result, ok, err, kind}
use kernmini.Wire.{msg_type}
use kernmini.Engine.Queue.{Inbound, is_execute}
use kernmini.Engine.Effects.{Services, is_closed, send_reply}
use kernmini.Engine.Replies.{reply_type, missing_fields}
use kernmini.Engine.Pump.{output_context}
use kernmini.Engine.Execute.{flushed}
use kernmini.Engine.Handler.{
  ask, ShellOutcome, goes_on, shutdown, Request, shutdown_request, complete_request,
  inspect_request, is_complete_request, history_request, comm_info_request, connect_request, comm,
  other_request, other, request_of, info_content, message_of, kernel_info_content, service_content,
  service, dispatch, handle_checked, handle_shell,
}
use kernmini.Engine.Shell.{Shell, finish_other, handle_other}
use kernmini.Engine.Answers.{
  asks, IsWritable, Adds, Sure, Sure-call, Adds-first, Adds-rest, Adds-lift, Adds-fail_or,
  Adds-pure, Adds-call, Sure-attempt, Adds-quiet,
}
use kernmini.Engine.Answers.Sending.{Sure-status, Sure-send_reply}
use kernmini.Engine.Answers.Handlers.{Sure-report_failure, Sure-reply_missing}
use kernmini.Engine.Answers.Executions.{Sure-run_pump}

pub asks_of_no_execute : (k : String) (i : Inbound) → is_execute i ≡ false → asks k i.message ≡ 0
asks_of_no_execute k i h = ground arith

Adds-kernel_info_content : (s : Services) {k : String} → Adds k 0 (kernel_info_content s)
unfolding kernel_info_content
Adds-kernel_info_content s =
    Adds-quiet _ _ (Adds-quiet _ _ (Adds-call s.language.kernel_info) Adds-lift) λ info.
      Adds-quiet _ _ (Adds-call s.language.supports_debugger) λ debugger.
        Adds-quiet _ _ (Adds-call s.language.supported_features)
          λ features. Adds-pure (info_content s.supports_subshells info debugger features)

Adds-ask : {k : String} (f : ℕ → Result Error Value) → Adds k 0 (ask f)
Adds-ask f = Adds-quiet _ _ (Adds-call f) Adds-lift

Adds-service_content :
    (s : Services) {k : String} (r : Request) (content : Value)
    → Adds k 0 (service_content s r content)
unfolding service_content
Adds-service_content s complete_request content = Adds-ask _
Adds-service_content s inspect_request content = Adds-ask _
Adds-service_content s is_complete_request content = Adds-ask _
Adds-service_content s history_request content = Adds-ask _
Adds-service_content s _ content = Adds-kernel_info_content s

module _ (s : Services) (writable : IsWritable s) {k : String} (i : Inbound)
    (unasked : asks k i.message ≡ 0) where
  Sure-reply :
      (type : String) (content : Value) → Sure k 0 (send_reply s i.reply i.message type content)
  Sure-reply type content =
      subst (λ n. Sure k n (send_reply s i.reply i.message type content)) unasked
        (Sure-send_reply s writable i.reply i.message type content)

  Adds-service : (r : Request) → Adds k 0 (service s r i)
  Adds-service r = Adds-rest _ _ (Sure-status s writable i.message "busy") λ _.
      Adds-quiet _ _ (Adds-service_content s r i.message.content) λ content.
        Adds-rest _ _ (Sure-reply (reply_type i.message) content)
          λ _. Adds-rest _ _ (Sure-status s writable i.message "idle") λ _. Adds-pure _

  Adds-dispatch : (r : Request) (count : ℕ) → Adds k 0 (dispatch s r i count)
  unfolding dispatch
  Adds-dispatch shutdown_request count = Adds-rest _ _ (Sure-reply _ _) λ _. Adds-pure _
  Adds-dispatch comm_info_request count =
      Adds-quiet _ _ (Adds-ask _) λ content. Adds-rest _ _ (Sure-reply _ content) λ _. Adds-pure _
  Adds-dispatch connect_request count = Adds-rest _ _ (Sure-reply _ _) λ _. Adds-pure _
  Adds-dispatch comm count =
      Adds-rest _ _
        (Sure-call λ n.
          s.language.message n (message_of i.message) (output_context i.message false false count))
        λ (batches, answer).
          Adds-rest _ _ (Sure-run_pump s writable i.message none false batches) λ alive.
            Adds-quiet _ _ (Adds-lift answer)
              λ _. Adds-quiet _ _ (Adds-lift (flushed alive)) λ _. Adds-pure goes_on
  Adds-dispatch other_request count = Adds-rest _ _ (Sure-reply _ _) λ _. Adds-pure _
  Adds-dispatch other count = Adds-pure _
  Adds-dispatch r count = Adds-service r

  Adds-handle_checked :
      (missing : List String) (count : ℕ) → Adds k 0 (handle_checked s missing i count)
  unfolding handle_checked
  Adds-handle_checked [] count = Adds-dispatch (request_of (msg_type i.message)) count
  Adds-handle_checked (m ∷ ms) count =
      subst (λ n. Adds k n (handle_checked s (m ∷ ms) i count)) unasked
        (Adds-first _ _ (Sure-reply_missing s writable count i.message i.reply (m ∷ ms))
          λ _. Adds-pure _)

  Adds-finish_other :
      (shell : Shell) (r : Result Error ShellOutcome) → Adds k 0 (finish_other s shell i r)
  unfolding finish_other
  Adds-finish_other shell (ok goes_on) = Adds-pure _
  Adds-finish_other shell (ok shutdown) = Adds-pure _
  Adds-finish_other shell (err e) =
      subst (λ n. Adds k n (finish_other s shell i (err e))) unasked
        (Adds-first _ _ (Sure-report_failure s writable i.message i.reply e shell.execution_count)
          λ _. Adds-fail_or (is_closed (kind e)) e _)

  pub Adds-handle_other : (shell : Shell) → Adds k 0 (handle_other s shell i)
  unfolding handle_other handle_shell
  Adds-handle_other shell =
      Adds-rest _ _
        (Sure-attempt (Adds-handle_checked (missing_fields i.message) shell.execution_count))
        λ r. Adds-finish_other shell r
