-- ===== src/Engine/Run/Operations.antt =====
-- The order of the queue through the operations of the shell in src/engine.rs.
use kernmini.Prelude.{
  ℕ, ◌+◌, String, Bool, true, false, not, ◌&&◌, List, [], ◌∷◌, Option, none, some, ◌==◌, string_eq,
  if◌then◌else◌,
}
use kernmini.Wire.{msg_id}
use kernmini.Engine.Queue.{QueueItem, Held, is_execute}
use kernmini.Engine.Effects.{Services, pure, lift, call}
use kernmini.Engine.Replies.{
  missing_fields, finish_hold, begin_hold, reply_missing, interrupt_execute,
}
use kernmini.Engine.Execute.{run_execution}
use kernmini.Engine.Shell.{
  ActiveExecution, Shell, ShellControl, release, interrupt, stop, is_hold, drain_incoming,
  abort_pending, apply_release, interrupt_active, release_held, handle_other, apply_control,
  apply_all, drain_controls, execution_done, finish_active, start_execution, handle_ready,
  handle_checked, handle_execute, handle_item,
}
use kernmini.Engine.Shell.Ordered.{
  Leads, Leads-pure, Leads-fail, Leads-if, Leads-bind, Leads-after, Fits, Fits-drain_incoming,
  Leads-abort_pending,
}
use kernmini.Engine.Run.{
  Finish, running, finished, panicked, returned, collect, settle, end_shell, expire_hold, prepare,
}
use kernmini.Engine.Balance.Passes.{left}

module _ (s : Services) (c : ℕ) where
  Leads-aborted : (shell : Shell) → Fits c shell → Leads (Fits c) (abort_pending s shell)
  Leads-aborted shell f = record { at = λ w a e. ((Leads-abort_pending s c shell f).at w a e).1 }

  Leads-settled :
      (b : Bool) (shell : Shell)
      → Fits c shell
      → Leads (Fits c) (if b then abort_pending s shell else pure shell)
  Leads-settled true shell f = Leads-aborted shell f
  Leads-settled false shell f = Leads-pure shell f

  Leads-apply_release :
      (held : Option Held) (shell : Shell) (id text : String)
      → Fits c shell
      → Leads (λ r. Fits c r.0) (apply_release s held shell id text)
  unfolding apply_release
  Leads-apply_release none shell id text f = Leads-pure _ f
  Leads-apply_release (some held) shell id text f =
      Leads-if (msg_id held.item.inbound.message == id) _ _
        (λ _. Leads-after (finish_hold s shell.execution_count held.item text) _ λ failed.
          Leads-bind _ _ (Leads-settled failed (record shell { held = none }) f)
            λ settled g. Leads-pure (settled, true) g)
        (λ _. Leads-pure (shell, false) f)

  pub Leads-apply_control :
      (shell : Shell) (control : ShellControl)
      → Fits c shell
      → Leads (λ r. Fits c r.0) (apply_control s shell control)
  unfolding apply_control
  Leads-apply_control shell (release id text) f =
      Leads-bind _ _ (Leads-apply_release shell.held shell id text f)
        λ (settled, found) g. Leads-pure (settled, some found) g
  Leads-apply_control shell interrupt f = Leads-after (interrupt_active s shell.active) _ λ active.
      Leads-after (release_held s shell.execution_count shell.held "interrupt") _ λ _.
        Leads-bind _ _
          (Leads-aborted (record shell { interrupting = true; active = active; held = none }) f)
          λ settled g. Leads-pure (settled, none) g
  Leads-apply_control shell stop f = Leads-pure (record shell { stopping = true }, none) f

  Leads-apply_all :
      (l : List ShellControl) (shell : Shell) → Fits c shell → Leads (Fits c) (apply_all s l shell)
  unfolding apply_all
  Leads-apply_all [] shell f = Leads-pure shell f
  Leads-apply_all (x ∷ l) shell f =
      Leads-bind _ _ (Leads-apply_control shell x f) λ (after, answer) g. Leads-apply_all l after g

  pub Leads-finish_active :
      (active : Option ActiveExecution) (panic : Option String) (shell : Shell)
      → Fits c shell
      → Leads (Fits c) (finish_active s active panic shell)
  unfolding finish_active execution_done
  Leads-finish_active none panic shell f = Leads-pure shell f
  Leads-finish_active (some active) (some text) shell f = Leads-fail _
  Leads-finish_active (some active) none shell f =
      Leads-after
        (run_execution s active.inbound active.execution active.execution_count active.interrupted)
        _
        λ done.
          Leads-settled (done.failed && done.stop_on_error && not shell.interrupting)
            (record shell { active = none }) f

  Leads-collect :
      (finish : Finish) (shell : Shell) → Fits c shell → Leads (Fits c) (collect s finish shell)
  unfolding collect
  Leads-collect running shell f = Leads-pure shell f
  Leads-collect finished shell f = Leads-finish_active shell.active none shell f
  Leads-collect (panicked text) shell f = Leads-finish_active shell.active (some text) shell f

  pub Leads-prepare :
      (finish : Finish) (shell : Shell) → Fits c shell → Leads (Fits c) (prepare s finish shell)
  unfolding prepare drain_controls settle
  Leads-prepare finish shell f =
      let drained = drain_incoming shell in
      Leads-bind _ _
        (Leads-apply_all drained.controls (record drained { controls = [] })
          (Fits-drain_incoming c shell f))
        λ told g.
          Leads-bind _ _ (Leads-collect finish told g) λ done h. Leads-pure (settle s done) h

  Leads-handle_checked :
      (missing : List String) (shell : Shell) (item : QueueItem)
      → Fits c shell
      → Leads (Fits c) (handle_checked s missing shell item)
  unfolding handle_checked handle_ready start_execution
  Leads-handle_checked [] shell item f =
      Leads-if (is_hold item.inbound) _ _
        (λ _. Leads-after (begin_hold s shell.execution_count item) _ λ _.
          Leads-after (call s.now) _ λ now.
            Leads-pure
              (record shell {
                held = some (record { item = item; deadline = now + s.hold_timeout });
              })
              f)
        (λ _. Leads-pure _ f)
  Leads-handle_checked (m ∷ ms) shell item f =
      Leads-after
        (reply_missing s shell.execution_count item.inbound.message item.inbound.reply (m ∷ ms)) _
        λ _. Leads-aborted shell f

  pub Leads-handle_item :
      (shell : Shell) (item : QueueItem)
      → Fits c shell
      → Leads (λ r. Fits c r.0) (handle_item s shell item)
  unfolding handle_item handle_execute
  Leads-handle_item shell item f =
      Leads-if (is_execute item.inbound) _ _
        (λ _.
          Leads-bind _ _
            (Leads-if shell.interrupting _ _
              (λ _.
                Leads-after (interrupt_execute s shell.execution_count item.inbound) _
                  λ _. Leads-pure shell f)
              (λ _. Leads-handle_checked (missing_fields item.inbound.message) shell item f))
            λ after g. Leads-pure (after, false) g)
        (λ _.
          Leads-after (handle_other s shell item.inbound) _ λ ended. Leads-pure (shell, ended) f)

  pub Leads-end_shell :
      (shell : Shell) → Fits c shell → Leads (λ flow. Fits c (left flow)) (end_shell s shell)
  unfolding end_shell
  Leads-end_shell shell f =
      Leads-after (call s.language.shutdown) _
        λ answer. Leads-after (lift answer) _ λ _. Leads-pure (returned shell) f

  pub Leads-expire_hold :
      (held : Option Held) (shell : Shell)
      → Fits c shell
      → Leads (Fits c) (expire_hold s held shell)
  unfolding expire_hold
  Leads-expire_hold none shell f = Leads-pure shell f
  Leads-expire_hold (some held) shell f =
      Leads-after (finish_hold s shell.execution_count held.item "timeout") _
        λ _. Leads-aborted (record shell { held = none }) f
