-- ===== src/Engine/Shell.antt =====
-- The shell scheduler `Shell` of src/engine.rs. The two channels are their buffers. A running
-- execution is kept with its request until it ends; the scheduler's loop is a function of what
-- happens while it waits.
pub mod Ordered
pub mod Aborts
pub mod Counts
use kernmini.Prelude.{
  ℕ, zero, suc, ◌+◌, ◌%◌, ◌^◌, String, Bytes, Bool, true, false, not, ◌&&◌, List, [], ◌∷◌, ◌++◌,
  Option, none, some, ◌==◌, string_eq, unwrap_or, ◌and_then◌, is_some, map_or, map_option,
  if◌then◌else◌,
}
use kernmini.Json.{Value, lookup, as_bool}
use kernmini.Float.{as_f64}
use kernmini.Errors.{Error, Result, ok, err, kind, closed_error, from_join}
use kernmini.Wire.{Message, msg_id}
use kernmini.Language.{ExecuteRequest}
use kernmini.Engine.Queue.{Inbound, QueueItem, Held, push, extend, is_execute, pop_runnable}
use kernmini.Engine.Effects.{Services, M, ◌>>=◌, ◌>>◌, pure, lift, call, attempt, when, is_closed}
use kernmini.Engine.Replies.{
  missing_fields, reply_missing, report_failure, abort_execute, interrupt_execute, begin_hold,
  finish_hold,
}
use kernmini.Engine.Execute.{ExecutionDone, execute_request, run_execution}
use kernmini.Engine.Handler.{ShellOutcome, goes_on, shutdown, handle_shell}

-- `ActiveExecution`, with the arguments of its task. `interrupted` is whether its interrupt was
-- requested.
pub record ActiveExecution : Type 0 where
  pub inbound : Inbound
  pub execution : ExecuteRequest
  pub execution_count : ℕ
  pub interrupted : Bool

-- `ShellControl`
pub data ShellControl : Type 0 where
  release : String → String → ShellControl
  interrupt stop : ShellControl

pub record Shell : Type 0 where
  pub incoming : List Inbound
  pub controls : List ShellControl
  pub queue : List QueueItem
  pub order : ℕ
  pub held : Option Held
  pub active : Option ActiveExecution
  pub stopping : Bool
  pub interrupting : Bool
  pub execution_count : ℕ

-- `u64` arithmetic wraps.
abbrev pub u64 : ℕ → ℕ
u64 n = n % 2 ^ 64

unfoldable pub priority_of : Inbound → ℕ
unfolding as_f64 lookup
priority_of i = unwrap_or (lookup "priority" i.message.metadata and_then as_f64) 0

unfoldable pub enqueue : Shell → Inbound → Shell
unfolding push priority_of
enqueue shell inbound = record shell {
  queue =
      push (record { priority = priority_of inbound; order = shell.order; inbound = inbound })
        shell.queue;
  order = u64 (shell.order + 1);
}

-- `while let Ok(inbound) = incoming.try_recv() { enqueue(inbound) }`
unfoldable pub enqueue_all : List Inbound → Shell → Shell
unfolding enqueue
enqueue_all [] shell = shell
enqueue_all (i ∷ is) shell = enqueue_all is (enqueue shell i)

unfoldable pub drain_incoming : Shell → Shell
unfolding enqueue_all
drain_incoming shell = enqueue_all shell.incoming (record shell { incoming = [] })

-- The count to report for an execution; one that stores history advances it first.
unfoldable pub count_execution : Shell → ExecuteRequest → Shell × ℕ
count_execution shell execution =
    let count =
      if execution.store_history && not execution.silent
      then u64 (shell.execution_count + 1)
      else shell.execution_count in
    (record shell { execution_count = count }, count)

abbrev pub is_hold : Inbound → Bool
is_hold i = unwrap_or (lookup "hold" i.message.metadata and_then as_bool) false

module _ (s : Services) where
  -- The loop of `abort_pending`: every queued execution is answered, the other items are kept.
  unfoldable pub abort_queue : ℕ → List QueueItem → M (List QueueItem)
  abort_queue count [] = pure []
  abort_queue count (item ∷ queue) =
      let others = abort_queue count queue in
      if is_execute item.inbound
      then abort_execute s count item.inbound >> others
      else (others >>= λ keep. pure (item ∷ keep))

  unfoldable pub abort_pending : Shell → M Shell
  unfolding drain_incoming abort_queue extend
  abort_pending shell = do
    let drained = drain_incoming shell
    keep ← abort_queue drained.execution_count drained.queue
    pure (record drained { queue = extend [] keep })

  -- The answer of a release is whether the held execution was meant.
  unfoldable pub apply_release : Option Held → Shell → String → String → M (Shell × Bool)
  unfolding abort_pending string_eq
  apply_release none shell id status = pure (shell, false)
  apply_release (some held) shell id status =
      if msg_id held.item.inbound.message == id
      then (do
        failed ← finish_hold s shell.execution_count held.item status
        let freed = record shell { held = none }
        settled ← if failed then abort_pending freed else pure freed
        pure (settled, true))
      else pure (shell, false)

  unfoldable pub interrupt_active : Option ActiveExecution → M (Option ActiveExecution)
  interrupt_active none = pure none
  interrupt_active (some active) = do
    answer ← call s.language.interrupt
    lift answer
    pure (some (record active { interrupted = true }))

  unfoldable pub release_held : ℕ → Option Held → String → M (Unit {0})
  release_held count none status = pure tt
  release_held count (some held) status = finish_hold s count held.item status >> pure tt

  unfoldable pub apply_control : Shell → ShellControl → M (Shell × Option Bool)
  unfolding apply_release interrupt_active release_held abort_pending
  apply_control shell (release id status) = do
    (settled, found) ← apply_release shell.held shell id status
    pure (settled, some found)
  apply_control shell interrupt = do
    active ← interrupt_active shell.active
    release_held shell.execution_count shell.held "interrupt"
    settled ← abort_pending (record shell { interrupting = true; active = active; held = none })
    pure (settled, none)
  apply_control shell stop = pure (record shell { stopping = true }, none)

  unfoldable pub execution_done : Shell → ExecutionDone → M Shell
  unfolding abort_pending
  execution_done shell done =
      let idle = record shell { active = none } in
      if done.failed && done.stop_on_error && not shell.interrupting
      then abort_pending idle
      else pure idle

  -- An execution that is no hold and lacks nothing: it starts.
  unfoldable pub start_execution : Shell → Inbound → Shell
  unfolding count_execution
  start_execution shell inbound =
      let execution = execute_request inbound.message.content in
      let (counted, count) = count_execution shell execution in
      record counted {
        active = some (record {
          inbound = inbound;
          execution = execution;
          execution_count = count;
          interrupted = false;
        });
      }

  -- An execution with all its fields: it is held or starts. The deadline is taken to be a time: the source's
  -- sum panics where it is none, for timeouts of about 2^63 seconds.
  unfoldable pub handle_ready : Shell → QueueItem → M Shell
  unfolding start_execution lookup
  handle_ready shell item =
      if is_hold item.inbound
      then (do
        begin_hold s shell.execution_count item
        now ← call s.now
        pure (record shell {
          held = some (record { item = item; deadline = now + s.hold_timeout });
        }))
      else pure (start_execution shell item.inbound)

  unfoldable pub handle_checked : List String → Shell → QueueItem → M Shell
  unfolding handle_ready abort_pending
  handle_checked [] shell item = handle_ready shell item
  handle_checked (k ∷ ks) shell item = do
    reply_missing s shell.execution_count item.inbound.message item.inbound.reply (k ∷ ks)
    abort_pending shell

  unfoldable pub handle_execute : Shell → QueueItem → M Shell
  unfolding handle_checked
  handle_execute shell item =
      if shell.interrupting
      then interrupt_execute s shell.execution_count item.inbound >> pure shell
      else handle_checked (missing_fields item.inbound.message) shell item

  -- A request that is no execution, and whether it ends the shell.
  unfoldable pub finish_other : Shell → Inbound → Result Error ShellOutcome → M Bool
  finish_other shell inbound (ok goes_on) = pure false
  finish_other shell inbound (ok shutdown) = pure true
  finish_other shell inbound (err e) = do
    report_failure s inbound.message inbound.reply e shell.execution_count
    if is_closed (kind e) then lift (err e) else pure false

  unfoldable pub handle_other : Shell → Inbound → M Bool
  unfolding finish_other
  handle_other shell inbound = do
    answer ← attempt (handle_shell s inbound shell.execution_count)
    finish_other shell inbound answer

  -- The shell, and whether a request ended it.
  unfoldable pub handle_item : Shell → QueueItem → M (Shell × Bool)
  unfolding handle_execute handle_other
  handle_item shell item =
      if is_execute item.inbound
      then (do after ← handle_execute shell item; pure (after, false))
      else (do ended ← handle_other shell item.inbound; pure (shell, ended))

  unfoldable pub apply_all : List ShellControl → Shell → M Shell
  unfolding apply_control
  apply_all [] shell = pure shell
  apply_all (c ∷ cs) shell = do (after, answer) ← apply_control shell c; apply_all cs after

  unfoldable pub drain_controls : Shell → M Shell
  unfolding apply_all
  drain_controls shell = apply_all shell.controls (record shell { controls = [] })

  -- The end of the running execution's task: its result, or the text of a panic.
  unfoldable pub finish_active : Option ActiveExecution → Option String → Shell → M Shell
  unfolding execution_done
  finish_active none panic shell = pure shell
  finish_active (some active) (some text) shell = lift (err (from_join text))
  finish_active (some active) none shell = do
    done ← run_execution s active.inbound active.execution active.execution_count active.interrupted
    execution_done shell done
