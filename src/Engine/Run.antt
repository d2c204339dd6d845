-- ===== src/Engine/Run.antt =====
-- The loop of `Shell::run` in src/engine.rs, one pass at a time. What happens while the loop runs is
-- a parameter of the pass: whether the running execution is finished at the check, and which branch
-- of the `select!` is ready first.
pub mod Operations
pub mod Interrupts
pub mod Ordered
use kernmini.Prelude.{
  ℕ, String, Bool, true, false, not, ◌&&◌, List, [], ◌∷◌, ◌++◌, Option, none, some, is_some,
  if◌then◌else◌,
}
use kernmini.Errors.{Error, Result, ok, err, closed_error}
use kernmini.Engine.Queue.{Inbound, QueueItem, Held, pop_runnable}
use kernmini.Engine.Effects.{Services, M, ◌>>=◌, ◌>>◌, pure, lift, call}
use kernmini.Engine.Replies.{finish_hold}
use kernmini.Engine.Shell.{
  ShellControl, Shell, enqueue, drain_incoming, abort_pending, apply_control, drain_controls,
  finish_active, handle_item,
}

-- The end of the execution's task: not yet, with its result, or with a panic.
pub data Finish : Type 0 where
  running finished : Finish
  panicked : String → Finish

-- The branch of the `select!` that is taken. A closed channel gives no message.
pub data Wake : Type 0 where
  received : Option Inbound → Wake
  controlled : Option ShellControl → Wake
  executed : Option String → Wake
  timed_out : Wake

-- The loop goes on, or the shell has ended as it stands.
pub data Flow : Type 0 where
  again returned : Shell → Flow

-- What happens up to the end of a pass: what has come into the channels before it, and the two
-- parameters of the pass.
pub record Turn : Type 0 where
  pub arrived : List Inbound
  pub told : List ShellControl
  pub finish : Finish
  pub wake : Wake

unfoldable pub arrive : Turn → Shell → Shell
arrive turn shell = record shell {
  incoming = shell.incoming ++ turn.arrived;
  controls = shell.controls ++ turn.told;
}

abbrev pub follow : (Shell → M Flow) → Flow → M Flow
follow next (again after) = next after
follow next (returned last) = pure (returned last)

module _ (s : Services) where
  unfoldable pub collect : Finish → Shell → M Shell
  unfolding finish_active
  collect running shell = pure shell
  collect finished shell = finish_active s shell.active none shell
  collect (panicked text) shell = finish_active s shell.active (some text) shell

  unfoldable pub settle : Shell → Shell
  settle shell = record shell { interrupting = shell.interrupting && is_some shell.active }

  abbrev pub is_idle : Shell → Bool
  is_idle shell =
      not (is_some shell.active)
      && not (is_some shell.held)
      && (elim shell.queue [ [] ↦ true | _ ∷ _ ↦ false ])

  unfoldable pub end_shell : Shell → M Flow
  end_shell shell = do answer ← call s.language.shutdown; lift answer; pure (returned shell)

  unfoldable pub expire_hold : Option Held → Shell → M Shell
  unfolding abort_pending
  expire_hold none shell = pure shell
  expire_hold (some held) shell = do
    finish_hold s shell.execution_count held.item "timeout"
    abort_pending s (record shell { held = none })

  unfoldable pub wait : Wake → Shell → M Shell
  unfolding enqueue apply_control finish_active expire_hold
  wait (received none) shell = lift (err (closed_error "shell service"))
  wait (received (some inbound)) shell = pure (enqueue shell inbound)
  wait (controlled none) shell = lift (err (closed_error "shell control"))
  wait (controlled (some control)) shell = do
    (after, answer) ← apply_control s shell control
    pure after
  wait (executed panic) shell = finish_active s shell.active panic shell
  wait timed_out shell = expire_hold shell.held shell

  -- What the pass does with the item that may run, if there is one.
  unfoldable pub proceed : Option QueueItem → Wake → Shell → M Flow
  unfolding handle_item end_shell wait
  proceed none wake shell = do after ← wait wake shell; pure (again after)
  proceed (some item) wake shell = do
    (after, ended) ← handle_item s shell item
    if ended then end_shell after else pure (again after)

  -- The first half of a pass: the channels, the running execution, the interrupt.
  unfoldable pub prepare : Finish → Shell → M Shell
  unfolding drain_incoming drain_controls collect settle
  prepare finish shell = do
    told ← drain_controls s (drain_incoming shell)
    done ← collect finish told
    pure (settle done)

  -- The second half: the end of a stopped shell, or the item that may run, or a wait.
  unfoldable pub step : Wake → Shell → M Flow
  unfolding pop_runnable proceed
  step wake ready =
      if ready.stopping && is_idle ready
      then end_shell ready
      else let (item, rest) = pop_runnable ready.queue (is_some ready.active) ready.held in
        proceed item wake (record ready { queue = rest })

  unfoldable pub pass : Finish → Wake → Shell → M Flow
  unfolding prepare step
  pass finish wake shell = do ready ← prepare finish shell; step wake ready

  -- The loop for as many turns as are given.
  unfoldable pub run : List Turn → Shell → M Flow
  unfolding pass arrive
  run [] shell = pure (again shell)
  run (turn ∷ turns) shell = do
    flow ← pass turn.finish turn.wake (arrive turn shell)
    follow (λ after. run turns after) flow
