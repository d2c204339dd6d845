-- ===== src/Engine/Run/Interrupts.antt =====
-- How long an interrupt lasts in the loop of `Shell::run` in src/engine.rs.
use kernmini.Prelude.{◌≡◌, true, false, none, some, is_some, arith, Bool-cases, inl, inr}
use kernmini.Errors.{ok}
use kernmini.Engine.Queue.{QueueItem, is_execute}
use kernmini.Engine.Effects.{World, Services}
use kernmini.Engine.Shell.{Shell, drain_incoming, drain_controls}
use kernmini.Engine.Shell.Ordered.{Leads, Leads-pure, Leads-after}
use kernmini.Engine.Run.{Finish, collect, settle, prepare}
use kernmini.Engine.Balance.Queues.{pop_runnable-IsAbove}
use kernmini.Engine.Balance.Passes.{next_item}

-- An interrupt lasts only while an execution is active.
abbrev IsSettled : Shell → Type 0
IsSettled shell = shell.interrupting ≡ true → is_some shell.active ≡ true

settle-IsSettled : (s : Services) (shell : Shell) → IsSettled (settle s shell)
unfolding settle
settle-IsSettled s shell h = ground arith

Leads-IsSettled :
    (s : Services) (finish : Finish) (shell : Shell) → Leads IsSettled (prepare s finish shell)
unfolding prepare
Leads-IsSettled s finish shell = Leads-after (drain_controls s (drain_incoming shell)) _ λ told.
    Leads-after (collect s finish told) _
      λ done. Leads-pure (settle s done) (settle-IsSettled s done)

-- Where a pass takes up an execution, the shell is not interrupting any more, and no other execution
-- is active.
pub next_item-uninterrupted :
    (s : Services) (finish : Finish) (shell ready : Shell) (item : QueueItem) (w : World)
    → (prepare s finish shell w).0 ≡ ok ready
    → next_item ready ≡ some item
    → is_execute item.inbound ≡ true
    → (ready.interrupting ≡ false) × (ready.active ≡ none)
next_item-uninterrupted s finish shell ready item w p n e =
    let settled = (Leads-IsSettled s finish shell).at w ready p in
    let idle = (pop_runnable-IsAbove ready.queue (is_some ready.active) ready.held item n e).0 in
    elim (Bool-cases ready.interrupting) [
      | inl i ↦ absurd (ground (arith, settled i, idle))
      | inr i ↦ (i, ground (arith, idle))
    ]
