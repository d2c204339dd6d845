-- ===== src/Engine/Balance/Shells.antt =====
-- The balance of an execute request where the shell of src/engine.rs handles an item.
use kernmini.Prelude.{
  ◌+◌, ◌≡◌, refl, ap, String, string_eq, Bool, true, false, ◌&&◌, List, [], ◌∷◌, Option, none, some,
  arith, is_some,
}
use kernmini.Engine.Queue.{QueueItem, Held, is_execute}
use kernmini.Engine.Effects.{Services}
use kernmini.Engine.Replies.{missing_fields}
use kernmini.Engine.Shell.{
  Shell, is_hold, start_execution, handle_ready, handle_checked, handle_execute, handle_item,
}
use kernmini.Engine.Answers.{asks, IsWritable, Adds-call}
use kernmini.Engine.Answers.Handlers.{Sure-interrupt_execute, Sure-reply_missing, Sure-begin_hold}
use kernmini.Engine.Answers.Others.{asks_of_no_execute, Adds-handle_other}
use kernmini.Engine.Balance.{
  held_asks, active_asks, pending, Keeps, Keeps-pure, Keeps-weaken, Keeps-if, Keeps-bind,
  Keeps-then,
}
use kernmini.Engine.Balance.Controls.{Keeps-abort_pending}

-- Whether the item is a hold that takes the place of a held request.
abbrev pub overtakes : Shell → QueueItem → Bool
overtakes shell item = is_execute item.inbound && (is_hold item.inbound && is_some shell.held)

no_held : (k : String) (held : Option Held) → is_some held ≡ false → held_asks k held ≡ 0
no_held k none h = refl
no_held k (some held) h = absurd (cc)

module _ (s : Services) (writable : IsWritable s) {k : String} where
  Keeps-handle_ready :
      (shell : Shell) (item : QueueItem)
      → shell.active ≡ none
      → Keeps k
          ((is_hold item.inbound && is_some shell.held) ≡ false)
          (pending k)
          (pending k shell + asks k item.inbound.message)
          (handle_ready s shell item)
  unfolding handle_ready
  Keeps-handle_ready shell item idle =
      Keeps-if _ (is_hold item.inbound) _ _
        (λ hold.
          Keeps-then (pending k shell + asks k item.inbound.message) 0 _ _
            (Sure-begin_hold s writable shell.execution_count item).adds (omega arith)
            λ _.
              Keeps-then (pending k shell + asks k item.inbound.message) 0 _ _ (Adds-call s.now)
                (omega arith)
                λ now.
                  Keeps-pure _
                    (record shell {
                      held = some (record { item = item; deadline = now + s.hold_timeout });
                    })
                    (omega arith) (λ free. omega (arith, no_held k shell.held (rw hold at free))))
        (λ _.
          Keeps-pure _ (start_execution s shell item.inbound)
            (omega (arith, ap (active_asks k) idle)) (λ _. omega (arith, ap (active_asks k) idle)))

  Keeps-handle_checked :
      (missing : List String) (shell : Shell) (item : QueueItem)
      → shell.active ≡ none
      → Keeps k
          ((is_hold item.inbound && is_some shell.held) ≡ false)
          (pending k)
          (pending k shell + asks k item.inbound.message)
          (handle_checked s missing shell item)
  unfolding handle_checked
  Keeps-handle_checked [] shell item idle = Keeps-handle_ready shell item idle
  Keeps-handle_checked (m ∷ ms) shell item idle =
      Keeps-then (pending k shell) (asks k item.inbound.message) _ _
        (Sure-reply_missing s writable shell.execution_count item.inbound.message item.inbound.reply
          (m ∷ ms)).adds
        refl λ _. Keeps-abort_pending s writable shell

  Keeps-handle_execute :
      (shell : Shell) (item : QueueItem)
      → shell.active ≡ none
      → Keeps k
          ((is_hold item.inbound && is_some shell.held) ≡ false)
          (pending k)
          (pending k shell + asks k item.inbound.message)
          (handle_execute s shell item)
  unfolding handle_execute
  Keeps-handle_execute shell item idle =
      Keeps-if _ shell.interrupting _ _
        (λ _.
          Keeps-then (pending k shell) (asks k item.inbound.message) _ _
            (Sure-interrupt_execute s writable shell.execution_count item.inbound).adds refl
            λ _. Keeps-pure _ shell (omega arith) (λ _. refl))
        (λ _. Keeps-handle_checked (missing_fields item.inbound.message) shell item idle)

  -- An item is answered, or it is kept: held, or running.
  pub Keeps-handle_item :
      (shell : Shell) (item : QueueItem)
      → (is_execute item.inbound ≡ true → shell.active ≡ none)
      → Keeps k
          (overtakes shell item ≡ false)
          (λ r. pending k r.0)
          (pending k shell + asks k item.inbound.message)
          (handle_item s shell item)
  unfolding handle_item
  Keeps-handle_item shell item idle =
      Keeps-if _ (is_execute item.inbound) _ _
        (λ e.
          Keeps-bind _ _
            (Keeps-weaken (λ free. rw e at free) (Keeps-handle_execute shell item (idle e)))
            λ after. Keeps-pure _ (after, false) (omega arith) (λ _. refl))
        (λ n.
          Keeps-then (pending k shell) 0 _ _
            (Adds-handle_other s writable item.inbound (asks_of_no_execute k item.inbound n) shell)
            (omega (arith, asks_of_no_execute k item.inbound n))
            λ ended. Keeps-pure _ (shell, ended) (omega arith) (λ _. refl))
