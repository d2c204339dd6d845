-- ===== src/Engine/Balance/Controls.antt =====
-- The balance of an execute request through the controls of the shell and the end of an execution in
-- src/engine.rs.
use kernmini.Prelude.{
  ℕ, ◌+◌, ◌≡◌, refl, ap, subst, String, string_eq, Bool, true, false, List, [], ◌∷◌, Option, none,
  some, ◌==◌, arith, if◌then◌else◌,
}
use kernmini.Wire.{msg_id}
use kernmini.Engine.Queue.{QueueItem, Held, is_execute, extend}
use kernmini.Engine.Effects.{Services, ◌>>=◌, pure}
use kernmini.Engine.Execute.{ExecutionDone}
use kernmini.Engine.Shell.{
  ActiveExecution, Shell, ShellControl, release, interrupt, stop, abort_queue, abort_pending,
  apply_release, interrupt_active, release_held, apply_control, execution_done, apply_all,
  drain_controls, drain_incoming, finish_active,
}
use kernmini.Engine.Answers.{asks, IsWritable, Adds, Adds-pure, Adds-call, Adds-lift, Adds-first}
use kernmini.Engine.Answers.Handlers.{Sure-abort_execute, Sure-finish_hold}
use kernmini.Engine.Answers.Executions.{Adds-run_execution}
use kernmini.Engine.Answers.Others.{asks_of_no_execute}
use kernmini.Engine.Balance.{
  waiting, queued, held_asks, active_asks, pending, Keeps, Keeps-pure, Keeps-fail, Keeps-frame,
  Keeps-at, Keeps-if, Keeps-bind, Keeps-then,
}
use kernmini.Engine.Balance.Queues.{pending-drain_incoming, queued-extend}

module _ (s : Services) (writable : IsWritable s) {k : String} where
  Adds-release_held :
      (count : ℕ) (held : Option Held) (text : String)
      → Adds k (held_asks k held) (release_held s count held text)
  unfolding release_held
  Adds-release_held count none text = Adds-pure _
  Adds-release_held count (some held) text =
      Adds-first _ _ (Sure-finish_hold s writable count held.item text) λ _. Adds-pure _

module _ (s : Services) (writable : IsWritable s) {k : String} {L : Type 0} where
  Keeps-abort_queue :
      (count : ℕ) (q : List QueueItem) → Keeps k L (queued k) (queued k q) (abort_queue s count q)
  unfolding abort_queue
  Keeps-abort_queue count [] = Keeps-pure 0 [] (omega arith) (λ _. refl)
  Keeps-abort_queue count (item ∷ q) =
      Keeps-if _ (is_execute item.inbound) _ _
        (λ _.
          Keeps-then (queued k q) (asks k item.inbound.message) _ _
            (Sure-abort_execute s writable count item.inbound).adds (omega arith)
            λ _. Keeps-abort_queue count q)
        (λ h.
          subst (λ n. Keeps k L (queued k) n (abort_queue s count q >>= λ keep. pure (item ∷ keep)))
            (omega (arith, asks_of_no_execute k item.inbound h))
            (Keeps-bind _ _ (Keeps-abort_queue count q) λ keep.
              Keeps-pure _ (item ∷ keep) (omega (arith, asks_of_no_execute k item.inbound h))
                (λ _. omega (arith, asks_of_no_execute k item.inbound h))))

  Keeps-abort_drained :
      (shell : Shell)
      → Keeps k L (pending k) (pending k shell) (
          abort_queue s shell.execution_count shell.queue >>= λ keep.
          pure (record shell { queue = extend [] keep }))
  Keeps-abort_drained shell =
      let others = waiting k shell.incoming + held_asks k shell.held + active_asks k shell.active in
      Keeps-at (omega arith) (
        Keeps-bind _ _ (Keeps-frame others (Keeps-abort_queue shell.execution_count shell.queue))
          λ keep.
            Keeps-pure _ _ (omega (arith, queued-extend k [] keep))
              (λ _. omega (arith, queued-extend k [] keep)))

  -- With `abort_pending` every execution it takes is answered, and the rest stays.
  pub Keeps-abort_pending :
      (shell : Shell) → Keeps k L (pending k) (pending k shell) (abort_pending s shell)
  unfolding abort_pending
  Keeps-abort_pending shell =
      Keeps-at (pending-drain_incoming k shell) (Keeps-abort_drained (drain_incoming shell))

  Keeps-settle :
      (failed : Bool) (shell : Shell)
      → Keeps k L
          (pending k)
          (pending k shell)
          (if failed then abort_pending s shell else pure shell)
  Keeps-settle true shell = Keeps-abort_pending shell
  Keeps-settle false shell = Keeps-pure _ _ (omega arith) (λ _. refl)

  Keeps-apply_release :
      (held : Option Held) (shell : Shell) (id text : String)
      → shell.held ≡ held
      → Keeps k L (λ r. pending k r.0) (pending k shell) (apply_release s held shell id text)
  unfolding apply_release
  Keeps-apply_release none shell id text h = Keeps-pure _ _ (omega arith) (λ _. refl)
  Keeps-apply_release (some held) shell id text h =
      Keeps-if _ (msg_id held.item.inbound.message == id) _ _
        (λ _.
          Keeps-then (pending k (record shell { held = none })) (asks k held.item.inbound.message) _
            _ (Sure-finish_hold s writable shell.execution_count held.item text).adds
            (omega (arith, ap (held_asks k) h))
            λ failed.
              Keeps-bind _ _ (Keeps-settle failed (record shell { held = none }))
                λ settled. Keeps-pure _ _ (omega arith) (λ _. refl))
        (λ _. Keeps-pure _ _ (omega arith) (λ _. refl))

  Keeps-interrupt_active :
      (active : Option ActiveExecution)
      → Keeps k L (active_asks k) (active_asks k active) (interrupt_active s active)
  unfolding interrupt_active
  Keeps-interrupt_active none = Keeps-pure _ _ (omega arith) (λ _. refl)
  Keeps-interrupt_active (some active) =
      Keeps-then (asks k active.inbound.message) 0 _ _ (Adds-call s.language.interrupt)
        (omega arith)
        λ answer.
          Keeps-then (asks k active.inbound.message) 0 _ _ (Adds-lift answer) (omega arith) λ _.
            Keeps-pure _ (some (record active { interrupted = true })) (omega arith) (λ _. refl)

  pub Keeps-apply_control :
      (shell : Shell) (c : ShellControl)
      → Keeps k L (λ r. pending k r.0) (pending k shell) (apply_control s shell c)
  unfolding apply_control
  Keeps-apply_control shell (release id text) =
      Keeps-bind _ _ (Keeps-apply_release shell.held shell id text refl)
        λ (settled, found). Keeps-pure _ _ (omega arith) (λ _. refl)
  Keeps-apply_control shell interrupt =
      let rest = waiting k shell.incoming + queued k shell.queue + held_asks k shell.held in
      Keeps-at (omega arith) (
        Keeps-bind _ _ (Keeps-frame rest (Keeps-interrupt_active shell.active)) λ active.
          Keeps-then (active_asks k active + waiting k shell.incoming + queued k shell.queue)
            (held_asks k shell.held) _ _
            (Adds-release_held s writable shell.execution_count shell.held "interrupt")
            (omega arith)
            λ _. Keeps-at (omega arith) (
              Keeps-bind _ _
                (Keeps-abort_pending
                  (record shell { interrupting = true; active = active; held = none }))
                λ settled. Keeps-pure _ _ (omega arith) (λ _. refl)))
  Keeps-apply_control shell stop = Keeps-pure _ _ (omega arith) (λ _. refl)

  Keeps-apply_all :
      (l : List ShellControl) (shell : Shell)
      → Keeps k L (pending k) (pending k shell) (apply_all s l shell)
  unfolding apply_all
  Keeps-apply_all [] shell = Keeps-pure _ _ (omega arith) (λ _. refl)
  Keeps-apply_all (c ∷ l) shell =
      Keeps-bind _ _ (Keeps-apply_control shell c) λ (after, answer). Keeps-apply_all l after

  pub Keeps-drain_controls :
      (shell : Shell) → Keeps k L (pending k) (pending k shell) (drain_controls s shell)
  unfolding drain_controls
  Keeps-drain_controls shell = Keeps-apply_all shell.controls (record shell { controls = [] })

  Keeps-execution_done :
      (shell : Shell) (done : ExecutionDone)
      → Keeps k L
          (pending k)
          (pending k (record shell { active = none }))
          (execution_done s shell done)
  unfolding execution_done
  Keeps-execution_done shell done = Keeps-settle _ (record shell { active = none })

  -- The running execution ends with its one answer.
  pub Keeps-finish_active :
      (active : Option ActiveExecution) (panic : Option String) (shell : Shell)
      → shell.active ≡ active
      → Keeps k L (pending k) (pending k shell) (finish_active s active panic shell)
  unfolding finish_active
  Keeps-finish_active none panic shell h = Keeps-pure _ _ (omega arith) (λ _. refl)
  Keeps-finish_active (some active) (some text) shell h = Keeps-fail _ _
  Keeps-finish_active (some active) none shell h =
      Keeps-then (pending k (record shell { active = none })) (asks k active.inbound.message) _ _
        (Adds-run_execution s writable active.inbound active.execution active.execution_count
          active.interrupted)
        (omega (arith, ap (active_asks k) h)) λ done. Keeps-execution_done shell done
