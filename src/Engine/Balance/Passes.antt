-- ===== src/Engine/Balance/Passes.antt =====
-- The balance of an execute request through the loop of `Shell::run` in src/engine.rs.
use kernmini.Prelude.{
  ℕ, ◌+◌, ◌≤◌, ◌≡◌, refl, ap, String, Bool, true, false, ◌&&◌, List, [], ◌∷◌, Option, none, some,
  count_if-append, arith, if◌then◌else◌, is_some,
}
use kernmini.Engine.Queue.{QueueItem, Held, is_execute, pop_runnable}
use kernmini.Engine.Effects.{Services, M}
use kernmini.Engine.Shell.{Shell, drain_incoming, enqueue}
use kernmini.Engine.Run.{
  Finish, running, finished, panicked, Wake, received, controlled, executed, timed_out, Flow, again,
  returned, Turn, arrive, collect, settle, is_idle, end_shell, expire_hold, wait, proceed, prepare,
  step, pass, follow, run,
}
use kernmini.Engine.Answers.{is_ask, asks, IsWritable, Adds-call, Adds-lift}
use kernmini.Engine.Answers.Handlers.{Sure-finish_hold}
use kernmini.Engine.Balance.{
  waiting, held_asks, pending, Keeps, Keeps-pure, Keeps-fail, Keeps-frame, Keeps-weaken,
  Keeps-loosen, Keeps-at, Keeps-if, Keeps-bind, Keeps-then,
}
use kernmini.Engine.Balance.Queues.{
  pending-drain_incoming, pending-enqueue, taken, queued-pop_runnable, pop_runnable-IsAbove,
}
use kernmini.Engine.Balance.Controls.{
  Keeps-abort_pending, Keeps-apply_control, Keeps-drain_controls, Keeps-finish_active,
}
use kernmini.Engine.Balance.Shells.{overtakes, Keeps-handle_item}

-- The shell that a pass leaves.
abbrev pub left : Flow → Shell
left (again shell) = shell
left (returned shell) = shell

-- The request that a wait may receive.
abbrev pub incoming_asks : String → Wake → ℕ
incoming_asks k (received (some i)) = asks k i.message
incoming_asks k _ = 0

abbrev pub arrivals : String → List Turn → ℕ
arrivals k [] = 0
arrivals k (turn ∷ turns) = waiting k turn.arrived + incoming_asks k turn.wake + arrivals k turns

module _ (s : Services) (writable : IsWritable s) {k : String} {L : Type 0} where
  Keeps-collect :
      (finish : Finish) (shell : Shell)
      → Keeps k L (pending k) (pending k shell) (collect s finish shell)
  unfolding collect
  Keeps-collect running shell = Keeps-pure _ shell (omega arith) (λ _. refl)
  Keeps-collect finished shell = Keeps-finish_active s writable shell.active none shell refl
  Keeps-collect (panicked text) shell =
      Keeps-finish_active s writable shell.active (some text) shell refl

  pub Keeps-prepare :
      (finish : Finish) (shell : Shell)
      → Keeps k L (pending k) (pending k shell) (prepare s finish shell)
  unfolding prepare settle
  Keeps-prepare finish shell = Keeps-at (pending-drain_incoming k shell) (
      Keeps-bind _ _ (Keeps-drain_controls s writable (drain_incoming shell)) λ told.
        Keeps-bind _ _ (Keeps-collect finish told)
          λ done. Keeps-pure _ (settle s done) (omega arith) (λ _. refl))

  Keeps-end_shell :
      (shell : Shell)
      → Keeps k L (λ flow. pending k (left flow)) (pending k shell) (end_shell s shell)
  unfolding end_shell
  Keeps-end_shell shell =
      Keeps-then (pending k shell) 0 _ _ (Adds-call s.language.shutdown) (omega arith) λ answer.
        Keeps-then (pending k shell) 0 _ _ (Adds-lift answer) (omega arith)
          λ _. Keeps-pure _ (returned shell) (omega arith) (λ _. refl)

  Keeps-expire_hold :
      (held : Option Held) (shell : Shell)
      → shell.held ≡ held
      → Keeps k L (pending k) (pending k shell) (expire_hold s held shell)
  unfolding expire_hold
  Keeps-expire_hold none shell h = Keeps-pure _ shell (omega arith) (λ _. refl)
  Keeps-expire_hold (some held) shell h =
      Keeps-then (pending k (record shell { held = none })) (asks k held.item.inbound.message) _ _
        (Sure-finish_hold s writable shell.execution_count held.item "timeout").adds
        (omega (arith, ap (held_asks k) h))
        λ _. Keeps-abort_pending s writable (record shell { held = none })

  Keeps-wait :
      (wake : Wake) (shell : Shell)
      → Keeps k L (pending k) (pending k shell + incoming_asks k wake) (wait s wake shell)
  unfolding wait
  Keeps-wait (received none) shell = Keeps-fail _ _
  Keeps-wait (received (some i)) shell =
      Keeps-pure _ (enqueue shell i) (omega (arith, pending-enqueue k shell i))
        (λ _. pending-enqueue k shell i)
  Keeps-wait (controlled none) shell = Keeps-fail _ _
  Keeps-wait (controlled (some c)) shell = Keeps-at (omega arith) (
      Keeps-bind _ _ (Keeps-apply_control s writable shell c)
        λ (after, answer). Keeps-pure _ after (omega arith) (λ _. refl))
  Keeps-wait (executed panic) shell =
      Keeps-at (omega arith) (Keeps-finish_active s writable shell.active panic shell refl)
  Keeps-wait timed_out shell = Keeps-at (omega arith) (Keeps-expire_hold shell.held shell refl)

-- A wait happens only where no item may run.
abbrev pub received_asks : String → Option QueueItem → Wake → ℕ
received_asks k none wake = incoming_asks k wake
received_asks k (some item) wake = 0

-- Whether the item, if there is one, takes the place of a held request.
abbrev pub may_overtake : Shell → Option QueueItem → Bool
may_overtake shell none = false
may_overtake shell (some item) = overtakes shell item

not_active {ℓ} : {A : Type ℓ} (o : Option A) → is_some o ≡ false → o ≡ none
not_active none h = refl
not_active (some a) h = absurd (cc)

-- The item that the second half of a pass takes up.
abbrev pub next_item : Shell → Option QueueItem
next_item ready = (pop_runnable ready.queue (is_some ready.active) ready.held).0

-- Whether it is a hold that takes the place of a held request.
abbrev pub overtaken : Shell → Bool
overtaken ready = may_overtake ready (next_item ready)

-- The request that the second half of a pass receives.
abbrev pub taken_in : Services → String → Shell → Wake → ℕ
taken_in s k ready wake =
    if ready.stopping && is_idle s ready then 0 else received_asks k (next_item ready) wake

module _ (s : Services) (writable : IsWritable s) {k : String} where
  Keeps-proceed :
      (item : Option QueueItem) (wake : Wake) (shell : Shell)
      → ((x : QueueItem) → item ≡ some x → is_execute x.inbound ≡ true → shell.active ≡ none)
      → Keeps k
          (may_overtake shell item ≡ false)
          (λ flow. pending k (left flow))
          (pending k shell + taken k item + received_asks k item wake)
          (proceed s item wake shell)
  unfolding proceed
  Keeps-proceed none wake shell idle = Keeps-at (omega arith) (
      Keeps-bind _ _ (Keeps-wait s writable wake shell)
        λ after. Keeps-pure _ (again after) (omega arith) (λ _. refl))
  Keeps-proceed (some item) wake shell idle = Keeps-at (omega arith) (
      Keeps-bind _ _ (Keeps-handle_item s writable shell item (idle item refl)) λ (after, ended).
        Keeps-if _ ended _ _ (λ _. Keeps-end_shell s writable after)
          (λ _. Keeps-pure _ (again after) (omega arith) (λ _. refl)))

  pub Keeps-step :
      (wake : Wake) (ready : Shell)
      → Keeps k
          (overtaken ready ≡ false)
          (λ flow. pending k (left flow))
          (pending k ready + taken_in s k ready wake)
          (step s wake ready)
  unfolding step
  Keeps-step wake ready =
      let stopped = ready.stopping && is_idle s ready in
      let (item, rest) = pop_runnable ready.queue (is_some ready.active) ready.held in
      let total = queued-pop_runnable k ready.queue (is_some ready.active) ready.held in
      Keeps-if _ stopped _ _ (λ e. Keeps-at (rw e (omega arith)) (Keeps-end_shell s writable ready))
        (λ e. Keeps-at (rw e (omega (arith, total))) (
          Keeps-proceed item wake (record ready { queue = rest })
            λ x h ex.
              not_active ready.active
                (pop_runnable-IsAbove ready.queue (is_some ready.active) ready.held x h ex).0))

received_most :
    (k : String) (item : Option QueueItem) (wake : Wake)
    → received_asks k item wake ≤ incoming_asks k wake
received_most k none wake = omega arith
received_most k (some item) wake = omega arith

taken_in_most :
    (s : Services) (k : String) (ready : Shell) (wake : Wake)
    → taken_in s k ready wake ≤ incoming_asks k wake
taken_in_most s k ready wake = ground (arith, received_most k (next_item ready) wake)

pending-arrive :
    (k : String) (turn : Turn) (shell : Shell)
    → pending k (arrive turn shell) ≡ pending k shell + waiting k turn.arrived
unfolding arrive
pending-arrive k turn shell =
    omega (arith, count_if-append (λ i. is_ask k i.message) shell.incoming turn.arrived)

module _ (s : Services) (writable : IsWritable s) {k : String} where
  Keeps-follow :
      (c : ℕ) (next : Shell → M Flow)
      → ((after : Shell)
          → Keeps k ⊥ (λ flow. pending k (left flow)) (pending k after + c) (next after))
      → (flow : Flow)
      → Keeps k ⊥ (λ f. pending k (left f)) (pending k (left flow) + c) (follow next flow)
  Keeps-follow c next g (again after) = g after
  Keeps-follow c next g (returned last) =
      Keeps-pure _ (returned last) (omega arith) (λ l. elim l [ ])

  Keeps-pass :
      (finish : Finish) (wake : Wake) (shell : Shell)
      → Keeps k ⊥
          (λ flow. pending k (left flow))
          (pending k shell + incoming_asks k wake)
          (pass s finish wake shell)
  unfolding pass
  Keeps-pass finish wake shell =
      Keeps-bind _ _ (Keeps-frame (incoming_asks k wake) (Keeps-prepare s writable finish shell))
        λ ready.
          Keeps-loosen _ _ (omega (arith, taken_in_most s k ready wake)) (λ l. elim l [ ])
            (Keeps-weaken (λ l. elim l [ ]) (Keeps-step s writable wake ready))

  pub Keeps-run :
      (turns : List Turn) (shell : Shell)
      → Keeps k ⊥
          (λ flow. pending k (left flow))
          (pending k shell + arrivals k turns)
          (run s turns shell)
  unfolding run
  Keeps-run [] shell = Keeps-pure _ (again shell) (omega arith) (λ l. elim l [ ])
  Keeps-run (turn ∷ turns) shell = Keeps-at (omega (arith, pending-arrive k turn shell)) (
      Keeps-bind _ _
        (Keeps-frame (arrivals k turns) (Keeps-pass turn.finish turn.wake (arrive turn shell)))
        λ flow.
          Keeps-follow (arrivals k turns) (λ after. run s turns after)
            (λ after. Keeps-run turns after) flow)
