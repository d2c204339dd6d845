-- ===== src/Python/Carriers.antt =====
-- The order in which the operations of src/py/src/python.rs run on the shared state: the engine requests,
-- a thread delivers, the event loop cancels, the interpreter runs the signal handler, and user code
-- comes and goes. `Step` says what may happen next, for an execution without the hook. A request is one
-- step, and its `pthread_kill` succeeds.
use kernmini.Prelude.{
  ℕ, suc, ◌+◌, ◌-◌, ◌≤◌, ◌<◌, ◌≡◌, refl, Bool, true, false, List, [], ◌∷◌, Option, none, ltb,
  is_some, filter_option, arith,
}
use kernmini.Errors.{ok}
use kernmini.Python.UserCode.{
  default_code, mark, Interrupts, Effect, spawned_delivery, injected, scheduled_cancel,
  cancelled_task, raised, signals, request, deliver, cancel, started, enter, exit, handle_sigint,
}

-- What the effects add: deliveries to run, cancellations to run, and interrupts that were delivered.
abbrev pub spawns : List Effect → ℕ
spawns [] = 0
spawns (spawned_delivery ∷ l) = suc (spawns l)
spawns (_ ∷ l) = spawns l

abbrev pub schedules : List Effect → ℕ
schedules [] = 0
schedules (scheduled_cancel ∷ l) = suc (schedules l)
schedules (_ ∷ l) = schedules l

abbrev pub takes : List Effect → ℕ
takes [] = 0
takes (injected _ ∷ l) = suc (takes l)
takes (cancelled_task ∷ l) = suc (takes l)
takes (raised ∷ l) = suc (takes l)
takes (_ ∷ l) = takes l

-- `deliveries` and `cancels` are those of the current execution that have still to run; `finished`
-- says that its task is done.
pub record State : Type 0 where
  pub shared : Interrupts
  pub finished : Bool
  pub deliveries : ℕ
  pub cancels : ℕ
  pub requests : ℕ
  pub taken : ℕ

-- The state after an operation with these effects.
abbrev pub absorb : State → Interrupts → List Effect → State
absorb s i effects = record s {
  shared = i;
  deliveries = s.deliveries + spawns effects;
  cancels = s.cancels + schedules effects;
  taken = s.taken + takes effects;
}

module _ (unix : Bool) (main_thread : Option ℕ) where
  abbrev pub on_request : State → State
  on_request s =
      let (i, effects, _) = request unix main_thread false none s.shared in
      record (absorb s i effects) { requests = s.requests + 1 }

  -- An exception is set in at most one thread, since a thread's number is its own.
  abbrev pub on_delivery : ℕ → State → State
  on_delivery changed s =
      let (i, effects, _) = deliver unix main_thread false (ok tt) changed s.shared in
      record (absorb s i effects) { deliveries = s.deliveries - 1 }

  -- The delivery of an earlier execution, whose task is done.
  abbrev pub on_late_delivery : ℕ → State → State
  on_late_delivery changed s =
      let (i, effects, _) = deliver unix main_thread false (ok tt) changed s.shared in
      record s { shared = i; taken = s.taken + takes effects }

abbrev pub on_cancel : State → State
on_cancel s =
    let (i, effects, _) = cancel s.finished s.shared in
    record (absorb s i effects) { cancels = s.cancels - 1 }

abbrev pub on_enter : ℕ → State → State
on_enter thread s = let (i, effects, _) = enter thread s.shared in absorb s i effects

abbrev pub on_exit : State → State
on_exit s = let (i, effects) = exit s.shared in absorb s i effects

abbrev pub on_sigint : State → State
on_sigint s = let (i, effects, _) = handle_sigint s.shared in absorb s i effects

abbrev pub on_start : State → State
on_start s = record s { shared = started s.shared; finished = false; deliveries = 0; cancels = 0 }

-- The interpreter handles a signal that was sent to its main thread before the event loop's next
-- callback, so a cancellation runs only when no SIGINT is on its way.
pub data Step (unix : Bool) (main_thread : Option ℕ) (s : State) : State → Type 0 where
  requesting : Step unix main_thread s (on_request unix main_thread s)
  delivering :
      (changed : ℕ)
      → 0 < s.deliveries
      → changed ≤ 1
      → Step unix main_thread s (on_delivery unix main_thread changed s)
  delivering_late :
      (changed : ℕ)
      → changed ≤ 1
      → Step unix main_thread s (on_late_delivery unix main_thread changed s)
  cancelling : 0 < s.cancels → s.shared.code.woken ≡ false → Step unix main_thread s (on_cancel s)
  entering : (thread : ℕ) → Step unix main_thread s (on_enter thread s)
  exiting : 0 < s.shared.code.depth → Step unix main_thread s (on_exit s)
  signalled : Step unix main_thread s (on_sigint s)
  finishing : Step unix main_thread s (record s { finished = true })
  starting : Step unix main_thread s (on_start s)

abbrev pub initial : State
initial = record {
  shared = record { code = default_code; interrupted = false };
  finished = false;
  deliveries = 0;
  cancels = 0;
  requests = 0;
  taken = 0;
}

pub data Reach (unix : Bool) (main_thread : Option ℕ) : State → Type 0 where
  here : Reach unix main_thread initial
  next :
      {s t : State}
      → Reach unix main_thread s
      → Step unix main_thread s t
      → Reach unix main_thread t

abbrev pub as_number : Bool → ℕ
as_number true = 1
as_number false = 0

-- What a pending interrupt has to carry it on, unless its task is done.
pub record IsCarried (unix : Bool) (main_thread : Option ℕ) (s : State) : Type 0 where
  pub nested : is_some s.shared.code.thread ≡ ltb 0 s.shared.code.depth
  pub counted : s.taken + as_number s.shared.code.pending ≤ s.requests
  pub carried : s.shared.code.pending ≡ true → 0 < s.deliveries + s.cancels + as_number s.finished
  pub on_main :
      s.shared.code.pending ≡ true
      → is_some (filter_option (signals unix main_thread) s.shared.code.thread) ≡ true
      → s.shared.code.woken ≡ true
  pub off_main :
      s.shared.code.pending ≡ true
      → is_some s.shared.code.thread ≡ true
      → is_some (filter_option (signals unix main_thread) s.shared.code.thread) ≡ false
      → 0 < s.deliveries

module _ (unix : Bool) (main_thread : Option ℕ) where
  Step-IsCarried :
      {s t : State}
      → Step unix main_thread s t
      → IsCarried unix main_thread s
      → IsCarried unix main_thread t
  unfolding request deliver cancel started enter exit handle_sigint mark
  Step-IsCarried requesting c = ground arith
  Step-IsCarried (delivering changed some_left one) c = ground arith
  Step-IsCarried (delivering_late changed one) c = ground arith
  Step-IsCarried (cancelling some_left quiet) c = ground arith
  Step-IsCarried (entering thread) c = ground arith
  Step-IsCarried (exiting inside) c = ground arith
  Step-IsCarried signalled c = ground arith
  Step-IsCarried finishing c = ground arith
  Step-IsCarried starting c = ground arith

  -- In every state that is reached, user code has a thread exactly while it is nested, and an interrupt
  -- is delivered at most as often as one was requested. While one is pending, a delivery or a
  -- cancellation is still to come unless the task is done, the SIGINT that wakes the main thread is on
  -- its way where user code runs there, and a delivery is still to come where it runs on another
  -- thread.
  pub Reach-IsCarried : {s : State} → Reach unix main_thread s → IsCarried unix main_thread s
  Reach-IsCarried here = record {
    nested = refl;
    counted = omega arith;
    carried = λ p. absurd (cc);
    on_main = λ p. absurd (cc);
    off_main = λ p. absurd (cc);
  }
  Reach-IsCarried (next r step) = Step-IsCarried step (Reach-IsCarried r)
