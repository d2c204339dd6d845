-- ===== src/Language/Interrupt.antt =====
-- `ExecutionInterrupt` of src/language.rs: the requests to interrupt an execution, and its handler. A
-- handler is a number; what its calls answer is a parameter.
use mathlib.Core.List.{append-nil, append_assoc}
use kernmini.Prelude.{
  zero, ℕ, suc, ◌≡◌, refl, sym, ap, ◌∙◌, Bool, true, false, not, List, [], ◌∷◌, ◌++◌, Option, none,
  some, length, if◌then◌else◌,
}
use kernmini.Errors.{Error, Result, ok, err, new, invalid_input, ◌>>=◌}

-- `called` are the handlers that have been called, in order.
pub record ExecutionInterrupt : Type 0 where
  pub requested : Bool
  pub handler : Option ℕ
  pub called : List ℕ

abbrev pub default_interrupt : ExecutionInterrupt
default_interrupt = record { requested = false; handler = none; called = [] }

-- A request, or the registration of a handler.
pub data Event : Type 0 where
  requesting : Event
  registering : ℕ → Event

module _ (answer : ℕ → Result Error (Unit {0})) where
  -- The call of a handler, whose answer is numbered by the calls before it.
  unfoldable pub invoke :
      ExecutionInterrupt → Option ℕ → ExecutionInterrupt × Result Error (Unit {0})
  invoke interrupt none = (interrupt, ok tt)
  invoke interrupt (some h) =
      (record interrupt { called = interrupt.called ++ h ∷ [] }, answer (length interrupt.called))

  -- `ExecutionInterrupt::request`: whether it was the first.
  unfoldable pub request : ExecutionInterrupt → ExecutionInterrupt × Result Error Bool
  unfolding invoke
  request interrupt =
      let (after, answered) = invoke (record interrupt { requested = true }) interrupt.handler in
      (after, answered >>= λ _. ok (not interrupt.requested))

  abbrev pub register :
      Option ℕ → ExecutionInterrupt → ℕ → ExecutionInterrupt × Result Error (Unit {0})
  register (some old) interrupt h =
      (interrupt, err (new invalid_input "execution interrupt handler already registered"))
  register none interrupt h =
      let registered = record interrupt { handler = some h } in
      if interrupt.requested then invoke registered (some h) else (registered, ok tt)

  -- `ExecutionInterrupt::set_handler`
  unfoldable pub set_handler : ExecutionInterrupt → ℕ → ExecutionInterrupt × Result Error (Unit {0})
  unfolding invoke
  set_handler interrupt h = register interrupt.handler interrupt h

  abbrev pub perform : Event → ExecutionInterrupt → ExecutionInterrupt
  perform requesting interrupt = (request interrupt).0
  perform (registering h) interrupt = (set_handler interrupt h).0

  abbrev pub perform_all : List Event → ExecutionInterrupt → ExecutionInterrupt
  perform_all [] interrupt = interrupt
  perform_all (e ∷ events) interrupt = perform_all events (perform e interrupt)

  perform_all-append :
      (xs ys : List Event) (interrupt : ExecutionInterrupt)
      → perform_all (xs ++ ys) interrupt ≡ perform_all ys (perform_all xs interrupt)
  perform_all-append [] ys interrupt = refl
  perform_all-append (e ∷ xs) ys interrupt = perform_all-append xs ys (perform e interrupt)

-- `n` requests in a row, and `n` calls of one handler.
abbrev pub requests : ℕ → List Event
requests zero = []
requests (suc n) = requesting ∷ requests n

abbrev pub repeat : ℕ → ℕ → List ℕ
repeat h zero = []
repeat h (suc n) = h ∷ repeat h n

-- How many of the events are requests.
abbrev pub count_requests : List Event → ℕ
count_requests [] = 0
count_requests (requesting ∷ events) = suc (count_requests events)
count_requests (registering h ∷ events) = count_requests events

module _ (answer : ℕ → Result Error (Unit {0})) where
  -- With a handler, every request calls it, and it stays.
  called_on :
      (events : List Event) (h : ℕ) (interrupt : ExecutionInterrupt)
      → interrupt.handler ≡ some h
      → (perform_all answer events interrupt).called
        ≡ interrupt.called ++ repeat h (count_requests events)
  unfolding request set_handler
  called_on [] h interrupt e = sym (append-nil interrupt.called)
  called_on (requesting ∷ events) h interrupt e =
      rw e (
        called_on events h
          (record interrupt {
            requested = true;
            handler = some h;
            called = interrupt.called ++ h ∷ [];
          })
          refl)
      ∙ append_assoc interrupt.called (h ∷ []) (repeat h (count_requests events))
  called_on (registering j ∷ events) h interrupt e =
      rw e (called_on events h (record interrupt { handler = some h }) refl)

  -- Without one, a request is only noted.
  noted :
      (n : ℕ) (interrupt : ExecutionInterrupt)
      → interrupt.handler ≡ none
      → perform_all answer (requests (suc n)) interrupt
        ≡ record interrupt { requested = true; handler = none }
  unfolding request
  noted zero interrupt e = rw e refl
  noted (suc n) interrupt e =
      rw e (noted n (record interrupt { requested = true; handler = none }) refl)

-- The call that requests before the registration are worth.
abbrev pub belated : ℕ → ℕ → List ℕ
belated zero h = []
belated (suc n) h = h ∷ []

-- From a new interrupt, every request calls the registered handler, those made before it was
-- registered call it once, and no later registration replaces it.
pub request-calls :
    (answer : ℕ → Result Error (Unit {0})) (n h : ℕ) (events : List Event)
    → (perform_all answer (requests n ++ registering h ∷ events) default_interrupt).called
      ≡ belated n h ++ repeat h (count_requests events)
unfolding set_handler
request-calls answer zero h events =
    called_on answer events h (record default_interrupt { handler = some h }) refl
request-calls answer (suc n) h events =
    let before = noted answer n default_interrupt refl in
    let split =
      perform_all-append answer (requests (suc n)) (registering h ∷ events) default_interrupt in
    ap (λ s. s.called) split
    ∙ (ap (λ s. (perform_all answer (registering h ∷ events) s).called) before
        ∙ called_on answer events h (record { requested = true; handler = some h; called = h ∷ [] })
            refl)
