-- ===== src/Python/UserCode.antt =====
-- The interrupts of an execution in src/py/src/python.rs: `UserCode`, `Delivery`, `DeferredCancel`, the
-- entry and exit of `ExecutionSink` and `SignalRouter`. A thread is its number. What an operation does
-- besides changing the shared state is a list of effects; what the system answers is an argument.
use kernmini.Prelude.{
  ℕ, ◌+◌, ◌-◌, String, Bool, true, false, not, ◌&&◌, ◌||◌, List, [], ◌∷◌, Option, none, some, ◌==◌,
  nat_eq, ltb, if◌then◌else◌, is_some, filter_option, map_or,
}
use kernmini.Errors.{Error, Result, ok, err}

pub record UserCode : Type 0 where
  pub thread : Option ℕ
  pub depth : ℕ
  pub pending : Bool
  pub woken : Bool

-- `UserCode::default`
abbrev pub default_code : UserCode
default_code = record { thread = none; depth = 0; pending = false; woken = false }

-- What `Interrupts` shares between an execution and its deliveries.
pub record Interrupts : Type 0 where
  pub code : UserCode
  pub interrupted : Bool

pub data Effect : Type 0 where
  sent_sigint : ℕ → Effect
  spawned_delivery : Effect
  called_hook : Effect
  injected : ℕ → Effect
  cleared : ℕ → Effect
  scheduled_cancel : Effect
  cancelled_task : Effect
  raised : Effect
  interrupted_kernel : Effect

-- What a Python call raises: the exceptions that the adapter tells apart, and others by their text.
pub data Exception : Type 0 where
  keyboard_interrupt cancelled_error runtime_error other : String → Exception

-- The state after an operation, its effects in order, and its result.
abbrev pub Done {ℓ} : Type ℓ → Type ℓ
Done E = Interrupts × List Effect × Result E (Unit {0})

-- `cfg!(unix)` and `MAIN_THREAD`
module _ (unix : Bool) (main_thread : Option ℕ) where
  unfoldable pub signals : ℕ → Bool
  signals thread = unix && map_or false (λ m. m == thread) main_thread

  -- `lock(&code)` in `Delivery::request`
  unfoldable pub mark : UserCode → UserCode
  unfolding signals
  mark code = record code {
    pending = true;
    woken = code.woken || is_some (filter_option signals code.thread);
  }

  -- `pthread_kill`, which answers with an error or not, and the delivery's thread
  abbrev pub wake : Option ℕ → Option Error → Interrupts → Done Error
  wake none failed after = (after, spawned_delivery ∷ [], ok tt)
  wake (some thread) none after = (after, sent_sigint thread ∷ spawned_delivery ∷ [], ok tt)
  wake (some thread) (some e) after = (after, [], err e)

  -- `Delivery::request`
  unfoldable pub request : Bool → Option Error → Interrupts → Done Error
  unfolding mark signals
  request hook failed i =
      let noted = record i { interrupted = true } in
      if hook
      then (noted, spawned_delivery ∷ [], ok tt)
      else wake (filter_option signals i.code.thread) failed (record noted { code = mark i.code })

  -- The thread that gets the exception, whose interrupt is then not pending any more.
  abbrev pub injectable : Option ℕ → Bool → Option ℕ
  injectable none pending = none
  injectable (some thread) pending = if pending && not (signals thread) then some thread else none

  -- `PyThreadState_SetAsyncExc` tells how many threads it changed.
  abbrev pub inject : Option ℕ → ℕ → Interrupts → Done Exception
  inject none changed i = (i, scheduled_cancel ∷ [], ok tt)
  inject (some thread) changed i =
      let after = record i { code = record i.code { pending = false } } in
      if ltb 1 changed
      then (
        after,
        injected thread ∷ cleared thread ∷ [],
        err (runtime_error "interrupt matched multiple Python threads"),
      )
      else (after, injected thread ∷ scheduled_cancel ∷ [], ok tt)

  -- `Delivery::deliver`, with the hook's answer
  unfoldable pub deliver : Bool → Result Exception (Unit {0}) → ℕ → Interrupts → Done Exception
  unfolding signals
  deliver hook answer changed i =
      if hook
      then (i, called_hook ∷ [], answer)
      else inject (injectable i.code.thread i.code.pending) changed i

-- `DeferredCancel::__call__`
unfoldable pub cancel : Bool → Interrupts → Done Exception
cancel finished i =
    if finished
    then (i, [], ok tt)
    else if not (is_some i.code.thread) && i.code.pending
    then (record i { code = record i.code { pending = false } }, cancelled_task ∷ [], ok tt)
    else (i, [], ok tt)

-- `ExecutionSink::started`: the interrupt that nothing delivered ends with the execution it was for.
unfoldable pub started : Interrupts → Interrupts
started i = record i { code = record i.code { pending = false } }

-- `ExecutionSink::__enter__`
unfoldable pub enter : ℕ → Interrupts → Done Exception
enter thread i =
    if i.code.pending
    then (
      record i { code = record i.code { pending = false } },
      raised ∷ [],
      err (keyboard_interrupt ""),
    )
    else (
      record i {
        code = record i.code {
          thread = if i.code.depth == 0 then some thread else i.code.thread;
          depth = i.code.depth + 1;
        };
      },
      [],
      ok tt,
    )

abbrev pub clear_injected : Option ℕ → List Effect
clear_injected none = []
clear_injected (some thread) = cleared thread ∷ []

-- `ExecutionSink::__exit__`, which runs after an entry, so that the depth is not 0.
unfoldable pub exit : Interrupts → Interrupts × List Effect
exit i =
    let depth = i.code.depth - 1 in
    if ltb 0 depth then (record i { code = record i.code { depth = depth } }, []) else (
      record i { code = record i.code { thread = none; depth = depth } },
      clear_injected i.code.thread,
    )

-- `SignalRouter::__call__`
unfoldable pub handle_sigint : Interrupts → Done Exception
handle_sigint i =
    let seen = record i.code { woken = false } in
    if i.code.woken
    then if is_some i.code.thread && i.code.pending
      then (
        record i { code = record seen { pending = false } },
        raised ∷ [],
        err (keyboard_interrupt ""),
      )
      else (record i { code = seen }, [], ok tt)
    else (i, interrupted_kernel ∷ [], ok tt)
