-- ===== src/Tests/Adapters.antt =====
-- The theorems on src/py/src/python.rs, at concrete requests and answers.
use kernmini.Prelude.{
  ℕ, zero, suc, length, ◌<◌, ◌+◌, ◌≡◌, ◌≢◌, ◌↔◌, refl, nat_eq, string_eq, true, false, ◌&&◌, List,
  [], ◌∷◌, ◌++◌, none, some,
}
use native.Mathlib.Decide.{ℕ_discrete}
use kernmini.Json.{Value, string, obj, arr}
use kernmini.Errors.{Result, Error, ok, err, new, interrupted, from_send}
use kernmini.Language.{LanguageEvent}
use kernmini.Python.UserCode.{
  Interrupts, Exception, cancelled_error, raised, interrupted_kernel, signals, mark, request,
  handle_sigint, deliver, cancel, enter, sent_sigint, spawned_delivery,
}
use kernmini.Python.Carriers.{
  State, initial, Reach, IsCarried, here, next, requesting, entering, Reach-IsCarried, as_number,
  on_enter, on_request,
}
use kernmini.Python.Settled.{settle, settle-delivers}
use kernmini.Python.Sigint.{second_sigint-interrupts}
use kernmini.Python.Outcome.{execute_answered, events, outcome_of}
use kernmini.Python.Interrupted.{
  EndsAs, was_interruption, execute_answered-interrupted, execute_answered-sends,
}

-- User code on the main thread, and a request, of which nothing has been handled.
abbrev requested : State
requested = on_request true (some 1) (on_enter 1 initial)

reached : Reach true (some 1) requested
reached = next (next here (entering 1)) requesting

Reach-IsCarried_example : IsCarried true (some 1) requested
Reach-IsCarried_example = Reach-IsCarried true (some 1) reached

still_running : requested.finished ≡ false
unfolding request enter
still_running = refl

settle-delivers_example :
    Reach true (some 1) (settle true (some 1) requested)
    × ((settle true (some 1) requested).shared.code.pending ≡ false)
    × ((settle true (some 1) requested).taken
        ≡ requested.taken + as_number requested.shared.code.pending)
settle-delivers_example = settle-delivers true (some 1) requested reached still_running

-- The same on a subshell's thread.
abbrev requested_aside : State
requested_aside = on_request true (some 1) (on_enter 2 initial)

settled_aside : (settle true (some 1) requested_aside).taken ≡ 1
unfolding request enter mark signals deliver cancel handle_sigint nat_eq ℕ_discrete
settled_aside = refl

abbrev inside : Interrupts
inside = record {
  code = record { thread = some 1; depth = 1; pending = false; woken = false };
  interrupted = false;
}

main_signals : signals true (some 1) 1 ≡ true
unfolding signals nat_eq ℕ_discrete
main_signals = refl

second_sigint-interrupts_example :
    let first = (request true (some 1) false none inside).0 in
    let second = record first { code = mark true (some 1) first.code } in
    let handled = (handle_sigint second).0 in
    ((request true (some 1) false none inside).1 ≡ sent_sigint 1 ∷ spawned_delivery ∷ [])
    × ((request true (some 1) false none first).1 ≡ sent_sigint 1 ∷ spawned_delivery ∷ [])
    × ((handle_sigint second).1 ≡ raised ∷ [])
    × ((handle_sigint handled).1 ≡ interrupted_kernel ∷ [])
second_sigint-interrupts_example = second_sigint-interrupts true (some 1) inside 1 refl main_signals

abbrev all_sent : ℕ → Result Error (Unit {0})
all_sent n = ok tt

not_refused : (n : ℕ) → all_sent n ≢ err (new interrupted "execution interrupted")
not_refused n = cc

abbrev cancelled_answer : Result Exception (Result Exception Value)
cancelled_answer = err (cancelled_error "")

execute_answered-interrupted_example :
    ((execute_answered all_sent true cancelled_answer).1
      ≡ err (new interrupted "execution interrupted"))
    ↔ (true && was_interruption cancelled_answer ≡ true)
execute_answered-interrupted_example =
    execute_answered-interrupted all_sent true cancelled_answer not_refused

-- An answer with two streams, of which the first has no name.
abbrev two_streams : Value
two_streams = obj (
    ("streams", arr (obj (("text", string "a") ∷ []) ∷ obj (("name", string "stderr") ∷ []) ∷ []))
    ∷ [])

-- Only the first message is taken.
abbrev one_sent : ℕ → Result Error (Unit {0})
unfolding from_send
one_sent n = elim n [ zero ↦ ok tt | suc m ↦ err from_send ]

execute_answered-sends_example :
    let (sent, result) = execute_answered one_sent false (ok (ok two_streams)) in
    (rest : List LanguageEvent) × (sent ++ rest ≡ events two_streams)
    × ((i : ℕ) → i < length sent → one_sent i ≡ ok tt)
    × EndsAs one_sent sent rest result (outcome_of false two_streams)
execute_answered-sends_example = execute_answered-sends one_sent false two_streams
