-- ===== src/Tests/Routers.antt =====
-- The theorems on the shells and the interrupts, at concrete subshells.
use kernmini.Prelude.{
  ◌+◌, ◌≡◌, ◌≢◌, refl, ap, ◌==◌, String, string_eq, true, false, List, [], ◌∷◌, ◌++◌, some,
}
use kernmini.Json.{lookup, string, empty, field}
use kernmini.Errors.{ok, err}
use kernmini.Wire.{msg_type, text_field}
use kernmini.Language.Interrupt.{
  requesting, registering, perform_all, requests, default_interrupt, belated, repeat,
  count_requests, request-calls,
}
use kernmini.Engine.Queue.{Inbound, is_execute}
use kernmini.Engine.Effects.{◌>>=◌, pure}
use kernmini.Engine.Answers.{asks, answers}
use kernmini.Engine.Router.{
  Router, Runner, find, new_handle, subshell_id, route_shell, reply_subshell_not_found, close_route,
  delete_subshell,
}
use kernmini.Engine.Balance.{waiting}
use kernmini.Engine.Control.{Kernel, Loop}
use kernmini.Engine.Control.Requests.{route_pending, interrupt_request}
use kernmini.Engine.Control.Interrupting.{all_told, interrupt_request-routes}
use kernmini.Engine.Router.Runs
use kernmini.Engine.Router.Runs.{Event, opening, deleting, ending}
use kernmini.Engine.Router.Refusals.{close_route-dangling, delete_subshell-parent}
use kernmini.Engine.Router.Delivery.{sent_to}
use kernmini.Engine.Router.Routing.{route_shell-answers}
use kernmini.Tests.{test_services, test_world, inbound, execute_message}
use kernmini.Tests.Shells.{writable}

abbrev test_runner : Runner
test_runner = record {
  services = test_services;
  supports_children = true;
  create_child = λ n. ok tt;
  debug = λ s. s;
}

-- The first shell and a subshell, to which two client sessions are routed.
abbrev shared : Router
shared = record {
  shells = ("", new_handle) ∷ ("sub", new_handle) ∷ [];
  routes = ("a", "sub") ∷ ("b", "sub") ∷ [];
}

-- An execute request of the client session "b", and a request for completions.
abbrev from_b : Inbound
from_b = record (inbound empty) {
  message = record (execute_message empty) {
    header = field "msg_type" (string "execute_request") (field "session" (string "b") empty);
  };
}

abbrev complete_inbound : Inbound
complete_inbound = record (inbound empty) {
  message = record (execute_message empty) {
    header = field "msg_type" (string "complete_request") empty;
  };
}

from_b_implicit : subshell_id from_b.message ≡ ""
unfolding subshell_id string_eq
from_b_implicit = refl

from_b_session : text_field "session" from_b.message.header ≡ "b"
unfolding text_field string_eq
from_b_session = refl

from_b_execution : is_execute from_b ≡ true
unfolding msg_type string_eq
from_b_execution = refl

complete_implicit : subshell_id complete_inbound.message ≡ ""
unfolding subshell_id string_eq
complete_implicit = refl

complete_no_execution : is_execute complete_inbound ≡ false
unfolding msg_type string_eq
complete_no_execution = refl

route_shell-answers_example :
    (after : Router) × ((route_shell test_runner shared (inbound empty) test_world).0 ≡ ok after)
    × (answers "e1" (route_shell test_runner shared (inbound empty) test_world).1
          + sent_to "e1" after.shells
        ≡ answers "e1" test_world
          + (sent_to "e1" shared.shells + asks "e1" (inbound empty).message))
route_shell-answers_example =
    route_shell-answers test_runner "e1" shared (inbound empty) test_world writable

abbrev route_events : List Event
route_events =
    opening "c" (some "new")
    ∷ ending "new" (ok (ok tt))
    ∷ deleting "sub"
    ∷ ending "" (err "task panicked")
    ∷ []

two_clients : ◌≢◌ {A = String} "a" "b"
unfolding string_eq
two_clients e = let bad : true ≡ false = ap (λ s. s == "a") e in absurd (cc)

a_routed : find "a" shared.routes ≡ some "sub"
unfolding find string_eq
a_routed = refl

b_routed : find "b" shared.routes ≡ some "sub"
unfolding find string_eq
b_routed = refl

first_there : find "" shared.shells ≡ some new_handle
unfolding find string_eq
first_there = refl

close_route-dangling_example :
    let after = (close_route shared "a" "sub" true).0 in
    route_shell test_runner after from_b
    ≡ (reply_subshell_not_found test_runner from_b >>= λ _. pure after)
close_route-dangling_example =
    close_route-dangling test_runner shared "a" "b" "sub" from_b two_clients a_routed b_routed
      from_b_implicit from_b_session from_b_execution

delete_subshell-parent_example :
    let after = (delete_subshell shared "").0 in
    route_shell test_runner after complete_inbound
    ≡ (reply_subshell_not_found test_runner complete_inbound >>= λ _. pure after)
delete_subshell-parent_example =
    delete_subshell-parent test_runner shared new_handle complete_inbound first_there
      complete_implicit complete_no_execution

-- Two requests before the registration and one after it.
request-calls_example :
    (perform_all
      (λ n. ok tt)
      (requests 2 ++ registering 7 ∷ requesting ∷ [])
      default_interrupt).called
    ≡ belated 2 7 ++ repeat 7 (count_requests (requesting ∷ []))
request-calls_example = request-calls (λ n. ok tt) 2 7 (requesting ∷ [])

-- An execute request waits while the interrupt arrives.
abbrev interrupt_inbound : Inbound
interrupt_inbound = record (inbound empty) {
  message = record (execute_message empty) {
    header = field "msg_type" (string "interrupt_request") empty;
  };
}

abbrev busy_kernel : Kernel
busy_kernel = record { router = shared; shell = inbound empty ∷ []; deleting = [] }

abbrev test_loop : Loop
test_loop = record { runner = test_runner; released = λ n. ok false; debug = λ n v. ok v }

is_interrupt : msg_type interrupt_inbound.message ≡ "interrupt_request"
unfolding msg_type text_field lookup string_eq
is_interrupt = refl

interrupt_request-routes_example :
    (routed : Router) × ((route_pending test_loop shared (inbound empty ∷ []) test_world).0
      ≡ ok routed)
    × ((interrupt_request test_loop busy_kernel interrupt_inbound test_world).0
        ≡ ok (record busy_kernel {
          router = record routed { shells = all_told routed.shells };
          shell = [];
        }))
    × (answers "e1" (interrupt_request test_loop busy_kernel interrupt_inbound test_world).1
          + sent_to "e1" (all_told routed.shells)
        ≡ answers "e1" test_world
          + (sent_to "e1" shared.shells + waiting "e1" (inbound empty ∷ [])))
interrupt_request-routes_example =
    interrupt_request-routes test_loop writable "e1" busy_kernel interrupt_inbound test_world
      (refl, (refl, tt)) is_interrupt
