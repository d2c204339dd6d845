-- ===== src/Tests/Inputs.antt =====
-- The theorems on the pending input requests and the configuration of src/engine.rs, at concrete
-- requests, replies and variables.
use kernmini.Prelude.{
  ◌≡◌, refl, String, string_eq, nat_eq, bytes_eq, List, [], ◌∷◌, arith, ◌^◌, ◌<◌, ◌↔◌, Option, none,
  some, ℕ, ◌≤◌,
}
use native.Mathlib.Decide.{ℕ_discrete}
use kernmini.Json.{string, empty, field, get, lookup, object}
use kernmini.Wire.{msg_type, text_field}
use kernmini.Engine.Queue.{Inbound}
use kernmini.Engine.Router.{find, remove}
use kernmini.Prelude.Text.{codes}
use kernmini.Engine.Config.{KernelConfig, Seconds, finite, from_env, IsTooLong, from_env-bounds}
use kernmini.Engine.Stdin.{begin_input, end_input, input_reply, reply_key, find_identity}
use kernmini.Engine.Stdin.Once.{
  Event, beginning, replied, ending, empty_stdin, run_inputs, IsOnce, run_inputs-IsOnce,
}
use kernmini.Tests.{inbound, execute_message}

-- A reply of the client 5 with the text "yes" to a parent.
abbrev reply_to : String → Inbound
reply_to parent = record (inbound empty) {
  message = record (execute_message empty) {
    header = field "msg_type" (string "input_reply") empty;
    parent_header = field "msg_id" (string parent) empty;
    content = object (field "value" (string "yes") empty);
  };
}

-- Two requests of the client; a reply to the first, twice, and one to no request.
abbrev input_events : List Event
input_events =
    beginning "a" (5 ∷ [])
    ∷ beginning "b" (5 ∷ [])
    ∷ replied (reply_to "a")
    ∷ ending "a"
    ∷ replied (reply_to "a")
    ∷ replied (reply_to "x")
    ∷ []

-- The second reply to the first request answers the other request of the same client.
both_answered : (run_inputs input_events empty_stdin).answered ≡ (0, "yes") ∷ (1, "yes") ∷ []
unfolding begin_input end_input input_reply reply_key find_identity find remove msg_type text_field
    lookup get string_eq bytes_eq ℕ_discrete
both_answered = refl

empty-IsOnce : IsOnce empty_stdin
empty-IsOnce t = ground arith

run_inputs-IsOnce_example : IsOnce (run_inputs input_events empty_stdin)
run_inputs-IsOnce_example = run_inputs-IsOnce input_events empty_stdin empty-IsOnce

-- A reader of one long timeout.
abbrev long_timeout : List ℕ → Option Seconds
long_timeout v = some (finite (2 ^ 64))

from_env-bounds_example :
    ((from_env long_timeout none (some (codes "18446744073709551616")) ≡ none)
      ↔ IsTooLong long_timeout (some (codes "18446744073709551616")))
    × ((c : KernelConfig)
        → from_env long_timeout none (some (codes "18446744073709551616")) ≡ some c
        → (1 ≤ c.iopub_capacity) × (c.hold_timeout < 2 ^ 64))
from_env-bounds_example = from_env-bounds long_timeout none (some (codes "18446744073709551616"))
