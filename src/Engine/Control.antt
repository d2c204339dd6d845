-- ===== src/Engine/Control.antt =====
-- The control requests in the loop of `run_kernel_with_interrupter`, src/engine.rs, and what the loop does
-- at its end. The table of shells is that of Engine/Router.
pub mod Requests
pub mod Interrupting
use kernmini.Prelude.{
  ℕ, String, Bool, true, false, not, ◌||◌, List, [], ◌∷◌, ◌++◌, Option, none, some, ◌==◌, string_eq,
  unwrap_or, ◌and_then◌, if◌then◌else◌,
}
use kernmini.Prelude.Text.{concat, ends_with, replace}
use kernmini.Json.{Value, string, bool, obj, arr, get, index, as_str, as_array}
use kernmini.Errors.{Error, Result, ok, err, display, from_send, from_recv}
use kernmini.Wire.{Message, msg_type}
use kernmini.Engine.Queue.{Inbound}
use kernmini.Engine.Effects.{
  M, ◌>>=◌, ◌>>◌, pure, lift, call, attempt, fail_kernel, send_iopub, send_reply, status,
}
use kernmini.Engine.Replies.{bool_or, str_or}
use kernmini.Engine.Shell.{ShellControl}
use kernmini.Engine.Shell
use kernmini.Engine.Router.{
  Handle, Router, Runner, find, route_shell, create_subshell, delete_subshell,
}

-- The table and what waits in the channel of the shell requests; `deleting` are the requests whose
-- shells are being stopped in the background.
pub record Kernel : Type 0 where
  pub router : Router
  pub shell : List Inbound
  pub deleting : List Inbound

-- What the loop asks of others: whether a shell released a request, which it may not answer, and what
-- the language's debugger answers.
pub record Loop : Type 1 where
  pub runner : Runner
  pub released : ℕ → Result String Bool
  pub debug : ℕ → Value → Result Error Value

-- `shell.controls.send(control)`
abbrev pub told : ShellControl → Handle → Handle
told control handle = record handle { controls = handle.controls ++ control ∷ [] }

abbrev pub with_first :
    String × Handle → Result Error (List (String × Handle)) → Result Error (List (String × Handle))
with_first entry (ok rest) = ok (entry ∷ rest)
with_first entry (err e) = err e

unfoldable pub interrupt_shells : List (String × Handle) → Result Error (List (String × Handle))
interrupt_shells [] = ok []
interrupt_shells ((id, handle) ∷ shells) =
    let rest = interrupt_shells shells in
    if handle.receives then with_first (id, told Shell.interrupt handle) rest else err from_send

-- The ids of the subshells, without the kernel's first shell.
unfoldable pub subshell_ids : List (String × Handle) → List Value
subshell_ids [] = []
subshell_ids ((id, handle) ∷ shells) =
    let rest = subshell_ids shells in if id == "" then rest else string id ∷ rest

abbrev pub unknown_subshell : (String → String) → String → String
unknown_subshell quoted id = concat "Unknown subshell_id " (quoted id)

abbrev pub failure : String → String → Value
failure ename evalue = obj (
    ("status", string "error")
    ∷ ("ename", string ename)
    ∷ ("evalue", string evalue)
    ∷ ("traceback", arr [])
    ∷ [])

abbrev pub created_content : Result Error String → Value
created_content (ok id) = obj (("status", string "ok") ∷ ("subshell_id", string id) ∷ [])
created_content (err e) = failure "SubshellCreationError" (display e)

abbrev pub from_received : Result String Bool → Result Error Bool
from_received (ok b) = ok b
from_received (err lost) = err (from_recv lost)

-- `control_language.debug(…).await.unwrap_or_else(…)`
abbrev pub debug_result : Value → Result Error Value → Value
debug_result content (ok v) = v
debug_result content (err e) = obj (
    (
      "response",
      obj (
          ("type", string "response")
          ∷ ("request_seq", index "seq" content)
          ∷ ("command", index "command" content)
          ∷ ("success", bool false)
          ∷ ("message", string (display e))
          ∷ []),
    )
    ∷ [])

-- Whether the loop goes on after it.
abbrev pub Turn : Type 0
Turn = Kernel × Bool

-- The stop of all shells after the loop: the first failure is the result, the others are told.
abbrev pub keep_failure :
    Result Error (Unit {0}) → Result Error (Unit {0}) → Result Error (Unit {0}) × List String
keep_failure result (ok _) = (result, [])
keep_failure (ok _) (err e) = (err e, [])
keep_failure (err first) (err e) = (err first, concat "kernel shutdown failed: " (display e) ∷ [])

unfoldable pub end_shells :
    Result Error (Unit {0}) → List (Result Error (Unit {0})) → Result Error (Unit {0}) × List String
end_shells result [] = (result, [])
end_shells result (stopped ∷ rest) =
    let (next, now) = keep_failure result stopped in
    let (last, later) = end_shells next rest in (last, now ++ later)
