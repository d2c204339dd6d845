-- ===== src/Python/Session.antt =====
-- `PyLanguageSession` and `ExecutionSink` of src/py/src/python.rs: the Python shell as a language of the
-- engine. What the interpreter answers is a parameter, by the number of the call.
use kernmini.Prelude.{
  ℕ, String, string_eq, Bytes, Bool, false, List, [], ◌∷◌, ◌++◌, map, Option, none, some, ◌==◌,
  if◌then◌else◌, unwrap_or, map_option, ◌and_then◌,
}
use kernmini.Json.{
  Value, string, object, Fields, empty, field, obj, num, get, index, as_str, as_array,
}
use kernmini.Errors.{Error, Result, ok, err, ◌>>=◌}
use kernmini.Language.{
  KernelInfo, ExecuteRequest, CompleteRequest, InspectRequest, LanguageMessage, ExecuteOutcome,
  LanguageEvent, display, ContextMessage, event, ExecutionContext, LanguageSession,
  default_complete, default_inspect, default_is_complete, default_history, default_comm_info,
  default_debug,
}
use kernmini.Python.UserCode.{Exception}
use kernmini.Python.Outcome.{as_adapter, text_at, execute_answered}

-- A call of the bridge that is awaited: the start of the call, and the result, which may be `None`.
pub record Awaited : Type 0 where
  pub begun : Result Exception (Unit {0})
  pub result : Result Exception (Option (Result Exception Value))

-- An execution's task: what its sink sent, whether an interrupt was requested, and its result.
pub record Task : Type 0 where
  pub begun : Result Exception (Unit {0})
  pub sent : List (List ContextMessage)
  pub interrupted : Bool
  pub result : Result Exception (Result Exception Value)
  pub sending : ℕ → Result Error (Unit {0})

pub record Interpreter : Type 0 where
  pub request : ℕ → String → Value → Awaited
  pub kernel_info : ℕ → Result Exception Value
  pub has_debug_request : ℕ → Result Exception Bool
  pub debug_request : ℕ → Value → Result Exception Value
  pub task : ℕ → ExecuteRequest → ExecutionContext → Task
  pub message :
      ℕ
      → LanguageMessage
      → ExecutionContext
      → List (List ContextMessage) × Result Exception (Unit {0})
  pub interrupt : ℕ → Result Error (Unit {0})
  pub stopped : ℕ → Result Exception (Result Exception (Unit {0}))
  pub joined : ℕ → Result Error (Unit {0})

abbrev pub converted : Option (Result Exception Value) → Result Error (Option Value)
converted none = ok none
converted (some v) = as_adapter v >>= λ w. ok (some w)

-- `PyLanguageSession::request`
unfoldable pub request : Awaited → Result Error (Option Value)
request a = as_adapter a.begun >>= λ _. as_adapter a.result >>= converted

abbrev pub or_default : Value → Result Error (Option Value) → Result Error Value
or_default d r = r >>= λ v. ok (unwrap_or v d)

unfoldable pub kernel_info_of : Value → KernelInfo
kernel_info_of value = record {
  implementation = text_at "implementation" "python" value;
  implementation_version = text_at "implementation_version" "0" value;
  banner = text_at "banner" "" value;
  language_info = unwrap_or (get "language_info" value) (obj []);
}

-- `serde_json::from_value` at `Vec<String>`
unfoldable pub texts_of : List Value → Option (List String)
texts_of [] = some []
texts_of (v ∷ l) = as_str v and_then λ t. map_option (λ ts. t ∷ ts) (texts_of l)

abbrev pub ok_of {ℓ κ} : {E : Type ℓ} {A : Type κ} → Result E A → Option A
ok_of (ok a) = some a
ok_of (err e) = none

unfoldable pub supported_features_of : Result Exception Value → List String
unfolding texts_of
supported_features_of answer =
    unwrap_or (ok_of answer and_then λ v. as_array (index "supported_features" v) and_then texts_of)
      []

unfoldable pub execute_task : Task → List (List ContextMessage) × Result Error ExecuteOutcome
unfolding execute_answered
execute_task t =
    let (sent, result) = execute_answered t.sending t.interrupted t.result in
    elim t.begun [
      | ok _ ↦ (t.sent ++ map (λ e. event e ∷ []) sent, result)
      | err e ↦ ([], as_adapter (err e))
    ]

-- `shutdown`: once the shell's own shutdown has begun, a child session's loop and thread end also if it
-- fails.
unfoldable pub shutdown_of :
    Result Exception (Result Exception (Unit {0}))
    → Result Error (Unit {0})
    → Result Error (Unit {0})
shutdown_of stopped joined = as_adapter stopped >>= λ result. joined >>= λ _. as_adapter result

unfoldable pub complete_request : CompleteRequest → Value
complete_request r = obj (("code", string r.code) ∷ ("cursor_pos", num r.cursor_pos) ∷ [])

unfoldable pub inspect_request : InspectRequest → Value
inspect_request r = obj (
    ("code", string r.code)
    ∷ ("cursor_pos", num r.cursor_pos)
    ∷ ("detail_level", num r.detail_level)
    ∷ [])

unfoldable pub debug_answer : Result Exception Bool → Result Exception Value → Result Error Value
debug_answer has answer =
    if unwrap_or (ok_of has) false then as_adapter answer else ok default_debug

module _ (python : Interpreter) where
  -- `LanguageSession for PyLanguageSession`
  unfoldable pub py_session : LanguageSession
  unfolding kernel_info_of supported_features_of execute_task request shutdown_of complete_request
      inspect_request
  py_session = record {
    kernel_info = λ n. as_adapter (python.kernel_info n) >>= λ v. ok (kernel_info_of v);
    supports_debugger = λ n. unwrap_or (ok_of (python.has_debug_request n)) false;
    supported_features = λ n. supported_features_of (python.kernel_info n);
    execute = λ n r c. execute_task (python.task n r c);
    complete = λ n r.
        or_default (default_complete r.cursor_pos)
          (request (python.request n "complete" (complete_request r)));
    inspect = λ n r.
        or_default default_inspect (request (python.request n "inspect" (inspect_request r)));
    is_complete = λ n code.
        or_default default_is_complete
          (request (python.request n "is_complete" (obj (("code", string code) ∷ []))));
    history = λ n v. or_default default_history (request (python.request n "history" v));
    comm_info = λ n v. or_default default_comm_info (request (python.request n "comm_info" v));
    message = λ n m c. let (sent, answer) = python.message n m c in (sent, as_adapter answer);
    interrupt = python.interrupt;
    shutdown = λ n. shutdown_of (python.stopped n) (python.joined n);
  }

-- `del_item` on a copy
unfoldable pub delete_field : String → Fields → Fields
delete_field k empty = empty
delete_field k (field j v m) = if j == k then m else field j v (delete_field k m)

-- `ExecutionSink::display`, with the buffers that the event held
unfoldable pub sink_display : Fields → List Bytes → LanguageEvent
unfolding delete_field
sink_display e buffers = display (object (delete_field "buffers" e)) buffers
