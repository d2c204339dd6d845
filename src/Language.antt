-- ===== src/Language.antt =====
-- The boundary to a language, src/language.rs: the data that cross it, what the engine calls, and
-- the default replies. An adapter is a parameter: a `LanguageSession` holds its answers.
pub mod Interrupt
use kernmini.Prelude.{ℕ, String, Bytes, Bool, false, List, [], ◌∷◌, Option, none}
use kernmini.Json.{Value, string, bool, obj, arr, num}
use kernmini.Errors.{Error, Result}

pub record KernelInfo : Type 0 where
  pub implementation : String
  pub implementation_version : String
  pub banner : String
  pub language_info : Value

pub record ExecuteRequest : Type 0 where
  pub code : String
  pub silent : Bool
  pub store_history : Bool
  pub user_expressions : Value
  pub allow_stdin : Bool

pub record CompleteRequest : Type 0 where
  pub code : String
  pub cursor_pos : ℕ

pub record InspectRequest : Type 0 where
  pub code : String
  pub cursor_pos : ℕ
  pub detail_level : ℕ

pub record LanguageMessage : Type 0 where
  pub msg_type : String
  pub content : Value
  pub buffers : List Bytes

pub record LanguageError : Type 0 where
  pub ename : String
  pub evalue : String
  pub traceback : List String

pub record ExecuteOutcome : Type 0 where
  pub result : Option Value
  pub result_metadata : Value
  pub error : Option LanguageError
  pub user_expressions : Value
  pub payload : Value

-- `Default for ExecuteOutcome`
abbrev pub default_outcome : ExecuteOutcome
default_outcome = record {
  result = none;
  result_metadata = obj [];
  error = none;
  user_expressions = obj [];
  payload = arr [];
}

pub data LanguageEvent : Type 0 where
  stream : String → String → LanguageEvent
  display : Value → List Bytes → LanguageEvent
  message : String → Value → Value → Option Bytes → List Bytes → LanguageEvent

-- What an execution sends to the output pump: an input has a prompt and asks for a password or not.
pub data ContextMessage : Type 0 where
  event : LanguageEvent → ContextMessage
  flush : ContextMessage
  input : String → Bool → ContextMessage

-- What an execution can read of its context. `client_session` is there if it may open subshells.
pub record ExecutionContext : Type 0 where
  pub interrupted : Bool
  pub client_session : Option String
  pub parent : Value
  pub allow_stdin : Bool
  pub execution_count : ℕ

-- The adapter's answers, by the number of the call. An execution or a message answers with what it
-- sent to the pump, in the batches in which the pump received it. `interrupt` is the answer of the
-- registered interrupt handler, `ok` without one.
pub record LanguageSession : Type 0 where
  pub kernel_info : ℕ → Result Error KernelInfo
  pub supports_debugger : ℕ → Bool
  pub supported_features : ℕ → List String
  pub execute :
      ℕ
      → ExecuteRequest
      → ExecutionContext
      → List (List ContextMessage) × Result Error ExecuteOutcome
  pub complete : ℕ → CompleteRequest → Result Error Value
  pub inspect : ℕ → InspectRequest → Result Error Value
  pub is_complete : ℕ → String → Result Error Value
  pub history : ℕ → Value → Result Error Value
  pub comm_info : ℕ → Value → Result Error Value
  pub message :
      ℕ → LanguageMessage → ExecutionContext → List (List ContextMessage) × Result Error (Unit {0})
  pub interrupt : ℕ → Result Error (Unit {0})
  pub shutdown : ℕ → Result Error (Unit {0})

-- `reply_defaults`
abbrev pub default_complete : ℕ → Value
default_complete cursor_pos = obj (
    ("status", string "ok")
    ∷ ("matches", arr [])
    ∷ ("cursor_start", num cursor_pos)
    ∷ ("cursor_end", num cursor_pos)
    ∷ ("metadata", obj [])
    ∷ [])

abbrev pub default_inspect : Value
default_inspect =
    obj (
      ("status", string "ok")
      ∷ ("found", bool false)
      ∷ ("data", obj [])
      ∷ ("metadata", obj [])
      ∷ [])

abbrev pub default_is_complete : Value
default_is_complete = obj (("status", string "unknown") ∷ [])

abbrev pub default_history : Value
default_history = obj (("status", string "ok") ∷ ("history", arr []) ∷ [])

abbrev pub default_comm_info : Value
default_comm_info = obj (("status", string "ok") ∷ ("comms", obj []) ∷ [])

abbrev pub default_debug : Value
default_debug = obj (
    ("response", obj (("success", bool false) ∷ ("message", string "debugger not supported") ∷ []))
    ∷ ("events", arr [])
    ∷ [])
