-- ===== src/Python/Outcome.antt =====
-- `PyLanguageSession::execute` of src/py/src/python.rs after the interpreter has answered: what is sent to
-- the output pump, and the outcome. `sending` answers the emissions by their number.
use kernmini.Prelude.{
  ℕ, suc, String, string_eq, Bool, true, false, not, ◌&&◌, List, [], ◌∷◌, ◌++◌, map, Option, none,
  some, ◌==◌, if◌then◌else◌, unwrap_or, filter_option, map_option, map_or, ◌and_then◌,
}
use kernmini.Json.{Value, null, get, index, as_str, as_array, obj, arr}
use kernmini.Errors.{Error, Result, ok, err, ◌>>=◌, foreign, adapter_error, new, interrupted}
use kernmini.Language.{LanguageError, ExecuteOutcome, LanguageEvent, stream, display}
use kernmini.Python.UserCode.{Exception, keyboard_interrupt, cancelled_error, runtime_error, other}

-- `Display for PyErr`, and `Error::adapter` of it
abbrev pub exception_text : Exception → String
exception_text (keyboard_interrupt t) = t
exception_text (cancelled_error t) = t
exception_text (runtime_error t) = t
exception_text (other t) = t

abbrev pub as_adapter {ℓ} : {A : Type ℓ} → Result Exception A → Result Error A
as_adapter (ok a) = ok a
as_adapter (err e) = err (adapter_error (foreign (exception_text e)))

abbrev pub is_interruption : Exception → Bool
is_interruption (keyboard_interrupt _) = true
is_interruption (cancelled_error _) = true
is_interruption _ = false

-- The answer of the awaited task, and the answer of its conversion to JSON.
unfoldable pub awaited : Bool → Result Exception (Result Exception Value) → Result Error Value
awaited interrupted_flag (ok converted) = as_adapter converted
awaited interrupted_flag (err e) =
    if interrupted_flag && is_interruption e
    then err (new interrupted "execution interrupted")
    else as_adapter (err e)

abbrev pub text_at : String → String → Value → String
text_at k default v = unwrap_or (as_str (index k v)) default

abbrev pub elements : String → Value → List Value
elements k v = unwrap_or (get k v and_then as_array) []

abbrev pub stream_event : Value → LanguageEvent
stream_event v = stream (text_at "name" "stdout" v) (text_at "text" "" v)

abbrev pub display_event : Value → LanguageEvent
display_event v = display v []

-- The messages of the answer, in the order in which they are sent.
unfoldable pub events : Value → List LanguageEvent
events value =
    map stream_event (elements "streams" value) ++ map display_event (elements "display" value)

abbrev pub is_null : Value → Bool
is_null null = true
is_null _ = false

-- `filter_map(Value::as_str)`
abbrev pub strings : List Value → List String
strings [] = []
strings (v ∷ l) = elim (as_str v) [ none ↦ strings l | some t ↦ t ∷ strings l ]

abbrev pub present : String → Value → Option Value
present k value = filter_option (λ v. not (is_null v)) (get k value)

unfoldable pub language_error : Value → LanguageError
language_error e = record {
  ename = text_at "ename" "Error" e;
  evalue = text_at "evalue" "" e;
  traceback = strings (unwrap_or (as_array (index "traceback" e)) []);
}

abbrev pub keyboard_error : LanguageError
keyboard_error = record { ename = "KeyboardInterrupt"; evalue = ""; traceback = [] }

-- The error of an interrupted execution whose shell caught the cancellation.
unfoldable pub as_interrupt : Bool → Option LanguageError → Option LanguageError
as_interrupt interrupted_flag e =
    if interrupted_flag && map_or false (λ (l : LanguageError). l.ename == "CancelledError") e
    then some keyboard_error
    else e

unfoldable pub outcome_of : Bool → Value → ExecuteOutcome
unfolding language_error as_interrupt
outcome_of interrupted_flag value = record {
  result = present "result" value;
  result_metadata = unwrap_or (get "result_metadata" value) (obj []);
  error = as_interrupt interrupted_flag (map_option language_error (present "error" value));
  user_expressions = unwrap_or (get "user_expressions" value) (obj []);
  payload = unwrap_or (get "payload" value) (arr []);
}

module _ (sending : ℕ → Result Error (Unit {0})) where
  abbrev pub emitted :
      Result Error (Unit {0})
      → LanguageEvent
      → List LanguageEvent × Result Error (Unit {0})
      → List LanguageEvent × Result Error (Unit {0})
  emitted (ok _) e (rest, ended) = (e ∷ rest, ended)
  emitted (err failed) e later = ([], err failed)

  -- `context.emit(event).await?`, for each
  unfoldable pub emit_all : ℕ → List LanguageEvent → List LanguageEvent × Result Error (Unit {0})
  emit_all n [] = ([], ok tt)
  emit_all n (e ∷ es) = emitted (sending n) e (emit_all (suc n) es)

  abbrev pub finish_execute :
      Bool → Result Error Value → List LanguageEvent × Result Error ExecuteOutcome
  finish_execute interrupted_flag (err e) = ([], err e)
  finish_execute interrupted_flag (ok value) =
      let (sent, ended) = emit_all 0 (events value) in
      (sent, ended >>= λ _. ok (outcome_of interrupted_flag value))

  -- `PyLanguageSession::execute` from `future.await` on
  unfoldable pub execute_answered :
      Bool
      → Result Exception (Result Exception Value)
      → List LanguageEvent × Result Error ExecuteOutcome
  unfolding awaited emit_all events outcome_of
  execute_answered interrupted_flag answer =
      finish_execute interrupted_flag (awaited interrupted_flag answer)
