-- ===== src/Python/Errors.antt =====
-- `py_error` of src/py/src/python.rs: the Python exception for a kernmini error. `io` says whether a
-- foreign cause is an I/O error, and its number if it has one; `raised_by` whether it is a Python
-- exception.
use kernmini.Prelude.{
  ℕ, List, [], ◌∷◌, ◌≡◌, refl, ◌∙◌, String, Bool, Option, none, some, if◌then◌else◌, unwrap_or,
}
use kernmini.Errors.{
  ErrorKind, Error, error, Cause, no_cause, foreign, caused, kind, source, display, context,
  caused_by, interrupted, timed_out, invalid_input,
}

pub data PyClass : Type 0 where
  py_keyboard_interrupt py_timeout_error py_value_error kernel_error : PyClass
  py_os_error : Option ℕ → PyClass

-- The exception's class, its text, its attribute `kind`, and its cause.
pub record PyErr : Type 0 where
  pub class : PyClass
  pub text : String
  pub kind : ErrorKind
  pub cause : Option String

module _ (io : String → Option (Option ℕ)) (raised_by : String → Bool) where
  -- The last I/O error of the chain decides. A foreign cause has no source that kernmini made.
  unfoldable pub errno_of : Cause → Option ℕ → Option ℕ
  errno_of no_cause errno = errno
  errno_of (foreign text) errno = unwrap_or (io text) errno
  errno_of (caused (error k m c)) errno = errno_of c errno

  -- The first Python exception of the chain.
  unfoldable pub cause_of : Cause → Option String
  cause_of no_cause = none
  cause_of (foreign text) = if raised_by text then some text else none
  cause_of (caused (error k m c)) = cause_of c

  abbrev pub class_of : ErrorKind → Option ℕ → PyClass
  class_of interrupted errno = py_keyboard_interrupt
  class_of timed_out errno = py_timeout_error
  class_of invalid_input errno = py_value_error
  class_of ErrorKind.io errno = py_os_error errno
  class_of _ errno = kernel_error

  unfoldable pub py_error : Error → PyErr
  unfolding errno_of cause_of
  py_error e = record {
    class = class_of (kind e) (errno_of (source e) none);
    text = display e;
    kind = kind e;
    cause = cause_of (source e);
  }

-- The error in contexts, the innermost last.
abbrev pub in_contexts : List String → Error → Error
in_contexts [] e = e
in_contexts (m ∷ ms) e = context (in_contexts ms e) m

kind-context : (e : Error) (m : String) → kind (context e m) ≡ kind e
unfolding context caused_by
kind-context e m = refl

module _ (io : String → Option (Option ℕ)) (raised_by : String → Bool) where
  errno_of-context :
      (e : Error) (m : String) (errno : Option ℕ)
      → errno_of io raised_by (source (context e m)) errno ≡ errno_of io raised_by (source e) errno
  unfolding context caused_by errno_of
  errno_of-context (error k t c) m errno = refl

  cause_of-context :
      (e : Error) (m : String)
      → cause_of io raised_by (source (context e m)) ≡ cause_of io raised_by (source e)
  unfolding context caused_by cause_of
  cause_of-context (error k t c) m = refl

  -- However an error is put into contexts, its exception keeps its class with the number of an I/O
  -- error, its kind, and the Python exception that caused it.
  pub py_error-in_contexts :
      (ms : List String) (e : Error)
      → ((py_error io raised_by (in_contexts ms e)).class ≡ (py_error io raised_by e).class)
        × ((py_error io raised_by (in_contexts ms e)).kind ≡ kind e)
        × ((py_error io raised_by (in_contexts ms e)).cause ≡ (py_error io raised_by e).cause)
  unfolding py_error
  py_error-in_contexts [] e = (refl, refl, refl)
  py_error-in_contexts (m ∷ ms) e =
      let (class, k, cause) = py_error-in_contexts ms e in
      (
        rw (kind-context (in_contexts ms e) m, errno_of-context (in_contexts ms e) m none) class,
        kind-context (in_contexts ms e) m ∙ k,
        cause_of-context (in_contexts ms e) m ∙ cause,
      )
