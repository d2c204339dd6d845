-- ===== src/Worker.antt =====
-- `ThreadWorker` of src/thread_worker.rs: a state on a thread of its own, and the jobs that are sent to it.
-- A call is a function on the state with a result; it answers `none` where it panics.
pub mod Sequential
pub mod Order
use kernmini.Prelude.{
  ℕ, zero, suc, ◌+◌, ◌≡◌, refl, sym, ap, ◌∙◌, String, Bool, true, false, List, [], ◌∷◌, ◌++◌, map,
  Option, none, some, length, arith,
}
use kernmini.Errors.{Error, Result, ok, err, foreign, caused_by, closed_error}

-- What a caller waits for: the result of a call, or the end of the worker.
pub data Reply (R : Type 0) : Type 0 where
  value : R → Reply R
  down : Reply R

module _ (T R : Type 0) where
  pub data Job : Type 0 where
    call : (T → Option (T × R)) → Job
    stop : Job

  -- The state is there until the worker's thread ends. The answers stand in the order in which the
  -- callers get them.
  pub record Worker : Type 0 where
    pub state : Option T
    pub queue : List Job
    pub answers : List (Result Error (Reply R))

module _ {T R : Type 0} where
  abbrev pub resource : Job T R → String
  resource (Job.call f) = "interpreter worker"
  resource Job.stop = "interpreter worker during shutdown"

  -- `RecvError` for a job whose reply is dropped
  unfoldable pub dropped : Job T R → Result Error (Reply R)
  dropped job = err (caused_by (closed_error (resource job)) (foreign "channel closed"))

  -- The end of the thread drops what is queued.
  unfoldable pub end_thread : Worker T R → List (Job T R) → Result Error (Reply R) → Worker T R
  unfolding dropped
  end_thread w jobs last = record {
    state = none;
    queue = [];
    answers = w.answers ++ last ∷ map dropped jobs;
  }

  -- `ThreadWorker::start`, with what `create` answers
  unfoldable pub start : Result Error T → Result Error (Worker T R)
  start (ok s) = ok (record { state = some s; queue = []; answers = [] })
  start (err e) = err e

  -- `ThreadWorker::send`, for `call` and `shutdown`
  abbrev pub send_to : Option T → Job T R → Worker T R → Worker T R
  send_to none job w = record w {
    answers = w.answers ++ err (closed_error "interpreter worker") ∷ [];
  }
  send_to (some s) job w = record w { queue = w.queue ++ job ∷ [] }

  unfoldable pub send : Job T R → Worker T R → Worker T R
  send job w = send_to w.state job w

  abbrev pub run_call : Option (T × R) → Job T R → List (Job T R) → Worker T R → Worker T R
  run_call none job jobs w = end_thread w jobs (dropped job)
  run_call (some (t, r)) job jobs w = record {
    state = some t;
    queue = jobs;
    answers = w.answers ++ ok (value r) ∷ [];
  }

  abbrev pub run_next : Option T → List (Job T R) → Worker T R → Worker T R
  run_next none jobs w = w
  run_next (some s) [] w = w
  run_next (some s) (Job.call f ∷ jobs) w = run_call (f s) (Job.call f) jobs w
  run_next (some s) (Job.stop ∷ jobs) w = end_thread w jobs (ok down)

  -- One round of the thread's loop
  unfoldable pub run_job : Worker T R → Worker T R
  unfolding end_thread
  run_job w = run_next w.state w.queue w
