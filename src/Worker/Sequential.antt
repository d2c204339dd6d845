-- ===== src/Worker/Sequential.antt =====
-- A sequential object that answers jobs one after the other, and the events of the worker of
-- src/thread_worker.rs: jobs are sent and its thread makes a round of its loop.
use kernmini.Prelude.{ℕ, zero, suc, List, [], ◌∷◌, Option, none, some}
use kernmini.Errors.{Error, Result, ok, err}
use kernmini.Worker.{Reply, value, down, Job, Worker, send, run_job}

module _ (T R : Type 0) where
  pub data Event : Type 0 where
    sending : Job T R → Event
    running : Event

-- An answer without its error.
abbrev pub outcome : {R : Type 0} → Result Error (Reply R) → Option (Reply R)
outcome (ok r) = some r
outcome (err e) = none

module _ {T R : Type 0} where
  -- What the jobs get once the state is gone.
  abbrev pub all_none : List (Job T R) → List (Option (Reply R))
  all_none [] = []
  all_none (job ∷ jobs) = none ∷ all_none jobs

  -- The sequential object: what each job gets, one after the other.
  abbrev pub sequential : T → List (Job T R) → List (Option (Reply R))
  sequential s [] = []
  sequential s (Job.call f ∷ jobs) = elim (f s) [
    | none ↦ none ∷ all_none jobs
    | some (t, r) ↦ some (value r) ∷ sequential t jobs
  ]
  sequential s (Job.stop ∷ jobs) = some down ∷ all_none jobs

  abbrev pub from_state : Option T → List (Job T R) → List (Option (Reply R))
  from_state none jobs = all_none jobs
  from_state (some s) jobs = sequential s jobs

  abbrev pub perform : Event T R → Worker T R → Worker T R
  perform (Event.sending job) w = send job w
  perform Event.running w = run_job w

  abbrev pub perform_all : List (Event T R) → Worker T R → Worker T R
  perform_all [] w = w
  perform_all (e ∷ events) w = perform_all events (perform e w)

  abbrev pub jobs_of : List (Event T R) → List (Job T R)
  jobs_of [] = []
  jobs_of (Event.sending job ∷ events) = job ∷ jobs_of events
  jobs_of (Event.running ∷ events) = jobs_of events

  abbrev pub drain : ℕ → Worker T R → Worker T R
  drain zero w = w
  drain (suc n) w = drain n (run_job w)
