-- ===== src/Worker/Order.antt =====
-- The worker of src/thread_worker.rs against a sequential object: jobs run in the order in which they are
-- sent, however the sending and the running interleave.
use mathlib.Core.List.{append-nil, append_assoc}
use kernmini.Prelude.{
  ℕ, zero, suc, ◌≤◌, ◌≡◌, refl, sym, ap, ◌∙◌, List, [], ◌∷◌, ◌++◌, map, Option, none, some, length,
  arith, Option-cases, inl, inr,
}
use kernmini.Errors.{Error, Result, ok, err, closed_error}
use kernmini.Worker.{
  Reply, value, down, Job, Worker, dropped, end_thread, send, send_to, run_next, run_job, start,
}
use kernmini.Worker.Sequential.{
  Event, outcome, all_none, sequential, from_state, perform_all, jobs_of, drain,
}

add_answers :
    {R : Type 0} (answers more : List (Result Error (Reply R))) (rest : List (Option (Reply R)))
    → map outcome (answers ++ more) ++ rest ≡ map outcome answers ++ (map outcome more ++ rest)
add_answers [] more rest = refl
add_answers (b ∷ answers) more rest = ap (λ l. outcome b ∷ l) (add_answers answers more rest)

module _ {T R : Type 0} where
  -- What the jobs of a worker have got and will get, with more jobs behind them.
  abbrev forecast : Worker T R → List (Job T R) → List (Option (Reply R))
  forecast w jobs = map outcome w.answers ++ from_state w.state (w.queue ++ jobs)

  -- The thread leaves no job behind.
  abbrev IsIdle : Option T → List (Job T R) → Type 0
  IsIdle none queue = queue ≡ []
  IsIdle (some s) queue = Unit {0}

  all_none-append : (xs ys : List (Job T R)) → all_none (xs ++ ys) ≡ all_none xs ++ all_none ys
  all_none-append [] ys = refl
  all_none-append (x ∷ xs) ys = ap (λ l. none ∷ l) (all_none-append xs ys)

  outcome-dropped : (jobs : List (Job T R)) → map outcome (map dropped jobs) ≡ all_none jobs
  unfolding dropped
  outcome-dropped [] = refl
  outcome-dropped (x ∷ xs) = ap (λ l. none ∷ l) (outcome-dropped xs)

  send-forecast :
      (job : Job T R) (st : Option T) (w : Worker T R) (jobs : List (Job T R))
      → w.state ≡ st
      → IsIdle st w.queue
      → forecast (send_to st job w) jobs ≡ forecast w (job ∷ jobs)
  send-forecast job none w jobs e idle =
      rw (e, idle)
        (add_answers w.answers (err (closed_error "interpreter worker") ∷ []) (all_none jobs))
  send-forecast job (some s) w jobs e idle =
      ap (λ q. map outcome w.answers ++ from_state w.state q) (append_assoc w.queue (job ∷ []) jobs)

  end_thread-forecast :
      (w : Worker T R) (queue : List (Job T R)) (a : Result Error (Reply R)) (jobs : List (Job T R))
      → forecast (end_thread w queue a) jobs
        ≡ map outcome w.answers ++ outcome a ∷ all_none (queue ++ jobs)
  unfolding end_thread
  end_thread-forecast w queue a jobs =
      add_answers w.answers (a ∷ map dropped queue) (all_none jobs)
      ∙ ap (λ l. map outcome w.answers ++ outcome a ∷ l)
          (rw (outcome-dropped queue) (sym (all_none-append queue jobs)))

  run_next-forecast :
      (st : Option T) (queue jobs : List (Job T R)) (w : Worker T R)
      → w.state ≡ st
      → w.queue ≡ queue
      → forecast (run_next st queue w) jobs ≡ map outcome w.answers ++ from_state st (queue ++ jobs)
  unfolding dropped
  run_next-forecast none queue jobs w e q = rw (e, q) refl
  run_next-forecast (some s) [] jobs w e q = rw (e, q) refl
  run_next-forecast (some s) (Job.call f ∷ queue) jobs w e q = elim (Option-cases (f s)) [
    | inl panics ↦ rw panics (end_thread-forecast w queue (dropped {T = T} (Job.call f)) jobs)
    | inr ((t, r), returns) ↦
        rw returns (add_answers w.answers (ok (value r) ∷ []) (sequential t (queue ++ jobs)))
  ]
  run_next-forecast (some s) (Job.stop ∷ queue) jobs w e q =
      end_thread-forecast w queue (ok down) jobs

  run_next-IsIdle :
      (st : Option T) (queue : List (Job T R)) (w : Worker T R)
      → IsIdle w.state w.queue
      → IsIdle (run_next st queue w).state (run_next st queue w).queue
  unfolding end_thread
  run_next-IsIdle none queue w h = h
  run_next-IsIdle (some s) [] w h = h
  run_next-IsIdle (some s) (Job.call f ∷ queue) w h = elim (Option-cases (f s)) [
    | inl panics ↦ rw panics refl
    | inr ((t, r), returns) ↦ rw returns tt
  ]
  run_next-IsIdle (some s) (Job.stop ∷ queue) w h = refl

  send_to-IsIdle :
      (job : Job T R) (st : Option T) (w : Worker T R)
      → w.state ≡ st
      → IsIdle w.state w.queue
      → IsIdle (send_to st job w).state (send_to st job w).queue
  send_to-IsIdle job none w e h = h
  send_to-IsIdle job (some s) w e h = rw e tt

  run_job-forecast :
      (w : Worker T R) (jobs : List (Job T R)) → forecast (run_job w) jobs ≡ forecast w jobs
  unfolding run_job
  run_job-forecast w jobs = run_next-forecast w.state w.queue jobs w refl refl

  perform_all-forecast :
      (events : List (Event T R)) (w : Worker T R)
      → IsIdle w.state w.queue
      → (forecast (perform_all events w) [] ≡ forecast w (jobs_of events))
        × IsIdle (perform_all events w).state (perform_all events w).queue
  unfolding send run_job
  perform_all-forecast [] w h = (refl, h)
  perform_all-forecast (Event.sending job ∷ events) w h =
      let (same, idle) =
        perform_all-forecast events (send job w) (send_to-IsIdle job w.state w refl h) in
      (same ∙ send-forecast job w.state w (jobs_of events) refl h, idle)
  perform_all-forecast (Event.running ∷ events) w h =
      let (same, idle) =
        perform_all-forecast events (run_job w) (run_next-IsIdle w.state w.queue w h) in
      (same ∙ run_job-forecast w (jobs_of events), idle)

  run_next-shorter :
      (st : Option T) (queue : List (Job T R)) (w : Worker T R) (n : ℕ)
      → w.state ≡ st
      → w.queue ≡ queue
      → IsIdle st queue
      → length queue ≤ suc n
      → length (run_next st queue w).queue ≤ n
  unfolding end_thread
  run_next-shorter none queue w n e q idle short = rw (q, idle) (omega arith)
  run_next-shorter (some s) [] w n e q idle short = rw q (omega arith)
  run_next-shorter (some s) (Job.call f ∷ queue) w n e q idle short = elim (Option-cases (f s)) [
    | inl panics ↦ rw panics (omega arith)
    | inr ((t, r), returns) ↦ rw returns (omega arith)
  ]
  run_next-shorter (some s) (Job.stop ∷ queue) w n e q idle short = omega arith

  length-zero : (queue : List (Job T R)) → length queue ≤ 0 → queue ≡ []
  length-zero [] h = refl
  length-zero (job ∷ queue) h = absurd (omega arith)

  drain-forecast :
      (n : ℕ) (w : Worker T R)
      → length w.queue ≤ n
      → IsIdle w.state w.queue
      → ((drain n w).queue ≡ []) × (forecast (drain n w) [] ≡ forecast w [])
  unfolding run_job
  drain-forecast zero w short idle = (length-zero w.queue short, refl)
  drain-forecast (suc n) w short idle =
      let (empty, same) =
        drain-forecast n (run_job w) (run_next-shorter w.state w.queue w n refl refl idle short)
          (run_next-IsIdle w.state w.queue w idle) in
      (empty, same ∙ run_job-forecast w [])

  nothing_left :
      (st : Option T) (queue : List (Job T R)) (l : List (Option (Reply R)))
      → queue ≡ []
      → l ++ from_state st (queue ++ []) ≡ l
  nothing_left none queue l e = rw e (append-nil l)
  nothing_left (some s) queue l e = rw e (append-nil l)

  abbrev fresh : T → Worker T R
  fresh s = record { state = some s; queue = []; answers = [] }

  fresh-sequential :
      (s : T) (events : List (Event T R))
      → let u = perform_all events (fresh s) in
        map outcome (drain (length u.queue) u).answers ≡ sequential s (jobs_of events)
  fresh-sequential s events =
      let u = perform_all events (fresh s) in
      let (same, idle) = perform_all-forecast events (fresh s) tt in
      let (empty, kept) = drain-forecast (length u.queue) u (omega arith) idle in
      let v = drain (length u.queue) u in
      sym (nothing_left v.state v.queue (map outcome v.answers) empty) ∙ (kept ∙ same)

  -- However the sending of jobs and the rounds of the worker's thread interleave, once the thread has
  -- run as many more rounds as jobs are queued, every job has its answer, and in the order of sending
  -- they are those of the sequential object: the results of the calls, one after the other, up to the
  -- shutdown or the first call that panics, and errors from there on.
  pub perform_all-sequential :
      (s : T) (w : Worker T R) (events : List (Event T R))
      → start (ok s) ≡ ok w
      → let u = perform_all events w in
        map outcome (drain (length u.queue) u).answers ≡ sequential s (jobs_of events)
  unfolding start
  perform_all-sequential s w events started =
      let same : fresh s ≡ w = cc in rw (← same) (fresh-sequential s events)
