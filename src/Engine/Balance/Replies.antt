-- ===== src/Engine/Balance/Replies.antt =====
-- The replies to an execute request that the shell of src/engine.rs takes in.
use kernmini.Prelude.{ℕ, ◌+◌, ◌≤◌, ◌≡◌, refl, ap, String, Bool, true, false, List, [], some, arith}
use kernmini.Errors.{ok}
use kernmini.Language.{ExecuteRequest}
use kernmini.Engine.Queue.{Inbound, QueueItem, Held, is_execute}
use kernmini.Engine.Effects.{World, Services, ◌>>=◌, pure}
use kernmini.Engine.Replies.{missing_fields}
use kernmini.Engine.Execute.{run_execution}
use kernmini.Engine.Shell.{
  Shell, is_hold, handle_ready, handle_checked, handle_execute, handle_item,
}
use kernmini.Engine.Run.{Finish, Wake, Flow, Turn, prepare, pass, run}
use kernmini.Engine.Answers.{asks, answers, IsWritable}
use kernmini.Engine.Answers.Handlers.{Sure-begin_hold}
use kernmini.Engine.Answers.Executions.{Adds-run_execution}
use kernmini.Engine.Balance.{pending, held_asks}
use kernmini.Engine.Balance.Passes.{
  left, arrivals, overtaken, taken_in, Keeps-prepare, Keeps-step, Keeps-run,
}

-- At the end of an execution, however it ends, exactly one reply to its request has been sent, and
-- none to another execute request, where every JSON value can be written.
pub run_execution-answers :
    (s : Services) (k : String) (i : Inbound) (e : ExecuteRequest) (count : ℕ) (interrupted : Bool)
    (w : World)
    → IsWritable s
    → answers k (run_execution s i e count interrupted w).1 ≡ answers k w + asks k i.message
run_execution-answers s k i e count interrupted w writable =
    (Adds-run_execution s writable i e count interrupted).at w

-- Over any number of turns of the shell's loop, whatever arrives and however the turns end, the
-- execute requests with the id `k` get no more replies than were pending or have arrived, where every
-- JSON value can be written.
pub run-answers_most :
    (s : Services) (k : String) (turns : List Turn) (shell : Shell) (w : World)
    → IsWritable s
    → answers k (run s turns shell w).1 ≤ answers k w + (pending k shell + arrivals k turns)
run-answers_most s k turns shell w writable = (Keeps-run s writable turns shell).failing w

-- In a pass that does not fail and in which no hold takes the place of a held request, the replies to
-- `k` and the requests `k` still pending after it are those before it and the one received: each is
-- answered or pending, not both, where every JSON value can be written.
pub pass-answers :
    (s : Services) (k : String) (finish : Finish) (wake : Wake) (shell ready : Shell) (flow : Flow)
    (w : World)
    → IsWritable s
    → (prepare s finish shell w).0 ≡ ok ready
    → overtaken ready ≡ false
    → (pass s finish wake shell w).0 ≡ ok flow
    → answers k (pass s finish wake shell w).1 + pending k (left flow)
      ≡ answers k w + (pending k shell + taken_in s k ready wake)
unfolding pass
pass-answers s k finish wake shell ready flow w writable p o h = rw p (
    omega (
      arith,
      (Keeps-prepare s writable {L = Unit} finish shell).exact tt w ready p,
      (Keeps-step s writable wake ready).exact o (prepare s finish shell w).1 flow (rw p at h),
    ))

-- The hold is announced, and nothing else is sent.
held_ready :
    (s : Services) (k : String) (shell : Shell) (item : QueueItem) (w : World)
    → IsWritable s
    → is_hold item.inbound ≡ true
    → (deadline : ℕ) × ((handle_ready s shell item w).0
        ≡ ok (record shell { held = some (record { item = item; deadline = deadline }) }))
      × (answers k (handle_ready s shell item w).1 ≡ answers k w)
unfolding handle_ready
held_ready s k shell item w writable hold =
    let begun = Sure-begin_hold s writable {k = k} shell.execution_count item in
    let (a, done) = begun.total w in rw hold (rw done (_, refl, omega (arith, begun.adds.at w)))

-- An execution that is not interrupted and lacks no field is ready.
ready_item :
    (s : Services) (shell : Shell) (item : QueueItem)
    → shell.interrupting ≡ false
    → is_execute item.inbound ≡ true
    → missing_fields item.inbound.message ≡ []
    → handle_item s shell item ≡ (handle_ready s shell item >>= λ after. pure (after, false))
unfolding handle_item handle_execute handle_checked
ready_item s shell item i e m = rw (e, i, m) refl

-- A hold that is ready takes the place of a held request without a reply to it: the held request is
-- neither answered nor pending any more, where every JSON value can be written.
pub handle_item-overtaking :
    (s : Services) (k : String) (shell : Shell) (item : QueueItem) (held : Held) (w : World)
    → IsWritable s
    → shell.held ≡ some held
    → shell.interrupting ≡ false
    → is_execute item.inbound ≡ true
    → missing_fields item.inbound.message ≡ []
    → is_hold item.inbound ≡ true
    → (after : Shell) × ((handle_item s shell item w).0 ≡ ok (after, false))
      × (answers k (handle_item s shell item w).1 ≡ answers k w)
      × (pending k after + asks k held.item.inbound.message
          ≡ pending k shell + asks k item.inbound.message)
handle_item-overtaking s k shell item held w writable h i e m hold =
    let (deadline, result, same) = held_ready s k shell item w writable hold in
    let ready = ready_item s shell item i e m in
    rw (ready, result) (_, refl, same, omega (arith, ap (held_asks k) h))
