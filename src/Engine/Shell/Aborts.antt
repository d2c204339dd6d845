-- ===== src/Engine/Shell/Aborts.antt =====
-- What `abort_pending` and an interrupt of src/engine.rs answer, and what they leave.
use kernmini.Prelude.{ℕ, ◌+◌, ◌≡◌, refl, ap, String, List, [], ◌∷◌, arith, Bool-cases, inl, inr}
use kernmini.Errors.{ok}
use kernmini.Engine.Queue.{Inbound, QueueItem, is_execute}
use kernmini.Engine.Effects.{World, Services}
use kernmini.Engine.Replies.{abort_execute}
use kernmini.Engine.Shell.{Shell, enqueue, enqueue_all, drain_incoming, abort_queue, abort_pending}
use kernmini.Engine.Shell.Ordered.{Fits, others, Leads-abort_pending}
use kernmini.Engine.Answers.{answers, IsWritable}
use kernmini.Engine.Answers.Handlers.{Sure-abort_execute}
use kernmini.Engine.Answers.Others.{asks_of_no_execute}
use kernmini.Engine.Balance.{waiting, queued, pending, held_asks, active_asks}
use kernmini.Engine.Balance.Controls.{Keeps-abort_pending}

-- What a shell keeps when requests arrive.
record Alike (a b : Shell) : Type 0 where
  incoming : a.incoming ≡ b.incoming
  held : a.held ≡ b.held
  active : a.active ≡ b.active

alike : (l : List Inbound) (shell : Shell) → Alike (enqueue_all l shell) shell
unfolding enqueue_all enqueue
alike [] shell = record { incoming = refl; held = refl; active = refl }
alike (i ∷ l) shell =
    let a = alike l (enqueue shell i) in
    record { incoming = a.incoming; held = a.held; active = a.active }

no_queued : (k : String) (q : List QueueItem) → queued k (others q) ≡ 0
no_queued k [] = refl
no_queued k (x ∷ q) = elim (Bool-cases (is_execute x.inbound)) [
  | inl e ↦ rw e (no_queued k q)
  | inr e ↦ rw e (omega (arith, no_queued k q, asks_of_no_execute k x.inbound e))
]

module _ (s : Services) (writable : IsWritable s) where
  abort_queue-total :
      (count : ℕ) (q : List QueueItem) (w : World)
      → (keep : List QueueItem) × ((abort_queue s count q w).0 ≡ ok keep)
  unfolding abort_queue
  abort_queue-total count [] w = ([], refl)
  abort_queue-total count (x ∷ q) w = elim (Bool-cases (is_execute x.inbound)) [
    | inl e ↦
        let (a, done) = (Sure-abort_execute s writable {k = ""} count x.inbound).total w in
        rw (e, done) (abort_queue-total count q (abort_execute s count x.inbound w).1)
    | inr e ↦ let (keep, done) = abort_queue-total count q w in rw (e, done) (x ∷ keep, refl)
  ]

  abort_pending-total :
      (shell : Shell) (w : World) → (after : Shell) × ((abort_pending s shell w).0 ≡ ok after)
  unfolding abort_pending
  abort_pending-total shell w =
      let drained = drain_incoming shell in
      let (keep, done) = abort_queue-total drained.execution_count drained.queue w in
      rw done (_, refl)

-- On a shell with a queue in order, where every JSON value can be written, `abort_pending` does not
-- fail, answers every execute request that waits or is queued, once, and leaves the other requests in
-- their order and the shell else as it was.
pub abort_pending-clears :
    (s : Services) (k : String) (c : ℕ) (shell : Shell) (w : World)
    → IsWritable s
    → Fits c shell
    → (after : Shell) × ((abort_pending s shell w).0 ≡ ok after)
      × (after ≡ record (drain_incoming shell) { queue = others (drain_incoming shell).queue })
      × (answers k (abort_pending s shell w).1
          ≡ answers k w + (waiting k shell.incoming + queued k shell.queue))
unfolding drain_incoming
abort_pending-clears s k c shell w writable f =
    let (after, done) = abort_pending-total s writable shell w in
    let (shape, fits) = (Leads-abort_pending s c shell f).at w after done in
    let same = alike shell.incoming (record shell { incoming = [] }) in
    let balance = (Keeps-abort_pending s writable {k = k} {L = Unit} shell).exact tt w after done in
    (
      after,
      done,
      shape,
      omega (
        arith,
        balance,
        ap (pending k) shape,
        no_queued k (drain_incoming shell).queue,
        ap (waiting k) same.incoming,
        ap (held_asks k) same.held,
        ap (active_asks k) same.active,
      ),
    )
