-- ===== src/Engine/Balance/Queues.antt =====
-- The balance of an execute request in the shell's queues of src/engine.rs.
use kernmini.Prelude.{
  ℕ, ◌+◌, ◌≡◌, refl, String, Bool, true, false, List, [], ◌∷◌, ◌++◌, Option, none, some,
  count_if-append, arith, Bool-cases, inl, inr,
}
use kernmini.Float.{gt}
use kernmini.Engine.Queue.{
  Inbound, QueueItem, Held, is_execute, push, extend, is_runnable, pop_loop, pop_runnable,
}
use kernmini.Engine.Shell.{Shell, enqueue, enqueue_all, drain_incoming}
use kernmini.Engine.Answers.{is_ask, asks}
use kernmini.Engine.Balance.{waiting, queued, pending}

queued-push :
    (k : String) (x : QueueItem) (q : List QueueItem)
    → queued k (push x q) ≡ asks k x.inbound.message + queued k q
unfolding push
queued-push k x [] = refl
queued-push k x (y ∷ q) = grind (arith, queued-push k x q)

pub queued-extend :
    (k : String) (q more : List QueueItem) → queued k (extend q more) ≡ queued k q + queued k more
unfolding extend
queued-extend k q [] = omega arith
queued-extend k q (x ∷ more) = omega (arith, queued-extend k (push x q) more, queued-push k x q)

pub pending-enqueue :
    (k : String) (shell : Shell) (i : Inbound)
    → pending k (enqueue shell i) ≡ pending k shell + asks k i.message
unfolding enqueue
pending-enqueue k shell i =
    omega
      (arith, queued-push k (record { priority = _; order = shell.order; inbound = i }) shell.queue)

pending-enqueue_all :
    (k : String) (l : List Inbound) (shell : Shell)
    → pending k (enqueue_all l shell) ≡ pending k shell + waiting k l
unfolding enqueue_all
pending-enqueue_all k [] shell = omega arith
pending-enqueue_all k (i ∷ l) shell =
    omega (arith, pending-enqueue_all k l (enqueue shell i), pending-enqueue k shell i)

pub pending-drain_incoming :
    (k : String) (shell : Shell) → pending k (drain_incoming shell) ≡ pending k shell
unfolding drain_incoming
pending-drain_incoming k shell =
    omega (arith, pending-enqueue_all k shell.incoming (record shell { incoming = [] }))

abbrev pub taken : String → Option QueueItem → ℕ
taken k none = 0
taken k (some item) = asks k item.inbound.message

queued-pop_loop :
    (k : String) (active : Bool) (held : Option Held) (q parked : List QueueItem)
    → let (item, left, put_by) = pop_loop active held q parked in
      taken k item + queued k left + queued k put_by ≡ queued k q + queued k parked
unfolding pop_loop
queued-pop_loop k active held [] parked = omega arith
queued-pop_loop k active held (x ∷ q) parked = elim (Bool-cases (is_runnable active held x)) [
  | inl run ↦ rw run (omega arith)
  | inr wait ↦ rw wait (
      omega (
        arith,
        queued-pop_loop k active held q (parked ++ x ∷ []),
        count_if-append (λ y. is_ask k y.inbound.message) parked (x ∷ []),
      ))
]

-- What `pop_runnable` takes and what it leaves is what was queued.
pub queued-pop_runnable :
    (k : String) (q : List QueueItem) (active : Bool) (held : Option Held)
    → taken k (pop_runnable q active held).0 + queued k (pop_runnable q active held).1 ≡ queued k q
unfolding pop_runnable
queued-pop_runnable k q active held = omega (
  arith,
  queued-pop_loop k active held q [],
  queued-extend k (pop_loop active held q []).1 (pop_loop active held q []).2,
)

runs :
    (active : Bool) (held : Option Held) (q parked : List QueueItem) (item : QueueItem)
    → (pop_loop active held q parked).0 ≡ some item
    → is_runnable active held item ≡ true
unfolding pop_loop
runs active held [] parked item h = absurd (cc)
runs active held (x ∷ q) parked item h = elim (Bool-cases (is_runnable active held x)) [
  | inl run ↦ ground arith
  | inr wait ↦ runs active held q (parked ++ x ∷ []) item (ground arith)
]

-- Whether an item is above the held one, where one is held.
abbrev pub IsAbove : Option Held → QueueItem → Type 0
IsAbove none item = Unit {0}
IsAbove (some held) item = gt item.priority held.item.priority ≡ true

above :
    (active : Bool) (held : Option Held) (item : QueueItem)
    → is_runnable active held item ≡ true
    → is_execute item.inbound ≡ true
    → (active ≡ false) × IsAbove held item
unfolding is_runnable
above active none item r e = (ground arith, tt)
above active (some held) item r e = (ground arith, ground arith)

-- From any queue `pop_runnable` takes an execution only while none is active, and while one is held
-- only with a greater priority than the held one.
pub pop_runnable-IsAbove :
    (q : List QueueItem) (active : Bool) (held : Option Held) (item : QueueItem)
    → (pop_runnable q active held).0 ≡ some item
    → is_execute item.inbound ≡ true
    → (active ≡ false) × IsAbove held item
unfolding pop_runnable
pop_runnable-IsAbove q active held item h e =
    above active held item (runs active held q [] item h) e
