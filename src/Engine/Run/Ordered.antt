-- ===== src/Engine/Run/Ordered.antt =====
-- The order of the queue through the loop of `Shell::run` in src/engine.rs.
use kernmini.Prelude.{
  ℕ, suc, ◌+◌, ◌≡◌, List, [], ◌∷◌, ◌++◌, Option, none, some, string_eq, All, length, length-append,
  arith, is_some,
}
use kernmini.Errors.{ok}
use kernmini.Engine.Queue.{QueueItem, pop_runnable}
use kernmini.Engine.Queue.Order.{IsSorted}
use kernmini.Engine.Queue.Runnable.{pop_runnable-IsSorted}
use kernmini.Engine.Effects.{World, Services, M}
use kernmini.Engine.Shell.{Shell}
use kernmini.Engine.Shell.Ordered.{
  Leads, Leads-pure, Leads-fail, Leads-if, Leads-bind, IsNumeric, Fits, Fits-enqueue,
}
use kernmini.Engine.Run.{
  Finish, Wake, received, controlled, executed, timed_out, Flow, again, returned, Turn, arrive,
  wait, proceed, step, pass, follow, run,
}
use kernmini.Engine.Balance.Passes.{left}
use kernmini.Engine.Run.Operations.{
  Leads-apply_control, Leads-finish_active, Leads-prepare, Leads-handle_item, Leads-end_shell,
  Leads-expire_hold,
}

-- A request that is received has a number for its priority.
abbrev pub IsNumericWake : Wake → Type 0
IsNumericWake (received (some i)) = IsNumeric i
IsNumericWake _ = Unit {0}

Fits-less : (c : ℕ) (shell : Shell) → Fits (suc c) shell → Fits c shell
Fits-less c shell (sorted, numeric, room) = (sorted, numeric, omega arith)

module _ (s : Services) (c : ℕ) where
  Leads-wait :
      (wake : Wake) (shell : Shell)
      → IsNumericWake wake
      → Fits (suc c) shell
      → Leads (Fits c) (wait s wake shell)
  unfolding wait
  Leads-wait (received none) shell n f = Leads-fail _
  Leads-wait (received (some i)) shell n f = Leads-pure _ (Fits-enqueue c shell i n f)
  Leads-wait (controlled none) shell n f = Leads-fail _
  Leads-wait (controlled (some x)) shell n f =
      Leads-bind _ _ (Leads-apply_control s c shell x (Fits-less c shell f))
        λ (after, answer) g. Leads-pure after g
  Leads-wait (executed panic) shell n f =
      Leads-finish_active s c shell.active panic shell (Fits-less c shell f)
  Leads-wait timed_out shell n f = Leads-expire_hold s c shell.held shell (Fits-less c shell f)

  Leads-proceed :
      (item : Option QueueItem) (wake : Wake) (shell : Shell)
      → IsNumericWake wake
      → Fits (suc c) shell
      → Leads (λ flow. Fits c (left flow)) (proceed s item wake shell)
  unfolding proceed
  Leads-proceed none wake shell n f =
      Leads-bind _ _ (Leads-wait wake shell n f) λ after g. Leads-pure (again after) g
  Leads-proceed (some item) wake shell n f =
      Leads-bind _ _ (Leads-handle_item s c shell item (Fits-less c shell f)) λ (after, ended) g.
        Leads-if ended _ _ (λ _. Leads-end_shell s c after g) (λ _. Leads-pure (again after) g)

  Leads-pass :
      (finish : Finish) (wake : Wake) (shell : Shell)
      → IsNumericWake wake
      → Fits (suc c) shell
      → Leads (λ flow. Fits c (left flow)) (pass s finish wake shell)
  unfolding pass step
  Leads-pass finish wake shell n f =
      Leads-bind _ _ (Leads-prepare s (suc c) finish shell f) λ ready g.
        Leads-if _ _ _ (λ _. Leads-end_shell s c ready (Fits-less c ready g))
          (λ _.
            Leads-proceed (pop_runnable ready.queue (is_some ready.active) ready.held).0 wake
              (record ready {
                queue = (pop_runnable ready.queue (is_some ready.active) ready.held).1;
              })
              n
              (
                pop_runnable-IsSorted ready.order ready.queue (is_some ready.active) ready.held g.0,
                g.1,
                g.2,
              ))

-- The turns that a request may arrive in, and the requests that arrive before them.
abbrev pub places : List Turn → ℕ
places [] = 0
places (turn ∷ turns) = length turn.arrived + suc (places turns)

abbrev pub AreNumeric : List Turn → Type 0
AreNumeric [] = Unit {0}
AreNumeric (turn ∷ turns) = All IsNumeric turn.arrived × IsNumericWake turn.wake × AreNumeric turns

All-append {ℓ κ} :
    {A : Type ℓ} (P : A → Type κ) (xs ys : List A) → All P xs → All P ys → All P (xs ++ ys)
All-append P [] ys a b = b
All-append P (x ∷ xs) ys (a, rest) b = (a, All-append P xs ys rest b)

Fits-arrive :
    (c : ℕ) (turn : Turn) (shell : Shell)
    → All IsNumeric turn.arrived
    → Fits (length turn.arrived + c) shell
    → Fits c (arrive turn shell)
unfolding arrive
Fits-arrive c turn shell n (sorted, numeric, room) = (
  sorted,
  All-append IsNumeric shell.incoming turn.arrived numeric n,
  omega (arith, length-append shell.incoming turn.arrived),
)

module _ (s : Services) where
  Leads-follow :
      (c : ℕ) (next : Shell → M Flow)
      → ((after : Shell)
          → Fits c after
          → Leads (λ flow. IsSorted (left flow).order (left flow).queue) (next after))
      → (flow : Flow) → Fits c (left flow)
      → Leads (λ f. IsSorted (left f).order (left f).queue) (follow next flow)
  Leads-follow c next g (again after) f = g after f
  Leads-follow c next g (returned last) f = Leads-pure (returned last) f.0

  Leads-run :
      (turns : List Turn) (shell : Shell)
      → AreNumeric turns
      → Fits (places turns) shell
      → Leads (λ flow. IsSorted (left flow).order (left flow).queue) (run s turns shell)
  unfolding run
  Leads-run [] shell n f = Leads-pure (again shell) f.0
  Leads-run (turn ∷ turns) shell (n, w, ns) f =
      Leads-bind _ _
        (Leads-pass s (places turns) turn.finish turn.wake (arrive turn shell) w
          (Fits-arrive (suc (places turns)) turn shell n f))
        λ flow g.
          Leads-follow (places turns) (λ after. run s turns after)
            (λ after. Leads-run turns after ns) flow g

-- Over any number of turns the shell's queue stays in the order of priority and arrival, if every
-- priority is a number and fewer than 2^64 requests can arrive.
pub run-IsSorted :
    (s : Services) (turns : List Turn) (shell : Shell) (flow : Flow) (w : World)
    → AreNumeric turns
    → Fits (places turns) shell
    → (run s turns shell w).0 ≡ ok flow
    → IsSorted (left flow).order (left flow).queue
run-IsSorted s turns shell flow w n f = (Leads-run s turns shell n f).at w flow
