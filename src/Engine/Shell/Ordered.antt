-- ===== src/Engine/Shell/Ordered.antt =====
-- The order of the shell's queue of src/engine.rs when requests arrive and when it aborts.
use mathlib.Core.List.{append-nil}
use kernmini.Prelude.{
  ℕ, suc, ◌+◌, ◌^◌, ◌<◌, ◌≡◌, refl, ap, subst, ◌∙◌, Bool, true, false, List, [], ◌∷◌, All, length,
  arith, if◌then◌else◌, Bool-cases, inl, inr,
}
use kernmini.Float.{is_nan}
use kernmini.Errors.{Error, Result, ok, err, ok_injective}
use kernmini.Engine.Queue.{Inbound, QueueItem, is_execute, extend}
use kernmini.Engine.Queue.Order.{Before, IsSorted, push-IsSorted}
use kernmini.Engine.Queue.Runnable.{extend-parked}
use kernmini.Engine.Effects.{World, Services, M, continue, ◌>>=◌, pure, lift}
use kernmini.Engine.Shell.{
  Shell, u64, priority_of, enqueue, enqueue_all, drain_incoming, abort_queue, abort_pending,
}

-- Where `m` succeeds, its result is in `P`.
pub record Leads {ℓ κ} {A : Type ℓ} (P : A → Type κ) (m : M A) : Type (ℓ ⊔ κ) where
  pub at : (w : World) (a : A) → (m w).0 ≡ ok a → P a

module _ {ℓ κ} {A : Type ℓ} {P : A → Type κ} where
  pub Leads-pure : (a : A) → P a → Leads P (pure a)
  Leads-pure a p = record { at = λ w b e. subst P (ok_injective e) p }

  pub Leads-fail : (e : Error) → Leads P (lift (err e))
  Leads-fail e = record { at = λ w b h. absurd (cc) }

  pub Leads-if :
      (b : Bool) (m o : M A)
      → (b ≡ true → Leads P m)
      → (b ≡ false → Leads P o)
      → Leads P (if b then m else o)
  Leads-if true m o f g = f refl
  Leads-if false m o f g = g refl

pub Leads-any {ℓ} : {A : Type ℓ} {m : M A} → Leads (λ a. Unit {0}) m
Leads-any = record { at = λ w a e. tt }

pub Leads-bind {ℓ κ ℓ' κ'} :
    {A : Type ℓ} {B : Type ℓ'} {P : A → Type κ} {Q : B → Type κ'} (m : M A) (f : A → M B)
    → Leads P m
    → ((a : A) → P a → Leads Q (f a))
    → Leads Q (m >>= f)
Leads-bind {A = A} {Q = Q} m f s g = record { at = λ w b. go w b (m w).0 refl }
  where
    go :
        (w : World) (b : _) (r : Result Error A)
        → (m w).0 ≡ r
        → (continue r f (m w).1).0 ≡ ok b
        → Q b
    go w b (ok a) e h = (g a (s.at w a e)).at (m w).1 b h
    go w b (err x) e h = absurd (cc)

pub Leads-after {ℓ ℓ' κ'} :
    {A : Type ℓ} {B : Type ℓ'} {Q : B → Type κ'} (m : M A) (f : A → M B)
    → ((a : A) → Leads Q (f a))
    → Leads Q (m >>= f)
Leads-after m f g = Leads-bind m f Leads-any λ a _. g a

-- The priority is a number, as every priority of a JSON text is.
abbrev pub IsNumeric : Inbound → Type 0
IsNumeric i = is_nan (priority_of i) ≡ false

-- The queue is in order, and `c` more requests can be counted.
abbrev pub Fits : ℕ → Shell → Type 0
Fits c shell =
    IsSorted shell.order shell.queue
    × All IsNumeric shell.incoming
    × (shell.order + length shell.incoming + c < 2 ^ 64)

pub Fits-enqueue :
    (c : ℕ) (shell : Shell) (i : Inbound)
    → IsNumeric i
    → Fits (suc c) shell
    → Fits c (enqueue shell i)
unfolding enqueue
Fits-enqueue c shell i n (sorted, numeric, room) =
    let next : u64 (shell.order + 1) ≡ suc shell.order = omega arith in
    rw next (push-IsSorted shell.order _ shell.queue n refl sorted, numeric, omega arith)

Fits-enqueue_all :
    (c : ℕ) (l : List Inbound) (shell : Shell)
    → All IsNumeric l
    → Fits (length l + c) shell
    → Fits c (enqueue_all l shell)
unfolding enqueue_all
Fits-enqueue_all c [] shell n f = (f.0, f.1, omega arith)
Fits-enqueue_all c (i ∷ l) shell (n, ns) f =
    Fits-enqueue_all c l (enqueue shell i) ns
      (Fits-enqueue (length l + c) shell i n (f.0, f.1, omega arith))

pub Fits-drain_incoming : (c : ℕ) (shell : Shell) → Fits c shell → Fits c (drain_incoming shell)
unfolding drain_incoming
Fits-drain_incoming c shell (sorted, numeric, room) =
    Fits-enqueue_all c shell.incoming (record shell { incoming = [] }) numeric
      (sorted, tt, omega arith)

-- The items that are no executions, in their order.
abbrev pub others : List QueueItem → List QueueItem
others [] = []
others (x ∷ q) = if is_execute x.inbound then others q else x ∷ others q

All-others {κ} : (P : QueueItem → Type κ) (q : List QueueItem) → All P q → All P (others q)
All-others P [] a = tt
All-others P (x ∷ q) a = elim (Bool-cases (is_execute x.inbound)) [
  | inl e ↦ rw e (All-others P q a.1)
  | inr e ↦ rw e (a.0, All-others P q a.1)
]

IsSorted-others : (n : ℕ) (q : List QueueItem) → IsSorted n q → IsSorted n (others q)
IsSorted-others n [] s = tt
IsSorted-others n (x ∷ q) (o, l, a, s) = elim (Bool-cases (is_execute x.inbound)) [
  | inl e ↦ rw e (IsSorted-others n q s)
  | inr e ↦ rw e (o, l, All-others (Before x) q a, IsSorted-others n q s)
]

-- A heap that is filled from a queue in order is that queue.
extend_sorted : (n : ℕ) (q : List QueueItem) → IsSorted n q → extend [] q ≡ q
extend_sorted n q s = extend-parked n [] q [] (rw (append-nil q) s) ∙ append-nil q

module _ (s : Services) where
  Leads-abort_queue :
      (count : ℕ) (q : List QueueItem) → Leads (λ keep. keep ≡ others q) (abort_queue s count q)
  unfolding abort_queue
  Leads-abort_queue count [] = Leads-pure [] refl
  Leads-abort_queue count (x ∷ q) = elim (Bool-cases (is_execute x.inbound)) [
    | inl e ↦ rw e (Leads-bind _ _ Leads-any λ _ _. Leads-abort_queue count q)
    | inr e ↦
        rw e (
          Leads-bind _ _ (Leads-abort_queue count q) λ keep h. Leads-pure (x ∷ keep) (ap (◌∷◌ x) h))
  ]

  -- What `abort_pending` leaves: the other requests, in order.
  pub Leads-abort_pending :
      (c : ℕ) (shell : Shell)
      → Fits c shell
      → Leads
          (λ after.
            (after ≡ record (drain_incoming shell) { queue = others (drain_incoming shell).queue })
            × Fits c after)
          (abort_pending s shell)
  unfolding abort_pending
  Leads-abort_pending c shell f =
      let drained = drain_incoming shell in
      let fits = Fits-drain_incoming c shell f in
      let kept = IsSorted-others drained.order drained.queue fits.0 in
      Leads-bind _ _ (Leads-abort_queue drained.execution_count drained.queue) λ keep h.
        Leads-pure _ (
          rw (h, extend_sorted drained.order (others drained.queue) kept)
            (refl, (kept, fits.1, fits.2)))
