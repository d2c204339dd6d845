-- ===== src/Python/Settled.antt =====
-- What the interrupts of src/py/src/python.rs come to when what they set going has run: the signal
-- handler, then the deliveries, then the cancellations.
use kernmini.Prelude.{ℕ, zero, suc, ◌+◌, ◌≡◌, refl, ◌∙◌, Bool, true, false, Option, arith}
use kernmini.Python.UserCode.{deliver, cancel, handle_sigint}
use kernmini.Python.Carriers.{
  State, Reach, next, delivering, cancelling, signalled, on_delivery, on_cancel, on_sigint,
  as_number, IsCarried, Reach-IsCarried,
}

abbrev settle_if : Bool → State → State
settle_if true s = on_sigint s
settle_if false s = s

abbrev settle_signal : State → State
settle_signal s = settle_if s.shared.code.woken s

abbrev settle_cancels : ℕ → State → State
settle_cancels zero s = s
settle_cancels (suc n) s = settle_cancels n (on_cancel s)

-- The interrupts that were delivered, and the one that is pending.
abbrev total : State → ℕ
total s = s.taken + as_number s.shared.code.pending

module _ (unix : Bool) (main_thread : Option ℕ) where
  abbrev settle_deliveries : ℕ → State → State
  settle_deliveries zero s = s
  settle_deliveries (suc n) s = settle_deliveries n (on_delivery unix main_thread 1 s)

  record IsSettling (s t : State) : Type 0 where
    reach : Reach unix main_thread t
    quiet : t.shared.code.woken ≡ false
    running : t.finished ≡ s.finished
    kept : total t ≡ total s

  -- What one more operation leaves.
  record IsKept (s t : State) : Type 0 where
    quiet : t.shared.code.woken ≡ false
    running : t.finished ≡ s.finished
    kept : total t ≡ total s

  on_sigint-IsKept : (s : State) → s.shared.code.woken ≡ true → IsKept s (on_sigint s)
  unfolding handle_sigint
  on_sigint-IsKept s e = ground arith

  on_delivery-IsKept :
      (s : State) → s.shared.code.woken ≡ false → IsKept s (on_delivery unix main_thread 1 s)
  unfolding deliver
  on_delivery-IsKept s e = ground arith

  on_cancel-IsKept : (s : State) → s.shared.code.woken ≡ false → IsKept s (on_cancel s)
  unfolding cancel
  on_cancel-IsKept s e = ground arith

  on_delivery-one :
      (n : ℕ) (s : State) → suc n ≡ s.deliveries → n ≡ (on_delivery unix main_thread 1 s).deliveries
  unfolding deliver
  on_delivery-one n s e = ground arith

  on_cancel-one : (n : ℕ) (s : State) → suc n ≡ s.cancels → n ≡ (on_cancel s).cancels
  unfolding cancel
  on_cancel-one n s e = ground arith

  on_cancel-deliveries : (s : State) → (on_cancel s).deliveries ≡ s.deliveries
  unfolding cancel
  on_cancel-deliveries s = ground arith

  settle_if-IsSettling :
      (b : Bool) (s : State)
      → s.shared.code.woken ≡ b
      → Reach unix main_thread s
      → IsSettling s (settle_if b s)
  settle_if-IsSettling true s e r =
      let k = on_sigint-IsKept s e in
      record { reach = next r signalled; quiet = k.quiet; running = k.running; kept = k.kept }
  settle_if-IsSettling false s e r = record { reach = r; quiet = e; running = refl; kept = refl }

  settle_deliveries-IsSettling :
      (n : ℕ) (s : State)
      → n ≡ s.deliveries
      → s.shared.code.woken ≡ false
      → Reach unix main_thread s
      → IsSettling s (settle_deliveries n s) × ((settle_deliveries n s).deliveries ≡ 0)
  settle_deliveries-IsSettling zero s e quiet r =
      (record { reach = r; quiet = quiet; running = refl; kept = refl }, omega arith)
  settle_deliveries-IsSettling (suc n) s e quiet r =
      let k = on_delivery-IsKept s quiet in
      let (rest, none_left) =
        settle_deliveries-IsSettling n (on_delivery unix main_thread 1 s) (on_delivery-one n s e)
          k.quiet (next r (delivering 1 (omega arith) (omega arith))) in
      (
        record {
          reach = rest.reach;
          quiet = rest.quiet;
          running = rest.running ∙ k.running;
          kept = rest.kept ∙ k.kept;
        },
        none_left,
      )

  settle_cancels-IsSettling :
      (n : ℕ) (s : State)
      → n ≡ s.cancels
      → s.shared.code.woken ≡ false
      → Reach unix main_thread s
      → IsSettling s (settle_cancels n s)
        × ((settle_cancels n s).cancels ≡ 0)
        × ((settle_cancels n s).deliveries ≡ s.deliveries)
  settle_cancels-IsSettling zero s e quiet r =
      (record { reach = r; quiet = quiet; running = refl; kept = refl }, omega arith, refl)
  settle_cancels-IsSettling (suc n) s e quiet r =
      let k = on_cancel-IsKept s quiet in
      let (rest, none_left, deliveries) =
        settle_cancels-IsSettling n (on_cancel s) (on_cancel-one n s e) k.quiet
          (next r (cancelling (omega arith) quiet)) in
      (
        record {
          reach = rest.reach;
          quiet = rest.quiet;
          running = rest.running ∙ k.running;
          kept = rest.kept ∙ k.kept;
        },
        none_left,
        deliveries ∙ on_cancel-deliveries s,
      )

  -- The signal handler, every delivery that is outstanding, and every cancellation.
  abbrev pub settle : State → State
  settle s =
      let quiet = settle_signal s in
      let delivered = settle_deliveries quiet.deliveries quiet in
      settle_cancels delivered.cancels delivered

  not_pending :
      (s : State)
      → IsCarried unix main_thread s
      → s.deliveries ≡ 0
      → s.cancels ≡ 0
      → s.finished ≡ false
      → s.shared.code.pending ≡ false
  not_pending s c d k f = ground arith

  all_taken : (s : State) (n : ℕ) → s.shared.code.pending ≡ false → total s ≡ n → s.taken ≡ n
  all_taken s n e k = ground arith

  -- From every state that is reached in which the execution's task is not done, letting the signal
  -- handler, the deliveries and the cancellations that are outstanding run is a run of the system after
  -- which no interrupt is pending, and one that was pending has been delivered, once.
  pub settle-delivers :
      (s : State)
      → Reach unix main_thread s
      → s.finished ≡ false
      → Reach unix main_thread (settle s)
        × ((settle s).shared.code.pending ≡ false)
        × ((settle s).taken ≡ s.taken + as_number s.shared.code.pending)
  settle-delivers s r running =
      let q = settle_if-IsSettling s.shared.code.woken s refl r in
      let quiet = settle_signal s in
      let (d, none_left) =
        settle_deliveries-IsSettling quiet.deliveries quiet refl q.quiet q.reach in
      let delivered = settle_deliveries quiet.deliveries quiet in
      let (c, none_left', deliveries) =
        settle_cancels-IsSettling delivered.cancels delivered refl d.quiet d.reach in
      let clean =
        not_pending (settle s) (Reach-IsCarried unix main_thread c.reach) (deliveries ∙ none_left)
          none_left' (c.running ∙ (d.running ∙ (q.running ∙ running))) in
      (c.reach, clean, all_taken (settle s) (total s) clean (c.kept ∙ (d.kept ∙ q.kept)))
