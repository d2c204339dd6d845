-- ===== src/Python/Interrupted.antt =====
-- How src/py/src/python.rs tells an interrupted execution from others, up to the engine's reply.
use kernmini.Prelude.{
  ℕ, zero, suc, ◌+◌, ◌<◌, length, arith, ◌⊎◌, inl, inr, ◌≡◌, refl, ◌↔◌, ◌≢◌, string_eq, Bool, true,
  false, ◌&&◌, List, [], ◌∷◌, ◌++◌, ap,
}
use kernmini.Json.{Value}
use kernmini.Errors.{Error, Result, ok, err, new, adapter_error, interrupted, caused_by, ◌>>=◌}
use kernmini.Language.{LanguageEvent, ExecuteOutcome}
use kernmini.Python.UserCode.{Exception, keyboard_interrupt, cancelled_error, runtime_error, other}
use kernmini.Python.Outcome.{
  is_interruption, awaited, events, outcome_of, emitted, emit_all, execute_answered,
}

-- The task ended by an interruption.
abbrev pub was_interruption : Result Exception (Result Exception Value) → Bool
was_interruption (ok _) = false
was_interruption (err e) = is_interruption e

abbrev pub FailsAs {ℓ} : {A : Type ℓ} → Result Error A → (Error → Type 0) → Type 0
FailsAs (ok _) P = ⊥
FailsAs (err e) P = P e

module _ (sending : ℕ → Result Error (Unit {0})) where
  -- Every message was taken, or the first one that was not is the one after those sent.
  abbrev pub Stops : List LanguageEvent → ℕ → Result Error (Unit {0}) → List LanguageEvent → Type 0
  Stops sent n ended rest =
      ((rest ≡ []) × (ended ≡ ok tt))
      ⊎ ((failed : Error) × (rest ≢ [])
          × (sending (n + length sent) ≡ err failed)
          × (ended ≡ err failed))

  abbrev pub AreTaken : ℕ → List LanguageEvent → Type 0
  AreTaken n sent = (i : ℕ) → i < length sent → sending (n + i) ≡ ok tt

  abbrev Emits : ℕ → List LanguageEvent → List LanguageEvent × Result Error (Unit {0}) → Type 0
  Emits n es (sent, ended) =
      (rest : List LanguageEvent) × (sent ++ rest ≡ es) × AreTaken n sent × Stops sent n ended rest

  emitted-first :
      (n : ℕ) (later : List LanguageEvent)
      → sending n ≡ ok tt
      → AreTaken (suc n) later
      → (e : LanguageEvent) → AreTaken n (e ∷ later)
  emitted-first n later first taken e zero h = let same : n + 0 ≡ n = omega arith in rw same first
  emitted-first n later first taken e (suc i) h =
      let same : n + suc i ≡ suc n + i = omega arith in rw same (taken i (omega arith))

  Stops-first :
      (n : ℕ) (e : LanguageEvent) (sent rest : List LanguageEvent) (ended : Result Error (Unit {0}))
      → Stops sent (suc n) ended rest
      → Stops (e ∷ sent) n ended rest
  Stops-first n e sent rest ended (inl all) = inl all
  Stops-first n e sent rest ended (inr (failed, left, refused, same)) =
      let one : n + suc (length sent) ≡ suc n + length sent = omega arith in
      inr (failed, left, rw one refused, same)

  emitted-Emits :
      (n : ℕ) (answer : Result Error (Unit {0})) (e : LanguageEvent) (es : List LanguageEvent)
      (later : List LanguageEvent × Result Error (Unit {0}))
      → sending n ≡ answer
      → Emits (suc n) es later
      → Emits n (e ∷ es) (emitted sending answer e later)
  emitted-Emits n (ok _) e es later first (rest, same, taken, stops) = (
    rest,
    ap (λ l. e ∷ l) same,
    emitted-first n later.0 first taken e,
    Stops-first n e later.0 rest later.1 stops,
  )
  emitted-Emits n (err failed) e es later first ih = (
    e ∷ es,
    refl,
    λ i h. absurd (omega arith),
    inr (failed, (λ bad. cc), (let same : n + 0 ≡ n = omega arith in rw same first), refl),
  )

  emit_all-Emits : (n : ℕ) (es : List LanguageEvent) → Emits n es (emit_all sending n es)
  unfolding emit_all
  emit_all-Emits n [] = ([], refl, (λ i h. absurd (omega arith)), inl (refl, refl))
  emit_all-Emits n (e ∷ es) =
      emitted-Emits n (sending n) e es (emit_all sending (suc n) es) refl
        (emit_all-Emits (suc n) es)

  not_both : (flag : Bool) → (flag && false) ≢ true
  not_both true = cc
  not_both false = cc

  -- How an execution ends whose answer is `made`.
  abbrev pub EndsAs :
      List LanguageEvent
      → List LanguageEvent
      → Result Error ExecuteOutcome
      → ExecuteOutcome
      → Type 0
  EndsAs sent rest result made =
      ((rest ≡ []) × (result ≡ ok made))
      ⊎ ((failed : Error) × (rest ≢ [])
          × (sending (length sent) ≡ err failed)
          × (result ≡ err failed))

  Stops-EndsAs :
      (sent rest : List LanguageEvent) (made : ExecuteOutcome) (ended : Result Error (Unit {0}))
      → Stops sent 0 ended rest
      → EndsAs sent rest (ended >>= λ _. ok made) made
  Stops-EndsAs sent rest made ended (inl (all, done)) = inl (all, rw done refl)
  Stops-EndsAs sent rest made ended (inr (failed, left, refused, same)) =
      let shift : 0 + length sent ≡ length sent = omega arith in
      inr (failed, left, rw shift at refused, rw same refl)

  emitted-ne :
      (bad : Error) (answer : Result Error (Unit {0})) (e : LanguageEvent)
      (later : List LanguageEvent × Result Error (Unit {0}))
      → answer ≢ err bad
      → later.1 ≢ err bad
      → (emitted sending answer e later).1 ≢ err bad
  emitted-ne bad (ok _) e later first rest = rest
  emitted-ne bad (err failed) e later first rest = first

  emit_all-ne :
      (bad : Error)
      → ((n : ℕ) → sending n ≢ err bad)
      → (n : ℕ) (es : List LanguageEvent) → (emit_all sending n es).1 ≢ err bad
  unfolding emit_all
  emit_all-ne bad none_bad n [] = cc
  emit_all-ne bad none_bad n (e ∷ es) =
      emitted-ne bad (sending n) e (emit_all sending (suc n) es) (none_bad n)
        (emit_all-ne bad none_bad (suc n) es)

  then-ne :
      (bad : Error) (made : ExecuteOutcome) (ended : Result Error (Unit {0}))
      → ended ≢ err bad
      → (ended >>= λ _. ok made) ≢ err bad
  then-ne bad made (ok _) ne = cc
  then-ne bad made (err e) ne = λ same. ne (cc)

  -- Where an answer is a value, its streams and then its displays are sent one after the other, each
  -- of them taken. Either all are sent, and the outcome is the value's; or the first message that is
  -- not taken stops the sending, those before it are sent, and the result is the error it met.
  pub execute_answered-sends :
      (flag : Bool) (value : Value)
      → let (sent, result) = execute_answered sending flag (ok (ok value)) in
        (rest : List LanguageEvent) × (sent ++ rest ≡ events value)
        × ((i : ℕ) → i < length sent → sending i ≡ ok tt)
        × EndsAs sent rest result (outcome_of flag value)
  unfolding execute_answered awaited
  execute_answered-sends flag value =
      let (sent, ended) = emit_all sending 0 (events value) in
      let (rest, same, taken, stops) = emit_all-Emits 0 (events value) in
      (
        rest,
        same,
        λ i h. let shift : 0 + i ≡ i = omega arith in rw shift at (taken i h),
        Stops-EndsAs sent rest (outcome_of flag value) ended stops,
      )

  -- The result is the error of an interrupt exactly if one was requested and the task ended by a
  -- `KeyboardInterrupt` or a `CancelledError`, where no sending fails with this error.
  pub execute_answered-interrupted :
      (flag : Bool) (answer : Result Exception (Result Exception Value))
      → ((n : ℕ) → sending n ≢ err (new interrupted "execution interrupted"))
      → ((execute_answered sending flag answer).1 ≡ err (new interrupted "execution interrupted"))
        ↔ (flag && was_interruption answer ≡ true)
  unfolding execute_answered awaited adapter_error caused_by
  execute_answered-interrupted flag (ok (ok value)) sent = (
    λ same. absurd (then-ne _ (outcome_of flag value) _ (emit_all-ne _ sent 0 (events value)) same),
    λ both. absurd (not_both flag both),
  )
  execute_answered-interrupted flag (ok (err e)) sent =
      (λ same. absurd (cc), λ both. absurd (not_both flag both))
  execute_answered-interrupted true (err (keyboard_interrupt t)) sent = (λ _. refl, λ _. refl)
  execute_answered-interrupted true (err (cancelled_error t)) sent = (λ _. refl, λ _. refl)
  execute_answered-interrupted true (err (runtime_error t)) sent =
      (λ same. absurd (cc), λ both. absurd (cc))
  execute_answered-interrupted true (err (other t)) sent =
      (λ same. absurd (cc), λ both. absurd (cc))
  execute_answered-interrupted false (err e) sent = (λ same. absurd (cc), λ both. absurd (cc))
