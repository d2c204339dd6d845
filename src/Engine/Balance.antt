-- ===== src/Engine/Balance.antt =====
-- The balance of an execute request in the shell of src/engine.rs: how often it is still pending, and
-- the rules by which the shell's operations are followed.
pub mod Queues
pub mod Controls
pub mod Shells
pub mod Passes
pub mod Replies
use kernmini.Prelude.{
  ℕ, ◌+◌, ◌≤◌, ◌≡◌, refl, sym, subst, String, Bool, true, false, List, [], ◌∷◌, Option, none, some,
  count_if, arith, if◌then◌else◌,
}
use kernmini.Errors.{Error, Result, ok, err, ok_injective}
use kernmini.Engine.Queue.{Inbound, QueueItem, Held}
use kernmini.Engine.Effects.{World, M, continue, ◌>>=◌, pure, lift}
use kernmini.Engine.Shell.{ActiveExecution, Shell}
use kernmini.Engine.Answers.{is_ask, asks, answers, Adds}

abbrev pub waiting : String → List Inbound → ℕ
waiting k l = count_if (λ i. is_ask k i.message) l

abbrev pub queued : String → List QueueItem → ℕ
queued k q = count_if (λ item. is_ask k item.inbound.message) q

abbrev pub held_asks : String → Option Held → ℕ
held_asks k none = 0
held_asks k (some held) = asks k held.item.inbound.message

abbrev pub active_asks : String → Option ActiveExecution → ℕ
active_asks k none = 0
active_asks k (some active) = asks k active.inbound.message

-- How many requests with the id `k` the shell has not answered yet.
abbrev pub pending : String → Shell → ℕ
pending k shell =
    waiting k shell.incoming
    + queued k shell.queue
    + held_asks k shell.held
    + active_asks k shell.active

-- `m` starts with `n` requests open and ends with `P` of its result: it answers no more than it
-- closes, also when it fails, and as many as it closes where `L` holds.
pub record Keeps {ℓ} {A : Type ℓ} (k : String) (L : Type 0) (P : A → ℕ) (n : ℕ) (m : M A)
    : Type ℓ where
  pub failing : (w : World) → answers k (m w).1 ≤ answers k w + n
  pub most : (w : World) (a : A) → (m w).0 ≡ ok a → answers k (m w).1 + P a ≤ answers k w + n
  pub exact : L → (w : World) (a : A) → (m w).0 ≡ ok a → answers k (m w).1 + P a ≡ answers k w + n

ok_at {ℓ} : {A : Type ℓ} (P : A → ℕ) (a b : A) → ◌≡◌ {A = Result Error A} (ok a) (ok b) → P a ≡ P b
ok_at P a b e i = P (ok_injective e i)

module _ {ℓ} {A : Type ℓ} {k : String} {L : Type 0} {P : A → ℕ} where
  pub Keeps-pure : (n : ℕ) (a : A) → P a ≤ n → (L → P a ≡ n) → Keeps k L P n (pure a)
  Keeps-pure n a h e = record {
    failing = λ w. omega arith;
    most = λ w b r. omega (arith, h, ok_at P a b r);
    exact = λ l w b r. omega (arith, e l, ok_at P a b r);
  }

  pub Keeps-fail : (n : ℕ) (e : Error) → Keeps k L P n (lift (err e))
  Keeps-fail n e = record {
    failing = λ w. omega arith;
    most = λ w b r. absurd (cc);
    exact = λ l w b r. absurd (cc);
  }

  -- What is open anyway stays so.
  pub Keeps-frame : (c : ℕ) {n : ℕ} {m : M A} → Keeps k L P n m → Keeps k L (λ a. P a + c) (n + c) m
  Keeps-frame c s = record {
    failing = λ w. omega (arith, s.failing w);
    most = λ w b r. omega (arith, s.most w b r);
    exact = λ l w b r. omega (arith, s.exact l w b r);
  }

  pub Keeps-weaken : {K : Type 0} {n : ℕ} {m : M A} → (K → L) → Keeps k L P n m → Keeps k K P n m
  Keeps-weaken f s = record { failing = s.failing; most = s.most; exact = λ l. s.exact (f l) }

  pub Keeps-loosen : (n p : ℕ) {m : M A} → n ≤ p → (L → n ≡ p) → Keeps k L P n m → Keeps k L P p m
  Keeps-loosen n p h e s = record {
    failing = λ w. omega (arith, h, s.failing w);
    most = λ w b r. omega (arith, h, s.most w b r);
    exact = λ l w b r. omega (arith, e l, s.exact l w b r);
  }

  pub Keeps-at : {n p : ℕ} {m : M A} → n ≡ p → Keeps k L P n m → Keeps k L P p m
  Keeps-at {m = m} e s = subst (λ x. Keeps k L P x m) e s

  pub Keeps-if :
      (n : ℕ) (b : Bool) (m o : M A)
      → (b ≡ true → Keeps k L P n m)
      → (b ≡ false → Keeps k L P n o)
      → Keeps k L P n (if b then m else o)
  Keeps-if n true m o f g = f refl
  Keeps-if n false m o f g = g refl

-- A part that answers `j` times and leaves `c` open.
pub Keeps-Adds {ℓ} :
    {A : Type ℓ} {k : String} {L : Type 0} (c j : ℕ) (m : M A)
    → Adds k j m
    → Keeps k L (λ a. c) (c + j) m
Keeps-Adds c j m s = record {
  failing = λ w. omega (arith, s.at w);
  most = λ w a r. omega (arith, s.at w);
  exact = λ l w a r. omega (arith, s.at w);
}

module _ {ℓ κ} {A : Type ℓ} {B : Type κ} {k : String} {L : Type 0} where
  pub Keeps-bind :
      {P : A → ℕ} {R : B → ℕ} {n : ℕ} (m : M A) (f : A → M B)
      → Keeps k L P n m
      → ((a : A) → Keeps k L R (P a) (f a))
      → Keeps k L R n (m >>= f)
  Keeps-bind {P} {R} {n} m f s g = record {
    failing = λ w. fails w (m w).0 refl;
    most = λ w b. bounded w b (m w).0 refl;
    exact = λ l w b. same l w b (m w).0 refl;
  }
    where
      fails :
          (w : World) (r : Result Error A)
          → (m w).0 ≡ r
          → answers k (continue r f (m w).1).1 ≤ answers k w + n
      fails w (ok a) e = omega (arith, s.most w a e, (g a).failing (m w).1)
      fails w (err x) e = s.failing w

      bounded :
          (w : World) (b : B) (r : Result Error A)
          → (m w).0 ≡ r
          → (continue r f (m w).1).0 ≡ ok b
          → answers k (continue r f (m w).1).1 + R b ≤ answers k w + n
      bounded w b (ok a) e h = omega (arith, s.most w a e, (g a).most (m w).1 b h)
      bounded w b (err x) e h = absurd (cc)

      same :
          (l : L) (w : World) (b : B) (r : Result Error A)
          → (m w).0 ≡ r
          → (continue r f (m w).1).0 ≡ ok b
          → answers k (continue r f (m w).1).1 + R b ≡ answers k w + n
      same l w b (ok a) e h = omega (arith, s.exact l w a e, (g a).exact l (m w).1 b h)
      same l w b (err x) e h = absurd (cc)

  -- The first part answers `j` times, the rest has `c` open.
  pub Keeps-then :
      {R : B → ℕ} (c j : ℕ) {n : ℕ} (m : M A) (f : A → M B)
      → Adds k j m
      → n ≡ c + j
      → ((a : A) → Keeps k L R c (f a))
      → Keeps k L R n (m >>= f)
  Keeps-then {R = R} c j m f s e g =
      subst (λ x. Keeps k L R x (m >>= f)) (sym e) (Keeps-bind m f (Keeps-Adds c j m s) g)
