-- ===== src/Engine/Answers.antt =====
-- How many replies an execute request has got, and the rules by which the handlers of src/engine.rs
-- are followed through their `do` blocks.
pub mod Sending
pub mod Handlers
pub mod Executions
pub mod Others
use kernmini.Prelude.{
  ℕ, zero, suc, ◌+◌, ◌≤◌, ◌≡◌, refl, sym, ap, ◌∙◌, String, Bytes, string_eq, Bool, true, false,
  ◌&&◌, List, [], ◌∷◌, ◌++◌, Option, none, some, ◌==◌, count_if, count_if-append, arith,
  if◌then◌else◌,
}
use kernmini.Json.{Value}
use kernmini.Errors.{Error, Result, ok, err, map_err}
use kernmini.Wire.{Crates, Message, encode, text_field, msg_type, msg_id, from_wire}
use kernmini.Wire
use kernmini.Engine.Effects.{
  Output, iopub, reply, stdin, stderr, World, Services, M, continue, ◌>>=◌, pure, lift, call,
  attempt, emit, fail_kernel, when, new_message, publish, send_iopub, send_reply, status,
}

-- Whether the header is that of an execute request with the id `k`.
abbrev pub is_ask : String → Message → Bool
is_ask k m = msg_type m == "execute_request" && msg_id m == k

abbrev pub asks : String → Message → ℕ
asks k m = if is_ask k m then 1 else 0

-- Whether the output is a reply whose parent is such a request.
abbrev pub is_answer : String → Output → Bool
is_answer k (reply sink m) =
    text_field "msg_type" m.parent_header == "execute_request"
    && text_field "msg_id" m.parent_header == k
is_answer k _ = false

abbrev pub answers : String → World → ℕ
answers k w = count_if (is_answer k) w.sent

-- The JSON encoder takes every value.
abbrev pub IsWritable : Services → Type 0
IsWritable s = (v : Value) → (b : Bytes) × (s.crates.to_vec v ≡ ok b)

-- Whatever `m` results in, it sends `n` answers to `k`.
pub record Adds {ℓ} {A : Type ℓ} (k : String) (n : ℕ) (m : M A) : Type ℓ where
  pub at : (w : World) → answers k (m w).1 ≡ answers k w + n

-- And it does not fail.
pub record Sure {ℓ} {A : Type ℓ} (k : String) (n : ℕ) (m : M A) : Type ℓ where
  pub total : (w : World) → (a : A) × ((m w).0 ≡ ok a)
  pub adds : Adds k n m

module _ {ℓ} {A : Type ℓ} {k : String} where
  pub Adds-pure : (a : A) → Adds k 0 (pure a)
  Adds-pure a = record { at = λ w. omega arith }

  pub Adds-lift : (r : Result Error A) → Adds k 0 (lift r)
  Adds-lift r = record { at = λ w. omega arith }

  pub Adds-call : (f : ℕ → A) → Adds k 0 (call f)
  Adds-call f = record { at = λ w. omega arith }

  pub Sure-pure : (a : A) → Sure k 0 (pure a)
  Sure-pure a = record { total = λ w. (a, refl); adds = Adds-pure a }

  pub Sure-call : (f : ℕ → A) → Sure k 0 (call f)
  Sure-call f = record { total = λ w. (f w.calls, refl); adds = Adds-call f }

  pub Sure-attempt : {n : ℕ} {m : M A} → Adds k n m → Sure k n (attempt m)
  Sure-attempt {m = m} a = record {
    total = λ w. ((m w).0, refl);
    adds = record { at = λ w. a.at w };
  }

  pub Sure-if :
      {n : ℕ} (b : Bool) (m o : M A)
      → (b ≡ true → Sure k n m)
      → (b ≡ false → Sure k n o)
      → Sure k n (if b then m else o)
  Sure-if true m o f g = f refl
  Sure-if false m o f g = g refl

  -- A failure that ends the shell, or goes on.
  pub Adds-fail_or : (b : Bool) (e : Error) (a : A) → Adds k 0 (if b then lift (err e) else pure a)
  Adds-fail_or true e a = Adds-lift (err e)
  Adds-fail_or false e a = Adds-pure a

module _ {ℓ κ} {A : Type ℓ} {B : Type κ} {k : String} where
  bind_at :
      {n p : ℕ} (m : M A) (f : A → M B) (w : World)
      → Sure k n m
      → ((a : A) → Adds k p (f a))
      → answers k ((m >>= f) w).1 ≡ answers k w + (n + p)
  bind_at m f w s g = let (a, e) = s.total w in rw e (omega (arith, s.adds.at w, (g a).at (m w).1))

  -- The first part adds nothing, or the rest adds nothing.
  pub Adds-first :
      {n : ℕ} (m : M A) (f : A → M B) → Sure k n m → ((a : A) → Adds k 0 (f a)) → Adds k n (m >>= f)
  Adds-first m f s g = record { at = λ w. omega (arith, bind_at m f w s g) }

  pub Adds-rest :
      {n : ℕ} (m : M A) (f : A → M B) → Sure k 0 m → ((a : A) → Adds k n (f a)) → Adds k n (m >>= f)
  Adds-rest m f s g = record { at = λ w. omega (arith, bind_at m f w s g) }

  pub Sure-first :
      {n : ℕ} (m : M A) (f : A → M B) → Sure k n m → ((a : A) → Sure k 0 (f a)) → Sure k n (m >>= f)
  Sure-first m f s g = record {
    total = λ w. let (a, e) = s.total w in rw e ((g a).total (m w).1);
    adds = Adds-first m f s (λ a. (g a).adds);
  }

  pub Sure-rest :
      {n : ℕ} (m : M A) (f : A → M B) → Sure k 0 m → ((a : A) → Sure k n (f a)) → Sure k n (m >>= f)
  Sure-rest m f s g = record {
    total = λ w. let (a, e) = s.total w in rw e ((g a).total (m w).1);
    adds = Adds-rest m f s (λ a. (g a).adds);
  }

  -- Where the first part may fail, neither adds anything.
  pub Adds-quiet :
      (m : M A) (f : A → M B) → Adds k 0 m → ((a : A) → Adds k 0 (f a)) → Adds k 0 (m >>= f)
  Adds-quiet m f s g = record { at = λ w. quiet w (m w).0 refl }
    where
      quiet :
          (w : World) (r : Result Error A)
          → (m w).0 ≡ r
          → answers k (continue r f (m w).1).1 ≡ answers k w + 0
      quiet w (ok a) e = omega (arith, s.at w, (g a).at (m w).1)
      quiet w (err x) e = s.at w

  -- What a call answers may be used.
  pub Sure-bind_call :
      {n : ℕ} (f : ℕ → A) (g : A → M B) → ((i : ℕ) → Sure k n (g (f i))) → Sure k n (call f >>= g)
  Sure-bind_call f g h = record {
    total = λ w. (h w.calls).total (record w { calls = suc w.calls });
    adds = record { at = λ w. (h w.calls).adds.at (record w { calls = suc w.calls }) };
  }
