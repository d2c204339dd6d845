-- ===== src/Engine/Effects.antt =====
-- What the handlers of src/engine.rs do besides computing: they send messages, call the language and
-- fail. The message that is sent is recorded; what happens on the connections is an answer of
-- `Services`.
use kernmini.Prelude.{
  ℕ, suc, String, Bytes, Bool, true, false, not, List, [], ◌∷◌, ◌++◌, Option, none, some,
  if◌then◌else◌,
}
use kernmini.Prelude.Text.{concat}
use kernmini.Json.{Value, string, obj}
use kernmini.Errors.{Error, ErrorKind, Result, ok, err, map_err, kind, display, closed}
use kernmini.Language.{LanguageSession}
use kernmini.Wire.{Crates, Message, Session, encode, from_wire}
use kernmini.Wire

pub data Output : Type 0 where
  iopub : Message → Output
  reply : ℕ → Message → Output
  stdin : Bytes → Message → Output
  stderr : String → Output

-- How a wait for input ends: by the interrupt, by the loss of the peer, by a failed sending, or after
-- the sending with the answer or the loss of the answer.
pub data Interaction : Type 0 where
  cancelled : Interaction
  peer_closed unsent : Error → Interaction
  answered : Result Error String → Interaction

-- `calls` counts the calls of code outside of the engine; `failures` is the channel to the runner.
pub record World : Type 0 where
  pub calls : ℕ
  pub sent : List Output
  pub failures : List Error

-- `ShellServices` and `KernelServices`. `delivery` says how the sending of a reply ended,
-- `interaction` how a wait for input ended;
-- `now` is `Instant::now`.
pub record Services : Type 1 where
  pub crates : Crates
  pub language : LanguageSession
  pub session : Session
  pub connection : Value
  pub supports_subshells : Bool
  pub delivery : ℕ → Option Error
  pub interaction : ℕ → Interaction
  pub now : ℕ → ℕ
  pub hold_timeout : ℕ

abbrev pub M {ℓ} : Type ℓ → Type ℓ
M A = World → Result Error A × World

module _ {ℓ κ} {A : Type ℓ} {B : Type κ} where
  abbrev pub continue : Result Error A → (A → M B) → M B
  continue (ok a) f w = f a w
  continue (err e) f w = (err e, w)

  infixl 5 ◌>>=◌ ◌>>◌
  abbrev pub ◌>>=◌ : M A → (A → M B) → M B
  ◌>>=◌ m f w = let (r, v) = m w in continue r f v

  abbrev pub ◌>>◌ : M A → M B → M B
  m >> n = m >>= λ _. n

module _ {ℓ} {A : Type ℓ} where
  abbrev pub pure : A → M A
  pure a w = (ok a, w)

  abbrev pub lift : Result Error A → M A
  lift r w = (r, w)

  -- A call of code outside of the engine.
  abbrev pub call : (ℕ → A) → M A
  call f w = (ok (f w.calls), record w { calls = suc w.calls })

  -- The result of `m` as a value, as of a call without `?`.
  abbrev pub attempt : M A → M (Result Error A)
  attempt m w = let (r, v) = m w in (ok r, v)

abbrev pub emit : Output → M (Unit {0})
emit o w = (ok tt, record w { sent = w.sent ++ o ∷ [] })

-- `failures.send(error)`
abbrev pub fail_kernel : Error → M (Unit {0})
fail_kernel e w = (ok tt, record w { failures = w.failures ++ e ∷ [] })

abbrev pub when : Bool → M (Unit {0}) → M (Unit {0})
when b m = if b then m else pure tt

abbrev pub is_closed : ErrorKind → Bool
is_closed closed = true
is_closed _ = false

module _ (s : Services) where
  -- `Session::message`
  abbrev pub new_message : String → Value → Option Message → M Message
  new_message type content parent =
      call (λ n. Wire.message s.crates s.session n type content parent)

  -- `Iopub::publish`: the encoding may fail, a subscriber's connection never makes it fail.
  unfoldable pub publish : Message → M (Unit {0})
  publish m = do lift (map_err from_wire (encode s.crates s.session m)); emit (iopub m)

  unfoldable pub send_iopub : Message → String → Value → M (Unit {0})
  unfolding publish
  send_iopub parent type content = do m ← new_message type content (some parent); publish m

  -- A failed delivery is no error; it is told on stderr unless the peer has closed.
  unfoldable pub report_delivery : Option Error → M (Unit {0})
  report_delivery none = pure tt
  report_delivery (some e) =
      when (not (is_closed (kind e)))
        (emit (stderr (concat "reply to disconnected client failed: " (display e))))

  unfoldable pub deliver : ℕ → Message → M (Unit {0})
  unfolding report_delivery
  deliver sink m = do
    lift (map_err from_wire (encode s.crates s.session m))
    emit (reply sink m)
    failed ← call s.delivery
    report_delivery failed

  unfoldable pub send_reply : ℕ → Message → String → Value → M (Unit {0})
  unfolding deliver
  send_reply sink request type content = do
    m ← new_message type content (some request)
    deliver sink m

  unfoldable pub status : Message → String → M (Unit {0})
  unfolding send_iopub
  status parent state = send_iopub parent "status" (obj (("execution_state", string state) ∷ []))
