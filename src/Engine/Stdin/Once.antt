-- ===== src/Engine/Stdin/Once.antt =====
-- How often an input request of src/engine.rs is answered.
use kernmini.Prelude.{
  ℕ, ◌+◌, ◌≤◌, ◌≡◌, refl, String, string_eq, nat_eq, Bytes, Bool, true, false, not, List, [], ◌∷◌,
  Option, none, some, ◌==◌, if◌then◌else◌, count_if, count_if-append, ltb, arith, Bool-cases, inl,
  inr,
}
use kernmini.Wire.{msg_type}
use kernmini.Engine.Queue.{Inbound}
use kernmini.Engine.Router.{find, remove}
use kernmini.Engine.Stdin.{
  PendingInput, Stdin, begin_input, end_input, send_value, complete_key, reply_key, input_reply,
}

pub data Event : Type 0 where
  beginning : String → Bytes → Event
  replied : Inbound → Event
  ending : String → Event

abbrev pub perform : Event → Stdin → Stdin
perform (beginning msg_id identity) s = begin_input msg_id identity s
perform (replied inbound) s = input_reply inbound s
perform (ending msg_id) s = end_input msg_id s

abbrev pub run_inputs : List Event → Stdin → Stdin
run_inputs [] s = s
run_inputs (e ∷ events) s = run_inputs events (perform e s)

abbrev pub empty_stdin : Stdin
empty_stdin = record { pending = []; tickets = 0; answered = [] }

-- How often the channel `t` was sent a value, and waits.
abbrev pub answers_to : ℕ → Stdin → ℕ
answers_to t s = count_if (λ a. a.0 == t) s.answered

abbrev pub waits : ℕ → List (String × PendingInput) → ℕ
waits t l = count_if (λ p. p.1.ticket == t) l

waits-remove :
    (t : ℕ) (k : String) (l : List (String × PendingInput)) → waits t (remove k l) ≤ waits t l
unfolding remove
waits-remove t k [] = omega arith
waits-remove t k ((j, p) ∷ l) = ground (arith, waits-remove t k l)

waits-found :
    (t : ℕ) (k : String) (l : List (String × PendingInput)) (p : PendingInput)
    → find k l ≡ some p
    → waits t (remove k l) + (if p.ticket == t then 1 else 0) ≤ waits t l
unfolding find remove
waits-found t k [] p e = absurd (cc)
waits-found t k ((j, q) ∷ l) p e = elim (Bool-cases (j == k)) [
  | inl same ↦ ground (arith, waits-remove t k l)
  | inr other ↦ ground (arith, waits-found t k l p)
]

-- Every channel that was made is waited on or was sent a value at most once, and no other at all.
abbrev pub IsOnce : Stdin → Type 0
IsOnce s = (t : ℕ) → answers_to t s + waits t s.pending ≤ (if ltb t s.tickets then 1 else 0)

begin_input-IsOnce :
    (msg_id : String) (identity : Bytes) (s : Stdin)
    → IsOnce s
    → IsOnce (begin_input msg_id identity s)
unfolding begin_input
begin_input-IsOnce msg_id identity s h t = ground (arith, h t, waits-remove t msg_id s.pending)

end_input-IsOnce : (msg_id : String) (s : Stdin) → IsOnce s → IsOnce (end_input msg_id s)
unfolding end_input
end_input-IsOnce msg_id s h t = ground (arith, h t, waits-remove t msg_id s.pending)

send_value-IsOnce :
    (found : Option PendingInput) (key value : String) (s : Stdin)
    → find key s.pending ≡ found
    → IsOnce s
    → IsOnce (send_value found key value s)
send_value-IsOnce none key value s e h t = h t
send_value-IsOnce (some p) key value s e h t = ground (
  arith,
  h t,
  waits-found t key s.pending p e,
  count_if-append (λ (a : ℕ × String). a.0 == t) s.answered ((p.ticket, value) ∷ []),
)

complete_key-IsOnce :
    (key : Option String) (value : String) (s : Stdin)
    → IsOnce s
    → IsOnce (complete_key key value s)
complete_key-IsOnce none value s h = h
complete_key-IsOnce (some key) value s h = send_value-IsOnce (find key s.pending) key value s refl h

IsOnce-if : (b : Bool) (x y : Stdin) → IsOnce x → IsOnce y → IsOnce (if b then x else y)
IsOnce-if true x y h k = h
IsOnce-if false x y h k = k

input_reply-IsOnce : (inbound : Inbound) (s : Stdin) → IsOnce s → IsOnce (input_reply inbound s)
unfolding input_reply
input_reply-IsOnce inbound s h =
    IsOnce-if (not (msg_type inbound.message == "input_reply")) s _ h
      (complete_key-IsOnce (reply_key _ inbound.identity s) _ s h)

perform-IsOnce : (e : Event) (s : Stdin) → IsOnce s → IsOnce (perform e s)
perform-IsOnce (beginning msg_id identity) s h = begin_input-IsOnce msg_id identity s h
perform-IsOnce (replied inbound) s h = input_reply-IsOnce inbound s h
perform-IsOnce (ending msg_id) s h = end_input-IsOnce msg_id s h

-- Whatever input requests begin and end and whatever replies come, also for one that has ended, to an
-- unknown parent or from another client, no request is answered twice, none waits that has been
-- answered, and nothing is sent to a request that has not begun, if this holds at the start.
pub run_inputs-IsOnce : (events : List Event) (s : Stdin) → IsOnce s → IsOnce (run_inputs events s)
run_inputs-IsOnce [] s h = h
run_inputs-IsOnce (e ∷ events) s h = run_inputs-IsOnce events (perform e s) (perform-IsOnce e s h)
