-- ===== src/Dap/Sequences.antt =====
-- The sequences of the requests in src/dap.rs.
use kernmini.Prelude.{
  ℕ, ◌+◌, ◌^◌, ◌%◌, ◌-◌, ◌<◌, ◌≤◌, ◌≡◌, refl, sym, subst, String, Bytes, Bool, true, false, List,
  [], ◌∷◌, ◌++◌, Option, none, some, ◌==◌, nat_eq, All, arith, ltb, is_some, max, if◌then◌else◌,
  Bool-cases, inl, inr,
}
use kernmini.Json.{Value, object, Fields, insert, num}
use kernmini.Errors.{Error, Result, ok, err, ok_injective, new, invalid_input}
use kernmini.Dap.{
  Client, find, remove, assign, next_sequence, advance, request_sequence, encode_message,
  fail_pending, drop_request, hand_over, closing, register, send_framed, send_sequenced,
  send_unless, send, given_seq,
}

-- Every open request has a smaller sequence than the next.
abbrev pub IsBelow : Client → Type 0
IsBelow client = All (λ p. p.0 < client.next_seq) client.pending

below_mono : (m n : ℕ) (l : List (ℕ × ℕ)) → m ≤ n → All (λ p. p.0 < m) l → All (λ p. p.0 < n) l
below_mono m n [] h a = tt
below_mono m n (p ∷ l) h a = (omega (arith, a.0), below_mono m n l h a.1)

find_below : (n : ℕ) (l : List (ℕ × ℕ)) → All (λ p. p.0 < n) l → find n l ≡ none
unfolding find
find_below n [] a = refl
find_below n ((k, t) ∷ l) a = ground (arith, find_below n l a.1)

All-remove {κ} : (P : ℕ × ℕ → Type κ) (seq : ℕ) (l : List (ℕ × ℕ)) → All P l → All P (remove seq l)
unfolding remove
All-remove P seq [] a = tt
All-remove P seq ((k, t) ∷ l) a = elim (Bool-cases (k == seq)) [
  | inl e ↦ rw e a.1
  | inr e ↦ rw e (a.0, All-remove P seq l a.1)
]

either {ℓ κ} :
    {A : Type ℓ} (P : A → Type κ) (b : Bool) (x y : A) → P x → P y → P (if b then x else y)
either P true x y p q = p
either P false x y p q = q

drop-IsBelow :
    (client : Client) (seq ticket : ℕ) → IsBelow client → IsBelow (drop_request client seq ticket)
unfolding drop_request
drop-IsBelow client seq ticket b =
    either IsBelow _ _ _ (All-remove (λ p. p.0 < client.next_seq) seq client.pending b) b

-- A sequence is given out: the next one is greater than it, and no smaller than it was.
record Given (client after : Client) (r : Result Error ℕ) : Type 0 where
  pending : after.pending ≡ client.pending
  grows : client.next_seq ≤ after.next_seq
  greater : (seq : ℕ) → r ≡ ok seq → seq < after.next_seq

Given-advance :
    (client : Client) (seq : ℕ) → Given client (advance client seq).0 (advance client seq).1
unfolding advance
Given-advance client seq = elim (Bool-cases (ltb (seq + 1) (2 ^ 64))) [
  | inl e ↦ rw e (record {
    pending = refl;
    grows = omega arith;
    greater = λ n h. omega (arith, ok_injective {E = Error} h);
  })
  | inr e ↦ rw e (record { pending = refl; grows = omega arith; greater = λ n h. absurd (cc) })
]

Given-assign :
    (client : Client) (content : Fields) (given : Option ℕ)
    → client.next_seq + 1 < 2 ^ 64
    → let (assigned, filled, seq) = assign client content given in
      Given client (advance assigned seq).0 (advance assigned seq).1
unfolding assign next_sequence
Given-assign client content (some seq) room = Given-advance client seq
Given-assign client content none room =
    let later : (client.next_seq + 1) % 2 ^ 64 ≡ client.next_seq + 1 = omega arith in
    let g =
      Given-advance (record client { next_seq = (client.next_seq + 1) % 2 ^ 64 }) client.next_seq in
    record { pending = g.pending; grows = omega (arith, g.grows); greater = g.greater }

Given-request_sequence :
    (client : Client) (request : Value)
    → client.next_seq + 1 < 2 ^ 64
    → let (after, filled, r) = request_sequence client request in Given client after r
unfolding request_sequence
Given-request_sequence client (object content) room =
    Given-assign client content (given_seq content) room
Given-request_sequence client _ room = record {
  pending = refl;
  grows = omega arith;
  greater = λ n h. absurd (cc);
}

hand_over-IsBelow :
    (client : Client) (close : Option Error) (seq ticket : ℕ) (frame : Bytes) (connected : Bool)
    → IsBelow client
    → IsBelow (hand_over client close seq ticket frame connected).0
unfolding hand_over
hand_over-IsBelow client (some reason) seq ticket frame connected b =
    drop-IsBelow client seq ticket b
hand_over-IsBelow client none seq ticket frame true b = b
hand_over-IsBelow client none seq ticket frame false b = drop-IsBelow client seq ticket b

closing-IsBelow :
    (meanwhile : Option Error) (client : Client)
    → IsBelow client
    → IsBelow (closing meanwhile client)
unfolding fail_pending
closing-IsBelow none client b = b
closing-IsBelow (some e) client b = tt

register-IsBelow :
    (client : Client) (seq : ℕ) (frame : Bytes) (meanwhile : Option Error) (connected : Bool)
    → seq < client.next_seq
    → IsBelow client
    → IsBelow (register client seq frame meanwhile connected).0
unfolding register
register-IsBelow client seq frame meanwhile connected h b =
    elim (Bool-cases (is_some (find seq client.pending))) [
      | inl e ↦ rw e b
      | inr e ↦ rw e (
          hand_over-IsBelow _ _ seq client.tickets frame connected
            (closing-IsBelow meanwhile _ (h, b)))
    ]

framed-IsBelow :
    (client : Client) (seq : ℕ) (f : Result Error Bytes) (meanwhile : Option Error)
    (connected : Bool)
    → seq < client.next_seq
    → IsBelow client
    → IsBelow (send_framed client seq f meanwhile connected).0
unfolding send_framed
framed-IsBelow client seq (err e) meanwhile connected h b = b
framed-IsBelow client seq (ok frame) meanwhile connected h b =
    register-IsBelow client seq frame meanwhile connected h b

sequenced-IsBelow :
    (to_vec : Value → Result String Bytes) (client : Client) (request : Value) (r : Result Error ℕ)
    (meanwhile : Option Error) (connected : Bool)
    → ((seq : ℕ) → r ≡ ok seq → seq < client.next_seq)
    → IsBelow client
    → IsBelow (send_sequenced to_vec client request r meanwhile connected).0
unfolding send_sequenced
sequenced-IsBelow to_vec client request (err e) meanwhile connected h b = b
sequenced-IsBelow to_vec client request (ok seq) meanwhile connected h b =
    framed-IsBelow client seq (encode_message to_vec request) meanwhile connected (h seq refl) b

unless-IsBelow :
    (close : Option Error) (to_vec : Value → Result String Bytes) (client : Client)
    (request : Value) (meanwhile : Option Error) (connected : Bool)
    → client.next_seq + 1 < 2 ^ 64
    → IsBelow client
    → IsBelow (send_unless close to_vec client request meanwhile connected).0
unfolding send_unless
unless-IsBelow (some e) to_vec client request meanwhile connected room b = b
unless-IsBelow none to_vec client request meanwhile connected room b =
    let (after, filled, r) = request_sequence client request in
    let g = Given-request_sequence client request room in
    sequenced-IsBelow to_vec after filled r meanwhile connected g.greater (
      subst (All (λ p. p.0 < after.next_seq)) (sym g.pending)
        (below_mono client.next_seq after.next_seq client.pending g.grows b))

-- Whatever `send` is given and however it ends, every open request keeps a smaller sequence than
-- the next, as long as the counter is below its last value.
pub send-IsBelow :
    (to_vec : Value → Result String Bytes) (client : Client) (request : Value)
    (meanwhile : Option Error) (connected : Bool)
    → client.next_seq + 1 < 2 ^ 64
    → IsBelow client
    → IsBelow (send to_vec client request meanwhile connected).0
unfolding send
send-IsBelow to_vec client request meanwhile connected room b =
    unless-IsBelow client.close to_vec client request meanwhile connected room b

-- A request without a positive sequence gets the next one: where every open request has a smaller
-- sequence and the counter is below its last value, `send` succeeds on an open connection that
-- nothing closes meanwhile, its ticket is new, and the frame carries that sequence.
pub send-fresh :
    (to_vec : Value → Result String Bytes) (client : Client) (content : Fields) (frame : Bytes)
    → client.next_seq + 1 < 2 ^ 64
    → IsBelow client
    → client.close ≡ none
    → given_seq content ≡ none
    → encode_message to_vec (object (insert "seq" (num client.next_seq) content)) ≡ ok frame
    → let (after, r) = send to_vec client (object content) none true in
      (r ≡ ok (client.next_seq, client.tickets))
      × (after.pending ≡ (client.next_seq, client.tickets) ∷ client.pending)
      × (after.outgoing ≡ client.outgoing ++ frame ∷ [])
      × (after.next_seq ≡ client.next_seq + 1)
unfolding send send_unless request_sequence assign next_sequence advance send_sequenced send_framed
    register hand_over
send-fresh to_vec client content frame room b c g e =
    let later : (client.next_seq + 1) % 2 ^ 64 ≡ client.next_seq + 1 = omega arith in
    let fits : ltb (client.next_seq + 1) (2 ^ 64) ≡ true = ground arith in
    let absent = find_below client.next_seq client.pending b in
    let top : max (client.next_seq + 1) (client.next_seq + 1) ≡ client.next_seq + 1 = omega arith in
    rw (c, g, later, fits, e, absent) (refl, refl, refl, top)

-- The counter wraps once a request has brought the greatest sequence but one: the next request
-- without a sequence is refused, and the one after it is given the number 0.
pub request_sequence-wraps :
    (client : Client) (first second third : Fields)
    → client.next_seq < 2 ^ 64
    → given_seq first ≡ some (2 ^ 64 - 2)
    → given_seq second ≡ none
    → given_seq third ≡ none
    → let (one, f, r) = request_sequence client (object first) in
      let (two, g, s) = request_sequence one (object second) in
      let (three, h, t) = request_sequence two (object third) in
      (r ≡ ok (2 ^ 64 - 2))
      × (s ≡ err (new invalid_input "DAP request sequence is too large"))
      × (t ≡ ok 0)
unfolding request_sequence assign next_sequence advance
request_sequence-wraps client first second third small a b c =
    let last : max client.next_seq (2 ^ 64 - 1) ≡ 2 ^ 64 - 1 = omega arith in
    rw (a, b, c, last) (refl, refl, refl)
