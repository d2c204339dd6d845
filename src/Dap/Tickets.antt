-- ===== src/Dap/Tickets.antt =====
-- The answers to the requests in src/dap.rs, counted by ticket.
use kernmini.Prelude.{
  ℕ, ◌+◌, ◌^◌, ◌%◌, ◌≤◌, ◌≡◌, refl, sym, Bytes, Bool, true, false, List, [], ◌∷◌, ◌++◌, Option,
  none, some, ◌==◌, nat_eq, string_eq, arith, ltb, count_if, count_if-append, map_or, unwrap_or,
  ◌and_then◌, if◌then◌else◌, Bool-cases, inl, inr,
}
use kernmini.Json.{Value, object, Fields, get, as_u64, as_str}
use kernmini.Errors.{Error, Result, ok}
use kernmini.Dap.{
  Client, find, remove, is_dropped, assign, next_sequence, advance, request_sequence, fail_all,
  fail_pending, drop_request, hand_over, closing, given_seq, complete, complete_numbered, receive,
}

-- How many answers a ticket has got, and how many it may still get.
abbrev pub is_result : ℕ → ℕ × Result Error Value → Bool
is_result t (ticket, r) = ticket == t

abbrev pub is_entry : ℕ → ℕ × ℕ → Bool
is_entry t (seq, ticket) = ticket == t

abbrev pub answered : ℕ → Client → ℕ
answered t client = count_if (is_result t) client.results

abbrev pub expected : ℕ → Client → ℕ
expected t client = count_if (is_entry t) client.pending

-- Each ticket is answered or open at most once, and a ticket not given out yet is neither.
abbrev pub IsOnce : Client → Type 0
IsOnce client =
    (t : ℕ)
    → (answered t client + expected t client ≤ 1)
      × (client.tickets ≤ t → answered t client + expected t client ≡ 0)

-- No ticket is answered or open more often, and none is given back.
pub record Fewer (client after : Client) : Type 0 where
  pub total : (t : ℕ) → answered t after + expected t after ≤ answered t client + expected t client
  pub tickets : client.tickets ≤ after.tickets

pub Fewer-IsOnce : (client after : Client) → Fewer client after → IsOnce client → IsOnce after
Fewer-IsOnce client after f o t = (
  omega (arith, f.total t, (o t).0),
  λ h. omega (arith, f.total t, (o t).1 (omega (arith, f.tickets))),
)

Fewer-refl : (client : Client) → Fewer client client
Fewer-refl client = record { total = λ t. omega arith; tickets = omega arith }

Fewer-either :
    (client : Client) (b : Bool) (x y : Client)
    → Fewer client x
    → Fewer client y
    → Fewer client (if b then x else y)
Fewer-either client true x y f g = f
Fewer-either client false x y f g = g

pub Fewer-trans : (a b c : Client) → Fewer a b → Fewer b c → Fewer a c
Fewer-trans a b c f g = record {
  total = λ t. omega (arith, f.total t, g.total t);
  tickets = omega (arith, f.tickets, g.tickets);
}

answered-fail_all :
    (t : ℕ) (reason : Error) (l : List (ℕ × ℕ))
    → count_if (is_result t) (fail_all reason l) ≡ count_if (is_entry t) l
answered-fail_all t reason [] = refl
answered-fail_all t reason ((k, u) ∷ l) = omega (arith, answered-fail_all t reason l)

-- The first reason for the end stays, every open request gets one answer, and none is open any
-- more.
pub fail_pending-completes :
    (client : Client) (failure : Error) (t : ℕ)
    → let after = fail_pending client failure in
      (after.pending ≡ [])
      × (after.close ≡ some (unwrap_or client.close failure))
      × (answered t after ≡ answered t client + expected t client)
unfolding fail_pending
fail_pending-completes client failure t =
    let reason = unwrap_or client.close failure in
    (
      refl,
      refl,
      omega (
        arith,
        count_if-append (is_result t) client.results (fail_all reason client.pending),
        answered-fail_all t reason client.pending,
      ),
    )

remove_fewer :
    (t seq : ℕ) (l : List (ℕ × ℕ)) → count_if (is_entry t) (remove seq l) ≤ count_if (is_entry t) l
unfolding remove
remove_fewer t seq [] = omega arith
remove_fewer t seq ((k, u) ∷ l) = elim (Bool-cases (k == seq)) [
  | inl e ↦ rw e (omega arith)
  | inr e ↦ rw e (omega (arith, remove_fewer t seq l))
]

-- The entry that is found is the one that is removed.
pub remove_found :
    (t seq ticket : ℕ) (l : List (ℕ × ℕ))
    → find seq l ≡ some ticket
    → count_if (is_entry t) l
      ≡ count_if (is_entry t) (remove seq l) + (if ticket == t then 1 else 0)
unfolding remove find
remove_found t seq ticket [] h = absurd (cc)
remove_found t seq ticket ((k, u) ∷ l) h = elim (Bool-cases (k == seq)) [
  | inl e ↦ let same : u ≡ ticket = ground arith in rw (e, sym same) (omega arith)
  | inr e ↦ rw e (omega (arith, remove_found t seq ticket l (ground arith)))
]

pub fail_pending-tickets :
    (client : Client) (failure : Error) → (fail_pending client failure).tickets ≡ client.tickets
unfolding fail_pending
fail_pending-tickets client failure = refl

pub Fewer-fail_pending :
    (client : Client) (failure : Error) → Fewer client (fail_pending client failure)
Fewer-fail_pending client failure = record {
  total = λ t.
      let (gone, reason, all) = fail_pending-completes client failure t in
      rw gone (omega (arith, all));
  tickets = omega (arith, fail_pending-tickets client failure);
}

pub Fewer-drop_request :
    (client : Client) (seq ticket : ℕ) → Fewer client (drop_request client seq ticket)
unfolding drop_request
Fewer-drop_request client seq ticket =
    let closed = record client { dropped = ticket ∷ client.dropped } in
    Fewer-either client (map_or false (is_dropped closed) (find seq client.pending))
      (record closed { pending = remove seq client.pending }) closed
      (record {
        total = λ t. omega (arith, remove_fewer t seq client.pending);
        tickets = omega arith;
      })
      (record { total = λ t. omega arith; tickets = omega arith })

pub Fewer-hand_over :
    (client : Client) (close : Option Error) (seq ticket : ℕ) (frame : Bytes) (connected : Bool)
    → Fewer client (hand_over client close seq ticket frame connected).0
unfolding hand_over
Fewer-hand_over client (some reason) seq ticket frame connected =
    Fewer-drop_request client seq ticket
Fewer-hand_over client none seq ticket frame true = record {
  total = λ t. omega arith;
  tickets = omega arith;
}
Fewer-hand_over client none seq ticket frame false = Fewer-drop_request client seq ticket

pub Fewer-closing :
    (meanwhile : Option Error) (client : Client) → Fewer client (closing meanwhile client)
Fewer-closing none client = Fewer-refl client
Fewer-closing (some reason) client = Fewer-fail_pending client reason

Fewer-advance : (client : Client) (seq : ℕ) → Fewer client (advance client seq).0
unfolding advance
Fewer-advance client seq = elim (Bool-cases (ltb (seq + 1) (2 ^ 64))) [
  | inl e ↦ rw e (record { total = λ t. omega arith; tickets = omega arith })
  | inr e ↦ rw e (Fewer-refl client)
]

Fewer-assign :
    (client : Client) (content : Fields) (given : Option ℕ)
    → let (assigned, filled, seq) = assign client content given in
      Fewer client (advance assigned seq).0
unfolding assign next_sequence
Fewer-assign client content (some seq) = Fewer-advance client seq
Fewer-assign client content none =
    let counted = record client { next_seq = (client.next_seq + 1) % 2 ^ 64 } in
    Fewer-trans client counted _ (record { total = λ t. omega arith; tickets = omega arith })
      (Fewer-advance counted client.next_seq)

-- A sequence leaves everything but the counter as it was.
pub Fewer-request_sequence :
    (client : Client) (request : Value) → Fewer client (request_sequence client request).0
unfolding request_sequence
Fewer-request_sequence client (object content) = Fewer-assign client content (given_seq content)
Fewer-request_sequence client _ = Fewer-refl client

Fewer-complete :
    (client : Client) (seq : ℕ) (found : Option ℕ) (m : Value)
    → find seq client.pending ≡ found
    → Fewer client (complete client seq found m)
unfolding complete
Fewer-complete client seq none m h = Fewer-refl client
Fewer-complete client seq (some ticket) m h = record {
  total = λ t. omega (
    arith,
    remove_found t seq ticket client.pending h,
    count_if-append (is_result t) client.results ((ticket, ok m) ∷ []),
  );
  tickets = omega arith;
}

Fewer-numbered :
    (client : Client) (seq : Option ℕ) (m : Value) → Fewer client (complete_numbered client seq m)
unfolding complete_numbered
Fewer-numbered client none m = Fewer-refl client
Fewer-numbered client (some seq) m = Fewer-complete client seq (find seq client.pending) m refl

pub Fewer-receive : (client : Client) (m : Value) → Fewer client (receive client m)
unfolding receive
Fewer-receive client m =
    Fewer-either client (map_or false (λ type. type == "event") (get "type" m and_then as_str))
      (record client { events = client.events ++ m ∷ [] }) _
      (record { total = λ t. omega arith; tickets = omega arith })
      (Fewer-numbered client (get "request_seq" m and_then as_u64) m)
