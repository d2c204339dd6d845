-- ===== src/Dap/Served.antt =====
-- The tickets of src/dap.rs that are not dropped, and how the calls of the client count them.
use kernmini.Prelude.{
  ℕ, ◌+◌, ◌^◌, ◌%◌, ◌<◌, ◌≡◌, refl, ap, ◌∙◌, Bytes, Bool, true, false, [], ◌∷◌, ◌++◌, Option, none,
  some, ◌==◌, nat_eq, string_eq, arith, ltb, count_if, count_if-append, map_or, ◌and_then◌,
  if◌then◌else◌, Bool-cases, inl, inr, ◌≢◌,
}
use kernmini.Json.{Value, object, Fields, get, as_u64, as_str}
use kernmini.Errors.{Error, ok}
use kernmini.Dap.{
  Client, find, remove, is_dropped, assign, next_sequence, advance, request_sequence, fail_pending,
  drop_request, hand_over, closing, given_seq, complete, complete_numbered, receive,
}
use kernmini.Dap.Tickets.{
  answered, expected, is_result, is_entry, remove_found, fail_pending-completes,
}

-- Each ticket that was given out and is not dropped is open or answered.
abbrev pub IsServed : Client → Type 0
IsServed client =
    (t : ℕ)
    → t < client.tickets
    → is_dropped client t ≡ false
    → answered t client + expected t client ≡ 1

-- What is not dropped after a step was not before, and counts as before.
pub record Kept (client after : Client) : Type 0 where
  pub total :
      (t : ℕ)
      → is_dropped after t ≡ false
      → answered t after + expected t after ≡ answered t client + expected t client
  pub stays : (t : ℕ) → is_dropped after t ≡ false → is_dropped client t ≡ false
  pub tickets : after.tickets ≡ client.tickets

pub Kept-IsServed : (client after : Client) → Kept client after → IsServed client → IsServed after
Kept-IsServed client after k s t h d = k.total t d ∙ s t (omega (arith, k.tickets)) (k.stays t d)

pub Kept-refl : (client : Client) → Kept client client
Kept-refl client = record { total = λ t d. refl; stays = λ t d. d; tickets = refl }

Kept-either :
    (client : Client) (b : Bool) (x y : Client)
    → Kept client x
    → Kept client y
    → Kept client (if b then x else y)
Kept-either client true x y f g = f
Kept-either client false x y f g = g

pub Kept-trans : (a b c : Client) → Kept a b → Kept b c → Kept a c
Kept-trans a b c f g = record {
  total = λ t d. g.total t d ∙ f.total t (g.stays t d);
  stays = λ t d. f.stays t (g.stays t d);
  tickets = g.tickets ∙ f.tickets;
}

fail_pending-dropped :
    (client : Client) (failure : Error) → (fail_pending client failure).dropped ≡ client.dropped
unfolding fail_pending
fail_pending-dropped client failure = refl

pub Kept-fail_pending :
    (client : Client) (failure : Error) → Kept client (fail_pending client failure)
unfolding fail_pending
Kept-fail_pending client failure = record {
  total = λ t d.
      let (gone, reason, all) = fail_pending-completes client failure t in omega (arith, all);
  stays = λ t d. d;
  tickets = refl;
}

neither : (b c : Bool) → (if b then true else c) ≡ false → (b ≡ false) × (c ≡ false)
neither true c h = absurd (cc)
neither false c h = (refl, h)

apart :
    (client : Client) (t u : ℕ) → is_dropped client u ≡ true → is_dropped client t ≡ false → u ≢ t
apart client t u e d same = absurd (cc)

other_counted :
    (client : Client) (seq t u : ℕ)
    → find seq client.pending ≡ some u
    → u ≢ t
    → count_if (is_entry t) (remove seq client.pending) ≡ count_if (is_entry t) client.pending
other_counted client seq t u h other = ground (arith, remove_found t seq u client.pending h)

-- The entry that goes has a ticket that is dropped.
dropped_entry :
    (client : Client) (seq ticket : ℕ) (found : Option ℕ)
    → find seq client.pending ≡ found
    → let closed = record client { dropped = ticket ∷ client.dropped } in
      Kept client (
        if map_or false (is_dropped closed) found
        then record closed { pending = remove seq client.pending }
        else closed)
dropped_entry client seq ticket none h = record {
  total = λ t d. refl;
  stays = λ t d. (neither (ticket == t) (is_dropped client t) d).1;
  tickets = refl;
}
dropped_entry client seq ticket (some u) h =
    let closed = record client { dropped = ticket ∷ client.dropped } in
    elim (Bool-cases (is_dropped closed u)) [
      | inl e ↦ rw e (record {
        total = λ t d.
            ap (λ n. answered t client + n) (other_counted client seq t u h (apart closed t u e d));
        stays = λ t d. (neither (ticket == t) (is_dropped client t) d).1;
        tickets = refl;
      })
      | inr e ↦ rw e (record {
        total = λ t d. refl;
        stays = λ t d. (neither (ticket == t) (is_dropped client t) d).1;
        tickets = refl;
      })
    ]

pub Kept-drop_request :
    (client : Client) (seq ticket : ℕ) → Kept client (drop_request client seq ticket)
unfolding drop_request
Kept-drop_request client seq ticket = dropped_entry client seq ticket (find seq client.pending) refl

pub Kept-hand_over :
    (client : Client) (close : Option Error) (seq ticket : ℕ) (frame : Bytes) (connected : Bool)
    → Kept client (hand_over client close seq ticket frame connected).0
unfolding hand_over
Kept-hand_over client (some reason) seq ticket frame connected = Kept-drop_request client seq ticket
Kept-hand_over client none seq ticket frame true = record {
  total = λ t d. refl;
  stays = λ t d. d;
  tickets = refl;
}
Kept-hand_over client none seq ticket frame false = Kept-drop_request client seq ticket

pub Kept-closing :
    (meanwhile : Option Error) (client : Client) → Kept client (closing meanwhile client)
Kept-closing none client = Kept-refl client
Kept-closing (some reason) client = Kept-fail_pending client reason

Kept-advance : (client : Client) (seq : ℕ) → Kept client (advance client seq).0
unfolding advance
Kept-advance client seq = elim (Bool-cases (ltb (seq + 1) (2 ^ 64))) [
  | inl e ↦ rw e (record { total = λ t d. refl; stays = λ t d. d; tickets = refl })
  | inr e ↦ rw e (Kept-refl client)
]

Kept-assign :
    (client : Client) (content : Fields) (given : Option ℕ)
    → let (assigned, filled, seq) = assign client content given in
      Kept client (advance assigned seq).0
unfolding assign next_sequence
Kept-assign client content (some seq) = Kept-advance client seq
Kept-assign client content none =
    let counted = record client { next_seq = (client.next_seq + 1) % 2 ^ 64 } in
    Kept-trans client counted _ (record { total = λ t d. refl; stays = λ t d. d; tickets = refl })
      (Kept-advance counted client.next_seq)

pub Kept-request_sequence :
    (client : Client) (request : Value) → Kept client (request_sequence client request).0
unfolding request_sequence
Kept-request_sequence client (object content) = Kept-assign client content (given_seq content)
Kept-request_sequence client _ = Kept-refl client

Kept-complete :
    (client : Client) (seq : ℕ) (found : Option ℕ) (m : Value)
    → find seq client.pending ≡ found
    → Kept client (complete client seq found m)
unfolding complete
Kept-complete client seq none m h = Kept-refl client
Kept-complete client seq (some ticket) m h = record {
  total = λ t d. omega (
    arith,
    remove_found t seq ticket client.pending h,
    count_if-append (is_result t) client.results ((ticket, ok m) ∷ []),
  );
  stays = λ t d. d;
  tickets = refl;
}

Kept-numbered :
    (client : Client) (seq : Option ℕ) (m : Value) → Kept client (complete_numbered client seq m)
unfolding complete_numbered
Kept-numbered client none m = Kept-refl client
Kept-numbered client (some seq) m = Kept-complete client seq (find seq client.pending) m refl

pub Kept-receive : (client : Client) (m : Value) → Kept client (receive client m)
unfolding receive
Kept-receive client m =
    Kept-either client (map_or false (λ type. type == "event") (get "type" m and_then as_str))
      (record client { events = client.events ++ m ∷ [] }) _
      (record { total = λ t d. refl; stays = λ t d. d; tickets = refl })
      (Kept-numbered client (get "request_seq" m and_then as_u64) m)
