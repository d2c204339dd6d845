-- ===== src/Engine/Answers/Sending.antt =====
-- How the senders of src/engine.rs count: a published message is no answer, a reply is one if its
-- request is asked about. The encoder takes every value.
use kernmini.Prelude.{
  ℕ, ◌≡◌, refl, subst, String, string_eq, Bool, true, false, List, [], ◌∷◌, ◌++◌, Option, none,
  some, count_if-append, arith, if◌then◌else◌,
}
use kernmini.Json.{Value, object}
use kernmini.Errors.{Error, ok, map_err}
use kernmini.Wire.{
  signature, delimiter, Crates, Message, encode, text_field, msg_type, msg_id, from_wire,
}
use kernmini.Wire
use kernmini.Engine.Effects.{
  Output, iopub, reply, Services, M, lift, emit, fail_kernel, when, publish, send_iopub,
  report_delivery, deliver, send_reply, status,
}
use kernmini.Engine.Answers.{
  asks, is_answer, IsWritable, Sure, Sure-pure, Sure-call, Sure-first, Sure-bind_call, Sure-rest,
}

pub Sure-emit :
    {k : String} (o : Output) {n : ℕ} → (if is_answer k o then 1 else 0) ≡ n → Sure k n (emit o)
Sure-emit {k} o {n} h = record {
  total = λ w. (tt, refl);
  adds = record { at = λ w. omega (arith, count_if-append (is_answer k) w.sent (o ∷ [])) };
}

pub Sure-fail_kernel : {k : String} (e : Error) → Sure k 0 (fail_kernel e)
Sure-fail_kernel e = record { total = λ w. (tt, refl); adds = record { at = λ w. omega arith } }

pub Sure-when : {k : String} (b : Bool) {m : M (Unit {0})} → Sure k 0 m → Sure k 0 (when b m)
Sure-when true s = s
Sure-when false s = Sure-pure tt

module _ (s : Services) where
  encode_writable :
      IsWritable s
      → (m : Message) → (frames : List (List ℕ)) × (encode s.crates s.session m ≡ ok frames)
  unfolding encode
  encode_writable writable m =
      let (h, eh) = writable (object m.header) in
      let (p, ep) = writable (object m.parent_header) in
      let (d, ed) = writable (object m.metadata) in
      let (b, eb) = writable m.content in
      (
        m.identities
            ++ (delimiter
                ∷ signature s.crates s.session (h ∷ p ∷ d ∷ b ∷ [])
                ∷ h
                ∷ p
                ∷ d
                ∷ b
                ∷ m.buffers),
        rw (eh, ep, ed, eb),
      )

  -- The parent header of a reply is the header of its request.
  answer_of_reply :
      (k : String) (i sink : ℕ) (request : Message) (type : String) (content : Value)
      → (if is_answer k (reply sink (Wire.message s.crates s.session i type content (some request)))
          then 1
          else 0)
        ≡ asks k request
  unfolding Wire.message msg_type msg_id
  answer_of_reply k i sink request type content = refl

module _ (s : Services) (writable : IsWritable s) {k : String} where
  pub Sure-encode :
      (m : Message) → Sure k 0 (lift (map_err from_wire (encode s.crates s.session m)))
  Sure-encode m =
      let (frames, e) = encode_writable s writable m in
      record { total = λ w. (frames, rw e); adds = record { at = λ w. omega arith } }

  pub Sure-publish : (m : Message) → Sure k 0 (publish s m)
  unfolding publish
  Sure-publish m = Sure-rest _ _ (Sure-encode m) (λ _. Sure-emit (iopub m) refl)

  pub Sure-send_iopub :
      (parent : Message) (type : String) (content : Value)
      → Sure k 0 (send_iopub s parent type content)
  unfolding send_iopub
  Sure-send_iopub parent type content = Sure-rest _ _ (Sure-call _) Sure-publish

  pub Sure-status : (parent : Message) (state : String) → Sure k 0 (status s parent state)
  unfolding status
  Sure-status parent state = Sure-send_iopub parent "status" _

  Sure-report_delivery : (failed : Option Error) → Sure k 0 (report_delivery s failed)
  unfolding report_delivery
  Sure-report_delivery none = Sure-pure tt
  Sure-report_delivery (some e) = Sure-when _ (Sure-emit _ refl)

  Sure-deliver :
      (sink : ℕ) (m : Message)
      → Sure k (if is_answer k (reply sink m) then 1 else 0) (deliver s sink m)
  unfolding deliver
  Sure-deliver sink m = Sure-rest _ _ (Sure-encode m) λ _.
      Sure-first _ _ (Sure-emit (reply sink m) refl)
        λ _. Sure-rest _ _ (Sure-call s.delivery) Sure-report_delivery

  -- A reply is sent whatever becomes of its delivery.
  pub Sure-send_reply :
      (sink : ℕ) (request : Message) (type : String) (content : Value)
      → Sure k (asks k request) (send_reply s sink request type content)
  unfolding send_reply
  Sure-send_reply sink request type content =
      let sent : ℕ → Message = λ i. Wire.message s.crates s.session i type content (some request) in
      Sure-bind_call sent (deliver s sink) λ i.
        subst (λ n. Sure k n (deliver s sink (sent i)))
          (answer_of_reply s k i sink request type content) (Sure-deliver sink (sent i))
