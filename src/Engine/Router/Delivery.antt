-- ===== src/Engine/Router/Delivery.antt =====
-- The balance of an execute request through the routing of src/engine.rs.
use kernmini.Prelude.{
  ℕ, ◌+◌, ◌≡◌, refl, sym, subst, String, not, ◌&&◌, List, [], ◌∷◌, Option, none, some, ◌==◌,
  string_eq, is_some, count_if-append, arith, Bool-cases, inl, inr,
}
use kernmini.Prelude.Text.{ends_with}
use kernmini.Errors.{Error, Result, ok, err, display}
use kernmini.Wire.{msg_type}
use kernmini.Engine.Queue.{Inbound}
use kernmini.Engine.Effects.{◌>>=◌, pure}
use kernmini.Engine.Answers.{is_ask, asks, IsWritable, Adds, Sure, Sure-pure, Sure-if, Adds-call}
use kernmini.Engine.Answers.Handlers.{asks_of_other, Sure-reply_error}
use kernmini.Engine.Balance.{
  waiting, Keeps, Keeps-pure, Keeps-frame, Keeps-if, Keeps-bind, Keeps-then,
}
use kernmini.Engine.Router.{
  Handle, Router, Runner, find, deliver_to, reply_subshell_error, reply_subshell_not_found, grow,
  requested_or, admit, create_subshell, hand, route_created, route_to,
}

-- How many requests with the id `k` have been sent to the shells.
abbrev pub sent_to : String → List (String × Handle) → ℕ
sent_to k [] = 0
sent_to k ((id, handle) ∷ l) = waiting k handle.incoming + sent_to k l

sent_to-deliver_to :
    (k id : String) (i : Inbound) (l : List (String × Handle)) (handle : Handle)
    → find id l ≡ some handle
    → sent_to k (deliver_to id i l) ≡ sent_to k l + asks k i.message
unfolding find deliver_to
sent_to-deliver_to k id i [] handle h = absurd (cc)
sent_to-deliver_to k id i ((j, x) ∷ l) handle h = elim (Bool-cases (j == id)) [
  | inl e ↦ rw e (omega (arith, count_if-append (λ m. is_ask k m.message) x.incoming (i ∷ [])))
  | inr e ↦ rw e (omega (arith, sent_to-deliver_to k id i l handle (ground arith)))
]

module _ (r : Runner) (writable : IsWritable r.services) {k : String} where
  pub Sure-subshell_error :
      (i : Inbound) (ename evalue : String)
      → Sure k (asks k i.message) (reply_subshell_error r i ename evalue)
  unfolding reply_subshell_error
  Sure-subshell_error i ename evalue =
      Sure-if (ends_with (msg_type i.message) "_request") _ _
        (λ _. Sure-reply_error r.services writable i.message i.reply _)
        (λ h. subst (λ n. Sure k n (pure tt)) (sym (asks_of_other k i.message h)) (Sure-pure tt))

  pub Sure-not_found : (i : Inbound) → Sure k (asks k i.message) (reply_subshell_not_found r i)
  unfolding reply_subshell_not_found
  Sure-not_found i = Sure-subshell_error i _ _

  Keeps-grow :
      (router : Router) (id : String) (made : Result Error (Unit {0}))
      → Keeps k Unit
          (λ x. sent_to k x.0.shells)
          (sent_to k router.shells)
          (pure (grow r router id made))
  Keeps-grow router id (err e) = Keeps-pure _ _ (omega arith) (λ _. refl)
  Keeps-grow router id (ok u) = Keeps-pure _ _ (omega arith) (λ _. omega arith)

  Keeps-admit :
      (router : Router) (id : String)
      → Keeps k Unit (λ x. sent_to k x.0.shells) (sent_to k router.shells) (admit r router id)
  unfolding admit
  Keeps-admit router id =
      Keeps-if _ (id == "") _ _ (λ _. Keeps-pure _ _ (omega arith) (λ _. refl))
        λ _.
          Keeps-if _ (not r.supports_children) _ _ (λ _. Keeps-pure _ _ (omega arith) (λ _. refl))
            λ _.
              Keeps-if _ (is_some (find id router.shells)) _ _
                (λ _. Keeps-pure _ (router, ok id) (omega arith) (λ _. refl))
                λ _.
                  Keeps-then (sent_to k router.shells) 0 _ _ (Adds-call r.create_child)
                    (omega arith) λ made. Keeps-grow router id made

  Adds-requested_or : (requested : Option String) → Adds k 0 (requested_or r requested)
  Adds-requested_or none = Adds-call r.services.crates.uuid
  Adds-requested_or (some id) = (Sure-pure id).adds

  Keeps-create_subshell :
      (router : Router) (requested : Option String)
      → Keeps k Unit
          (λ x. sent_to k x.0.shells)
          (sent_to k router.shells)
          (create_subshell r router requested)
  unfolding create_subshell
  Keeps-create_subshell router requested =
      Keeps-then (sent_to k router.shells) 0 _ _ (Adds-requested_or requested) (omega arith)
        λ id. Keeps-admit router id

  Keeps-refused :
      (router : Router) (i : Inbound)
      → Keeps k Unit
          (λ x. sent_to k x.shells)
          (sent_to k router.shells + asks k i.message)
          (reply_subshell_not_found r i >>= λ _. pure router)
  Keeps-refused router i =
      Keeps-then (sent_to k router.shells) (asks k i.message) _ _ (Sure-not_found i).adds refl
        λ _. Keeps-pure _ router (omega arith) (λ _. refl)

  Keeps-hand :
      (router : Router) (i : Inbound) (id : String) (found : Option Handle)
      → find id router.shells ≡ found
      → Keeps k Unit
          (λ x. sent_to k x.shells)
          (sent_to k router.shells + asks k i.message)
          (hand r router i id found)
  unfolding hand
  Keeps-hand router i id none h = Keeps-refused router i
  Keeps-hand router i id (some handle) h =
      let all = sent_to-deliver_to k id i router.shells handle h in
      Keeps-if _ handle.receives _ _
        (λ _.
          Keeps-pure _ (record router { shells = deliver_to id i router.shells })
            (omega (arith, all)) (λ _. all))
        (λ _. Keeps-refused router i)

  Keeps-route_created :
      (router : Router) (i : Inbound) (id : String) (made : Result Error String)
      → Keeps k Unit
          (λ x. sent_to k x.shells)
          (sent_to k router.shells + asks k i.message)
          (route_created r router i id made)
  unfolding route_created
  Keeps-route_created router i id (err e) =
      Keeps-then (sent_to k router.shells) (asks k i.message) _ _
        (Sure-subshell_error i "SubshellCreationError" (display e)).adds refl
        λ _. Keeps-pure _ router (omega arith) (λ _. refl)
  Keeps-route_created router i id (ok j) = Keeps-hand router i id (find id router.shells) refl

  pub Keeps-route_to :
      (router : Router) (i : Inbound) (explicit id : String)
      → Keeps k Unit
          (λ x. sent_to k x.shells)
          (sent_to k router.shells + asks k i.message)
          (route_to r router i explicit id)
  unfolding route_to
  Keeps-route_to router i explicit id =
      Keeps-if _ (not (explicit == "") && not (is_some (find id router.shells))) _ _
        (λ _.
          Keeps-bind _ _ (Keeps-frame (asks k i.message) (Keeps-create_subshell router (some id)))
            λ (grown, made). Keeps-route_created grown i id made)
        (λ _. Keeps-hand router i id (find id router.shells) refl)
