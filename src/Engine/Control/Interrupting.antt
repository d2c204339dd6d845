-- ===== src/Engine/Control/Interrupting.antt =====
-- An interrupt request to the kernel of src/engine.rs: what it does with the requests that wait and with
-- the shells.
use kernmini.Prelude.{
  ◌+◌, ◌≡◌, refl, String, true, not, ◌&&◌, List, [], ◌∷◌, Option, none, some, ◌==◌, string_eq, All,
  is_some, arith, Bool-cases, inl, inr,
}
use kernmini.Json.{string, obj}
use kernmini.Errors.{Error, Result, ok, err, display}
use kernmini.Wire.{msg_type}
use kernmini.Engine.Queue.{Inbound}
use kernmini.Engine.Effects.{World, M, call}
use kernmini.Engine.Answers.{asks, answers, IsWritable}
use kernmini.Engine.Answers.Sending.{Sure-send_reply}
use kernmini.Engine.Balance.{waiting}
use kernmini.Engine.Shell.Ordered.{Leads, Leads-pure, Leads-if, Leads-bind, Leads-after}
use kernmini.Engine.Shell
use kernmini.Engine.Router.{
  Handle, Router, Runner, find, deliver_to, grow, requested_or, admit, create_subshell,
  reply_subshell_not_found, reply_subshell_error, hand, route_created, route_to, route_shell,
  subshell_id, target,
}
use kernmini.Engine.Router.Delivery.{sent_to}
use kernmini.Engine.Router.Routing.{route_shell-answers}
use kernmini.Engine.Control.{Kernel, Loop, told, interrupt_shells}
use kernmini.Engine.Control.Requests.{route_pending, route_pending_shells, interrupt_request}

-- Every shell takes what it is sent.
abbrev pub AllReceive : List (String × Handle) → Type 0
AllReceive shells = All (λ p. p.1.receives ≡ true) shells

AllReceive-deliver_to :
    (id : String) (i : Inbound) (shells : List (String × Handle))
    → AllReceive shells
    → AllReceive (deliver_to id i shells)
unfolding deliver_to
AllReceive-deliver_to id i [] a = tt
AllReceive-deliver_to id i ((j, handle) ∷ shells) a = elim (Bool-cases (j == id)) [
  | inl e ↦ rw e a
  | inr e ↦ rw e (a.0, AllReceive-deliver_to id i shells a.1)
]

module _ (r : Runner) where
  AllReceive-grow :
      (router : Router) (id : String) (made : Result Error (Unit {0}))
      → AllReceive router.shells
      → AllReceive (grow r router id made).0.shells
  AllReceive-grow router id (err e) a = a
  AllReceive-grow router id (ok u) a = (refl, a)

  Leads-admit :
      (router : Router) (id : String)
      → AllReceive router.shells
      → Leads (λ x. AllReceive x.0.shells) (admit r router id)
  unfolding admit
  Leads-admit router id a =
      Leads-if (id == "") _ _ (λ _. Leads-pure _ a)
        λ _.
          Leads-if (not r.supports_children) _ _ (λ _. Leads-pure _ a)
            λ _.
              Leads-if (is_some (find id router.shells)) _ _ (λ _. Leads-pure (router, ok id) a)
                λ _.
                  Leads-after (call r.create_child) _
                    λ made. Leads-pure (grow r router id made) (AllReceive-grow router id made a)

  Leads-hand :
      (router : Router) (i : Inbound) (id : String) (found : Option Handle)
      → AllReceive router.shells
      → Leads (λ x. AllReceive x.shells) (hand r router i id found)
  unfolding hand
  Leads-hand router i id none a =
      Leads-after (reply_subshell_not_found r i) _ λ _. Leads-pure router a
  Leads-hand router i id (some handle) a =
      Leads-if handle.receives _ _ (λ _. Leads-pure _ (AllReceive-deliver_to id i router.shells a))
        (λ _. Leads-after (reply_subshell_not_found r i) _ λ _. Leads-pure router a)

  Leads-route_created :
      (router : Router) (i : Inbound) (id : String) (made : Result Error String)
      → AllReceive router.shells
      → Leads (λ x. AllReceive x.shells) (route_created r router i id made)
  unfolding route_created
  Leads-route_created router i id (err e) a =
      Leads-after (reply_subshell_error r i "SubshellCreationError" (display e)) _
        λ _. Leads-pure router a
  Leads-route_created router i id (ok j) a = Leads-hand router i id (find id router.shells) a

  Leads-route_shell :
      (router : Router) (i : Inbound)
      → AllReceive router.shells
      → Leads (λ x. AllReceive x.shells) (route_shell r router i)
  unfolding route_shell route_to create_subshell
  Leads-route_shell router i a =
      let id = target r router i in
      let explicit = subshell_id i.message in
      Leads-if (not (explicit == "") && not (is_some (find id router.shells))) _ _
        (λ _.
          Leads-bind _ _ (Leads-after (requested_or r (some id)) _ λ j. Leads-admit router j a)
            λ (grown, made) b. Leads-route_created grown i id made b)
        (λ _. Leads-hand router i id (find id router.shells) a)

-- Every shell, told to interrupt.
abbrev pub all_told : List (String × Handle) → List (String × Handle)
all_told [] = []
all_told ((id, handle) ∷ shells) = (id, told Shell.interrupt handle) ∷ all_told shells

interrupt_shells-all :
    (shells : List (String × Handle))
    → AllReceive shells
    → interrupt_shells shells ≡ ok (all_told shells)
unfolding interrupt_shells
interrupt_shells-all [] a = refl
interrupt_shells-all ((id, handle) ∷ shells) a = rw (a.0, interrupt_shells-all shells a.1) refl

sent_to-all_told :
    (k : String) (shells : List (String × Handle)) → sent_to k (all_told shells) ≡ sent_to k shells
sent_to-all_told k [] = refl
sent_to-all_told k ((id, handle) ∷ shells) = omega (arith, sent_to-all_told k shells)

-- What the routing of the requests that wait comes to, for the id `k`.
record Routes (k : String) (router : Router) (shell : List Inbound) (w : World) (m : M Router)
    : Type 0 where
  after : Router
  done : (m w).0 ≡ ok after
  receive : AllReceive after.shells
  kept :
      answers k (m w).1 + sent_to k after.shells
      ≡ answers k w + (sent_to k router.shells + waiting k shell)

module _ (l : Loop) (writable : IsWritable l.runner.services) (k : String) where
  route_pending-Routes :
      (router : Router) (shell : List Inbound) (w : World)
      → AllReceive router.shells
      → Routes k router shell w (route_pending l router shell)
  unfolding route_pending
  route_pending-Routes router [] w a = record {
    after = router;
    done = refl;
    receive = a;
    kept = omega arith;
  }
  route_pending-Routes router (i ∷ shell) w a =
      let (next, done, kept) = route_shell-answers l.runner k router i w writable in
      let v = (route_shell l.runner router i w).1 in
      let rest =
        route_pending-Routes next shell v
          ((Leads-route_shell l.runner router i a).at w next done) in
      record {
        after = rest.after;
        done = rw done rest.done;
        receive = rest.receive;
        kept = rw done (omega (arith, kept, rest.kept));
      }

  other_asks : (i : Inbound) → msg_type i.message ≡ "interrupt_request" → asks k i.message ≡ 0
  unfolding string_eq
  other_asks i e = rw e refl

  -- Where every JSON value can be written and every shell takes what it is sent, an interrupt request
  -- succeeds. It first routes every request that waits; the replies to the execute requests with the
  -- id `k` and those sent to a shell are then together those before and those that waited. After that it
  -- has told every shell to interrupt, those that were made for the requests too, and nothing waits.
  pub interrupt_request-routes :
      (kernel : Kernel) (i : Inbound) (w : World)
      → AllReceive kernel.router.shells
      → msg_type i.message ≡ "interrupt_request"
      → (routed : Router) × ((route_pending l kernel.router kernel.shell w).0 ≡ ok routed)
        × ((interrupt_request l kernel i w).0
            ≡ ok (record kernel {
              router = record routed { shells = all_told routed.shells };
              shell = [];
            }))
        × (answers k (interrupt_request l kernel i w).1 + sent_to k (all_told routed.shells)
            ≡ answers k w + (sent_to k kernel.router.shells + waiting k kernel.shell))
  unfolding interrupt_request route_pending_shells
  interrupt_request-routes kernel i w a e =
      let routes = route_pending-Routes kernel.router kernel.shell w a in
      let all = interrupt_shells-all routes.after.shells routes.receive in
      let v = (route_pending l kernel.router kernel.shell w).1 in
      let reply =
        Sure-send_reply l.runner.services writable {k = k} i.reply i.message "interrupt_reply"
          (obj (("status", string "ok") ∷ [])) in
      let (u, replied) = reply.total v in
      (
        routes.after,
        routes.done,
        rw (routes.done, all, replied) refl,
        rw (routes.done, all, replied)
            (omega (
              arith,
              routes.kept,
              reply.adds.at v,
              other_asks i e,
              sent_to-all_told k routes.after.shells,
            )),
      )
