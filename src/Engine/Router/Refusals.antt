-- ===== src/Engine/Router/Refusals.antt =====
-- Requests of src/engine.rs whose shell is gone.
use kernmini.Prelude.{
  ◌≡◌, ◌≢◌, refl, ◌∙◌, String, true, false, List, none, some, string_eq, unwrap_or,
}
use kernmini.Wire.{text_field}
use kernmini.Engine.Queue.{Inbound, is_execute}
use kernmini.Engine.Effects.{◌>>=◌, pure}
use kernmini.Engine.Router.{
  Handle, Router, Runner, find, remove, retain_others, subshell_id, target, hand, route_to,
  route_shell, reply_subshell_not_found, close_route, delete_subshell,
}
use kernmini.Engine.Router.Routes.{same_text, other_text, find-remove}

gone_refused :
    (r : Runner) (router : Router) (inbound : Inbound) (explicit id : String)
    → explicit ≡ ""
    → find id router.shells ≡ none
    → route_to r router inbound explicit id
      ≡ (reply_subshell_not_found r inbound >>= λ _. pure router)
unfolding route_to hand
gone_refused r router inbound explicit id e gone = rw (same_text explicit "" e, gone) refl

-- A request for no explicit subshell whose target is gone is refused, and goes to no shell.
unreachable :
    (r : Runner) (router : Router) (inbound : Inbound)
    → subshell_id inbound.message ≡ ""
    → find (target r router inbound) router.shells ≡ none
    → route_shell r router inbound ≡ (reply_subshell_not_found r inbound >>= λ _. pure router)
unfolding route_shell
unreachable r router inbound e gone =
    gone_refused r router inbound (subshell_id inbound.message) (target r router inbound) e gone

closed :
    (router : Router) (client id : String)
    → find client router.routes ≡ some id
    → (close_route router client id true).0
      ≡ record { shells = remove id router.shells; routes = remove client router.routes }
unfolding close_route
closed router client id a = let same = same_text id id refl in rw (a, same) refl

deleted :
    (router : Router) (id : String) (shell : Handle)
    → find id router.shells ≡ some shell
    → (delete_subshell router id).0
      ≡ record { shells = remove id router.shells; routes = retain_others id router.routes }
unfolding delete_subshell
deleted router id shell h = rw h refl

target_plain :
    (r : Runner) (router : Router) (inbound : Inbound)
    → subshell_id inbound.message ≡ ""
    → is_execute inbound ≡ false
    → target r router inbound ≡ ""
unfolding target
target_plain r router inbound e x = rw (same_text (subshell_id inbound.message) "" e, x) refl

target_routed :
    (r : Runner) (router : Router) (inbound : Inbound)
    → subshell_id inbound.message ≡ ""
    → is_execute inbound ≡ true
    → target r router inbound
      ≡ unwrap_or (find (text_field "session" inbound.message.header) router.routes) ""
unfolding target
target_routed r router inbound e x = rw (same_text (subshell_id inbound.message) "" e, x) refl

removed {ℓ} : {A : Type ℓ} (k : String) (l : List (String × A)) → find k (remove k l) ≡ none
removed k l = find-remove k k l ∙ rw (same_text k k refl) refl

-- If two client sessions are routed to one subshell and the first closes its route and deletes the
-- subshell, the second one's executions without an explicit subshell are refused as for an unknown
-- subshell.
pub close_route-dangling :
    (r : Runner) (router : Router) (first second id : String) (inbound : Inbound)
    → first ≢ second
    → find first router.routes ≡ some id
    → find second router.routes ≡ some id
    → subshell_id inbound.message ≡ ""
    → text_field "session" inbound.message.header ≡ second
    → is_execute inbound ≡ true
    → let after = (close_route router first id true).0 in
      route_shell r after inbound ≡ (reply_subshell_not_found r inbound >>= λ _. pure after)
close_route-dangling r router first second id inbound differ a b e c x =
    let after : Router = record {
      shells = remove id router.shells;
      routes = remove first router.routes;
    } in
    let route : find second after.routes ≡ some id =
      find-remove first second router.routes ∙ rw (other_text first second differ) b in
    let aim : target r after inbound ≡ id =
      target_routed r after inbound e x ∙ rw (c, route) refl in
    rw (closed router first id a)
      (unreachable r after inbound e (rw aim (removed id router.shells)))

-- A deletion of a subshell with the empty id deletes the kernel's first shell: a request for no
-- explicit subshell that is no execution is refused afterwards.
pub delete_subshell-parent :
    (r : Runner) (router : Router) (shell : Handle) (inbound : Inbound)
    → find "" router.shells ≡ some shell
    → subshell_id inbound.message ≡ ""
    → is_execute inbound ≡ false
    → let after = (delete_subshell router "").0 in
      route_shell r after inbound ≡ (reply_subshell_not_found r inbound >>= λ _. pure after)
delete_subshell-parent r router shell inbound h e x =
    let after : Router = record {
      shells = remove "" router.shells;
      routes = retain_others "" router.routes;
    } in
    rw (deleted router "" shell h) (
      unreachable r after inbound e
        (rw (target_plain r after inbound e x) (removed "" router.shells)))
