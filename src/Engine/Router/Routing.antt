-- ===== src/Engine/Router/Routing.antt =====
-- What the routing of src/engine.rs does with a request.
use kernmini.Prelude.{
  ℕ, ◌+◌, ◌≡◌, refl, String, Bool, true, false, not, ◌&&◌, Option, none, some, ◌==◌, string_eq,
  is_some, if◌then◌else◌,
}
use kernmini.Errors.{Error, Result, ok, err, display}
use kernmini.Engine.Queue.{Inbound}
use kernmini.Engine.Effects.{World, M, ◌>>=◌, pure, call}
use kernmini.Engine.Answers.{asks, answers, IsWritable}
use kernmini.Engine.Router.{
  Handle, Router, Runner, find, subshell_id, grow, admit, create_subshell, requested_or, open_route,
  routed, reply_subshell_not_found, target, hand, route_created, route_to, route_shell,
}
use kernmini.Engine.Router.Delivery.{sent_to, Sure-subshell_error, Sure-not_found, Keeps-route_to}

-- `m` does not fail.
pub record Total {ℓ} {A : Type ℓ} (m : M A) : Type ℓ where
  pub at : (w : World) → (a : A) × ((m w).0 ≡ ok a)

pub Total-bind {ℓ κ} :
    {A : Type ℓ} {B : Type κ} (m : M A) (f : A → M B)
    → Total m
    → ((a : A) → Total (f a))
    → Total (m >>= f)
Total-bind m f s g = record { at = λ w. let (a, e) = s.at w in rw e ((g a).at (m w).1) }

pub Total-if {ℓ} :
    {A : Type ℓ} (b : Bool) (m o : M A) → Total m → Total o → Total (if b then m else o)
Total-if true m o s t = s
Total-if false m o s t = t

pub Total-pure {ℓ} : {A : Type ℓ} (a : A) → Total (pure a)
Total-pure a = record { at = λ w. (a, refl) }

pub Total-call {ℓ} : {A : Type ℓ} (f : ℕ → A) → Total (call f)
Total-call f = record { at = λ w. (f w.calls, refl) }

module _ (r : Runner) where
  Total-admit : (router : Router) (id : String) → Total (admit r router id)
  unfolding admit
  Total-admit router id = Total-if (id == "") _ _ (Total-pure _) (
      Total-if (not r.supports_children) _ _ (Total-pure _) (
        Total-if (is_some (find id router.shells)) _ _ (Total-pure _)
          (Total-bind _ _ (Total-call r.create_child) λ made. Total-pure (grow r router id made))))

  Total-requested_or : (requested : Option String) → Total (requested_or r requested)
  Total-requested_or none = Total-call r.services.crates.uuid
  Total-requested_or (some id) = Total-pure id

  pub Total-open_route :
      (router : Router) (client : String) (requested : Option String)
      → Total (open_route r router client requested)
  unfolding open_route create_subshell
  Total-open_route router client requested =
      Total-if (is_some (find client router.routes)) _ _ (Total-pure _) (
        Total-bind _ _ (Total-bind _ _ (Total-requested_or requested) λ id. Total-admit router id)
          λ (grown, made). Total-pure (routed r grown client made))

module _ (r : Runner) (writable : IsWritable r.services) where
  Total-refused :
      (router : Router) (i : Inbound) → Total (reply_subshell_not_found r i >>= λ _. pure router)
  Total-refused router i =
      Total-bind _ _ (record { at = (Sure-not_found r writable {k = ""} i).total })
        λ _. Total-pure router

  Total-hand :
      (router : Router) (i : Inbound) (id : String) (found : Option Handle)
      → Total (hand r router i id found)
  unfolding hand
  Total-hand router i id none = Total-refused router i
  Total-hand router i id (some handle) =
      Total-if handle.receives _ _ (Total-pure _) (Total-refused router i)

  Total-route_created :
      (router : Router) (i : Inbound) (id : String) (made : Result Error String)
      → Total (route_created r router i id made)
  unfolding route_created
  Total-route_created router i id (err e) =
      Total-bind _ _
        (record {
          at =
              (Sure-subshell_error r writable {k = ""} i "SubshellCreationError" (display e)).total;
        })
        λ _. Total-pure router
  Total-route_created router i id (ok j) = Total-hand router i id (find id router.shells)

  Total-route_to :
      (router : Router) (i : Inbound) (explicit id : String)
      → Total (route_to r router i explicit id)
  unfolding route_to create_subshell
  Total-route_to router i explicit id =
      Total-if (not (explicit == "") && not (is_some (find id router.shells))) _ _
        (Total-bind _ _ (Total-bind _ _ (Total-pure id) λ j. Total-admit r router j)
          λ (grown, made). Total-route_created grown i id made)
        (Total-hand router i id (find id router.shells))

-- Where every JSON value can be written, the routing of a request does not fail, and either sends an
-- execute request with the id `k` to one shell or answers it, and touches no other.
pub route_shell-answers :
    (r : Runner) (k : String) (router : Router) (i : Inbound) (w : World)
    → IsWritable r.services
    → (after : Router) × ((route_shell r router i w).0 ≡ ok after)
      × (answers k (route_shell r router i w).1 + sent_to k after.shells
          ≡ answers k w + (sent_to k router.shells + asks k i.message))
unfolding route_shell
route_shell-answers r k router i w writable =
    let explicit = subshell_id i.message in
    let id = target r router i in
    let (after, done) = (Total-route_to r writable router i explicit id).at w in
    (after, done, (Keeps-route_to r writable router i explicit id).exact tt w after done)
