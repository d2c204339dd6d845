-- ===== src/Engine/Router.antt =====
-- The shells of a kernel, src/engine.rs: `route_shell`, `create_subshell`, the session commands and the
-- control requests of `run_kernel_with_interrupter` that change the table of shells. A shell is known
-- by what has been sent into its channels.
pub mod Routes
pub mod Runs
pub mod Delivery
pub mod Routing
pub mod Refusals
use kernmini.Prelude.{
  ℕ, String, Bytes, Bool, true, false, not, ◌&&◌, List, [], ◌∷◌, ◌++◌, Option, none, some, ◌==◌,
  string_eq, unwrap_or, filter_option, ◌and_then◌, is_some, if◌then◌else◌,
}
use kernmini.Prelude.Text.{concat, ends_with}
use kernmini.Json.{Value, lookup, as_str}
use kernmini.Errors.{
  Error, Result, ok, err, new, invalid_input, unavailable, display, from_send, from_join,
}
use kernmini.Wire.{Message, msg_type, text_field}
use kernmini.Engine.Queue.{Inbound, is_execute}
use kernmini.Engine.Effects.{Services, M, ◌>>=◌, ◌>>◌, pure, lift, call}
use kernmini.Engine.Replies.{error_content, reply_error}
use kernmini.Engine.Shell.{ShellControl}
use kernmini.Engine.Shell

-- `ShellHandle`: what its shell has been sent, and whether the shell still receives.
pub record Handle : Type 0 where
  pub incoming : List Inbound
  pub controls : List ShellControl
  pub receives : Bool

-- The maps `shells` and `route_overrides`.
pub record Router : Type 0 where
  pub shells : List (String × Handle)
  pub routes : List (String × String)

-- The services, the language as the parent of its children, and the text that `{:?}` gives.
pub record Runner : Type 1 where
  pub services : Services
  pub supports_children : Bool
  pub create_child : ℕ → Result Error (Unit {0})
  pub debug : String → String

module _ {ℓ} {A : Type ℓ} where
  -- `HashMap::get`
  unfoldable pub find : String → List (String × A) → Option A
  find k [] = none
  find k ((j, a) ∷ l) = if j == k then some a else find k l

  -- `HashMap::remove`
  unfoldable pub remove : String → List (String × A) → List (String × A)
  remove k [] = []
  remove k ((j, a) ∷ l) = let rest = remove k l in if j == k then rest else (j, a) ∷ rest

-- `retain(|_, routed| routed != id)`
unfoldable pub retain_others : String → List (String × String) → List (String × String)
retain_others id [] = []
retain_others id ((client, routed) ∷ l) =
    let rest = retain_others id l in if routed == id then rest else (client, routed) ∷ rest

unfoldable pub subshell_id : Message → String
unfolding lookup
subshell_id request =
    unwrap_or
      (filter_option (λ id. not (id == "")) (lookup "subshell_id" request.header and_then as_str))
      ""

abbrev pub new_handle : Handle
new_handle = record { incoming = []; controls = []; receives = true }

-- The shell takes the request.
unfoldable pub deliver_to : String → Inbound → List (String × Handle) → List (String × Handle)
deliver_to id inbound [] = []
deliver_to id inbound ((j, handle) ∷ l) =
    let rest = deliver_to id inbound l in
    if j == id
    then (j, record handle { incoming = handle.incoming ++ inbound ∷ [] }) ∷ l
    else (j, handle) ∷ rest

module _ (r : Runner) where
  unfoldable pub reply_subshell_error : Inbound → String → String → M (Unit {0})
  reply_subshell_error inbound ename evalue =
      if ends_with (msg_type inbound.message) "_request"
      then reply_error r.services inbound.message inbound.reply
          (error_content inbound.message 0 ename evalue)
      else pure tt

  unfoldable pub reply_subshell_not_found : Inbound → M (Unit {0})
  unfolding reply_subshell_error subshell_id
  reply_subshell_not_found inbound =
      reply_subshell_error inbound "SubshellNotFound"
        (concat "Unknown subshell_id " (r.debug (subshell_id inbound.message)))

  -- A child of the language has been made, or not.
  abbrev pub grow : Router → String → Result Error (Unit {0}) → Router × Result Error String
  grow router id (err e) = (router, err e)
  grow router id (ok _) = (record router { shells = (id, new_handle) ∷ router.shells }, ok id)

  abbrev pub requested_or : Option String → M String
  requested_or none = call r.services.crates.uuid
  requested_or (some id) = pure id

  unfoldable pub admit : Router → String → M (Router × Result Error String)
  unfolding find
  admit router id =
      if id == ""
      then pure (router, err (new invalid_input "subshell_id cannot be empty"))
      else if not r.supports_children
      then pure (router, err (new unavailable "subshells are not supported"))
      else (if is_some (find id router.shells)
          then pure (router, ok id)
          else (do made ← call r.create_child; pure (grow router id made)))

  unfoldable pub create_subshell : Router → Option String → M (Router × Result Error String)
  unfolding admit
  create_subshell router requested = do id ← requested_or requested; admit router id

  -- The shell that a request goes to.
  unfoldable pub target : Router → Inbound → String
  unfolding subshell_id find text_field
  target router inbound =
      let explicit = subshell_id inbound.message in
      if not (explicit == "")
      then explicit
      else if is_execute inbound
      then unwrap_or (find (text_field "session" inbound.message.header) router.routes) ""
      else ""

  unfoldable pub hand : Router → Inbound → String → Option Handle → M Router
  unfolding deliver_to reply_subshell_not_found
  hand router inbound id none = reply_subshell_not_found inbound >> pure router
  hand router inbound id (some handle) =
      if handle.receives
      then pure (record router { shells = deliver_to id inbound router.shells })
      else (reply_subshell_not_found inbound >> pure router)

  unfoldable pub route_created : Router → Inbound → String → Result Error String → M Router
  unfolding hand reply_subshell_error find
  route_created router inbound id (err e) =
      reply_subshell_error inbound "SubshellCreationError" (display e) >> pure router
  route_created router inbound id (ok _) = hand router inbound id (find id router.shells)

  unfoldable pub route_to : Router → Inbound → String → String → M Router
  unfolding create_subshell route_created
  route_to router inbound explicit id =
      if not (explicit == "") && not (is_some (find id router.shells))
      then (do
        (grown, made) ← create_subshell router (some id)
        route_created grown inbound id made)
      else hand router inbound id (find id router.shells)

  unfoldable pub route_shell : Router → Inbound → M Router
  unfolding target route_to
  route_shell router inbound =
      route_to router inbound (subshell_id inbound.message) (target router inbound)

  -- The shell is made or there, and the client session is routed to it.
  abbrev pub routed : Router → String → Result Error String → Router × Result Error String
  routed router client (err e) = (router, err e)
  routed router client (ok id) = (record router { routes = (client, id) ∷ router.routes }, ok id)

  -- `SessionCommand::Open`
  unfoldable pub open_route : Router → String → Option String → M (Router × Result Error String)
  unfolding create_subshell find
  open_route router client requested =
      if is_some (find client router.routes)
      then pure (router, err (new invalid_input "this client session already has a subshell route"))
      else (do (grown, made) ← create_subshell router requested; pure (routed grown client made))

-- `SessionCommand::Close`
unfoldable pub close_route : Router → String → String → Bool → Router × Result Error (Unit {0})
unfolding find remove
close_route router client id delete =
    if unwrap_or (find client router.routes and_then λ routed. some (routed == id)) false
    then (
      record {
        shells = if delete then remove id router.shells else router.shells;
        routes = remove client router.routes;
      },
      ok tt,
    )
    else (router, err (new invalid_input "subshell route is not active"))

-- `delete_subshell_request`: the table, and whether the shell was there.
unfoldable pub delete_subshell : Router → String → Router × Bool
unfolding find remove retain_others
delete_subshell router id =
    if is_some (find id router.shells)
    then (
      record { shells = remove id router.shells; routes = retain_others id router.routes },
      true,
    )
    else (router, false)

-- `result??` of a shell's task: it ended, well or with an error, or it panicked or was cancelled.
unfoldable pub task_result : Result String (Result Error (Unit {0})) → Result Error (Unit {0})
unfolding from_join
task_result (err text) = err (from_join text)
task_result (ok result) = result

-- The first shell ends the kernel, and the routes to another one go.
abbrev pub after_end : Result Error (Unit {0}) → String → Router → Router × Result Error Bool
unfolding retain_others
after_end (err e) id left = (left, err e)
after_end (ok _) id left =
    if id == ""
    then (left, ok true)
    else (record left { routes = retain_others id left.routes }, ok false)

-- A shell's task has ended: the table, and whether the kernel ends with it or fails.
unfoldable pub shell_ended :
    Router → String → Result String (Result Error (Unit {0})) → Router × Result Error Bool
unfolding remove task_result
shell_ended router id ended =
    after_end (task_result ended) id (record router { shells = remove id router.shells })
