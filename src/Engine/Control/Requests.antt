-- ===== src/Engine/Control/Requests.antt =====
-- The control requests, one function for each arm of the `match` in `run_kernel_with_interrupter` of
-- src/engine.rs.
use kernmini.Prelude.{
  String, Bool, true, false, not, ◌||◌, List, [], ◌∷◌, ◌++◌, ◌==◌, string_eq, unwrap_or, ◌and_then◌,
  if◌then◌else◌,
}
use kernmini.Prelude.Text.{ends_with, replace}
use kernmini.Json.{Value, string, bool, obj, arr, get, as_str, as_array}
use kernmini.Errors.{Error, Result, ok, err, from_send}
use kernmini.Wire.{Message, msg_type}
use kernmini.Engine.Queue.{Inbound}
use kernmini.Engine.Effects.{
  M, ◌>>=◌, ◌>>◌, pure, lift, call, attempt, fail_kernel, send_iopub, send_reply, status,
}
use kernmini.Engine.Replies.{bool_or, str_or}
use kernmini.Engine.Shell.{ShellControl}
use kernmini.Engine.Shell
use kernmini.Engine.Router.{Handle, Router, route_shell, create_subshell, delete_subshell}
use kernmini.Engine.Control.{
  Kernel, Loop, told, interrupt_shells, subshell_ids, unknown_subshell, failure, created_content,
  from_received, debug_result, Turn,
}

module _ (l : Loop) where
  abbrev pub answer : Inbound → String → Value → M (Unit {0})
  answer inbound type content =
      send_reply l.runner.services inbound.reply inbound.message type content

  unfoldable pub route_pending : Router → List Inbound → M Router
  route_pending router [] = pure router
  route_pending router (inbound ∷ shell) =
      route_shell l.runner router inbound >>= λ next. route_pending next shell

  -- `route_pending_shells`
  unfoldable pub route_pending_shells : Kernel → M Kernel
  unfolding route_pending
  route_pending_shells kernel = do
    router ← route_pending kernel.router kernel.shell
    pure (record kernel { router = router; shell = [] })

  unfoldable pub interrupt_request : Kernel → Inbound → M Kernel
  unfolding route_pending_shells interrupt_shells
  interrupt_request kernel inbound = do
    routed ← route_pending_shells kernel
    shells ← lift (interrupt_shells routed.router.shells)
    answer inbound "interrupt_reply" (obj (("status", string "ok") ∷ []))
    pure (record routed { router = record routed.router { shells = shells } })

  unfoldable pub create_subshell_request : Kernel → Inbound → M Kernel
  create_subshell_request kernel inbound =
      if not l.runner.supports_children
      then (do
        answer inbound "create_subshell_reply"
            (failure "SubshellsNotSupported" "kernel subshells are not supported")
        pure kernel)
      else (do
        (router, made) ←
            create_subshell l.runner kernel.router
              (get "subshell_id" inbound.message.content and_then as_str)
        answer inbound "create_subshell_reply" (created_content made)
        pure (record kernel { router = router }))

  unfoldable pub list_subshell_request : Kernel → Inbound → M Kernel
  unfolding subshell_ids
  list_subshell_request kernel inbound = do
    answer inbound "list_subshell_reply" (
        obj
          (("status", string "ok") ∷ ("subshell_id", arr (subshell_ids kernel.router.shells)) ∷ []))
    pure kernel

  -- The shell that is taken out of the table is told to interrupt and to stop, and the reply waits for
  -- its end.
  abbrev pub deleted : Kernel → Inbound → String → Router × Bool → M Kernel
  deleted kernel inbound id (router, true) =
      pure (record kernel { router = router; deleting = kernel.deleting ++ inbound ∷ [] })
  deleted kernel inbound id (router, false) = do
    answer inbound "delete_subshell_reply"
        (failure "SubshellNotFound" (unknown_subshell l.runner.debug id))
    pure kernel

  unfoldable pub delete_subshell_request : Kernel → Inbound → M Kernel
  delete_subshell_request kernel inbound =
      let id = str_or "" "subshell_id" inbound.message.content in
      deleted kernel inbound id (delete_subshell kernel.router id)

  -- `stop_in_background` at the end of the shell: its failure, or that of the reply, goes to the runner.
  abbrev pub report : Result Error (Unit {0}) → M (Unit {0})
  report (ok _) = pure tt
  report (err e) = fail_kernel e

  unfoldable pub shell_stopped : Inbound → Result Error (Unit {0}) → M (Unit {0})
  shell_stopped inbound stopped = do
    ended ← attempt (do
      lift stopped
      answer inbound "delete_subshell_reply" (obj (("status", string "ok") ∷ [])))
    report ended

  -- Every shell is asked, also after one that had the request.
  unfoldable pub release_shells :
      String → String → List (String × Handle) → M (List (String × Handle) × Bool)
  release_shells id status [] = pure ([], false)
  release_shells id status ((key, handle) ∷ shells) =
      if not handle.receives then lift (err from_send) else (do
        answered ← call l.released
        found ← lift (from_received answered)
        (rest, others) ← release_shells id status shells
        pure ((key, told (Shell.release id status) handle) ∷ rest, found || others))

  unfoldable pub release_request : Kernel → Inbound → M Kernel
  unfolding route_pending_shells release_shells
  release_request kernel inbound = do
    routed ← route_pending_shells kernel
    (shells, found) ←
        release_shells (str_or "" "msg_id" inbound.message.content)
          (str_or "ok" "status" inbound.message.content) routed.router.shells
    answer inbound "release_reply" (obj (("status", string "ok") ∷ ("found", bool found) ∷ []))
    pure (record routed { router = record routed.router { shells = shells } })

  unfoldable pub publish_debug_events : Message → List Value → M (Unit {0})
  publish_debug_events request [] = pure tt
  publish_debug_events request (event ∷ events) = do
    send_iopub l.runner.services request "debug_event" event
    publish_debug_events request events

  unfoldable pub debug_request : Kernel → Inbound → M Kernel
  unfolding publish_debug_events
  debug_request kernel inbound = do
    status l.runner.services inbound.message "busy"
    answered ← call (λ n. l.debug n inbound.message.content)
    let result = debug_result inbound.message.content answered
    answer inbound "debug_reply" (unwrap_or (get "response" result) (obj []))
    publish_debug_events inbound.message (unwrap_or (get "events" result and_then as_array) [])
    status l.runner.services inbound.message "idle"
    pure kernel

  unfoldable pub shutdown_request : Inbound → M (Unit {0})
  shutdown_request inbound = answer inbound "shutdown_reply" (
      obj (
        ("status", string "ok")
        ∷ ("restart", bool (bool_or false "restart" inbound.message.content))
        ∷ []))

  unfoldable pub other_request : Kernel → Inbound → M Kernel
  other_request kernel inbound =
      let type = msg_type inbound.message in
      if ends_with type "_request"
      then (do
        answer inbound (replace type "_request" "_reply") (obj (("status", string "ok") ∷ []))
        pure kernel)
      else pure kernel

  abbrev pub going_on : M Kernel → M Turn
  going_on m = m >>= λ kernel. pure (kernel, true)

  -- A control message
  unfoldable pub control_request : Kernel → Inbound → M Turn
  unfolding interrupt_request create_subshell_request list_subshell_request delete_subshell_request
      release_request debug_request shutdown_request other_request
  control_request kernel inbound =
      let type = msg_type inbound.message in
      if type == "shutdown_request"
      then (do shutdown_request inbound; pure (kernel, false))
      else if type == "interrupt_request"
      then going_on (interrupt_request kernel inbound)
      else if type == "create_subshell_request"
      then going_on (create_subshell_request kernel inbound)
      else if type == "list_subshell_request"
      then going_on (list_subshell_request kernel inbound)
      else if type == "delete_subshell_request"
      then going_on (delete_subshell_request kernel inbound)
      else if type == "release_request"
      then going_on (release_request kernel inbound)
      else if type == "debug_request"
      then going_on (debug_request kernel inbound)
      else going_on (other_request kernel inbound)
