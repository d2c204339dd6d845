-- ===== src/Engine/Router/Runs.antt =====
-- The operations on the routes of client sessions in src/engine.rs, one after the other: routes are opened,
-- subshells are deleted, and shells end. The end of the kernel, or its failure, ends the sequence.
use kernmini.Prelude.{
  ◌≡◌, String, Bool, true, false, List, [], ◌∷◌, Option, none, some, ◌==◌, string_eq, if◌then◌else◌,
}
use kernmini.Errors.{Error, Result, ok, err, from_join}
use kernmini.Engine.Effects.{M, ◌>>=◌, pure, lift}
use kernmini.Engine.Router.{Router, Runner, open_route, delete_subshell, shell_ended}
use kernmini.Engine.Router.Routes.{IsRouted}

-- A shell's task ends with a result, as in `shell_ended`.
pub data Event : Type 0 where
  opening : String → Option String → Event
  deleting : String → Event
  ending : String → Result String (Result Error (Unit {0})) → Event

-- The kernel goes on, has ended, or has failed.
abbrev pub goes_on : Router × Result Error Bool → Result Error (Option Router)
goes_on (router, err e) = err e
goes_on (router, ok true) = ok none
goes_on (router, ok false) = ok (some router)

-- What the ends of shells make of the kernel, in their order: the first task that failed fails it, and
-- the parent shell, with the empty id, ends it.
abbrev pub decides :
    String
    → Result String (Result Error (Unit {0}))
    → Option (Result Error (Unit {0}))
    → Option (Result Error (Unit {0}))
decides id (err text) rest = some (err (from_join text))
decides id (ok (err e)) rest = some (err e)
decides id (ok (ok _)) rest = if id == "" then some (ok tt) else rest

abbrev pub fate : List Event → Option (Result Error (Unit {0}))
fate [] = none
fate (ending id ended ∷ events) = decides id ended (fate events)
fate (_ ∷ events) = fate events

abbrev pub EndsBy : Option (Result Error (Unit {0})) → Result Error (Option Router) → Type 0
EndsBy none result = (router : Router) × (result ≡ ok (some router)) × IsRouted router
EndsBy (some (ok _)) result = result ≡ ok none
EndsBy (some (err e)) result = result ≡ err e

module _ (r : Runner) where
  unfoldable pub perform : Event → Router → M (Option Router)
  unfolding open_route delete_subshell shell_ended
  perform (opening client requested) router = do
    (opened, result) ← open_route r router client requested
    pure (some opened)
  perform (deleting id) router = pure (some (delete_subshell router id).0)
  perform (ending id ended) router = lift (goes_on (shell_ended router id ended))

  unfoldable pub perform_all : List Event → Option Router → M (Option Router)
  unfolding perform
  perform_all events none = pure none
  perform_all [] (some router) = pure (some router)
  perform_all (e ∷ events) (some router) = do next ← perform e router; perform_all events next
