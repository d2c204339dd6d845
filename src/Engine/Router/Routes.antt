-- ===== src/Engine/Router/Routes.antt =====
-- The routes of client sessions to shells in src/engine.rs.
use kernmini.Prelude.{
  ◌≡◌, ◌≢◌, refl, String, true, false, not, List, [], ◌∷◌, Option, none, ◌==◌, string_eq, All,
  is_some, arith, if◌then◌else◌, Bool-cases, inl, inr,
}
use kernmini.Errors.{Error, Result, ok, err}
use kernmini.Engine.Effects.{World, call}
use kernmini.Engine.Shell.Ordered.{Leads, Leads-pure, Leads-if, Leads-bind, Leads-after}
use kernmini.Engine.Router.{
  Handle, Router, Runner, find, remove, retain_others, new_handle, grow, requested_or, admit,
  create_subshell, routed, open_route, delete_subshell,
}

pub same_text : (a b : String) → a ≡ b → (a == b) ≡ true
same_text a b e = ground arith

pub other_text : (a b : String) → a ≢ b → (a == b) ≡ false
other_text a b n = ground arith

pub find-remove {ℓ} :
    {A : Type ℓ} (k j : String) (l : List (String × A))
    → find j (remove k l) ≡ (if k == j then none else find j l)
unfolding find remove
find-remove k j [] = ground arith
find-remove k j ((i, a) ∷ l) = ground (arith, find-remove k j l)

-- Every route goes to a shell that is there.
abbrev pub IsRouted : Router → Type 0
IsRouted router = All (λ p. is_some (find p.1 router.shells) ≡ true) router.routes

All-removed {ℓ κ} :
    {A : Type ℓ} (P : String × A → Type κ) (k : String) (l : List (String × A))
    → All P l
    → All P (remove k l)
unfolding remove
All-removed P k [] a = tt
All-removed P k ((j, x) ∷ l) a = elim (Bool-cases (j == k)) [
  | inl e ↦ rw e (All-removed P k l a.1)
  | inr e ↦ rw e (a.0, All-removed P k l a.1)
]

-- Without a shell and the routes to it, the other routes are as good as before.
pub retained :
    (id : String) (shells : List (String × Handle)) (routes : List (String × String))
    → All (λ p. is_some (find p.1 shells) ≡ true) routes
    → All (λ p. is_some (find p.1 (remove id shells)) ≡ true) (retain_others id routes)
unfolding retain_others
retained id shells [] a = tt
retained id shells ((client, other) ∷ l) (h, a) = elim (Bool-cases (other == id)) [
  | inl e ↦ rw e (retained id shells l a)
  | inr e ↦ rw e (grind (arith, find-remove id other shells, h), retained id shells l a)
]

-- A new shell takes no other away.
grown_routes :
    (id : String) (shells : List (String × Handle)) (routes : List (String × String))
    → All (λ p. is_some (find p.1 shells) ≡ true) routes
    → All (λ p. is_some (find p.1 ((id, new_handle) ∷ shells)) ≡ true) routes
unfolding find
grown_routes id shells [] a = tt
grown_routes id shells ((client, other) ∷ l) (h, a) =
    (ground (arith, h), grown_routes id shells l a)

-- The deletion of a subshell leaves no route to a shell that is gone, if there was none.
pub delete_subshell-IsRouted :
    (router : Router) (id : String) → IsRouted router → IsRouted (delete_subshell router id).0
unfolding delete_subshell
delete_subshell-IsRouted router id a = elim (Bool-cases (is_some (find id router.shells))) [
  | inl e ↦ rw e (retained id router.shells router.routes a)
  | inr e ↦ rw e a
]

module _ (r : Runner) where
  -- The table is routed, and has the shell that was asked for.
  abbrev IsMade : Router × Result Error String → Type 0
  IsMade (router, made) =
      IsRouted router × ((id : String) → made ≡ ok id → is_some (find id router.shells) ≡ true)

  grow-IsMade :
      (router : Router) (id : String) (made : Result Error (Unit {0}))
      → IsRouted router
      → IsMade (grow r router id made)
  unfolding find
  grow-IsMade router id (err e) a = (a, λ j h. absurd (cc))
  grow-IsMade router id (ok u) a =
      (grown_routes id router.shells router.routes a, λ j h. ground arith)

  Leads-admit : (router : Router) (id : String) → IsRouted router → Leads IsMade (admit r router id)
  unfolding admit
  Leads-admit router id a =
      Leads-if (id == "") _ _ (λ _. Leads-pure _ (a, λ j h. absurd (cc)))
        λ _.
          Leads-if (not r.supports_children) _ _ (λ _. Leads-pure _ (a, λ j h. absurd (cc)))
            λ _.
              Leads-if (is_some (find id router.shells)) _ _
                (λ e. Leads-pure (router, ok id) (a, λ j h. ground (arith, e)))
                λ _.
                  Leads-after (call r.create_child) _
                    λ made. Leads-pure (grow r router id made) (grow-IsMade router id made a)

  Leads-create_subshell :
      (router : Router) (requested : Option String)
      → IsRouted router
      → Leads IsMade (create_subshell r router requested)
  unfolding create_subshell
  Leads-create_subshell router requested a =
      Leads-after (requested_or r requested) _ λ id. Leads-admit router id a

  routed-IsRouted :
      (client : String) (x : Router × Result Error String)
      → IsMade x
      → IsRouted (routed r x.0 client x.1).0
  routed-IsRouted client (router, err e) (a, m) = a
  routed-IsRouted client (router, ok id) (a, m) = (m id refl, a)

  pub Leads-open_route :
      (router : Router) (client : String) (requested : Option String)
      → IsRouted router
      → Leads (λ x. IsRouted x.0) (open_route r router client requested)
  unfolding open_route
  Leads-open_route router client requested a =
      Leads-if (is_some (find client router.routes)) _ _ (λ _. Leads-pure _ a)
        λ _. Leads-bind _ _ (Leads-create_subshell router requested a) λ (grown, made) m.
          Leads-pure (routed r grown client made) (routed-IsRouted client (grown, made) m)

-- Opening a route, with a new subshell or one that is there, and whether it succeeds or not, leaves
-- every route at a shell that is there, if that was so.
pub open_route-IsRouted :
    (r : Runner) (router after : Router) (client : String) (requested : Option String)
    (made : Result Error String) (w : World)
    → IsRouted router
    → (open_route r router client requested w).0 ≡ ok (after, made)
    → IsRouted after
open_route-IsRouted r router after client requested made w a =
    (Leads-open_route r router client requested a).at w (after, made)
