-- ===== src/Transport/Subscribers.antt =====
-- `Iopub::publish` of src/transport.rs: the loop over the subscribers' channels.
pub mod Publishing
use mathlib.Core.List.{append-nil, append_assoc}
use kernmini.Prelude.{
  ℕ, zero, suc, ◌+◌, ◌<◌, ◌≡◌, refl, sym, ap, ◌∙◌, Bool, true, false, ◌&&◌, List, [], ◌∷◌, ◌++◌,
  Option, none, some, if◌then◌else◌, length, count_if, count_if-append, length-append, Bool-cases,
  inl, inr, arith,
}

module _ {ℓ} {A : Type ℓ} where
  abbrev pub get_elem? : List A → ℕ → Option A
  get_elem? [] i = none
  get_elem? (x ∷ xs) zero = some x
  get_elem? (x ∷ xs) (suc i) = get_elem? xs i

  abbrev pub set : List A → ℕ → A → List A
  set [] i v = []
  set (x ∷ xs) zero v = v ∷ xs
  set (x ∷ xs) (suc i) v = x ∷ set xs i v

  -- The last element of a list with this first one, and the list without its last element.
  abbrev pub last : A → List A → A
  last x [] = x
  last x (y ∷ ys) = last y ys

  abbrev pub init : List A → List A
  init [] = []
  init (x ∷ []) = []
  init (x ∷ y ∷ ys) = x ∷ init (y ∷ ys)

  -- `Vec::swap_remove`: the last element takes the place of the one removed.
  unfoldable pub swap_remove : List A → ℕ → List A
  swap_remove [] i = []
  swap_remove (x ∷ xs) i = init (set (x ∷ xs) i (last x xs))

-- `alive` says of a channel whether it takes what is sent. A send to a full channel waits until the channel
-- takes it or is closed; only that end is here.
module _ (alive : ℕ → Bool) where
  -- The channels that are left, and those that were sent the frames, in order; `none` without fuel.
  unfoldable pub publish_loop : ℕ → ℕ → List ℕ → List ℕ → Option (List ℕ × List ℕ)
  unfolding swap_remove
  publish_loop zero i peers sent = none
  publish_loop (suc fuel) i peers sent = elim (get_elem? peers i) [
    | none ↦ some (peers, sent)
    | some p ↦ elim (alive p) [
      | true ↦ publish_loop fuel (i + 1) peers (sent ++ p ∷ [])
      | false ↦ publish_loop fuel i (swap_remove peers i) sent
    ]
  ]

  -- Each round passes a channel or removes one.
  unfoldable pub publish_peers : List ℕ → Option (List ℕ × List ℕ)
  unfolding publish_loop
  publish_peers peers = publish_loop (length peers + 1) 0 peers []
