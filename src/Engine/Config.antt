-- ===== src/Engine/Config.antt =====
-- `KernelConfig` of src/engine.rs, from the environment. A variable is the list of its code points; a
-- duration is known by its whole seconds.
use kernmini.Prelude.{
  ℕ, ◌^◌, ◌≤◌, ◌<◌, ◌≡◌, ◌≢◌, ◌↔◌, refl, Bool, true, false, List, Option, none, some, ltb, max,
  if◌then◌else◌, unwrap_or, filter_option, ◌and_then◌, arith, Bool-cases, inl, inr,
}
use kernmini.Prelude.Decimal.{parse_usize}
use kernmini.Errors.{Result, ok, err}

-- An `f64`, by what the source asks of it: the whole seconds of a finite one that is not negative.
pub data Seconds : Type 0 where
  nan infinite negative : Seconds
  finite : ℕ → Seconds

pub record KernelConfig : Type 0 where
  pub iopub_capacity : ℕ
  pub hold_timeout : ℕ

abbrev pub ok_usize {ℓ} : {E : Type ℓ} → Result E ℕ → Option ℕ
ok_usize (ok n) = some n
ok_usize (err e) = none

-- `is_finite() && >= 0.0`
abbrev pub is_duration : Seconds → Bool
is_duration (finite n) = true
is_duration _ = false

unfoldable pub capacity_of : Option (List ℕ) → ℕ
capacity_of variable = max (unwrap_or (variable and_then λ v. ok_usize (parse_usize v)) 10_000) 1

unfoldable pub hold_seconds : (List ℕ → Option Seconds) → Option (List ℕ) → Seconds
hold_seconds parse_f64 variable =
    unwrap_or (filter_option is_duration (variable and_then parse_f64)) (finite 3600)

-- `Duration::from_secs_f64`, which panics where the seconds are negative or do not fit 64 bits.
unfoldable pub from_secs : Seconds → Option ℕ
from_secs (finite n) = if ltb n (2 ^ 64) then some n else none
from_secs _ = none

abbrev pub with_capacity : ℕ → Option ℕ → Option KernelConfig
with_capacity capacity none = none
with_capacity capacity (some seconds) =
    some (record { iopub_capacity = capacity; hold_timeout = seconds })

-- `KernelConfig::from_env`; `none` is a panic.
unfoldable pub from_env :
    (List ℕ → Option Seconds) → Option (List ℕ) → Option (List ℕ) → Option KernelConfig
unfolding capacity_of hold_seconds from_secs
from_env parse_f64 qmax hold =
    with_capacity (capacity_of qmax) (from_secs (hold_seconds parse_f64 hold))

capacity_of-pos : (variable : Option (List ℕ)) → 1 ≤ capacity_of variable
unfolding capacity_of
capacity_of-pos variable = omega arith

-- The hold timeout in the environment is a finite number of seconds that 64 bits do not hold.
abbrev pub IsTooLong : (List ℕ → Option Seconds) → Option (List ℕ) → Type 0
IsTooLong parse_f64 hold = (n : ℕ) × ((hold and_then parse_f64) ≡ some (finite n)) × (2 ^ 64 ≤ n)

-- The same of the parsed timeout.
abbrev Configures : ℕ → Option Seconds → Type 0
Configures capacity parsed =
    let config =
      with_capacity capacity
        (from_secs (unwrap_or (filter_option is_duration parsed) (finite 3600))) in
    ((config ≡ none) ↔ ((n : ℕ) × (parsed ≡ some (finite n)) × (2 ^ 64 ≤ n)))
    × ((c : KernelConfig) → config ≡ some c → (1 ≤ c.iopub_capacity) × (c.hold_timeout < 2 ^ 64))

not_finite :
    (parsed : Option Seconds) (n : ℕ)
    → filter_option is_duration parsed ≡ none
    → parsed ≢ some (finite n)
not_finite none n e same = absurd (cc)
not_finite (some nan) n e same = absurd (cc)
not_finite (some infinite) n e same = absurd (cc)
not_finite (some negative) n e same = absurd (cc)
not_finite (some (finite m)) n e same = absurd (cc)

-- Where the default is taken.
defaulted :
    (capacity : ℕ) (parsed : Option Seconds)
    → 1 ≤ capacity
    → filter_option is_duration parsed ≡ none
    → Configures capacity parsed
unfolding from_secs
defaulted capacity parsed h e = rw e (
  (λ bad. absurd (cc), λ (m, same, large). absurd (not_finite parsed m e same)),
  λ c same. ground arith,
)

configures : (capacity : ℕ) (parsed : Option Seconds) → 1 ≤ capacity → Configures capacity parsed
unfolding from_secs
configures capacity none h = defaulted capacity none h refl
configures capacity (some nan) h = defaulted capacity (some nan) h refl
configures capacity (some infinite) h = defaulted capacity (some infinite) h refl
configures capacity (some negative) h = defaulted capacity (some negative) h refl
configures capacity (some (finite n)) h = elim (Bool-cases (ltb n (2 ^ 64))) [
  | inl e ↦
      rw e ((λ bad. absurd (cc), λ (m, same, large). absurd (ground arith)), λ c same. ground arith)
  | inr e ↦ rw e ((λ _. (n, refl, ground arith), λ _. refl), λ c same. absurd (cc))
]

-- The configuration is read, with room for a message on IOPub and a timeout of 64 bits, unless the hold
-- timeout in the environment is finite and has 2^64 seconds or more: the reading panics exactly then.
pub from_env-bounds :
    (parse_f64 : List ℕ → Option Seconds) (qmax hold : Option (List ℕ))
    → ((from_env parse_f64 qmax hold ≡ none) ↔ IsTooLong parse_f64 hold)
      × ((c : KernelConfig)
          → from_env parse_f64 qmax hold ≡ some c
          → (1 ≤ c.iopub_capacity) × (c.hold_timeout < 2 ^ 64))
unfolding from_env hold_seconds
from_env-bounds parse_f64 qmax hold =
    configures (capacity_of qmax) (hold and_then parse_f64) (capacity_of-pos qmax)
