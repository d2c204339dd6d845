-- ===== src/Prelude/Text.antt =====
-- The methods of Rust's `str` that the source calls.
use Prim.Native.Nat.{ℕ, zero, suc, ◌+◌, ◌-◌, ◌/◌, ◌%◌, compare, Ordering}
use Prim.Native.String
use Prim.Native.String.{String, len, slice}
use Prim.Native.Char.{code}
use mathlib.Core.Bool.{Bool, ◌&&◌}
use mathlib.Core.Option.{none, some}
use mathlib.Core.List.{List, [], ◌∷◌}
use text.Mathlib.Text.{◌==◌, find?}
use kernmini.Prelude.Tests.{leb}

-- Concatenation.
unfoldable pub concat : String → String → String
concat = String.◌++◌

-- `str::ends_with`
unfoldable pub ends_with : String → String → Bool
ends_with s t = leb (len t) (len s) && (slice s (len s - len t) (len s) == t)

-- `str::replace`, a match at a time; there are at most as many matches as bytes.
unfoldable pub replace_fuel : ℕ → String → String → String → String
unfolding concat
replace_fuel zero s from to = s
replace_fuel (suc n) s from to = elim (find? s from) [
  | none ↦ s
  | some i ↦
      concat (slice s 0 i) (concat to (replace_fuel n (slice s (i + len from) (len s)) from to))
]

unfoldable pub replace : String → String → String → String
unfolding replace_fuel
replace s from to = replace_fuel (len s) s from to

-- The bytes of an ASCII text.
abbrev pub codes : String → List ℕ
codes String.[] = []
codes (String.◌∷◌ c s) = code c ∷ codes s

abbrev pub digit : ℕ → String
digit n = slice "0123456789" n (n + 1)

-- The digits of a number; it has no more of them than its value and one.
unfoldable pub decimal_fuel : ℕ → ℕ → String
unfolding concat
decimal_fuel zero n = ""
decimal_fuel (suc fuel) n =
    let rest = decimal_fuel fuel (n / 10) in
    elim (compare n 10) [ Ordering.lt ↦ digit n | _ ↦ concat rest (digit (n % 10)) ]

-- `Display` of an unsigned number
unfoldable pub decimal : ℕ → String
unfolding decimal_fuel
decimal n = decimal_fuel (n + 1) n
