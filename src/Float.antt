-- ===== src/Float.antt =====
-- Rust's `f64` as its 64 bits: comparison and the conversion of an integer, in the part that the
-- shell queue (src/engine.rs) uses.
use Prim.Native.Nat.{compare, Ordering}
use kernmini.Prelude.{
  ℕ, zero, suc, ◌+◌, ◌-◌, ◌*◌, ◌/◌, ◌%◌, ◌^◌, Bool, true, Option, none, some, ◌==◌, nat_eq, ltb,
  leb, ◌||◌, if◌then◌else◌,
}
use kernmini.Json.{Number, unsigned, neg, float, Value, number}

abbrev pub sign_bit : ℕ
sign_bit = 2 ^ 63

abbrev pub mantissa : ℕ
mantissa = 2 ^ 52

-- The bits of infinity; a greater magnitude is not a number.
abbrev pub infinity : ℕ
infinity = 2047 * mantissa

unfoldable pub magnitude : ℕ → ℕ
magnitude x = x % sign_bit

unfoldable pub is_nan : ℕ → Bool
unfolding magnitude
is_nan x = ltb infinity (magnitude x)

unfoldable pub is_negative : ℕ → Bool
is_negative x = leb sign_bit x

-- A number that grows with the float; the two zeros share one.
unfoldable pub rank : ℕ → ℕ
unfolding is_negative magnitude
rank x = if is_negative x then sign_bit - magnitude x else sign_bit + magnitude x

-- `f64::partial_cmp`
unfoldable pub partial_cmp : ℕ → ℕ → Option Ordering
unfolding is_nan rank
partial_cmp a b = if is_nan a || is_nan b then none else some (compare (rank a) (rank b))

-- `a > b`
unfoldable pub gt : ℕ → ℕ → Bool
unfolding partial_cmp
gt a b = elim (partial_cmp a b) [
  | none ↦ Bool.false
  | some o ↦ elim o [ Ordering.gt ↦ true | _ ↦ Bool.false ]
]

unfoldable pub log2_fuel : ℕ → ℕ → ℕ
log2_fuel zero n = 0
log2_fuel (suc f) n = let rest = log2_fuel f (n / 2) in if ltb n 2 then 0 else suc rest

-- `x / 2 ^ k` to the nearest integer, a tie to the even one.
unfoldable pub round_shift : ℕ → ℕ → ℕ
round_shift x k =
    let q = x / 2 ^ k in
    let twice = 2 * (x % 2 ^ k) in
    if ltb twice (2 ^ k) then q else if ltb (2 ^ k) twice then q + 1 else q + q % 2

-- `n as f64` for a `u64`; a carry out of the rounding goes to the exponent.
unfoldable pub of_u64 : ℕ → ℕ
unfolding log2_fuel round_shift nat_eq
of_u64 n =
    let e = log2_fuel 64 n in
    let m = if leb e 52 then n * 2 ^ (52 - e) else round_shift n (e - 52) in
    if n == 0 then 0 else (e + 1023) * mantissa + (m - mantissa)

-- `Value::as_f64`
unfoldable pub number_as_f64 : Number → ℕ
unfolding of_u64
number_as_f64 (unsigned n) = of_u64 n
number_as_f64 (neg n) = sign_bit + of_u64 n
number_as_f64 (float x) = x

unfoldable pub as_f64 : Value → Option ℕ
unfolding number_as_f64
as_f64 (number n) = some (number_as_f64 n)
as_f64 _ = none
