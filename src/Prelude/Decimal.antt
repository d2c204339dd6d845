-- ===== src/Prelude/Decimal.antt =====
-- `str::parse` at an unsigned number, and the digits that `Display` gives.
use Prim.Native.Char.{code}
use Prim.Native.Nat.{ℕ, zero, suc, ◌+◌, ◌-◌, ◌*◌, ◌/◌, ◌%◌, ◌^◌, ◌<◌}
use Prim.Native.String.{String}
use mathlib.Core.Path.{◌≡◌, refl, ap, ◌∙◌}
use mathlib.Core.Logic.{inl, inr}
use mathlib.Core.Bool.{Bool, true, false, ◌&&◌}
use mathlib.Core.List.{List, [], ◌∷◌, ◌++◌}
use native.Mathlib.Omega.{arith}
use text.Mathlib.TextLemmas.{nil-append, cons-append}
use kernmini.Prelude.Tests.{ltb, leb, ◌==◌, nat_eq, if◌then◌else◌, Bool-cases}
use kernmini.Prelude.Lists.{All}
use kernmini.Errors.{Result, ok, err, ◌>>=◌}
use kernmini.Prelude.Text.{concat, codes, decimal, decimal_fuel, digit}

abbrev pub is_digit : ℕ → Bool
is_digit c = leb 48 c && leb c 57

-- What `ParseIntError` displays.
abbrev pub no_digits : String
no_digits = "cannot parse integer from empty string"

abbrev pub bad_digit : String
bad_digit = "invalid digit found in string"

abbrev pub too_large : String
too_large = "number too large to fit in target type"

-- The digits after those with the value `n`, in 64 bits.
unfoldable pub scan : List ℕ → ℕ → Result String ℕ
scan [] n = ok n
scan (c ∷ cs) n =
    let m = n * 10 + (c - 48) in
    let rest = scan cs m in
    if is_digit c then if ltb m (2 ^ 64) then rest else err too_large else err bad_digit

abbrev unsigned_digits : List ℕ → Result String ℕ
unfolding scan
unsigned_digits [] = err bad_digit
unsigned_digits (c ∷ cs) = scan (c ∷ cs) 0

-- `parse::<usize>`: digits, with a plus sign or without.
unfoldable pub parse_usize : List ℕ → Result String ℕ
unfolding scan
parse_usize [] = err no_digits
parse_usize (c ∷ cs) = if c == b'+' then unsigned_digits cs else scan (c ∷ cs) 0

pub codes-concat : (s t : String) → codes (concat s t) ≡ codes s ++ codes t
unfolding concat
codes-concat String.[] t = ap codes (nil-append t)
codes-concat (String.◌∷◌ c s) t =
    ap codes (cons-append c s t) ∙ ap (λ l. code c ∷ l) (codes-concat s t)

digit-codes : (n : ℕ) → n < 10 → codes (digit n) ≡ (48 + n) ∷ []
digit-codes zero h = refl
digit-codes (suc zero) h = refl
digit-codes (suc (suc zero)) h = refl
digit-codes (suc (suc (suc zero))) h = refl
digit-codes (suc (suc (suc (suc zero)))) h = refl
digit-codes (suc (suc (suc (suc (suc zero))))) h = refl
digit-codes (suc (suc (suc (suc (suc (suc zero)))))) h = refl
digit-codes (suc (suc (suc (suc (suc (suc (suc zero))))))) h = refl
digit-codes (suc (suc (suc (suc (suc (suc (suc (suc zero)))))))) h = refl
digit-codes (suc (suc (suc (suc (suc (suc (suc (suc (suc zero))))))))) h = refl
digit-codes (suc (suc (suc (suc (suc (suc (suc (suc (suc (suc n)))))))))) h = absurd (omega arith)

scan-append : (xs ys : List ℕ) (n : ℕ) → scan (xs ++ ys) n ≡ (scan xs n >>= λ m. scan ys m)
unfolding scan
scan-append [] ys n = refl
scan-append (x ∷ xs) ys n = ground (arith, scan-append xs ys (n * 10 + (x - 48)))

scan-digit : (m d n : ℕ) → d < 10 → n ≡ m * 10 + d → n < 2 ^ 64 → scan ((48 + d) ∷ []) m ≡ ok n
unfolding scan
scan-digit m d n h e k = ground arith

decimal_fuel-small : (fuel n : ℕ) → n < 10 → decimal_fuel (suc fuel) n ≡ digit n
unfolding decimal_fuel
decimal_fuel-small fuel n h = ground arith

decimal_fuel-large :
    (fuel n : ℕ)
    → ltb n 10 ≡ false
    → decimal_fuel (suc fuel) n ≡ concat (decimal_fuel fuel (n / 10)) (digit (n % 10))
unfolding decimal_fuel
decimal_fuel-large fuel n h = ground arith

-- Nothing but digits, and at least one.
abbrev pub AreDigits : List ℕ → Type 0
AreDigits [] = ⊥
AreDigits (c ∷ cs) = (is_digit c ≡ true) × All (λ d. is_digit d ≡ true) cs

All-snoc :
    (xs : List ℕ) (d : ℕ)
    → All (λ c. is_digit c ≡ true) xs
    → is_digit d ≡ true
    → All (λ c. is_digit c ≡ true) (xs ++ d ∷ [])
All-snoc [] d a h = (h, tt)
All-snoc (x ∷ xs) d a h = (a.0, All-snoc xs d a.1 h)

AreDigits-snoc : (xs : List ℕ) (d : ℕ) → AreDigits xs → is_digit d ≡ true → AreDigits (xs ++ d ∷ [])
AreDigits-snoc [] d a h = absurd a
AreDigits-snoc (x ∷ xs) d a h = (a.0, All-snoc xs d a.1 h)

is_digit-add : (d : ℕ) → d < 10 → is_digit (48 + d) ≡ true
is_digit-add d h = ground arith

codes-large :
    (fuel n : ℕ)
    → ltb n 10 ≡ false
    → codes (decimal_fuel (suc fuel) n) ≡ codes (decimal_fuel fuel (n / 10)) ++ (48 + n % 10) ∷ []
codes-large fuel n h =
    ap codes (decimal_fuel-large fuel n h)
    ∙ (codes-concat (decimal_fuel fuel (n / 10)) (digit (n % 10))
        ∙ ap (λ l. codes (decimal_fuel fuel (n / 10)) ++ l) (digit-codes (n % 10) (omega arith)))

codes-small : (fuel n : ℕ) → ltb n 10 ≡ true → codes (decimal_fuel (suc fuel) n) ≡ (48 + n) ∷ []
codes-small fuel n h =
    ap codes (decimal_fuel-small fuel n (ground arith)) ∙ digit-codes n (ground arith)

AreDigits-decimal_fuel : (fuel n : ℕ) → n < fuel → AreDigits (codes (decimal_fuel fuel n))
AreDigits-decimal_fuel zero n h = absurd (omega arith)
AreDigits-decimal_fuel (suc fuel) n h = elim (Bool-cases (ltb n 10)) [
  | inl e ↦ rw (codes-small fuel n e) (is_digit-add n (ground arith), tt)
  | inr e ↦ rw (codes-large fuel n e) (
      AreDigits-snoc (codes (decimal_fuel fuel (n / 10))) (48 + n % 10)
        (AreDigits-decimal_fuel fuel (n / 10) (ground arith)) (is_digit-add (n % 10) (omega arith)))
]

scan-decimal_fuel :
    (fuel n : ℕ) → n < fuel → n < 2 ^ 64 → scan (codes (decimal_fuel fuel n)) 0 ≡ ok n
scan-decimal_fuel zero n h k = absurd (omega arith)
scan-decimal_fuel (suc fuel) n h k = elim (Bool-cases (ltb n 10)) [
  | inl e ↦ rw (codes-small fuel n e) (scan-digit 0 n n (ground arith) (omega arith) k)
  | inr e ↦
      rw
        (
          codes-large fuel n e,
          scan-append (codes (decimal_fuel fuel (n / 10))) ((48 + n % 10) ∷ []) 0,
          scan-decimal_fuel fuel (n / 10) (ground arith) (omega arith),
        )
        (scan-digit (n / 10) (n % 10) n (omega arith) (omega arith) k)
]

parse_usize-digits : (xs : List ℕ) → AreDigits xs → parse_usize xs ≡ scan xs 0
unfolding parse_usize
parse_usize-digits [] a = absurd a
parse_usize-digits (c ∷ cs) a = ground arith

pub AreDigits-decimal : (n : ℕ) → AreDigits (codes (decimal n))
unfolding decimal
AreDigits-decimal n = AreDigits-decimal_fuel (n + 1) n (omega arith)

-- A number of 64 bits is read back from its digits.
pub parse_usize-decimal : (n : ℕ) → n < 2 ^ 64 → parse_usize (codes (decimal n)) ≡ ok n
unfolding decimal
parse_usize-decimal n h =
    parse_usize-digits (codes (decimal n)) (AreDigits-decimal n)
    ∙ scan-decimal_fuel (n + 1) n (omega arith) h
