-- ===== src/Errors.antt =====
-- src/error.rs: operational errors. A cause is another kernmini error or a foreign one, kept as
-- the text that it displays.
use kernmini.Prelude.{◌≡◌, refl, String, Option, none, some, arith}
use kernmini.Prelude.Text.{concat}

pub data ErrorKind : Type 0 where
  interrupted closed timed_out unavailable invalid_input io protocol adapter : ErrorKind

mutual
  pub data Error : Type 0 where
    error : ErrorKind → String → Cause → Error

  pub data Cause : Type 0 where
    no_cause : Cause
    foreign : String → Cause
    caused : Error → Cause

-- `std::result::Result`; where the source writes `Result<T>`, the error is `Error`.
pub data Result {ℓ κ} (E : Type ℓ) (A : Type κ) : Type (ℓ ⊔ κ) where
  ok : A → Result E A
  err : E → Result E A

infixl 5 ◌>>=◌ ◌>>◌
abbrev pub ◌>>=◌ {ℓ κ μ} :
    {E : Type ℓ} {A : Type κ} {B : Type μ} → Result E A → (A → Result E B) → Result E B
ok a >>= f = f a
err e >>= f = err e

abbrev pub ◌>>◌ {ℓ κ μ} :
    {E : Type ℓ} {A : Type κ} {B : Type μ} → Result E A → Result E B → Result E B
m >> n = m >>= λ _. n

-- `Result::map_err`
abbrev pub map_err {ℓ κ μ} :
    {E : Type ℓ} {F : Type κ} {A : Type μ} → (E → F) → Result E A → Result F A
map_err f (ok a) = ok a
map_err f (err e) = err (f e)

-- `Option::ok_or`
abbrev pub ok_or {ℓ κ} : {E : Type ℓ} {A : Type κ} → E → Option A → Result E A
ok_or e none = err e
ok_or e (some a) = ok a

-- `Error::new`
abbrev pub new : ErrorKind → String → Error
new k m = error k m no_cause

abbrev pub kind : Error → ErrorKind
kind (error k m c) = k

abbrev pub message : Error → String
message (error k m c) = m

-- `Error::source`
abbrev pub source : Error → Cause
source (error k m c) = c

unfoldable pub caused_by : Error → Cause → Error
caused_by (error k m c) d = error k m d

unfoldable pub context : Error → String → Error
unfolding caused_by
context e m = caused_by (new (kind e) m) (caused e)

unfoldable pub adapter_error : Cause → Error
unfolding caused_by
adapter_error c = caused_by (new adapter "language adapter failed") c

unfoldable pub interrupted_error : Error
interrupted_error = new interrupted "execution interrupted"

unfoldable pub closed_error : String → Error
unfolding concat
closed_error resource = new closed (concat resource " closed")

-- `Display for Error`
mutual
  unfolding concat

  pub display : Error → String
  display (error k m c) = concat m (display_cause c)

  pub display_cause : Cause → String
  display_cause no_cause = ""
  display_cause (foreign s) = concat ": " s
  display_cause (caused e) = concat ": " (display e)

-- The `From` conversions. A foreign error comes as its text.
unfoldable pub from_io : String → Error
unfolding caused_by
from_io text = caused_by (new io "I/O failed") (foreign text)

unfoldable pub from_json : String → Error
unfolding caused_by
from_json text = caused_by (new invalid_input "invalid JSON") (foreign text)

-- The part of `zmtpmini::Error` that the conversion looks at.
pub data ZmtpError : Type 0 where
  zmtp_closed : String → ZmtpError
  zmtp_io : String → ZmtpError
  zmtp_other : String → ZmtpError

unfoldable pub from_zmtp : ZmtpError → Error
unfolding caused_by
from_zmtp (zmtp_closed t) = caused_by (new closed "ZMTP connection failed") (foreign t)
from_zmtp (zmtp_io t) = caused_by (new io "ZMTP connection failed") (foreign t)
from_zmtp (zmtp_other t) = caused_by (new protocol "ZMTP connection failed") (foreign t)

unfoldable pub from_send : Error
unfolding closed_error
from_send = closed_error "kernel service"

unfoldable pub from_recv : String → Error
unfolding closed_error caused_by
from_recv text = caused_by (closed_error "kernel service") (foreign text)

unfoldable pub from_join : String → Error
unfolding closed_error caused_by
from_join text = caused_by (closed_error "kernel task") (foreign text)

-- Inversion of a successful `?`.
pub bind_ok {ℓ κ μ} :
    {E : Type ℓ} {A : Type κ} {B : Type μ} (m : Result E A) (f : A → Result E B) {b : B}
    → (m >>= f) ≡ ok b
    → (a : A) × (m ≡ ok a) × (f a ≡ ok b)
bind_ok (ok a) f h = (a, refl, h)
bind_ok (err e) f h = absurd (cc)

pub map_err_ok {ℓ κ μ} :
    {E : Type ℓ} {F : Type κ} {A : Type μ} (f : E → F) (r : Result E A) (a : A)
    → map_err f r ≡ ok a
    → r ≡ ok a
map_err_ok f (ok x) a h = cc
map_err_ok f (err e) a h = absurd (cc)

pub ok_injective {ℓ κ} :
    {E : Type ℓ} {A : Type κ} {a b : A} → ◌≡◌ {A = Result E A} (ok a) (ok b) → a ≡ b
ok_injective h = ground arith
