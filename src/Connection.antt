-- ===== src/Connection.antt =====
-- `ConnectionInfo` of src/connection.rs, and the addresses that it gives.
use kernmini.Prelude.{ℕ, ◌≡◌, ◌↔◌, String, string_eq, not, ◌==◌, arith, if◌then◌else◌}
use kernmini.Prelude.Text.{concat, decimal}
use kernmini.Errors.{Error, Result, ok, err, new, unavailable}

pub record ConnectionInfo : Type 0 where
  pub transport : String
  pub ip : String
  pub shell_port : ℕ
  pub iopub_port : ℕ
  pub stdin_port : ℕ
  pub control_port : ℕ
  pub hb_port : ℕ
  pub key : String
  pub signature_scheme : String

-- `ConnectionInfo::address`
unfoldable pub address : ConnectionInfo → ℕ → Result Error String
unfolding concat decimal
address connection port =
    if not (connection.transport == "tcp")
    then err (new unavailable "only TCP connection files are supported")
    else if not (connection.signature_scheme == "hmac-sha256")
    then err (new unavailable (concat "unsupported signature scheme " connection.signature_scheme))
    else ok (concat connection.ip (concat ":" (decimal port)))

supported :
    (connection : ConnectionInfo) (port : ℕ) (text : String)
    → address connection port ≡ ok text
    → (connection.transport ≡ "tcp") × (connection.signature_scheme ≡ "hmac-sha256")
unfolding address
supported connection port text h = elim (string_eq.dec connection.transport "tcp") [
  | yes t ↦ elim (string_eq.dec connection.signature_scheme "hmac-sha256") [
    | yes s ↦ (t, s)
    | no n ↦ absurd (ground arith)
  ]
  | no n ↦ absurd (ground arith)
]

given :
    (connection : ConnectionInfo) (port : ℕ)
    → (connection.transport ≡ "tcp") × (connection.signature_scheme ≡ "hmac-sha256")
    → (text : String) × (address connection port ≡ ok text)
unfolding address
given connection port (t, s) = (concat connection.ip (concat ":" (decimal port)), ground arith)

-- A connection file gives an address exactly if it names TCP and the HMAC of SHA-256.
pub address-supported :
    (connection : ConnectionInfo) (port : ℕ)
    → ((text : String) × (address connection port ≡ ok text))
      ↔ ((connection.transport ≡ "tcp") × (connection.signature_scheme ≡ "hmac-sha256"))
address-supported connection port =
    (λ (text, h). supported connection port text h, given connection port)
