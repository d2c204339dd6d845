-- ===== src/Wire.antt =====
-- src/wire.rs: the Jupyter message codec. The digest, the hex coding, the JSON text and the fresh
-- identifiers come from other crates: `Crates` holds them.
pub mod Replay
pub mod RoundTrip
use mathlib.Core.List.{foldl}
use kernmini.Prelude.{
  ℕ, zero, suc, ◌+◌, String, Bytes, bytes_eq, Bool, true, false, not, List, [], ◌∷◌, ◌++◌, Option,
  none, some, ◌==◌, string_eq, ltb, length, take, drop, unwrap_or, ◌and_then◌, map_option, is_some,
  if◌then◌else◌,
}
use kernmini.Prelude.Text.{codes}
use kernmini.Json.{Value, Fields, empty, lookup, fields, string, as_str, object}
use kernmini.Errors.{
  Error, Result, ok, err, ◌>>=◌, ◌>>◌, map_err, ok_or, new, caused_by, protocol, foreign,
}

-- What the codec takes from `hmac`, `sha2`, `hex`, `serde_json`, `uuid` and `chrono`. JSON text
-- that cannot be written or read comes back as the text of the error. `uuid` and `rfc3339` are
-- indexed by the call.
pub record Crates : Type 1 where
  pub Mac : Type 0
  pub new_mac : Bytes → Mac
  pub update : Mac → Bytes → Mac
  pub finalize : Mac → Bytes
  pub hex_encode : Bytes → Bytes
  pub to_vec : Value → Result String Bytes
  pub from_slice : Bytes → Result String Value
  pub map_from_slice : Bytes → Result String Fields
  pub uuid : ℕ → String
  pub rfc3339 : ℕ → String

unfoldable pub delimiter : Bytes
delimiter = codes "<IDS|MSG>"

pub data WireError : Type 0 where
  missing_delimiter missing_parts bad_signature duplicate_signature : WireError
  json : String → WireError

-- `Display for WireError`
unfoldable pub display : WireError → String
display missing_delimiter = "missing <IDS|MSG> delimiter"
display missing_parts = "insufficient Jupyter message parts"
display bad_signature = "invalid message signature"
display duplicate_signature = "duplicate message signature"
display (json text) = kernmini.Prelude.Text.concat "invalid message JSON: " text

-- `From<WireError> for Error`
unfoldable pub from_wire : WireError → Error
unfolding caused_by display
from_wire e = caused_by (new protocol "invalid Jupyter message") (foreign (display e))

pub record Message : Type 0 where
  pub identities : List Bytes
  pub header : Fields
  pub parent_header : Fields
  pub metadata : Fields
  pub content : Value
  pub buffers : List Bytes

unfoldable pub text_field : String → Fields → String
unfolding lookup
text_field k m = unwrap_or (lookup k m and_then as_str) ""

unfoldable pub msg_type : Message → String
unfolding text_field
msg_type m = text_field "msg_type" m.header

unfoldable pub msg_id : Message → String
unfolding text_field
msg_id m = text_field "msg_id" m.header

pub record Session : Type 0 where
  pub key : Bytes
  pub seen : List Bytes
  pub session : String
  pub username : String

-- `HashSet::contains`
unfoldable pub contains : Bytes → List Bytes → Bool
contains b [] = false
contains b (x ∷ xs) = if x == b then true else contains b xs

-- `iter().position(|part| part == DELIMITER)`
unfoldable pub position : List Bytes → Option ℕ
unfolding delimiter
position [] = none
position (f ∷ fs) = if f == delimiter then some 0 else map_option suc (position fs)

unfoldable pub nth : List Bytes → ℕ → Bytes
nth [] i = []
nth (f ∷ fs) zero = f
nth (f ∷ fs) (suc i) = nth fs i

module _ (c : Crates) where
  open c use {
    Mac, new_mac, update, finalize, hex_encode, to_vec, from_slice, map_from_slice, uuid, rfc3339,
  }

  -- `Session::new`, whose session id is the `n`-th identifier.
  unfoldable pub new_session : ℕ → Bytes → String → Session
  new_session n key username = record {
    key = key;
    seen = [];
    session = uuid n;
    username = username;
  }

  unfoldable pub signature : Session → List Bytes → Bytes
  signature s json_parts =
      if s.key == [] then [] else hex_encode (finalize (foldl update (new_mac s.key) json_parts))

  -- The parts after the signature check; `?` turns a JSON error into `WireError::Json`.
  unfoldable pub parse_message : List Bytes → List Bytes → Result WireError Message
  parse_message identities rest = do
    header ← map_err json (map_from_slice (nth rest 2))
    parent_header ← map_err json (map_from_slice (nth rest 3))
    metadata ← map_err json (map_from_slice (nth rest 4))
    content ← map_err json (from_slice (nth rest 5))
    ok (record {
      identities = identities;
      header = header;
      parent_header = parent_header;
      metadata = metadata;
      content = content;
      buffers = drop 6 rest;
    })

  -- The check of a signature against the key and the signatures seen: the session after it.
  unfoldable pub verify : Session → Bytes → List Bytes → Result WireError Session
  unfolding signature contains
  verify s given json_parts =
      if s.key == []
      then ok s
      else if not (signature s json_parts == given)
      then err bad_signature
      else if contains given s.seen
      then err duplicate_signature
      else ok (record s { seen = given ∷ s.seen })

  -- `Session::decode`: the result, and the session with the signatures seen.
  unfoldable pub decode_at : Session → List Bytes → ℕ → Result WireError Message × Session
  unfolding verify parse_message
  decode_at s frames at =
      let rest = drop at frames in
      if ltb (length frames) (at + 6)
      then (err missing_parts, s)
      else elim (verify s (nth rest 1) (take 4 (drop 2 rest))) [
        | err e ↦ (err e, s)
        | ok t ↦ (parse_message (take at frames) rest, t)
      ]

  unfoldable pub decode : Session → List Bytes → Result WireError Message × Session
  unfolding position decode_at
  decode s frames = elim (position frames) [
    | none ↦ (err missing_delimiter, s)
    | some at ↦ decode_at s frames at
  ]

  -- `Session::encode`
  unfoldable pub encode : Session → Message → Result WireError (List Bytes)
  unfolding signature
  encode s m = do
    h ← map_err json (to_vec (object m.header))
    p ← map_err json (to_vec (object m.parent_header))
    d ← map_err json (to_vec (object m.metadata))
    b ← map_err json (to_vec m.content)
    let parts = h ∷ p ∷ d ∷ b ∷ []
    ok (m.identities ++ (delimiter ∷ signature s parts ∷ (parts ++ m.buffers)))

  -- `Session::message`, at the `n`-th call.
  unfoldable pub message : Session → ℕ → String → Value → Option Message → Message
  unfolding fields
  message s n type content parent = record {
    identities = [];
    header = fields (
        ("msg_id", string (uuid n))
        ∷ ("session", string s.session)
        ∷ ("username", string s.username)
        ∷ ("date", string (rfc3339 n))
        ∷ ("msg_type", string type)
        ∷ ("version", string "5.3")
        ∷ []);
    parent_header = elim parent [ none ↦ empty | some p ↦ p.header ];
    metadata = empty;
    content = content;
    buffers = [];
  }

  -- `Session::reply`
  unfoldable pub reply : Session → ℕ → Message → String → Value → Message
  unfolding message
  reply s n request type content = message s n type content (some request)
