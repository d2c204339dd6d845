-- ===== src/Dap/Framing.antt =====
-- `read_message` of src/dap.rs: the header lines and the payload of a message, from the bytes that the
-- stream gives before it ends.
pub mod RoundTrip
pub mod Total
pub mod Stream
use kernmini.Prelude.{
  ℕ, zero, suc, ◌+◌, ◌-◌, ◌^◌, String, Bytes, bytes_eq, nat_eq, Bool, true, false, List, [], ◌∷◌,
  Option, none, some, ◌==◌, ltb, if◌then◌else◌, length, take, drop,
}
use kernmini.Prelude.Text.{codes}
use kernmini.Prelude.Decimal.{parse_usize}
use kernmini.Prelude.Utf8.{decode_utf8, trim}
use kernmini.Json.{Value}
use kernmini.Errors.{
  Error, Result, ok, err, new, protocol, closed_error, caused_by, foreign, from_io,
}

-- `read_line`: the bytes through the next newline, or all that are left, and the rest.
unfoldable pub take_line : Bytes → Bytes × Bytes
take_line [] = ([], [])
take_line (b ∷ bs) =
    let (line, rest) = take_line bs in if b == 10 then (b ∷ [], bs) else (b ∷ line, rest)

-- `str::strip_prefix`
unfoldable pub strip_prefix : List ℕ → List ℕ → Option (List ℕ)
strip_prefix [] cs = some cs
strip_prefix (p ∷ ps) [] = none
strip_prefix (p ∷ ps) (c ∷ cs) = let rest = strip_prefix ps cs in if c == p then rest else none

abbrev pub content_length_prefix : List ℕ
content_length_prefix = codes "Content-Length:"

abbrev pub blank_line : List ℕ
blank_line = 13 ∷ 10 ∷ []

abbrev pub parsed_length : Result String ℕ → Result Error (Option ℕ)
parsed_length (err text) =
    err (caused_by (new protocol "invalid DAP Content-Length") (foreign text))
parsed_length (ok n) = ok (some n)

-- What a header line makes of the length so far.
abbrev pub header_value : Option (List ℕ) → Option ℕ → Result Error (Option ℕ)
header_value none so_far = ok so_far
header_value (some value) so_far = parsed_length (parse_usize (trim value))

unfoldable pub header_line : List ℕ → Option ℕ → Result Error (Option ℕ)
unfolding strip_prefix
header_line header so_far = header_value (strip_prefix content_length_prefix header) so_far

-- The headers: the length, and what follows the blank line.
abbrev pub Headers : Type 0
Headers = Result Error (Option ℕ × Bytes)

-- `again` reads the other headers, for the length so far.
abbrev pub read_header :
    Option (List ℕ) → Option ℕ → Bytes → (Option ℕ → Option Headers) → Option Headers
read_header none so_far rest again = some (err (from_io "stream did not contain valid UTF-8"))
read_header (some []) so_far rest again = some (err (closed_error "DAP connection"))
read_header (some (c ∷ cs)) so_far rest again =
    if (c ∷ cs) == blank_line
    then some (ok (so_far, rest))
    else elim (header_line (c ∷ cs) so_far) [ ok l ↦ again l | err e ↦ some (err e) ]

-- The loop; every line has a byte, so that the bytes and one are fuel enough.
unfoldable pub read_headers : ℕ → Bytes → Option ℕ → Option Headers
unfolding take_line header_line
read_headers zero bytes so_far = none
read_headers (suc fuel) bytes so_far =
    let (line, rest) = take_line bytes in
    read_header (decode_utf8 line) so_far rest (read_headers fuel rest)

-- What the reading of a message comes to: a message and the bytes behind it, an error, or a panic.
pub data Reading : Type 0 where
  message : Value → Bytes → Reading
  failure : Error → Reading
  panicked : Reading

-- `isize::MAX`, the most bytes that a `Vec` may have
abbrev pub isize_max : ℕ
isize_max = 2 ^ 63 - 1

module _ (from_slice : Bytes → Result String Value) where
  abbrev pub parsed_payload : Result String Value → Bytes → Reading
  parsed_payload (ok v) rest = message v rest
  parsed_payload (err text) rest =
      failure (caused_by (new protocol "invalid DAP JSON") (foreign text))

  -- `vec![0; length]`, which panics on a capacity that is too large, and `read_exact` into it
  abbrev pub read_payload : Headers → Reading
  read_payload (err e) = failure e
  read_payload (ok (none, bytes)) = failure (new protocol "DAP message has no Content-Length")
  read_payload (ok (some n, bytes)) =
      if ltb isize_max n
      then panicked
      else if ltb (length bytes) n
      then failure (from_io "early eof")
      else parsed_payload (from_slice (take n bytes)) (drop n bytes)

  abbrev pub after_headers : Option Headers → Option Reading
  after_headers none = none
  after_headers (some headers) = some (read_payload headers)

  unfoldable pub read_message : Bytes → Option Reading
  unfolding read_headers
  read_message bytes = after_headers (read_headers (length bytes + 1) bytes none)
