-- ===== src/Dap/Framing/RoundTrip.antt =====
-- What `read_message` of src/dap.rs reads of what `encode_message` wrote.
use mathlib.Core.List.{append_assoc}
use native.Mathlib.Decide.{ℕ_discrete}
use kernmini.Prelude.{
  ℕ, suc, ◌+◌, ◌-◌, ◌^◌, ◌<◌, ◌≡◌, ◌≢◌, refl, sym, ap, ◌∙◌, String, Bytes, bytes_eq, nat_eq, true,
  false, List, [], ◌∷◌, ◌++◌, Option, none, some, ◌==◌, ltb, length, All, arith, length-append,
  take-length_append, drop-length_append,
}
use kernmini.Prelude.Text.{codes, decimal}
use kernmini.Prelude.Decimal.{
  is_digit, AreDigits, AreDigits-decimal, parse_usize, parse_usize-decimal,
}
use kernmini.Prelude.Utf8.{decode_utf8, decode_utf8-ascii, trim-word, is_whitespace}
use kernmini.Json.{Value}
use kernmini.Errors.{Result, ok, ok_injective}
use kernmini.Dap.{encode_message}
use kernmini.Dap.Framing.{
  take_line, blank_line, header_line, parsed_length, Headers, read_headers, read_message,
  read_payload, after_headers, message, isize_max,
}

abbrev pub announcement : Bytes
announcement = codes "Content-Length: "

take_line-append :
    (xs ys : Bytes)
    → All (λ b. b ≢ 10) xs
    → take_line (xs ++ ys) ≡ (xs ++ (take_line ys).0, (take_line ys).1)
unfolding take_line
take_line-append [] ys a = refl
take_line-append (x ∷ xs) ys a = ground (arith, take_line-append xs ys a.1)

take_line-end : (tail : Bytes) → take_line (13 ∷ 10 ∷ tail) ≡ (13 ∷ 10 ∷ [], tail)
unfolding take_line nat_eq ℕ_discrete
take_line-end tail = refl

All-append {ℓ κ} :
    {A : Type ℓ} (P : A → Type κ) (xs ys : List A) → All P xs → All P ys → All P (xs ++ ys)
All-append P [] ys a b = b
All-append P (x ∷ xs) ys a b = (a.0, All-append P xs ys a.1 b)

All-digits {κ} :
    {P : ℕ → Type κ} (ds : Bytes)
    → ((d : ℕ) → is_digit d ≡ true → P d)
    → All (λ d. is_digit d ≡ true) ds
    → All P ds
All-digits [] f a = tt
All-digits (d ∷ ds) f a = (f d a.0, All-digits ds f a.1)

not_newline : (d : ℕ) → is_digit d ≡ true → d ≢ 10
not_newline d h = ground arith

ascii_digit : (d : ℕ) → is_digit d ≡ true → d < 0x80
ascii_digit d h = ground arith

no_whitespace : (d : ℕ) → is_digit d ≡ true → is_whitespace d ≡ false
unfolding is_whitespace
no_whitespace d h = ground arith

-- Digits, with a first one.
module _ (c : ℕ) (ds : Bytes) (digits : AreDigits (c ∷ ds)) where
  abbrev line : Bytes
  line = announcement ++ (c ∷ ds ++ 13 ∷ 10 ∷ [])

  take_line-line :
      (tail : Bytes) → take_line (announcement ++ (c ∷ ds ++ 13 ∷ 10 ∷ tail)) ≡ (line, tail)
  take_line-line tail =
      take_line-append announcement (c ∷ ds ++ 13 ∷ 10 ∷ tail) (omega arith)
      ∙ rw
          (
            take_line-append (c ∷ ds) (13 ∷ 10 ∷ tail) (All-digits (c ∷ ds) not_newline digits),
            take_line-end tail,
          )
          refl

  decode_utf8-line : decode_utf8 line ≡ some line
  decode_utf8-line = decode_utf8-ascii line (
      All-append (λ b. b < 0x80) announcement (c ∷ ds ++ 13 ∷ 10 ∷ []) (omega arith)
        (All-append (λ b. b < 0x80) (c ∷ ds) (13 ∷ 10 ∷ []) (All-digits (c ∷ ds) ascii_digit digits)
          (omega arith)))

  header_line-line :
      (n : ℕ) (so_far : Option ℕ)
      → parse_usize (c ∷ ds) ≡ ok n
      → header_line line so_far ≡ ok (some n)
  unfolding header_line is_whitespace nat_eq ℕ_discrete
  header_line-line n so_far e =
      ap (λ t. parsed_length (parse_usize t))
        (trim-word 32 c ds (13 ∷ 10 ∷ []) refl (All-digits (c ∷ ds) no_whitespace digits)
          (refl, (refl, tt)))
      ∙ ap parsed_length e

other_bytes : (a b : Bytes) → a ≢ b → (a == b) ≡ false
other_bytes a b n = ground arith

same_bytes : (a : Bytes) → (a == a) ≡ true
same_bytes a = ground arith

-- One more header line, and the blank line.
read_headers-line :
    (fuel : ℕ) (bytes rest : Bytes) (so_far read : Option ℕ) (c : ℕ) (cs : List ℕ)
    → take_line bytes ≡ (c ∷ cs, rest)
    → decode_utf8 (c ∷ cs) ≡ some (c ∷ cs)
    → (c ∷ cs) ≢ blank_line
    → header_line (c ∷ cs) so_far ≡ ok read
    → read_headers (suc fuel) bytes so_far ≡ read_headers fuel rest read
unfolding read_headers
read_headers-line fuel bytes rest so_far read c cs taken text other value =
    rw (taken, text, other_bytes (c ∷ cs) blank_line other, value) refl

read_headers-blank :
    (fuel : ℕ) (rest : Bytes) (so_far : Option ℕ)
    → read_headers (suc fuel) (13 ∷ 10 ∷ rest) so_far ≡ some (ok (so_far, rest))
unfolding read_headers
read_headers-blank fuel rest so_far =
    rw (take_line-end rest, decode_utf8-ascii blank_line (omega arith), same_bytes blank_line) refl

-- The header of a payload, before the payload and what follows it.
headers-announced :
    (fuel n : ℕ) (ds tail : Bytes)
    → AreDigits ds
    → parse_usize ds ≡ ok n
    → read_headers (suc (suc fuel)) (announcement ++ (ds ++ 13 ∷ 10 ∷ 13 ∷ 10 ∷ tail)) none
      ≡ some (ok (some n, tail))
headers-announced fuel n [] tail a e = absurd a
headers-announced fuel n (c ∷ ds) tail a e =
    read_headers-line (suc fuel) _ (13 ∷ 10 ∷ tail) none (some n) _ _
      (take_line-line c ds a (13 ∷ 10 ∷ tail)) (decode_utf8-line c ds a) (λ same. cc)
      (header_line-line c ds a n none e)
    ∙ read_headers-blank fuel tail (some n)

module _ (from_slice : Bytes → Result String Value) where
  payload-read :
      (m : Value) (payload rest : Bytes)
      → from_slice payload ≡ ok m
      → length payload < 2 ^ 63
      → read_payload from_slice (ok (some (length payload), payload ++ rest)) ≡ message m rest
  payload-read m payload rest e small =
      let fits : ltb isize_max (length payload) ≡ false = ground arith in
      let enough : ltb (length (payload ++ rest)) (length payload) ≡ false =
        ground (arith, length-append payload rest) in
      rw (fits, enough, take-length_append payload rest, drop-length_append payload rest, e) refl

  read_message-headers :
      (bytes : Bytes) (headers : Headers)
      → read_headers (length bytes + 1) bytes none ≡ some headers
      → read_message from_slice bytes ≡ some (read_payload from_slice headers)
  unfolding read_message
  read_message-headers bytes headers e = ap (after_headers from_slice) e

  announced :
      (m : Value) (payload ds rest : Bytes)
      → AreDigits ds
      → parse_usize ds ≡ ok (length payload)
      → from_slice payload ≡ ok m
      → length payload < 2 ^ 63
      → read_message from_slice (announcement ++ (ds ++ 13 ∷ 10 ∷ 13 ∷ 10 ∷ (payload ++ rest)))
        ≡ some (message m rest)
  announced m payload ds rest a e r small =
      let bytes : Bytes = announcement ++ (ds ++ 13 ∷ 10 ∷ 13 ∷ 10 ∷ (payload ++ rest)) in
      let fuel : length bytes + 1 ≡ suc (suc (length bytes - 1)) = omega arith in
      read_message-headers bytes (ok (some (length payload), payload ++ rest))
        (rw fuel (headers-announced (length bytes - 1) (length payload) ds (payload ++ rest) a e))
      ∙ ap some (payload-read m payload rest r small)

  pub frame_of :
      (to_vec : Value → Result String Bytes) (m : Value) (payload frame : Bytes)
      → to_vec m ≡ ok payload
      → encode_message to_vec m ≡ ok frame
      → frame ≡ announcement ++ (codes (decimal (length payload)) ++ 13 ∷ 10 ∷ 13 ∷ 10 ∷ payload)
  unfolding encode_message
  frame_of to_vec m payload frame w written = ok_injective (rw w at (sym written))

  -- A message that encode_message wrote is read back with nothing of what follows it, if its JSON text
  -- is and has fewer than 2^63 bytes.
  pub read_message-encode :
      (to_vec : Value → Result String Bytes) (m : Value) (payload frame rest : Bytes)
      → to_vec m ≡ ok payload
      → from_slice payload ≡ ok m
      → length payload < 2 ^ 63
      → encode_message to_vec m ≡ ok frame
      → read_message from_slice (frame ++ rest) ≡ some (message m rest)
  read_message-encode to_vec m payload frame rest w r small written =
      let ds : Bytes = codes (decimal (length payload)) in
      ap (λ f. read_message from_slice (f ++ rest)) (frame_of to_vec m payload frame w written)
      ∙ (ap (λ t. read_message from_slice (announcement ++ t))
            (append_assoc ds (13 ∷ 10 ∷ 13 ∷ 10 ∷ payload) rest)
          ∙ announced m payload ds rest (AreDigits-decimal (length payload))
              (parse_usize-decimal (length payload) (omega arith)) r small)
