-- ===== src/Dap/Framing/Total.antt =====
-- The loop over the header lines in `read_message` of src/dap.rs: every round takes a byte.
use kernmini.Prelude.{
  ℕ, zero, suc, ◌+◌, ◌≤◌, ◌<◌, ◌≡◌, refl, sym, ◌∙◌, ap, take, drop, String, Bytes, bytes_eq, nat_eq,
  List, [], ◌∷◌, Option, none, some, ◌==◌, length, arith, Bool-cases, inl, inr, ◌≢◌, ◌↔◌, ltb,
  if◌then◌else◌,
}
use kernmini.Prelude.Utf8.{decode_utf8, decode_from}
use kernmini.Json.{Value}
use kernmini.Errors.{Error, Result, ok, err, from_io}
use kernmini.Dap.Framing.{
  take_line, blank_line, header_line, read_header, Headers, read_headers, read_message,
  after_headers, read_payload, parsed_payload, Reading, failure, panicked, isize_max,
}

take_line-shorter : (b : ℕ) (bs : Bytes) → length (take_line (b ∷ bs)).1 ≤ length bs
unfolding take_line
take_line-shorter b [] = ground arith
take_line-shorter b (c ∷ bs) = ground (arith, take_line-shorter c bs)

continued :
    (value : Result Error (Option ℕ)) (again : Option ℕ → Option Headers)
    → ((l : Option ℕ) → (h : Headers) × (again l ≡ some h))
    → (h : Headers) × ((elim value [ ok l ↦ again l | err e ↦ some (err e) ]) ≡ some h)
continued (ok l) again total = total l
continued (err e) again total = (err e, refl)

read_header-total :
    (line : Option (List ℕ)) (so_far : Option ℕ) (rest : Bytes) (again : Option ℕ → Option Headers)
    → ((l : Option ℕ) → (h : Headers) × (again l ≡ some h))
    → (h : Headers) × (read_header line so_far rest again ≡ some h)
read_header-total none so_far rest again total = (_, refl)
read_header-total (some []) so_far rest again total = (_, refl)
read_header-total (some (c ∷ cs)) so_far rest again total =
    elim (Bool-cases ((c ∷ cs) == blank_line)) [
      | inl e ↦ (ok (so_far, rest), rw e refl)
      | inr e ↦
          let (h, done) = continued (header_line (c ∷ cs) so_far) again total in (h, rw e done)
    ]

read_headers-total :
    (fuel : ℕ) (bytes : Bytes) (so_far : Option ℕ)
    → length bytes < fuel
    → (h : Headers) × (read_headers fuel bytes so_far ≡ some h)
unfolding read_headers decode_utf8 decode_from take_line
read_headers-total zero bytes so_far h = absurd (omega arith)
read_headers-total (suc fuel) [] so_far h = (_, refl)
read_headers-total (suc fuel) (b ∷ bs) so_far h =
    let (line, rest) = take_line (b ∷ bs) in
    read_header-total (decode_utf8 line) so_far rest (read_headers fuel rest)
      (λ l. read_headers-total fuel rest l (omega (arith, take_line-shorter b bs)))

-- The length that the headers announce, where they end and announce one.
abbrev pub Announces : Bytes → ℕ → Type 0
Announces bytes n =
    (rest : Bytes) × (read_headers (length bytes + 1) bytes none ≡ some (ok (some n, rest)))

announced_once :
    {m n : ℕ} {a b : Bytes}
    → ◌≡◌ {A = Option Headers} (some (ok (some m, a))) (some (ok (some n, b)))
    → m ≡ n
announced_once e = cc

module _ (from_slice : Bytes → Result String Value) where
  parsed_ne : (r : Result String Value) (rest : Bytes) → parsed_payload from_slice r rest ≢ panicked
  parsed_ne (ok v) rest = cc
  parsed_ne (err text) rest = cc

  short_ne :
      (n : ℕ) (rest : Bytes)
      → (if ltb (length rest) n
          then failure (from_io "early eof")
          else parsed_payload from_slice (from_slice (take n rest)) (drop n rest))
        ≢ panicked
  short_ne n rest = elim (Bool-cases (ltb (length rest) n)) [
    | inl e ↦ rw e (cc)
    | inr e ↦ rw e (parsed_ne (from_slice (take n rest)) (drop n rest))
  ]

  payload-panicked :
      (bytes : Bytes) (headers : Headers)
      → read_headers (length bytes + 1) bytes none ≡ some headers
      → (read_payload from_slice headers ≡ panicked)
        ↔ ((n : ℕ) × Announces bytes n × (isize_max < n))
  payload-panicked bytes (err e) same = (λ bad. absurd (cc), λ (n, (rest, other), big). absurd (cc))
  payload-panicked bytes (ok (none, rest)) same =
      (λ bad. absurd (cc), λ (n, (after, other), big). absurd (cc))
  payload-panicked bytes (ok (some n, rest)) same = elim (Bool-cases (ltb isize_max n)) [
    | inl e ↦ (λ bad. (n, (rest, same), ground (arith, e)), λ big. rw e refl)
    | inr e ↦ (
      λ bad. absurd (short_ne n rest (rw e at bad)),
      λ (k, (after, other), big).
          let one : k ≡ n = announced_once (sym other ∙ same) in
          absurd (ground (arith, e, rw one at big)),
    )
  ]

  -- Whatever bytes the stream gives before it ends, the reading of a message ends, with a message, with
  -- an error or in a panic. It panics exactly if the headers end and announce more than 2^63 - 1 bytes.
  pub read_message-total :
      (bytes : Bytes)
      → (r : Reading) × (read_message from_slice bytes ≡ some r)
        × ((r ≡ panicked) ↔ ((n : ℕ) × Announces bytes n × (isize_max < n)))
  unfolding read_message
  read_message-total bytes =
      let (h, done) = read_headers-total (length bytes + 1) bytes none (omega arith) in
      (read_payload from_slice h, ap (after_headers from_slice) done, payload-panicked bytes h done)
