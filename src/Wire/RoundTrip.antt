-- ===== src/Wire/RoundTrip.antt =====
-- `Session::decode` of what `Session::encode` wrote (src/wire.rs).
use kernmini.Prelude.{
  ℕ, ◌+◌, ◌≡◌, refl, sym, subst, ◌≢◌, Bytes, bytes_eq, false, List, [], ◌∷◌, ◌++◌, some, arith,
  ◌==◌, length, take, drop, ltb, All, length-append, Bool-cases, inl, inr, take-length_append,
  drop-length_append,
}
use kernmini.Json.{object}
use kernmini.Errors.{ok, map_err, bind_ok, map_err_ok, ok_injective}
use kernmini.Wire.Replay.{signature_key}
use kernmini.Wire.{
  Crates, json, Message, Session, contains, delimiter, position, nth, signature, verify,
  parse_message, decode_at, decode, encode,
}

-- No identity frame is the delimiter.
abbrev pub IsRoutable : List Bytes → Type 0
IsRoutable = All (λ b. b ≢ delimiter)

position-delimiter :
    (ids rest : List Bytes)
    → IsRoutable ids
    → position (ids ++ delimiter ∷ rest) ≡ some (length ids)
unfolding position
position-delimiter [] rest h = ground arith
position-delimiter (b ∷ ids) rest h = ground (arith, position-delimiter ids rest h.1)

second_frame :
    (ids : List Bytes) (first given : Bytes) (rest : List Bytes)
    → nth (ids ++ first ∷ given ∷ rest) (length ids + 1) ≡ given
unfolding nth
second_frame [] first given rest = refl
second_frame (b ∷ ids) first given rest = ground (arith, second_frame ids first given rest)

module _ (c : Crates) where
  open c use {to_vec, from_slice, map_from_slice}

  -- The JSON texts of the message's parts, where they can be written, read back as the parts.
  pub record Reads (m : Message) : Type 0 where
    pub header : (b : Bytes) → to_vec (object m.header) ≡ ok b → map_from_slice b ≡ ok m.header
    pub parent_header :
        (b : Bytes) → to_vec (object m.parent_header) ≡ ok b → map_from_slice b ≡ ok m.parent_header
    pub metadata :
        (b : Bytes) → to_vec (object m.metadata) ≡ ok b → map_from_slice b ≡ ok m.metadata
    pub content : (b : Bytes) → to_vec m.content ≡ ok b → from_slice b ≡ ok m.content

  -- What `encode` writes, given the four JSON texts.
  abbrev written : Session → Message → Bytes → Bytes → Bytes → Bytes → List Bytes
  written s m h p d b =
      m.identities ++ delimiter ∷ signature c s (h ∷ p ∷ d ∷ b ∷ []) ∷ h ∷ p ∷ d ∷ b ∷ m.buffers

  record Texts (m : Message) (h p d b : Bytes) : Type 0 where
    header : to_vec (object m.header) ≡ ok h
    parent_header : to_vec (object m.parent_header) ≡ ok p
    metadata : to_vec (object m.metadata) ≡ ok d
    content : to_vec m.content ≡ ok b

  encode_frames :
      (s : Session) (m : Message) (frames : List Bytes)
      → encode c s m ≡ ok frames
      → (h : Bytes) × (p : Bytes) × (d : Bytes) × (b : Bytes) × Texts m h p d b
        × (written s m h p d b ≡ frames)
  unfolding encode
  encode_frames s m frames e =
      let (h, eh, e₁) = bind_ok (map_err json (to_vec (object m.header))) _ e in
      let (p, ep, e₂) = bind_ok (map_err json (to_vec (object m.parent_header))) _ e₁ in
      let (d, ed, e₃) = bind_ok (map_err json (to_vec (object m.metadata))) _ e₂ in
      let (b, eb, e₄) = bind_ok (map_err json (to_vec m.content)) _ e₃ in
      (
        h,
        p,
        d,
        b,
        record {
          header = map_err_ok json _ h eh;
          parent_header = map_err_ok json _ p ep;
          metadata = map_err_ok json _ d ed;
          content = map_err_ok json _ b eb;
        },
        ok_injective e₄,
      )

  parse-written :
      (m : Message) (first given h p d b : Bytes)
      → Texts m h p d b
      → Reads m
      → parse_message c m.identities (first ∷ given ∷ h ∷ p ∷ d ∷ b ∷ m.buffers) ≡ ok m
  unfolding parse_message nth
  parse-written m first given h p d b t r = rw (
    r.header h t.header,
    r.parent_header p t.parent_header,
    r.metadata d t.metadata,
    r.content b t.content,
  )

  verify_new :
      (r : Session) (given : Bytes) (parts : List Bytes)
      → signature c r parts ≡ given
      → contains given r.seen ≡ false
      → (t : Session) × (verify c r given parts ≡ ok t)
  unfolding verify
  verify_new r given parts signed fresh = elim (Bool-cases (r.key == [])) [
    | inl bare ↦ (r, ground arith)
    | inr keyed ↦ (record r { seen = given ∷ r.seen }, ground arith)
  ]

  -- The frames around the position of the delimiter, whatever stands behind it.
  decode-split :
      (r : Session) (ids rest : List Bytes)
      → IsRoutable ids
      → decode c r (ids ++ delimiter ∷ rest) ≡ decode_at c r (ids ++ delimiter ∷ rest) (length ids)
  unfolding decode
  decode-split r ids rest routable = rw (position-delimiter ids rest routable, decode)

  decode_at_parts :
      (r t : Session) (frames ids rest : List Bytes) (at : ℕ) (m : Message)
      → take at frames ≡ ids
      → drop at frames ≡ rest
      → ltb (length frames) (at + 6) ≡ false
      → verify c r (nth rest 1) (take 4 (drop 2 rest)) ≡ ok t
      → parse_message c ids rest ≡ ok m
      → (decode_at c r frames at).0 ≡ ok m
  unfolding decode_at
  decode_at_parts r t frames ids rest at m taken left long checked parsed = ground arith

  decode-written :
      (s r : Session) (m : Message) (h p d b : Bytes)
      → s.key ≡ r.key
      → IsRoutable m.identities
      → Texts m h p d b
      → Reads m
      → contains (signature c s (h ∷ p ∷ d ∷ b ∷ [])) r.seen ≡ false
      → (decode c r (written s m h p d b)).0 ≡ ok m
  unfolding nth
  decode-written s r m h p d b keys routable t reads fresh =
      let ids : List Bytes = m.identities in
      let given : Bytes = signature c s (h ∷ p ∷ d ∷ b ∷ []) in
      let rest : List Bytes = delimiter ∷ given ∷ h ∷ p ∷ d ∷ b ∷ m.buffers in
      let (after, checked) =
        verify_new r given (h ∷ p ∷ d ∷ b ∷ []) (signature_key c r s _ (sym keys)) fresh in
      rw (decode-split r ids _ routable) (
        decode_at_parts r after _ ids rest _ m (take-length_append ids rest)
          (drop-length_append ids rest) (ground (arith, length-append ids rest)) checked
          (parse-written m delimiter given h p d b t reads))

  -- A message that `encode` wrote is decoded to itself by a session with the same key that has not
  -- seen its signature, if no identity is the delimiter and the JSON texts read back.
  pub decode-encode :
      (s r : Session) (m : Message) (frames : List Bytes)
      → s.key ≡ r.key
      → IsRoutable m.identities
      → Reads m
      → contains (nth frames (length m.identities + 1)) r.seen ≡ false
      → encode c s m ≡ ok frames
      → (decode c r frames).0 ≡ ok m
  decode-encode s r m frames keys routable reads fresh e =
      let (h, p, d, b, texts, same) = encode_frames s m frames e in
      let given : Bytes = signature c s (h ∷ p ∷ d ∷ b ∷ []) in
      let rest : List Bytes = h ∷ p ∷ d ∷ b ∷ m.buffers in
      let second : nth frames (length m.identities + 1) ≡ given =
        subst (λ f. nth f (length m.identities + 1) ≡ given) same
          (second_frame m.identities delimiter given rest) in
      subst (λ f. (decode c r f).0 ≡ ok m) same
        (decode-written s r m h p d b keys routable texts reads
          (subst (λ g. contains g r.seen ≡ false) second fresh))
