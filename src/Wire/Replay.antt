-- ===== src/Wire/Replay.antt =====
-- Which frames `Session::decode` of src/wire.rs accepts.
use kernmini.Prelude.{
  ℕ, ◌+◌, ◌≡◌, refl, sym, ◌∙◌, ◌≢◌, Bytes, bytes_eq, true, false, List, [], ◌∷◌, some, arith,
  length, take, drop, ltb, Option-cases, inl, inr,
}
use kernmini.Errors.{ok, err}
use kernmini.Wire.{
  Crates, duplicate_signature, Message, Session, contains, position, nth, signature, verify,
  decode_at, decode,
}

module _ (c : Crates) where
  -- The session after it has decoded every one of the frame lists.
  unfoldable pub after : Session → List (List Bytes) → Session
  after s [] = s
  after s (f ∷ fs) = after (decode c s f).1 fs

  -- A decode changes nothing but the set of signatures, and only adds to it.
  decode_at_keeps :
      (s : Session) (frames : List Bytes) (at : ℕ)
      → ((decode_at c s frames at).1.key ≡ s.key)
        × ((b : Bytes)
            → contains b s.seen ≡ true
            → contains b (decode_at c s frames at).1.seen ≡ true)
  unfolding decode_at
  decode_at_keeps s frames at = (ground arith, λ b h. ground arith)

  decode_keeps :
      (s : Session) (frames : List Bytes)
      → ((decode c s frames).1.key ≡ s.key)
        × ((b : Bytes) → contains b s.seen ≡ true → contains b (decode c s frames).1.seen ≡ true)
  unfolding decode
  decode_keeps s frames = elim (Option-cases (position frames)) [
    | inl e ↦ rw (e, decode) (refl, λ b h. h)
    | inr (at, e) ↦ rw (e, decode) (decode_at_keeps s frames at)
  ]

  after_keeps :
      (s : Session) (fs : List (List Bytes))
      → ((after s fs).key ≡ s.key)
        × ((b : Bytes) → contains b s.seen ≡ true → contains b (after s fs).seen ≡ true)
  unfolding after
  after_keeps s [] = (refl, λ b h. h)
  after_keeps s (f ∷ fs) =
      let (k, g) = decode_keeps s f in
      let (k', g') = after_keeps (decode c s f).1 fs in (k' ∙ k, λ b h. g' b (g b h))

  -- What acceptance says: the delimiter stands at `at`, all parts are there, and with a key the
  -- signature is right, was new, and is now seen.
  pub record Accepted (s : Session) (frames : List Bytes) (at : ℕ) : Type 0 where
    pub found : position frames ≡ some at
    pub long : ltb (length frames) (at + 6) ≡ false
    pub signed : signature c s (take 4 (drop 2 (drop at frames))) ≡ nth (drop at frames) 1
    pub fresh : contains (nth (drop at frames) 1) s.seen ≡ false
    pub kept : contains (nth (drop at frames) 1) (decode c s frames).1.seen ≡ true

  verify_ok :
      (s t : Session) (given : Bytes) (parts : List Bytes)
      → s.key ≢ []
      → verify c s given parts ≡ ok t
      → (signature c s parts ≡ given)
        × (contains given s.seen ≡ false)
        × (t ≡ record s { seen = given ∷ s.seen })
  unfolding verify
  verify_ok s t given parts keyed h = ground arith

  contains_self : (b : Bytes) (xs : List Bytes) → contains b (b ∷ xs) ≡ true
  unfolding contains
  contains_self b xs = ground arith

  decode_at_ok :
      (s : Session) (frames : List Bytes) (at : ℕ) (m : Message)
      → (decode_at c s frames at).0 ≡ ok m
      → (ltb (length frames) (at + 6) ≡ false)
        × (verify c s (nth (drop at frames) 1) (take 4 (drop 2 (drop at frames)))
            ≡ ok (decode_at c s frames at).1)
  unfolding decode_at
  decode_at_ok s frames at m h = ground arith

  at-Accepted :
      (s : Session) (frames : List Bytes) (at : ℕ) (m : Message)
      → s.key ≢ []
      → position frames ≡ some at
      → decode c s frames ≡ decode_at c s frames at
      → (decode_at c s frames at).0 ≡ ok m
      → Accepted s frames at
  at-Accepted s frames at m keyed e same h =
      let (long, checked) = decode_at_ok s frames at m h in
      let (signed, fresh, t) = verify_ok s _ _ _ keyed checked in
      record {
        found = e;
        long = long;
        signed = signed;
        fresh = fresh;
        kept = rw (same, t) (contains_self (nth (drop at frames) 1) s.seen);
      }

  -- A keyed session accepts frames only with all parts and the right signature, and only if it had
  -- not seen the signature, which it has seen from then on.
  pub decode-Accepted :
      (s : Session) (frames : List Bytes) (m : Message)
      → s.key ≢ []
      → (decode c s frames).0 ≡ ok m
      → (at : ℕ) × Accepted s frames at
  unfolding decode
  decode-Accepted s frames m keyed h = elim (Option-cases (position frames)) [
    | inl e ↦ absurd (ground arith)
    | inr (at, e) ↦ (at, at-Accepted s frames at m keyed e (rw (e, decode)) (rw (e, decode) at h))
  ]

  verify_seen :
      (s : Session) (given : Bytes) (parts : List Bytes)
      → s.key ≢ []
      → signature c s parts ≡ given
      → contains given s.seen ≡ true
      → verify c s given parts ≡ err duplicate_signature
  unfolding verify
  verify_seen s given parts keyed signed seen = ground arith

  pub signature_key :
      (s t : Session) (parts : List Bytes)
      → s.key ≡ t.key
      → signature c s parts ≡ signature c t parts
  unfolding signature
  signature_key s t parts e = rw e

  decode_refused :
      (t : Session) (frames : List Bytes) (at : ℕ)
      → position frames ≡ some at
      → ltb (length frames) (at + 6) ≡ false
      → verify c t (nth (drop at frames) 1) (take 4 (drop 2 (drop at frames)))
        ≡ err duplicate_signature
      → decode c t frames ≡ (err duplicate_signature, t)
  unfolding decode decode_at
  decode_refused t frames at found long refused = rw (found, decode) (ground arith)

  -- No frames are accepted twice: whatever was decoded in between, a keyed session refuses them as a
  -- duplicate, and keeps its state.
  pub decode_twice :
      (s : Session) (frames : List Bytes) (m : Message) (between : List (List Bytes))
      → s.key ≢ []
      → (decode c s frames).0 ≡ ok m
      → let t = after (decode c s frames).1 between in
        decode c t frames ≡ (err duplicate_signature, t)
  decode_twice s frames m between keyed h =
      let (at, a) = decode-Accepted s frames m keyed h in
      let (k, g) = decode_keeps s frames in
      let (k', g') = after_keeps (decode c s frames).1 between in
      let t : Session = after (decode c s frames).1 between in
      let given : Bytes = nth (drop at frames) 1 in
      let parts : List Bytes = take 4 (drop 2 (drop at frames)) in
      let same : t.key ≡ s.key = k' ∙ k in
      let signed : signature c t parts ≡ given = signature_key t s parts same ∙ a.signed in
      let refused : verify c t given parts ≡ err duplicate_signature =
        verify_seen t given parts (λ e. keyed (sym same ∙ e)) signed (g' given a.kept) in
      decode_refused t frames at a.found a.long refused
