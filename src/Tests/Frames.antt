-- ===== src/Tests/Frames.antt =====
-- The theorems on src/wire.rs and on the joining of streams, at concrete frames.
use native.Mathlib.Decide.{ℕ_discrete}
use kernmini.Prelude.Text.{concat}
use kernmini.Prelude.{
  ℕ, ◌+◌, ◌≡◌, refl, sym, ap, ◌≢◌, Bytes, bytes_eq, nat_eq, string_eq, true, false, List, [], ◌∷◌,
  length, arith,
}
use kernmini.Json.{object, empty}
use kernmini.Errors.{ok, err, ok_injective}
use kernmini.Wire.{
  Message, duplicate_signature, delimiter, contains, position, nth, signature, parse_message,
  verify, decode_at, decode, encode,
}
use kernmini.Wire.Replay.{after, Accepted, decode-Accepted, decode_twice}
use kernmini.Wire.RoundTrip.{IsRoutable, Reads, decode-encode}
use kernmini.Transport.Reading.{frames, ping, read_loop, read_loop-replayed}
use kernmini.Language.{stream, ContextMessage, event, flush}
use kernmini.Engine.Pump.{coalesce}
use kernmini.Engine.Pump.Coalesce.{atoms, IsJoined, atoms-coalesce, coalesce-IsJoined}
use kernmini.Tests.{test_crates, test_session, execute_header}

-- A message that the test encoder writes and reads.
abbrev small_message : Message
small_message = record {
  identities = (5 ∷ []) ∷ [];
  header = execute_header;
  parent_header = empty;
  metadata = empty;
  content = object empty;
  buffers = (9 ∷ []) ∷ [];
}

abbrev small_frames : List Bytes
small_frames =
    (5 ∷ [])
    ∷ delimiter
    ∷ (7 ∷ 2 ∷ 1 ∷ 1 ∷ 1 ∷ [])
    ∷ (2 ∷ [])
    ∷ (1 ∷ [])
    ∷ (1 ∷ [])
    ∷ (1 ∷ [])
    ∷ (9 ∷ [])
    ∷ []

keyed : test_session.key ≢ []
keyed e = absurd (cc)

small_written : encode test_crates test_session small_message ≡ ok small_frames
unfolding encode signature bytes_eq
small_written = refl

small_decoded : (decode test_crates test_session small_frames).0 ≡ ok small_message
unfolding decode decode_at position delimiter verify signature contains parse_message nth bytes_eq
    ℕ_discrete
small_decoded = refl

routable : IsRoutable small_message.identities
unfolding delimiter
routable = (λ e. absurd (ground arith), tt)

reads : Reads test_crates small_message
unfolding bytes_eq ℕ_discrete
reads = record {
  header = λ b e. ap test_crates.map_from_slice (sym (ok_injective e));
  parent_header = λ b e. ap test_crates.map_from_slice (sym (ok_injective e));
  metadata = λ b e. ap test_crates.map_from_slice (sym (ok_injective e));
  content = λ b e. ap test_crates.from_slice (sym (ok_injective e));
}

unseen : contains (nth small_frames (length small_message.identities + 1)) test_session.seen ≡ false
unfolding contains
unseen = refl

decode-encode_example : (decode test_crates test_session small_frames).0 ≡ ok small_message
decode-encode_example =
    decode-encode test_crates test_session test_session small_message small_frames refl routable
      reads unseen small_written

decode-Accepted_example : (at : ℕ) × Accepted test_crates test_session small_frames at
decode-Accepted_example =
    decode-Accepted test_crates test_session small_frames small_message keyed small_decoded

decode_twice_example :
    let t = after test_crates (decode test_crates test_session small_frames).1 ([] ∷ []) in
    decode test_crates t small_frames ≡ (err duplicate_signature, t)
decode_twice_example =
    decode_twice test_crates test_session small_frames small_message ([] ∷ []) keyed small_decoded

read_loop-replayed_example :
    let t = after test_crates (decode test_crates test_session small_frames).1 ([] ∷ []) in
    read_loop test_crates (λ n. true) 0 t (ok (frames small_frames) ∷ ok (ping []) ∷ [])
    ≡ read_loop test_crates (λ n. true) 0 t (ok (ping []) ∷ [])
read_loop-replayed_example =
    read_loop-replayed test_crates (λ n. true) 0 test_session small_frames small_message ([] ∷ [])
      (ok (ping []) ∷ []) keyed small_decoded

-- Two parts of stdout in a row and one of stderr.
abbrev batch : List ContextMessage
batch =
    event (stream "stdout" "a")
    ∷ event (stream "stdout" "b")
    ∷ event (stream "stderr" "c")
    ∷ flush
    ∷ []

batch_joined :
    coalesce batch ≡ event (stream "stdout" "ab") ∷ event (stream "stderr" "c") ∷ flush ∷ []
unfolding coalesce string_eq concat
batch_joined = refl

atoms-coalesce_example : atoms (coalesce batch) ≡ atoms batch
atoms-coalesce_example = atoms-coalesce batch

coalesce-IsJoined_example : IsJoined (coalesce batch)
coalesce-IsJoined_example = coalesce-IsJoined batch
