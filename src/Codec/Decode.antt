-- ===== src/Codec/Decode.antt =====
-- `decode`: a reader takes the remaining bytes and returns a value with what is left.
use coppice_names.Prelude.{
  ℕ, Result, ok, err, ◌>>=◌, ◌>>◌, guard, map_err, ltb, ◌==◌, length, take, drop, if◌then◌else◌,
}
use coppice_names.Protocol.{
  Bytes, Name, CanonicalUa, Network, CommitRef, StateRef, Primitives, parse_name, parse_ua,
  nonzero_from_bytes, field_from_bytes,
}
use coppice_names.Operation.{Operation}
use coppice_names.Codec.Bytewise.{
  CodecError, CodecParameters, validate_codec, from_be, is_utf8, invalid_tag, truncated,
  trailing_bytes, invalid_name, invalid_ua, invalid_field, invalid_proof_length,
}
use coppice_names.Codec.Encode.{commit_tag, reveal_tag, refresh_tag}

abbrev pub Reader : Type 0 → Type 0
Reader A = Bytes → Result CodecError (A × Bytes)

-- `Decoder::bytes`, and `Decoder::take` with the length as an argument
unfoldable pub read_bytes : ℕ → Reader Bytes
read_bytes n input = if ltb (length input) n then err truncated else ok (take n input, drop n input)

-- `Decoder::u8`, `Decoder::u16` and `Decoder::u32`, by the number of bytes
unfoldable pub read_be : ℕ → Reader ℕ
unfolding read_bytes from_be
read_be width input = do (bytes, rest) ← read_bytes width input; ok (from_be bytes 0, rest)

-- `Decoder::name`
unfoldable pub read_name : Reader Name
unfolding read_be
read_name input = do
  (size, after_size) ← read_be 1 input
  (value, rest) ← read_bytes size after_size
  guard (is_utf8 value) invalid_name
  name ← map_err (parse_name value) (λ _. invalid_name)
  ok (name, rest)

-- `Decoder::proof`
unfoldable pub read_proof : ℕ → Reader Bytes
unfolding read_bytes
read_proof n input = if ltb (length input) n then err invalid_proof_length else read_bytes n input

unfoldable pub read_commit_ref : Reader CommitRef
unfolding read_be
read_commit_ref input = do
  (height, r1) ← read_be 4 input
  (tx_index, r2) ← read_be 4 r1
  (txid, r3) ← read_bytes 32 r2
  ok (record { height = height; tx_index = tx_index; txid = txid }, r3)

unfoldable pub read_state_ref : Reader StateRef
unfolding read_be
read_state_ref input = do
  (height, r1) ← read_be 4 input
  (tx_index, r2) ← read_be 4 r1
  (txid, r3) ← read_bytes 32 r2
  (action_index, r4) ← read_be 4 r3
  ok (record { height = height; tx_index = tx_index; txid = txid; action_index = action_index }, r4)

-- what follows the reference in a REVEAL and in a REFRESH
pub record Tail : Type 0 where
  pub ua : CanonicalUa
  pub action_index : ℕ
  pub successor_future_nf : Bytes
  pub proof : Bytes

module _ ⦃prims : Primitives⦄ where
  -- `Decoder::ua`
  unfoldable pub read_ua : Network → Reader CanonicalUa
  unfolding read_be
  read_ua network input = do
    (size, after_size) ← read_be 2 input
    (value, rest) ← read_bytes size after_size
    guard (is_utf8 value) invalid_ua
    ua ← map_err (parse_ua network value) (λ _. invalid_ua)
    ok (ua, rest)

  unfoldable pub read_tail : Network → ℕ → Reader Tail
  unfolding read_ua read_proof
  read_tail network proof_bytes input = do
    (ua, r1) ← read_ua network input
    (action_index, r2) ← read_be 4 r1
    (nf, r3) ← read_bytes 32 r2
    field ← map_err (field_from_bytes nf) (λ _. invalid_field)
    (proof, r4) ← read_proof proof_bytes r3
    ok (
      record { ua = ua; action_index = action_index; successor_future_nf = field; proof = proof },
      r4,
    )

  -- the `match` of `decode` on the tag
  unfoldable pub read_body : Network → CodecParameters → ℕ → Reader Operation
  unfolding read_name read_commit_ref read_state_ref read_tail
  read_body network p tag input =
      if tag == commit_tag
      then (do
        (bytes, rest) ← read_bytes 32 input
        commitment ← map_err (nonzero_from_bytes bytes) (λ _. invalid_field)
        ok (Operation.commit commitment, rest))
      else if tag == reveal_tag
      then (do
        (name, r1) ← read_name input
        (reference, r2) ← read_commit_ref r1
        (tail, r3) ← read_tail network p.reveal_proof_bytes r2
        ok (
          Operation.reveal (record {
            name = name;
            commit = reference;
            ua = tail.ua;
            action_index = tail.action_index;
            successor_future_nf = tail.successor_future_nf;
            proof = tail.proof;
          }),
          r3,
        ))
      else if tag == refresh_tag
      then (do
        (name, r1) ← read_name input
        (reference, r2) ← read_state_ref r1
        (tail, r3) ← read_tail network p.refresh_proof_bytes r2
        ok (
          Operation.refresh (record {
            name = name;
            predecessor = reference;
            ua = tail.ua;
            action_index = tail.action_index;
            successor_future_nf = tail.successor_future_nf;
            proof = tail.proof;
          }),
          r3,
        ))
      else err invalid_tag

  -- `decode`
  unfoldable pub decode : Network → CodecParameters → Bytes → Result CodecError Operation
  unfolding read_body validate_codec
  decode network p bytes = do
    validate_codec p
    (tag, r1) ← read_be 1 bytes
    (operation, rest) ← read_body network p tag r1
    guard (length rest == 0) trailing_bytes
    ok operation
