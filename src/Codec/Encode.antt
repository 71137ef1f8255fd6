-- ===== src/Codec/Encode.antt =====
-- `encode`. The bound on the payload is that of the crate `coppice`, an argument here.
use coppice_names.Prelude.{
  ℕ, ◌^◌, ◌∷◌, ◌++◌, Result, ok, ◌>>=◌, ◌>>◌, guard, ltb, leb, ◌==◌, length,
}
use coppice_names.Protocol.{Bytes, Name, CanonicalUa, CommitRef, StateRef}
use coppice_names.Operation.{Operation}
use coppice_names.Codec.Bytewise.{
  CodecError, CodecParameters, validate_codec, be16, be32, invalid_ua, invalid_proof_length,
  too_large,
}

abbrev pub commit_tag : ℕ
commit_tag = 0

abbrev pub reveal_tag : ℕ
reveal_tag = 1

abbrev pub refresh_tag : ℕ
refresh_tag = 2

-- `encode_name`
unfoldable pub encode_name : Name → Bytes
encode_name name = length name ∷ name

-- `encode_ua`
unfoldable pub encode_ua : CanonicalUa → Result CodecError Bytes
encode_ua ua = do guard (ltb (length ua) (2 ^ 16)) invalid_ua; ok (be16 (length ua) ++ ua)

unfoldable pub encode_commit_ref : CommitRef → Bytes
encode_commit_ref c = be32 c.height ++ (be32 c.tx_index ++ c.txid)

unfoldable pub encode_state_ref : StateRef → Bytes
encode_state_ref s = be32 s.height ++ (be32 s.tx_index ++ (s.txid ++ be32 s.action_index))

-- what follows the reference in a REVEAL and in a REFRESH
unfoldable pub encode_tail : CanonicalUa → ℕ → Bytes → Bytes → Result CodecError Bytes
unfolding encode_ua
encode_tail ua action_index successor_future_nf proof = do
  ua_bytes ← encode_ua ua
  ok (ua_bytes ++ (be32 action_index ++ (successor_future_nf ++ proof)))

-- the `match` of `encode`
unfoldable pub encode_body : CodecParameters → Operation → Result CodecError Bytes
unfolding encode_name encode_commit_ref encode_state_ref encode_tail
encode_body p (Operation.commit commitment) = ok (commit_tag ∷ commitment)
encode_body p (Operation.reveal op) = do
  guard (length op.proof == p.reveal_proof_bytes) invalid_proof_length
  tail ← encode_tail op.ua op.action_index op.successor_future_nf op.proof
  ok (reveal_tag ∷ encode_name op.name ++ (encode_commit_ref op.commit ++ tail))
encode_body p (Operation.refresh op) = do
  guard (length op.proof == p.refresh_proof_bytes) invalid_proof_length
  tail ← encode_tail op.ua op.action_index op.successor_future_nf op.proof
  ok (refresh_tag ∷ encode_name op.name ++ (encode_state_ref op.predecessor ++ tail))

-- `encode`
unfoldable pub encode : ℕ → CodecParameters → Operation → Result CodecError Bytes
unfolding encode_body validate_codec
encode max_payload p operation = do
  validate_codec p
  out ← encode_body p operation
  guard (leb (length out) max_payload) too_large
  ok out
