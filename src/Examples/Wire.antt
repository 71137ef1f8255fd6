-- ===== src/Examples/Wire.antt =====
-- A REVEAL on the wire.
use coppice_names.Prelude.{
  ℕ, zero, suc, ◌≡◌, refl, [], ◌∷◌, Result, ok, err, ◌++◌, arith, ◌≢◌, false,
}
use coppice_names.Protocol.{
  Bytes, Network, parse_name, parse_ua, field_from_bytes, is_bad_name, zec_suffix, bare_name,
  strip_suffix, canonical_field, matches_hrp, strip_prefix,
}
use coppice_names.Collections.Order.{nat_ord, list_ord, same}
use coppice_names.Operation.{Operation, Reveal}
use coppice_names.Codec.Bytewise.{
  CodecError, CodecParameters, be16, be32, is_utf8, utf8_from, utf8_lead, validate_codec,
}
use coppice_names.Codec.Encode.{
  encode, encode_body, encode_tail, encode_ua, encode_name, encode_commit_ref,
}
use coppice_names.Codec.Decode.{decode, read_name}
use coppice_names.Codec.RoundTrip.{decode-encode, IsWellFormed}
use coppice_names.Codec.Aliases.{read_name-suffixed}
use coppice_names.Examples.Chain.{toy}

abbrev repeat : ℕ → ℕ → Bytes
repeat zero b = []
repeat (suc n) b = b ∷ repeat n b

abbrev codec : CodecParameters
codec = record { reveal_proof_bytes = 2; refresh_proof_bytes = 3 }

abbrev wire_reveal : Reveal
wire_reveal = record {
  name = b'a' ∷ b'-' ∷ b'7' ∷ [];
  commit = record { height = 70_000; tx_index = 258; txid = repeat 32 7 };
  ua = b'u' ∷ b'1' ∷ b'x' ∷ [];
  action_index = 1;
  successor_future_nf = repeat 32 5;
  proof = 1 ∷ 2 ∷ [];
}

abbrev bytes_or_none : Result {0, 0} CodecError Bytes → Bytes
bytes_or_none (ok bytes) = bytes
bytes_or_none (err e) = []

unfoldable wire : Bytes
unfolding encode encode_body encode_tail encode_ua encode_name encode_commit_ref be16 be32
    validate_codec
wire = bytes_or_none (encode 580 codec (Operation.reveal wire_reveal))

encodes : encode 580 codec (Operation.reveal wire_reveal) ≡ ok wire
unfolding wire
encodes = refl

well_formed : IsWellFormed Network.main (Operation.reveal wire_reveal)
unfolding parse_name is_bad_name bare_name strip_suffix parse_ua matches_hrp strip_prefix
    field_from_bytes canonical_field is_utf8 utf8_from utf8_lead same list_ord nat_ord
well_formed = (
  refl,
  record { height = omega arith; tx_index = omega arith; txid = refl },
  record {
    parses = refl;
    text = refl;
    short = omega arith;
    action = omega arith;
    wide = refl;
    field = refl;
  },
)

decode-encode_example : decode Network.main codec wire ≡ ok (Operation.reveal wire_reveal)
decode-encode_example =
    decode-encode 580 Network.main codec (Operation.reveal wire_reveal) wire encodes well_formed

good : is_bad_name (b'a' ∷ b'l' ∷ []) ≡ false
unfolding is_bad_name
good = refl

read_name-suffixed_example :
    (read_name (encode_name ((b'a' ∷ b'l' ∷ []) ++ zec_suffix) ++ (9 ∷ []))
      ≡ ok (b'a' ∷ b'l' ∷ [], 9 ∷ []))
    × (encode_name ((b'a' ∷ b'l' ∷ []) ++ zec_suffix) ≢ encode_name (b'a' ∷ b'l' ∷ []))
read_name-suffixed_example = read_name-suffixed (b'a' ∷ b'l' ∷ []) (9 ∷ []) good
