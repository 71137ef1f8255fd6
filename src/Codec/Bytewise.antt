-- ===== src/Codec/Bytewise.antt =====
-- Big-endian numbers, UTF-8, and the codec's parameters and errors.
use coppice_names.Prelude.{
  ℕ, zero, suc, ◌+◌, ◌*◌, ◌/◌, ◌%◌, ◌^◌, Bool, true, false, ◌&&◌, ◌||◌, Option, none, some, [], ◌∷◌,
  Result, ok, err, ltb, leb, if◌then◌else◌,
}
use coppice_names.Protocol.{Bytes}

pub data CodecError : Type 0 where
  invalid_tag truncated trailing_bytes invalid_name : CodecError
  invalid_ua invalid_field invalid_proof_length too_large : CodecError

pub record CodecParameters : Type 0 where
  pub reveal_proof_bytes : ℕ
  pub refresh_proof_bytes : ℕ

abbrev pub max_reveal_proof_bytes : ℕ
max_reveal_proof_bytes = 14_890

abbrev pub max_refresh_proof_bytes : ℕ
max_refresh_proof_bytes = 14_886

-- `CodecParameters::validate`
unfoldable pub validate_codec : CodecParameters → Result CodecError CodecParameters
validate_codec p =
    if ltb max_reveal_proof_bytes p.reveal_proof_bytes
      || ltb max_refresh_proof_bytes p.refresh_proof_bytes
    then err too_large
    else ok p

-- `u16::to_be_bytes` and `u32::to_be_bytes`
unfoldable pub be16 : ℕ → Bytes
be16 n = n / 256 % 256 ∷ n % 256 ∷ []

unfoldable pub be32 : ℕ → Bytes
be32 n = n / 2 ^ 24 % 256 ∷ n / 2 ^ 16 % 256 ∷ n / 256 % 256 ∷ n % 256 ∷ []

-- `from_be_bytes`
unfoldable pub from_be : Bytes → ℕ → ℕ
from_be [] acc = acc
from_be (b ∷ bs) acc = from_be bs (acc * 256 + b)

-- What a leading byte asks for: how many bytes follow, and the range of the next one.
unfoldable pub utf8_lead : ℕ → Option (ℕ × ℕ × ℕ)
utf8_lead b =
    if ltb b 0x80
    then some (0, 0x80, 0xbf)
    else if leb 0xc2 b && leb b 0xdf
    then some (1, 0x80, 0xbf)
    else if leb 0xe0 b && leb b 0xe0
    then some (2, 0xa0, 0xbf)
    else if leb 0xed b && leb b 0xed
    then some (2, 0x80, 0x9f)
    else if leb 0xe1 b && leb b 0xef
    then some (2, 0x80, 0xbf)
    else if leb 0xf0 b && leb b 0xf0
    then some (3, 0x90, 0xbf)
    else if leb 0xf1 b && leb b 0xf3
    then some (3, 0x80, 0xbf)
    else if leb 0xf4 b && leb b 0xf4
    then some (3, 0x80, 0x8f)
    else none

unfoldable pub utf8_from : ℕ → ℕ → ℕ → Bytes → Bool
unfolding utf8_lead
utf8_from zero low high [] = true
utf8_from zero low high (b ∷ bs) = elim (utf8_lead b) [
  | none ↦ false
  | some (n, l, h) ↦ utf8_from n l h bs
]
utf8_from (suc n) low high [] = false
utf8_from (suc n) low high (b ∷ bs) = leb low b && leb b high && utf8_from n 0x80 0xbf bs

-- whether `core::str::from_utf8` succeeds
unfoldable pub is_utf8 : Bytes → Bool
unfolding utf8_from
is_utf8 bytes = utf8_from 0 0 0 bytes
