-- ===== src/Protocol/Names.antt =====
-- Names, their identifiers, field elements and Unified Addresses.
use coppice_names.Prelude.{
  ℕ, zero, suc, ◌+◌, ◌-◌, Bool, not, ◌&&◌, ◌||◌, Option, none, some, [], ◌∷◌, ◌++◌, Result, ok, err,
  ◌>>=◌, ltb, leb, ◌==◌, if◌then◌else◌, length, take, drop, all, last?, head?, is_some_and,
}
use coppice_names.Collections.Order.{same, list_ord, nat_ord}
use coppice_names.Protocol.External.{Bytes, Primitives}

-- one ZEC
abbrev pub bond_zatoshis : ℕ
bond_zatoshis = 100_000_000

abbrev pub max_name_bytes : ℕ
max_name_bytes = 63

abbrev pub max_ua_bytes : ℕ
max_ua_bytes = 1024

pub data Network : Type 0 where
  main test regtest : Network

pub data ValueError : Type 0 where
  invalid_name invalid_field zero_field invalid_ua non_canonical_ua : ValueError
  wrong_network ua_too_long hash_to_field_exhausted : ValueError

-- `str::strip_prefix`
unfoldable pub strip_prefix : Bytes → Bytes → Option Bytes
strip_prefix [] value = some value
strip_prefix (p ∷ ps) [] = none
strip_prefix (p ∷ ps) (c ∷ cs) = let rest = strip_prefix ps cs in if p == c then rest else none

-- `str::strip_suffix`
unfoldable pub strip_suffix : Bytes → Bytes → Option Bytes
strip_suffix suffix value =
    let bare = length value - length suffix in
    if leb (length suffix) (length value) && same (drop bare value) suffix
    then some (take bare value)
    else none

abbrev pub hrp : Network → Bytes
hrp Network.main = b'u' ∷ []
hrp Network.test = b'u' ∷ b't' ∷ b'e' ∷ b's' ∷ b't' ∷ []
hrp Network.regtest = b'u' ∷ b'r' ∷ b'e' ∷ b'g' ∷ b't' ∷ b'e' ∷ b's' ∷ b't' ∷ []

unfoldable pub matches_hrp : Network → Bytes → Bool
unfolding strip_prefix
matches_hrp network address =
    is_some_and (strip_prefix (hrp network) address)
      (λ suffix. is_some_and (head? suffix) (λ c. c == b'1'))

-- `struct Name(String)`
abbrev pub Name : Type 0
Name = Bytes

-- `struct NameId([u8; 32])`, `Commitment`, `FieldElement`, and `CanonicalUa(String)`
abbrev pub NameId : Type 0
NameId = Bytes

abbrev pub Commitment : Type 0
Commitment = Bytes

abbrev pub FieldElement : Type 0
FieldElement = Bytes

abbrev pub CanonicalUa : Type 0
CanonicalUa = Bytes

abbrev pub zec_suffix : Bytes
zec_suffix = b'.' ∷ b'z' ∷ b'e' ∷ b'c' ∷ []

abbrev pub is_name_byte : ℕ → Bool
is_name_byte c = leb b'a' c && leb c b'z' || leb b'0' c && leb c b'9' || c == b'-'

-- the condition under which `Name::parse` refuses a bare name
unfoldable pub is_bad_name : Bytes → Bool
is_bad_name bare =
    length bare == 0
    || ltb max_name_bytes (length bare)
    || not (all (λ c. ltb c 128) bare)
    || is_some_and (head? bare) (λ c. c == b'-')
    || is_some_and (last? bare) (λ c. c == b'-')
    || not (all is_name_byte bare)

unfoldable pub bare_name : Bytes → Bytes
unfolding strip_suffix
bare_name value = elim (strip_suffix zec_suffix value) [ none ↦ value | some bare ↦ bare ]

-- `Name::parse`
unfoldable pub parse_name : Bytes → Result ValueError Name
unfolding is_bad_name bare_name
parse_name value = if is_bad_name (bare_name value) then err invalid_name else ok (bare_name value)

-- `pallas::Base::zero().to_repr()`
abbrev pub zero_repr : Bytes
zero_repr = zeros 32
  where
    zeros : ℕ → Bytes
    zeros zero = []
    zeros (suc n) = 0 ∷ zeros n

-- b"CoppiceNmName"
abbrev pub name_personal : Bytes
name_personal =
    b'C' ∷ b'o' ∷ b'p' ∷ b'p' ∷ b'i' ∷ b'c' ∷ b'e' ∷ b'N' ∷ b'm' ∷ b'N' ∷ b'a' ∷ b'm' ∷ b'e' ∷ []

module _ ⦃prims : Primitives⦄ where
  -- `wide_field`, as the encoding of its element
  unfoldable pub wide_field : Bytes → Bytes → Bytes
  wide_field personalization input =
      prims.from_uniform_bytes (prims.blake2b 64 personalization input)

  -- the rounds of the counter loop of `Name::id` from `counter` on, `left` of them
  unfoldable pub name_id_from : ℕ → ℕ → Name → Result ValueError NameId
  name_id_from zero counter name = err hash_to_field_exhausted
  name_id_from (suc left) counter name =
      let candidate = wide_field name_personal (length name ∷ name ++ counter ∷ []) in
      let rest = name_id_from left (counter + 1) name in
      if same candidate zero_repr then rest else ok candidate

  -- `Name::id`
  unfoldable pub name_id : Name → Result ValueError NameId
  name_id name = name_id_from 256 0 name

  -- `canonical_field`
  unfoldable pub canonical_field : Bytes → Result ValueError Bytes
  canonical_field bytes = if prims.is_canonical_repr bytes then ok bytes else err invalid_field

  -- `NameId::from_bytes` and `Commitment::from_bytes`
  unfoldable pub nonzero_from_bytes : Bytes → Result ValueError Bytes
  unfolding canonical_field
  nonzero_from_bytes bytes = do
    field ← canonical_field bytes
    if same field zero_repr then err zero_field else ok bytes

  -- `FieldElement::from_bytes`
  unfoldable pub field_from_bytes : Bytes → Result ValueError FieldElement
  unfolding canonical_field
  field_from_bytes bytes = canonical_field bytes

  -- `CanonicalUa::parse`
  unfoldable pub parse_ua : Network → Bytes → Result ValueError CanonicalUa
  unfolding matches_hrp
  parse_ua network value =
      if length value == 0 || ltb max_ua_bytes (length value)
      then err ua_too_long
      else if not (matches_hrp network value)
      then err wrong_network
      else elim (prims.reencode_address value) [
        | none ↦ err invalid_ua
        | some encoded ↦ if same encoded value then ok value else err non_canonical_ua
      ]
