-- ===== src/Codec/Reads.antt =====
-- What each reader does on the bytes that the encoder writes for its value.
use mathlib.Core.List.{append_assoc}
use coppice_names.Prelude.{
  ℕ, ◌<◌, ◌^◌, ◌≡◌, refl, ap, true, false, [], ◌∷◌, ◌++◌, ok, arith, length, take, drop, all, ltb,
  length-append,
}
use coppice_names.Prelude.Word.{IsU32}
use coppice_names.Protocol.{
  Bytes, Name, CanonicalUa, Network, CommitRef, StateRef, Primitives, parse_name, parse_ua,
  field_from_bytes, is_bad_name, bare_name,
}
use coppice_names.Codec.Bytewise.{be16, be32, from_be, is_utf8, utf8_from, utf8_lead}
use coppice_names.Codec.Encode.{encode_name, encode_commit_ref, encode_state_ref}
use coppice_names.Codec.Decode.{
  Tail, read_bytes, read_be, read_name, read_proof, read_commit_ref, read_state_ref, read_ua,
  read_tail,
}

pub take_append : (xs ys : Bytes) → take (length xs) (xs ++ ys) ≡ xs
take_append [] ys = refl
take_append (x ∷ xs) ys = ap (λ t. x ∷ t) (take_append xs ys)

pub drop_append : (xs ys : Bytes) → drop (length xs) (xs ++ ys) ≡ ys
drop_append [] ys = refl
drop_append (x ∷ xs) ys = drop_append xs ys

pub read_bytes-append :
    (n : ℕ) (xs rest : Bytes) → length xs ≡ n → read_bytes n (xs ++ rest) ≡ ok (xs, rest)
unfolding read_bytes
read_bytes-append n xs rest h =
    rw (← h) (ground (arith, length-append xs rest, take_append xs rest, drop_append xs rest))

from_be-be32 : (n : ℕ) → IsU32 n → from_be (be32 n) 0 ≡ n
unfolding from_be be32
from_be-be32 n h = omega arith

from_be-be16 : (n : ℕ) → n < 2 ^ 16 → from_be (be16 n) 0 ≡ n
unfolding from_be be16
from_be-be16 n h = omega arith

length-be32 : (n : ℕ) → length (be32 n) ≡ 4
unfolding be32
length-be32 n = refl

length-be16 : (n : ℕ) → length (be16 n) ≡ 2
unfolding be16
length-be16 n = refl

pub read_be-be32 : (n : ℕ) (rest : Bytes) → IsU32 n → read_be 4 (be32 n ++ rest) ≡ ok (n, rest)
unfolding read_be
read_be-be32 n rest h =
    rw (read_bytes-append 4 (be32 n) rest (length-be32 n), from_be-be32 n h) refl

pub read_be-be16 : (n : ℕ) (rest : Bytes) → n < 2 ^ 16 → read_be 2 (be16 n ++ rest) ≡ ok (n, rest)
unfolding read_be
read_be-be16 n rest h =
    rw (read_bytes-append 2 (be16 n) rest (length-be16 n), from_be-be16 n h) refl

pub read_be-byte : (n : ℕ) (rest : Bytes) → read_be 1 (n ∷ rest) ≡ ok (n, rest)
unfolding read_be from_be
read_be-byte n rest = rw (read_bytes-append 1 (n ∷ []) rest refl) (ground arith)

pub ascii_utf8 :
    (low high : ℕ) (bs : Bytes) → all (λ c. ltb c 128) bs ≡ true → utf8_from 0 low high bs ≡ true
unfolding utf8_from utf8_lead
ascii_utf8 low high [] h = refl
ascii_utf8 low high (b ∷ bs) h = ground (arith, ascii_utf8 0x80 0xbf bs)

pub good_name_is_ascii : (b : Bytes) → is_bad_name b ≡ false → all (λ c. ltb c 128) b ≡ true
unfolding is_bad_name
good_name_is_ascii b h = ground arith

parsed_is_ascii : (n : Name) → parse_name n ≡ ok n → all (λ c. ltb c 128) n ≡ true
unfolding parse_name
parsed_is_ascii n h = ground (arith, good_name_is_ascii n, good_name_is_ascii (bare_name n))

-- a name that parses to itself is ASCII
pub name_is_utf8 : (n : Name) → parse_name n ≡ ok n → is_utf8 n ≡ true
unfolding is_utf8
name_is_utf8 n h = ascii_utf8 0 0 n (parsed_is_ascii n h)

pub read_name-encode :
    (n : Name) (rest : Bytes)
    → parse_name n ≡ ok n
    → read_name (encode_name n ++ rest) ≡ ok (n, rest)
unfolding read_name encode_name
read_name-encode n rest h =
    rw
      (
        read_be-byte (length n) (n ++ rest),
        read_bytes-append (length n) n rest refl,
        name_is_utf8 n h,
        h,
      )
      refl

pub record IsCommitRef (c : CommitRef) : Type 0 where
  pub height : IsU32 c.height
  pub tx_index : IsU32 c.tx_index
  pub txid : length c.txid ≡ 32

pub record IsStateRef (s : StateRef) : Type 0 where
  pub height : IsU32 s.height
  pub tx_index : IsU32 s.tx_index
  pub txid : length s.txid ≡ 32
  pub action_index : IsU32 s.action_index

pub read_commit_ref-encode :
    (c : CommitRef) (rest : Bytes)
    → IsCommitRef c
    → read_commit_ref (encode_commit_ref c ++ rest) ≡ ok (c, rest)
unfolding read_commit_ref encode_commit_ref
read_commit_ref-encode c rest w =
    simp
      (
        append_assoc,
        read_be-be32 c.height (be32 c.tx_index ++ (c.txid ++ rest)) w.height,
        read_be-be32 c.tx_index (c.txid ++ rest) w.tx_index,
        read_bytes-append 32 c.txid rest w.txid,
      )
      refl

pub read_state_ref-encode :
    (s : StateRef) (rest : Bytes)
    → IsStateRef s
    → read_state_ref (encode_state_ref s ++ rest) ≡ ok (s, rest)
unfolding read_state_ref encode_state_ref
read_state_ref-encode s rest w =
    simp
      (
        append_assoc,
        read_be-be32 s.height (be32 s.tx_index ++ (s.txid ++ (be32 s.action_index ++ rest)))
            w.height,
        read_be-be32 s.tx_index (s.txid ++ (be32 s.action_index ++ rest)) w.tx_index,
        read_bytes-append 32 s.txid (be32 s.action_index ++ rest) w.txid,
        read_be-be32 s.action_index rest w.action_index,
      )
      refl

module _ ⦃prims : Primitives⦄ where
  pub read_ua-encode :
      (network : Network) (ua : CanonicalUa) (rest : Bytes)
      → parse_ua network ua ≡ ok ua
      → is_utf8 ua ≡ true
      → length ua < 2 ^ 16
      → read_ua network (be16 (length ua) ++ ua ++ rest) ≡ ok (ua, rest)
  unfolding read_ua be16
  read_ua-encode network ua rest parses text short =
      rw
        (
          read_be-be16 (length ua) (ua ++ rest) short,
          read_bytes-append (length ua) ua rest refl,
          text,
          parses,
        )
        refl

  pub read_proof-append :
      (n : ℕ) (proof rest : Bytes)
      → length proof ≡ n
      → read_proof n (proof ++ rest) ≡ ok (proof, rest)
  unfolding read_proof
  read_proof-append n proof rest h =
      ground (arith, read_bytes-append n proof rest h, length-append proof rest)

  read_tail_parts :
      (network : Network) (n : ℕ) (t : Tail) (input r1 r2 r3 rest : Bytes)
      → read_ua network input ≡ ok (t.ua, r1)
      → read_be 4 r1 ≡ ok (t.action_index, r2)
      → read_bytes 32 r2 ≡ ok (t.successor_future_nf, r3)
      → field_from_bytes t.successor_future_nf ≡ ok t.successor_future_nf
      → read_proof n r3 ≡ ok (t.proof, rest)
      → read_tail network n input ≡ ok (t, rest)
  unfolding read_tail
  read_tail_parts network n t input r1 r2 r3 rest ua action wide field proof =
      rw (ua, action, wide, field, proof) refl

  pub read_tail-encode :
      (network : Network) (n : ℕ) (t : Tail) (rest : Bytes)
      → parse_ua network t.ua ≡ ok t.ua
      → is_utf8 t.ua ≡ true
      → length t.ua < 2 ^ 16
      → IsU32 t.action_index
      → length t.successor_future_nf ≡ 32
      → field_from_bytes t.successor_future_nf ≡ ok t.successor_future_nf
      → length t.proof ≡ n
      → read_tail network n (
          be16 (length t.ua)
          ++ t.ua
          ++ (be32 t.action_index ++ (t.successor_future_nf ++ (t.proof ++ rest))))
        ≡ ok (t, rest)
  read_tail-encode network n t rest parses text short action wide field size =
      read_tail_parts network n t _ _ _ _ rest (read_ua-encode network t.ua _ parses text short)
        (read_be-be32 t.action_index _ action) (read_bytes-append 32 t.successor_future_nf _ wide)
        field (read_proof-append n t.proof rest size)
