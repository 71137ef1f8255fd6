-- ===== src/Codec/RoundTrip.antt =====
-- The decoder gives back every operation that the encoder writes.
use mathlib.Core.List.{append-nil}
use coppice_names.Prelude.{
  ℕ, ◌<◌, ◌^◌, ◌≡◌, refl, subst, sym, true, [], ◌∷◌, ◌++◌, ok, arith, length,
}
use coppice_names.Prelude.Word.{IsU32}
use coppice_names.Protocol.{
  Bytes, Network, Primitives, parse_name, parse_ua, field_from_bytes, nonzero_from_bytes,
}
use coppice_names.Operation.{Operation, Reveal, Refresh}
use coppice_names.Codec.Bytewise.{CodecParameters, be16, be32, is_utf8, validate_codec}
use coppice_names.Codec.Encode.{
  encode, encode_body, encode_tail, encode_ua, encode_name, encode_commit_ref, encode_state_ref,
  commit_tag, reveal_tag, refresh_tag,
}
use coppice_names.Codec.Decode.{Tail, read_tail, read_body, decode}
use coppice_names.Codec.Reads.{
  read_bytes-append, read_be-byte, read_name-encode, read_commit_ref-encode, read_state_ref-encode,
  read_tail-encode, IsCommitRef, IsStateRef,
}

module _ ⦃prims : Primitives⦄ where
  -- what the constructors of the fields' types have checked
  pub record IsTail (network : Network) (t : Tail) : Type 0 where
    pub parses : parse_ua network t.ua ≡ ok t.ua
    pub text : is_utf8 t.ua ≡ true
    pub short : length t.ua < 2 ^ 16
    pub action : IsU32 t.action_index
    pub wide : length t.successor_future_nf ≡ 32
    pub field : field_from_bytes t.successor_future_nf ≡ ok t.successor_future_nf

  abbrev pub reveal_rest : Reveal → Tail
  reveal_rest r = record {
    ua = r.ua;
    action_index = r.action_index;
    successor_future_nf = r.successor_future_nf;
    proof = r.proof;
  }

  abbrev pub refresh_rest : Refresh → Tail
  refresh_rest r = record {
    ua = r.ua;
    action_index = r.action_index;
    successor_future_nf = r.successor_future_nf;
    proof = r.proof;
  }

  abbrev pub IsWellFormed : Network → Operation → Type 0
  IsWellFormed network (Operation.commit c) = (length c ≡ 32) × (nonzero_from_bytes c ≡ ok c)
  IsWellFormed network (Operation.reveal r) =
      (parse_name r.name ≡ ok r.name) × IsCommitRef r.commit × IsTail network (reveal_rest r)
  IsWellFormed network (Operation.refresh r) =
      (parse_name r.name ≡ ok r.name) × IsStateRef r.predecessor × IsTail network (refresh_rest r)

  abbrev tail_bytes : Tail → Bytes
  tail_bytes t =
      be16 (length t.ua) ++ t.ua ++ (be32 t.action_index ++ (t.successor_future_nf ++ t.proof))

  encode_tail_bytes :
      (t : Tail)
      → length t.ua < 2 ^ 16
      → encode_tail t.ua t.action_index t.successor_future_nf t.proof ≡ ok (tail_bytes t)
  unfolding encode_tail encode_ua
  encode_tail_bytes t short = ground arith

  read_tail-tail_bytes :
      (network : Network) (t : Tail)
      → IsTail network t
      → read_tail network (length t.proof) (tail_bytes t) ≡ ok (t, [])
  read_tail-tail_bytes network t w =
      subst
        (λ q.
          read_tail network (length t.proof)
            (be16 (length t.ua) ++ t.ua ++ (be32 t.action_index ++ (t.successor_future_nf ++ q)))
          ≡ ok (t, []))
        (append-nil t.proof)
        (read_tail-encode network (length t.proof) t [] w.parses w.text w.short w.action w.wide
          w.field refl)

  -- `decode`, from what each of its steps returns
  decode_parts :
      (network : Network) (p : CodecParameters) (tag : ℕ) (input : Bytes) (op : Operation)
      → validate_codec p ≡ ok p
      → read_body network p tag input ≡ ok (op, [])
      → decode network p (tag ∷ input) ≡ ok op
  unfolding decode
  decode_parts network p tag input op valid body = rw (valid, read_be-byte tag input, body) refl

  read_commit :
      (network : Network) (p : CodecParameters) (c : Bytes)
      → IsWellFormed network (Operation.commit c)
      → read_body network p commit_tag c ≡ ok (Operation.commit c, [])
  unfolding read_body
  read_commit network p c (wide, valid) =
      ground (arith, append-nil c, read_bytes-append 32 c [] wide)

  read_reveal :
      (network : Network) (p : CodecParameters) (r : Reveal)
      → length r.proof ≡ p.reveal_proof_bytes
      → IsWellFormed network (Operation.reveal r)
      → read_body network p reveal_tag
          (encode_name r.name ++ (encode_commit_ref r.commit ++ tail_bytes (reveal_rest r)))
        ≡ ok (Operation.reveal r, [])
  unfolding read_body
  read_reveal network p r size (named, at, w) =
      rw
        (
          read_name-encode r.name _ named,
          read_commit_ref-encode r.commit _ at,
          ← size,
          read_tail-tail_bytes network (reveal_rest r) w,
        )
        refl

  read_refresh :
      (network : Network) (p : CodecParameters) (r : Refresh)
      → length r.proof ≡ p.refresh_proof_bytes
      → IsWellFormed network (Operation.refresh r)
      → read_body network p refresh_tag
          (encode_name r.name ++ (encode_state_ref r.predecessor ++ tail_bytes (refresh_rest r)))
        ≡ ok (Operation.refresh r, [])
  unfolding read_body
  read_refresh network p r size (named, at, w) =
      rw
        (
          read_name-encode r.name _ named,
          read_state_ref-encode r.predecessor _ at,
          ← size,
          read_tail-tail_bytes network (refresh_rest r) w,
        )
        refl

  reveal_bytes :
      (p : CodecParameters) (r : Reveal) (bytes : Bytes)
      → length r.ua < 2 ^ 16
      → encode_body p (Operation.reveal r) ≡ ok bytes
      → (length r.proof ≡ p.reveal_proof_bytes)
        × (bytes
            ≡ reveal_tag
              ∷ (encode_name r.name ++ (encode_commit_ref r.commit ++ tail_bytes (reveal_rest r))))
  unfolding encode_body
  reveal_bytes p r bytes short h = ground (arith, encode_tail_bytes (reveal_rest r) short)

  refresh_bytes :
      (p : CodecParameters) (r : Refresh) (bytes : Bytes)
      → length r.ua < 2 ^ 16
      → encode_body p (Operation.refresh r) ≡ ok bytes
      → (length r.proof ≡ p.refresh_proof_bytes)
        × (bytes
            ≡ refresh_tag
              ∷ (encode_name r.name
                  ++ (encode_state_ref r.predecessor ++ tail_bytes (refresh_rest r))))
  unfolding encode_body
  refresh_bytes p r bytes short h = ground (arith, encode_tail_bytes (refresh_rest r) short)

  decode-encode_body :
      (network : Network) (p : CodecParameters) (op : Operation) (bytes : Bytes)
      → validate_codec p ≡ ok p
      → encode_body p op ≡ ok bytes
      → IsWellFormed network op
      → decode network p bytes ≡ ok op
  unfolding encode_body
  decode-encode_body network p (Operation.commit c) bytes valid h w = ground (
    arith,
    decode_parts network p commit_tag c (Operation.commit c) valid (read_commit network p c w),
  )
  decode-encode_body network p (Operation.reveal r) bytes valid h w =
      let (_, _, t) = w in
      let short = t.short in
      let (size, same) = reveal_bytes p r bytes short h in
      subst (λ b. decode network p b ≡ ok (Operation.reveal r)) (sym same)
        (decode_parts network p reveal_tag _ (Operation.reveal r) valid
          (read_reveal network p r size w))
  decode-encode_body network p (Operation.refresh r) bytes valid h w =
      let (_, _, t) = w in
      let short = t.short in
      let (size, same) = refresh_bytes p r bytes short h in
      subst (λ b. decode network p b ≡ ok (Operation.refresh r)) (sym same)
        (decode_parts network p refresh_tag _ (Operation.refresh r) valid
          (read_refresh network p r size w))

  encode_parts :
      (max_payload : ℕ) (p : CodecParameters) (op : Operation) (bytes : Bytes)
      → encode max_payload p op ≡ ok bytes
      → (validate_codec p ≡ ok p) × (encode_body p op ≡ ok bytes)
  unfolding encode validate_codec
  encode_parts max_payload p op bytes h = ground arith

  -- Decoding the bytes that `encode` writes for a well-formed operation gives the operation back.
  pub decode-encode :
      (max_payload : ℕ) (network : Network) (p : CodecParameters) (op : Operation) (bytes : Bytes)
      → encode max_payload p op ≡ ok bytes
      → IsWellFormed network op
      → decode network p bytes ≡ ok op
  decode-encode max_payload network p op bytes h w =
      let (valid, body) = encode_parts max_payload p op bytes h in
      decode-encode_body network p op bytes valid body w
