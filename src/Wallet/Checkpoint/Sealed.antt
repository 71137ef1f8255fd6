-- ===== src/Wallet/Checkpoint/Sealed.antt =====
-- What sealing writes, and what opening has checked.
use mathlib.Core.List.{append_assoc}
use coppice_names.Prelude.{
  ℕ, ◌+◌, ◌≡◌, refl, sym, ap, subst, ◌∙◌, [], ◌∷◌, ◌++◌, ok, arith, length, take, drop,
  length-append, Result-cases, inl, inr, bind-eq-ok, guard-eq-ok, ltb, ◌==◌, not, ok_or,
}
use coppice_names.Prelude.Word.{IsU32}
use coppice_names.Collections.Order.{same, nat_ord, list_ord, same_self, eq_of_same}
use coppice_names.Protocol.{Bytes, Primitives}
use coppice_names.Codec.Bytewise.{be32, from_be}
use coppice_names.Codec.Reads.{take_append}
use coppice_names.Wallet.Checkpoint.Slices.{
  take-append, drop-append, drop_add, take_add, length-take, length-drop, take_one, IsBytes,
  from_be-be32, be32-from_be, from_be-IsU32, take-IsBytes, drop-IsBytes,
}
use coppice_names.Wallet.Checkpoint.{
  KeyedHash, CheckpointError, magic, format_version, header_bytes, tag_bytes, tag_personal, byte_at,
  checkpoint_key, seal_checkpoint, open_checkpoint, usize_checked_add,
}

module _ ⦃prims : Primitives⦄ ⦃hash : KeyedHash⦄ where
  -- what the tag is computed over
  unfoldable pub signed : Bytes → Bytes → Bytes
  signed deployment_id payload =
      magic ++ format_version ∷ (deployment_id ++ (be32 (length payload) ++ payload))

  pub seal_inversion :
      (seed deployment_id payload envelope : Bytes)
      → seal_checkpoint seed deployment_id payload ≡ ok envelope
      → (key : Bytes) × (checkpoint_key seed deployment_id ≡ ok key)
        × IsU32 (length payload)
        × (envelope
            ≡ signed deployment_id payload
              ++ hash.keyed tag_personal key (signed deployment_id payload))
  unfolding seal_checkpoint signed
  seal_inversion seed id payload envelope h = elim (Result-cases (checkpoint_key seed id)) [
    | inl (key, found) ↦ ground (arith, found)
    | inr (e, failed) ↦ ground (arith, failed)
  ]

  pub seal-eq-ok :
      (seed deployment_id payload key : Bytes)
      → checkpoint_key seed deployment_id ≡ ok key
      → IsU32 (length payload)
      → seal_checkpoint seed deployment_id payload
        ≡ ok (
            signed deployment_id payload
            ++ hash.keyed tag_personal key (signed deployment_id payload))
  unfolding seal_checkpoint signed
  seal-eq-ok seed id payload key found fits = ground (arith, found)

  length-signed :
      (deployment_id payload : Bytes)
      → length deployment_id ≡ 32
      → length (signed deployment_id payload) ≡ 41 + length payload
  unfolding signed be32
  length-signed id payload h = ground (arith, length-append id (be32 (length payload) ++ payload))

  signed-append :
      (deployment_id payload tag : Bytes)
      → signed deployment_id payload ++ tag
        ≡ magic ++ format_version ∷ (deployment_id ++ (be32 (length payload) ++ (payload ++ tag)))
  unfolding signed be32
  signed-append id payload tag =
      ap (λ bs. magic ++ format_version ∷ bs)
        (append_assoc id (be32 (length payload) ++ payload) tag)

  -- what the readers of `open_checkpoint` find in a sealed envelope
  pub open-signed :
      (seed deployment_id payload key tag : Bytes)
      → length deployment_id ≡ 32
      → length tag ≡ 32
      → IsU32 (length payload)
      → checkpoint_key seed deployment_id ≡ ok key
      → tag ≡ hash.keyed tag_personal key (signed deployment_id payload)
      → open_checkpoint seed deployment_id (signed deployment_id payload ++ tag) ≡ ok payload
  unfolding open_checkpoint byte_at be32
  open-signed seed id payload key tag wide tagged fits found signature =
      let n = length payload in
      let envelope = signed id payload ++ tag in
      let flat : envelope ≡ magic ++ format_version ∷ (id ++ (be32 n ++ (payload ++ tag))) =
        signed-append id payload tag in
      let ids : take 32 (drop 5 envelope) ≡ id =
        ap (λ bs. take 32 (drop 5 bs)) flat ∙ take-append 32 id (be32 n ++ (payload ++ tag)) wide in
      let after_id : drop 37 envelope ≡ be32 n ++ (payload ++ tag) =
        ap (λ bs. drop 37 bs) flat ∙ drop-append 32 id (be32 n ++ (payload ++ tag)) wide in
      let after_header : drop 41 envelope ≡ payload ++ tag =
        drop_add 37 4 envelope ∙ ap (λ bs. drop 4 bs) after_id in
      let front : take (41 + n) envelope ≡ signed id payload =
        take-append (41 + n) (signed id payload) tag (length-signed id payload wide) in
      let back : drop (41 + n) envelope ≡ tag =
        drop-append (41 + n) (signed id payload) tag (length-signed id payload wide) in
      let leading : take 4 envelope ≡ magic = ap (λ bs. take 4 bs) flat in
      let version : byte_at envelope 4 ≡ format_version = ap (λ bs. byte_at bs 4) flat in
      let size : take 4 (drop 37 envelope) ≡ be32 n = ap (λ bs. take 4 bs) after_id in
      let value : from_be (take 4 (drop 37 envelope)) 0 ≡ n =
        ap (λ bs. from_be bs 0) size ∙ from_be-be32 n fits in
      let total : length envelope ≡ 73 + n =
        ground
          (arith, length-append (signed id payload) tag, length-signed id payload wide, tagged) in
      rw (leading, version, ids, value)
        (ground (
          arith,
          total,
          found,
          front,
          back,
          signature,
          same_self magic,
          same_self id,
          same_self tag,
          after_header,
          take_append payload tag,
        ))

  -- what `open_checkpoint` has found out where it returns a payload
  unfoldable pub IsOpened : Bytes → Bytes → Bytes → Bytes → ℕ → Bytes → Type 0
  IsOpened seed id payload envelope n key =
      (checkpoint_key seed id ≡ ok key)
      × (take 4 envelope ≡ magic)
      × (byte_at envelope 4 ≡ format_version)
      × (take 32 (drop 5 envelope) ≡ id)
      × (from_be (take 4 (drop 37 envelope)) 0 ≡ n)
      × (length envelope ≡ 73 + n)
      × (hash.keyed tag_personal key (take (41 + n) envelope) ≡ drop (41 + n) envelope)
      × (payload ≡ take n (drop 41 envelope))

  pub open_inversion :
      (seed id payload envelope : Bytes)
      → open_checkpoint seed id envelope ≡ ok payload
      → (n : ℕ) × (key : Bytes) × IsOpened seed id payload envelope n key
  unfolding open_checkpoint IsOpened
  open_inversion seed id payload envelope h =
      let n = from_be (take 4 (drop 37 envelope)) 0 in
      let (long, h1) =
        guard-eq-ok (not (ltb (length envelope) 73)) CheckpointError.invalid_encoding _ h in
      let (leading, h2) =
        guard-eq-ok (same (take 4 envelope) magic) CheckpointError.invalid_encoding _ h1 in
      let (version, h3) =
        guard-eq-ok (byte_at envelope 4 == format_version) CheckpointError.unsupported_format _
          h2 in
      let (ids, h4) =
        guard-eq-ok (same (take 32 (drop 5 envelope)) id) CheckpointError.deployment_mismatch _
          h3 in
      let (before, summed, h5) =
        bind-eq-ok (ok_or (usize_checked_add header_bytes n) CheckpointError.invalid_encoding) _
          h4 in
      let (expected, summed', h6) =
        bind-eq-ok (ok_or (usize_checked_add before tag_bytes) CheckpointError.invalid_encoding) _
          h5 in
      let (size, h7) =
        guard-eq-ok (length envelope == expected) CheckpointError.invalid_encoding _ h6 in
      let (key, found, h8) = bind-eq-ok (checkpoint_key seed id) _ h7 in
      let (tag, h9) =
        guard-eq-ok
          (same (hash.keyed tag_personal key (take (41 + n) envelope)) (drop (41 + n) envelope))
          CheckpointError.authentication_failed _ h8 in
      (
        n,
        key,
        (
          found,
          eq_of_same (take 4 envelope) magic leading,
          ground (arith, version),
          eq_of_same (take 32 (drop 5 envelope)) id ids,
          refl,
          ground (arith, summed, summed', size),
          eq_of_same (hash.keyed tag_personal key (take (41 + n) envelope)) (drop (41 + n) envelope)
              tag,
          ground (arith, h9),
        ),
      )

  -- the slices of an envelope that has been opened are those of `signed`
  pub take-eq-signed :
      (seed id payload envelope key : Bytes) (n : ℕ)
      → IsBytes envelope
      → IsOpened seed id payload envelope n key
      → (length payload ≡ n) × IsU32 n × (take (41 + n) envelope ≡ signed id payload)
  unfolding IsOpened signed byte_at
  take-eq-signed seed id payload envelope key n small
        (found, leading, version, ids, value, size, tag, p) =
      let sliced : payload ≡ take n (drop 41 envelope) = p in
      let wide : length payload ≡ n =
        ap length p ∙ length-take n (drop 41 envelope) (ground (arith, length-drop 41 envelope)) in
      let four : length (take 4 (drop 37 envelope)) ≡ 4 =
        length-take 4 (drop 37 envelope) (ground (arith, length-drop 37 envelope)) in
      let bytes : IsBytes (take 4 (drop 37 envelope)) =
        take-IsBytes 4 (drop 37 envelope) (drop-IsBytes 37 envelope small) in
      let field : be32 n ≡ take 4 (drop 37 envelope) =
        ap be32 (sym value) ∙ be32-from_be (take 4 (drop 37 envelope)) four bytes in
      let t5 : take 5 envelope ≡ magic ++ format_version ∷ [] =
        take_add 4 1 envelope ∙ rw (leading, take_one 4 envelope (omega arith), version) refl in
      let t37 : take 37 envelope ≡ magic ++ format_version ∷ id =
        take_add 5 32 envelope ∙ rw (t5, ids) refl in
      let t41 : take 41 envelope ≡ magic ++ format_version ∷ (id ++ be32 n) =
        take_add 37 4 envelope ∙ rw (t37, ← field) refl in
      (
        wide,
        subst IsU32 value (from_be-IsU32 (take 4 (drop 37 envelope)) four bytes),
        take_add 41 n envelope ∙ rw (t41, ← p, wide, append_assoc id (be32 n) payload) refl,
      )
