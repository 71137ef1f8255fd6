-- ===== src/Wallet/Checkpoint/Opened.antt =====
-- The envelopes that open are the sealed ones.
use coppice_names.Prelude.{◌+◌, ◌≡◌, ◌↔◌, refl, sym, ap, subst, ◌∙◌, ◌++◌, ok, arith, length}
use coppice_names.Prelude.Word.{IsU32}
use coppice_names.Collections.Order.{nat_ord, list_ord}
use coppice_names.Protocol.{Bytes, Primitives}
use coppice_names.Codec.Bytewise.{be16}
use coppice_names.Wallet.Checkpoint.Slices.{take-drop, IsBytes}
use coppice_names.Wallet.Checkpoint.{
  KeyedHash, tag_personal, key_personal, root_personal, derive_names_master, checkpoint_key,
  seal_checkpoint, open_checkpoint,
}
use coppice_names.Wallet.Checkpoint.Sealed.{
  signed, seal_inversion, seal-eq-ok, open-signed, IsOpened, open_inversion, take-eq-signed,
}

module _ ⦃prims : Primitives⦄ ⦃hash : KeyedHash⦄ where
  -- For a 32-byte deployment id and 32-byte hashes, an envelope of bytes opens to a payload exactly
  -- if it is what sealing that payload gives.
  pub open_checkpoint_iff :
      (seed deployment_id payload envelope : Bytes)
      → ((p k m : Bytes) → length (hash.keyed p k m) ≡ 32)
      → length deployment_id ≡ 32
      → IsBytes envelope
      → (open_checkpoint seed deployment_id envelope ≡ ok payload)
        ↔ (seal_checkpoint seed deployment_id payload ≡ ok envelope)
  unfolding IsOpened
  open_checkpoint_iff seed id payload envelope tagged wide small = (
    λ opened.
        let (n, key, facts) = open_inversion seed id payload envelope opened in
        let (sized, fits, front) = take-eq-signed seed id payload envelope key n small facts in
        let (found, leading, version, ids, value, size, tag, p) = facts in
        let split : signed id payload ++ hash.keyed tag_personal key (signed id payload)
            ≡ envelope =
          rw (← front, tag) (take-drop (41 + n) envelope) in
        seal-eq-ok seed id payload key found (subst IsU32 (sym sized) fits) ∙ ap ok split,
    λ sealed.
        let (key, found, fits, shape) = seal_inversion seed id payload envelope sealed in
        rw shape (
          open-signed seed id payload key (hash.keyed tag_personal key (signed id payload)) wide
            (tagged tag_personal key (signed id payload)) fits found refl),
  )

  -- With a 64-byte seed, a 32-byte deployment id and 32-byte hashes, every payload shorter than
  -- 2 ^ 32 bytes is sealed, and its envelope opens to that payload.
  pub open-seal :
      (seed deployment_id payload : Bytes)
      → ((p k m : Bytes) → length (hash.keyed p k m) ≡ 32)
      → length seed ≡ 64
      → length deployment_id ≡ 32
      → IsU32 (length payload)
      → (envelope : Bytes) × (seal_checkpoint seed deployment_id payload ≡ ok envelope)
        × (open_checkpoint seed deployment_id envelope ≡ ok payload)
  unfolding checkpoint_key derive_names_master
  open-seal seed id payload tagged grown wide fits =
      let master = prims.blake2b 32 root_personal (be16 (length seed) ++ seed) in
      let key = hash.keyed key_personal master id in
      let tag = hash.keyed tag_personal key (signed id payload) in
      let found : checkpoint_key seed id ≡ ok key = ground (arith, grown) in
      (
        signed id payload ++ tag,
        seal-eq-ok seed id payload key found fits,
        open-signed seed id payload key tag wide (tagged tag_personal key (signed id payload)) fits
            found refl,
      )
