-- ===== src/Wallet/Checkpoint.antt =====
-- crates/coppice-names-wallet/src/checkpoint.rs: replay checkpoints, sealed under a key from the
-- wallet's seed. `usize` has 64 bits.
--
-- BLAKE2b with a key is that of the crate `blake2b_simd`, a parameter.
pub mod Slices
pub mod Sealed
pub mod Opened
use coppice_names.Prelude.{
  ℕ, zero, suc, ◌+◌, ◌^◌, Bool, not, Option, none, some, List, [], ◌∷◌, ◌++◌, Result, ok, err,
  ◌>>=◌, ◌>>◌, guard, ok_or, map_err, ltb, ◌==◌, if◌then◌else◌, length, take, drop,
}
use coppice_names.Prelude.Word.{u32_size}
use coppice_names.Collections.Order.{same, nat_ord, list_ord}
use coppice_names.Protocol.{Bytes, Primitives}
use coppice_names.Codec.Bytewise.{be16, be32, from_be}

-- the bytes of "CNWC"
abbrev pub magic : Bytes
magic = b'C' ∷ b'N' ∷ b'W' ∷ b'C' ∷ []

abbrev pub format_version : ℕ
format_version = 1

abbrev pub header_bytes : ℕ
header_bytes = 41

abbrev pub tag_bytes : ℕ
tag_bytes = 32

pub data CheckpointError : Type 0 where
  wrong_seed_length payload_too_large invalid_encoding unsupported_format : CheckpointError
  deployment_mismatch authentication_failed : CheckpointError

pub data RecoveryError : Type 0 where
  wrong_seed_length authority_derivation_exhausted commit_derivation_exhausted : RecoveryError
  invalid_action_nullifier note_derivation_exhausted : RecoveryError

-- `Params::new().hash_length(32).personal(p).key(key).hash(input)`
pub record KeyedHash : Type 0 where
  pub keyed : Bytes → Bytes → Bytes → Bytes

-- the bytes of "CoppiceNmRoot_", "CoppiceNmCKey" and "CoppiceNmCTag"
abbrev pub root_personal : Bytes
root_personal =
    b'C' ∷ b'o' ∷ b'p' ∷ b'p' ∷ b'i' ∷ b'c' ∷ b'e' ∷ b'N' ∷ b'm' ∷ b'R' ∷ b'o' ∷ b'o' ∷ b't' ∷ b'_'
    ∷ []

abbrev pub key_personal : Bytes
key_personal =
    b'C' ∷ b'o' ∷ b'p' ∷ b'p' ∷ b'i' ∷ b'c' ∷ b'e' ∷ b'N' ∷ b'm' ∷ b'C' ∷ b'K' ∷ b'e' ∷ b'y' ∷ []

abbrev pub tag_personal : Bytes
tag_personal =
    b'C' ∷ b'o' ∷ b'p' ∷ b'p' ∷ b'i' ∷ b'c' ∷ b'e' ∷ b'N' ∷ b'm' ∷ b'C' ∷ b'T' ∷ b'a' ∷ b'g' ∷ []

-- `usize::checked_add`
abbrev pub usize_checked_add : ℕ → ℕ → Option ℕ
usize_checked_add a b = if ltb (a + b) (2 ^ 64) then some (a + b) else none

-- `bytes[index]`, which the source asks for only within the bytes
unfoldable pub byte_at : Bytes → ℕ → ℕ
byte_at [] index = 0
byte_at (b ∷ bs) zero = b
byte_at (b ∷ bs) (suc index) = byte_at bs index

module _ ⦃prims : Primitives⦄ ⦃hash : KeyedHash⦄ where
  -- of crates/coppice-names-wallet/src/recovery.rs
  unfoldable pub derive_names_master : Bytes → Result RecoveryError Bytes
  derive_names_master seed = do
    guard (length seed == 64) RecoveryError.wrong_seed_length
    ok (prims.blake2b 32 root_personal (be16 (length seed) ++ seed))

  -- `derive_names_master` has no other error
  unfoldable pub checkpoint_key : Bytes → Bytes → Result CheckpointError Bytes
  unfolding derive_names_master
  checkpoint_key seed deployment_id = do
    master ← map_err (derive_names_master seed) (λ e. CheckpointError.wrong_seed_length)
    ok (hash.keyed key_personal master deployment_id)

  unfoldable pub seal_checkpoint : Bytes → Bytes → Bytes → Result CheckpointError Bytes
  unfolding checkpoint_key
  seal_checkpoint seed deployment_id payload = do
    guard (ltb (length payload) u32_size) payload_too_large
    key ← checkpoint_key seed deployment_id
    let output = magic ++ format_version ∷ (deployment_id ++ (be32 (length payload) ++ payload))
    ok (output ++ hash.keyed tag_personal key output)

  unfoldable pub open_checkpoint : Bytes → Bytes → Bytes → Result CheckpointError Bytes
  unfolding checkpoint_key
  open_checkpoint seed deployment_id envelope = do
    guard (not (ltb (length envelope) (header_bytes + tag_bytes))) invalid_encoding
    guard (same (take 4 envelope) magic) invalid_encoding
    guard (byte_at envelope 4 == format_version) unsupported_format
    guard (same (take 32 (drop 5 envelope)) deployment_id) deployment_mismatch
    let payload_len = from_be (take 4 (drop 37 envelope)) 0
    before_tag ← ok_or (usize_checked_add header_bytes payload_len) invalid_encoding
    expected_len ← ok_or (usize_checked_add before_tag tag_bytes) invalid_encoding
    guard (length envelope == expected_len) invalid_encoding
    let tag_start = header_bytes + payload_len
    key ← checkpoint_key seed deployment_id
    let expected = hash.keyed tag_personal key (take tag_start envelope)
    guard (same expected (drop tag_start envelope)) authentication_failed
    ok (take payload_len (drop header_bytes envelope))
