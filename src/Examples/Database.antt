-- ===== src/Examples/Database.antt =====
-- A store of one name, through a block that refreshes its head and one rollback.
use coppice_names.Prelude.{
  ℕ, zero, suc, ◌+◌, ◌≡◌, ◌≢◌, refl, true, none, some, [], ◌∷◌, ok, arith, if◌then◌else◌,
}
use coppice_names.Collections.Order.{nat_ord, list_ord, pair_ord, option_ord, same, eq_of_same}
use coppice_names.Collections.OrdMap.{get, contains, insert, remove}
use coppice_names.Protocol.{
  Bytes, Network, Primitives, CommitRef, name_id, name_id_from, wide_field, parse_name, is_bad_name,
  bare_name, strip_suffix, parse_ua, matches_hrp, strip_prefix, field_from_bytes, canonical_field,
  nonzero_from_bytes, commit_ref_ord, state_ref_ord,
}
use coppice_names.Reducer.State.{Head, ReducerTip, StateDelta}
use coppice_names.Sqlite.Identity.{
  Coverage, StoreIdentity, new_identity, encode_coverage, encode_network,
}
use coppice_names.Sqlite.Tables.{Database}
use coppice_names.Sqlite.Session.{Outcome, done, failed}
use coppice_names.Sqlite.Records.{
  Json, head_record, head_row, decode_32, decode_optional_32, decode_optional_tip, decode_head,
  decode_name_id, encode_record, validate_head, validate_optional, put, read_head, read_commit,
  read_tip, stored_tip, write_head, write_commit, write_tip, head_record_ord, tip_ord,
}
use coppice_names.Sqlite.Records.Reads.{IsFaithful}
use coppice_names.Sqlite.Sound.{IsSound}
use coppice_names.Sqlite.Deltas.{
  apply_delta, apply_heads, apply_head, apply_commits, apply_commit, insert_block,
  insert_rollback_head, insert_rollback_commit,
}
use coppice_names.Sqlite.Deltas.Journaled.{IsTyped}
use coppice_names.Sqlite.Deltas.Keeps.{apply_delta-IsSound}
use coppice_names.Sqlite.Deltas.Covers.{IsWithin, apply_delta-IsWithin}
use coppice_names.Sqlite.Store.{new_metadata}
use coppice_names.Sqlite.Rewind.{rollback_tip, wallet_rollback_tip}
use coppice_names.Sqlite.Rewind.Undoes.{rollback_tip-apply_delta}
use coppice_names.Sqlite.Rewind.Drains.{visible}
use coppice_names.Sqlite.Rewind.Wallet.{wallet_rollback_tip-visible}

-- `[byte; 32]`
abbrev pub array : ℕ → Bytes
array byte = copies 32
  where
    copies : ℕ → Bytes
    copies zero = []
    copies (suc n) = byte ∷ copies n

-- every hash to a field is the same element
instance abbrev pub constant : Primitives
constant = record {
  blake2b = λ n personal input. input;
  from_uniform_bytes = λ wide. array 1;
  is_canonical_repr = λ bytes. true;
  reencode_address = λ value. some value;
}

abbrev pub tip_at : ℕ → ReducerTip
tip_at height = record { height = height; hash = array height }

abbrev pub head_at : ℕ → Head
head_at height = record {
  name = b'a' ∷ [];
  ua = b'u' ∷ b'1' ∷ b'a' ∷ [];
  producer = record { height = height; tx_index = 0; txid = array 7; action_index = 0 };
  commitment = array 8;
  future_nf = array 9;
  producer_epoch = 0;
  expiry_height = height + 7;
  terminal_height = none;
}

abbrev pub reference : CommitRef
reference = record { height = 3; tx_index = 0; txid = array 6 }

-- one record has an encoding
abbrev pub json : Json
json = record {
  to_vec = λ r. if same r (head_record (head_at 4)) then some (123 ∷ []) else none;
  from_slice = λ bytes. some (head_record (head_at 4));
}

json-IsFaithful : IsFaithful json
json-IsFaithful r bytes e = ground (arith, eq_of_same r (head_record (head_at 4)))

abbrev pub identity : StoreIdentity
identity = new_identity (array 2) (array 3) Network.main (Coverage.exact (array 1))

abbrev pub stored : Database
stored = record {
  metadata =
      some (record (new_metadata identity) { tip_height = some 5; tip_hash = some (array 5) });
  heads = (array 1, head_row (head_record (head_at 4))) ∷ [];
  pending_commits = (reference, array 4) ∷ [];
  wallet_commits = [];
  rollback_blocks = [];
  rollback_heads = [];
  rollback_commits = [];
}

-- the name is refreshed, and the COMMIT goes
abbrev pub delta : StateDelta
delta = record {
  from_tip = some (tip_at 5);
  to_tip = some (tip_at 6);
  heads =
      record { name_id = array 1; previous = some (head_at 4); current = some (head_at 6) } ∷ [];
  commits = record { reference = reference; previous = some (array 4); current = none } ∷ [];
}

abbrev pub database_or : {A : Type 0} → Database → Outcome A → Database
database_or db (done a after) = after
database_or db (failed e after) = db

unfoldable pub refreshed : Database
unfolding apply_delta apply_heads apply_head apply_commits apply_commit insert_block
    insert_rollback_head insert_rollback_commit read_tip stored_tip read_head read_commit write_head
    write_commit write_tip put decode_32 decode_optional_32 decode_optional_tip decode_head
    decode_name_id encode_record validate_optional validate_head parse_name is_bad_name bare_name
    strip_suffix name_id name_id_from wide_field parse_ua matches_hrp strip_prefix field_from_bytes
    canonical_field nonzero_from_bytes get contains insert remove head_row new_metadata new_identity
    encode_coverage encode_network same nat_ord list_ord pair_ord option_ord commit_ref_ord
    state_ref_ord head_record_ord tip_ord
refreshed = database_or stored (apply_delta json identity delta stored)

pub applies : apply_delta json identity delta stored ≡ done tt refreshed
unfolding refreshed
applies = refl

typed : IsTyped delta
unfolding decode_name_id nonzero_from_bytes canonical_field decode_32 same nat_ord list_ord
typed = ((refl, tt), (refl, tt))

pub in_order : IsSound stored
unfolding get
in_order = record {
  heads = (tt, tt);
  pending_commits = (tt, tt);
  rollback_blocks = tt;
  rollback_heads = tt;
  rollback_commits = tt;
  linked_heads = λ h id e. refl;
  linked_commits = λ h c e. refl;
}

rollback_tip-apply_delta_example :
    rollback_tip json identity (array 6) refreshed ≡ done (some (tip_at 5)) stored
rollback_tip-apply_delta_example =
    rollback_tip-apply_delta json identity delta (tip_at 6) stored refreshed json-IsFaithful
      in_order typed refl refl applies

apply_delta-IsSound_example : IsSound refreshed
apply_delta-IsSound_example =
    apply_delta-IsSound json identity delta stored refreshed json-IsFaithful typed in_order applies

single_key : {V : Type 0} (k id : Bytes) (v : V) → get id ((k, v) ∷ []) ≢ none → id ≡ k
unfolding get
single_key k id v held = ground (arith, eq_of_same k id)

within : IsWithin identity.coverage stored
unfolding new_identity
within id held = single_key (array 1) id (head_row (head_record (head_at 4))) held

apply_delta-IsWithin_example : IsWithin identity.coverage refreshed
apply_delta-IsWithin_example =
    apply_delta-IsWithin json identity delta stored refreshed within applies

pub refreshed_tip : stored_tip refreshed ≡ ok (some (tip_at 6))
unfolding refreshed
refreshed_tip = refl

wallet_rollback_tip-visible_example :
    visible (wallet_rollback_tip json identity refreshed)
    ≡ visible (rollback_tip json identity (array 6) refreshed)
wallet_rollback_tip-visible_example =
    wallet_rollback_tip-visible json identity refreshed (tip_at 6)
      (apply_delta-IsSound json identity delta stored refreshed json-IsFaithful typed in_order
        applies)
      refreshed_tip
