-- ===== src/Examples/Restart.antt =====
-- A reducer saved and loaded, its resolutions, and a resolver that follows it.
use coppice_names.Prelude.{◌≡◌, ◌↔◌, ◌⊎◌, suc, refl, none, some, [], ◌∷◌, Result, ok, err}
use coppice_names.Protocol.{
  Network, NameId, name_id, name_id_from, wide_field, parse_name, is_bad_name, bare_name,
  strip_suffix, parse_ua, matches_hrp, strip_prefix, field_from_bytes, canonical_field,
  nonzero_from_bytes, commit_ref_ord, state_ref_ord,
}
use coppice_names.Collections.Order.{nat_ord, list_ord, pair_ord, same}
use coppice_names.Collections.OrdMap.{get, contains, insert}
use coppice_names.Collections.Index.{bucket, add_index_entry}
use coppice_names.Schedule.{validate, epoch, expiry}
use coppice_names.Reducer.State.{Head, Reducer, wrong_height, terminal_at, is_claimable, lifecycle}
use coppice_names.Reducer.Indexes.{IsIndexed}
use coppice_names.Reducer.Rollback.{rollback_range}
use coppice_names.Reducer.Resolution.{resolve, resolve_authenticated}
use coppice_names.Reducer.Resolution.Answers.{IsPaidTo, resolve-ua_iff, resolve_authenticated_iff}
use coppice_names.Snapshot.{
  Serde, stored_reducer, stored_undo, load_snapshot, restore_records, read_commits, read_heads,
  read_history, restore_undo, restore_undo_commits, restore_undo_heads, restore_head, validate_tip,
  is_tip, same_height, validate_commit, validate_history, is_chain, same_parameters, same_range,
  rebuild_derived_indexes, index_commits, index_heads, index_head, SnapshotError,
}
use coppice_names.Snapshot.Loaded.{IsLive, load_snapshot-IsConsistent}
use coppice_names.Reducer.Blocks.{apply_block_detailed}
use coppice_names.Resolver.{ExactResolver, apply_detailed}
use coppice_names.Resolver.Checks.{apply_detailed-refuses}
use coppice_names.Examples.Chain.{
  toy, parameters, trusting, after_reveal, before_reveal, empty_reducer, block_of,
}

-- a serializer of one value
abbrev serde : Serde
serde = record {
  to_vec = λ stored. some [];
  from_slice = λ bytes. some (stored_reducer (4 ∷ []) after_reveal);
  fingerprint = 4 ∷ [];
}

abbrev loaded_or_empty : Result {0, 0} SnapshotError Reducer → Reducer
loaded_or_empty (ok r) = r
loaded_or_empty (err e) = empty_reducer

unfoldable loaded : Reducer
unfolding after_reveal load_snapshot restore_records read_commits read_heads read_history
    restore_undo restore_undo_commits restore_undo_heads restore_head validate_tip is_tip
    same_height validate_commit validate_history is_chain same_parameters same_range
    rebuild_derived_indexes index_commits index_heads index_head stored_reducer stored_undo name_id
    name_id_from wide_field parse_name is_bad_name bare_name strip_suffix parse_ua matches_hrp
    strip_prefix field_from_bytes canonical_field nonzero_from_bytes validate epoch expiry
    rollback_range terminal_at is_claimable lifecycle get contains insert bucket add_index_entry
    same nat_ord list_ord pair_ord commit_ref_ord state_ref_ord
loaded = loaded_or_empty (load_snapshot serde parameters Network.main trusting [])

loads : load_snapshot serde parameters Network.main trusting [] ≡ ok loaded
unfolding loaded
loads = refl

restored : loaded ≡ after_reveal
unfolding loaded
restored = refl

load_snapshot-IsConsistent_example :
    IsIndexed loaded
    × ((id : NameId) (head : Head)
        → get id loaded.heads ≡ some head
        → IsLive loaded.parameters loaded.tip_height id head)
load_snapshot-IsConsistent_example =
    load_snapshot-IsConsistent serde parameters Network.main trusting [] loaded loads

resolve-ua_iff_example :
    ((resolve after_reveal (b'a' ∷ []) 4).ua ≡ some (b'u' ∷ b'1' ∷ b'a' ∷ []))
    ↔ IsPaidTo after_reveal (b'a' ∷ []) 4 (b'u' ∷ b'1' ∷ b'a' ∷ [])
resolve-ua_iff_example = resolve-ua_iff after_reveal (b'a' ∷ []) 4 (b'u' ∷ b'1' ∷ b'a' ∷ [])

resolve_authenticated_iff_example :
    (resolve_authenticated after_reveal (b'a' ∷ []) 4 ≡ ok (resolve after_reveal (b'a' ∷ []) 4)) ↔ (
      (after_reveal.tip_height ≡ some 4)
      ⊎ ((after_reveal.tip_height ≡ none) × (after_reveal.parameters.activation_height ≡ suc 4)))
resolve_authenticated_iff_example = resolve_authenticated_iff after_reveal (b'a' ∷ []) 4

abbrev follower : ExactResolver
follower = record { name = b'a' ∷ []; name_id = 1 ∷ b'a' ∷ 0 ∷ []; reducer = before_reveal }

apply_detailed-refuses_example :
    (apply_detailed follower (block_of 6 []) [] ≡ err wrong_height)
    ↔ (apply_block_detailed before_reveal (block_of 6 []) [] ≡ err wrong_height)
apply_detailed-refuses_example =
    apply_detailed-refuses follower before_reveal (block_of 6 []) wrong_height refl refl
