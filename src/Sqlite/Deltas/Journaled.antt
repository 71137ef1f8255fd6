-- ===== src/Sqlite/Deltas/Journaled.antt =====
-- What the loops of `apply_delta` leave: tables that the journal of the block leads back from.
use coppice_names.Prelude.{◌≡◌, refl, sym, subst, Option, none, List, [], ◌∷◌, ok, err, Each}
use coppice_names.Collections.Order.{nat_ord, list_ord, pair_ord}
use coppice_names.Protocol.{Bytes, NameId, CommitRef, Primitives, commit_ref_ord}
use coppice_names.Reducer.State.{ReducerTip, HeadChange, CommitChange, StateDelta}
use coppice_names.Sqlite.Identity.{StoreIdentity}
use coppice_names.Sqlite.Tables.{Database, HeadRow}
use coppice_names.Sqlite.Session.{done, after_step}
use coppice_names.Sqlite.Records.{
  Json, decode_record, validate_optional, optional_record, optional_row, height_of, decode_32,
  decode_optional_32, decode_name_id,
}
use coppice_names.Sqlite.Records.Reads.{IsFaithful, decode-encode_record}
use coppice_names.Sqlite.Journal.{IsJournalOf, extend_journal, start_journal}
use coppice_names.Sqlite.Sound.{IsSound}
use coppice_names.Sqlite.Deltas.{apply_head, apply_heads, apply_commit, apply_commits}
use coppice_names.Sqlite.Deltas.Applied.{
  apply_head_inversion, apply_commit_inversion, IsAppliedDelta, with_block,
}

-- the row of a head that a row of the journal keeps
abbrev pub kept_head : Json → Option Bytes → Option HeadRow
kept_head json bytes = elim (decode_record json bytes) [ ok r ↦ optional_row r | err _ ↦ none ]

-- ... and of a COMMIT
abbrev pub kept_commit : Option Bytes → Option Bytes
kept_commit bytes = bytes

-- a row that `rollback_tip` reads without an error
abbrev pub IsReadableCommit : CommitRef → Option Bytes → Type 0
IsReadableCommit reference bytes =
    (decode_32 reference.txid ≡ ok reference.txid) × (decode_optional_32 bytes ≡ ok bytes)

module _ ⦃prims : Primitives⦄ where
  -- the identifiers and hashes of a delta are 32 bytes long, as their types say
  abbrev pub IsTyped : StateDelta → Type 0
  IsTyped delta =
      Each (λ (c : HeadChange). decode_name_id c.name_id ≡ ok c.name_id) delta.heads
      × Each (λ (c : CommitChange). decode_32 c.reference.txid ≡ ok c.reference.txid) delta.commits

module _ ⦃prims : Primitives⦄ (json : Json) (identity : StoreIdentity) where
  abbrev pub IsReadableHead : Option ReducerTip → NameId → Option Bytes → Type 0
  IsReadableHead from_tip id bytes =
      (decode_name_id id ≡ ok id)
      × (r : _) × (decode_record json bytes ≡ ok r)
      × (validate_optional id r identity.network (height_of from_tip) ≡ ok tt)

  -- The tables `now` differ from `base` only in records and in journal rows of the block `to_tip`,
  -- and those rows lead back to `base`.
  pub record IsJournaled (from_tip : Option ReducerTip) (to_tip : ReducerTip) (base now : Database)
      : Type 0 where
    pub heads :
        IsJournalOf
          (kept_head json)
          to_tip.height
          (IsReadableHead from_tip)
          base.heads
          base.rollback_heads
          now.rollback_heads
          now.heads
    pub commits :
        IsJournalOf kept_commit to_tip.height IsReadableCommit base.pending_commits
          base.rollback_commits now.rollback_commits now.pending_commits
    pub metadata : now.metadata ≡ base.metadata
    pub wallet_commits : now.wallet_commits ≡ base.wallet_commits
    pub rollback_blocks : now.rollback_blocks ≡ base.rollback_blocks

  module _ (from_tip : Option ReducerTip) (to_tip : ReducerTip) (base : Database) where
    apply_head-IsJournaled :
        (change : HeadChange) (now after : Database)
        → IsFaithful json
        → decode_name_id change.name_id ≡ ok change.name_id
        → IsJournaled from_tip to_tip base now
        → apply_head json identity from_tip to_tip change now ≡ done tt after
        → IsJournaled from_tip to_tip base after
    apply_head-IsJournaled change now after faithful named x h =
        let a = apply_head_inversion json identity from_tip to_tip change now after h in
        let previous = optional_record change.previous in
        let readable = decode-encode_record json previous a.bytes faithful a.encoded in
        subst (IsJournaled from_tip to_tip base) (sym a.after_eq) (record {
          heads =
              extend_journal (kept_head json) to_tip.height (IsReadableHead from_tip) base.heads
                base.rollback_heads now.rollback_heads now.heads change.name_id a.bytes
                (optional_row (optional_record change.current)) x.heads a.fresh
                (rw (kept_head, readable) a.held) (named, previous, readable, a.checked);
          commits = x.commits;
          metadata = x.metadata;
          wallet_commits = x.wallet_commits;
          rollback_blocks = x.rollback_blocks;
        })

    apply_commit-IsJournaled :
        (change : CommitChange) (now after : Database)
        → decode_32 change.reference.txid ≡ ok change.reference.txid
        → IsJournaled from_tip to_tip base now
        → apply_commit to_tip change now ≡ done tt after
        → IsJournaled from_tip to_tip base after
    apply_commit-IsJournaled change now after array x h =
        let a = apply_commit_inversion to_tip change now after h in
        subst (IsJournaled from_tip to_tip base) (sym a.after_eq) (record {
          heads = x.heads;
          commits =
              extend_journal kept_commit to_tip.height IsReadableCommit base.pending_commits
                base.rollback_commits now.rollback_commits now.pending_commits change.reference
                change.previous change.current x.commits a.fresh a.held (array, a.decoded);
          metadata = x.metadata;
          wallet_commits = x.wallet_commits;
          rollback_blocks = x.rollback_blocks;
        })

    pub apply_heads-IsJournaled :
        (changes : List HeadChange) (now after : Database)
        → IsFaithful json
        → Each (λ (c : HeadChange). decode_name_id c.name_id ≡ ok c.name_id) changes
        → IsJournaled from_tip to_tip base now
        → apply_heads json identity from_tip to_tip changes now ≡ done tt after
        → IsJournaled from_tip to_tip base after
    unfolding apply_heads
    apply_heads-IsJournaled [] now after faithful named x h =
        subst (IsJournaled from_tip to_tip base) (cc) x
    apply_heads-IsJournaled (c ∷ cs) now after faithful named x h =
        let (_, mid, first, rest) =
          after_step (apply_head json identity from_tip to_tip c) _ now h in
        apply_heads-IsJournaled cs mid after faithful named.1
          (apply_head-IsJournaled c now mid faithful named.0 x first) rest

    pub apply_commits-IsJournaled :
        (changes : List CommitChange) (now after : Database)
        → Each (λ (c : CommitChange). decode_32 c.reference.txid ≡ ok c.reference.txid) changes
        → IsJournaled from_tip to_tip base now
        → apply_commits to_tip changes now ≡ done tt after
        → IsJournaled from_tip to_tip base after
    unfolding apply_commits
    apply_commits-IsJournaled [] now after arrays x h =
        subst (IsJournaled from_tip to_tip base) (cc) x
    apply_commits-IsJournaled (c ∷ cs) now after arrays x h =
        let (_, mid, first, rest) = after_step (apply_commit to_tip c) _ now h in
        apply_commits-IsJournaled cs mid after arrays.1
          (apply_commit-IsJournaled c now mid arrays.0 x first) rest

  -- The whole of `apply_delta`, up to the new tip.
  pub apply_delta-IsJournaled :
      (delta : StateDelta) (db after : Database)
      → IsFaithful json
      → IsSound db
      → IsTyped delta
      → (a : IsAppliedDelta json identity delta db after)
      → IsJournaled delta.from_tip a.to_tip (with_block a.to_tip delta.from_tip db) a.of_commits
  apply_delta-IsJournaled delta db after faithful sound typed a =
      let opened = with_block a.to_tip delta.from_tip db in
      let start : IsJournaled delta.from_tip a.to_tip opened opened = record {
        heads =
            start_journal (kept_head json) a.to_tip.height _ db.heads db.rollback_heads sound.heads
              sound.rollback_heads (λ id. sound.linked_heads a.to_tip.height id a.fresh);
        commits =
            start_journal kept_commit a.to_tip.height _ db.pending_commits db.rollback_commits
              sound.pending_commits sound.rollback_commits
              (λ c. sound.linked_commits a.to_tip.height c a.fresh);
        metadata = refl;
        wallet_commits = refl;
        rollback_blocks = refl;
      } in
      let of_heads =
        apply_heads-IsJournaled delta.from_tip a.to_tip opened delta.heads opened a.of_heads
          faithful typed.0 start a.heads_applied in
      apply_commits-IsJournaled delta.from_tip a.to_tip opened delta.commits a.of_heads a.of_commits
        typed.1 of_heads a.commits_applied
