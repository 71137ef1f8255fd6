-- ===== src/Sqlite/Deltas/Follows.antt =====
-- The store follows the reducer: the delta of a block, applied to tables that hold the records of
-- a reducer, makes them hold the records of the reducer after the block.
use coppice_names.Prelude.{
  ◌≡◌, refl, sym, ap, subst, ◌∙◌, Option, some, List, [], ◌∷◌, ok, map, length, arith,
  if◌then◌else◌,
}
use coppice_names.Collections.Order.{same, eq_of_same, nat_ord, list_ord, pair_ord}
use coppice_names.Collections.OrdMap.{OrdMap, get, contains}
use coppice_names.Reducer.Maintenance.{Journaled}
use coppice_names.Protocol.{Bytes, NameId, Commitment, CommitRef, Primitives, commit_ref_ord}
use coppice_names.Reducer.State.{
  Head, Reducer, Block, ReferencedCommit, BlockOutcome, ReducerTip, HeadChange, CommitChange,
  StateDelta,
}
use coppice_names.Reducer.Records.{tip, delta_from_undo, new_undo}
use coppice_names.Reducer.Edits.Keeps.{IsJournal}
use coppice_names.Reducer.Blocks.{apply_block_detailed, advance_tip, push_history}
use coppice_names.Reducer.Blocks.Applied.{apply_block_inversion}
use coppice_names.Reducer.Rollback.Undoes.{changed, run_block-IsJournal}
use coppice_names.Sqlite.Identity.{StoreIdentity}
use coppice_names.Sqlite.Tables.{Database, HeadRow}
use coppice_names.Sqlite.Session.{done, after_step}
use coppice_names.Sqlite.Records.{Json, optional_row, optional_record, stored_tip}
use coppice_names.Sqlite.Records.Reads.{stored_tip-eq-ok}
use coppice_names.Sqlite.Journal.{get-put}
use coppice_names.Sqlite.Deltas.{apply_head, apply_heads, apply_commit, apply_commits, apply_delta}
use coppice_names.Sqlite.Deltas.Applied.{
  apply_head_inversion, apply_commit_inversion, apply_delta_inversion, with_block, IsAppliedDelta,
  stored_tip-with_tip,
}

-- the columns of the head that a reducer has for a name
abbrev pub row_of : Option Head → Option HeadRow
row_of head = optional_row (optional_record head)

-- The tables hold the records of the reducer, and its tip.
pub record IsHolding (db : Database) (r : Reducer) : Type 0 where
  pub heads : (id : NameId) → get id db.heads ≡ row_of (get id r.heads)
  pub commits : (c : CommitRef) → get c db.pending_commits ≡ get c r.commits
  pub tip_stored : stored_tip db ≡ ok (tip r)

-- what a list of changes leaves at one key
abbrev pub head_written : List HeadChange → NameId → Option HeadRow → Option HeadRow
head_written [] id now = now
head_written (c ∷ cs) id now =
    head_written cs id (if same c.name_id id then row_of c.current else now)

abbrev commit_written : List CommitChange → CommitRef → Option Bytes → Option Bytes
commit_written [] reference now = now
commit_written (c ∷ cs) reference now =
    commit_written cs reference (if same c.reference reference then c.current else now)

-- The changes of a delta write what the new reducer has.
head_written_delta :
    (heads : OrdMap NameId Head) (m : OrdMap NameId (Option Head)) (id : NameId)
    (now : Option HeadRow)
    → head_written
        (map (λ e. record { name_id = e.0; previous = e.1; current = get e.0 heads }) m)
        id
        now
      ≡ (if contains id m then row_of (get id heads) else now)
unfolding contains get
head_written_delta heads [] id now = refl
head_written_delta heads ((j, v) ∷ m) id now = ground (
  arith,
  head_written_delta heads m id (if same j id then row_of (get j heads) else now),
  eq_of_same j id,
)

commit_written_delta :
    (commits : OrdMap CommitRef Commitment) (m : OrdMap CommitRef (Option Commitment))
    (reference : CommitRef) (now : Option Bytes)
    → commit_written
        (map (λ e. record { reference = e.0; previous = e.1; current = get e.0 commits }) m)
        reference
        now
      ≡ (if contains reference m then get reference commits else now)
unfolding contains get
commit_written_delta commits [] reference now = refl
commit_written_delta commits ((j, v) ∷ m) reference now = ground (
  arith,
  commit_written_delta commits m reference (if same j reference then get j commits else now),
  eq_of_same j reference,
)

module _ ⦃prims : Primitives⦄ (json : Json) (identity : StoreIdentity) where
  -- what the loop over the heads leaves in the tables
  pub get-apply_heads :
      (from_tip : Option ReducerTip) (to_tip : ReducerTip) (changes : List HeadChange)
      (db after : Database)
      → apply_heads json identity from_tip to_tip changes db ≡ done tt after
      → ((id : NameId) → get id after.heads ≡ head_written changes id (get id db.heads))
        × (after.pending_commits ≡ db.pending_commits)
        × (after.metadata ≡ db.metadata)
  unfolding apply_heads
  get-apply_heads from_tip to_tip [] db after h =
      let equal : after ≡ db = cc in
      (
        (λ id. ap (λ (d : Database). get id d.heads) equal),
        ap (λ (d : Database). d.pending_commits) equal,
        ap (λ (d : Database). d.metadata) equal,
      )
  get-apply_heads from_tip to_tip (c ∷ cs) db after h =
      let (_, mid, first, rest) = after_step (apply_head json identity from_tip to_tip c) _ db h in
      let a = apply_head_inversion json identity from_tip to_tip c db mid first in
      let (heads, commits, metadata) = get-apply_heads from_tip to_tip cs mid after rest in
      (
        (λ id.
            heads id
            ∙ ap (head_written cs id) (
                ap (λ (d : Database). get id d.heads) a.after_eq
                ∙ get-put c.name_id id (row_of c.current) db.heads)),
        commits ∙ ap (λ (d : Database). d.pending_commits) a.after_eq,
        metadata ∙ ap (λ (d : Database). d.metadata) a.after_eq,
      )

-- ... and the loop over the COMMITs
pub get-apply_commits :
    (to_tip : ReducerTip) (changes : List CommitChange) (db after : Database)
    → apply_commits to_tip changes db ≡ done tt after
    → ((c : CommitRef)
        → get c after.pending_commits ≡ commit_written changes c (get c db.pending_commits))
      × (after.heads ≡ db.heads)
      × (after.metadata ≡ db.metadata)
unfolding apply_commits
get-apply_commits to_tip [] db after h =
    let equal : after ≡ db = cc in
    (
      (λ c. ap (λ (d : Database). get c d.pending_commits) equal),
      ap (λ (d : Database). d.heads) equal,
      ap (λ (d : Database). d.metadata) equal,
    )
get-apply_commits to_tip (c ∷ cs) db after h =
    let (_, mid, first, rest) = after_step (apply_commit to_tip c) _ db h in
    let a = apply_commit_inversion to_tip c db mid first in
    let (commits, heads, metadata) = get-apply_commits to_tip cs mid after rest in
    (
      (λ j.
          commits j
          ∙ ap (commit_written cs j) (
              ap (λ (d : Database). get j d.pending_commits) a.after_eq
              ∙ get-put c.reference j c.current db.pending_commits)),
      heads ∙ ap (λ (d : Database). d.heads) a.after_eq,
      metadata ∙ ap (λ (d : Database). d.metadata) a.after_eq,
    )

-- the delta of a block from what its run leaves
abbrev delta_of : Reducer → Block → Journaled → StateDelta
delta_of r b s = delta_from_undo (advance_tip s.0 b) (tip r) (tip (advance_tip s.0 b)) s.1

module _ ⦃prims : Primitives⦄ (json : Json) (identity : StoreIdentity) (r : Reducer) (b : Block)
    (s : Journaled) (j : IsJournal r (new_undo r b.height b.hash) s) (db after : Database)
    (x : IsHolding db r) (d : IsAppliedDelta json identity (delta_of r b s) db after) where
  heads_follow : (id : NameId) → get id after.heads ≡ row_of (get id s.0.heads)
  unfolding delta_from_undo advance_tip contains
  heads_follow id =
      let (heads, _, _) =
        get-apply_heads json identity (tip r) d.to_tip (delta_of r b s).heads
          (with_block d.to_tip (tip r) db) d.of_heads d.heads_applied in
      let (_, kept, _) =
        get-apply_commits d.to_tip (delta_of r b s).commits d.of_heads d.of_commits
          d.commits_applied in
      ap (λ (e : Database). get id e.heads) d.after_eq
      ∙ ap (get id) kept
      ∙ heads id
      ∙ head_written_delta s.0.heads s.1.heads id (get id db.heads)
      ∙ ground (arith, j.heads_before id, x.heads id)

  commits_follow : (c : CommitRef) → get c after.pending_commits ≡ get c s.0.commits
  unfolding delta_from_undo advance_tip contains
  commits_follow c =
      let (_, kept, _) =
        get-apply_heads json identity (tip r) d.to_tip (delta_of r b s).heads
          (with_block d.to_tip (tip r) db) d.of_heads d.heads_applied in
      let (commits, _, _) =
        get-apply_commits d.to_tip (delta_of r b s).commits d.of_heads d.of_commits
          d.commits_applied in
      ap (λ (e : Database). get c e.pending_commits) d.after_eq
      ∙ commits c
      ∙ ap (λ m. commit_written (delta_of r b s).commits c (get c m)) kept
      ∙ commit_written_delta s.0.commits s.1.commits c (get c db.pending_commits)
      ∙ ground (arith, j.commits_before c, x.commits c)

  tip_follows : length b.hash ≡ 32 → stored_tip after ≡ ok (tip (advance_tip s.0 b))
  unfolding delta_from_undo advance_tip tip
  tip_follows size =
      let (_, _, kept1) =
        get-apply_heads json identity (tip r) d.to_tip (delta_of r b s).heads
          (with_block d.to_tip (tip r) db) d.of_heads d.heads_applied in
      let (_, _, kept2) =
        get-apply_commits d.to_tip (delta_of r b s).commits d.of_heads d.of_commits
          d.commits_applied in
      let (m, held, _, _) = stored_tip-eq-ok db (tip r) d.stored in
      let to_eq : d.to_tip ≡ record { height = b.height; hash = b.hash } = cc (d.to_eq) in
      ap stored_tip d.after_eq
      ∙ stored_tip-with_tip d.to_tip d.of_commits m (kept2 ∙ kept1 ∙ held) (rw to_eq size)
      ∙ ap (λ t. ok (some t)) to_eq

module _ ⦃prims : Primitives⦄ (json : Json) (identity : StoreIdentity) where
  -- A database that holds the records and the tip of a reducer, and to which the delta of the
  -- reducer's next block has been applied, holds the records and the tip of the reducer after that
  -- block, if the hash of the block has 32 bytes.
  pub apply_delta-IsHolding :
      (r r' : Reducer) (b : Block) (referenced : List ReferencedCommit) (outcome : BlockOutcome)
      (db after : Database)
      → apply_block_detailed r b referenced ≡ ok (r', outcome)
      → length b.hash ≡ 32
      → IsHolding db r
      → apply_delta json identity outcome.state_delta db ≡ done tt after
      → IsHolding after r'
  unfolding push_history advance_tip tip
  apply_delta-IsHolding r r' b referenced outcome db after applied size x h =
      let a = apply_block_inversion r b referenced r' outcome applied in
      let s = changed r b a.supplied in
      let j = run_block-IsJournal r b a.supplied in
      let delta_eq = ap (λ (o : BlockOutcome). o.state_delta) a.outcome_eq in
      let d =
        apply_delta_inversion json identity (delta_of r b s) db after
          (ap (λ delta. apply_delta json identity delta db) (sym delta_eq) ∙ h) in
      subst (IsHolding after) (sym a.after_eq) (record {
        heads = heads_follow json identity r b s j db after x d;
        commits = commits_follow json identity r b s j db after x d;
        tip_stored = tip_follows json identity r b s j db after x d size;
      })
