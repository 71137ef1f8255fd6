-- ===== src/Resolver/Replays.antt =====
-- Exact replay and complete replay, block by block.
use coppice_names.Prelude.{
  ℕ, ◌≡◌, ◌∙◌, refl, sym, ap, some, List, [], ◌∷◌, ok, arith, map, Option-cases, inl, inr,
}
use coppice_names.Collections.Order.{nat_ord, list_ord}
use coppice_names.Collections.OrdMap.{OrdMap, get}
use coppice_names.Protocol.{
  NameId, StateRef, Commitment, CommitRef, Primitives, commit_ref_ord, state_ref_ord,
}
use coppice_names.Reducer.State.{Transaction, Block, Head, Undo, Reducer, BlockOutcome}
use coppice_names.Reducer.Records.{new_undo}
use coppice_names.Reducer.Records.Reads.{
  SameFrame, SameFrame-refl, SameFrame-trans, commits-replace_head, replace_head-SameFrame,
  replace_commit-SameFrame,
}
use coppice_names.Reducer.Indexes.{IsIndexed}
use coppice_names.Reducer.Maintenance.{Journaled, mark_expired, compact_claimable}
use coppice_names.Reducer.Maintenance.Start.{start_block, start_block-reads}
use coppice_names.Reducer.Edits.{
  Edit, Edits, Edits-keep, Edits-trans, replaces_head, keeps_head, replaces_commit,
}
use coppice_names.Reducer.Edits.Block.{
  apply_transaction-Edits, terminate_heads-Edits, mark_expired-Edits, compact_claimable-Edits,
  prune_commits-Edits,
}
use coppice_names.Reducer.Edits.Keeps.{Edits-IsIndexed}
use coppice_names.Reducer.Transactions.{
  terminate_head, terminate_heads, spent_heads, apply_operation, apply_transaction_detailed,
}
use coppice_names.Reducer.Transactions.Spends.{get-apply_transaction}
use coppice_names.Reducer.Blocks.{
  apply_transactions, run_block, advance_tip, push_history, admit_evidence, check_block,
  collect_evidence, apply_block_detailed,
}
use coppice_names.Reducer.Blocks.Applied.{apply_block_inversion, reducer_after}
use coppice_names.Resolver.Filter.{filter_transaction, filter_block}
use coppice_names.Resolver.Follows.{Follows, operation-Follows}

-- edits leave the frame
Edits-SameFrame :
    (base : Reducer) {s t : Journaled} → Edits s t → SameFrame base s.0 → SameFrame base t.0
Edits-SameFrame base = Edits-keep (λ s. SameFrame base s.0) step
  where
    step : (s t : Journaled) → Edit s t → SameFrame base s.0 → SameFrame base t.0
    step _ _ (replaces_head r u id v) f = SameFrame-trans f (replace_head-SameFrame r id v)
    step _ _ (keeps_head r u id) f = f
    step _ _ (replaces_commit r u c v) f = SameFrame-trans f (replace_commit-SameFrame r c v)

commits-terminate_head :
    (h : ℕ) (id : NameId) (producer : StateRef) (head : Head) (r : Reducer) (u : Undo)
    → (terminate_head h id producer head r u).0.0.commits ≡ r.commits
unfolding terminate_head
commits-terminate_head h id producer head r u =
    ground (arith, commits-replace_head r id (some (record head { terminal_height = some h })))

commits-terminate_heads :
    (h : ℕ) (l : List (NameId × StateRef)) (r : Reducer) (u : Undo)
    → (terminate_heads h l r u).0.0.commits ≡ r.commits
unfolding terminate_heads
commits-terminate_heads h [] r u = refl
commits-terminate_heads h ((id, producer) ∷ l) r u = elim (Option-cases (get id r.heads)) [
  | inl e ↦ rw (e, terminate_heads) (commits-terminate_heads h l r u)
  | inr (head, e) ↦
      let first = terminate_head h id producer head r u in
      rw (e, terminate_heads)
        (commits-terminate_heads h l first.0.0 first.0.1
          ∙ commits-terminate_head h id producer head r u)
]

module _ ⦃prims : Primitives⦄ where
  -- the terminations leave everything but heads
  after_operation :
      (r : Reducer) (h : ℕ) (tx : Transaction) (u : Undo)
      → SameFrame
          (apply_operation r h tx u tx.operation).0.0
          (apply_transaction_detailed r h tx u).0.0
        × ((apply_transaction_detailed r h tx u).0.0.commits
            ≡ (apply_operation r h tx u tx.operation).0.0.commits)
  unfolding apply_transaction_detailed
  after_operation r h tx u =
      let first = apply_operation r h tx u tx.operation in
      (
        Edits-SameFrame first.0.0 (terminate_heads-Edits h (spent_heads r tx) first.0.0 first.0.1)
            (SameFrame-refl first.0.0),
        commits-terminate_heads h (spent_heads r tx) first.0.0 first.0.1,
      )

module _ ⦃prims : Primitives⦄ (id : NameId) where
  through :
      (r e : Reducer) (h : ℕ) (tx : Transaction) (u w : Undo)
      → Follows id r e
      → Follows id
          (apply_operation r h tx u tx.operation).0.0
          (apply_operation e h
            (filter_transaction id tx)
            w
            (filter_transaction id tx).operation).0.0
  unfolding filter_transaction
  through r e h tx u w f = operation-Follows id r e h tx u w tx.operation f

  filter_transaction-actions : (tx : Transaction) → (filter_transaction id tx).actions ≡ tx.actions
  unfolding filter_transaction
  filter_transaction-actions tx = refl

  transaction-Follows :
      (r e : Reducer) (h : ℕ) (tx : Transaction) (u w : Undo)
      → IsIndexed r
      → IsIndexed e
      → Follows id r e
      → Follows id
          (apply_transaction_detailed r h tx u).0.0
          (apply_transaction_detailed e h (filter_transaction id tx) w).0.0
  transaction-Follows r e h tx u w x y f =
      let tx' = filter_transaction id tx in
      let g = through r e h tx u w f in
      let (frame_r, commits_r) = after_operation r h tx u in
      let (frame_e, commits_e) = after_operation e h tx' w in
      record {
        parameters = frame_e.parameters ∙ g.parameters ∙ sym frame_r.parameters;
        verifier = frame_e.verifier ∙ g.verifier ∙ sym frame_r.verifier;
        commits = λ c. ap (get c) commits_e ∙ g.commits c ∙ sym (ap (get c) commits_r);
        head =
            get-apply_transaction e h tx' w id y.of_heads
            ∙ rw (g.head, f.head, filter_transaction-actions tx) refl
            ∙ sym (get-apply_transaction r h tx u id x.of_heads);
      }

  transactions-Follows :
      (h : ℕ) (txs : List Transaction) (r e : Reducer) (u w : Undo)
      → IsIndexed r
      → IsIndexed e
      → Follows id r e
      → Follows id
          (apply_transactions h txs r u).0.0
          (apply_transactions h (map (filter_transaction id) txs) e w).0.0
  unfolding apply_transactions
  transactions-Follows h [] r e u w x y f = f
  transactions-Follows h (tx ∷ txs) r e u w x y f =
      let a = apply_transaction_detailed r h tx u in
      let b = apply_transaction_detailed e h (filter_transaction id tx) w in
      transactions-Follows h txs a.0.0 b.0.0 a.0.1 b.0.1
        (Edits-IsIndexed (apply_transaction-Edits r h tx u) x)
        (Edits-IsIndexed (apply_transaction-Edits e h (filter_transaction id tx) w) y)
        (transaction-Follows r e h tx u w x y f)

start_block-Edits : (r : Reducer) (h : ℕ) (u : Undo) → Edits (r, u) (start_block r h u)
start_block-Edits r h u =
    let s1 = mark_expired r h u in
    let s2 = (compact_claimable s1.0 h s1.1).0 in
    Edits-trans (mark_expired-Edits r h u)
      (Edits-trans (compact_claimable-Edits s1.0 h s1.1) (prune_commits-Edits s2.0 h s2.1))

start_block-Follows :
    (id : NameId) (r e : Reducer) (h : ℕ) (u w : Undo)
    → IsIndexed r
    → IsIndexed e
    → Follows id r e
    → Follows id (start_block r h u).0 (start_block e h w).0
start_block-Follows id r e h u w x y f =
    let a = Edits-SameFrame r (start_block-Edits r h u) (SameFrame-refl r) in
    let b = Edits-SameFrame e (start_block-Edits e h w) (SameFrame-refl e) in
    let (heads_r, commits_r) = start_block-reads r h u x in
    let (heads_e, commits_e) = start_block-reads e h w y in
    record {
      parameters = b.parameters ∙ f.parameters ∙ sym a.parameters;
      verifier = b.verifier ∙ f.verifier ∙ sym a.verifier;
      commits = λ c. commits_e c ∙ rw (f.parameters, f.commits c) refl ∙ sym (commits_r c);
      head = heads_e id ∙ rw (f.parameters, f.head) refl ∙ sym (heads_r id);
    }

module _ ⦃prims : Primitives⦄ (id : NameId) where
  run_block-Follows :
      (r e : Reducer) (b : Block)
      → IsIndexed r
      → IsIndexed e
      → Follows id r e
      → Follows id (run_block r b []).0.0 (run_block e (filter_block id b) []).0.0
  unfolding run_block admit_evidence filter_block
  run_block-Follows r e b x y f =
      let u = new_undo r b.height b.hash in
      let w = new_undo e b.height b.hash in
      let a = start_block r b.height u in
      let c = start_block e b.height w in
      transactions-Follows id b.height b.transactions a.0 c.0 a.1 c.1
        (Edits-IsIndexed (start_block-Edits r b.height u) x)
        (Edits-IsIndexed (start_block-Edits e b.height w) y)
        (start_block-Follows id r e b.height u w x y f)

  no_evidence :
      (r : Reducer) (b : Block) (supplied : OrdMap CommitRef Commitment)
      → check_block r b [] ≡ ok supplied
      → supplied ≡ []
  unfolding check_block collect_evidence
  no_evidence r b supplied h = ground arith

  reducer_after-Follows :
      (r e : Reducer) (b : Block)
      → Follows id (run_block r b []).0.0 (run_block e (filter_block id b) []).0.0
      → Follows id (reducer_after r b []) (reducer_after e (filter_block id b) [])
  unfolding advance_tip push_history filter_block
  reducer_after-Follows r e b f = record {
    parameters = f.parameters;
    verifier = f.verifier;
    commits = f.commits;
    head = f.head;
  }

  pub apply_block-Follows :
      (r e after after_e : Reducer) (b : Block) (outcome outcome_e : BlockOutcome)
      → IsIndexed r
      → IsIndexed e
      → Follows id r e
      → apply_block_detailed r b [] ≡ ok (after, outcome)
      → apply_block_detailed e (filter_block id b) [] ≡ ok (after_e, outcome_e)
      → Follows id after after_e
  apply_block-Follows r e after after_e b outcome outcome_e x y f ran ran_e =
      let a = apply_block_inversion r b [] after outcome ran in
      let c = apply_block_inversion e (filter_block id b) [] after_e outcome_e ran_e in
      let s = no_evidence r b a.supplied a.checked in
      let t = no_evidence e (filter_block id b) c.supplied c.checked in
      rw (a.after_eq, c.after_eq, s, t)
        (reducer_after-Follows r e b (run_block-Follows r e b x y f))
