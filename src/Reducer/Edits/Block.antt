-- ===== src/Reducer/Edits/Block.antt =====
-- Each phase of a block is a sequence of edits.
use coppice_names.Prelude.{
  ℕ, Option, none, some, List, [], ◌∷◌, Result, ok, err, Option-cases, map, Bool-cases, inl, inr,
}
use coppice_names.Prelude.Word.{checked_sub}
use coppice_names.Collections.Order.{same, nat_ord, list_ord}
use coppice_names.Collections.OrdMap.{OrdMap, get, range_to}
use coppice_names.Collections.Index.{members}
use coppice_names.Protocol.{
  NameId, Commitment, CommitRef, StateRef, Primitives, commit_ref_ord, state_ref_ord,
}
use coppice_names.Operation.{Operation}
use coppice_names.Reducer.State.{
  Head, Undo, Reducer, Transaction, Block, Accepted, ClauseId, Compaction, reveal_accept,
  refresh_accept,
}
use coppice_names.Reducer.Records.{
  replace_head, replace_commit, remember_head, remember_commit, new_undo,
}
use coppice_names.Reducer.Maintenance.{
  Journaled, expire_head, expire_heads, mark_expired, delete_heads, claimable_up_to,
  compact_claimable, delete_commits, prune_commits,
}
use coppice_names.Reducer.Transactions.{
  check_reveal, check_refresh, settle, apply_operation, terminate_head, terminate_heads,
  apply_transaction_detailed, spent_heads,
}
use coppice_names.Reducer.Blocks.{admit_evidence, apply_transactions, run_block}
use coppice_names.Reducer.Edits.{
  Edit, Edits, replaces_head, keeps_head, replaces_commit, here, after, Edits-trans,
}

expire_head-Edit :
    (r : Reducer) (u : Undo) (id : NameId) → Edit (r, u) (expire_head r id, remember_head r u id)
unfolding expire_head
expire_head-Edit r u id = elim (Option-cases (get id r.heads)) [
  | inl e ↦ rw (e, expire_head) (keeps_head r u id)
  | inr (head, e) ↦ rw (e, expire_head) (replaces_head r u id _)
]

expire_heads-Edits :
    (ids : List NameId) (r : Reducer) (u : Undo) → Edits (r, u) (expire_heads ids r u)
unfolding expire_heads
expire_heads-Edits [] r u = here _
expire_heads-Edits (id ∷ ids) r u =
    after (expire_head-Edit r u id)
      (expire_heads-Edits ids (expire_head r id) (remember_head r u id))

pub mark_expired-Edits : (r : Reducer) (h : ℕ) (u : Undo) → Edits (r, u) (mark_expired r h u)
unfolding mark_expired
mark_expired-Edits r h u = expire_heads-Edits _ r u

delete_heads-Edits :
    (ids : List (NameId × StateRef)) (r : Reducer) (u : Undo) → Edits (r, u) (delete_heads ids r u)
unfolding delete_heads
delete_heads-Edits [] r u = here _
delete_heads-Edits ((id, producer) ∷ ids) r u =
    after (replaces_head r u id none)
      (delete_heads-Edits ids (replace_head r id none) (remember_head r u id))

pub compact_claimable-Edits :
    (r : Reducer) (h : ℕ) (u : Undo) → Edits (r, u) (compact_claimable r h u).0
unfolding compact_claimable
compact_claimable-Edits r h u =
    elim (checked_sub h r.parameters.cooldown_blocks)
      as (λ o.
        Edits (r, u)
          (elim o as (λ _. Journaled × List Compaction) [
            | none ↦ ((r, u), [])
            | some last ↦ (
              delete_heads (claimable_up_to r last) r u,
              map (λ e. record { name_id = e.0; previous_head = e.1; height = h })
                  (claimable_up_to r last),
            )
          ]).0) [ none ↦ here _ | some last ↦ delete_heads-Edits _ r u ]

delete_commits-Edits :
    (refs : List CommitRef) (r : Reducer) (u : Undo) → Edits (r, u) (delete_commits refs r u)
unfolding delete_commits
delete_commits-Edits [] r u = here _
delete_commits-Edits (c ∷ refs) r u =
    after (replaces_commit r u c none)
      (delete_commits-Edits refs (replace_commit r c none) (remember_commit r u c))

pub prune_commits-Edits : (r : Reducer) (h : ℕ) (u : Undo) → Edits (r, u) (prune_commits r h u)
unfolding prune_commits
prune_commits-Edits r h u =
    elim (checked_sub h r.parameters.commit_ttl_blocks)
      as (λ o.
        Edits (r, u)
          (elim o as (λ _. Journaled) [
            | none ↦ (r, u)
            | some last ↦ delete_commits (members (range_to last r.commits_by_height)) r u
          ])) [ none ↦ here _ | some last ↦ delete_commits-Edits _ r u ]

pub admit_evidence-Edits :
    (evidence : List (CommitRef × Commitment)) (r : Reducer) (u : Undo)
    → Edits (r, u) (admit_evidence evidence r u)
unfolding admit_evidence
admit_evidence-Edits [] r u = here _
admit_evidence-Edits ((c, v) ∷ rest) r u =
    after (replaces_commit r u c (some v))
      (admit_evidence-Edits rest (replace_commit r c (some v)) (remember_commit r u c))

settle-Edits :
    (kind : Accepted) (clause : ClauseId) (r : Reducer) (u : Undo)
    (checked : Result ClauseId (NameId × Head))
    → Edits (r, u) (settle kind clause r u checked).0
unfolding settle
settle-Edits kind clause r u (ok (id, head)) = after (replaces_head r u id (some head)) (here _)
settle-Edits kind clause r u (err refusal) = here _

terminate_head-Edits :
    (h : ℕ) (id : NameId) (producer : StateRef) (head : Head) (r : Reducer) (u : Undo)
    → Edits (r, u) (terminate_head h id producer head r u).0
unfolding terminate_head
terminate_head-Edits h id producer head r u = elim (Bool-cases (same head.producer producer)) [
  | inl e ↦ elim (Option-cases head.terminal_height) [
    | inl active ↦ rw (e, active) (after (replaces_head r u id _) (here _))
    | inr (t, ended) ↦ rw (e, ended) (after (keeps_head r u id) (here _))
  ]
  | inr e ↦ rw e (here _)
]

pub terminate_heads-Edits :
    (h : ℕ) (spent : List (NameId × StateRef)) (r : Reducer) (u : Undo)
    → Edits (r, u) (terminate_heads h spent r u).0
unfolding terminate_heads
terminate_heads-Edits h [] r u = here _
terminate_heads-Edits h ((id, producer) ∷ rest) r u = elim (Option-cases (get id r.heads)) [
  | inl e ↦ rw (e, terminate_heads) (terminate_heads-Edits h rest r u)
  | inr (head, e) ↦
      let first = terminate_head h id producer head r u in
      rw (e, terminate_heads)
        (Edits-trans (terminate_head-Edits h id producer head r u)
          (terminate_heads-Edits h rest first.0.0 first.0.1))
]

module _ ⦃prims : Primitives⦄ where
  pub apply_operation-Edits :
      (r : Reducer) (h : ℕ) (tx : Transaction) (u : Undo) (op : Option Operation)
      → Edits (r, u) (apply_operation r h tx u op).0
  unfolding apply_operation
  apply_operation-Edits r h tx u none = here _
  apply_operation-Edits r h tx u (some (Operation.commit v)) =
      after (replaces_commit r u _ (some v)) (here _)
  apply_operation-Edits r h tx u (some (Operation.reveal op)) =
      settle-Edits Accepted.reveal reveal_accept r u (check_reveal r h tx op)
  apply_operation-Edits r h tx u (some (Operation.refresh op)) =
      settle-Edits Accepted.refresh refresh_accept r u (check_refresh r h tx op)

  pub apply_transaction-Edits :
      (r : Reducer) (h : ℕ) (tx : Transaction) (u : Undo)
      → Edits (r, u) (apply_transaction_detailed r h tx u).0
  unfolding apply_transaction_detailed
  apply_transaction-Edits r h tx u =
      let first = apply_operation r h tx u tx.operation in
      Edits-trans (apply_operation-Edits r h tx u tx.operation)
        (terminate_heads-Edits h (spent_heads r tx) first.0.0 first.0.1)

  apply_transactions-Edits :
      (h : ℕ) (txs : List Transaction) (r : Reducer) (u : Undo)
      → Edits (r, u) (apply_transactions h txs r u).0
  unfolding apply_transactions
  apply_transactions-Edits h [] r u = here _
  apply_transactions-Edits h (tx ∷ txs) r u =
      let first = apply_transaction_detailed r h tx u in
      Edits-trans (apply_transaction-Edits r h tx u)
        (apply_transactions-Edits h txs first.0.0 first.0.1)

  -- a whole block is a sequence of edits from the empty journal
  pub run_block-Edits :
      (r : Reducer) (b : Block) (supplied : OrdMap CommitRef Commitment)
      → Edits (r, new_undo r b.height b.hash) (run_block r b supplied).0
  unfolding run_block
  run_block-Edits r b supplied =
      let s1 = mark_expired r b.height (new_undo r b.height b.hash) in
      let s2 = (compact_claimable s1.0 b.height s1.1).0 in
      let s3 = prune_commits s2.0 b.height s2.1 in
      let s4 = admit_evidence supplied s3.0 s3.1 in
      Edits-trans (mark_expired-Edits r b.height _) (
        Edits-trans (compact_claimable-Edits s1.0 b.height s1.1) (
          Edits-trans (prune_commits-Edits s2.0 b.height s2.1) (
            Edits-trans (admit_evidence-Edits supplied s3.0 s3.1)
              (apply_transactions-Edits b.height b.transactions s4.0 s4.1))))
