-- ===== src/Resolver/Follows.antt =====
-- A resolver that follows a complete reducer has the same head for its name.
use coppice_names.Prelude.{
  ℕ, ◌≡◌, ◌∙◌, refl, sym, ap, true, false, Option, none, some, Result, ok, err, arith,
  if◌then◌else◌, is_ok_and, Bool-cases, inl, inr,
}
use coppice_names.Collections.Order.{same, nat_ord, list_ord, eq_of_same}
use coppice_names.Collections.OrdMap.{get, contains}
use coppice_names.Protocol.{
  Bytes, NameId, Commitment, CommitRef, Primitives, commit_ref_ord, name_id,
}
use coppice_names.Operation.{Operation, Reveal, Refresh}
use coppice_names.Reducer.State.{
  Transaction, Head, Undo, Reducer, Accepted, ClauseId, reveal_accept, refresh_accept,
}
use coppice_names.Reducer.Records.{replace_head, replace_commit}
use coppice_names.Reducer.Records.Reads.{
  get-replace_head, get-replace_commit, heads-replace_commit, commits-replace_head,
  replace_head-SameFrame, replace_commit-SameFrame,
}
use coppice_names.Reducer.Transactions.{check_reveal, check_refresh, settle, apply_operation}
use coppice_names.Resolver.Filter.{is_relevant, filter_transaction}

-- the two reducers cannot be told apart by what concerns the name
pub record Follows (id : NameId) (r e : Reducer) : Type 0 where
  pub parameters : e.parameters ≡ r.parameters
  pub verifier : e.verifier ≡ r.verifier
  pub commits : (c : CommitRef) → get c e.commits ≡ get c r.commits
  pub head : get id e.heads ≡ get id r.heads

module _ ⦃prims : Primitives⦄ (id : NameId) where
  check_reveal-Follows :
      (r e : Reducer) (h : ℕ) (tx : Transaction) (op : Reveal)
      → Follows id r e
      → name_id op.name ≡ ok id
      → check_reveal e h (filter_transaction id tx) op ≡ check_reveal r h tx op
  unfolding check_reveal contains filter_transaction
  check_reveal-Follows r e h tx op f named =
      rw (named, f.parameters, f.verifier, f.head, f.commits op.commit) refl

  check_refresh-Follows :
      (r e : Reducer) (h : ℕ) (tx : Transaction) (op : Refresh)
      → Follows id r e
      → name_id op.name ≡ ok id
      → check_refresh e h (filter_transaction id tx) op ≡ check_refresh r h tx op
  unfolding check_refresh filter_transaction
  check_refresh-Follows r e h tx op f named = rw (named, f.parameters, f.verifier, f.head) refl

  check_reveal-name :
      (r : Reducer) (h : ℕ) (tx : Transaction) (op : Reveal) (i : NameId) (head : Head)
      → check_reveal r h tx op ≡ ok (i, head)
      → name_id op.name ≡ ok i
  unfolding check_reveal
  check_reveal-name r h tx op i head e = ground arith

  check_refresh-name :
      (r : Reducer) (h : ℕ) (tx : Transaction) (op : Refresh) (i : NameId) (head : Head)
      → check_refresh r h tx op ≡ ok (i, head)
      → name_id op.name ≡ ok i
  unfolding check_refresh
  check_refresh-name r h tx op i head e = ground arith

  replace_head-Follows :
      (r e : Reducer) (i : NameId) (v : Option Head)
      → Follows id r e
      → Follows id (replace_head r i v) (replace_head e i v)
  replace_head-Follows r e i v f = record {
    parameters =
        (replace_head-SameFrame e i v).parameters
        ∙ f.parameters
        ∙ sym (replace_head-SameFrame r i v).parameters;
    verifier =
        (replace_head-SameFrame e i v).verifier
        ∙ f.verifier
        ∙ sym (replace_head-SameFrame r i v).verifier;
    commits = λ c. rw (commits-replace_head e i v, commits-replace_head r i v) (f.commits c);
    head = rw (get-replace_head e i id v, get-replace_head r i id v, f.head) refl;
  }

  replace_other-Follows :
      (r e : Reducer) (i : NameId) (v : Option Head)
      → same i id ≡ false
      → Follows id r e
      → Follows id (replace_head r i v) e
  replace_other-Follows r e i v miss f = record {
    parameters = f.parameters ∙ sym (replace_head-SameFrame r i v).parameters;
    verifier = f.verifier ∙ sym (replace_head-SameFrame r i v).verifier;
    commits = λ c. rw (commits-replace_head r i v) (f.commits c);
    head = ground (arith, get-replace_head r i id v, f.head);
  }

  replace_commit-Follows :
      (r e : Reducer) (c : CommitRef) (v : Option Commitment)
      → Follows id r e
      → Follows id (replace_commit r c v) (replace_commit e c v)
  replace_commit-Follows r e c v f = record {
    parameters =
        (replace_commit-SameFrame e c v).parameters
        ∙ f.parameters
        ∙ sym (replace_commit-SameFrame r c v).parameters;
    verifier =
        (replace_commit-SameFrame e c v).verifier
        ∙ f.verifier
        ∙ sym (replace_commit-SameFrame r c v).verifier;
    commits = λ d. rw (get-replace_commit e c d v, get-replace_commit r c d v, f.commits d) refl;
    head = rw (heads-replace_commit e c v, heads-replace_commit r c v) f.head;
  }

  settle-Follows :
      (r e : Reducer) (kind : Accepted) (clause : ClauseId) (u w : Undo)
      (checked : Result ClauseId (NameId × Head))
      → Follows id r e
      → Follows id (settle kind clause r u checked).0.0 (settle kind clause e w checked).0.0
  unfolding settle
  settle-Follows r e kind clause u w (ok (i, head)) f = replace_head-Follows r e i (some head) f
  settle-Follows r e kind clause u w (err refusal) f = f

  settle_other-Follows :
      (r e : Reducer) (kind : Accepted) (clause : ClauseId) (u : Undo)
      (checked : Result ClauseId (NameId × Head))
      → ((i : NameId) (head : Head) → checked ≡ ok (i, head) → same i id ≡ false)
      → Follows id r e
      → Follows id (settle kind clause r u checked).0.0 e
  unfolding settle
  settle_other-Follows r e kind clause u (ok (i, head)) other f =
      replace_other-Follows r e i (some head) (other i head refl) f
  settle_other-Follows r e kind clause u (err refusal) other f = f

  named_of_relevant :
      (name : Bytes) → is_ok_and (name_id name) (λ n. same n id) ≡ true → name_id name ≡ ok id
  named_of_relevant name h =
      elim (name_id name) as (λ o. is_ok_and o (λ n. same n id) ≡ true → o ≡ ok id) [
        | ok n ↦ (λ e. ap (ok) (eq_of_same n id e))
        | err e ↦ (λ e. ground arith)
      ]
        h

  other_of_irrelevant :
      (name : Bytes) (i : NameId)
      → is_ok_and (name_id name) (λ n. same n id) ≡ false
      → name_id name ≡ ok i
      → same i id ≡ false
  other_of_irrelevant name i h e = ground arith

  -- the operation that the filter lets through
  abbrev let_through : Option Operation → Option Operation
  let_through op = if is_relevant id op then op else none

  pub operation-Follows :
      (r e : Reducer) (h : ℕ) (tx : Transaction) (u w : Undo) (op : Option Operation)
      → Follows id r e
      → Follows id
          (apply_operation r h tx u op).0.0
          (apply_operation e h (filter_transaction id tx) w (let_through op)).0.0
  unfolding apply_operation is_relevant filter_transaction
  operation-Follows r e h tx u w none f = f
  operation-Follows r e h tx u w (some (Operation.commit v)) f =
      replace_commit-Follows r e _ (some v) f
  operation-Follows r e h tx u w (some (Operation.reveal op)) f =
      elim (Bool-cases (is_ok_and (name_id op.name) (λ n. same n id))) [
        | inl relevant ↦
            rw
              (
                relevant,
                apply_operation,
                check_reveal-Follows r e h tx op f (named_of_relevant op.name relevant),
              )
              (settle-Follows r e Accepted.reveal reveal_accept u w (check_reveal r h tx op) f)
        | inr irrelevant ↦
            rw (irrelevant, apply_operation)
              (settle_other-Follows r e Accepted.reveal reveal_accept u (check_reveal r h tx op)
                (λ i head c.
                  other_of_irrelevant op.name i irrelevant (check_reveal-name r h tx op i head c))
                f)
      ]
  operation-Follows r e h tx u w (some (Operation.refresh op)) f =
      elim (Bool-cases (is_ok_and (name_id op.name) (λ n. same n id))) [
        | inl relevant ↦
            rw
              (
                relevant,
                apply_operation,
                check_refresh-Follows r e h tx op f (named_of_relevant op.name relevant),
              )
              (settle-Follows r e Accepted.refresh refresh_accept u w (check_refresh r h tx op) f)
        | inr irrelevant ↦
            rw (irrelevant, apply_operation)
              (settle_other-Follows r e Accepted.refresh refresh_accept u (check_refresh r h tx op)
                (λ i head c.
                  other_of_irrelevant op.name i irrelevant (check_refresh-name r h tx op i head c))
                f)
      ]
