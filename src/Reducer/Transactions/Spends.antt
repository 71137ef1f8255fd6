-- ===== src/Reducer/Transactions/Spends.antt =====
-- The terminations of a transaction, head by head.
use coppice_names.Prelude.{
  ℕ, ◌≡◌, ◌∙◌, refl, ap, false, ◌||◌, ◌&&◌, Bool, not, Option, none, some, is_some, is_some_and,
  List, [], ◌∷◌, arith, if◌then◌else◌, Option-cases, inl, inr,
}
use coppice_names.Collections.Order.{same, nat_ord, list_ord, eq_of_same}
use coppice_names.Collections.OrdMap.{get, keys, set_of}
use coppice_names.Collections.OrdMap.Lookup.{mem, contains-set_of}
use coppice_names.Collections.Index.{holds, bucket}
use coppice_names.Collections.Index.Range.{mem-append, mem-keys}
use coppice_names.Protocol.{NameId, StateRef, Primitives, state_ref_ord}
use coppice_names.Reducer.State.{Action, Transaction, Head, Undo, Reducer}
use coppice_names.Reducer.Records.Reads.{get-replace_head}
use coppice_names.Reducer.Indexes.{HeadsIndexed}
use coppice_names.Reducer.Maintenance.{with_producers}
use coppice_names.Reducer.Transactions.{
  spent_ids, spent_heads, terminate_head, terminate_heads, apply_operation,
  apply_transaction_detailed,
}

-- what a spend of the head that a producer made leaves of a head
abbrev pub ended_if : ℕ → StateRef → Option Head → Option Head
ended_if h producer none = none
ended_if h producer (some head) =
    if same head.producer producer && not (is_some head.terminal_height)
    then some (record head { terminal_height = some h })
    else some head

abbrev spend : ℕ → List (NameId × StateRef) → NameId → Option Head → Option Head
spend h [] j o = o
spend h ((id, producer) ∷ rest) j o =
    spend h rest j (if same id j then ended_if h producer o else o)

get-terminate_head :
    (h : ℕ) (id j : NameId) (producer : StateRef) (head : Head) (r : Reducer) (u : Undo)
    → get id r.heads ≡ some head
    → get j (terminate_head h id producer head r u).0.0.heads
      ≡ (if same id j then ended_if h producer (get j r.heads) else get j r.heads)
unfolding terminate_head
get-terminate_head h id j producer head r u e = ground (
  arith,
  get-replace_head r id j (some (record head { terminal_height = some h })),
  eq_of_same id j,
)

get-terminate_heads :
    (h : ℕ) (l : List (NameId × StateRef)) (r : Reducer) (u : Undo) (j : NameId)
    → get j (terminate_heads h l r u).0.0.heads ≡ spend h l j (get j r.heads)
unfolding terminate_heads
get-terminate_heads h [] r u j = refl
get-terminate_heads h ((id, producer) ∷ l) r u j = elim (Option-cases (get id r.heads)) [
  | inl e ↦
      rw (e, terminate_heads)
        (get-terminate_heads h l r u j ∙ ap (spend h l j) (ground (arith, eq_of_same id j)))
  | inr (head, e) ↦
      let first = terminate_head h id producer head r u in
      rw (e, terminate_heads)
        (get-terminate_heads h l first.0.0 first.0.1 j
          ∙ ap (spend h l j) (get-terminate_head h id j producer head r u e))
]

ended_if_twice :
    (h : ℕ) (producer : StateRef) (o : Option Head)
    → ended_if h producer (ended_if h producer o) ≡ ended_if h producer o
ended_if_twice h producer none = refl
ended_if_twice h producer (some head) = ground arith

spend-with_producers :
    (h : ℕ) (r : Reducer) (ids : List NameId) (j : NameId) (head : Head) (o : Option Head)
    → get j r.heads ≡ some head
    → spend h (with_producers r ids) j o ≡ (if mem j ids then ended_if h head.producer o else o)
unfolding with_producers mem
spend-with_producers h r [] j head o e = refl
spend-with_producers h r (id ∷ ids) j head o e = elim (Option-cases (get id r.heads)) [
  | inl gone ↦
      rw (gone, with_producers)
        (spend-with_producers h r ids j head o e ∙ ground (arith, eq_of_same id j))
  | inr (other, there) ↦
      rw (there, with_producers)
        (spend-with_producers h r ids j head (if same id j then ended_if h other.producer o else o)
            e
          ∙ ground (arith, eq_of_same id j, ended_if_twice h head.producer o))
]

spend_absent :
    (h : ℕ) (r : Reducer) (ids : List NameId) (j : NameId) (o : Option Head)
    → get j r.heads ≡ none
    → spend h (with_producers r ids) j o ≡ o
unfolding with_producers
spend_absent h r [] j o e = refl
spend_absent h r (id ∷ ids) j o e = elim (Option-cases (get id r.heads)) [
  | inl gone ↦ rw (gone, with_producers) (spend_absent h r ids j o e)
  | inr (other, there) ↦
      rw (there, with_producers)
        (spend_absent h r ids j (if same id j then ended_if h other.producer o else o) e
          ∙ ground (arith, eq_of_same id j))
]

-- whether one of the actions spends a head
abbrev pub spends : List Action → Head → Bool
spends [] head = false
spends (action ∷ rest) head = same head.future_nf action.nullifier || spends rest head

mem-spent_ids :
    (r : Reducer) (actions : List Action) (j : NameId)
    → HeadsIndexed r
    → mem j (spent_ids r actions) ≡ is_some_and (get j r.heads) (spends actions)
unfolding spent_ids mem holds
mem-spent_ids r [] j x = elim (Option-cases (get j r.heads)) [
  | inl e ↦ rw e refl
  | inr (head, e) ↦ rw e refl
]
mem-spent_ids r (action ∷ rest) j x = ground (
  arith,
  mem-append j (keys (bucket action.nullifier r.heads_by_future_nf)) (spent_ids r rest),
  mem-keys j (bucket action.nullifier r.heads_by_future_nf),
  x.future_nf_agrees action.nullifier j,
  mem-spent_ids r rest j x,
)

-- what the spends of a transaction leave of a head: `before` is the head before the operation
abbrev pub after_spends : ℕ → List Action → Option Head → Option Head → Option Head
after_spends h actions none o = o
after_spends h actions (some head) o = if spends actions head then ended_if h head.producer o else o

module _ ⦃prims : Primitives⦄ where
  -- After a transaction on a consistent reducer, a head is what the operation left of it, made
  -- terminal if one of the actions spends the head that stood there before the operation, that
  -- head is still in place, and it is not terminal yet: a head that is terminal keeps its height.
  pub get-apply_transaction :
      (r : Reducer) (h : ℕ) (tx : Transaction) (u : Undo) (j : NameId)
      → HeadsIndexed r
      → get j (apply_transaction_detailed r h tx u).0.0.heads
        ≡ after_spends h tx.actions
            (get j r.heads)
            (get j (apply_operation r h tx u tx.operation).0.0.heads)
  unfolding apply_transaction_detailed spent_heads
  get-apply_transaction r h tx u j x =
      let first = apply_operation r h tx u tx.operation in
      let ids = keys (set_of (spent_ids r tx.actions)) in
      let listed : mem j ids ≡ is_some_and (get j r.heads) (spends tx.actions) =
        mem-keys j (set_of (spent_ids r tx.actions))
        ∙ contains-set_of j (spent_ids r tx.actions)
        ∙ mem-spent_ids r tx.actions j x in
      get-terminate_heads h (with_producers r ids) first.0.0 first.0.1 j
      ∙ elim (Option-cases (get j r.heads)) [
        | inl e ↦ spend_absent h r ids j _ e ∙ ground arith
        | inr (head, e) ↦ spend-with_producers h r ids j head _ e ∙ ground arith
      ]
