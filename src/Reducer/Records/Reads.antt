-- ===== src/Reducer/Records/Reads.antt =====
-- What the records read after a replacement, and what a replacement leaves alone.
use coppice_names.Prelude.{◌≡◌, Option, none, some, arith, if◌then◌else◌}
use coppice_names.Collections.Order.{same, nat_ord, list_ord, eq_of_same}
use coppice_names.Collections.OrdMap.{get}
use coppice_names.Collections.OrdMap.Lookup.{get-insert, get-remove}
use coppice_names.Protocol.{NameId, Commitment, CommitRef, commit_ref_ord}
use coppice_names.Reducer.State.{Head, Reducer}
use coppice_names.Reducer.Records.{drop_commit, replace_commit, drop_head, replace_head}

module _ (r : Reducer) (id j : NameId) where
  pub get-drop_head : get j (drop_head r id).heads ≡ (if same id j then none else get j r.heads)
  unfolding drop_head
  get-drop_head = ground (arith, get-remove id j r.heads, eq_of_same id j)

  pub get-replace_head :
      (v : Option Head)
      → get j (replace_head r id v).heads ≡ (if same id j then v else get j r.heads)
  unfolding replace_head
  get-replace_head none = get-drop_head
  get-replace_head (some v) =
      ground (arith, get-drop_head, get-insert id j v (drop_head r id).heads)

module _ (r : Reducer) (c j : CommitRef) where
  get-drop_commit : get j (drop_commit r c).commits ≡ (if same c j then none else get j r.commits)
  unfolding drop_commit
  get-drop_commit = ground (arith, get-remove c j r.commits, eq_of_same c j)

  pub get-replace_commit :
      (v : Option Commitment)
      → get j (replace_commit r c v).commits ≡ (if same c j then v else get j r.commits)
  unfolding replace_commit
  get-replace_commit none = get-drop_commit
  get-replace_commit (some v) =
      ground (arith, get-drop_commit, get-insert c j v (drop_commit r c).commits)

-- the fields that no replacement touches
pub record SameFrame (r s : Reducer) : Type 0 where
  pub parameters : s.parameters ≡ r.parameters
  pub verifier : s.verifier ≡ r.verifier
  pub next_height : s.next_height ≡ r.next_height
  pub tip_height : s.tip_height ≡ r.tip_height
  pub previous_hash : s.previous_hash ≡ r.previous_hash
  pub history : s.history ≡ r.history

pub SameFrame-refl : (r : Reducer) → SameFrame r r
SameFrame-refl r = ground arith

pub SameFrame-trans : {r s t : Reducer} → SameFrame r s → SameFrame s t → SameFrame r t
SameFrame-trans f g = ground arith

module _ (r : Reducer) where
  pub replace_head-SameFrame : (id : NameId) (v : Option Head) → SameFrame r (replace_head r id v)
  unfolding replace_head
  replace_head-SameFrame id v = ground arith

  pub replace_commit-SameFrame :
      (c : CommitRef) (v : Option Commitment) → SameFrame r (replace_commit r c v)
  unfolding replace_commit
  replace_commit-SameFrame c v = ground arith

  pub heads-replace_commit :
      (c : CommitRef) (v : Option Commitment) → (replace_commit r c v).heads ≡ r.heads
  unfolding replace_commit
  heads-replace_commit c v = ground arith

  pub commits-replace_head :
      (id : NameId) (v : Option Head) → (replace_head r id v).commits ≡ r.commits
  unfolding replace_head
  commits-replace_head id v = ground arith
