-- ===== src/Reducer/Edits/Keeps.antt =====
-- What every edit keeps: the untouched fields, the indexes, and a journal that is true.
use coppice_names.Prelude.{ℕ, ◌≡◌, refl, Option, none, some, arith, if◌then◌else◌, List, ◌∙◌}
use coppice_names.Collections.Order.{same, nat_ord, list_ord, eq_of_same}
use coppice_names.Collections.OrdMap.{get, contains}
use coppice_names.Collections.OrdMap.Lookup.{get-insert}
use coppice_names.Collections.OrdMap.Ascending.{IsAscending, insert-IsAscending}
use coppice_names.Protocol.{NameId, Commitment, CommitRef, commit_ref_ord}
use coppice_names.Reducer.State.{Head, Undo, Reducer}
use coppice_names.Reducer.Records.{
  replace_commit, replace_head, remember_commit, remember_head, new_undo,
}
use coppice_names.Reducer.Records.Reads.{
  SameFrame, SameFrame-refl, SameFrame-trans, replace_head-SameFrame, replace_commit-SameFrame,
  heads-replace_commit, commits-replace_head, get-replace_head, get-replace_commit,
}
use coppice_names.Reducer.Indexes.{HeadsIndexed, CommitsIndexed, IsIndexed}
use coppice_names.Reducer.Indexes.Heads.{replace_head-HeadsIndexed}
use coppice_names.Reducer.Indexes.Commits.{replace_commit-CommitsIndexed}
use coppice_names.Reducer.Maintenance.{Journaled}
use coppice_names.Reducer.Edits.{
  Edit, Edits, replaces_head, keeps_head, replaces_commit, Edits-keep,
}

commits_by_height-replace_head :
    (r : Reducer) (id : NameId) (v : Option Head)
    → (replace_head r id v).commits_by_height ≡ r.commits_by_height
unfolding replace_head
commits_by_height-replace_head r id v = ground arith

CommitsIndexed-replace_head :
    (r : Reducer) (id : NameId) (v : Option Head)
    → CommitsIndexed r
    → CommitsIndexed (replace_head r id v)
CommitsIndexed-replace_head r id v x = record {
  commits_ascending = rw commits-replace_head x.commits_ascending;
  height_tidy = rw commits_by_height-replace_head x.height_tidy;
  height_agrees =
      λ h c. rw (commits_by_height-replace_head, commits-replace_head) (x.height_agrees h c);
}

-- the indexes of heads are none of `replace_commit`'s business
head_indexes-replace_commit :
    (r : Reducer) (c : CommitRef) (v : Option Commitment)
    → ((replace_commit r c v).heads_by_future_nf ≡ r.heads_by_future_nf)
      × ((replace_commit r c v).active_heads_by_expiry ≡ r.active_heads_by_expiry)
      × ((replace_commit r c v).terminal_heads_by_height ≡ r.terminal_heads_by_height)
unfolding replace_commit
head_indexes-replace_commit r c v = ground arith

HeadsIndexed-replace_commit :
    (r : Reducer) (c : CommitRef) (v : Option Commitment)
    → HeadsIndexed r
    → HeadsIndexed (replace_commit r c v)
HeadsIndexed-replace_commit r c v x =
    let kept = head_indexes-replace_commit r c v in
    let heads = heads-replace_commit r c v in
    record {
      heads_ascending = rw heads x.heads_ascending;
      future_nf_tidy = rw kept.0 x.future_nf_tidy;
      active_tidy = rw kept.1 x.active_tidy;
      terminal_tidy = rw kept.2 x.terminal_tidy;
      future_nf_agrees = λ nf id. rw (kept.0, heads) (x.future_nf_agrees nf id);
      active_agrees = λ e id. rw (kept.1, heads) (x.active_agrees e id);
      terminal_agrees = λ t id. rw (kept.2, heads) (x.terminal_agrees t id);
    }

pub replace_head-IsIndexed :
    (r : Reducer) (id : NameId) (v : Option Head) → IsIndexed r → IsIndexed (replace_head r id v)
replace_head-IsIndexed r id v x = record {
  of_heads = replace_head-HeadsIndexed r id v x.of_heads;
  of_commits = CommitsIndexed-replace_head r id v x.of_commits;
}

pub replace_commit-IsIndexed :
    (r : Reducer) (c : CommitRef) (v : Option Commitment)
    → IsIndexed r
    → IsIndexed (replace_commit r c v)
replace_commit-IsIndexed r c v x = record {
  of_heads = HeadsIndexed-replace_commit r c v x.of_heads;
  of_commits = replace_commit-CommitsIndexed r c v x.of_commits;
}

Edit-IsIndexed : (s t : Journaled) → Edit s t → IsIndexed s.0 → IsIndexed t.0
Edit-IsIndexed _ _ (replaces_head r u id v) x = replace_head-IsIndexed r id v x
Edit-IsIndexed _ _ (keeps_head r u id) x = x
Edit-IsIndexed _ _ (replaces_commit r u c v) x = replace_commit-IsIndexed r c v x

-- Edits keep the indexes in agreement with the records.
pub Edits-IsIndexed : {s t : Journaled} → Edits s t → IsIndexed s.0 → IsIndexed t.0
Edits-IsIndexed = Edits-keep (λ s. IsIndexed s.0) Edit-IsIndexed

-- what a journal says of an entry: the remembered value, or else the current one
abbrev pub before_of {ℓ} : {A : Type ℓ} → Option (Option A) → Option A → Option A
before_of none current = current
before_of (some previous) current = previous

-- the fields of a journal that are fixed when the block begins
pub record SameOrigin (u w : Undo) : Type 0 where
  pub height : w.height ≡ u.height
  pub hash : w.hash ≡ u.hash
  pub previous_hash : w.previous_hash ≡ u.previous_hash
  pub previous_next_height : w.previous_next_height ≡ u.previous_next_height
  pub previous_tip_height : w.previous_tip_height ≡ u.previous_tip_height

-- The journal `u` leads from `r` back to the records of `base`.
pub record IsJournal (base : Reducer) (first : Undo) (s : Journaled) : Type 0 where
  pub heads_ascending : IsAscending s.1.heads
  pub commits_ascending : IsAscending s.1.commits
  pub heads_before :
      (id : NameId) → before_of (get id s.1.heads) (get id s.0.heads) ≡ get id base.heads
  pub commits_before :
      (c : CommitRef) → before_of (get c s.1.commits) (get c s.0.commits) ≡ get c base.commits
  pub frame : SameFrame base s.0
  pub origin : SameOrigin first s.1

remember_head-IsAscending :
    (r : Reducer) (u : Undo) (id : NameId)
    → IsAscending u.heads
    → IsAscending (remember_head r u id).heads
unfolding remember_head
remember_head-IsAscending r u id a =
    ground (arith, insert-IsAscending id (get id r.heads) u.heads a)

remember_commit-IsAscending :
    (r : Reducer) (u : Undo) (c : CommitRef)
    → IsAscending u.commits
    → IsAscending (remember_commit r u c).commits
unfolding remember_commit
remember_commit-IsAscending r u c a =
    ground (arith, insert-IsAscending c (get c r.commits) u.commits a)

-- remembering a head, and then anything at all in its place
heads_before-remember :
    (r : Reducer) (u : Undo) (id j : NameId) (v : Option Head)
    → before_of (get j (remember_head r u id).heads) (if same id j then v else get j r.heads)
      ≡ before_of (get j u.heads) (get j r.heads)
unfolding remember_head contains
heads_before-remember r u id j v =
    ground (arith, get-insert id j (get id r.heads) u.heads, eq_of_same id j)

commits_before-remember :
    (r : Reducer) (u : Undo) (c j : CommitRef) (v : Option Commitment)
    → before_of (get j (remember_commit r u c).commits) (if same c j then v else get j r.commits)
      ≡ before_of (get j u.commits) (get j r.commits)
unfolding remember_commit contains
commits_before-remember r u c j v =
    ground (arith, get-insert c j (get c r.commits) u.commits, eq_of_same c j)

heads_before-keep :
    (r : Reducer) (u : Undo) (id j : NameId)
    → before_of (get j (remember_head r u id).heads) (get j r.heads)
      ≡ before_of (get j u.heads) (get j r.heads)
unfolding remember_head contains
heads_before-keep r u id j =
    ground (arith, get-insert id j (get id r.heads) u.heads, eq_of_same id j)

remember_head-commits :
    (r : Reducer) (u : Undo) (id : NameId) → (remember_head r u id).commits ≡ u.commits
unfolding remember_head
remember_head-commits r u id = ground arith

remember_commit-heads :
    (r : Reducer) (u : Undo) (c : CommitRef) → (remember_commit r u c).heads ≡ u.heads
unfolding remember_commit
remember_commit-heads r u c = ground arith

remember_head-SameOrigin :
    (first : Undo) (r : Reducer) (u : Undo) (id : NameId)
    → SameOrigin first u
    → SameOrigin first (remember_head r u id)
unfolding remember_head
remember_head-SameOrigin first r u id o = ground arith

remember_commit-SameOrigin :
    (first : Undo) (r : Reducer) (u : Undo) (c : CommitRef)
    → SameOrigin first u
    → SameOrigin first (remember_commit r u c)
unfolding remember_commit
remember_commit-SameOrigin first r u c o = ground arith

module _ (base : Reducer) (first : Undo) where
  Edit-IsJournal : (s t : Journaled) → Edit s t → IsJournal base first s → IsJournal base first t
  Edit-IsJournal _ _ (replaces_head r u id v) x = record {
    heads_ascending = remember_head-IsAscending r u id x.heads_ascending;
    commits_ascending = rw remember_head-commits x.commits_ascending;
    heads_before = λ j. rw get-replace_head (heads_before-remember r u id j v ∙ x.heads_before j);
    commits_before = λ c. rw (remember_head-commits, commits-replace_head) (x.commits_before c);
    frame = SameFrame-trans x.frame (replace_head-SameFrame r id v);
    origin = remember_head-SameOrigin first r u id x.origin;
  }
  Edit-IsJournal _ _ (keeps_head r u id) x = record {
    heads_ascending = remember_head-IsAscending r u id x.heads_ascending;
    commits_ascending = rw remember_head-commits x.commits_ascending;
    heads_before = λ j. heads_before-keep r u id j ∙ x.heads_before j;
    commits_before = λ c. rw remember_head-commits (x.commits_before c);
    frame = x.frame;
    origin = remember_head-SameOrigin first r u id x.origin;
  }
  Edit-IsJournal _ _ (replaces_commit r u c v) x = record {
    heads_ascending = rw remember_commit-heads x.heads_ascending;
    commits_ascending = remember_commit-IsAscending r u c x.commits_ascending;
    heads_before = λ j. rw (remember_commit-heads, heads-replace_commit) (x.heads_before j);
    commits_before =
        λ j. rw get-replace_commit (commits_before-remember r u c j v ∙ x.commits_before j);
    frame = SameFrame-trans x.frame (replace_commit-SameFrame r c v);
    origin = remember_commit-SameOrigin first r u c x.origin;
  }

  -- Edits keep the journal true.
  pub Edits-IsJournal :
      {s t : Journaled} → Edits s t → IsJournal base first s → IsJournal base first t
  Edits-IsJournal = Edits-keep (IsJournal base first) Edit-IsJournal

-- the empty journal is true
pub new_undo-IsJournal :
    (r : Reducer) (h : ℕ) (hash : List ℕ) → IsJournal r (new_undo r h hash) (r, new_undo r h hash)
unfolding new_undo get
new_undo-IsJournal r h hash = record {
  heads_ascending = tt;
  commits_ascending = tt;
  heads_before = λ j. refl;
  commits_before = λ j. refl;
  frame = SameFrame-refl r;
  origin = ground arith;
}
