-- ===== src/Reducer/Rollback/Restore.antt =====
-- What restoring a journal does to the records.
use coppice_names.Prelude.{◌≡◌, refl, ◌∙◌, Option, some, List, [], ◌∷◌, ◌++◌, arith, last?}
use coppice_names.Collections.Order.{nat_ord, list_ord, eq_of_same}
use coppice_names.Collections.OrdMap.{OrdMap, get}
use coppice_names.Collections.OrdMap.Ascending.{IsAscending, get-Above}
use coppice_names.Protocol.{NameId, Commitment, CommitRef, commit_ref_ord}
use coppice_names.Reducer.State.{Head, Undo, Reducer}
use coppice_names.Reducer.Records.{replace_head, replace_commit}
use coppice_names.Reducer.Records.Reads.{
  SameFrame, SameFrame-refl, SameFrame-trans, replace_head-SameFrame, replace_commit-SameFrame,
  heads-replace_commit, commits-replace_head, get-replace_head, get-replace_commit,
}
use coppice_names.Reducer.Indexes.{IsIndexed}
use coppice_names.Reducer.Edits.Keeps.{before_of, replace_head-IsIndexed, replace_commit-IsIndexed}
use coppice_names.Reducer.Rollback.{restore_heads, restore_commits, drop_last}

pub get-restore_heads :
    (m : OrdMap NameId (Option Head)) (r : Reducer) (j : NameId)
    → IsAscending m
    → get j (restore_heads m r).heads ≡ before_of (get j m) (get j r.heads)
unfolding restore_heads get
get-restore_heads [] r j a = refl
get-restore_heads ((id, v) ∷ m) r j a = ground (
  arith,
  get-restore_heads m (replace_head r id v) j a.1,
  get-replace_head r id j v,
  eq_of_same id j,
  get-Above id m a.0,
)

pub get-restore_commits :
    (m : OrdMap CommitRef (Option Commitment)) (r : Reducer) (j : CommitRef)
    → IsAscending m
    → get j (restore_commits m r).commits ≡ before_of (get j m) (get j r.commits)
unfolding restore_commits get
get-restore_commits [] r j a = refl
get-restore_commits ((c, v) ∷ m) r j a = ground (
  arith,
  get-restore_commits m (replace_commit r c v) j a.1,
  get-replace_commit r c j v,
  eq_of_same c j,
  get-Above c m a.0,
)

-- what restoring one kind of record leaves alone
pub commits-restore_heads :
    (m : OrdMap NameId (Option Head)) (r : Reducer) → (restore_heads m r).commits ≡ r.commits
unfolding restore_heads
commits-restore_heads [] r = refl
commits-restore_heads ((id, v) ∷ m) r =
    commits-restore_heads m (replace_head r id v) ∙ commits-replace_head r id v

pub heads-restore_commits :
    (m : OrdMap CommitRef (Option Commitment)) (r : Reducer) → (restore_commits m r).heads ≡ r.heads
unfolding restore_commits
heads-restore_commits [] r = refl
heads-restore_commits ((c, v) ∷ m) r =
    heads-restore_commits m (replace_commit r c v) ∙ heads-replace_commit r c v

pub restore_heads-SameFrame :
    (m : OrdMap NameId (Option Head)) (r : Reducer) → SameFrame r (restore_heads m r)
unfolding restore_heads
restore_heads-SameFrame [] r = SameFrame-refl r
restore_heads-SameFrame ((id, v) ∷ m) r =
    SameFrame-trans (replace_head-SameFrame r id v)
      (restore_heads-SameFrame m (replace_head r id v))

pub restore_commits-SameFrame :
    (m : OrdMap CommitRef (Option Commitment)) (r : Reducer) → SameFrame r (restore_commits m r)
unfolding restore_commits
restore_commits-SameFrame [] r = SameFrame-refl r
restore_commits-SameFrame ((c, v) ∷ m) r =
    SameFrame-trans (replace_commit-SameFrame r c v)
      (restore_commits-SameFrame m (replace_commit r c v))

pub restore_heads-IsIndexed :
    (m : OrdMap NameId (Option Head)) (r : Reducer) → IsIndexed r → IsIndexed (restore_heads m r)
unfolding restore_heads
restore_heads-IsIndexed [] r x = x
restore_heads-IsIndexed ((id, v) ∷ m) r x =
    restore_heads-IsIndexed m (replace_head r id v) (replace_head-IsIndexed r id v x)

pub restore_commits-IsIndexed :
    (m : OrdMap CommitRef (Option Commitment)) (r : Reducer)
    → IsIndexed r
    → IsIndexed (restore_commits m r)
unfolding restore_commits
restore_commits-IsIndexed [] r x = x
restore_commits-IsIndexed ((c, v) ∷ m) r x =
    restore_commits-IsIndexed m (replace_commit r c v) (replace_commit-IsIndexed r c v x)

-- the newest journal is the one pushed last
pub last?-push : (h : List Undo) (u : Undo) → last? (h ++ u ∷ []) ≡ some u
last?-push [] u = refl
last?-push (v ∷ []) u = refl
last?-push (v ∷ w ∷ h) u = last?-push (w ∷ h) u

pub drop_last-push : (h : List Undo) (u : Undo) → drop_last (h ++ u ∷ []) ≡ h
unfolding drop_last
drop_last-push [] u = refl
drop_last-push (v ∷ []) u = refl
drop_last-push (v ∷ w ∷ h) u = rw (drop_last-push (w ∷ h) u)
