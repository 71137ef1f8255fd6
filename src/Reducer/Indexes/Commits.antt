-- ===== src/Reducer/Indexes/Commits.antt =====
-- `replace_commit` keeps the COMMIT index in agreement with the COMMITs.
use coppice_names.Prelude.{◌≡◌, Option, none, some, arith, Option-cases, inl, inr}
use coppice_names.Collections.Order.{nat_ord, eq_of_same}
use coppice_names.Collections.OrdMap.{get, contains}
use coppice_names.Collections.OrdMap.Lookup.{get-insert, get-remove}
use coppice_names.Collections.OrdMap.Ascending.{insert-IsAscending, remove-IsAscending}
use coppice_names.Collections.Index.Laws.{holds-add, holds-remove, add-IsTidy, remove_entry-IsTidy}
use coppice_names.Protocol.{Commitment, CommitRef, commit_ref_ord}
use coppice_names.Reducer.State.{Reducer}
use coppice_names.Reducer.Records.{drop_commit, store_commit, replace_commit}
use coppice_names.Reducer.Indexes.{CommitsIndexed}

drop_present-CommitsIndexed :
    (r : Reducer) (c : CommitRef) {v : Commitment}
    → CommitsIndexed r
    → get c r.commits ≡ some v
    → CommitsIndexed (drop_commit r c)
unfolding drop_commit contains
drop_present-CommitsIndexed r c x e =
    rw (e, drop_commit)
      (record {
        commits_ascending = remove-IsAscending c r.commits x.commits_ascending;
        height_tidy = remove_entry-IsTidy r.commits_by_height c.height c x.height_tidy;
        height_agrees = λ h d. ground (
          arith,
          holds-remove r.commits_by_height c.height h c d,
          x.height_agrees h d,
          get-remove c d r.commits,
          eq_of_same c d,
        );
      })

drop_commit-CommitsIndexed :
    (r : Reducer) (c : CommitRef) → CommitsIndexed r → CommitsIndexed (drop_commit r c)
unfolding drop_commit
drop_commit-CommitsIndexed r c x = elim (Option-cases (get c r.commits)) [
  | inl e ↦ rw (e, drop_commit) x
  | inr (v, e) ↦ drop_present-CommitsIndexed r c x e
]

store_commit-CommitsIndexed :
    (r : Reducer) (c : CommitRef) (v : Option Commitment)
    → CommitsIndexed r
    → CommitsIndexed (store_commit r c v)
unfolding store_commit contains
store_commit-CommitsIndexed r c none x = x
store_commit-CommitsIndexed r c (some v) x = record {
  commits_ascending = insert-IsAscending c v r.commits x.commits_ascending;
  height_tidy = add-IsTidy r.commits_by_height c.height c x.height_tidy;
  height_agrees = λ h d. ground (
    arith,
    holds-add r.commits_by_height c.height h c d,
    x.height_agrees h d,
    get-insert c d v r.commits,
    eq_of_same c d,
  );
}

pub replace_commit-CommitsIndexed :
    (r : Reducer) (c : CommitRef) (v : Option Commitment)
    → CommitsIndexed r
    → CommitsIndexed (replace_commit r c v)
unfolding replace_commit
replace_commit-CommitsIndexed r c v x =
    store_commit-CommitsIndexed (drop_commit r c) c v (drop_commit-CommitsIndexed r c x)
