-- ===== src/Snapshot/Rebuild/Agrees.antt =====
-- The rebuilt indexes agree with the records.
use coppice_names.Prelude.{ℕ, ◌≡◌, refl, false, ◌&&◌, ◌||◌, [], ◌∷◌, arith, is_some_and}
use coppice_names.Collections.Order.{same, nat_ord, list_ord, eq_of_same}
use coppice_names.Collections.OrdMap.{OrdMap, get, contains}
use coppice_names.Collections.OrdMap.Ascending.{IsAscending, get-Above}
use coppice_names.Collections.Index.{Index, holds, bucket, add_index_entry}
use coppice_names.Collections.Index.Laws.{IsTidy, nil-IsTidy, add-IsTidy, holds-add}
use coppice_names.Protocol.{Bytes, NameId, Commitment, CommitRef, commit_ref_ord}
use coppice_names.Reducer.State.{Head, Reducer}
use coppice_names.Reducer.Indexes.{
  HeadsIndexed, CommitsIndexed, IsIndexed, spent_by, expires_at, ends_at,
}
use coppice_names.Reducer.Indexes.Heads.{
  index_terminal-IsTidy, index_active-IsTidy, holds-index_terminal,
}
use coppice_names.Snapshot.Rebuild.{index_commits, index_head, index_heads, rebuild_derived_indexes}

holds-index_commits :
    (m : OrdMap CommitRef Commitment) (index : Index ℕ CommitRef) (h : ℕ) (c : CommitRef)
    → holds h c (index_commits m index) ≡ (same c.height h && contains c m || holds h c index)
unfolding index_commits contains get
holds-index_commits [] index h c = ground arith
holds-index_commits ((d, v) ∷ m) index h c = ground (
  arith,
  holds-index_commits m (add_index_entry index d.height d) h c,
  holds-add index d.height h d c,
  eq_of_same d c,
)

index_commits-IsTidy :
    (m : OrdMap CommitRef Commitment) (index : Index ℕ CommitRef)
    → IsTidy index
    → IsTidy (index_commits m index)
unfolding index_commits
index_commits-IsTidy [] index t = t
index_commits-IsTidy ((d, v) ∷ m) index t = index_commits-IsTidy m _ (add-IsTidy index d.height d t)

-- the loop leaves everything but the three indexes of heads
index_heads-frame :
    (m : OrdMap NameId Head) (r : Reducer)
    → ((index_heads m r).heads ≡ r.heads)
      × ((index_heads m r).commits ≡ r.commits)
      × ((index_heads m r).commits_by_height ≡ r.commits_by_height)
unfolding index_heads index_head
index_heads-frame [] r = (refl, refl, refl)
index_heads-frame ((id, head) ∷ m) r = index_heads-frame m (index_head r id head)

future_nf-index_heads :
    (m : OrdMap NameId Head) (r : Reducer) (nf : Bytes) (j : NameId)
    → IsAscending m
    → holds nf j (index_heads m r).heads_by_future_nf
      ≡ (is_some_and (get j m) (spent_by nf) || holds nf j r.heads_by_future_nf)
unfolding index_heads index_head get
future_nf-index_heads [] r nf j a = refl
future_nf-index_heads ((id, head) ∷ m) r nf j a = ground (
  arith,
  future_nf-index_heads m (index_head r id head) nf j a.1,
  holds-add r.heads_by_future_nf head.future_nf nf id j,
  get-Above id m a.0,
  eq_of_same id j,
)

active-index_heads :
    (m : OrdMap NameId Head) (r : Reducer) (e : ℕ) (j : NameId)
    → IsAscending m
    → holds e j (index_heads m r).active_heads_by_expiry
      ≡ (is_some_and (get j m) (expires_at e) || holds e j r.active_heads_by_expiry)
unfolding index_heads index_head get
active-index_heads [] r e j a = refl
active-index_heads ((id, head) ∷ m) r e j a = ground (
  arith,
  active-index_heads m (index_head r id head) e j a.1,
  holds-add r.active_heads_by_expiry head.expiry_height e id j,
  get-Above id m a.0,
  eq_of_same id j,
)

terminal-index_heads :
    (m : OrdMap NameId Head) (r : Reducer) (t : ℕ) (j : NameId)
    → IsAscending m
    → holds t j (index_heads m r).terminal_heads_by_height
      ≡ (is_some_and (get j m) (ends_at t) || holds t j r.terminal_heads_by_height)
unfolding index_heads index_head get
terminal-index_heads [] r t j a = refl
terminal-index_heads ((id, head) ∷ m) r t j a = ground (
  arith,
  terminal-index_heads m (index_head r id head) t j a.1,
  holds-index_terminal r.terminal_heads_by_height id head.terminal_height t j,
  get-Above id m a.0,
  eq_of_same id j,
)

index_heads-IsTidy :
    (m : OrdMap NameId Head) (r : Reducer)
    → IsTidy r.heads_by_future_nf
    → IsTidy r.active_heads_by_expiry
    → IsTidy r.terminal_heads_by_height
    → IsTidy (index_heads m r).heads_by_future_nf
      × IsTidy (index_heads m r).active_heads_by_expiry
      × IsTidy (index_heads m r).terminal_heads_by_height
unfolding index_heads index_head
index_heads-IsTidy [] r f a t = (f, a, t)
index_heads-IsTidy ((id, head) ∷ m) r f a t =
    index_heads-IsTidy m (index_head r id head)
      (add-IsTidy r.heads_by_future_nf head.future_nf id f)
      (index_active-IsTidy r.active_heads_by_expiry id head.terminal_height head.expiry_height a)
      (index_terminal-IsTidy r.terminal_heads_by_height id head.terminal_height t)

holds-nil : (h : ℕ) (c : CommitRef) → holds h c [] ≡ false
unfolding holds bucket contains get
holds-nil h c = refl

holds-no_ids : (h : ℕ) (j : NameId) → holds h j [] ≡ false
unfolding holds bucket contains get
holds-no_ids h j = refl

holds-no_spends : (nf : Bytes) (j : NameId) → holds nf j [] ≡ false
unfolding holds bucket contains get
holds-no_spends nf j = refl

abbrev unindexed : Reducer → Reducer
unindexed r = record r {
  commits_by_height = index_commits r.commits [];
  heads_by_future_nf = [];
  active_heads_by_expiry = [];
  terminal_heads_by_height = [];
}

rebuild-HeadsIndexed :
    (r : Reducer) → IsAscending r.heads → HeadsIndexed (index_heads r.heads (unindexed r))
rebuild-HeadsIndexed r heads =
    let start = unindexed r in
    let kept = index_heads-frame r.heads start in
    let tidy = index_heads-IsTidy r.heads start nil-IsTidy nil-IsTidy nil-IsTidy in
    record {
      heads_ascending = rw kept.0 heads;
      future_nf_tidy = tidy.0;
      active_tidy = tidy.1;
      terminal_tidy = tidy.2;
      future_nf_agrees = λ nf j.
          rw kept.0
            (ground (arith, future_nf-index_heads r.heads start nf j heads, holds-no_spends nf j));
      active_agrees = λ e j.
          rw kept.0 (ground (arith, active-index_heads r.heads start e j heads, holds-no_ids e j));
      terminal_agrees = λ t j.
          rw kept.0
            (ground (arith, terminal-index_heads r.heads start t j heads, holds-no_ids t j));
    }

rebuild-CommitsIndexed :
    (r : Reducer) → IsAscending r.commits → CommitsIndexed (index_heads r.heads (unindexed r))
rebuild-CommitsIndexed r commits =
    let kept = index_heads-frame r.heads (unindexed r) in
    record {
      commits_ascending = rw kept.1 commits;
      height_tidy = rw kept.2 (index_commits-IsTidy r.commits [] nil-IsTidy);
      height_agrees = λ h c.
          rw (kept.1, kept.2) (ground (arith, holds-index_commits r.commits [] h c, holds-nil h c));
    }

-- Whatever the indexes were, rebuilding them makes a reducer whose maps are in order consistent.
pub rebuild-IsIndexed :
    (r : Reducer)
    → IsAscending r.heads
    → IsAscending r.commits
    → IsIndexed (rebuild_derived_indexes r)
unfolding rebuild_derived_indexes
rebuild-IsIndexed r heads commits = record {
  of_heads = rebuild-HeadsIndexed r heads;
  of_commits = rebuild-CommitsIndexed r commits;
}

index_heads-chain :
    (m : OrdMap NameId Head) (r : Reducer)
    → ((index_heads m r).parameters ≡ r.parameters) × ((index_heads m r).tip_height ≡ r.tip_height)
unfolding index_heads index_head
index_heads-chain [] r = (refl, refl)
index_heads-chain ((id, head) ∷ m) r = index_heads-chain m (index_head r id head)

-- rebuilding touches the indexes only
pub rebuild-frame :
    (r : Reducer)
    → ((rebuild_derived_indexes r).heads ≡ r.heads)
      × ((rebuild_derived_indexes r).parameters ≡ r.parameters)
      × ((rebuild_derived_indexes r).tip_height ≡ r.tip_height)
unfolding rebuild_derived_indexes
rebuild-frame r =
    let chain = index_heads-chain r.heads (unindexed r) in
    ((index_heads-frame r.heads (unindexed r)).0, chain.0, chain.1)
