-- ===== src/Reducer/Indexes.antt =====
-- The derived indexes of the reducer agree with its records.
pub mod Heads
pub mod Determined
pub mod Commits
use coppice_names.Prelude.{ℕ, ◌≡◌, Bool, true, false, ◌&&◌, Option, none, some, is_some_and}
use coppice_names.Collections.Order.{same, nat_ord, list_ord}
use coppice_names.Collections.OrdMap.{get, contains}
use coppice_names.Collections.OrdMap.Ascending.{IsAscending}
use coppice_names.Collections.Index.{holds}
use coppice_names.Collections.Index.Laws.{IsTidy}
use coppice_names.Protocol.{Bytes, NameId, CommitRef, commit_ref_ord}
use coppice_names.Reducer.State.{Head, Reducer}

-- what puts an identifier into each bucket of the three indexes of heads
abbrev pub spent_by : Bytes → Head → Bool
spent_by nf head = same head.future_nf nf

abbrev pub expires_at : ℕ → Head → Bool
expires_at e head = elim head.terminal_height [ none ↦ same head.expiry_height e | some _ ↦ false ]

abbrev pub ends_at : ℕ → Head → Bool
ends_at t head = elim head.terminal_height [ none ↦ false | some u ↦ same u t ]

pub record HeadsIndexed (r : Reducer) : Type 0 where
  pub heads_ascending : IsAscending r.heads
  pub future_nf_tidy : IsTidy r.heads_by_future_nf
  pub active_tidy : IsTidy r.active_heads_by_expiry
  pub terminal_tidy : IsTidy r.terminal_heads_by_height
  pub future_nf_agrees :
      (nf : Bytes) (id : NameId)
      → holds nf id r.heads_by_future_nf ≡ is_some_and (get id r.heads) (spent_by nf)
  pub active_agrees :
      (e : ℕ) (id : NameId)
      → holds e id r.active_heads_by_expiry ≡ is_some_and (get id r.heads) (expires_at e)
  pub terminal_agrees :
      (t : ℕ) (id : NameId)
      → holds t id r.terminal_heads_by_height ≡ is_some_and (get id r.heads) (ends_at t)

pub record CommitsIndexed (r : Reducer) : Type 0 where
  pub commits_ascending : IsAscending r.commits
  pub height_tidy : IsTidy r.commits_by_height
  pub height_agrees :
      (h : ℕ) (c : CommitRef)
      → holds h c r.commits_by_height ≡ (same c.height h && contains c r.commits)

-- The maps are in order, and each index holds exactly what its records say.
pub record IsIndexed (r : Reducer) : Type 0 where
  pub of_heads : HeadsIndexed r
  pub of_commits : CommitsIndexed r
