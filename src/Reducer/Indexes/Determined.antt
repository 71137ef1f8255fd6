-- ===== src/Reducer/Indexes/Determined.antt =====
-- The indexes are determined by the records: two consistent reducers with the same records, the
-- same position in the chain and the same history are equal.
use coppice_names.Prelude.{◌≡◌, sym, ◌∙◌, ap, is_some_and}
use coppice_names.Collections.Order.{nat_ord, list_ord}
use coppice_names.Collections.OrdMap.{get}
use coppice_names.Collections.OrdMap.Ascending.{ascending_ext}
use coppice_names.Collections.Index.Laws.{index_ext}
use coppice_names.Protocol.{NameId, CommitRef, commit_ref_ord}
use coppice_names.Reducer.State.{Reducer}
use coppice_names.Reducer.Records.Reads.{SameFrame}
use coppice_names.Reducer.Indexes.{
  IsIndexed, HeadsIndexed, CommitsIndexed, spent_by, expires_at, ends_at,
}

module _ {r s : Reducer} (x : HeadsIndexed r) (y : HeadsIndexed s) where
  heads_eq : ((id : NameId) → get id r.heads ≡ get id s.heads) → r.heads ≡ s.heads
  heads_eq h = ascending_ext r.heads s.heads x.heads_ascending y.heads_ascending h

  future_nf_eq : r.heads ≡ s.heads → r.heads_by_future_nf ≡ s.heads_by_future_nf
  future_nf_eq e = index_ext _ _ x.future_nf_tidy y.future_nf_tidy λ nf id.
      x.future_nf_agrees nf id
      ∙ ap (λ m. is_some_and (get id m) (spent_by nf)) e
      ∙ sym (y.future_nf_agrees nf id)

  active_eq : r.heads ≡ s.heads → r.active_heads_by_expiry ≡ s.active_heads_by_expiry
  active_eq e = index_ext _ _ x.active_tidy y.active_tidy λ h id.
      x.active_agrees h id
      ∙ ap (λ m. is_some_and (get id m) (expires_at h)) e
      ∙ sym (y.active_agrees h id)

  terminal_eq : r.heads ≡ s.heads → r.terminal_heads_by_height ≡ s.terminal_heads_by_height
  terminal_eq e = index_ext _ _ x.terminal_tidy y.terminal_tidy λ t id.
      x.terminal_agrees t id
      ∙ ap (λ m. is_some_and (get id m) (ends_at t)) e
      ∙ sym (y.terminal_agrees t id)

module _ {r s : Reducer} (x : CommitsIndexed r) (y : CommitsIndexed s) where
  commits_eq : ((c : CommitRef) → get c r.commits ≡ get c s.commits) → r.commits ≡ s.commits
  commits_eq h = ascending_ext r.commits s.commits x.commits_ascending y.commits_ascending h

  by_height_eq : r.commits ≡ s.commits → r.commits_by_height ≡ s.commits_by_height
  by_height_eq e =
      index_ext _ _ x.height_tidy y.height_tidy
        λ h c. x.height_agrees h c ∙ sym (rw e (y.height_agrees h c))

-- Consistent reducers with the same reads are equal.
pub reducer_ext :
    (r s : Reducer)
    → IsIndexed r
    → IsIndexed s
    → SameFrame s r
    → ((id : NameId) → get id r.heads ≡ get id s.heads)
    → ((c : CommitRef) → get c r.commits ≡ get c s.commits)
    → r ≡ s
reducer_ext r s x y f heads commits =
    let hs = heads_eq x.of_heads y.of_heads heads in
    let cs = commits_eq x.of_commits y.of_commits commits in
    cc (
      f.parameters,
      f.verifier,
      f.next_height,
      f.tip_height,
      f.previous_hash,
      f.history,
      hs,
      cs,
      future_nf_eq x.of_heads y.of_heads hs,
      active_eq x.of_heads y.of_heads hs,
      terminal_eq x.of_heads y.of_heads hs,
      by_height_eq x.of_commits y.of_commits cs,
    )
