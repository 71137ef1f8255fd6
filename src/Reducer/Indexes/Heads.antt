-- ===== src/Reducer/Indexes/Heads.antt =====
-- `replace_head` keeps the three indexes of heads in agreement with the heads.
use coppice_names.Prelude.{
  ℕ, ◌≡◌, refl, Option, none, some, arith, not, ◌&&◌, ◌||◌, is_some_and, Option-cases, inl, inr,
}
use coppice_names.Collections.Order.{same, nat_ord, list_ord, eq_of_same, same_self}
use coppice_names.Collections.OrdMap.{get}
use coppice_names.Collections.OrdMap.Lookup.{get-insert, get-remove}
use coppice_names.Collections.OrdMap.Ascending.{insert-IsAscending, remove-IsAscending}
use coppice_names.Collections.Index.{Index, holds}
use coppice_names.Collections.Index.Laws.{
  IsTidy, holds-add, holds-remove, add-IsTidy, remove_entry-IsTidy,
}
use coppice_names.Protocol.{NameId}
use coppice_names.Reducer.State.{Head, Reducer}
use coppice_names.Reducer.Records.{
  drop_head, store_head, replace_head, unindex_terminal, index_terminal, unindex_active,
  index_active,
}
use coppice_names.Reducer.Records.Reads.{get-drop_head}
use coppice_names.Reducer.Indexes.{HeadsIndexed}

module _ (index : Index ℕ NameId) (id : NameId) where
  unindex_terminal-IsTidy : (o : Option ℕ) → IsTidy index → IsTidy (unindex_terminal index o id)
  unindex_terminal-IsTidy none t = t
  unindex_terminal-IsTidy (some h) t = remove_entry-IsTidy index h id t

  pub index_terminal-IsTidy : (o : Option ℕ) → IsTidy index → IsTidy (index_terminal index o id)
  index_terminal-IsTidy none t = t
  index_terminal-IsTidy (some h) t = add-IsTidy index h id t

  unindex_active-IsTidy :
      (o : Option ℕ) (e : ℕ) → IsTidy index → IsTidy (unindex_active index o e id)
  unindex_active-IsTidy none e t = remove_entry-IsTidy index e id t
  unindex_active-IsTidy (some _) e t = t

  pub index_active-IsTidy :
      (o : Option ℕ) (e : ℕ) → IsTidy index → IsTidy (index_active index o e id)
  index_active-IsTidy none e t = add-IsTidy index e id t
  index_active-IsTidy (some _) e t = t

  holds-unindex_terminal :
      (o : Option ℕ) (t : ℕ) (j : NameId)
      → holds t j (unindex_terminal index o id)
        ≡ (not (is_some_and o (λ h. same h t) && same id j) && holds t j index)
  holds-unindex_terminal none t j = refl
  holds-unindex_terminal (some h) t j = holds-remove index h t id j

  pub holds-index_terminal :
      (o : Option ℕ) (t : ℕ) (j : NameId)
      → holds t j (index_terminal index o id)
        ≡ (is_some_and o (λ h. same h t) && same id j || holds t j index)
  holds-index_terminal none t j = refl
  holds-index_terminal (some h) t j = holds-add index h t id j

drop_present-HeadsIndexed :
    (r : Reducer) (id : NameId) (old : Head)
    → HeadsIndexed r
    → get id r.heads ≡ some old
    → HeadsIndexed (drop_head r id)
unfolding drop_head
drop_present-HeadsIndexed r id old x e =
    rw (e, drop_head)
      (record {
        heads_ascending = remove-IsAscending id r.heads x.heads_ascending;
        future_nf_tidy = remove_entry-IsTidy r.heads_by_future_nf old.future_nf id x.future_nf_tidy;
        active_tidy =
            unindex_active-IsTidy r.active_heads_by_expiry id old.terminal_height old.expiry_height
              x.active_tidy;
        terminal_tidy =
            unindex_terminal-IsTidy r.terminal_heads_by_height id old.terminal_height
              x.terminal_tidy;
        future_nf_agrees = λ nf j. ground (
          arith,
          holds-remove r.heads_by_future_nf old.future_nf nf id j,
          x.future_nf_agrees nf j,
          get-remove id j r.heads,
          eq_of_same id j,
        );
        active_agrees = λ h j. ground (
          arith,
          holds-remove r.active_heads_by_expiry old.expiry_height h id j,
          x.active_agrees h j,
          get-remove id j r.heads,
          eq_of_same id j,
        );
        terminal_agrees = λ t j. ground (
          arith,
          holds-unindex_terminal r.terminal_heads_by_height id old.terminal_height t j,
          x.terminal_agrees t j,
          get-remove id j r.heads,
          eq_of_same id j,
        );
      })

drop_head-HeadsIndexed :
    (r : Reducer) (id : NameId) → HeadsIndexed r → HeadsIndexed (drop_head r id)
unfolding drop_head
drop_head-HeadsIndexed r id x = elim (Option-cases (get id r.heads)) [
  | inl e ↦ rw (e, drop_head) x
  | inr (old, e) ↦ drop_present-HeadsIndexed r id old x e
]

-- storing under a name with no head
store_head-HeadsIndexed :
    (r : Reducer) (id : NameId) (v : Option Head)
    → HeadsIndexed r
    → get id r.heads ≡ none
    → HeadsIndexed (store_head r id v)
unfolding store_head
store_head-HeadsIndexed r id none x absent = x
store_head-HeadsIndexed r id (some v) x absent = record {
  heads_ascending = insert-IsAscending id v r.heads x.heads_ascending;
  future_nf_tidy = add-IsTidy r.heads_by_future_nf v.future_nf id x.future_nf_tidy;
  active_tidy =
      index_active-IsTidy r.active_heads_by_expiry id v.terminal_height v.expiry_height
        x.active_tidy;
  terminal_tidy =
      index_terminal-IsTidy r.terminal_heads_by_height id v.terminal_height x.terminal_tidy;
  future_nf_agrees = λ nf j. ground (
    arith,
    holds-add r.heads_by_future_nf v.future_nf nf id j,
    x.future_nf_agrees nf j,
    get-insert id j v r.heads,
    eq_of_same id j,
  );
  active_agrees = λ h j. ground (
    arith,
    holds-add r.active_heads_by_expiry v.expiry_height h id j,
    x.active_agrees h j,
    get-insert id j v r.heads,
    eq_of_same id j,
  );
  terminal_agrees = λ t j. ground (
    arith,
    holds-index_terminal r.terminal_heads_by_height id v.terminal_height t j,
    x.terminal_agrees t j,
    get-insert id j v r.heads,
    eq_of_same id j,
  );
}

-- Whatever replaces a head, the indexes go on agreeing with the heads.
pub replace_head-HeadsIndexed :
    (r : Reducer) (id : NameId) (v : Option Head)
    → HeadsIndexed r
    → HeadsIndexed (replace_head r id v)
unfolding replace_head
replace_head-HeadsIndexed r id v x =
    store_head-HeadsIndexed (drop_head r id) id v (drop_head-HeadsIndexed r id x)
      (ground (arith, get-drop_head r id id, same_self id))
