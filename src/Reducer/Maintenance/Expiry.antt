-- ===== src/Reducer/Maintenance/Expiry.antt =====
-- `mark_expired` by what it does to each head.
use coppice_names.Prelude.{
  ℕ, ◌∙◌, not, is_some, ◌≡◌, refl, false, Bool, Option, none, some, List, [], ◌∷◌, arith,
  if◌then◌else◌, leb, is_some_and, inl, inr, Option-cases,
}
use coppice_names.Collections.Order.{same, nat_ord, list_ord, eq_of_same}
use coppice_names.Collections.OrdMap.{get, range_to}
use coppice_names.Collections.OrdMap.Lookup.{mem}
use coppice_names.Collections.Index.{members}
use coppice_names.Collections.Index.Range.{range_of_key}
use coppice_names.Protocol.{NameId}
use coppice_names.Reducer.State.{Head, Undo, Reducer}
use coppice_names.Reducer.Records.{remember_head}
use coppice_names.Reducer.Records.Reads.{get-replace_head}
use coppice_names.Reducer.Indexes.{HeadsIndexed}
use coppice_names.Reducer.Maintenance.{expire_head, expire_heads, mark_expired}

abbrev pub ended : Option Head → Option Head
ended none = none
ended (some head) = some (record head { terminal_height = some head.expiry_height })

get-expire_head :
    (r : Reducer) (id j : NameId)
    → get j (expire_head r id).heads ≡ (if same id j then ended (get j r.heads) else get j r.heads)
unfolding expire_head
get-expire_head r id j = elim (Option-cases (get id r.heads)) [
  | inl e ↦ ground (arith, eq_of_same id j)
  | inr (head, e) ↦ ground (arith, eq_of_same id j, get-replace_head r id j (ended (some head)))
]

get-expire_heads :
    (ids : List NameId) (r : Reducer) (u : Undo) (j : NameId)
    → get j (expire_heads ids r u).0.heads
      ≡ (if mem j ids then ended (get j r.heads) else get j r.heads)
unfolding expire_heads mem
get-expire_heads [] r u j = refl
get-expire_heads (id ∷ ids) r u j = ground (
  arith,
  get-expire_heads ids (expire_head r id) (remember_head r u id) j,
  get-expire_head r id j,
)

-- whether the lease of an active head is over at a height
abbrev pub is_over : ℕ → Head → Bool
is_over h head = elim head.terminal_height [ none ↦ leb head.expiry_height h | some _ ↦ false ]

due-active :
    (r : Reducer) (h : ℕ) (j : NameId)
    → HeadsIndexed r
    → mem j (members (range_to h r.active_heads_by_expiry))
      ≡ is_some_and (get j r.heads) (is_over h)
due-active r h j x = elim (Option-cases (get j r.heads)) [
  | inl e ↦ ground (
    arith,
    range_of_key h 0 false j r.active_heads_by_expiry x.active_tidy.ascending
        (λ t. ground (arith, x.active_agrees t j)),
  )
  | inr (head, e) ↦ rw e (at_head head e)
]
  where
    at_head :
        (head : Head)
        → get j r.heads ≡ some head
        → mem j (members (range_to h r.active_heads_by_expiry)) ≡ is_over h head
    at_head head e =
        range_of_key h head.expiry_height (not (is_some head.terminal_height)) j
          r.active_heads_by_expiry x.active_tidy.ascending
          (λ t. ground (arith, x.active_agrees t j))
        ∙ ground arith

-- the head that `mark_expired` leaves of a head
abbrev pub expired_at : ℕ → Option Head → Option Head
expired_at h none = none
expired_at h (some head) = if is_over h head then ended (some head) else some head

pub get-mark_expired :
    (r : Reducer) (h : ℕ) (u : Undo) (j : NameId)
    → HeadsIndexed r
    → get j (mark_expired r h u).0.heads ≡ expired_at h (get j r.heads)
unfolding mark_expired
get-mark_expired r h u j x = ground (
  arith,
  get-expire_heads (members (range_to h r.active_heads_by_expiry)) r u j,
  due-active r h j x,
)
