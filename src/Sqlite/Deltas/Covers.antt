-- ===== src/Sqlite/Deltas/Covers.antt =====
-- A store of one name takes no other head.
use coppice_names.Prelude.{
  ◌≡◌, ◌≢◌, refl, sym, ap, ◌∙◌, true, false, Option, none, List, [], ◌∷◌, all, arith, if◌then◌else◌,
  Bool-cases, inl, inr,
}
use coppice_names.Collections.Order.{same, eq_of_same, nat_ord, list_ord}
use coppice_names.Collections.OrdMap.{get}
use coppice_names.Protocol.{NameId, Primitives}
use coppice_names.Reducer.State.{HeadChange, StateDelta}
use coppice_names.Sqlite.Identity.{Coverage, StoreIdentity}
use coppice_names.Sqlite.Tables.{Database, HeadRow}
use coppice_names.Sqlite.Session.{done}
use coppice_names.Sqlite.Records.{Json}
use coppice_names.Sqlite.Deltas.{apply_delta, is_outside}
use coppice_names.Sqlite.Deltas.Applied.{apply_delta_inversion, with_block}
use coppice_names.Sqlite.Deltas.Follows.{head_written, row_of, get-apply_heads, get-apply_commits}

-- The tables of a store of one name hold no other head.
abbrev pub IsWithin : Coverage → Database → Type 0
IsWithin (Coverage.exact expected) db = (id : NameId) → get id db.heads ≢ none → id ≡ expected
IsWithin _ db = Unit

head_written-outside :
    (expected id : NameId) (changes : List HeadChange) (now : Option HeadRow)
    → all (λ (c : HeadChange). same c.name_id expected) changes ≡ true
    → same expected id ≡ false
    → head_written changes id now ≡ now
head_written-outside expected id [] now inside other = refl
head_written-outside expected id (c ∷ cs) now inside other = ground (
  arith,
  head_written-outside expected id cs (if same c.name_id id then row_of c.current else now),
  eq_of_same c.name_id expected,
)

module _ ⦃prims : Primitives⦄ (json : Json) (identity : StoreIdentity) where
  -- A store opened for one name that holds no other head still holds none after any delta that
  -- goes through.
  pub apply_delta-IsWithin :
      (delta : StateDelta) (db after : Database)
      → IsWithin identity.coverage db
      → apply_delta json identity delta db ≡ done tt after
      → IsWithin identity.coverage after
  apply_delta-IsWithin delta db after within h =
      let a = apply_delta_inversion json identity delta db after h in
      let (heads, _, _) =
        get-apply_heads json identity delta.from_tip a.to_tip delta.heads
          (with_block a.to_tip delta.from_tip db) a.of_heads a.heads_applied in
      let (_, kept, _) =
        get-apply_commits a.to_tip delta.commits a.of_heads a.of_commits a.commits_applied in
      let reads : ((id : NameId)
          → get id after.heads ≡ head_written delta.heads id (get id db.heads)) =
        λ id. ap (λ (d : Database). get id d.heads) a.after_eq ∙ ap (get id) kept ∙ heads id in
      still identity.coverage a.covered within reads
    where
      still :
          (coverage : Coverage)
          → is_outside coverage delta.heads ≡ false
          → IsWithin coverage db
          → ((id : NameId) → get id after.heads ≡ head_written delta.heads id (get id db.heads))
          → IsWithin coverage after
      still (Coverage.exact expected) covered within reads = λ id held.
          elim (Bool-cases (same expected id)) [
            | inl equal ↦ sym (eq_of_same expected id equal)
            | inr other ↦ within id (λ missing. held (
                reads id
                ∙ head_written-outside expected id delta.heads (get id db.heads) (ground arith)
                    other
                ∙ missing))
          ]
      still Coverage.complete covered within reads = tt
      still Coverage.owned covered within reads = tt
