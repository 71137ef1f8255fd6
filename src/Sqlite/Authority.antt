-- ===== src/Sqlite/Authority.antt =====
-- What a store may say of a name that it does not hold, against the reducer that it follows.
use coppice_names.Prelude.{
  ◌≡◌, ◌↔◌, refl, sym, ap, ◌∙◌, Option, none, some, arith, ok, inl, inr, if◌then◌else◌, Bool-cases,
}
use coppice_names.Collections.Order.{nat_ord, list_ord, option_ord, same, eq_of_same, same_of_eq}
use coppice_names.Collections.OrdMap.{get}
use coppice_names.Protocol.{NameId}
use coppice_names.Reducer.State.{Head, Reducer, ReducerTip}
use coppice_names.Reducer.Records.{tip}
use coppice_names.Sqlite.Identity.{Coverage, StoreIdentity}
use coppice_names.Sqlite.Tables.{Database}
use coppice_names.Sqlite.Session.{done, run_step}
use coppice_names.Sqlite.Records.{stored_tip, read_tip, tip_ord}
use coppice_names.Sqlite.Store.{authoritative, stale_tip, covers, missing_authority}
use coppice_names.Sqlite.Deltas.Follows.{IsHolding, row_of}

-- the coverages under which the absence of a name is known
abbrev pub IsCovering : Coverage → NameId → Type 0
IsCovering Coverage.complete id = Unit
IsCovering (Coverage.exact expected) id = expected ≡ id
IsCovering Coverage.owned id = ⊥

covers_iff :
    (coverage : Coverage) (id : NameId)
    → (covers coverage id ≡ authoritative) ↔ IsCovering coverage id
unfolding covers
covers_iff Coverage.complete id = (λ _. tt, λ _. refl)
covers_iff (Coverage.exact expected) id =
    ground (arith, eq_of_same expected id, same_of_eq expected id)
covers_iff Coverage.owned id = ground arith

missing_authority_value :
    (identity : StoreIdentity) (id : NameId) (requested : ReducerTip) (db : Database)
    (t : Option ReducerTip)
    → stored_tip db ≡ ok t
    → missing_authority identity id requested db
      ≡ done (if same t (some requested) then covers identity.coverage id else stale_tip) db
unfolding missing_authority read_tip
missing_authority_value identity id requested db t e =
    run_step read_tip _ db {a = t} {mid = db} (rw e refl)

-- A store that holds the records of a reducer is authoritative for the absence of a name at a tip
-- exactly when that is the reducer's tip and the coverage takes the name in; it is asked without a
-- change; and a name whose head it then does not hold has no head in the reducer.
pub missing_authority_iff :
    (identity : StoreIdentity) (id : NameId) (requested : ReducerTip) (db : Database) (r : Reducer)
    → IsHolding db r
    → ((missing_authority identity id requested db ≡ done authoritative db)
        ↔ ((tip r ≡ some requested) × IsCovering identity.coverage id))
      × (get id db.heads ≡ none → get id r.heads ≡ none)
missing_authority_iff identity id requested db r x =
    let value = missing_authority_value identity id requested db (tip r) x.tip_stored in
    (
      (
        λ h. answered (tip r) (cc (sym value ∙ h)),
        λ (at_tip, covering).
            value
            ∙ rw (same_of_eq (tip r) (some requested) at_tip)
                (ap (λ a. done a db) ((covers_iff identity.coverage id).1 covering)),
      ),
      λ missing. no_head (get id r.heads) (sym (x.heads id) ∙ missing),
    )
  where
    no_head : (head : Option Head) → row_of head ≡ none → head ≡ none
    no_head none e = refl
    no_head (some head) e = cc (e)

    answered :
        (t : Option ReducerTip)
        → (if same t (some requested) then covers identity.coverage id else stale_tip)
          ≡ authoritative
        → (t ≡ some requested) × IsCovering identity.coverage id
    answered t e = elim (Bool-cases (same t (some requested))) [
      | inl equal ↦
          (eq_of_same t (some requested) equal, (covers_iff identity.coverage id).0 (ground arith))
      | inr other ↦ ground arith
    ]
