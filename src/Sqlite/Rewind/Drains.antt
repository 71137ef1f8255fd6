-- ===== src/Sqlite/Rewind/Drains.antt =====
-- The loops of the wallet's rollback write back the rows that one query would have listed, and
-- leave none of them.
use coppice_names.Prelude.{
  ℕ, zero, suc, ◌≤◌, ◌≡◌, refl, sym, ap, subst, inl, inr, ◌∙◌, Bool, Option, List, [], ◌∷◌, Result,
  ok, err, ◌==◌, length, arith,
}
use coppice_names.Collections.Order.{Ord, nat_ord, pair_ord, same, same_self}
use coppice_names.Collections.OrdMap.{OrdMap, remove}
use coppice_names.Collections.OrdMap.Ascending.{IsAscending, Above, remove-IsAscending}
use coppice_names.Protocol.{Bytes}
use coppice_names.Sqlite.Identity.{StoreError}
use coppice_names.Sqlite.Tables.{Database, rows_at, delete_where}
use coppice_names.Sqlite.Tables.Laws.{same-pair, rows_at-IsAscending}
use coppice_names.Sqlite.Session.{
  Session, for_each, Outcome, done, failed, Outcome-cases, run_step, run_failure, done_injective,
}
use coppice_names.Sqlite.Rewind.{drain, drain_turn}

-- What a host sees of an outcome: the writes of a session that fails are taken back.
abbrev pub visible : {A : Type 0} → Outcome A → Result StoreError (A × Database)
visible (done a db) = ok (a, db)
visible (failed e db) = err e

-- an outcome with its database changed
abbrev pub over : {A : Type 0} → (Database → Database) → Outcome A → Outcome A
over f (done a db) = done a (f db)
over f (failed e db) = failed e (f db)

pub visible-eq-ok :
    {A : Type 0} (o : Outcome A) (a : A) (db : Database) → visible o ≡ ok (a, db) → o ≡ done a db
visible-eq-ok (done b mid) a db h = cc (h)
visible-eq-ok (failed e mid) a db h = cc (h)

pub visible-eq-err :
    {A : Type 0} (o : Outcome A) (e : StoreError)
    → visible o ≡ err e
    → (mid : Database) × (o ≡ failed e mid)
visible-eq-err (done b mid) e h = cc (h)
visible-eq-err (failed f mid) e h = (mid, cc (h))

-- A change of the database that every turn of a loop carries along, the loop carries along.
module _ {A : Type 0} (step : A → Session (Unit {0})) (f : Database → Database)
    (carried : (a : A) (db : Database) → step a (f db) ≡ over f (step a db)) where
  pub for_each-over :
      (items : List A) (db : Database)
      → for_each step items (f db) ≡ over f (for_each step items db)
  unfolding for_each
  for_each-over [] db = refl
  for_each-over (a ∷ items) db = elim (Outcome-cases (step a db)) [
    | inl (_, mid, e) ↦
        run_step (step a) _ (f db) (carried a db ∙ ap (over f) e)
        ∙ for_each-over items mid
        ∙ sym (ap (over f) (run_step (step a) _ db e))
    | inr (error, mid, e) ↦
        run_failure (step a) _ (f db) (carried a db ∙ ap (over f) e)
        ∙ sym (ap (over f) (run_failure (step a) _ db e))
  ]

  -- What `f` would set stays as it is.
  pub for_each-keeps :
      (items : List A) (db mid : Database)
      → f db ≡ db
      → for_each step items db ≡ done tt mid
      → mid ≡ f mid
  for_each-keeps items db mid unchanged e = done_injective tt tt (f mid) mid (
      sym
        (sym e ∙ ap (for_each step items) (sym unchanged) ∙ for_each-over items db ∙ ap (over f) e))

module _ {ℓ κ} {K : Type ℓ} {V : Type κ} ⦃o : Ord K⦄ where
  abbrev pub at_height : ℕ → ℕ × K → V → Bool
  at_height h key v = key.0 == h

  pub length-rows_at : (h : ℕ) (m : OrdMap (ℕ × K) V) → length (rows_at h m) ≤ length m
  unfolding rows_at
  length-rows_at h [] = ground arith
  length-rows_at h ((k, v) ∷ m) = ground (arith, length-rows_at h m)

  -- deleting twice
  pub delete_where-twice :
      (h : ℕ) (m : OrdMap (ℕ × K) V)
      → delete_where (at_height h) (delete_where (at_height h) m) ≡ delete_where (at_height h) m
  unfolding delete_where
  delete_where-twice h [] = refl
  delete_where-twice h ((k, v) ∷ m) = ground (arith, delete_where-twice h m)

  -- no rows, nothing to delete
  pub delete_none :
      (h : ℕ) (m : OrdMap (ℕ × K) V) → rows_at h m ≡ [] → delete_where (at_height h) m ≡ m
  unfolding rows_at delete_where
  delete_none h [] e = refl
  delete_none h ((k, v) ∷ m) e = ground (arith, delete_none h m)

  -- deleting a row first makes no difference
  pub delete_where-remove :
      (h : ℕ) (k : K) (m : OrdMap (ℕ × K) V)
      → delete_where (at_height h) (remove (h, k) m) ≡ delete_where (at_height h) m
  unfolding remove delete_where
  delete_where-remove h k [] = refl
  delete_where-remove h k (((i, j), v) ∷ m) =
      ground (arith, delete_where-remove h k m, same-pair i h j k)

  rows_at-remove :
      (h : ℕ) (k : K) (m : OrdMap (ℕ × K) V) → rows_at h (remove (h, k) m) ≡ remove k (rows_at h m)
  unfolding remove rows_at
  rows_at-remove h k [] = refl
  rows_at-remove h k (((i, j), v) ∷ m) = ground (arith, rows_at-remove h k m, same-pair i h j k)

  remove-Above : (k : K) (m : OrdMap K V) → Above k m → remove k m ≡ m
  unfolding remove same
  remove-Above k [] a = refl
  remove-Above k ((j, v) ∷ m) a = ground (arith, remove-Above k m a.1, o.cmp_flip k j)

  -- deleting the first row of a block leaves the others
  pub rows_at-remove_first :
      (h : ℕ) (k : K) (v : V) (rest : List (K × V)) (m : OrdMap (ℕ × K) V)
      → IsAscending m
      → rows_at h m ≡ (k, v) ∷ rest
      → rows_at h (remove (h, k) m) ≡ rest
  unfolding remove
  rows_at-remove_first h k v rest m a e =
      let first : IsAscending ((k, v) ∷ rest) = subst IsAscending e (rows_at-IsAscending h m a) in
      rows_at-remove h k m
      ∙ ap (remove k) e
      ∙ ground (arith, same_self k, remove-Above k rest first.0)

-- A loop whose turns write a row back without looking at the journal.
module _ {K : Type 0} ⦃o : Ord K⦄ (restore_row : K × Option Bytes → Session (Unit {0}))
    (journal : Database → OrdMap (ℕ × K) (Option Bytes))
    (set_journal : OrdMap (ℕ × K) (Option Bytes) → Database → Database)
    (journal-set : (m : _) (db : Database) → journal (set_journal m db) ≡ m)
    (set-set : (m n : _) (db : Database) → set_journal m (set_journal n db) ≡ set_journal m db)
    (set-journal : (db : Database) → set_journal (journal db) db ≡ db)
    (row-set : (row : K × Option Bytes) (m : _) (db : Database)
      → restore_row row (set_journal m db) ≡ over (set_journal m) (restore_row row db)) where
  -- what the host sees does not depend on the journal, once that is replaced
  for_each-set :
      (rows : List (K × Option Bytes)) (m n : OrdMap (ℕ × K) (Option Bytes)) (db : Database)
      → visible (over (set_journal m) (for_each restore_row rows (set_journal n db)))
        ≡ visible (over (set_journal m) (for_each restore_row rows db))
  unfolding for_each
  for_each-set [] m n db = ap (λ d. ok (tt, d)) (set-set m n db)
  for_each-set (row ∷ rows) m n db = elim (Outcome-cases (restore_row row db)) [
    | inl (_, mid, e) ↦
        ap (λ o. visible (over (set_journal m) o))
          (run_step (restore_row row) _ (set_journal n db)
            (row-set row n db ∙ ap (over (set_journal n)) e))
        ∙ for_each-set rows m n mid
        ∙ sym (ap (λ o. visible (over (set_journal m) o)) (run_step (restore_row row) _ db e))
    | inr (error, mid, e) ↦
        ap (λ o. visible (over (set_journal m) o))
          (run_failure (restore_row row) _ (set_journal n db)
            (row-set row n db ∙ ap (over (set_journal n)) e))
        ∙ sym (ap (λ o. visible (over (set_journal m) o)) (run_failure (restore_row row) _ db e))
  ]

  row_keeps_journal :
      (row : K × Option Bytes) (db mid : Database)
      → restore_row row db ≡ done tt mid
      → journal mid ≡ journal db
  row_keeps_journal row db mid e =
      let unchanged =
        sym e
        ∙ ap (restore_row row) (sym (set-journal db))
        ∙ row-set row (journal db) db
        ∙ ap (over (set_journal (journal db))) e in
      ap journal (sym (done_injective tt tt mid (set_journal (journal db) mid) unchanged))
      ∙ journal-set (journal db) mid

  drain_done :
      (left h : ℕ) (db : Database)
      → rows_at h (journal db) ≡ []
      → visible (drain restore_row journal set_journal left h db)
        ≡ ok (tt, set_journal (delete_where (at_height h) (journal db)) db)
  unfolding drain drain_turn
  drain_done zero h db e =
      ap (λ d. ok (tt, d))
        (sym (ap (λ m. set_journal m db) (delete_none h (journal db) e) ∙ set-journal db))
  drain_done (suc left) h db e =
      ap
        (λ rows. visible (
          drain_turn restore_row journal set_journal (drain restore_row journal set_journal left h)
            h rows db))
        e
      ∙ ap (λ d. ok (tt, d))
          (sym (ap (λ m. set_journal m db) (delete_none h (journal db) e) ∙ set-journal db))

  -- With a turn for every row of the block, the loop does to the database what writing the rows
  -- back in order and deleting them does.
  pub drain_lem :
      (left h : ℕ) (db : Database) (rows : List (K × Option Bytes))
      → IsAscending (journal db)
      → rows_at h (journal db) ≡ rows
      → length rows ≤ left
      → visible (drain restore_row journal set_journal left h db)
        ≡ visible (
            over
              (set_journal (delete_where (at_height h) (journal db)))
              (for_each restore_row rows db))
  unfolding drain drain_turn for_each
  drain_lem left h db [] a e enough = drain_done left h db e
  drain_lem zero h db (row ∷ rows) a e enough = ground arith
  drain_lem (suc left) h db ((k, v) ∷ rows) a e enough =
      ap
        (λ rows. visible (
          drain_turn restore_row journal set_journal (drain restore_row journal set_journal left h)
            h rows db))
        e
      ∙ elim (Outcome-cases (restore_row (k, v) db)) [
        | inl (_, mid, now) ↦
            let kept = row_keeps_journal (k, v) db mid now in
            let cut = remove (h, k) (journal mid) in
            let next = set_journal cut mid in
            let next_journal = journal-set cut mid in
            let same_rest =
              ap (rows_at h) (next_journal ∙ ap (remove (h, k)) kept)
              ∙ rows_at-remove_first h k v rows (journal db) a e in
            let same_cut : delete_where (at_height h) (journal next)
                ≡ delete_where (at_height h) (journal db) =
              ap (delete_where (at_height h)) (next_journal ∙ ap (remove (h, k)) kept)
              ∙ delete_where-remove h k (journal db) in
            let ascending : IsAscending (journal next) =
              subst IsAscending (sym (next_journal ∙ ap (remove (h, k)) kept))
                (remove-IsAscending (h, k) (journal db) a) in
            ap visible (run_step (restore_row (k, v)) _ db now)
            ∙ drain_lem left h next rows ascending same_rest (omega arith)
            ∙ ap (λ m. visible (over (set_journal m) (for_each restore_row rows next))) same_cut
            ∙ for_each-set rows (delete_where (at_height h) (journal db)) cut mid
            ∙ sym (
                ap (λ o. visible (over (set_journal (delete_where (at_height h) (journal db))) o))
                  (run_step (restore_row (k, v)) _ db now))
        | inr (error, mid, now) ↦
            ap visible (run_failure (restore_row (k, v)) _ db now)
            ∙ sym (
                ap (λ o. visible (over (set_journal (delete_where (at_height h) (journal db))) o))
                  (run_failure (restore_row (k, v)) _ db now))
      ]
