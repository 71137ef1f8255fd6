-- ===== src/Sqlite/Journal.antt =====
-- A journal of one block beside the table that it is about: what each row of the journal keeps,
-- and that writing the rows back restores the table.
use coppice_names.Prelude.{
  ℕ, ◌≡◌, refl, ◌∙◌, false, Option, none, some, List, [], ◌∷◌, ◌==◌, arith, if◌then◌else◌,
}
use coppice_names.Collections.Order.{Ord, same, eq_of_same, nat_ord, pair_ord}
use coppice_names.Collections.OrdMap.{OrdMap, get, insert, remove}
use coppice_names.Collections.OrdMap.Lookup.{get-insert, get-remove}
use coppice_names.Collections.OrdMap.Ascending.{
  IsAscending, get-Above, ascending_ext, insert-IsAscending, remove-IsAscending,
}
use coppice_names.Sqlite.Tables.{rows_at, delete_where}
use coppice_names.Sqlite.Tables.Laws.{
  get-rows_at, rows_at-IsAscending, get-delete_where, delete_where-IsAscending, same-pair,
}
use coppice_names.Sqlite.Records.{put}

module _ {ℓ κ} {K : Type ℓ} {V : Type κ} ⦃o : Ord K⦄ where
  pub get-put :
      (k j : K) (v : Option V) (m : OrdMap K V)
      → get j (put k v m) ≡ (if same k j then v else get j m)
  unfolding put
  get-put k j none m = get-remove k j m
  get-put k j (some v) m = ground (arith, get-insert k j v (remove k m), get-remove k j m)

  pub put-IsAscending :
      (k : K) (v : Option V) (m : OrdMap K V) → IsAscending m → IsAscending (put k v m)
  unfolding put
  put-IsAscending k none m a = remove-IsAscending k m a
  put-IsAscending k (some v) m a = insert-IsAscending k v (remove k m) (remove-IsAscending k m a)

-- what a table held before, by the journal's row or else by the table itself
abbrev pub before {κ μ} :
    {V : Type κ} {E : Type μ} (value : E → Option V) → Option E → Option V → Option V
before value none now = now
before value (some e) now = value e

module _ {ℓ κ μ} {K : Type ℓ} {V : Type κ} {E : Type μ} ⦃o : Ord K⦄ (value : E → Option V) where
  -- the rows of a journal, written back in order
  unfoldable pub restore : List (K × E) → OrdMap K V → OrdMap K V
  restore [] t = t
  restore ((k, e) ∷ rows) t = restore rows (put k (value e) t)

  get-restore :
      (rows : List (K × E)) (t : OrdMap K V) (j : K)
      → IsAscending rows
      → get j (restore rows t) ≡ before value (get j rows) (get j t)
  unfolding restore get
  get-restore [] t j a = refl
  get-restore ((k, e) ∷ rows) t j a = ground (
    arith,
    get-restore rows (put k (value e) t) j a.1,
    get-put k j (value e) t,
    eq_of_same k j,
    get-Above k rows a.0,
  )

  restore-IsAscending :
      (rows : List (K × E)) (t : OrdMap K V) → IsAscending t → IsAscending (restore rows t)
  unfolding restore
  restore-IsAscending [] t a = a
  restore-IsAscending ((k, e) ∷ rows) t a =
      restore-IsAscending rows (put k (value e) t) (put-IsAscending k (value e) t a)

  -- The journal `j` of block `h` leads from the table `t` back to `base`; of other blocks it says
  -- what `origin` says; and its rows of the block are valid.
  pub record IsJournalOf (h : ℕ) (IsValid : K → E → Type 0) (base : OrdMap K V)
      (origin : OrdMap (ℕ × K) E) (j : OrdMap (ℕ × K) E) (t : OrdMap K V) : Type (ℓ ⊔ κ ⊔ μ) where
    pub table_ascending : IsAscending t
    pub journal_ascending : IsAscending j
    pub leads_back : (k : K) → before value (get (h, k) j) (get k t) ≡ get k base
    pub keeps_others : (i : ℕ) (k : K) → (i == h) ≡ false → get (i, k) j ≡ get (i, k) origin
    pub valid : (k : K) (e : E) → get (h, k) j ≡ some e → IsValid k e

  module _ (h : ℕ) (IsValid : K → E → Type 0) (base : OrdMap K V) (origin : OrdMap (ℕ × K) E) where
    pub start_journal :
        IsAscending base
        → IsAscending origin
        → ((k : K) → get (h, k) origin ≡ none)
        → IsJournalOf h IsValid base origin origin base
    start_journal a b fresh = record {
      table_ascending = a;
      journal_ascending = b;
      leads_back = λ k. rw fresh refl;
      keeps_others = λ i k e. refl;
      valid = λ k e p. ground (arith, fresh k);
    }

    pub extend_journal :
        (j : OrdMap (ℕ × K) E) (t : OrdMap K V) (k : K) (e : E) (new : Option V)
        → IsJournalOf h IsValid base origin j t
        → get (h, k) j ≡ none
        → get k t ≡ value e
        → IsValid k e
        → IsJournalOf h IsValid base origin (insert (h, k) e j) (put k new t)
    extend_journal j t k e new x fresh held ok_row = record {
      table_ascending = put-IsAscending k new t x.table_ascending;
      journal_ascending = insert-IsAscending (h, k) e j x.journal_ascending;
      leads_back = λ i. back i;
      keeps_others = λ i i' p. others i i' p;
      valid = λ i f p. valids i f p;
    }
      where
        back :
            (i : K)
            → before value (get (h, i) (insert (h, k) e j)) (get i (put k new t)) ≡ get i base
        back i = ground (
          arith,
          get-insert (h, k) (h, i) e j,
          same-pair h h k i,
          get-put k i new t,
          x.leads_back i,
          x.leads_back k,
          eq_of_same k i,
        )

        others :
            (i : ℕ) (i' : K)
            → (i == h) ≡ false
            → get (i, i') (insert (h, k) e j) ≡ get (i, i') origin
        others i i' p =
            ground (arith, get-insert (h, k) (i, i') e j, same-pair h i k i', x.keeps_others i i')

        valids : (i : K) (f : E) → get (h, i) (insert (h, k) e j) ≡ some f → IsValid i f
        valids i f p =
            ground
              (arith, get-insert (h, k) (h, i) e j, same-pair h h k i, x.valid i f, eq_of_same k i)

    -- Writing the block's rows back gives the table of the start.
    pub restore_journal :
        (j : OrdMap (ℕ × K) E) (t : OrdMap K V)
        → IsAscending base
        → IsJournalOf h IsValid base origin j t
        → restore (rows_at h j) t ≡ base
    restore_journal j t a x =
        ascending_ext (restore (rows_at h j) t) base
          (restore-IsAscending (rows_at h j) t x.table_ascending) a
          (λ k.
            get-restore (rows_at h j) t k (rows_at-IsAscending h j x.journal_ascending)
            ∙ rw get-rows_at (x.leads_back k))

    -- Deleting the block's rows gives the journal of the start.
    pub delete_journal :
        (j : OrdMap (ℕ × K) E) (t : OrdMap K V)
        → IsAscending origin
        → ((k : K) → get (h, k) origin ≡ none)
        → IsJournalOf h IsValid base origin j t
        → delete_where (λ key _. key.0 == h) j ≡ origin
    delete_journal j t a fresh x =
        ascending_ext (delete_where (λ key _. key.0 == h) j) origin
          (delete_where-IsAscending (λ key _. key.0 == h) j x.journal_ascending) a
          (λ k. get-delete_where (λ (key : ℕ × K). key.0 == h) k j ∙ unblocked k)
      where
        unblocked : (k : ℕ × K) → (if k.0 == h then none else get k j) ≡ get k origin
        unblocked (i, k) = ground (arith, x.keeps_others i k, fresh k)
