-- ===== src/Sqlite/Tables/Laws.antt =====
-- What reads find after a deletion, and which rows belong to a block.
use coppice_names.Prelude.{ℕ, ◌≡◌, refl, Bool, none, [], ◌∷◌, ◌==◌, ◌&&◌, arith, if◌then◌else◌}
use coppice_names.Collections.Order.{Ord, same, eq_of_same, nat_ord, pair_ord}
use coppice_names.Collections.OrdMap.{OrdMap, get}
use coppice_names.Collections.OrdMap.Ascending.{Above, IsAscending}
use coppice_names.Sqlite.Tables.{rows_at, delete_where}

module _ {ℓ κ} {K : Type ℓ} {V : Type κ} ⦃o : Ord K⦄ where
  Above-delete_where :
      (b : K) (test : K → V → Bool) (m : OrdMap K V) → Above b m → Above b (delete_where test m)
  unfolding delete_where
  Above-delete_where b test [] s = tt
  Above-delete_where b test ((k, v) ∷ m) s = ground (arith, Above-delete_where b test m s.1)

  pub delete_where-IsAscending :
      (test : K → V → Bool) (m : OrdMap K V) → IsAscending m → IsAscending (delete_where test m)
  unfolding delete_where
  delete_where-IsAscending test [] s = tt
  delete_where-IsAscending test ((k, v) ∷ m) s =
      ground (arith, delete_where-IsAscending test m s.1, Above-delete_where k test m s.0)

  -- a deletion by the key alone
  pub get-delete_where :
      (test : K → Bool) (j : K) (m : OrdMap K V)
      → get j (delete_where (λ k _. test k) m) ≡ (if test j then none else get j m)
  unfolding get delete_where
  get-delete_where test j [] = ground arith
  get-delete_where test j ((k, v) ∷ m) = ground (arith, get-delete_where test j m, eq_of_same k j)

module _ {ℓ} {K : Type ℓ} ⦃o : Ord K⦄ where
  -- keys of two columns are equal when both columns are
  pub same-pair : (h i : ℕ) (k j : K) → same {K = ℕ × K} (h, k) (i, j) ≡ (h == i && same k j)
  unfolding same pair_ord nat_ord
  same-pair h i k j = ground arith

module _ {ℓ κ} {K : Type ℓ} {V : Type κ} ⦃o : Ord K⦄ where
  -- the rows of a block, by the rest of their keys
  pub get-rows_at : (h : ℕ) (k : K) (m : OrdMap (ℕ × K) V) → get k (rows_at h m) ≡ get (h, k) m
  unfolding get rows_at same pair_ord nat_ord
  get-rows_at h k [] = refl
  get-rows_at h k (((i, j), v) ∷ m) = ground (arith, get-rows_at h k m)

  rows_at-Above : (h : ℕ) (k : K) (m : OrdMap (ℕ × K) V) → Above (h, k) m → Above k (rows_at h m)
  unfolding rows_at pair_ord nat_ord
  rows_at-Above h k [] s = tt
  rows_at-Above h k (((i, j), v) ∷ m) s = ground (arith, rows_at-Above h k m s.1)

  pub rows_at-IsAscending :
      (h : ℕ) (m : OrdMap (ℕ × K) V) → IsAscending m → IsAscending (rows_at h m)
  unfolding rows_at
  rows_at-IsAscending h [] s = tt
  rows_at-IsAscending h (((i, j), v) ∷ m) s =
      ground (arith, rows_at-IsAscending h m s.1, rows_at-Above h j m)
