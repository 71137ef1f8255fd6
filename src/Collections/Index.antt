-- ===== src/Collections/Index.antt =====
-- A bucket index, `BTreeMap<K, BTreeSet<V>>`: the shape of the reducer's derived indexes.
pub mod Laws
pub mod Range
use Prim.Native.Nat.Ordering.{gt}
use coppice_names.Prelude.{Bool, true, false, Option, none, some, List, [], ◌∷◌, ◌++◌}
use coppice_names.Collections.Order.{Ord}
use coppice_names.Collections.OrdMap.{OrdMap, OrdSet, get, contains, insert, remove, keys, range_to}

abbrev pub Index {ℓ κ} : Type ℓ → Type κ → Type (ℓ ⊔ κ)
Index K V = OrdMap K (OrdSet V)

module _ {ℓ κ} {K : Type ℓ} {V : Type κ} ⦃o : Ord K⦄ ⦃p : Ord V⦄ where
  -- what a key's bucket holds; a key with no bucket has the empty one
  unfoldable pub bucket : K → Index K V → OrdSet V
  bucket k index = elim (get k index) [ none ↦ [] | some b ↦ b ]

  -- `index.entry(key).or_default().insert(value)`
  unfoldable pub add_index_entry : Index K V → K → V → Index K V
  unfolding bucket
  add_index_entry index k v = insert k (insert v tt (bucket k index)) index

  -- an emptied bucket goes with its key
  store_bucket : K → OrdSet V → Index K V → Index K V
  store_bucket k [] index = remove k index
  store_bucket k (e ∷ b) index = insert k (e ∷ b) index

  unfoldable pub remove_index_entry : Index K V → K → V → Index K V
  unfolding store_bucket
  remove_index_entry index k v = elim (get k index) [
    | none ↦ index
    | some b ↦ store_bucket k (remove v b) index
  ]

  -- whether the bucket of a key holds a value
  unfoldable pub holds : K → V → Index K V → Bool
  unfolding bucket
  holds k v index = contains v (bucket k index)

module _ {ℓ κ} {K : Type ℓ} {V : Type κ} where
  -- `flat_map(|(_, values)| values.iter().copied())`
  unfoldable pub members : Index K V → List V
  members [] = []
  members ((k, b) ∷ index) = keys b ++ members index
