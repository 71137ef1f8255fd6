-- ===== src/Collections/OrdMap.antt =====
-- `BTreeMap<K, V>` as the list of its entries in ascending key order, and `BTreeSet<K>`, which is
-- a map to the unit type. The operations are those of the standard library that the program calls.
pub mod Lookup
pub mod Ascending
use Prim.Native.Nat.Ordering.{lt, eq, gt}
use coppice_names.Prelude.{
  Bool, true, false, Option, none, some, List, [], ◌∷◌, Ordering, map, is_some, if◌then◌else◌,
}
use coppice_names.Collections.Order.{Ord, same}

abbrev pub OrdMap {ℓ κ} : Type ℓ → Type κ → Type (ℓ ⊔ κ)
OrdMap K V = List (K × V)

abbrev pub OrdSet {ℓ} : Type ℓ → Type ℓ
OrdSet K = OrdMap K (Unit {0})

module _ {ℓ κ} {K : Type ℓ} {V : Type κ} where
  -- `keys()`
  unfoldable pub keys : OrdMap K V → List K
  keys [] = []
  keys ((k, v) ∷ m) = k ∷ keys m

module _ {ℓ κ} {K : Type ℓ} {V : Type κ} ⦃o : Ord K⦄ where
  -- `get(&key)`
  unfoldable pub get : K → OrdMap K V → Option V
  get k [] = none
  get k ((j, v) ∷ m) = if same j k then some v else get k m

  -- `contains_key(&key)`, `contains(&key)`
  unfoldable pub contains : K → OrdMap K V → Bool
  contains k m = is_some (get k m)

  -- `insert(key, value)`: replaces the value of a key that is there
  unfoldable pub insert : K → V → OrdMap K V → OrdMap K V
  insert k v [] = (k, v) ∷ []
  insert k v ((j, w) ∷ m) = elim (o.cmp k j) [
    | lt ↦ (k, v) ∷ (j, w) ∷ m
    | eq ↦ (k, v) ∷ m
    | gt ↦ (j, w) ∷ insert k v m
  ]

  -- `remove(&key)`
  unfoldable pub remove : K → OrdMap K V → OrdMap K V
  remove k [] = []
  remove k ((j, w) ∷ m) = let rest = remove k m in if same j k then rest else (j, w) ∷ rest

  -- `range(..=key)`, the entries up to `key` in order
  unfoldable pub range_to : K → OrdMap K V → OrdMap K V
  range_to k [] = []
  range_to k ((j, w) ∷ m) =
      let rest = range_to k m in elim (o.cmp j k) [ gt ↦ [] | _ ↦ (j, w) ∷ rest ]

module _ {ℓ} {K : Type ℓ} ⦃o : Ord K⦄ where
  -- `collect::<BTreeSet<_>>()`
  unfoldable pub set_of : List K → OrdSet K
  set_of [] = []
  set_of (k ∷ ks) = insert k tt (set_of ks)
