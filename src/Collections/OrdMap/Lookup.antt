-- ===== src/Collections/OrdMap/Lookup.antt =====
-- What `get` reads after each operation on a map; none of it needs the entries to be in order.
use coppice_names.Prelude.{
  ◌≡◌, refl, Bool, false, ◌||◌, none, some, List, [], ◌∷◌, arith, if◌then◌else◌,
}
use coppice_names.Collections.Order.{Ord, same, eq_of_same, same_self}
use coppice_names.Collections.OrdMap.{OrdMap, get, contains, insert, remove, set_of}

module _ {ℓ κ} {K : Type ℓ} {V : Type κ} ⦃o : Ord K⦄ where
  pub get-insert :
      (k j : K) (v : V) (m : OrdMap K V)
      → get j (insert k v m) ≡ (if same k j then some v else get j m)
  unfolding get insert
  get-insert k j v [] = refl
  get-insert k j v ((i, w) ∷ m) =
      ground
        (arith, get-insert k j v m, o.eq_of_cmp k i, eq_of_same i j, eq_of_same k j, o.cmp_self j)

  pub get-remove :
      (k j : K) (m : OrdMap K V) → get j (remove k m) ≡ (if same k j then none else get j m)
  unfolding get remove
  get-remove k j [] = ground arith
  get-remove k j ((i, w) ∷ m) =
      ground (arith, get-remove k j m, eq_of_same i k, eq_of_same i j, eq_of_same k j, same_self j)

  pub contains-insert :
      (k j : K) (v : V) (m : OrdMap K V) → contains j (insert k v m) ≡ (same k j || contains j m)
  unfolding contains
  contains-insert k j v m = ground (arith, get-insert k j v m)

-- membership in a list, by the comparison
module _ {ℓ} {K : Type ℓ} ⦃o : Ord K⦄ where
  unfoldable pub mem : K → List K → Bool
  mem k [] = false
  mem k (j ∷ js) = same j k || mem k js

  pub contains-set_of : (k : K) (js : List K) → contains k (set_of js) ≡ mem k js
  unfolding contains get set_of mem
  contains-set_of k [] = refl
  contains-set_of k (j ∷ js) = ground (arith, get-insert j k tt (set_of js), contains-set_of k js)
