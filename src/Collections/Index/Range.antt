-- ===== src/Collections/Index/Range.antt =====
-- What stands in the buckets up to a key.
use coppice_names.Prelude.{
  ℕ, ◌<◌, ◌≤◌, if◌then◌else◌, ◌≡◌, refl, true, false, ◌||◌, Bool, List, [], ◌∷◌, ◌++◌, arith,
  Bool-cases, inl, inr, leb, ◌&&◌,
}
use coppice_names.Collections.Order.{Ord, same, eq_of_same, same_self, nat_ord}
use coppice_names.Collections.OrdMap.{OrdMap, OrdSet, get, contains, keys, range_to}
use coppice_names.Collections.OrdMap.Lookup.{mem}
use coppice_names.Collections.OrdMap.Ascending.{IsAscending, Above}
use coppice_names.Collections.Index.{Index, members, holds, bucket}

module _ {ℓ} {K : Type ℓ} ⦃o : Ord K⦄ where
  pub mem-append : (k : K) (xs ys : List K) → mem k (xs ++ ys) ≡ (mem k xs || mem k ys)
  unfolding mem
  mem-append k [] ys = refl
  mem-append k (x ∷ xs) ys = ground (arith, mem-append k xs ys)

  pub mem-keys {κ} : {V : Type κ} (k : K) (m : OrdMap K V) → mem k (keys m) ≡ contains k m
  unfolding mem keys contains get
  mem-keys k [] = refl
  mem-keys k ((j, v) ∷ m) = ground (arith, mem-keys k m)

-- an index by numbers
module _ {ℓ} {V : Type ℓ} ⦃p : Ord V⦄ where
  holds-cons :
      (i j : ℕ) (v : V) (b : OrdSet V) (m : Index ℕ V)
      → holds j v ((i, b) ∷ m) ≡ (if same i j then contains v b else holds j v m)
  unfolding holds bucket get
  holds-cons i j v b m = ground arith

  holds-nil : (j : ℕ) (v : V) → holds j v [] ≡ false
  unfolding holds bucket contains get
  holds-nil j v = refl

  range_to-nil : (k : ℕ) (v : V) → mem v (members (range_to k [])) ≡ false
  unfolding range_to members mem
  range_to-nil k v = refl

  lt_of_held : (i j : ℕ) (v : V) (m : Index ℕ V) → Above i m → holds j v m ≡ true → i < j
  unfolding nat_ord
  lt_of_held i j v [] a h = absurd (ground (arith, holds-nil j v))
  lt_of_held i j v ((l, b) ∷ m) a h =
      ground (arith, lt_of_held i j v m a.1, holds-cons l j v b m, eq_of_same l j)

  range_to-cons :
      (i k : ℕ) (v : V) (b : OrdSet V) (m : Index ℕ V)
      → mem v (members (range_to k ((i, b) ∷ m)))
        ≡ (if leb i k then (contains v b || mem v (members (range_to k m))) else false)
  unfolding range_to members mem nat_ord
  range_to-cons i k v b m =
      ground (arith, mem-append v (keys b) (members (range_to k m)), mem-keys v b)

  -- what the buckets up to a key hold, some bucket holds whose key is no greater
  pub held_of_range :
      (k : ℕ) (v : V) (m : Index ℕ V)
      → IsAscending m
      → mem v (members (range_to k m)) ≡ true
      → (j : ℕ) × (j ≤ k) × (holds j v m ≡ true)
  held_of_range k v [] a h = absurd (ground (arith, range_to-nil k v))
  held_of_range k v ((i, b) ∷ m) a h = elim (Bool-cases (contains v b)) [
    | inl hit ↦ (
      i,
      ground (arith, range_to-cons i k v b m),
      ground (arith, holds-cons i i v b m, same_self i),
    )
    | inr miss ↦
        let (j, low, held) = held_of_range k v m a.1 (ground (arith, range_to-cons i k v b m)) in
        (j, low, ground (arith, holds-cons i j v b m, lt_of_held i j v m a.0 held, eq_of_same i j))
  ]

  pub range_of_held :
      (k j : ℕ) (v : V) (m : Index ℕ V)
      → IsAscending m
      → j ≤ k
      → holds j v m ≡ true
      → mem v (members (range_to k m)) ≡ true
  range_of_held k j v [] a low h = absurd (ground (arith, holds-nil j v))
  range_of_held k j v ((i, b) ∷ m) a low h = ground (
    arith,
    range_to-cons i k v b m,
    holds-cons i j v b m,
    range_of_held k j v m a.1 low,
    lt_of_held i j v m a.0,
    eq_of_same i j,
  )

  -- a value that stands in one bucket at most is listed up to a key exactly when that bucket is
  pub range_of_key :
      (h k : ℕ) (on : Bool) (v : V) (m : Index ℕ V)
      → IsAscending m
      → ((j : ℕ) → holds j v m ≡ (on && same k j))
      → mem v (members (range_to h m)) ≡ (on && leb k h)
  range_of_key h k on v m a agrees = elim (Bool-cases (mem v (members (range_to h m)))) [
    | inl listed ↦
        let (j, low, held) = held_of_range h v m a listed in
        ground (arith, agrees j, eq_of_same k j)
    | inr absent ↦ ground (arith, agrees k, same_self k, range_of_held h k v m a)
  ]
