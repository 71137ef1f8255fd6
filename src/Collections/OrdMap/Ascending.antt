-- ===== src/Collections/OrdMap/Ascending.antt =====
-- The order of the entries: the operations keep it, and a map in order is determined by what it
-- reads.
use Prim.Native.Nat.Ordering.{lt}
use coppice_names.Prelude.{◌≡◌, refl, sym, subst, false, none, some, [], ◌∷◌, map, some, arith}
use coppice_names.Collections.Order.{Ord, same, eq_of_same, same_self}
use coppice_names.Collections.OrdMap.{OrdMap, get, insert, remove}

same_above {ℓ} : {K : Type ℓ} ⦃o : Ord K⦄ (b k : K) → o.cmp b k ≡ lt → same k b ≡ false
unfolding same
same_above ⦃o⦄ b k h = ground (arith, o.cmp_flip b k)

module _ {ℓ κ} {K : Type ℓ} {V : Type κ} ⦃o : Ord K⦄ where
  -- every key of the map lies above `b`
  abbrev pub Above : K → OrdMap K V → Type 0
  Above b [] = Unit
  Above b ((j, w) ∷ m) = (o.cmp b j ≡ lt) × Above b m

  abbrev pub IsAscending : OrdMap K V → Type 0
  IsAscending [] = Unit
  IsAscending ((j, w) ∷ m) = Above j m × IsAscending m

  Above-trans : (a b : K) (m : OrdMap K V) → o.cmp a b ≡ lt → Above b m → Above a m
  Above-trans a b [] h s = tt
  Above-trans a b ((j, w) ∷ m) h s = (o.cmp_trans a b j h s.0, Above-trans a b m h s.1)

  Above-insert :
      (b k : K) (v : V) (m : OrdMap K V) → o.cmp b k ≡ lt → Above b m → Above b (insert k v m)
  unfolding insert
  Above-insert b k v [] h s = (h, tt)
  Above-insert b k v ((j, w) ∷ m) h s = ground (arith, Above-insert b k v m h)

  pub insert-IsAscending :
      (k : K) (v : V) (m : OrdMap K V) → IsAscending m → IsAscending (insert k v m)
  unfolding insert
  insert-IsAscending k v [] s = (tt, tt)
  insert-IsAscending k v ((j, w) ∷ m) s = ground (
    arith,
    insert-IsAscending k v m s.1,
    o.eq_of_cmp k j,
    o.cmp_flip k j,
    Above-trans k j m,
    Above-insert j k v m,
  )

  Above-remove : (b k : K) (m : OrdMap K V) → Above b m → Above b (remove k m)
  unfolding remove
  Above-remove b k [] s = tt
  Above-remove b k ((j, w) ∷ m) s = ground (arith, Above-remove b k m s.1)

  pub remove-IsAscending : (k : K) (m : OrdMap K V) → IsAscending m → IsAscending (remove k m)
  unfolding remove
  remove-IsAscending k [] s = tt
  remove-IsAscending k ((j, w) ∷ m) s =
      ground (arith, remove-IsAscending k m s.1, Above-remove j k m s.0)

  pub get-Above : (b : K) (m : OrdMap K V) → Above b m → get b m ≡ none
  unfolding get
  get-Above b [] s = refl
  get-Above b ((j, w) ∷ m) s = ground (arith, same_above b j s.0, get-Above b m s.1)

module _ {ℓ κ} {K : Type ℓ} {V : Type κ} ⦃o : Ord K⦄ where
  -- Two maps in order that read alike have the same head.
  head_eq :
      (k j : K) (v w : V) (m n : OrdMap K V)
      → IsAscending ((k, v) ∷ m)
      → IsAscending ((j, w) ∷ n)
      → ((i : K) → get i ((k, v) ∷ m) ≡ get i ((j, w) ∷ n))
      → k ≡ j
  unfolding get same
  head_eq k j v w m n s t h = ground (
    arith,
    h k,
    h j,
    o.cmp_self k,
    o.cmp_self j,
    o.cmp_flip k j,
    o.eq_of_cmp k j,
    get-Above k n,
    Above-trans k j n,
    get-Above j m,
    Above-trans j k m,
  )

  -- ... and the same tail.
  tail_eq :
      (k : K) (v w : V) (m n : OrdMap K V)
      → Above k m
      → Above k n
      → ((i : K) → get i ((k, v) ∷ m) ≡ get i ((k, w) ∷ n))
      → (i : K) → get i m ≡ get i n
  unfolding get
  tail_eq k v w m n s t h i = ground (arith, h i, eq_of_same k i, get-Above k m s, get-Above k n t)

  -- Two maps in order that read alike are equal.
  pub ascending_ext :
      (m n : OrdMap K V) → IsAscending m → IsAscending n → ((i : K) → get i m ≡ get i n) → m ≡ n
  unfolding get
  ascending_ext [] [] s t h = refl
  ascending_ext [] ((j, w) ∷ n) s t h = ground (arith, h j, same_self j)
  ascending_ext ((k, v) ∷ m) [] s t h = ground (arith, h k, same_self k)
  ascending_ext ((k, v) ∷ m) ((j, w) ∷ n) s t h =
      let e = head_eq k j v w m n s t h in
      let above : Above k n = subst (λ x. Above x n) (sym e) t.0 in
      let reads : ((i : K) → get i ((k, v) ∷ m) ≡ get i ((k, w) ∷ n)) =
        subst (λ x. (i : K) → get i ((k, v) ∷ m) ≡ get i ((x, w) ∷ n)) (sym e) h in
      let tails = ascending_ext m n s.1 t.1 (tail_eq k v w m n s.0 above reads) in
      let values : v ≡ w = ground (arith, reads k, same_self k) in cc (e, tails, values)

module _ {ℓ κ μ} {K : Type ℓ} {V : Type κ} {C : Type μ} ⦃o : Ord K⦄ where
  -- functions that agree on the entries that a map in order reads map it alike
  pub map_entries :
      (f g : K × V → C) (m : OrdMap K V)
      → IsAscending m
      → ((k : K) (v : V) → get k m ≡ some v → f (k, v) ≡ g (k, v))
      → map f m ≡ map g m
  unfolding get
  map_entries f g [] s h = refl
  map_entries f g ((k, v) ∷ m) s h = cc (
    h k v (rw same_self),
    map_entries f g m s.1 (λ j w r. h j w (ground (arith, eq_of_same k j, get-Above k m s.0))),
  )
