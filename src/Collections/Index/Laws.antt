-- ===== src/Collections/Index/Laws.antt =====
-- What a bucket index holds after an entry is added or removed, and that an index in order with no
-- empty bucket is determined by what it holds.
use coppice_names.Prelude.{
  ◌≡◌, ◌≢◌, refl, Bool, true, false, not, ◌&&◌, ◌||◌, Option, none, some, [], ◌∷◌, arith,
  if◌then◌else◌, Option-cases, inl, inr, ap, sym,
}
use coppice_names.Collections.Order.{Ord, same, eq_of_same}
use coppice_names.Collections.OrdMap.{OrdSet, get, contains, insert, remove}
use coppice_names.Collections.OrdMap.Lookup.{get-insert, get-remove}
use coppice_names.Collections.OrdMap.Ascending.{
  IsAscending, insert-IsAscending, remove-IsAscending, ascending_ext,
}
use coppice_names.Collections.Index.{
  Index, bucket, add_index_entry, remove_index_entry, store_bucket, holds,
}

module _ {ℓ} {V : Type ℓ} ⦃p : Ord V⦄ where
  contains-insert_tt :
      (v w : V) (b : OrdSet V) → contains w (insert v tt b) ≡ (same v w || contains w b)
  unfolding contains
  contains-insert_tt v w b = ground (arith, get-insert v w tt b)

  contains-remove :
      (v w : V) (b : OrdSet V) → contains w (remove v b) ≡ (not (same v w) && contains w b)
  unfolding contains
  contains-remove v w b = ground (arith, get-remove v w b)

  insert-ne-nil : (v : V) (b : OrdSet V) → insert v tt b ≢ []
  unfolding insert
  insert-ne-nil v [] h = cc
  insert-ne-nil v ((w, u) ∷ b) h = ground arith

  -- sets in order with the same elements are equal
  set_ext :
      (a b : OrdSet V)
      → IsAscending a
      → IsAscending b
      → ((v : V) → contains v a ≡ contains v b)
      → a ≡ b
  unfolding contains
  set_ext a b s t h = ascending_ext a b s t λ v. units (get v a) (get v b) (h v)
    where
      units :
          (x y : Option (Unit {0}))
          → (elim x as (λ _. Bool) [ none ↦ false | some _ ↦ true ])
            ≡ (elim y as (λ _. Bool) [ none ↦ false | some _ ↦ true ])
          → x ≡ y
      units none none e = refl
      units none (some u) e = cc
      units (some u) none e = cc
      units (some u) (some u') e = refl

module _ {ℓ κ} {K : Type ℓ} {V : Type κ} ⦃o : Ord K⦄ ⦃p : Ord V⦄ where
  bucket-add :
      (index : Index K V) (k j : K) (v : V)
      → bucket j (add_index_entry index k v)
        ≡ (if same k j then insert v tt (bucket k index) else bucket j index)
  unfolding add_index_entry
  bucket-add index k j v = ground (arith, get-insert k j (insert v tt (bucket k index)) index)

  pub holds-add :
      (index : Index K V) (k j : K) (v w : V)
      → holds j w (add_index_entry index k v) ≡ (same k j && same v w || holds j w index)
  unfolding holds
  holds-add index k j v w =
      ground
        (arith, bucket-add index k j v, contains-insert_tt v w (bucket k index), eq_of_same k j)

  bucket-store :
      (k j : K) (b : OrdSet V) (index : Index K V)
      → bucket j (store_bucket k b index) ≡ (if same k j then b else bucket j index)
  unfolding bucket store_bucket
  bucket-store k j [] index = ground (arith, get-remove k j index)
  bucket-store k j (e ∷ b) index = ground (arith, get-insert k j (e ∷ b) index)

  bucket-remove :
      (index : Index K V) (k j : K) (v : V)
      → bucket j (remove_index_entry index k v)
        ≡ (if same k j then remove v (bucket k index) else bucket j index)
  unfolding remove_index_entry bucket remove
  bucket-remove index k j v = elim (Option-cases (get k index)) [
    | inl e ↦ ground (arith, eq_of_same k j)
    | inr (b, e) ↦ ground (arith, bucket-store k j (remove v b) index)
  ]

  pub holds-remove :
      (index : Index K V) (k j : K) (v w : V)
      → holds j w (remove_index_entry index k v) ≡ (not (same k j && same v w) && holds j w index)
  unfolding holds
  holds-remove index k j v w =
      ground
        (arith, bucket-remove index k j v, contains-remove v w (bucket k index), eq_of_same k j)

  -- keys in order, buckets in order, and no bucket empty
  pub record IsTidy (index : Index K V) : Type (ℓ ⊔ κ) where
    pub ascending : IsAscending index
    pub buckets : (k : K) (b : OrdSet V) → get k index ≡ some b → IsAscending b × (b ≢ [])

  bucket-IsAscending : (index : Index K V) (k : K) → IsTidy index → IsAscending (bucket k index)
  unfolding bucket
  bucket-IsAscending index k t = elim (Option-cases (get k index)) [
    | inl e ↦ rw (e, bucket) tt
    | inr (b, e) ↦ rw (e, bucket) (t.buckets k b e).0
  ]

  pub nil-IsTidy : IsTidy []
  unfolding get
  nil-IsTidy = record { ascending = tt; buckets = λ k b h. cc }

  insert-IsTidy :
      (index : Index K V) (k : K) (b : OrdSet V)
      → IsTidy index
      → IsAscending b
      → b ≢ []
      → IsTidy (insert k b index)
  insert-IsTidy index k b t s n = record {
    ascending = insert-IsAscending k b index t.ascending;
    buckets = λ j c h. insert_buckets j c (same k j) (rw get-insert at h);
  }
    where
      insert_buckets :
          (j : K) (c : OrdSet V) (found : Bool)
          → (if found then some b else get j index) ≡ some c
          → IsAscending c × (c ≢ [])
      insert_buckets j c true h = let e : b ≡ c = cc in rw (← e) (s, n)
      insert_buckets j c false h = t.buckets j c h

  remove-IsTidy : (index : Index K V) (k : K) → IsTidy index → IsTidy (remove k index)
  remove-IsTidy index k t = record {
    ascending = remove-IsAscending k index t.ascending;
    buckets = λ j c h. t.buckets j c (ground (arith, get-remove k j index));
  }

  pub add-IsTidy :
      (index : Index K V) (k : K) (v : V) → IsTidy index → IsTidy (add_index_entry index k v)
  unfolding add_index_entry
  add-IsTidy index k v t =
      insert-IsTidy index k (insert v tt (bucket k index)) t
        (insert-IsAscending v tt (bucket k index) (bucket-IsAscending index k t))
        (insert-ne-nil v (bucket k index))

  store-IsTidy :
      (index : Index K V) (k : K) (b : OrdSet V)
      → IsTidy index
      → IsAscending b
      → IsTidy (store_bucket k b index)
  unfolding store_bucket
  store-IsTidy index k [] t s = remove-IsTidy index k t
  store-IsTidy index k (e ∷ b) t s = insert-IsTidy index k (e ∷ b) t s (λ h. cc)

  pub remove_entry-IsTidy :
      (index : Index K V) (k : K) (v : V) → IsTidy index → IsTidy (remove_index_entry index k v)
  unfolding remove_index_entry
  remove_entry-IsTidy index k v t = elim (Option-cases (get k index)) [
    | inl e ↦ rw (e, remove_index_entry) t
    | inr (b, e) ↦
        rw (e, remove_index_entry)
          (store-IsTidy index k (remove v b) t (remove-IsAscending v b (t.buckets k b e).0))
  ]

  -- Tidy indexes that hold the same entries are equal.
  pub index_ext :
      (a b : Index K V)
      → IsTidy a
      → IsTidy b
      → ((k : K) (v : V) → holds k v a ≡ holds k v b)
      → a ≡ b
  unfolding holds bucket
  index_ext a b s t h =
      ascending_ext a b s.ascending t.ascending
        λ k. buckets_eq (get k a) (get k b) (s.buckets k) (t.buckets k) (h k)
    where
      buckets_eq :
          (x y : Option (OrdSet V))
          → ((c : OrdSet V) → x ≡ some c → IsAscending c × (c ≢ []))
          → ((c : OrdSet V) → y ≡ some c → IsAscending c × (c ≢ []))
          → ((v : V)
              → contains v (elim x as (λ _. OrdSet V) [ none ↦ [] | some c ↦ c ])
                ≡ contains v (elim y as (λ _. OrdSet V) [ none ↦ [] | some c ↦ c ]))
          → x ≡ y
      buckets_eq none none s t h = refl
      buckets_eq none (some c) s t h = absurd ((t c refl).1 (sym (set_ext [] c tt (t c refl).0 h)))
      buckets_eq (some c) none s t h = absurd ((s c refl).1 (set_ext c [] (s c refl).0 tt h))
      buckets_eq (some c) (some d) s t h = ap some (set_ext c d (s c refl).0 (t d refl).0 h)
