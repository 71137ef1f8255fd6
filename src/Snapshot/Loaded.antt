-- ===== src/Snapshot/Loaded.antt =====
-- What holds of a reducer that `load_snapshot` returns.
use coppice_names.Prelude.{
  ℕ, ◌≡◌, ◌≢◌, refl, true, Option, none, some, List, [], ◌∷◌, Result, ok, err, arith, subst, ap,
  map_err, ok_or, bind-eq-ok, Bool-cases, inl, inr, is_ok_and,
}
use coppice_names.Collections.Order.{same, nat_ord, list_ord, eq_of_same}
use coppice_names.Collections.OrdMap.{OrdMap, get, insert}
use coppice_names.Collections.OrdMap.Lookup.{get-insert}
use coppice_names.Collections.OrdMap.Ascending.{IsAscending, insert-IsAscending}
use coppice_names.Protocol.{
  Bytes, Network, NameId, Commitment, CommitRef, Primitives, commit_ref_ord, nonzero_from_bytes,
  name_id,
}
use coppice_names.Schedule.{Parameters, validate}
use coppice_names.Reducer.State.{Head, ProofVerifier, Reducer, Lifecycle, lifecycle}
use coppice_names.Reducer.Indexes.{IsIndexed}
use coppice_names.Snapshot.{
  SnapshotError, invalid_state, parameters_mismatch, encoding, StoredHead, StoredReducer, Serde,
  validate_commit, restore_head, is_head_of, read_commits, read_heads, restore_records,
  load_snapshot, rebuild_derived_indexes,
}
use coppice_names.Snapshot.Rebuild.Agrees.{rebuild-IsIndexed, rebuild-frame}

ok_injective : {A : Type 0} {a b : A} → ◌≡◌ {A = Result SnapshotError A} (ok a) (ok b) → a ≡ b
ok_injective h = ground arith

some_injective : {a b : Head} → some a ≡ some b → a ≡ b
some_injective h = ground arith

module _ ⦃prims : Primitives⦄ where
  -- one round of the loop over the stored commits
  read_commits-round :
      (p : Parameters) (tip : Option ℕ) (reference : CommitRef) (bytes : Bytes)
      (rest : List (CommitRef × Bytes)) (acc out : OrdMap CommitRef Commitment)
      → read_commits p tip ((reference, bytes) ∷ rest) acc ≡ ok out
      → (commitment : Commitment) × (is_ok_and (validate_commit p tip reference) (λ _. true) ≡ true)
        × (read_commits p tip rest (insert reference commitment acc) ≡ ok out)
  unfolding read_commits
  read_commits-round p tip reference bytes rest acc out h =
      let (commitment, _, h1) =
        bind-eq-ok (map_err (nonzero_from_bytes bytes) (λ _. invalid_state)) _ h in
      (commitment, ground arith, ground arith)

  -- one round of the loop over the stored heads
  read_heads-round :
      (p : Parameters) (network : Network) (tip : Option ℕ) (bytes : Bytes) (stored : StoredHead)
      (rest : List (Bytes × StoredHead)) (acc out : OrdMap NameId Head)
      → read_heads p network tip ((bytes, stored) ∷ rest) acc ≡ ok out
      → (id : NameId) × (head : Head) × (restore_head p network tip stored ≡ ok head)
        × (is_head_of id head ≡ true)
        × (read_heads p network tip rest (insert id head acc) ≡ ok out)
  unfolding read_heads
  read_heads-round p network tip bytes stored rest acc out h =
      let (id, _, h1) = bind-eq-ok (map_err (nonzero_from_bytes bytes) (λ _. invalid_state)) _ h in
      let (head, restored, h2) = bind-eq-ok (restore_head p network tip stored) _ h1 in
      (id, head, restored, ground arith, ground arith)

  read_commits-IsAscending :
      (p : Parameters) (tip : Option ℕ) (stored : List (CommitRef × Bytes))
      (acc out : OrdMap CommitRef Commitment)
      → read_commits p tip stored acc ≡ ok out
      → IsAscending acc
      → IsAscending out
  unfolding read_commits
  read_commits-IsAscending p tip [] acc out h a = subst (λ m. IsAscending m) (ok_injective h) a
  read_commits-IsAscending p tip ((reference, bytes) ∷ rest) acc out h a =
      let (commitment, _, more) = read_commits-round p tip reference bytes rest acc out h in
      read_commits-IsAscending p tip rest (insert reference commitment acc) out more
        (insert-IsAscending reference commitment acc a)

  -- a head that may stand under an identifier at a tip
  pub record IsLive (p : Parameters) (tip : Option ℕ) (id : NameId) (head : Head) : Type 0 where
    pub named : name_id head.name ≡ ok id
    pub height : ℕ
    pub at_tip : tip ≡ some height
    pub kept : lifecycle head height p ≢ Lifecycle.missing

  restore_head-kept :
      (p : Parameters) (network : Network) (tip : Option ℕ) (stored : StoredHead) (head : Head)
      → restore_head p network tip stored ≡ ok head
      → (height : ℕ) × (tip ≡ some height) × (lifecycle head height p ≢ Lifecycle.missing)
  unfolding restore_head lifecycle
  restore_head-kept p network none stored head h = ground arith
  restore_head-kept p network (some tip) stored head h = (tip, refl, λ dead. ground arith)

  named_of_is_head :
      (id : NameId) (head : Head) → is_head_of id head ≡ true → name_id head.name ≡ ok id
  named_of_is_head id head h =
      elim (name_id head.name) as (λ o. is_ok_and o (λ n. same n id) ≡ true → o ≡ ok id) [
        | ok n ↦ (λ e. ap (ok) (eq_of_same n id e))
        | err e ↦ (λ e. ground arith)
      ]
        h

  -- the heads that the loop has restored are in order and may stand at the tip
  abbrev pub AreLive : Parameters → Option ℕ → OrdMap NameId Head → Type 0
  AreLive p tip heads =
      IsAscending heads
      × ((id : NameId) (head : Head) → get id heads ≡ some head → IsLive p tip id head)

  insert-AreLive :
      (p : Parameters) (tip : Option ℕ) (id : NameId) (head : Head) (heads : OrdMap NameId Head)
      → IsLive p tip id head
      → AreLive p tip heads
      → AreLive p tip (insert id head heads)
  insert-AreLive p tip id head heads live a = (
    insert-IsAscending id head heads a.0,
    λ j other e. elim (Bool-cases (same id j)) [
      | inl hit ↦
          subst (λ k. IsLive p tip k other) (eq_of_same id j hit)
            (subst (λ o. IsLive p tip id o)
              (some_injective (ground (arith, get-insert id j head heads))) live)
      | inr miss ↦ a.1 j other (ground (arith, get-insert id j head heads))
    ],
  )

  read_heads-AreLive :
      (p : Parameters) (network : Network) (tip : Option ℕ) (stored : List (Bytes × StoredHead))
      (acc out : OrdMap NameId Head)
      → read_heads p network tip stored acc ≡ ok out
      → AreLive p tip acc
      → AreLive p tip out
  unfolding read_heads
  read_heads-AreLive p network tip [] acc out h a = subst (λ m. AreLive p tip m) (ok_injective h) a
  read_heads-AreLive p network tip ((bytes, stored) ∷ rest) acc out h a =
      let (id, head, restored, passed, more) =
        read_heads-round p network tip bytes stored rest acc out h in
      let (height, at_tip, kept) = restore_head-kept p network tip stored head restored in
      read_heads-AreLive p network tip rest (insert id head acc) out more (
        insert-AreLive p tip id head acc
          (record {
            named = named_of_is_head id head passed;
            height = height;
            at_tip = at_tip;
            kept = kept;
          })
          a)

  -- the parts of `restore_records` that the records come from
  restore_records-parts :
      (fingerprint : Bytes) (p : Parameters) (network : Network) (verifier : ProofVerifier)
      (stored : StoredReducer) (r : Reducer)
      → restore_records fingerprint p network verifier stored ≡ ok r
      → (read_commits p stored.tip_height stored.commits [] ≡ ok r.commits)
        × (read_heads p network stored.tip_height stored.heads [] ≡ ok r.heads)
        × (r.tip_height ≡ stored.tip_height)
        × (r.parameters ≡ p)
  unfolding restore_records
  restore_records-parts fingerprint p network verifier stored r h = ground arith

  nil-AreLive : (p : Parameters) (tip : Option ℕ) → AreLive p tip []
  unfolding get
  nil-AreLive p tip = (tt, λ id head e. ground arith)

  -- a loaded reducer is restored records with their indexes rebuilt
  load_snapshot-parts :
      (serde : Serde) (parameters : Parameters) (network : Network) (verifier : ProofVerifier)
      (bytes : Bytes) (r : Reducer)
      → load_snapshot serde parameters network verifier bytes ≡ ok r
      → (p : Parameters) × (stored : StoredReducer) × (records : Reducer) × (restore_records
            serde.fingerprint p network verifier stored
          ≡ ok records)
        × (rebuild_derived_indexes records ≡ r)
  unfolding load_snapshot
  load_snapshot-parts serde parameters network verifier bytes r h =
      let (p, _, h1) = bind-eq-ok (map_err (validate parameters) (λ _. parameters_mismatch)) _ h in
      let (stored, _, h2) = bind-eq-ok (ok_or (serde.from_slice bytes) encoding) _ h1 in
      let (records, restored, h3) =
        bind-eq-ok (restore_records serde.fingerprint p network verifier stored) _ h2 in
      (p, stored, records, restored, ok_injective h3)

  restore_records-IsConsistent :
      (fingerprint : Bytes) (p : Parameters) (network : Network) (verifier : ProofVerifier)
      (stored : StoredReducer) (r : Reducer)
      → restore_records fingerprint p network verifier stored ≡ ok r
      → IsIndexed (rebuild_derived_indexes r) × AreLive r.parameters r.tip_height r.heads
  restore_records-IsConsistent fingerprint p network verifier stored r h =
      let (commits, heads, tip, same_p) =
        restore_records-parts fingerprint p network verifier stored r h in
      let live =
        read_heads-AreLive p network stored.tip_height stored.heads [] r.heads heads
          (nil-AreLive p stored.tip_height) in
      let ordered =
        read_commits-IsAscending p stored.tip_height stored.commits [] r.commits commits tt in
      (rebuild-IsIndexed r live.0 ordered, rw (tip, same_p) live)

  -- A reducer that `load_snapshot` returns has its maps in order and its indexes in agreement with
  -- its records, whatever the snapshot held; it stores no head under an identifier that is not its
  -- name's, and none that its tip finds claimable.
  pub load_snapshot-IsConsistent :
      (serde : Serde) (parameters : Parameters) (network : Network) (verifier : ProofVerifier)
      (bytes : Bytes) (r : Reducer)
      → load_snapshot serde parameters network verifier bytes ≡ ok r
      → IsIndexed r
        × ((id : NameId) (head : Head)
            → get id r.heads ≡ some head
            → IsLive r.parameters r.tip_height id head)
  load_snapshot-IsConsistent serde parameters network verifier bytes r h =
      let (p, stored, records, restored, rebuilt) =
        load_snapshot-parts serde parameters network verifier bytes r h in
      let (indexed, live) =
        restore_records-IsConsistent serde.fingerprint p network verifier stored records restored in
      let (heads, chain, tip) = rebuild-frame records in
      subst
        (λ s.
          IsIndexed s
          × ((id : NameId) (head : Head)
              → get id s.heads ≡ some head
              → IsLive s.parameters s.tip_height id head))
        rebuilt (indexed, rw (heads, chain, tip) live.1)
