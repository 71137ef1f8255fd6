-- ===== src/Sqlite/Session.antt =====
-- A method of a transaction as a function on the database: it ends with a value, or fails with an
-- error and whatever its statements wrote before.
use coppice_names.Prelude.{
  ◌≡◌, ◌⊎◌, inl, inr, refl, Bool, true, false, List, [], ◌∷◌, Result, ok, err,
}
use coppice_names.Sqlite.Identity.{StoreError}
use coppice_names.Sqlite.Tables.{Database}

pub data Outcome (A : Type 0) : Type 0 where
  done : A → Database → Outcome A
  failed : StoreError → Database → Outcome A

abbrev pub Session : Type 0 → Type 0
Session A = Database → Outcome A

infixl 5 ◌>>=◌ ◌>>◌
abbrev pub ◌>>=◌ : {A B : Type 0} → Session A → (A → Session B) → Session B
◌>>=◌ m f db = elim (m db) [ done a after ↦ f a after | failed e after ↦ failed e after ]

abbrev pub ◌>>◌ : {B : Type 0} → Session (Unit {0}) → Session B → Session B
m >> k = m >>= λ _. k

abbrev pub pure : {A : Type 0} → A → Session A
pure a db = done a db

-- `?` on a result that needs no statement
abbrev pub lift : {A : Type 0} → Result StoreError A → Session A
lift (ok a) db = done a db
lift (err e) db = failed e db

-- an early `return Err(e)` unless the test holds
abbrev pub ensure : Bool → StoreError → Session (Unit {0})
ensure true e db = done tt db
ensure false e db = failed e db

-- a statement that always succeeds
abbrev pub update : (Database → Database) → Session (Unit {0})
update f db = done tt (f db)

-- a loop over a list, which stops at the first failure
unfoldable pub for_each : {A : Type 0} → (A → Session (Unit {0})) → List A → Session (Unit {0})
for_each f [] db = done tt db
for_each f (a ∷ rest) db = (f a >> for_each f rest) db

-- A session that succeeds after a first step: the step succeeded, and so did the rest.
module _ {A B : Type 0} where
  pub after_step :
      (m : Session A) (f : A → Session B) (db : Database) {b : B} {after : Database}
      → (m >>= f) db ≡ done b after
      → (a : A) × (mid : Database) × (m db ≡ done a mid) × (f a mid ≡ done b after)
  after_step m f db {b} {after} h = step (m db) refl h
    where
      step :
          (o : Outcome A)
          → m db ≡ o
          → elim o [ done a mid ↦ f a mid | failed e mid ↦ failed e mid ] ≡ done b after
          → (a : A) × (mid : Database) × (m db ≡ done a mid) × (f a mid ≡ done b after)
      step (done a mid) p q = (a, mid, p, q)
      step (failed e mid) p q = cc

  -- ... a step that leaves the database alone
  pub after_lift :
      (r : Result StoreError A) (f : A → Session B) (db : Database) {b : B} {after : Database}
      → (lift r >>= f) db ≡ done b after
      → (a : A) × (r ≡ ok a) × (f a db ≡ done b after)
  after_lift (ok a) f db h = (a, refl, h)
  after_lift (err e) f db h = cc

module _ {B : Type 0} where
  pub after_ensure :
      (test : Bool) (e : StoreError) (k : Session B) (db : Database) {b : B} {after : Database}
      → (ensure test e >> k) db ≡ done b after
      → (test ≡ true) × (k db ≡ done b after)
  after_ensure true e k db h = (refl, h)
  after_ensure false e k db h = cc

-- running a session whose first step is known
pub run_step :
    {A B : Type 0} (m : Session A) (f : A → Session B) (db : Database) {a : A} {mid : Database}
    → m db ≡ done a mid
    → (m >>= f) db ≡ f a mid
run_step m f db h = rw (◌>>=◌, h) refl

pub done_injective :
    {A : Type 0} (a b : A) (mid after : Database) → done a mid ≡ done b after → after ≡ mid
done_injective a b mid after h = cc (h)

pub Outcome-cases :
    {A : Type 0} (o : Outcome A)
    → ((a : A) × (db : Database) × (o ≡ done a db))
      ⊎ ((e : StoreError) × (db : Database) × (o ≡ failed e db))
Outcome-cases (done a db) = inl (a, db, refl)
Outcome-cases (failed e db) = inr (e, db, refl)

pub run_failure :
    {A B : Type 0} (m : Session A) (f : A → Session B) (db : Database) {e : StoreError}
    {mid : Database}
    → m db ≡ failed e mid
    → (m >>= f) db ≡ failed e mid
run_failure m f db h = rw (◌>>=◌, h) refl

pub lift-eq-done :
    {A : Type 0} (r : Result StoreError A) (db : Database) {a : A} {after : Database}
    → lift r db ≡ done a after
    → (r ≡ ok a) × (after ≡ db)
lift-eq-done (ok b) db h = (cc, cc)
lift-eq-done (err e) db h = cc

pub ensure-eq-done :
    (test : Bool) (e : StoreError) (db : Database) {after : Database}
    → ensure test e db ≡ done tt after
    → (test ≡ true) × (after ≡ db)
ensure-eq-done true e db h = (refl, cc)
ensure-eq-done false e db h = cc
