-- ===== src/Sqlite/Records/Reads.antt =====
-- What the helpers say when they succeed.
use coppice_names.Prelude.{
  ℕ, ◌≡◌, refl, sym, ◌∙◌, Option, none, some, ok, subst, inl, inr, Option-cases, arith,
}
use coppice_names.Protocol.{Bytes, NameId, CommitRef, commit_ref_ord}
use coppice_names.Reducer.State.{ReducerTip}
use coppice_names.Collections.OrdMap.{get}
use coppice_names.Collections.Order.{nat_ord, list_ord}
use coppice_names.Sqlite.Tables.{Database, HeadRow, Metadata}
use coppice_names.Sqlite.Records.{
  Json, HeadRecord, decode_32, decode_optional_32, decode_optional_tip, decode_head, encode_record,
  decode_record, head_row, optional_row, height_of, hash_of, read_head, read_commit, read_tip,
  stored_tip, update_metadata,
}
use coppice_names.Sqlite.Session.{Session, done, after_lift, ◌>>=◌}

pub decode_32-eq-ok : (bytes out : Bytes) → decode_32 bytes ≡ ok out → bytes ≡ out
unfolding decode_32
decode_32-eq-ok bytes out h = ground arith

pub decode_optional_32-eq-ok :
    (value out : Option Bytes) → decode_optional_32 value ≡ ok out → value ≡ out
unfolding decode_optional_32 decode_32
decode_optional_32-eq-ok none out h = ground arith
decode_optional_32-eq-ok (some bytes) out h = ground arith

pub decode_optional_tip-eq-ok :
    (height : Option ℕ) (hash : Option Bytes) (tip : Option ReducerTip)
    → decode_optional_tip height hash ≡ ok tip
    → (height ≡ height_of tip) × (hash ≡ hash_of tip)
unfolding decode_optional_tip decode_32
decode_optional_tip-eq-ok none none tip h = ground arith
decode_optional_tip-eq-ok none (some b) tip h = ground arith
decode_optional_tip-eq-ok (some a) none tip h = ground arith
decode_optional_tip-eq-ok (some a) (some b) tip h = ground arith

pub decode_head-eq-ok :
    (row : Option HeadRow) (out : Option HeadRecord)
    → decode_head row ≡ ok out
    → row ≡ optional_row out
unfolding decode_head decode_32 head_row
decode_head-eq-ok none out h = ground arith
decode_head-eq-ok (some row) out h = ground arith

-- what the journal wrote, it reads back
abbrev pub IsFaithful : Json → Type 0
IsFaithful json =
    (r : HeadRecord) (bytes : Bytes) → json.to_vec r ≡ some bytes → json.from_slice bytes ≡ some r

pub decode-encode_record :
    (json : Json) (r : Option HeadRecord) (bytes : Option Bytes)
    → IsFaithful json
    → encode_record json r ≡ ok bytes
    → decode_record json bytes ≡ ok r
unfolding encode_record decode_record
decode-encode_record json none bytes faithful h = ground arith
decode-encode_record json (some r) none faithful h = ground arith
decode-encode_record json (some r) (some bytes) faithful h = ground (arith, faithful r bytes)

-- A read changes nothing and returns what the row says.
module _ {B : Type 0} where
  pub after_read_head :
      (id : NameId) (f : Option HeadRecord → Session B) (db : Database) {b : B} {after : Database}
      → (read_head id >>= f) db ≡ done b after
      → (out : Option HeadRecord) × (get id db.heads ≡ optional_row out) × (f out db ≡ done b after)
  unfolding read_head
  after_read_head id f db h =
      let (out, decoded, rest) = after_lift (decode_head (get id db.heads)) f db h in
      (out, decode_head-eq-ok (get id db.heads) out decoded, rest)

  pub after_read_commit :
      (reference : CommitRef) (f : Option Bytes → Session B) (db : Database) {b : B}
      {after : Database}
      → (read_commit reference >>= f) db ≡ done b after
      → (out : Option Bytes) × (get reference db.pending_commits ≡ out)
        × (decode_optional_32 out ≡ ok out)
        × (f out db ≡ done b after)
  unfolding read_commit
  after_read_commit reference f db h =
      let stored = get reference db.pending_commits in
      let (out, decoded, rest) = after_lift (decode_optional_32 stored) f db h in
      let equal = decode_optional_32-eq-ok stored out decoded in
      (out, equal, subst (λ c. decode_optional_32 c ≡ ok out) equal decoded, rest)

  pub after_read_tip :
      (f : Option ReducerTip → Session B) (db : Database) {b : B} {after : Database}
      → (read_tip >>= f) db ≡ done b after
      → (out : Option ReducerTip) × (stored_tip db ≡ ok out) × (f out db ≡ done b after)
  unfolding read_tip
  after_read_tip f db h = after_lift (stored_tip db) f db h

-- the columns that the tip is read from
pub stored_tip-decodes :
    (db : Database) (m : Metadata) (tip : Option ReducerTip)
    → db.metadata ≡ some m
    → stored_tip db ≡ ok tip
    → decode_optional_tip m.tip_height m.tip_hash ≡ ok tip
unfolding stored_tip
stored_tip-decodes db m tip held h = sym (rw held refl) ∙ h

-- the metadata that carries a tip
pub stored_tip-eq-ok :
    (db : Database) (tip : Option ReducerTip)
    → stored_tip db ≡ ok tip
    → (m : Metadata) × (db.metadata ≡ some m)
      × (m.tip_height ≡ height_of tip)
      × (m.tip_hash ≡ hash_of tip)
unfolding stored_tip
stored_tip-eq-ok db tip h = elim (Option-cases db.metadata) [
  | inl none_held ↦ ground arith
  | inr (m, held) ↦
      let decoded = stored_tip-decodes db m tip held h in
      let (height, hash) = decode_optional_tip-eq-ok m.tip_height m.tip_hash tip decoded in
      (m, held, height, hash)
]

-- an update of other columns leaves the tip alone
pub stored_tip-update_metadata :
    (f : Metadata → Metadata) (db : Database)
    → ((m : Metadata) → ((f m).tip_height ≡ m.tip_height) × ((f m).tip_hash ≡ m.tip_hash))
    → stored_tip (update_metadata f db) ≡ stored_tip db
unfolding stored_tip
stored_tip-update_metadata f db keeps = elim (Option-cases db.metadata) [
  | inl e ↦ rw e refl
  | inr (m, e) ↦ rw (e, (keeps m).0, (keeps m).1) refl
]
