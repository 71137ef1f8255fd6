-- ===== src/Sqlite/Records.antt =====
-- Reading, checking and writing one record: the helpers at the end of the file.
pub mod Reads
use coppice_names.Prelude.{
  ℕ, Bool, true, false, not, ◌||◌, Option, none, some, [], ◌∷◌, Result, ok, err, ◌>>=◌, ◌>>◌, guard,
  map_err, ltb, ◌==◌, if◌then◌else◌, is_some_and, length, ◌≡◌,
}
use coppice_names.Collections.Order.{Ord, ord_by, same, nat_ord, list_ord, pair_ord, option_ord}
use coppice_names.Collections.OrdMap.{OrdMap, get, insert, remove}
use coppice_names.Protocol.{
  Bytes, Network, NameId, CommitRef, StateRef, Primitives, commit_ref_ord, state_ref_ord, name_id,
  nonzero_from_bytes, field_from_bytes, parse_name, parse_ua,
}
use coppice_names.Reducer.State.{Head, ReducerTip}
use coppice_names.Sqlite.Identity.{
  StoreError, sqlite, invalid_stored_record, encoding, query_returned_no_rows,
}
use coppice_names.Sqlite.Tables.{Database, HeadRow, Metadata}
use coppice_names.Sqlite.Session.{Session, lift, update}

pub record HeadRecord : Type 0 where
  pub name : Bytes
  pub ua : Bytes
  pub producer : StateRef
  pub commitment : Bytes
  pub future_nf : Bytes
  pub producer_epoch : ℕ
  pub expiry_height : ℕ
  pub terminal_height : Option ℕ

-- `From<&Head> for HeadRecord`
abbrev pub head_record : Head → HeadRecord
head_record head = record {
  name = head.name;
  ua = head.ua;
  producer = head.producer;
  commitment = head.commitment;
  future_nf = head.future_nf;
  producer_epoch = head.producer_epoch;
  expiry_height = head.expiry_height;
  terminal_height = head.terminal_height;
}

abbrev pub optional_record : Option Head → Option HeadRecord
optional_record none = none
optional_record (some head) = some (head_record head)

abbrev head_record_key :
    HeadRecord → Bytes × (Bytes × (StateRef × (Bytes × (Bytes × (ℕ × (ℕ × Option ℕ))))))
head_record_key r = (
  r.name,
  (
    r.ua,
    (
      r.producer,
      (r.commitment, (r.future_nf, (r.producer_epoch, (r.expiry_height, r.terminal_height)))),
    ),
  ),
)

pub head_record_key_injective : (a b : HeadRecord) → head_record_key a ≡ head_record_key b → a ≡ b
head_record_key_injective a b h = cc (h)

abbrev tip_key : ReducerTip → ℕ × Bytes
tip_key t = (t.height, t.hash)

pub tip_key_injective : (a b : ReducerTip) → tip_key a ≡ tip_key b → a ≡ b
tip_key_injective a b h = cc (h)

-- the comparisons behind `==` on heads and on tips
instance unfoldable pub head_record_ord : Ord HeadRecord
head_record_ord = ord_by head_record_key head_record_key_injective

instance unfoldable pub tip_ord : Ord ReducerTip
tip_ord = ord_by tip_key tip_key_injective

-- `decode_32`
unfoldable pub decode_32 : Bytes → Result StoreError Bytes
decode_32 bytes = do guard (length bytes == 32) invalid_stored_record; ok bytes

-- `value.map(decode_32).transpose()`
unfoldable pub decode_optional_32 : Option Bytes → Result StoreError (Option Bytes)
unfolding decode_32
decode_optional_32 none = ok none
decode_optional_32 (some bytes) = do decoded ← decode_32 bytes; ok (some decoded)

-- `decode_optional_tip`
unfoldable pub decode_optional_tip : Option ℕ → Option Bytes → Result StoreError (Option ReducerTip)
unfolding decode_32
decode_optional_tip none none = ok none
decode_optional_tip none (some bytes) = err invalid_stored_record
decode_optional_tip (some height) none = err invalid_stored_record
decode_optional_tip (some height) (some bytes) = do
  hash ← decode_32 bytes
  ok (some (record { height = height; hash = hash }))

abbrev pub height_of : Option ReducerTip → Option ℕ
height_of none = none
height_of (some tip) = some tip.height

abbrev pub hash_of : Option ReducerTip → Option Bytes
hash_of none = none
hash_of (some tip) = some tip.hash

-- the row that `read_tip` decodes
unfoldable pub stored_tip : Database → Result StoreError (Option ReducerTip)
unfolding decode_optional_tip
stored_tip db = elim db.metadata [
  | none ↦ err (sqlite query_returned_no_rows)
  | some m ↦ decode_optional_tip m.tip_height m.tip_hash
]

-- `read_tip`
unfoldable pub read_tip : Session (Option ReducerTip)
unfolding stored_tip
read_tip db = lift (stored_tip db) db

-- an `UPDATE` of the metadata's row; without the row it does nothing
abbrev pub update_metadata : (Metadata → Metadata) → Database → Database
update_metadata f db = record db {
  metadata = elim db.metadata [ none ↦ none | some m ↦ some (f m) ];
}

-- `write_tip`
unfoldable pub write_tip : Option ReducerTip → Session (Unit {0})
write_tip tip =
    update (update_metadata (λ m. record m { tip_height = height_of tip; tip_hash = hash_of tip }))

-- the columns of a head
unfoldable pub head_row : HeadRecord → HeadRow
head_row r = record {
  name = r.name;
  ua = r.ua;
  producer_height = r.producer.height;
  producer_tx_index = r.producer.tx_index;
  producer_txid = r.producer.txid;
  producer_action_index = r.producer.action_index;
  commitment = r.commitment;
  future_nf = r.future_nf;
  producer_epoch = r.producer_epoch;
  expiry_height = r.expiry_height;
  terminal_height = r.terminal_height;
}

-- the closure of `read_head` on a row
unfoldable pub decode_head : Option HeadRow → Result StoreError (Option HeadRecord)
unfolding decode_32
decode_head none = ok none
decode_head (some row) = do
  txid ← decode_32 row.producer_txid
  commitment ← decode_32 row.commitment
  future_nf ← decode_32 row.future_nf
  ok (
      some (record {
        name = row.name;
        ua = row.ua;
        producer = record {
          height = row.producer_height;
          tx_index = row.producer_tx_index;
          txid = txid;
          action_index = row.producer_action_index;
        };
        commitment = commitment;
        future_nf = future_nf;
        producer_epoch = row.producer_epoch;
        expiry_height = row.expiry_height;
        terminal_height = row.terminal_height;
      }))

-- `read_head`
unfoldable pub read_head : NameId → Session (Option HeadRecord)
unfolding decode_head
read_head id db = lift (decode_head (get id db.heads)) db

-- `read_commit`
unfoldable pub read_commit : CommitRef → Session (Option Bytes)
unfolding decode_optional_32
read_commit reference db = lift (decode_optional_32 (get reference db.pending_commits)) db

-- `DELETE` of a key and `INSERT` of its new row, if there is one
unfoldable pub put {ℓ κ} :
    {K : Type ℓ} {V : Type κ} ⦃o : Ord K⦄ → K → Option V → OrdMap K V → OrdMap K V
put k none m = remove k m
put k (some v) m = insert k v (remove k m)

abbrev pub optional_row : Option HeadRecord → Option HeadRow
optional_row none = none
optional_row (some r) = some (head_row r)

-- `write_head`
unfoldable pub write_head : NameId → Option HeadRecord → Session (Unit {0})
unfolding put head_row
write_head id r = update (λ db. record db { heads = put id (optional_row r) db.heads })

-- `write_commit`
unfoldable pub write_commit : CommitRef → Option Bytes → Session (Unit {0})
unfolding put
write_commit reference commitment =
    update (λ db. record db { pending_commits = put reference commitment db.pending_commits })

-- What the store takes from `serde_json`, on the records of its journal.
pub record Json : Type 0 where
  pub to_vec : HeadRecord → Option Bytes
  pub from_slice : Bytes → Option HeadRecord

unfoldable pub encode_record : Json → Option HeadRecord → Result StoreError (Option Bytes)
encode_record json none = ok none
encode_record json (some r) = elim (json.to_vec r) [
  | none ↦ err encoding
  | some bytes ↦ ok (some bytes)
]

unfoldable pub decode_record : Json → Option Bytes → Result StoreError (Option HeadRecord)
decode_record json none = ok none
decode_record json (some bytes) = elim (json.from_slice bytes) [
  | none ↦ err encoding
  | some r ↦ ok (some r)
]

module _ ⦃prims : Primitives⦄ where
  -- `decode_name_id`
  unfoldable pub decode_name_id : Bytes → Result StoreError NameId
  unfolding decode_32
  decode_name_id bytes = do
    array ← decode_32 bytes
    map_err (nonzero_from_bytes array) (λ _. invalid_stored_record)

  -- `validate_head`
  unfoldable pub validate_head :
      NameId → HeadRecord → Network → Option ℕ → Result StoreError (Unit {0})
  validate_head id r network tip_height = do
    name ← map_err (parse_name r.name) (λ _. invalid_stored_record)
    of_name ← map_err (name_id name) (λ _. invalid_stored_record)
    guard (same of_name id) invalid_stored_record
    map_err (parse_ua network r.ua) (λ _. invalid_stored_record) >>= λ _.
        map_err (field_from_bytes r.commitment) (λ _. invalid_stored_record) >>= λ _.
        map_err (field_from_bytes r.future_nf) (λ _. invalid_stored_record) >>= λ _.
        guard
          (not (
            ltb r.expiry_height r.producer.height
            || is_some_and r.terminal_height (λ height. ltb height r.producer.height)
            || is_some_and tip_height (λ tip.
              ltb tip r.producer.height
              || is_some_and r.terminal_height (λ height. ltb tip height))))
          invalid_stored_record

  -- `if let Some(record) = .. { validate_head(..)? }`
  unfoldable pub validate_optional :
      NameId → Option HeadRecord → Network → Option ℕ → Result StoreError (Unit {0})
  unfolding validate_head
  validate_optional id none network tip_height = ok tt
  validate_optional id (some r) network tip_height = validate_head id r network tip_height
