-- ===== src/Sqlite/Opening.antt =====
-- Opening a database that another store has opened before.
use coppice_names.Prelude.{
  ◌≡◌, refl, sym, ap, ◌∙◌, none, some, arith, inl, inr, Option-cases, ==_iff, ◌==◌, and-left,
  and-right,
}
use coppice_names.Collections.Order.{nat_ord, list_ord, option_ord, eq_of_same}
use coppice_names.Protocol.{Network}
use coppice_names.Sqlite.Identity.{
  Coverage, StoreIdentity, encode_coverage, encode_network, current_schema,
}
use coppice_names.Sqlite.Tables.{Database, Metadata}
use coppice_names.Sqlite.Session.{
  done, after_step, after_lift, after_ensure, ensure-eq-done, done_injective,
}
use coppice_names.Sqlite.Records.{decode_32}
use coppice_names.Sqlite.Records.Reads.{decode_32-eq-ok}
use coppice_names.Sqlite.Store.{
  check_deployment, check_coverage, validate_metadata, new_metadata,
  initialize_or_validate_metadata,
}

encode_network_injective : (a b : Network) → encode_network a ≡ encode_network b → a ≡ b
unfolding encode_network
encode_network_injective a b h = ground arith

encode_coverage_injective : (a b : Coverage) → encode_coverage a ≡ encode_coverage b → a ≡ b
unfolding encode_coverage
encode_coverage_injective a b h = ground arith

-- the metadata that a store of the identity accepts
pub record IsOf (identity : StoreIdentity) (m : Metadata) : Type 0 where
  pub schema_version : m.schema_version ≡ current_schema
  pub deployment_id : m.deployment_id ≡ identity.deployment_id
  pub ruleset_fingerprint : m.ruleset_fingerprint ≡ identity.ruleset_fingerprint
  pub network : m.network ≡ encode_network identity.network
  pub coverage_kind : m.coverage_kind ≡ (encode_coverage identity.coverage).0
  pub coverage_name_id : m.coverage_name_id ≡ (encode_coverage identity.coverage).1
  pub minimum_rollback_blocks : m.minimum_rollback_blocks ≡ identity.minimum_rollback_blocks

IsOf-identity : (a b : StoreIdentity) (m : Metadata) → IsOf a m → IsOf b m → a ≡ b
IsOf-identity a b m x y =
    let network = encode_network_injective a.network b.network (sym x.network ∙ y.network) in
    let coverage =
      encode_coverage_injective a.coverage b.coverage
        (cc (x.coverage_kind, y.coverage_kind, x.coverage_name_id, y.coverage_name_id)) in
    cc (
      x.deployment_id, y.deployment_id, x.ruleset_fingerprint, y.ruleset_fingerprint, network,
      coverage, x.minimum_rollback_blocks, y.minimum_rollback_blocks,
    )

new_metadata-IsOf : (identity : StoreIdentity) → IsOf identity (new_metadata identity)
unfolding new_metadata
new_metadata-IsOf identity = record {
  schema_version = refl;
  deployment_id = refl;
  ruleset_fingerprint = refl;
  network = refl;
  coverage_kind = refl;
  coverage_name_id = refl;
  minimum_rollback_blocks = refl;
}

-- Metadata that passes the checks is of the identity.
validate_metadata-IsOf :
    (identity : StoreIdentity) (m : Metadata) (db after : Database)
    → validate_metadata identity m db ≡ done tt after
    → IsOf identity m × (after ≡ db)
unfolding validate_metadata check_deployment check_coverage
validate_metadata-IsOf identity m db after h =
    let (_, mid, deployment_ok, h1) = after_step (check_deployment identity m) _ db h in
    let (schema, d1) = after_ensure (m.schema_version == current_schema) _ _ db deployment_ok in
    let (deployment, is_deployment, d2) = after_lift (decode_32 m.deployment_id) _ db d1 in
    let (same_deployment, d3) = after_ensure _ _ _ db d2 in
    let (fingerprint, is_fingerprint, d4) = after_lift (decode_32 m.ruleset_fingerprint) _ db d3 in
    let (rest, mid_eq) = ensure-eq-done _ _ db d4 in
    let (_, mid2, coverage_ok, h2) = after_step (check_coverage identity m) _ mid h1 in
    let (coverage, mid2_eq) = ensure-eq-done _ _ mid coverage_ok in
    let (retention, after_eq) = ensure-eq-done _ _ mid2 h2 in
    (
      record {
        schema_version = (==_iff m.schema_version current_schema).0 schema;
        deployment_id =
            decode_32-eq-ok m.deployment_id deployment is_deployment
            ∙ eq_of_same deployment identity.deployment_id same_deployment;
        ruleset_fingerprint =
            decode_32-eq-ok m.ruleset_fingerprint fingerprint is_fingerprint
            ∙ eq_of_same fingerprint identity.ruleset_fingerprint (and-left _ _ rest);
        network = (==_iff m.network (encode_network identity.network)).0 (and-right _ _ rest);
        coverage_kind =
            (==_iff m.coverage_kind (encode_coverage identity.coverage).0).0
              (and-left _ _ coverage);
        coverage_name_id =
            eq_of_same m.coverage_name_id (encode_coverage identity.coverage).1
              (and-right _ _ coverage);
        minimum_rollback_blocks =
            (==_iff m.minimum_rollback_blocks identity.minimum_rollback_blocks).0 retention;
      },
      after_eq ∙ mid2_eq ∙ mid_eq,
    )

open_empty :
    (identity : StoreIdentity) (db : Database)
    → db.metadata ≡ none
    → initialize_or_validate_metadata identity db
      ≡ done tt (record db { metadata = some (new_metadata identity) })
unfolding initialize_or_validate_metadata
open_empty identity db e = rw e refl

open_used :
    (identity : StoreIdentity) (db : Database) (m : Metadata)
    → db.metadata ≡ some m
    → initialize_or_validate_metadata identity db ≡ validate_metadata identity m db
unfolding initialize_or_validate_metadata
open_used identity db m e = rw e refl

-- An opening that succeeds leaves metadata of the identity, and the rest of the database alone.
opened-IsOf :
    (identity : StoreIdentity) (db after : Database)
    → initialize_or_validate_metadata identity db ≡ done tt after
    → (m : Metadata) × (after.metadata ≡ some m) × IsOf identity m
unfolding initialize_or_validate_metadata
opened-IsOf identity db after h = elim (Option-cases db.metadata) [
  | inl e ↦
      let opened = sym (open_empty identity db e) ∙ h in
      let after_eq = done_injective tt tt _ after opened in
      (
        new_metadata identity,
        ap (λ (d : Database). d.metadata) after_eq,
        new_metadata-IsOf identity,
      )
  | inr (m, e) ↦
      let (of_identity, same_db) =
        validate_metadata-IsOf identity m db after (sym (open_used identity db m e) ∙ h) in
      (m, ap (λ (d : Database). d.metadata) same_db ∙ e, of_identity)
]

-- A database that a store has opened is opened again with another identity only if the two are
-- the same, whatever the database held before.
pub initialize-identity :
    (a b : StoreIdentity) (db mid after : Database)
    → initialize_or_validate_metadata a db ≡ done tt mid
    → initialize_or_validate_metadata b mid ≡ done tt after
    → (a ≡ b) × (after ≡ mid)
initialize-identity a b db mid after h k =
    let (m, held, of_a) = opened-IsOf a db mid h in
    let (of_b, same_db) = validate_metadata-IsOf b m mid after (sym (open_used b mid m held) ∙ k) in
    (IsOf-identity a b m of_a of_b, same_db)
