-- ===== src/Lib.antt =====
-- Coppice Names: a deterministic registry of names over an authenticated chain. This library models
-- the replay core of crates/coppice-names the store of crates/coppice-names-sqlite, and the bond
-- and checkpoints of crates/coppice-names-wallet, and proves them correct.
--
-- Parts and files. Where no crate is named, a source path below is under crates/coppice-names/src.
--
-- Protocol (protocol.rs): Protocol/Names has Name::parse, Name::id, the field encodings and
-- CanonicalUa::parse; Protocol/References has CommitRef and StateRef with the order that the maps
-- use; Protocol/External has what comes from other crates.
--
-- Schedule (schedule.rs): Parameters, epochs, the window of a name in an epoch, accepts_operation,
-- accepts_commit, expiry, claimable, and operation_windows_descending with its loop over the
-- epochs.
--
-- Operation, Statement and Codec (codec.rs, statement.rs): the operations, the statements handed to
-- the proof verifier, and encode and decode. A reader takes the remaining bytes and returns a value
-- with what is left, as the methods of Decoder do; Codec/Bytewise has the big-endian numbers and
-- UTF-8.
--
-- Reducer (reducer.rs): Reducer/State has the records; Reducer/Records has replace_commit,
-- replace_head and the journal (remember_commit, remember_head, new_undo, delta_from_undo);
-- Reducer/Maintenance has mark_expired, compact_claimable and prune_commits; Reducer/Transactions
-- has apply_reveal, apply_refresh and apply_transaction_detailed; Reducer/Blocks has new and
-- apply_block_detailed; Reducer/Rollback has rollback_tip_detailed, finalize_through and
-- rollback_range; Reducer/Resolution has resolve, resolve_authenticated, pending_commit and
-- is_exact_for. A method on &mut self is a function that returns the new state, and Result is the
-- result type of Prelude/Results with the error type of the method.
--
-- Snapshot (reducer.rs): the stored forms, the checks on them, rebuild_derived_indexes,
-- save_snapshot and load_snapshot.
--
-- Resolver (resolver.rs): ExactResolver, which gives a reducer every block without the operations
-- of other names, and its snapshots.
--
-- Sqlite (crates/coppice-names-sqlite/src/lib.rs): Sqlite/Identity has Coverage, StoreIdentity and
-- StoreError; Sqlite/Tables has the tables of the schema, each an ordered map from its primary key
-- to its other columns, and the deletions with the cascades of the foreign keys; Sqlite/Session is
-- the monad of a transaction, a function on the tables that ends with a value or fails with the
-- writes so far; Sqlite/Records has read_head, write_head, validate_head and the other helpers;
-- Sqlite/Deltas has apply_delta; Sqlite/Rewind has rollback_tip of both transactions,
-- rollback_to_height, rollback_to_height_or_reset, reset_for_replay and finalize_through;
-- Sqlite/Store has initialize_or_validate_metadata, the checks of WalletNamesTransaction::new,
-- missing_authority, record_wallet_commit, put_core_snapshot, with_transaction and
-- with_block_savepoint. Sqlite/Sound says when a database is in order, and Sqlite/Journal what a
-- journal keeps of a table.
--
-- Transport (transport.rs): Transport/Positions has authenticated_action_position,
-- positioned_action_position and action_position, over the block contexts of the crate coppice;
-- Transport/Inspection has classify_inspection and select_single_operation.
--
-- Wallet (crates/coppice-names-wallet/src): Wallet/Bond has classify_bond_inventory of bond.rs;
-- Wallet/Checkpoint has seal_checkpoint and open_checkpoint of checkpoint.rs and
-- derive_names_master of recovery.rs, and Wallet/Checkpoint/Slices what they need of slices.
--
-- Deployment (deployment.rs): ProofIdentity::derive, the profiles, DeploymentParameters::validate,
-- canonical_preimage as the list of the pieces that it appends, and deployment_id;
-- Deployment/Renewal relates its timing to the schedule.
--
-- Collections stands for the ordered maps and sets of the standard library, as lists of entries in
-- ascending order, and for the bucket indexes that the reducer keeps beside its records. Prelude
-- has what all parts share. Examples runs a small chain with toy cryptography through the
-- definitions.
--
-- How the parts interact. A block comes to apply_block_detailed with operations that decode has
-- read. Its checks come first and change nothing; then expired heads become terminal, claimable
-- heads go, old COMMITs go, evidence is admitted, and the transactions run in order, each with its
-- operation and then the terminations of the heads that its actions spend. Every change remembers
-- the old record in a journal, which a rollback restores. Reducer/Edits says this once: a block is
-- a sequence of edits, and what one edit keeps, a block keeps.
--
-- Numbers, bounds and fuel. Integers are natural numbers. Checked u32 operations answer none
-- outside the range (Prelude/Word); sums that the source takes in u64 are exact. The hash counter
-- of Name::id runs over the 256 values of a byte, and the loop over epochs over their number; the
-- loops of the wallet's rollback have a turn for every row of their table, and the loop of
-- rollback_to_height one for every journaled block and one more, each of whose turns deletes a
-- block; all other loops are over lists, so there is no other fuel to run out. An unchecked
-- subtraction stands only where a test above it or the validity of the parameters keeps it in
-- range. The source would panic on an index entry with no head; the model passes such an entry
-- over, and the invariant on the indexes says that there is none.
--
-- Parameters. Primitives has the BLAKE2b hash, the field operations of pasta_curves and the address
-- codec of zcash_address; ProofVerifier is the trait of the source; Serde is serde_json on the
-- stored reducer with the fingerprint of the ruleset; the bound on a payload is an argument of
-- encode. Nothing is assumed of them. Identities has the identity of the Names family and the
-- fingerprint of the ruleset. Application has the carrier's errors and the derivation of an
-- application's identity, and what an inspection finds at a rendezvous is an argument. Contexts has
-- the block contexts of the crate coppice, and KeyedHash BLAKE2b with a key; the theorems on
-- checkpoints assume that its hashes have the 32 bytes that it is asked for. Json is serde_json on
-- one record of the store's journal; where a theorem needs it, IsFaithful says that what was
-- written is read back. SQLite itself is taken as its documentation has it: INSERT refuses a second
-- row for a primary key, a SELECT with ORDER BY lists rows in the order of the key, a DELETE of a
-- block deletes its journal rows. Its own failures, of the disk or of a lock, are not modelled.
--
-- Not modelled. statement.rs folds its fields with Poseidon, an external crate; proof.rs calls
-- halo2; NameRoute::derive, and with it the blocks that transport.rs puts together for one name;
-- publication.rs, and ruleset.rs, a fixed document read with serde_json; the key derivation,
-- builder and replacement of the crate coppice-names-wallet, which work on external wallet crates;
-- and of coppice-names-sqlite the connection, the integrity pragmas and the derived SQL indexes.
pub mod Prelude
pub mod Collections
pub mod Protocol
pub mod Schedule
pub mod Statement
pub mod Operation
pub mod Codec
pub mod Reducer
pub mod Snapshot
pub mod Resolver
pub mod Sqlite
pub mod Transport
pub mod Wallet
pub mod Deployment
pub mod Examples
