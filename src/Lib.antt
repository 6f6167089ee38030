-- ===== src/Lib.antt =====
-- A verification library for the MatVerse governance bridge, the Python service under app/.
--
-- The service takes requests of language models, lets a gate decide on them, writes every event into
-- a hash-chained ledger in SQLite, passes handoffs between models and keeps the keys of federated
-- authorities. The files follow its parts:
--   * Core, Core/Gate: app/core.py, the human-data boundary `evaluate_hdb` and the gate `omega_gate`.
--   * Storage: app/storage.py over the tables of app/state_store.py, a record `Db` with a list of rows
--     for each table (Storage/Tables). Ledger: append_ledger_tx, append_event, verify_chain, replay.
--     Nonces: consume_auth_nonce. Artifacts: the contract registry. Sessions, Handoffs, Mailbox: the
--     sessions of two or more models, their handoffs, the inbox and its acknowledgements. Calls: the
--     writing calls as one type, and histories of them.
--   * ModelBridge: app/model_bridge.py, which states may pass between models, contract hashes and the
--     digest of a handoff.
--   * Registry: app/federation_key_registry.py, the records of keys (Keys), the table (Table),
--     register_key (Register), revoke_key (Revoke) and histories of both (History).
--   * Evidence: app/evidence.py, Merkle roots and receipts.
--   * Organism: app/organism_loop.py, the state of `GovernedOrganism` and its cached root (State),
--     observe_rejection and authorize_constraint (Loop), evaluate (Evaluate). Restoring a saved state
--     is left out, and the fingerprints of the guards are texts of the state.
--   * Physiology: app/physiology.py, the journal of events and consumer offsets (Journal), the
--     assessment of the machine and the recovery plan (Controller), and a cycle of the engine
--     (Engine: Sense, Act and Cycle are its parts in the order of the code). The readings of the
--     platform, the check of the journal's file, the clock and the executor are inputs of a cycle.
--     Recovery: app/physiology_recovery.py, the events page by page, the cycles that did not end and
--     their sealing.
--   * Auth: app/auth.py, a request as its headers and its body, and `authenticate` over the tables.
--   * Federation: app/federation_relation.py, relations between domains (Relation), sign_relation and
--     the gate of shared secrets (Gate). The graph of crossings is left out.
--   * Drift: app/drift_engine.py, the readings of the lenses and the adjudicator of two axes over
--     abstract floats (`Reals`). The Chernoff information and the sample sizes are left out.
--   * SecretPlane: app/secret_plane.py. Data has descriptors, policies and leases; Store the interface
--     of a store of leases, which the store in memory (Store/Memory) and the one in SQLite
--     (Store/Sqlite) fill; Material the vaults and the search for a secret in a result; Plane and Use
--     the methods of `SecretPlane`, over any store and any vault; Calls histories of them.
--   * Feedback: app/physiology_effect_feedback.py. State has the policy, the state, its check and its
--     seal; Loop the gate and what an effect does to the state; Effect `_record_effect_feedback`; Tick
--     the tick around that of the physiology; Restart what the constructor reads.
--   * Json: JSON values, `dict` lookups and `json.dumps` with sorted keys and the shortest separators.
--   * Base: the helpers that all share; Base/Monad has the actions, functions from a state to a result
--     and a state, and `transaction`, which takes a state back where the code rolls back.
--   * Tests: concrete inputs.
--
-- storage.py's handlers call the ledger in their own transaction, the key registry calls it on the
-- same connection (`on_tables`), the digests of handoffs come from model_bridge.py, authentication
-- uses up nonces in the tables of storage.py, and a cycle of the physiology asks the organism,
-- whose answer it writes into its journal before it runs the executor. The feedback of effects runs
-- such a cycle with an executor that keeps what it saw, or without the proposal where its gate is closed.
--
-- Numbers are natural numbers: timestamps are seconds, in the journal nanoseconds, and sequence
-- numbers count from 1. The timestamp of a request may be negative (`Integer`). Floats are a type
-- with the comparisons and functions that the code uses (`Floats` of the physiology, `Reals` of the
-- drift engine), of which nothing is assumed. Texts are lists of characters; `str.lower` and
-- `str.strip` are those of ASCII texts; `str.upper` and `int` are inputs of authentication
-- (`Python`). A raised exception is a value of `Exn`. An `isinstance` check that a typed argument
-- cannot fail is left out. SQLite runs one transaction at a time (BEGIN IMMEDIATE), so a history of
-- calls is a list of steps.
--
-- `Host` holds what the code takes from elsewhere: `sha256`, `hmac`, `str` and `json.loads`, as
-- functions that nothing is assumed of; a theorem that needs that digests have 64 characters says
-- so, and where one digest of two texts would break a claim, the theorem returns the place, in the
-- data that it is about, of two texts that differ and have one digest.
-- The loop of `merkle_root` runs on fuel, the number of the leaves, which is enough since each
-- round at least halves a level of two or more. The pages of Physiology/Recovery run on fuel too,
-- one round more than the journal has events, since each round but the last reads at least one.
--
-- Of the secret plane, the derivation of keys and the search by regular expressions are left out, as is
-- the wiping of buffers; a consumer of a secret does not call the plane. A store of leases is changed
-- in one step, as its lock makes it; the store in SQLite (Store/Sqlite) has its rows and whether its
-- connection is inside a transaction, which a failed INSERT leaves open. The search for a secret in a
-- result is compared with where it stands (Found); Logs has the audit event of each method.
--
-- Not modelled: the HTTP handlers of app/main.py, the clients of external services, the parts of
-- app/ that have no file here, and scripts, deployment and tests.
pub mod Base
pub mod Json
pub mod Host
pub mod Core
pub mod Storage
pub mod ModelBridge
pub mod Registry
pub mod Evidence
pub mod Organism
pub mod Physiology
pub mod Federation
pub mod Auth
pub mod Drift
pub mod SecretPlane
pub mod Feedback
pub mod Tests
