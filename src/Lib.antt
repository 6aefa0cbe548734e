-- ===== src/Lib.antt =====
-- decent-registry keeps two kinds of records under 32-byte keys in a distributed hash table:
-- identities, found by the hash of a name, and providers, found by the hash of an object. A record
-- is a SignedUpdate in a signed envelope, both in canonical CBOR. A legacy record is signed by one
-- owner key. A multisignature record carries an authorization: a Signer Set, a threshold, an epoch
-- and the hash of the state it succeeds.
--
-- Parts, from the bottom up:
-- - Prelude: Boolean tests, lists, exceptions as values, sorted() by byte strings, sets of keys that
--   a loop has met, dicts.
-- - Cbor: the Python values that cbor2 reads and writes, and the calls of other packages, which are
--   the fields of the record `Library`: cbor2.loads and dumps, SHA-256, the verification of an Ed25519
--   signature, urlsplit and IPv6Address. Cbor/Codec states the one law about them that theorems
--   assume: loads reads back what dumps wrote, for values whose maps have increasing numbers as keys.
-- - Encoding/Authorization and Encoding/Update: src/decent_registry/encoding.py. A mapping that a
--   function returns normalized is a record: `Authorization`, `SignedUpdate`.
-- - Envelope: src/decent_registry/signed_envelope.py.
-- - Provider/Chars, Uri, Payload and Wire: src/decent_registry/provider_schema.py.
-- - Verification: src/decent_registry/verification.py. Candidate decodes an envelope and counts its
--   proofs, Transitions has one function for each operation of the state machine, Replay dispatches
--   on the operation and replays histories, Legacy validates records of one owner key.
-- - Store: src/decent_registry/durable_store.py, `LMDBDatastore` as functions on three maps.
-- - Validator: src/decent_registry/record_validator.py. Common has the results and what the validators
--   share, Transition `_validate_multisignature_transition`, Providers and Identities the validators
--   of the two kinds of records, for writes and for reads.
-- - Bundle: src/decent_registry/multisig_bundle.py, drafts that collect detached proofs until they
--   are finalized to an envelope.
-- - Serving: src/decent_registry/dht/serving_eligibility.py. Frames has the length-prefixed frames,
--   Messages the protobuf messages in them, Deadline what the streams share, Inbound and Outbound the
--   two bounded streams, Eligibility the gate of the routing table.
-- - Service: src/decent_registry/registry_service.py, `RegistryService` over a DHT, and in
--   Service/Builder src/decent_registry/envelope_builder.py.
-- - Tests: runs on a small stand-in for the packages (Toy) and on a codec that satisfies the law
--   (Wire), with each theorem at an input that meets its hypotheses.
--
-- How the code is rendered. A function that raises returns a `Result`, which holds the exception's
-- class and message; an `except` branch is a case of it. Leading underscores are dropped from names.
-- Keyword arguments come in the source's order. Arguments that the source requires to have a type
-- have it. Text is its UTF-8 encoding, whose order is that of code points. Bytes are natural numbers
-- without an upper bound, of which the theorems need none.
-- Integers are unbounded in Python and in the model; a negative one is a case of `Value`.
-- `has_keys` and `get` compare keys as Python does, where True == 1 and 1.0 == 1.
-- Loops are recursion on the list that they traverse, so no fuel is needed, except in the scan of a
-- message's fields. Each of its rounds moves the offset, so that the length of the message plus
-- one is enough fuel. The history replay and
-- `validate_multisignature_update` call each other in the source. The replay handles a rotation
-- itself and passes only other operations on, so here it calls `dispatch_other`, which is that
-- function on these.
-- A method of a stream or of the gate is a function of the object, and returns the object as it leaves
-- it with its result or exception. Times are whole ticks of the clock. What the clock reads is an
-- argument, and so is what the stream below answers. An operation that starts after its deadline
-- raises `timeout_error`. The routing table, varint, protobuf, multihash and multiaddr are
-- parameters, and for the service so are the DHT's interface and the reading of a key's file.
--
-- An asynchronous method runs as one step. What may run while `record_valid_response` or
-- `_guarded_add` waits for `add_peer` is not modelled. A decoded value of a class that `Value` does
-- not name is taken to equal no number.
--
-- Not modelled: installing the gate and the streams in libp2p (`install_dht_serving_eligibility` and
-- the libp2p adapter of dht/), the command line and configuration, key generation
-- (crypto_utils.py), the dictionaries that results are printed as, and opening, closing and the size
-- limits of LMDB.
pub mod Prelude
pub mod Cbor
pub mod Provider
pub mod Encoding
pub mod Envelope
pub mod Verification
pub mod Store
pub mod Validator
pub mod Bundle
pub mod Serving
pub mod Service
pub mod Tests
