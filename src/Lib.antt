-- ===== src/Lib.antt =====
-- A model of dacar, decentralised access control over an eventually consistent set of signed
-- tuples, in its JavaScript implementation under javascript/src.
--
-- A node holds a state of tuples, each of which grants one identity a relation over objects and
-- names who issued it. Operations that grant or revoke a tuple arrive as MessagePack payloads in
-- any order. They are decoded (operation.js), authenticated against the keyset of the issuer
-- (verifier.js), checked against the clock and recorded as the latest grant or revocation of the
-- tuple (crdt.js, delta.js). A request is answered by the active tuples and by the chains of
-- delegation that lead from a root trust anchor (engine.js, config.js). Where the answer must be
-- fresh, an authority is challenged for a signed receipt (challenge.js).
--
-- The files, and the code under javascript/src that each models:
--   Common      lists, Boolean tests and results that may be a failure: what the parts share
--   JsMap       the language's `Map` as an association list in insertion order
--   Value       decoded MessagePack values, `expectBytes`, `expectBool`, and `BigInt(value)`
--   Platform    what is outside of the repository: hexadecimal text, UTF-8, SHA-256, HMAC,
--               MessagePack and Ed25519 identities, as a record of functions with their laws as
--               separate records, and a concrete instance for the tests
--   Hlc         hlc.js: packHlc, unpackHlc and the class Clock
--   Namespace   namespace.js: parseObject, NamespaceHasher, covers, bytesEqual
--   Tuple       tuple.js: the constructor, preimage, key, equals
--   Keyset      verifier.js: IssuerKeyset
--   Operation   operation.js: the constructor, preimage, sign, verifyThreshold; Operation/Wire has
--               toPayload and fromPayload
--   Verifier    verifier.js: Keyring, verifyOperation
--   Crdt        crdt.js: StateVector with ingest, apply, merge, prune and activeTuples; Crdt/Snapshot
--               has toPayload, Crdt/Restore has fromPayload
--   Threshold   threshold.js: groupId and ThresholdGroup
--   Config      config.js: the constructor, isRootAnchor, hashers, groupFor
--   Engine      engine.js: evaluate, evaluateHashes and the local functions of the latter
--   Delta       delta.js: applyPayload, applyPayloads, packPayloads
--   Challenge   challenge.js: Challenge and buildHypotheses; Challenge/Freshness has Receipt,
--               Challenge/Exchange has AuthoritativeServer and ChallengeClient
--   Sync        transport/rnsSync.js: packAck, unpackAck, handlePush, syncRequestHandler, pushOne and
--               pushDeltas
--   Rfed        transport/rfedSync.js: pull
--   Lxmf        transport/lxmfSync.js: encodeBatch, decodeBatch, handleMessage, packChunks and
--               packPaperUris
--   Naming      naming.js: the names of destinations, topics and messages
--   Alias       cli/store.js: AliasRegistry in memory
--   Records     cli/store.js: the outbox, the sent box and the keyring as stored records
--   Settings    cli/store.js: StoreConfig, init, loadConfigValidated and rotateIdentity; cli/dacar.js:
--               the commands that change the configuration
--   Inputs      cli/dacar.js: saltFromValue, resolveIdentityHash, coercePayload and the other readers
--               of arguments
--   Issue       cli/dacar.js: buildTuple and _issue, the commands `grant` and `revoke`; Issue/Example
--               is a run of it for the tests
--   Publishing  cli/dacar.js: cmdPublish, cmdPush and recordPublish
--   Expiry      cli/dacar.js: cmdPrune and what it calls
--   Queries     cli/dacar.js: findMatchingTuples, cmdCheck, cmdApply, cmdGrants and the commands on
--               identities, aliases and the ledger
--   Validation  cli/dacar.js: cmdValidate
--   Display     cli/dacar.js: hlcHex, shortHash and the rendering of identities, relations and objects
--   Tests       concrete identities, operations, states and exchanges
--
-- A call that may throw returns a `Result` with the kind of the error, and a call that changes an
-- object returns the object as it leaves it, also where it throws. Promises are values: no call
-- that the model covers interleaves with another. A `Uint8Array` is a list of numbers; where a
-- theorem needs them to be below 256, it says so. A `bigint` clock is a natural number once it is
-- checked to be in [0, 2^64). The wall clock is an argument in milliseconds, and so are random bytes.
-- A store is the records that its adapter holds; a command returns them as it leaves them.
--
-- The recursion of the engine is on the hops that are left, `maxDepth - depth`: the code's own bound
-- on the depth is the fuel, and where the hops are used up the model takes the branch that the code
-- takes at the bound, so no answer is cut short by the model. The loop of `pull` goes on for as long
-- as the client says that more is pending, and is on fuel. packPaperUris halves a chunk whose URI
-- cannot be made, and is on fuel as well: the number of payloads is enough. Every other loop is over a
-- list.
--
-- Not modelled: the log lines, the transport of challenges under transport/, the set-up of links and
-- destinations in rnsSync.js, the subscriptions of rfedSync.js and the sending of messages in
-- lxmfSync.js, which call the Reticulum, RFed and LXMF libraries; the sessions of cli/session.js; of
-- the store, the text of the configuration and of the aliases, the records of the clock and of the
-- ledger, and the encryption of secrets; of the command line, the options, what is printed, `show`
-- and the commands on paper messages; and the Python and C++ ports.
pub mod Common
pub mod JsMap
pub mod Hlc
pub mod Value
pub mod Platform
pub mod Namespace
pub mod Tuple
pub mod Keyset
pub mod Operation
pub mod Verifier
pub mod Crdt
pub mod Threshold
pub mod Config
pub mod Engine
pub mod Delta
pub mod Challenge
pub mod Sync
pub mod Naming
pub mod Lxmf
pub mod Publishing
pub mod Expiry
pub mod Alias
pub mod Records
pub mod Inputs
pub mod Settings
pub mod Issue
pub mod Display
pub mod Queries
pub mod Validation
pub mod Rfed
pub mod Tests
