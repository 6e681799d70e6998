-- ===== src/Lib.antt =====
-- Ultratokenizer tokenizes gold that an institution holds: a holder's request to issue tokens is made
-- canonical and signed, the institution reserves a right for it in a ledger and settles the
-- reservation by what the chain shows, and a worker tracks the submitted transaction.
--
-- The parts that are modelled, and the files that model them:
--
-- Base: Boolean tests, lists and counts over the native numbers, texts as lists of code units, results.
--
-- Domain (packages/domain/src): the boundary of the program.
--   Domain/Value: JavaScript values as the parsers see them: prototypes, own properties, accessors.
--   Domain/Viem: the functions of the library viem as a parameter (addresses and hashes), and what the
--     checksummed form of an address is relied on for (IsChecksum).
--   Domain/Fields: record, literal, uint, address and identifier of issuance-request.ts.
--   Domain/Request: parseIssuanceRequest, assertIssuanceRequestActive, and the typed data and digest
--     of request-digest.ts; Domain/Request/Json is parseIssuanceRequestJson, and
--     Domain/Request/Serialize is serializeIssuanceRequest. Domain/Request/Canonical and Binding
--     prove that parsed requests are canonical, and that the message that is signed binds every field.
--   Domain/Json: parseDuplicateFreeJson of json.ts; Domain/Json/Document is an independent description
--     of JSON texts as trees, and Domain/Json/Stringify the text that JSON.stringify writes of an
--     object of texts, escapes included.
--   Domain/Permit: parseIssuerPermit and the typed data of issuer-permit.ts.
--   Domain/Claim: getClaimUsageId of claim-identity.ts.
--
-- Institution (packages/institution/src): the ledger of rights, backing pools and allocations.
--   Institution/Types: types.ts and the rows of the three tables of ledger.ts.
--   Institution/Store: each SQL statement, with the constraints of the schema; a violated one throws.
--   Institution/Fields, Snapshots, Outcomes: the readers of input, of rows and of observations.
--   Institution/Transaction: `transaction`: writes are kept on return and rolled back on a throw; that
--     the rollback restores the tables is what SQLite promises, and is assumed. `close` is there too.
--   Institution/Rights, Pools, Allocations: the methods of the ledger (importAvailableRights,
--     registerRight, findRight, getRight, privateClaimIdentity, setBackingCap, getPool, reserve,
--     getAllocation, markIssued, releaseUnused, releaseExpiredUnopened).
--   Institution/Calls: any sequence of these methods by any handles, which share the tables and have
--     a flag `closed` each. Write transactions exclude each other, and a read sees the tables between
--     two of them, so the calls of all handles are one sequence.
--   Institution/Bridge: chain-bridge.ts: the checks of a block and of the gate, and in Bridge/Release
--     settleExpiredUnopened and settleUnused; Bridge/Settled and Guarded prove what a release stands on.
--   Institution/Spec: the moves by which the tables may change. Institution/Refinement proves that the
--     methods make no others, Institution/Safety the invariants of the moves, Institution/Retry what
--     repeated calls do, Institution/Imported what an import leaves behind, and Institution/Handles
--     what calls through a closed handle do.
--
-- Worker (workers/issuance/src): the coordinator that tracks submitted requests.
--   Worker/Model: model.ts. Worker/Database: the tables, the alarm, load, save, mutate, owned, leased
--     and lease of coordinator.ts; that the platform rolls back a mutation that throws is assumed, as
--     for the ledger. Worker/Requests: create, inspect, submit, cancel, reconcile.
--   Worker/Observing: resolveReplacement and alarm, each as the mutations before and after it reads
--     the chain. Worker/Schedule: any interleaving of these mutations, in the order of their times.
--   Worker/Spec: the transitions of a row and the changes of the table, by actor. Worker/Refinement
--     proves that every step makes only these; Worker/Life, Bounds, Isolation, Timing and Retry
--     prove what follows for one row, the table, between owners, for the alarm and for retries.
--   Worker/Observer: chain-observer.ts, with the node as a parameter that may answer otherwise at each
--     of four turns: the configuration (Observer), the loop over the logs (Observer/Logs), the decision
--     (Observer/Observe), what a confirmation stands on (Observer/Evidence, Sound, Confirmed, Verdict),
--     and the coordinator's two uses of it (Observer/Check).
--   Worker/Body: exactKeys and readJson of errors.ts. Worker/Auth: auth.ts.
--   Worker/Routes: `fetch` of index.ts: the decision before a tenant is called, and in Routes/Serve the
--     call and the response, over any namespace of tenants; Routes/Tenants fills it with coordinators,
--     `submit` with its replacement included.
--
-- The ledger uses the boundary of Domain to read requests, and its digest as the key of an allocation;
-- the coordinator uses the same digest as the identifier of a row.
--
-- Every function is structural recursion on its input, except for the scanner of JSON texts, whose
-- fuel is the length of the text, as each round takes a character, and the decimal text of a
-- number, whose fuel is the number (Base/Chars.big_int-decimal reads it back). Amounts are natural
-- numbers below the bounds that the readers check (2 ^ 63 in the ledger, 2 ^ 64 and 2 ^ 256 at the
-- boundary), as the source computes with bigint. Times of the coordinator are in milliseconds; one
-- mutation reads one time, since the platform's clock stands still between two waits.
--
-- Parameters: viem, JSON.parse (of which a theorem assumes what it reads of the one text, and of
-- the literals of the names in it, that the theorem is about), the decoder of UTF-8, URL, jose, the
-- limiter of rates and the node.
--
-- Not modelled: JSON texts in columns (kept as the values that they write), the opening of the ledger's
-- file and its schema versions, random identifiers (arguments), the constructor of the coordinator,
-- headers that every response has, settleIssued and pinsFor of the bridge, the other packages, the web
-- applications and the contracts.
pub mod Base
pub mod Domain
pub mod Institution
pub mod Worker
