-- ===== src/Lib.antt =====
-- A verification library for qoltanba, a service that signs and verifies with the keys of the
-- national certification authority of Kazakhstan.
--
-- The service is one domain package (internal/core) behind several transports; around it stand
-- components with a state of their own. The domain verifies a container and explains the outcome;
-- signing sessions, challenges, jobs, QR sessions and the OIDC provider call it; the domain asks
-- the OCSP cache before it asks a responder, and records what it did in the audit journal.
-- Modelled are:
--
--   Core          internal/core: the types of contract.go and cert_types.go (Core.Contract), the
--                 diagnosis of explain.go (Core.Explain), the verdict, the signers of a report and
--                 the claims (Core.Report, report.go and claims.go), VerifyAt (Core.Historical,
--                 historical.go), the errors of the library (Core.Provider, with
--                 internal/provider), Validate (Core.Validate of service.go, with the evidence of
--                 revocation.go in Core.Validation), and Verify up to its verdict
--                 (Core.Verification), the chain of a leaf (Core.Chain, chain.go), the
--                 discovery of issuers (Core.Discovery, discoverAnchors of service.go), and
--                 VerifyRegistry on the results of a batch (Core.Registry, registry.go).
--   Multisign     internal/multisign: participants and collected signatures (Multisign.Session) and
--                 Create, Get, Submit and Cancel (Multisign.Service).
--   Jobs          internal/jobs: the record of a job (Jobs.Job), the in-memory store (Jobs.Store),
--                 the scheduler (Jobs.Manager), and the goroutines' interleavings
--                 (Jobs.Goroutines).
--   Challenge     internal/challenge: the in-memory store (Challenge.Store), Issue and Confirm
--                 (Challenge.Service).
--   OcspCache     internal/ocspcache: Lookup, Store and eviction (OcspCache.Cache; Lookup is `fetch`
--                 and Store is `store`).
--   Audit         internal/audit: Append, Verify and Open of log.go (Audit.Log).
--   Idempotency   internal/idempotency: Do, cut where it releases its lock into `begin`, `succeed`
--                 and `fail` (Idempotency.Cache), and its interleavings (Idempotency.Once).
--   Oidc          internal/oidc: the signer of tokens (Oidc.Signer), the registry of relying parties
--                 (Oidc.Clients), Challenge, Verify, IssueTokens and UserInfo (Oidc.Provider), and
--                 the authorization-code flow (Oidc.Authcode, authcode.go).
--   Qr            internal/qr: sessions and profiles (Qr.Session), the in-memory store (Qr.Store), the
--                 configuration and the parts of Create (Qr.Orchestrator), and the operations of the
--                 orchestrator (Qr.Handlers).
--   Durable       the bbolt stores of internal/challenge, internal/multisign, internal/jobs and
--                 internal/qr, against the in-memory ones: Durable.Bucket has the calls that they
--                 share, Durable.Encoding the buckets that encode a map, Durable.Refinement sequences
--                 of operations.
--   Prelude       what they share: Boolean tests, durations, texts as byte lists, Go maps as association lists.
--   Examples      the theorems at concrete inputs.
--
-- A stateful method becomes a function that returns its answer with the new state. Times are
-- nanoseconds as natural numbers and the clock is an argument, as are random ids. A uint64
-- counter keeps its wrap-around. A Go map is an association list with distinct keys; where Go
-- iterates over a map, the order does not bear on what is proved. The calls that leave the
-- modelled code are parameters: the domain's Verify and Validate for the components around it,
-- the native library, the parsers of certificates, OCSP responses and CRLs and the discovery of
-- issuers for the domain, strings.EqualFold, SHA-256, RSA, base64 and encoding/json, the trimming
-- of white space, the formatting of numbers and times, the service key. The loop of buildChain
-- counts its sixteen rounds down; the one loop on fuel is the second loop of the OCSP cache's
-- eviction: each round deletes an entry, so the number of entries is fuel enough, and the bound
-- that is proved would fail if it were not.
--
-- A time.Duration is a signed 64-bit number that wraps around. What encoding/json and bbolt do to a
-- record is a parameter of the durable stores: a record is storable where it is encoded, reads back
-- as it was and is accepted under its key, and nothing is claimed for others.
--
-- Not modelled are the calls into the native library, the parsing of certificates, CMS and CRLs,
-- the rest of the domain service (Sign, Extract, data by reference, archives, batches), the
-- profiles of internal/qr, which are parameters, Recover of the bbolt store of jobs, which writes
-- to a bucket inside ForEach, the transports, and locks: an operation that holds its lock
-- throughout is one step, and an operation of internal/challenge, internal/multisign,
-- internal/qr or internal/oidc is one step too.
mod Prelude
pub mod Core
pub mod Multisign
pub mod Jobs
pub mod Challenge
pub mod OcspCache
pub mod Audit
pub mod Idempotency
pub mod Oidc
pub mod Qr
pub mod Durable
mod Examples
