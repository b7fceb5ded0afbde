-- ===== src/Lib.antt =====
-- Verification of the kernel of infernal-law: the services of src/kernel, the Postgres
-- repositories of src/infrastructure that they run on, and the compositions of src/http.rs.
--
-- The program. A service has an identity. Each of its instances enrolls with the token of its
-- workload, a challenge and a proof by its own key, and is registered under a lease that it renews;
-- the kernel has instances that subscribe prove by handshakes that they hold their key.
-- A service sends signed requests. The gate (src/kernel/request_gate.rs) verifies the
-- signature, reserves the nonce and the request id, and checks that the service may communicate.
-- A submission (`submit_request` of src/http.rs) is authorized by the policy evaluator on the
-- grants that match, accepted, and routed to every active subscription to its action. The
-- destination of a route lists the routes it may work on, claims one under a lease with a fencing
-- token, and renews, releases or completes the claim.
--
-- The files. Base holds what the others share: Boolean tests, the i64 integers, results and
-- transactions, queries on lists of rows, tables whose rows are spent once, texts as lists of code
-- points with their parsing, and the bytes of numbers and fields.
--   Kernel.Identity       src/kernel/identity.rs
--   Kernel.InstanceKeys   src/kernel/instance_keys.rs
--   Kernel.Instances      src/kernel/instance_registry.rs
--   Kernel.Enrollment     src/kernel/enrollment.rs, its service in Service
--   Kernel.Handshakes     src/kernel/handshakes.rs, the reconciler in Reconciler
--   Kernel.Messages       the signed messages of handshakes and enrollments
--   Kernel.ServiceRequests  src/kernel/service_requests.rs, signing and verifying in Verifier
--   Kernel.Schemas        the schema versions of src/kernel/authority.rs
--   Kernel.Names          the canonical names of requests.rs, authority.rs and subscriptions.rs
--   Kernel.Authority      the grants and decisions of src/kernel/authority.rs
--   Kernel.Subscriptions  src/kernel/subscriptions.rs
--   Kernel.Requests       src/kernel/requests.rs
--   Kernel.Replay         src/kernel/replay_protection.rs
--   Kernel.Admission      src/kernel/admission.rs
--   Kernel.Gate           src/kernel/request_gate.rs
--   Kernel.WorkClaims     src/kernel/work_claims.rs
--   Kernel.Faults         what the errors carry of a failure of the database
--   Postgres.Db           the tables that the repositories share
--   Postgres.X            the repository of X in src/infrastructure/postgres_*.rs, with the keys,
--                         checks and triggers of migrations/ that it meets
--   Http.Routing          `SubscriptionRouter`, `EligibleRouteQuery`, `RoutedRequestQuery`
--   Http.Submission       `submit_request`
--   Tests                 a small database, and the theorems applied to it
-- The other child modules of a component hold its theorems.
--
-- The correspondence. A repository trait is a record of operations over a store, which the service
-- takes as a parameter and the Postgres module fills. An operation returns its result and the
-- store it leaves; a body that fails before its commit leaves the store as it was. A table is the
-- list of its rows. Ids and digests are the numbers that their bytes spell; an id that the code
-- draws at random and the clock are arguments. A fencing token wraps around as the code's `+ 1`
-- does. A decimal number is printed digit by digit on fuel 19: an i64 has at most 19 digits, and a
-- lemma shows that they are enough. No other definition runs on fuel: every loop is over a list.
--
-- Parameters. SHA-256 and Ed25519 (`Crypto`), the crates for base64 and the text forms of UUIDs
-- (`Codec`), the Kubernetes token reviewer, the transport of handshakes, the random nonces, the
-- policy evaluator, the gate's step that verifies a signature, and the printing of the other
-- services' errors are arguments of the definitions that use them. The laws `Signs` (a key accepts
-- its own signatures) and `Reads` (the crates read what they print) are hypotheses where used.
--
-- Not modelled: connections that fail or are lost (a statement that fails so drops the transaction
-- and is reported as a failure of the repository), two transactions at the same time and the row
-- locks that order them, CHECK constraints that repeat what the constructors check, texts with the
-- character 0, which Postgres refuses, the SQL functions of migrations/ that only administrators
-- call, and the components that PROJECT.json lists as not modelled: HTTP and JSON, the connection
-- pool, the clients of Kubernetes and of the evaluator, and the binaries.
pub mod Base
pub mod Kernel
pub mod Postgres
pub mod Http
pub mod Tests
