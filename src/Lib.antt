-- ===== src/Lib.antt =====
-- The executor node: the HTTP service between integrators' clients, the validation service and the
-- Solana chain. A client asks for a challenge (src/challenge), captures voice and motion, and posts
-- the capture to `/validate-features` (src/validation/handler.rs). The handler checks the wallet's
-- signature (src/validation/authorization.rs), looks the challenge up, applies the gates of
-- src/auth, records the wallet's attempt and deducts the integrator's quota (src/integrator), reads
-- the identity on the chain, forwards the capture, and judges the answer by the composite score
-- (src/validation/composite.rs). `/verify` (src/relayer) submits proofs, `/attest` (src/attestation)
-- issues an attestation to a wallet that the chain has just verified, and a paired session
-- (src/paired) captures three rounds and is judged as one. The middlewares of src/server.rs stand
-- before all of them.
--
-- The files:
--   Prelude, Map, Clock     tests, lists, results; the concurrent maps as association lists;
--                           instants in nanoseconds
--   Error                   src/error.rs: AppError, into_response
--   Integrator/Tracker      src/integrator/tracker.rs; History runs any calls in sequence
--   Integrator/WalletAttempts  src/integrator/wallet_attempts.rs
--   Challenge/Registry      src/challenge/registry.rs; Lissajous is src/challenge/lissajous.rs
--   Challenge/Issue         src/challenge/handler.rs and src/challenge/phrase_gen.rs
--   Challenge/Trace         src/challenge/curve_trace.rs: the cleaning of an outline
--   Relayer/Commitments     src/relayer/commitment_registry.rs
--   Relayer/Verify          src/relayer/handler.rs: `/verify`; Transaction is transaction.rs
--   Auth                    RateLimit, CrossWallet, ClientIp, ApiKey, Redact, after the files of src/auth
--   Validation/Composite    src/validation/composite.rs
--   Validation/Digest, Authorization  src/validation/authorization.rs
--   Validation/Request, Intent, Admission, Risk, Handler, Verdict  src/validation/handler.rs, in
--                           the order in which a request passes them
--   Validation/Reputation   src/reputation/mod.rs, and the reading of it in the handlers
--   Attestation/Sas, Issue  src/attestation/sas.rs: the accounts read, the attestation sent
--   Attestation/Signature, Handler  src/attestation/handler.rs; Instructions is instructions.rs
--   Solana                  src/solana/pda.rs and src/solana/instructions.rs
--   Paired/Upstream         src/upstream.rs: the bounded reading of a reply
--   Paired/Sessions         src/paired/mod.rs; Paired/Finalize is src/paired/finalize.rs
--   Server/Layers, Router   src/server.rs: the middlewares, and the layers of each route
--   Server/Timing, Padding, Study  src/timing.rs, src/padding.rs, src/study.rs
--   Status                  src/status: the counters and the status endpoint
--   Config/Values, Scoring  src/config.rs: the values that are set, the signed scoring policy
--   Text                    the numbers and the parts that the standard library reads of a text
--   State                   the fields of AppState (src/server.rs) that the handlers use
--
-- A struct is a record, an operation a function from the old state to the new one and its result,
-- with the time as an argument. An operation is one step here, run alone, and a handler is the
-- sequence of its steps, run alone. Most operations of the source hold their map's lock from their
-- first to their last access. Those that take it anew for each access are the checks of the rate
-- limiters, the cross-wallet check and the registration of an unknown key in `check_and_deduct`; the
-- accesses of the rate limiters are also steps of their own, which RateLimit.Race interleaves. Other
-- interleavings are sequences of operations (History.Call, CrossWallet.Laws.Event). Words wrap as in
-- the source where it adds without a check; texts are their bytes, floating-point numbers their 64
-- bits, compared as IEEE 754 says. No function needs fuel: every loop follows a list.
--
-- Parameters stand for code outside the repository: the hash functions, the parsing and printing of
-- wallets and addresses, signature checks, base 58 and borsh, the derivation of addresses, the token
-- bucket of `governor`, the constant-time comparison of `subtle`, the rounding of floating-point
-- operations, and what the chain and the validation service answer.
--
-- Not modelled: logging, the rendering of JSON, the scoring of curve traces, the RPC
-- client, the event listener, start-up, and the operators' scripts.
pub mod Prelude
pub mod Map
pub mod Error
pub mod Clock
pub mod Integrator
pub mod Challenge
pub mod Relayer
pub mod Auth
pub mod Text
pub mod Solana
pub mod Paired
pub mod Server
pub mod Config
pub mod Status
pub mod Attestation
pub mod Validation
pub mod State
