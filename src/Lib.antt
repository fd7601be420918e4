-- ===== src/Lib.antt =====
-- The Skill Asset Protocol: how money moves through it, and who may spend it.
--
-- The model covers three parts of the repository, which are JavaScript modules.
--
-- Money (prototype/atomic-money.mjs): amounts of USDC in atomic units, split without loss.
--   Money/Input: MoneyInputError, assertAtomic, assertBps, floorBps, weightToBigInt.
--   Money/Weights: allocateByWeights and allocateByBps, the split by the largest remainder.
--   Money/Display: parseUsdc and formatUsdc.
--   Money/Royalty: allocateRoyaltyGraph. The maps and sets of its closures are the records Visits
--     and Spread, which the recursive functions validateReachable and distribute pass on;
--     Royalty/Flow describes the flow of the pool without them.
--   Money/Gross: the external and the internal split of a gross, and the journal of each.
--
-- Kernel (spikes/pi-wielder/src/kernel): what an agent's wallet may pay.
--   Kernel/Canonical and Kernel/Errors: canonical.mjs, canonical JSON, amounts and tokens.
--   Kernel/Patterns: the regular expressions of canonical.mjs and policy-engine.mjs.
--   Kernel/Platform: URL parsing, UTF-8 length, SHA-256 and JSON string quoting, as parameters.
--   Kernel/Policy: policy-engine.mjs. Fields, Document and Request validate the inputs, Projection
--     builds what is hashed, Decision selects an offer and evaluates the spend, and Decision/Stored
--     validates an evaluation that is read back.
--
-- Awards (spikes/internal-invocation-awards/src): the Invocations that an employer pays internally.
--   Awards/Errors: the errors, and the platform's dates as a parameter (Calendar).
--   Awards/Schema: schema.mjs, toAtomic, parseUtc, periodEndExclusive, validatePolicy, policyHash.
--   Awards/Quote, Awards/Registration, Awards/Outcome: schema.mjs, validateQuote, the Skill
--     registrations, and parseExecutorOutcome on whatever an executor returns.
--   Awards/Budget: budget.mjs. The state is in Budget, the operations are in Moves (reserveBudget,
--     startReservationExecution) and Settlement (finalizeReservation, releaseReservation,
--     holdUnresolvedReservation), the signed budget in Authorized and Reserved.
--     finalizeReservation calls allocateInternalGross of Money.
--   Awards/Keys and Awards/Credentials: public-keys.mjs and credentials.mjs, with Ed25519 as a
--     parameter (Crypto). Attestation and Approval are the signed papers beside a credential.
--   Awards/Store: store.mjs, a transaction for a revision of the state.
--   Awards/Receipts: statements.mjs, the receipts of Invocations. Terminal says how an Invocation
--     ended, Build makes its receipt, Signed verifies one, Merkle takes the root of many.
--   Awards/Ledger: receipt-ledger.mjs, the committed receipts and the next sequence of each scope.
--   Awards/Invocation and Awards/Engine: engine.mjs. The maps of the engine's state are association
--     lists (Base/Maps). Authorize and Replay are authorizeInternalInvocation, Exposure its caps,
--     Cancel cancelInternalAuthorization, Start and Finish the transactions of
--     executeAuthorizedInvocation before and after the executor is called, Reversal
--     recordAwardReversal, Commit commitSignedReceipt.
--     Finish/Operation has transactRecord of store.mjs, and Queue the queue of the store, which runs
--     transactions of both kinds on the state of the engine.
--     Steps makes them the steps of one relation, and Run is about sequences of them.
--
-- Base holds what the parts share: results of calls that may throw, lists and strings of UTF-16 code
-- units over native numbers, decimal text, sorting, and the dynamic values that typeof tells apart.
--
-- A call that throws returns its error; the messages are constructors, and messages of one kind may
-- share one. A bigint is a natural number behind the check that it is not negative. The recursion
-- over the ancestry of a Skill has fuel 34: a depth above 32 is refused, so a call at depth 33 is the
-- last one. The loop over the levels of the receipt tree has the number of receipts as fuel, which
-- is enough since each level has fewer. Everything else is structural recursion.
--
-- Parameters stand for what the code only calls: Platform (URLs, UTF-8, SHA-256, JSON quoting),
-- Crypto (the verification of signatures), Calendar (Date), the signer of receipts, the clock, and
-- the result of an executor, which is any value without accessors, with the string and the
-- structured clone of each of its members that is no string. An execution calls its executor between
-- two transactions, so other transactions may come between them.
--
-- Not modelled: the tests that an argument is an array or a plain object with exactly the keys of
-- its schema (the types have them), proxies, accessors and cycles, freezing, and copying but for the
-- clone of an outcome, the sets of objects that a module trusts since it made them, the functions
-- that sign or provision (signBudget, createEngineState), the monthly statements, the details that
-- an event repeats from its operation's arguments, and the other modules of the repository: the
-- SQLite ledgers and recovery of the Wallet Kernel, the economics of clones, the site and the
-- demonstrations.
pub mod Base
pub mod Money
pub mod Kernel
pub mod Awards
