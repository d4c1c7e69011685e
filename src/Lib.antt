-- ===== src/Lib.antt =====
-- walletarmy: a Go library that sends transactions of many wallets on many chains and sees them
-- through until they are mined. A caller's transaction runs in a loop: an attempt takes a nonce, builds
-- and simulates the transaction, signs it and broadcasts it; the monitor then watches it, and what it
-- reports, or the error of the broadcast, decides whether the loop tries again, with which nonce and
-- which gas price. The nonces of a wallet are shared by all attempts through the tracker, and the
-- access to a network goes through its circuit breaker.
--
-- The parts and their files:
--   Nonce        internal/nonce/tracker.go: `Tracker`, `AcquireNonce`, `ReleaseNonce`,
--                `ResyncFromRemote`, `SetPendingNonce`. Each holds the wallet's lock throughout, so
--                each is one function on the tracker, and callers interleave as the steps of
--                Nonce.Session.
--   Breaker      internal/circuitbreaker/circuitbreaker.go, with the clock's reading as an argument.
--   Idempotency  idempotency/idempotency.go: records in a heap, since the callers of the store change
--                the records that it returns. Idempotency.Spec is its specification, without either.
--   Broadcast    broadcast_error.go: the classification of a node's errors by their text.
--   Manager      manager.go (also Manager.Accounts), with manager_network.go (Manager.Network,
--                Manager.Gas), manager_nonce.go (Manager.Nonces) and options.go (Manager.Options). An
--                action takes the manager and returns it.
--   Exec         execution_context.go and types.go: configuration and retry state. Its children are
--                manager_tx.go: Build (`BuildTx`, `SignTx`, `BroadcastTx`, and
--                `BroadcastTxSync` in its child Sync), Attempt and Submit
--                (`executeTransactionAttempt`, `signAndBroadcastTransaction`), Handlers (what follows
--                an error or a status), Monitor (`MonitorTxContext`), Loop
--                (`executeTransactionLoop`); Context is the creation of a context, and Entry the calls
--                that run the loop (`EnsureTx`, `ResumePendingTransaction`).
--   Outside      what the code calls and the repository does not hold: nodes, accounts, stores,
--                hooks, the clock, the context. It is a parameter of Manager and Exec: each call takes
--                a world and returns the next one, so that nothing is assumed of an answer. A theorem
--                that needs a law asks for it: `KeepsNonce`, a factory that makes a monitor
--                (Manager.Network.Ready), no multiple of zero above zero (Exec.Context.Caps), a synchronous
--                broadcast that the context does not cut short (Exec.Loop.Leak). Whether a resumption that
--                a recovery starts comes to its end is `resumption_ends`; one that does not holds its
--                place for ever.
--   Defaults     types.go and manager.go: `ManagerDefaults` and `applyDefaultsResolution`.
--   Request      request.go: the builder, and `ExecuteContext` with or without an idempotency key.
--   Recovery     recovery.go: `reconcileNonceState` (Nonces), `processPendingTransactions` (Pending),
--                `resumeTransaction` (Resume) and `Recover` (Run); Monitors is the pass over the
--                transactions beside the goroutines that it starts, as a step relation.
--   ErrorDecoder error_decoder.go: the custom errors of contracts, found by their selector. The callers
--                only put what it returns into their errors, so that Exec does without it.
--   Funds        examples/fund_distribution: `findTransfers` (Funds), on a heap, since two of its names
--                can stand for one number; the strategies (Strategy), `EnsureTransfer` (Sending), the
--                goroutines of `ParallelExecuteTransfers` as a step relation (Parallel) and the loading
--                of keys (Keys). Plan is the same computation without the heap.
--   Adapters     adapters.go: the default factories, and the channel of the jarvis monitor as the manager
--                sees it (Forwarded).
--   Common       shared names, tests on numbers, lists, signed integers, texts.
--
-- Numbers: addresses and hashes are natural numbers; a nonce is a natural number. In the tracker its way
-- through `int64` and `big.Int` is `to_big` and `to_uint64`, which wrap at 2^64; outside of it, in what
-- `acquireNonce` returns and in the nonce of the retry state, that way is left out, so that those parts
-- are as the code for nonces below 2^63, where it is the identity. Durations, times and the
-- configured limits are integers with no bound. A `float64` is of an abstract type of Outside.
--
-- Bounds and fuel: `find_from` runs on the length of the range, which is all the loop needs.
-- `execute_loop` runs on a number of rounds, since the loop of the code need not end: some errors are
-- tried again without being counted. `hangs` stands for a monitor that sends nothing, `crashes` for
-- the dereference of a nil receipt and for the call of a monitor that is nil. The theorems on the loop
-- hold for every number of rounds.
--
-- Not modelled: the methods of adapters.go that only pass a call on; the options that set factories,
-- which are the fields of Outside; logging; the goroutines that deliver notices and run the store's
-- cleanup at intervals; the racing example. The resumptions that a recovery starts run concurrently in
-- the code: Recovery.Pending collects them, each one run of `resume_transaction`, and
-- Recovery.Monitors interleaves the pass with goroutines that do anything to the manager.
pub mod Common
pub mod Breaker
pub mod Nonce
pub mod Broadcast
pub mod Idempotency
pub mod Outside
pub mod Defaults
pub mod Manager
pub mod Exec
pub mod Request
pub mod Recovery
pub mod ErrorDecoder
pub mod Funds
pub mod Adapters
