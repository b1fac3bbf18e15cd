-- ===== src/Lib.antt =====
-- eth-fund-trace: a model of the program that follows funds over an Ethereum chain.
--
-- The program synchronises the transfers of an address from a chain API into a database
-- (internal/syncer), traces the flow of funds from a seed address over the stored transfers
-- (internal/tracer), keeps a ledger of what is explained, and rates the seed by its labels
-- (internal/risk) and addresses by their activity (internal/profile).
--
-- Syncer      internal/syncer/manager.go. `Coverage` has the arithmetic of block ranges;
--             `State` the errors, the client and the database as the interface `Env`, and the
--             state `Sync` of the loops; `Persist` is persistTransfers, `FetchRange` is fetchRange
--             and `FetchRecent` is fetchRecentRange. Each recursive function of the code is one
--             step that takes the function for its own calls, and a loop on fuel over it. Every
--             call of the code is for a shorter block range, so the number of blocks of the range
--             is enough fuel. `Actions` is the loop of syncAddress over the three histories with
--             their intervals, checkpoints and limits, where a break or an error is the value of a
--             round; `Address` is the rest of syncAddress over the interface `AddressEnv`.
--             `Process` is process with its neighbours, `Queue` is Enqueue with the active keys and the
--             channel, whose worker takes and releases jobs in the steps of a relation; a call of
--             Enqueue is one step, and the channel a list with a bound.
--             `Contract` and `Address.Trusted` say what the client and the database are relied on
--             for.
-- Tracer      internal/tracer: `Types` the facts of a trace, `Assets` tokens.go and amount.go,
--             `Identity` roles and terminal nodes, `Facts` edges, keys and queries, `Conversion`
--             the transfers that the interpretation of a transaction gives, `Money`
--             consumeMoneyStates and `Ledger` buildLedgers of tracer.go; `Extension` is MergeResults,
--             `Anchors` extensionAnchors and `Branch` the loop of ExtendBranch over the
--             transfers of an anchor, all of extension.go; `Dependencies` is the loop of process in
--             manager.go that runs a root trace again for each address it misses, with waitSync
--             and fail; its fuel is the number of traces and the number of looks at a job, both
--             shown to be enough in its children. `RootTrace` is the rest of process for a root
--             trace, from its first write to its last one, and `Stopping` is Stop.
--             `Search` is traceSameChain of tracer.go: its state and calls, and in the children
--             `Endpoints`, `CrossChain` and `Convert` the routers and the conversions, `Side`,
--             `Visit` and `Expand` the closure expand, `Rounds` the loop over the frontier and
--             `Trace` the seed and the sums. An early return keeps what was written to the
--             repository; the fuel is the number of rounds, and `Whole` shows how many are enough.
--             Waiting for the synchroniser is cancelled by the context, or by an answer that is a
--             cancelled context. Pointers into the slice of states are
--             positions in a list, and a map from which a list is made keeps the order of
--             insertion until the list is sorted. `Retrace` puts the search into the loop of
--             `Dependencies`; a search that runs out of fuel is an error there, which is why the
--             number of rounds is a parameter.
-- Risk        internal/risk/risk.go; the float64 confidence is an integer in millionths.
-- Profile     internal/profile/profile.go: `Scores` is about evaluate, `Again` about Get.
-- Store       internal/store/models.go: the records the components share.
-- Ethaddr     internal/ethaddr/address.go and internal/chains/registry.go.
-- Text        the functions of strings and math/big that the code calls on addresses and amounts:
--             ASCII letters only have a case here, and a big.Int is ℤ with its decimal text.
-- Prelude     numbers, lists, maps and tests.
--
-- Block numbers, counts and times are natural numbers; the checkpoint before block 0 is the
-- integer -1. A time is a number of nanoseconds. The repository, the API client, the clock and the
-- hook are parameters. Not modelled: HTTP, MongoDB, RPC and JSON, the cancellation of
-- contexts and Stop of the synchroniser, and of the tracer's jobs the queue and the extensions.
pub mod Prelude
pub mod Text
pub mod Ethaddr
pub mod Store
pub mod Syncer
pub mod Risk
pub mod Tracer
pub mod Profile
